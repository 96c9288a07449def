-- ===== src/Maintenance/Backup/Journal/Asks.antt =====
-- `pve_healthy` and `pve_tasks_idle` of ansible/host-maintenance/files/maintenance-agent.py ask, and
-- leave the journal alone.
use my_infra.Prelude.{
  Bool, ℕ, refl, Bool, true, ◌∷◌, String, string_eq, leb, length, Bool-cases, inl, inr,
}
use my_infra.Maintenance.Exec.{Result-cases}
use my_infra.Maintenance.Pve.{
  World, State, cluster_status, services, package_locks, dpkg_audit, active_tasks, package_idle,
  pve_healthy, node_tasks, pve_tasks_idle, cluster_healthy,
}
use my_infra.Maintenance.Backup.Journal.Safe.{Safe, asked-Safe}

module _ (w : World) (j : String) (bound : ℕ) (agreed : Bool) where
  abbrev Fine : State → Type 0
  Fine s = Safe j bound agreed s

  package_idle-Safe : (s : State) → Fine s → Fine (package_idle w s).1
  unfolding package_idle
  package_idle-Safe s h = elim (Result-cases (w.package_locks s.log)) [
    | inr (_, a) ↦ rw (package_idle, a) (asked-Safe j bound agreed package_locks s refl refl h)
    | inl (free, a) ↦ elim (Bool-cases free) [
      | inr b ↦ rw (package_idle, a, b) (asked-Safe j bound agreed package_locks s refl refl h)
      | inl b ↦
          rw (package_idle, a, b)
            (asked-Safe j bound agreed dpkg_audit _ refl refl
              (asked-Safe j bound agreed package_locks s refl refl h))
    ]
  ]

  pub pve_healthy-Safe : (s : State) → Fine s → Fine (pve_healthy w s).1
  unfolding pve_healthy
  pve_healthy-Safe s h =
      let one = asked-Safe j bound agreed cluster_status s refl refl h in
      let two = asked-Safe j bound agreed services _ refl refl one in
      elim (Result-cases (w.cluster_status s.log)) [
        | inr (_, a) ↦ rw (pve_healthy, a) one
        | inl (cluster, a) ↦ elim (Result-cases (w.services (cluster_status ∷ s.log))) [
          | inr (_, b) ↦ rw (pve_healthy, a, b) two
          | inl (lines, b) ↦ elim (Bool-cases (cluster_healthy cluster lines)) [
            | inr c ↦ rw (pve_healthy, a, b, c) two
            | inl c ↦ rw (pve_healthy, a, b, c) (package_idle-Safe _ two)
          ]
        ]
      ]

  node_tasks-Safe : (node : String) (s : State) → Fine s → Fine (node_tasks w true node s).1
  unfolding node_tasks
  node_tasks-Safe node s h =
      let asked = asked-Safe j bound agreed (active_tasks node) s refl refl h in
      elim (Result-cases (w.active_tasks s.log node)) [
        | inr (_, a) ↦ rw (node_tasks, a) asked
        | inl (tasks, a) ↦ elim (Bool-cases (leb 1000 (length tasks))) [
          | inl b ↦ rw (node_tasks, a, b) asked
          | inr b ↦ rw (node_tasks, a, b) asked
        ]
      ]

  pub pve_tasks_idle-Safe : (s : State) → Fine s → Fine (pve_tasks_idle w true s).1
  unfolding pve_tasks_idle
  pve_tasks_idle-Safe s h =
      let asked = node_tasks-Safe "pve-x570" s h in
      elim (Result-cases ((node_tasks w true "pve-x570" s).0)) [
        | inr (_, a) ↦ rw (pve_tasks_idle, a) asked
        | inl (first, a) ↦
            elim (Result-cases
              ((node_tasks w true "pve-b550m" (node_tasks w true "pve-x570" s).1).0)) [
                | inr (_, b) ↦ rw (pve_tasks_idle, a, b) (node_tasks-Safe "pve-b550m" _ asked)
                | inl (_, b) ↦ rw (pve_tasks_idle, a, b) (node_tasks-Safe "pve-b550m" _ asked)
              ]
      ]
