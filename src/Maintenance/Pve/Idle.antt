-- ===== src/Maintenance/Pve/Idle.antt =====
-- When `pve_tasks_idle` of ansible/host-maintenance/files/maintenance-agent.py lets maintenance go on.
use my_infra.Prelude.{
  ℕ, ◌<◌, ◌≡◌, ◌↔◌, refl, sym, subst, Bool, true, false, not, ◌||◌, List, [], ◌∷◌, ◌++◌, String,
  arith, leb, length, map, All, Bool-cases, inl, inr,
}
use my_infra.Maintenance.Exec.{Error, Result, ok, err, Result-cases}
use my_infra.Maintenance.Pve.{
  Task, World, State, Event, active_tasks, Running, is_backup, only_backups, node_tasks,
  pve_tasks_idle,
}

-- The tasks, each with its node.
abbrev pub on_node : String → List Task → List Running
on_node node = map (λ task. (task, node))

abbrev pub Allowed : Bool → Task → Type 0
Allowed allow task = (allow ≡ true) × (is_backup task ≡ true)

allowed :
    (allow : Bool) (task : Task) → not allow || not (is_backup task) ≡ false → Allowed allow task
allowed allow task b = ground arith

refused_absurd :
    (allow : Bool) (task : Task) → not allow || not (is_backup task) ≡ true → Allowed allow task → ⊥
refused_absurd allow task b h = ground (arith, h.0, h.1)

err_absurd : {A : Type 0} {r : Result A} (x : Error) (a : A) → r ≡ err x → r ≡ ok a → ⊥
err_absurd x a e f = cc

only_backups_iff :
    (allow : Bool) (node : String) (tasks : List Task) (r : List Running)
    → (only_backups allow node tasks ≡ ok r) ↔ (All (Allowed allow) tasks × r ≡ on_node node tasks)
unfolding only_backups
only_backups_iff allow node [] r = (λ e. (tt, cc), λ h. cc (h.1))
only_backups_iff allow node (task ∷ tasks) r =
    let ih = only_backups_iff allow node tasks in
    elim (Bool-cases (not allow || not (is_backup task))) [
      | inl b ↦
          rw (only_backups, b) (λ q. absurd cc, λ h. absurd (refused_absurd allow task b h.0.0))
      | inr b ↦ elim (Result-cases (only_backups allow node tasks)) [
        | inl (rest, e) ↦
            rw (only_backups, b, e)
              (
                λ q. ((allowed allow task b, ((ih rest).0 e).0), cc (((ih rest).0 e).1)),
                λ h. cc (((ih rest).0 e).1, h.1),
              )
        | inr (x, e) ↦
            rw (only_backups, b, e)
              (
                λ q. absurd cc,
                λ h. absurd (
                    err_absurd x (on_node node tasks) e
                      ((ih (on_node node tasks)).1 (h.0.1, refl))),
              )
      ]
    ]

-- What a node must answer.
abbrev pub NodeInventory : Bool → Result (List Task) → List Task → Type 0
NodeInventory allow answer tasks =
    (answer ≡ ok tasks) × (length tasks < 1000) × All (Allowed allow) tasks

pub record Inventory (w : World) (allow : Bool) (log : List Event) (r : List Running) : Type 0 where
  pub first : List Task
  pub second : List Task
  pub x570 : NodeInventory allow (w.active_tasks log "pve-x570") first
  pub b550m :
      NodeInventory allow (w.active_tasks (active_tasks "pve-x570" ∷ log) "pve-b550m") second
  pub all : r ≡ on_node "pve-x570" first ++ on_node "pve-b550m" second

not_many : (n : ℕ) → n < 1000 → leb 1000 n ≡ false
not_many n few = ground (arith, few)

-- The tasks of a node, and what is made of them.
record NodeResult (allow : Bool) (node : String) (answer : Result (List Task)) (r : List Running)
    : Type 0 where
  tasks : List Task
  fits : NodeInventory allow answer tasks
  all : r ≡ on_node node tasks

module _ (w : World) (allow : Bool) (node : String) (s : State) (r : List Running) where
  of_node_tasks :
      (node_tasks w allow node s).0 ≡ ok r → NodeResult allow node (w.active_tasks s.log node) r
  unfolding node_tasks
  of_node_tasks = elim (Result-cases (w.active_tasks s.log node)) [
    | inr (x, e) ↦ rw (node_tasks, e) (λ q. absurd cc)
    | inl (tasks, e) ↦ elim (Bool-cases (leb 1000 (length tasks))) [
      | inl b ↦ rw (node_tasks, e, b) (λ q. absurd cc)
      | inr b ↦
          rw (node_tasks, e, b)
            (λ q.
              let h = (only_backups_iff allow node tasks r).0 q in
              record { tasks = tasks; fits = (refl, ground (arith, b), h.0); all = h.1 })
    ]
  ]

  to_node_tasks :
      (tasks : List Task)
      → NodeInventory allow (w.active_tasks s.log node) tasks
      → r ≡ on_node node tasks
      → (node_tasks w allow node s).0 ≡ ok r
  unfolding node_tasks
  to_node_tasks tasks (e, few, good) all =
      rw (node_tasks, e, not_many (length tasks) few)
        ((only_backups_iff allow node tasks r).1 (good, all))

module _ (w : World) (allow : Bool) (s : State) (r : List Running) where
  asked_log : (node_tasks w allow "pve-x570" s).1.log ≡ active_tasks "pve-x570" ∷ s.log
  unfolding node_tasks
  asked_log = elim (Result-cases (w.active_tasks s.log "pve-x570")) [
    | inr (x, e) ↦ rw (node_tasks, e) refl
    | inl (tasks, e) ↦ elim (Bool-cases (leb 1000 (length tasks))) [
      | inl b ↦ rw (node_tasks, e, b) refl
      | inr b ↦ rw (node_tasks, e, b) refl
    ]
  ]

  of_idle : (pve_tasks_idle w allow s).0 ≡ ok r → Inventory w allow s.log r
  unfolding pve_tasks_idle
  of_idle = elim (Result-cases ((node_tasks w allow "pve-x570" s).0)) [
    | inr (x, a) ↦ rw (pve_tasks_idle, a) (λ q. absurd cc)
    | inl (f, a) ↦
        elim (Result-cases
          ((node_tasks w allow "pve-b550m" (node_tasks w allow "pve-x570" s).1).0)) [
            | inr (x, b) ↦ rw (pve_tasks_idle, a, b) (λ q. absurd cc)
            | inl (g, b) ↦
                rw (pve_tasks_idle, a, b)
                  (λ q.
                    let one = of_node_tasks w allow "pve-x570" s f a in
                    let two =
                      of_node_tasks w allow "pve-b550m" (node_tasks w allow "pve-x570" s).1 g b in
                    record {
                      first = one.tasks;
                      second = two.tasks;
                      x570 = one.fits;
                      b550m =
                          subst
                            (λ log. NodeInventory allow (w.active_tasks log "pve-b550m") two.tasks)
                            asked_log two.fits;
                      all = cc (one.all, two.all);
                    })
          ]
  ]

  to_idle : Inventory w allow s.log r → (pve_tasks_idle w allow s).0 ≡ ok r
  unfolding pve_tasks_idle
  to_idle h =
      let a = to_node_tasks w allow "pve-x570" s (on_node "pve-x570" h.first) h.first h.x570 refl in
      let b =
        to_node_tasks w allow "pve-b550m" (node_tasks w allow "pve-x570" s).1
          (on_node "pve-b550m" h.second) h.second
          (subst (λ log. NodeInventory allow (w.active_tasks log "pve-b550m") h.second)
            (sym asked_log) h.b550m)
          refl in
      rw (pve_tasks_idle, a, b) (cc h.all)

-- `pve_tasks_idle` gives a result exactly if both nodes answer with fewer than 1000 tasks and each of
-- these is a backup, where backups are allowed; if they are not, there must be no task. The result is
-- all of the tasks, each with its node.
pub pve_tasks_idle_iff :
    (w : World) (allow : Bool) (s : State) (r : List Running)
    → ((pve_tasks_idle w allow s).0 ≡ ok r) ↔ Inventory w allow s.log r
pve_tasks_idle_iff w allow s r = (of_idle w allow s r, to_idle w allow s r)
