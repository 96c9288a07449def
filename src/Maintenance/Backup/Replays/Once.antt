-- ===== src/Maintenance/Backup/Replays/Once.antt =====
-- Any number of runs of `replay_backups`, one after the other, of ansible/host-maintenance/files/maintenance-agent.py.
use my_infra.Prelude.{
  ℕ, ◌+◌, ◌≤◌, refl, ap, Bool, true, false, not, ◌&&◌, Option, none, some, List, [], ◌∷◌, String,
  arith, ◌==◌, string_eq, if◌then◌else◌, Bool-cases, Option-cases, inl, inr,
}
use my_infra.Maintenance.Exec.{
  runtime_error, subprocess_error, value_error, key_error, index_error, os_error, pure, Result, ok,
  err, then_do, Result-cases,
}
use my_infra.Prelude.Dict.{lookup, keys}
use my_infra.Maintenance.Pve.{Item, Queue, World, State, pve_healthy, pve_tasks_idle, Running}
use my_infra.Maintenance.Backup.Journal.{replay_backup_item}
use my_infra.Maintenance.Backup.Journal.Safe.{Safe, submits, startable, IsDurable}
use my_infra.Maintenance.Backup.Journal.Asks.{pve_healthy-Safe, pve_tasks_idle-Safe}
use my_infra.Maintenance.Backup.Journal.Replay.{then-Safe, replay_backup_item-Safe}
use my_infra.Maintenance.Backup.Replays.{
  after_tasks, archive, archive_finished, all_finished, replay_items, replay_all, when_tasks_idle,
  resume, replay_backups, defer,
}

-- 1 if the journal on disk has an item for the key that a replay may yet submit.
abbrev pub startable_on_disk : String → Option Queue → ℕ
startable_on_disk key none = 0
startable_on_disk key (some queue) = startable (lookup key queue.items)

-- Runs of `replay_backups` with nothing between them, each in a world of its own.
unfoldable pub replay_runs : List World → State → State
unfolding replay_backups
replay_runs [] s = s
replay_runs (w ∷ ws) s = replay_runs ws (replay_backups w s).1

module _ (j : String) (bound : ℕ) where
  abbrev Fine : State → Type 0
  Fine s = Safe j bound true s

  -- Between runs only the disk counts.
  record AtRest (s : State) : Type 0 where
    budget : submits j s.log + startable_on_disk j s.journal ≤ bound
    durable : IsDurable s.log

  rest : (s : State) → Fine s → AtRest s
  rest s h = record { budget = rw (h.synced refl) (h.budget); durable = h.durable }

  module _ (w : World) where
    replay_items-Safe : (ks : List String) (s : State) → Fine s → Fine (replay_items w ks s).1
    unfolding replay_items
    replay_items-Safe [] s h = h
    replay_items-Safe (key ∷ ks) s h =
        then-Safe w j bound true (defer (replay_backup_item w key s)) (λ _. replay_items w ks)
          (replay_backup_item-Safe w j bound true key s h)
          (λ _ _. replay_items-Safe ks _ (replay_backup_item-Safe w j bound true key s h))

    archive_finished-AtRest : (s : State) → Fine s → AtRest (archive_finished s).1
    unfolding archive_finished archive
    archive_finished-AtRest s h = elim (Bool-cases (all_finished s.queue.items)) [
      | inr a ↦ rw (archive_finished, a) (rest s h)
      | inl a ↦
          rw (archive_finished, a)
            record { budget = omega (arith, h.budget); durable = (tt, (tt, h.durable)) }
    ]

    then-AtRest :
        (r : Result (Unit {0}) × State) (f : Unit → State → Result (Unit {0}) × State)
        → Fine r.1
        → ((a : Unit) (s : State) → Fine s → AtRest (f a s).1)
        → AtRest (then_do r f).1
    then-AtRest (ok a, s) f h k = k a s h
    then-AtRest (err e, s) f h k = rest s h

    replay_all-AtRest : (s : State) → Fine s → AtRest (replay_all w s).1
    unfolding replay_all
    replay_all-AtRest s h =
        then-AtRest (replay_items w (keys s.queue.items) s) (λ _. archive_finished)
          (replay_items-Safe (keys s.queue.items) s h) (λ _. archive_finished-AtRest)

    after_tasks-AtRest :
        (r : Result (List Running) × State) → Fine r.1 → AtRest (after_tasks (replay_all w) r).1
    after_tasks-AtRest (ok a, s) h = replay_all-AtRest s h
    after_tasks-AtRest (err runtime_error, s) h = rest s h
    after_tasks-AtRest (err subprocess_error, s) h = rest s h
    after_tasks-AtRest (err value_error, s) h = rest s h
    after_tasks-AtRest (err key_error, s) h = rest s h
    after_tasks-AtRest (err index_error, s) h = rest s h
    after_tasks-AtRest (err os_error, s) h = rest s h

    when_tasks_idle-AtRest : (s : State) → Fine s → AtRest (when_tasks_idle w s).1
    unfolding when_tasks_idle
    when_tasks_idle-AtRest s h =
        after_tasks-AtRest (pve_tasks_idle w true s) (pve_tasks_idle-Safe w j bound true s h)

    if_healthy-AtRest :
        (healthy : Bool) (s : State)
        → Fine s
        → AtRest ((if healthy then when_tasks_idle w else pure tt) s).1
    if_healthy-AtRest true s h = when_tasks_idle-AtRest s h
    if_healthy-AtRest false s h = rest s h

    resume-AtRest : (queue : Queue) (s : State) → Fine s → AtRest (resume w queue s).1
    unfolding resume
    resume-AtRest queue s h = elim (Option-cases (queue.boot_id)) [
      | inl a ↦ rw (resume, a) (rest s h)
      | inr (id, a) ↦ elim (Bool-cases ((id == w.boot_id) && not queue.resume_allowed)) [
        | inl b ↦ rw (resume, a, b) (rest s h)
        | inr b ↦ elim (Result-cases ((pve_healthy w s).0)) [
          | inr (_, c) ↦ rw (resume, a, b, c) (rest _ (pve_healthy-Safe w j bound true s h))
          | inl (healthy, c) ↦
              rw (resume, a, b, c)
                (if_healthy-AtRest healthy _ (pve_healthy-Safe w j bound true s h))
        ]
      ]
    ]

    replay_backups-AtRest : (s : State) → AtRest s → AtRest (replay_backups w s).1
    unfolding replay_backups
    replay_backups-AtRest s h = elim (Option-cases (s.journal)) [
      | inl a ↦ rw (replay_backups, a) h
      | inr (queue, a) ↦
          rw (replay_backups, a)
            (resume-AtRest queue (record s { queue = queue })
              record {
                budget = omega (arith, h.budget, ap (startable_on_disk j) a);
                synced = λ _. a;
                durable = h.durable;
              })
    ]

  replay_runs-AtRest : (ws : List World) (s : State) → AtRest s → AtRest (replay_runs ws s)
  unfolding replay_runs
  replay_runs-AtRest [] s h = h
  replay_runs-AtRest (w ∷ ws) s h = replay_runs-AtRest ws _ (replay_backups-AtRest w s h)

startable_bound : (o : Option Item) → startable o ≤ 1
startable_bound none = omega arith
startable_bound (some item) = ground arith

startable_on_disk_bound :
    (key : String) (journal : Option Queue) → startable_on_disk key journal ≤ 1
startable_on_disk_bound key none = omega arith
startable_on_disk_bound key (some queue) = startable_bound (lookup key queue.items)

-- Over any number of runs of `replay_backups` with nothing between them, whatever the cluster answers and
-- however each run ends, a backup is submitted at most once more than before, and not at all if its item
-- on disk is finished, is being submitted or has a replay, or if there is none. Each submission stands in
-- the log directly after a save of the journal in which its item is being submitted, if that was so before.
pub replay_runs-submits :
    (ws : List World) (s : State) (key : String)
    → IsDurable s.log
    → submits key (replay_runs ws s).log ≤ submits key s.log + startable_on_disk key s.journal
      × startable_on_disk key s.journal ≤ 1
      × IsDurable (replay_runs ws s).log
replay_runs-submits ws s key h =
    let r =
      replay_runs-AtRest key (submits key s.log + startable_on_disk key s.journal) ws s
        record { budget = omega arith; durable = h } in
    (omega (arith, r.budget), startable_on_disk_bound key s.journal, r.durable)
