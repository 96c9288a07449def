-- ===== src/Maintenance/Backup/Journal/Replay.antt =====
-- `replay_backup_item` of ansible/host-maintenance/files/maintenance-agent.py does to the journal
-- only what is safe.

use my_infra.Prelude.{
  ℕ, ◌≡◌, ◌≢◌, ◌≤◌, refl, ap, Bool, true, not, ◌&&◌, some, List, [], ◌∷◌, String, arith, ◌==◌,
  string_eq, leb, length, Bool-cases, Option-cases, inl, inr,
}
use text.Mathlib.TextEquality.{eq_iff}
use my_infra.Maintenance.Exec.{Result, ok, err, then_do, Result-cases}
use my_infra.Prelude.Dict.{Dict, lookup, modify, lookup-modify}
use my_infra.Maintenance.Pve.{
  TaskStatus, Item, Queue, Task, World, State, task_status, task_log, task_history, active_tasks,
  storage_status, saved,
}
use my_infra.Maintenance.Backup.Arguments.{backup_arguments, valid_identity, is_found}
use text.Mathlib.Text.{find?}
use my_infra.Maintenance.Backup.Signature.{same_signature}
use my_infra.Maintenance.Backup.Journal.{
  says_ok, stopped_item, found_item, submitted_item, done_item, finished, is_submitting, replay_of,
  is_backup, any_backup, storage_of, backup_save, backup_status, follow_replay, find_replay,
  reconcile, submit_item, storage_ready, when_idle, start_replay, replay_item, replay_backup_item,
}
use my_infra.Maintenance.Backup.Journal.Safe.{
  Safe, saved_item, startable, startable_item, asked-Safe, changed-Safe,
}

module _ (w : World) (j : String) (bound : ℕ) (agreed : Bool) where
  abbrev Fine : State → Type 0
  Fine s = Safe j bound agreed s

  stopped_less :
      (status : TaskStatus) (i : Item) → startable_item (stopped_item status i) ≤ startable_item i
  stopped_less status i = ground arith

  done_less : (i : Item) → startable_item (done_item i) ≤ startable_item i
  done_less i = ground arith

  found_less :
      (upid : String) (i : Item) → upid ≢ "" → startable_item (found_item upid i) ≤ startable_item i
  found_less upid i named = ground (arith, eq_iff upid "")

  submitted_none :
      (now : ℕ) (i : Item) → startable_item i ≡ 1 → startable_item (submitted_item now i) ≡ 0
  submitted_none now i one = ground arith

  lookup_same :
      (k j : String) (items : Dict Item) (i : Item)
      → (k == j) ≡ true
      → lookup k items ≡ some i
      → lookup j items ≡ some i
  lookup_same k j items i d e = cc ((eq_iff k j).0 d)

  saved_submitting :
      (k : String) (now : ℕ) (q : Queue) (i : Item)
      → lookup k q.items ≡ some i
      → saved_item k (saved (record q { items = modify k (submitted_item now) q.items }))
        ≡ some (submitted_item now i)
  saved_submitting k now q i e =
      rw (saved_item, lookup-modify k k (submitted_item now) q.items, (eq_iff k k).1 refl, e) refl

  -- An action after one that may raise.
  pub then-Safe :
      {A : Type 0} (r : Result A × State) (f : A → State → Result (Unit {0}) × State)
      → Fine r.1
      → ((a : A) → r.0 ≡ ok a → Fine (f a r.1).1)
      → Fine (then_do r f).1
  then-Safe (ok a, s) f h k = k a refl
  then-Safe (err e, s) f h k = h

  -- The log of a backup is asked for, at most.
  pub backup_arguments-Safe :
      (node upid : String) (s : State) → Fine s → Fine (backup_arguments w node upid s).1
  unfolding backup_arguments
  backup_arguments-Safe node upid s h =
      elim (Bool-cases (valid_identity (λ pattern t. is_found (find? t pattern)) node upid)) [
        | inr e ↦ rw (e, backup_arguments) h
        | inl e ↦ elim (Result-cases (w.task_log s.log node upid)) [
          | inl (line, a) ↦
              rw (e, backup_arguments, a)
                (asked-Safe j bound agreed (task_log node upid) s refl refl h)
          | inr (_, a) ↦
              rw (e, backup_arguments, a)
                (asked-Safe j bound agreed (task_log node upid) s refl refl h)
        ]
      ]

  backup_arguments_named :
      (node : String) (s : State) (a : List String) → (backup_arguments w node "" s).0 ≢ ok a
  unfolding backup_arguments
  backup_arguments_named node s a e = ground arith

  follow_replay-Safe :
      (key : String) (item : Item) (upid : String) (s : State)
      → Fine s
      → Fine (follow_replay w key item upid s).1
  unfolding follow_replay backup_status backup_save
  follow_replay-Safe key item upid s h = elim (Result-cases (w.task_status s.log item.node upid)) [
    | inr (_, a) ↦
        rw (a, follow_replay, backup_status)
          (asked-Safe j bound agreed (task_status item.node upid) s refl refl h)
    | inl (status, a) ↦ elim (Bool-cases (status.status == "stopped")) [
      | inr e ↦
          rw (a, follow_replay, backup_status, e)
            (asked-Safe j bound agreed (task_status item.node upid) s refl refl h)
      | inl e ↦
          rw (a, follow_replay, backup_status, e, backup_save)
            (changed-Safe j bound agreed key (stopped_item status) _ (λ i _. stopped_less status i)
              (asked-Safe j bound agreed (task_status item.node upid) s refl refl h))
    ]
  ]

  find_replay-Safe :
      (key : String) (item : Item) (tasks : List Task) (s : State)
      → Fine s
      → Fine (find_replay w key item tasks s).1
  unfolding find_replay backup_save
  find_replay-Safe key item [] s h = h
  find_replay-Safe key item (task ∷ tasks) s h =
      elim (Bool-cases (is_backup task && not (task.upid == item.original_upid))) [
        | inr e ↦ rw (e, find_replay) (find_replay-Safe key item tasks s h)
        | inl e ↦
            rw (e, find_replay)
              (then-Safe (backup_arguments w item.node task.upid s) _
                (backup_arguments-Safe item.node task.upid s h)
                (λ arguments r. elim (Bool-cases (same_signature arguments item.arguments)) [
                  | inr d ↦ rw d (
                      find_replay-Safe key item tasks _
                        (backup_arguments-Safe item.node task.upid s h))
                  | inl d ↦ rw d (
                      changed-Safe j bound agreed key (found_item task.upid) _
                        (λ i _.
                          found_less task.upid i
                            (λ p. backup_arguments_named item.node s arguments cc))
                        (backup_arguments-Safe item.node task.upid s h))
                ]))
      ]

  reconcile-Safe :
      (key : String) (item : Item) (s : State) → Fine s → Fine (reconcile w key item s).1
  unfolding reconcile
  reconcile-Safe key item s h = elim (Option-cases (item.submitted_at)) [
    | inl a ↦ rw (a, reconcile) h
    | inr (since, a) ↦ elim (Result-cases (w.task_history s.log item.node since)) [
      | inr (_, b) ↦
          rw (a, reconcile, b)
            (asked-Safe j bound agreed (task_history item.node since) s refl refl h)
      | inl (tasks, b) ↦ elim (Bool-cases (leb 1000 (length tasks))) [
        | inl d ↦
            rw (a, reconcile, b, d)
              (asked-Safe j bound agreed (task_history item.node since) s refl refl h)
        | inr d ↦
            rw (a, reconcile, b, d)
              (find_replay-Safe key item tasks _
                (asked-Safe j bound agreed (task_history item.node since) s refl refl h))
      ]
    ]
  ]

  storage_ready-Safe : (item : Item) (s : State) → Fine s → Fine (storage_ready w item s).1
  unfolding storage_ready
  storage_ready-Safe item s h = elim (Option-cases (storage_of item.arguments)) [
    | inl a ↦ rw (a, storage_ready) h
    | inr (r, a) ↦ elim (Result-cases r) [
      | inr (e, b) ↦ rw (a, storage_ready, b) h
      | inl (storage, b) ↦
          rw (a, storage_ready, b)
            (asked-Safe j bound agreed (storage_status item.node storage) s refl refl h)
    ]
  ]

  storage_ready_queue : (item : Item) (s : State) → (storage_ready w item s).1.queue ≡ s.queue
  unfolding storage_ready
  storage_ready_queue item s = elim (Option-cases (storage_of item.arguments)) [
    | inl a ↦ rw (a, storage_ready) refl
    | inr (r, a) ↦ elim (Result-cases r) [
      | inr (e, b) ↦ rw (a, storage_ready, b) refl
      | inl (storage, b) ↦ rw (a, storage_ready, b) refl
    ]
  ]

  submit_item-Safe :
      (key : String) (item : Item) (s : State)
      → lookup key s.queue.items ≡ some item
      → startable_item item ≡ 1
      → Fine s
      → Fine (submit_item w key item s).1
  unfolding submit_item backup_save
  submit_item-Safe key item s e one h = record {
    budget = elim (Bool-cases (key == j)) [
      | inl d ↦
          rw
            (
              lookup-modify j key (submitted_item (w.time s.log)) s.queue.items,
              d,
              lookup_same key j s.queue.items item d e,
            )
            (omega (
              arith,
              submitted_none (w.time s.log) item one,
              h.budget,
              one,
              ap startable (lookup_same key j s.queue.items item d e),
            ))
      | inr d ↦ rw (lookup-modify j key (submitted_item (w.time s.log)) s.queue.items, d) (h.budget)
    ];
    synced = λ _. refl;
    durable = (
      (
        submitted_item (w.time s.log) item,
        saved_submitting key (w.time s.log) s.queue item e,
        refl,
      ),
      (tt, h.durable),
    );
  }

  when_idle-Safe :
      (key : String) (item : Item) (s : State)
      → lookup key s.queue.items ≡ some item
      → startable_item item ≡ 1
      → Fine s
      → Fine (when_idle w key item s).1
  unfolding when_idle
  when_idle-Safe key item s e one h = elim (Result-cases (w.active_tasks s.log item.node)) [
    | inr (_, a) ↦
        rw (a, when_idle) (asked-Safe j bound agreed (active_tasks item.node) s refl refl h)
    | inl (active, a) ↦ elim (Bool-cases (any_backup active)) [
      | inl d ↦
          rw (a, when_idle, d) (asked-Safe j bound agreed (active_tasks item.node) s refl refl h)
      | inr d ↦
          rw (a, when_idle, d)
            (then-Safe (storage_ready w item _) _
              (storage_ready-Safe item _
                (asked-Safe j bound agreed (active_tasks item.node) s refl refl h))
              (λ ready _. elim (Bool-cases ready) [
                | inr r ↦ rw r (
                    storage_ready-Safe item _
                      (asked-Safe j bound agreed (active_tasks item.node) s refl refl h))
                | inl r ↦ rw r (
                    submit_item-Safe key item _
                      (rw
                        (storage_ready_queue item
                          (record s { log = active_tasks item.node ∷ s.log }))
                        e)
                      one
                      (storage_ready-Safe item _
                        (asked-Safe j bound agreed (active_tasks item.node) s refl refl h)))
              ]))
    ]
  ]

  start_replay-Safe :
      (key : String) (item : Item) (s : State)
      → lookup key s.queue.items ≡ some item
      → startable_item item ≡ 1
      → Fine s
      → Fine (start_replay w key item s).1
  unfolding start_replay backup_status backup_save
  start_replay-Safe key item s e one h =
      let asked =
        asked-Safe j bound agreed (task_status item.node item.original_upid) s refl refl h in
      elim (Result-cases (w.task_status s.log item.node item.original_upid)) [
        | inr (_, a) ↦ rw (a, start_replay, backup_status) asked
        | inl (original, a) ↦ elim (Bool-cases (original.status == "stopped")) [
          | inr d ↦ rw (a, start_replay, backup_status, d) asked
          | inl d ↦ elim (Bool-cases (says_ok original.exitstatus)) [
            | inl o ↦
                rw (a, start_replay, backup_status, d, o, backup_save)
                  (changed-Safe j bound agreed key done_item _ (λ i _. done_less i) asked)
            | inr o ↦
                rw (a, start_replay, backup_status, d, o) (when_idle-Safe key item _ e one asked)
          ]
        ]
      ]

  replay_item-Safe :
      (key : String) (item : Item) (s : State)
      → lookup key s.queue.items ≡ some item
      → Fine s
      → Fine (replay_item w key item s).1
  unfolding replay_item
  replay_item-Safe key item s e h = elim (Bool-cases (finished item.state)) [
    | inl a ↦ rw (replay_item, a) h
    | inr a ↦ elim (Option-cases (replay_of item)) [
      | inr (upid, b) ↦ rw (replay_item, a, b) (follow_replay-Safe key item upid s h)
      | inl b ↦ elim (Bool-cases (is_submitting item.state)) [
        | inl c ↦ rw (replay_item, a, b, c) (reconcile-Safe key item s h)
        | inr c ↦ rw (replay_item, a, b, c) (start_replay-Safe key item s e (rw (a, b, c) refl) h)
      ]
    ]
  ]

  -- A replay of one item, however it ends, submits only an item that may be submitted, at most once,
  -- and after it has been saved as being submitted.
  pub replay_backup_item-Safe :
      (key : String) (s : State) → Fine s → Fine (replay_backup_item w key s).1
  unfolding replay_backup_item
  replay_backup_item-Safe key s h = elim (Option-cases (lookup key s.queue.items)) [
    | inl a ↦ rw (replay_backup_item, a) h
    | inr (item, a) ↦ rw (replay_backup_item, a) (replay_item-Safe key item s a h)
  ]
