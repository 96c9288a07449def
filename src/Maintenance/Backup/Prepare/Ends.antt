-- ===== src/Maintenance/Backup/Prepare/Ends.antt =====
-- The loop of `prepare_backups` of ansible/host-maintenance/files/maintenance-agent.py ends by its
-- deadline.
use my_infra.Prelude.{
  ℕ, zero, suc, ◌+◌, ◌*◌, ◌<◌, ◌≤◌, ◌≡◌, ◌≢◌, true, false, List, [], ◌∷◌, String, arith, ◌==◌,
  string_eq, leb, length, Bool-cases, Option-cases, inl, inr,
}
use text.Mathlib.Text.{find?}
use my_infra.Maintenance.Exec.{
  runtime_error, subprocess_error, value_error, key_error, index_error, os_error, Result, ok, err,
  then_do, Result-cases,
}
use my_infra.Prelude.Dict.{Dict, lookup, keys}
use my_infra.Maintenance.Pve.{
  Item, Event, delete_task, task_status, task_log, active_tasks, clock, sleep, saved, World, State,
  ask, Running, node_tasks, pve_tasks_idle,
}
use my_infra.Maintenance.Backup.Arguments.{backup_arguments, valid_identity, is_found}
use my_infra.Maintenance.Backup.Journal.{set_item, backup_save, backup_status}
use my_infra.Maintenance.Backup.Prepare.{
  Progress, out_of_fuel, Pending, take_over, not_known, save_items, drop_replays, update,
  keep_captured, capture, after_delete, stop_requested_item, stop_task, stop_running, stop_all,
  wait, no_tasks, turn, prepare_loop, reconcile_all, read_queue, prepare_backups,
}

-- The clock does not go back, and moves on by two seconds while the agent sleeps.
pub record Clock (w : World) : Type 0 where
  pub grows : (e : Event) (log : List Event) → w.monotonic log ≤ w.monotonic (e ∷ log)
  pub sleeps : (log : List Event) → w.monotonic log + 2_000_000 ≤ w.monotonic (sleep ∷ log)

module _ (w : World) (c : Clock w) (T : ℕ) where
  abbrev Past : State → Type 0
  Past s = T ≤ w.monotonic s.log

  on : (e : Event) (log : List Event) → T ≤ w.monotonic log → T ≤ w.monotonic (e ∷ log)
  on e log h = omega (arith, c.grows e log, h)

  then-Past :
      {A B : Type 0} (r : Result A × State) (f : A → State → Result B × State)
      → Past r.1
      → ((a : A) (t : State) → Past t → Past (f a t).1)
      → Past (then_do r f).1
  then-Past (ok a, s) f d k = k a s d
  then-Past (err e, s) f d k = d

  node_tasks-Past : (node : String) (s : State) → Past s → Past (node_tasks w true node s).1
  unfolding node_tasks
  node_tasks-Past node s h = elim (Result-cases (w.active_tasks s.log node)) [
    | inr (_, a) ↦ rw (node_tasks, a) (on (active_tasks node) s.log h)
    | inl (tasks, a) ↦ elim (Bool-cases (leb 1000 (length tasks))) [
      | inl b ↦ rw (node_tasks, a, b) (on (active_tasks node) s.log h)
      | inr b ↦ rw (node_tasks, a, b) (on (active_tasks node) s.log h)
    ]
  ]

  pve_tasks_idle-Past : (s : State) → Past s → Past (pve_tasks_idle w true s).1
  unfolding pve_tasks_idle
  pve_tasks_idle-Past s h =
      then-Past (node_tasks w true "pve-x570" s) _ (node_tasks-Past "pve-x570" s h) (λ first t d.
        then-Past (node_tasks w true "pve-b550m" t) _ (node_tasks-Past "pve-b550m" t d)
          (λ _ _ e. e))

  backup_arguments-Past :
      (node upid : String) (s : State) → Past s → Past (backup_arguments w node upid s).1
  unfolding backup_arguments
  backup_arguments-Past node upid s h =
      elim (Bool-cases (valid_identity (λ pattern t. is_found (find? t pattern)) node upid)) [
        | inr e ↦ rw (e, backup_arguments) h
        | inl e ↦ elim (Result-cases (w.task_log s.log node upid)) [
          | inl (line, a) ↦ rw (e, backup_arguments, a) (on (task_log node upid) s.log h)
          | inr (_, a) ↦ rw (e, backup_arguments, a) (on (task_log node upid) s.log h)
        ]
      ]

  capture-Past :
      (fresh : List Running) (acc : Dict Item) (s : State) → Past s → Past (capture w acc fresh s).1
  unfolding capture
  capture-Past [] acc s d = d
  capture-Past ((task, node) ∷ fresh) acc s d =
      then-Past (backup_arguments w node task.upid s) _ (backup_arguments-Past node task.upid s d)
        (λ arguments t. capture-Past fresh _ t)

  save_items-Past : (items : Dict Item) (s : State) → Past s → Past (save_items items s).1
  unfolding save_items backup_save
  save_items-Past [] s d = d
  save_items-Past (entry ∷ items) s d = on (saved s.queue) s.log d

  keep_captured-Past :
      (captured : Dict Item) (s : State) → Past s → Past (keep_captured captured s).1
  unfolding keep_captured
  keep_captured-Past captured s d =
      save_items-Past (update (drop_replays (keys captured) s.queue.items) captured) _ d

  after_delete-Past :
      (node upid : String) (r : Result (Unit {0}) × State)
      → Past r.1
      → Past (after_delete w node upid r).1
  unfolding after_delete backup_status
  after_delete-Past node upid (ok a, s) d = d
  after_delete-Past node upid (err subprocess_error, s) d =
      then-Past (backup_status w node upid s) _ (on (task_status node upid) s.log d) (λ status t dt.
        elim (Bool-cases (status.status == "stopped")) [ inl e ↦ rw e dt | inr e ↦ rw e dt ])
  after_delete-Past node upid (err runtime_error, s) d = d
  after_delete-Past node upid (err value_error, s) d = d
  after_delete-Past node upid (err key_error, s) d = d
  after_delete-Past node upid (err index_error, s) d = d
  after_delete-Past node upid (err os_error, s) d = d

  stop_running-Past : (running : Running) (s : State) → Past s → Past (stop_running w running s).1
  unfolding stop_running stop_task backup_save
  stop_running-Past (task, node) s d = elim (Option-cases (lookup task.upid s.queue.items)) [
    | inl e ↦ rw (stop_running, e) d
    | inr (item, e) ↦ elim (Bool-cases (item.stop_requested)) [
      | inl b ↦ rw (stop_running, e, b) d
      | inr b ↦
          rw (stop_running, e, b)
            (after_delete-Past item.node task.upid
              (ask (delete_task node task.upid) (λ log. w.delete_task log node task.upid)
                (backup_save (set_item task.upid stop_requested_item s)).1)
              (on (delete_task node task.upid) _ (on (saved _) s.log d)))
    ]
  ]

  stop_all-Past : (active : List Running) (s : State) → Past s → Past (stop_all w active s).1
  unfolding stop_all
  stop_all-Past [] s d = d
  stop_all-Past (running ∷ active) s d =
      then-Past (stop_running w running s) (λ _. stop_all w active) (stop_running-Past running s d)
        (λ _. stop_all-Past active)

abbrev Halts : Result Progress × State → Type 0
Halts r = r.0 ≢ ok out_of_fuel

module _ (w : World) (c : Clock w) (T : ℕ) where
  then-Halts :
      {A : Type 0} (r : Result A × State) (f : A → State → Result Progress × State)
      → T ≤ w.monotonic r.1.log
      → ((a : A) (t : State) → T ≤ w.monotonic t.log → Halts (f a t))
      → Halts (then_do r f)
  then-Halts (ok a, s) f h k = k a s h
  then-Halts (err e, s) f h k = λ q. absurd cc

  module _ (next : State → Result Progress × State) (deadline : ℕ) where
    before_deadline : (d n : ℕ) → leb d n ≡ false → T ≤ n → T < d
    before_deadline d n e h = ground (arith, e, h)

    abbrev Later : Type 0
    Later = T < deadline → (t : State) → T + 2_000_000 ≤ w.monotonic t.log → Halts (next t)

    wait-Halts :
        Later
        → (s : State) → T ≤ w.monotonic s.log
        → Halts (then_do (wait w deadline s) (λ _. next))
    unfolding wait
    wait-Halts k s h = elim (Bool-cases (leb deadline (w.monotonic s.log))) [
      | inl e ↦ rw (wait, e) (λ q. absurd cc)
      | inr e ↦
          rw (wait, e)
            (k (before_deadline deadline (w.monotonic s.log) e h) _
              (omega (arith, c.sleeps (clock ∷ s.log), c.grows clock s.log, h)))
    ]

    rest-Halts :
        Later
        → (r : Result (Unit {0}) × State) → T ≤ w.monotonic r.1.log
        → Halts (then_do (then_do r (λ _. wait w deadline)) (λ _. next))
    rest-Halts k (ok a, s) h = wait-Halts k s h
    rest-Halts k (err e, s) h = λ q. absurd cc

    turn-Halts :
        Later
        → (active : List Running) (s : State) → T ≤ w.monotonic s.log
        → Halts (turn w next deadline active s)
    unfolding turn
    turn-Halts k active s h =
        then-Halts (capture w [] (not_known s.queue.items active) s) _
          (capture-Past w c T (not_known s.queue.items active) [] s h)
          (λ captured t d.
            then-Halts (keep_captured captured t) _ (keep_captured-Past w c T captured t d)
              (λ _ u e. elim (Bool-cases (no_tasks active)) [
                | inl b ↦ rw b (λ q. absurd cc)
                | inr b ↦ rw b (rest-Halts k (stop_all w active u) (stop_all-Past w c T active u e))
              ]))

abbrev Turns : ℕ → Type 0
Turns n =
    (w : World) (c : Clock w) (deadline : ℕ) (s : State)
    → deadline ≤ w.monotonic s.log + n * 2_000_000
    → Halts (prepare_loop w (suc n) deadline s)

loop-Halts : (n : ℕ) → Turns n
unfolding prepare_loop
loop-Halts zero w c deadline s h =
    then-Halts w c (w.monotonic s.log) (pve_tasks_idle w true s) _
      (pve_tasks_idle-Past w c (w.monotonic s.log) s (omega arith))
      (turn-Halts w c (w.monotonic s.log) (prepare_loop w zero deadline) deadline
        (λ early. absurd (omega (arith, early, h))))
loop-Halts (suc n) w c deadline s h =
    then-Halts w c (w.monotonic s.log) (pve_tasks_idle w true s) _
      (pve_tasks_idle-Past w c (w.monotonic s.log) s (omega arith))
      (turn-Halts w c (w.monotonic s.log) (prepare_loop w (suc n) deadline) deadline
        (λ _ t later. loop-Halts n w c deadline t (omega (arith, later, h))))

enough_turns :
    (w : World) (c : Clock w) (fuel : ℕ) (s : State)
    → 61 ≤ fuel
    → Halts
        (prepare_loop w fuel (w.monotonic s.log + 120_000_000) (record s { log = clock ∷ s.log }))
enough_turns w c zero s enough = absurd (omega (arith, enough))
enough_turns w c (suc n) s enough =
    loop-Halts n w c (w.monotonic s.log + 120_000_000) (record s { log = clock ∷ s.log })
      (omega (arith, c.grows clock s.log, enough))

-- If the clock never goes back and moves on by at least two seconds while the agent sleeps, then 61
-- turns or more are enough: whatever the cluster answers, and from each state, the preparation ends
-- with success or a raise.
pub prepare_backups_ends :
    (w : World) (fuel : ℕ) (p : Pending) (s : State)
    → Clock w
    → 61 ≤ fuel
    → (prepare_backups w fuel p s).0 ≢ ok out_of_fuel
unfolding prepare_backups
prepare_backups_ends w fuel p s c enough =
    then-Halts w c 0
      (reconcile_all w (keys (read_queue s.journal).items)
        (record s { queue = read_queue s.journal }))
      _ (omega arith)
      (λ _ t _. enough_turns w c fuel (record t { queue = take_over p t.queue }) enough)
