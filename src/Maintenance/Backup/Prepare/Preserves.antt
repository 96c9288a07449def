-- ===== src/Maintenance/Backup/Prepare/Preserves.antt =====
-- `prepare_backups` of ansible/host-maintenance/files/maintenance-agent.py stops no backup that is
-- not in the journal.
use my_infra.Prelude.{
  ℕ, zero, suc, ◌+◌, ◌≡◌, ◌⊎◌, refl, ap, sym, Bool, true, false, some, List, [], ◌∷◌, String, arith,
  ◌==◌, string_eq, leb, Bool-cases, Option-cases, inl, inr,
}
use text.Mathlib.TextEquality.{eq_iff}
use my_infra.Maintenance.Exec.{
  runtime_error, subprocess_error, value_error, key_error, index_error, os_error, Result, ok, err,
  then_do,
}
use my_infra.Prelude.Dict.{Dict, lookup, keys, modify, lookup-modify}
use my_infra.Maintenance.Pve.{
  Item, Queue, delete_task, saved, World, State, ask, Running, pve_tasks_idle,
}
use my_infra.Maintenance.Backup.Arguments.{backup_arguments}
use my_infra.Maintenance.Backup.Journal.{
  is_submitting, set_item, backup_save, backup_status, replay_backup_item,
}
use my_infra.Maintenance.Backup.Journal.Safe.{Safe, IsDurable, submits, startable, saved_item}
use my_infra.Maintenance.Backup.Journal.Asks.{pve_tasks_idle-Safe}
use my_infra.Maintenance.Backup.Journal.Replay.{backup_arguments-Safe, replay_backup_item-Safe}
use my_infra.Maintenance.Backup.Prepare.{
  Progress, ready, Pending, not_known, save_items, drop_replays, update, keep_captured, capture,
  after_delete, stop_requested_item, stop_task, stop_running, stop_all, wait, no_tasks, turn,
  prepare_loop, reconcile_all, read_queue, prepare_backups,
}

abbrev Kept : State → Type 0
Kept s = IsDurable s.log

abbrev budget : State → ℕ
budget s = submits "" s.log + startable (lookup "" s.queue.items)

loose : (s : State) → Kept s → Safe "" (budget s) false s
loose s d = record { budget = omega arith; synced = λ e. absurd cc; durable = d }

kept : {key : String} {bound : ℕ} {agreed : Bool} (s : State) → Safe key bound agreed s → Kept s
kept s h = h.durable

then-Kept :
    {A B : Type 0} (r : Result A × State) (f : A → State → Result B × State)
    → Kept r.1
    → ((a : A) (t : State) → Kept t → Kept (f a t).1)
    → Kept (then_do r f).1
then-Kept (ok a, s) f d k = k a s d
then-Kept (err e, s) f d k = d

saved_stop :
    (k : String) (q : Queue) (i : Item)
    → lookup k q.items ≡ some i
    → saved_item k (saved (record q { items = modify k stop_requested_item q.items }))
      ≡ some (stop_requested_item i)
saved_stop k q i e =
    rw (saved_item, lookup-modify k k stop_requested_item q.items, (eq_iff k k).1 refl, e) refl

save_items-Kept : (items : Dict Item) (s : State) → Kept s → Kept (save_items items s).1
unfolding save_items backup_save
save_items-Kept [] s d = d
save_items-Kept (entry ∷ items) s d = (tt, d)

keep_captured-Kept : (captured : Dict Item) (s : State) → Kept s → Kept (keep_captured captured s).1
unfolding keep_captured
keep_captured-Kept captured s d =
    save_items-Kept (update (drop_replays (keys captured) s.queue.items) captured) _ d

module _ (w : World) where
  capture-Kept :
      (fresh : List Running) (acc : Dict Item) (s : State) → Kept s → Kept (capture w acc fresh s).1
  unfolding capture
  capture-Kept [] acc s d = d
  capture-Kept ((task, node) ∷ fresh) acc s d =
      then-Kept (backup_arguments w node task.upid s) _
        (kept _ (backup_arguments-Safe w "" (budget s) false node task.upid s (loose s d)))
        (λ arguments t. capture-Kept fresh _ t)

  after_delete-Kept :
      (node upid : String) (r : Result (Unit {0}) × State)
      → Kept r.1
      → Kept (after_delete w node upid r).1
  unfolding after_delete backup_status
  after_delete-Kept node upid (ok a, s) d = d
  after_delete-Kept node upid (err subprocess_error, s) d =
      then-Kept (backup_status w node upid s) _ (tt, d)
        (λ status t dt. elim (Bool-cases (status.status == "stopped")) [
          | inl e ↦ rw e dt
          | inr e ↦ rw e dt
        ])
  after_delete-Kept node upid (err runtime_error, s) d = d
  after_delete-Kept node upid (err value_error, s) d = d
  after_delete-Kept node upid (err key_error, s) d = d
  after_delete-Kept node upid (err index_error, s) d = d
  after_delete-Kept node upid (err os_error, s) d = d

  stop_running-Kept : (running : Running) (s : State) → Kept s → Kept (stop_running w running s).1
  unfolding stop_running stop_task backup_save
  stop_running-Kept (task, node) s d = elim (Option-cases (lookup task.upid s.queue.items)) [
    | inl e ↦ rw (stop_running, e) d
    | inr (item, e) ↦ elim (Bool-cases (item.stop_requested)) [
      | inl b ↦ rw (stop_running, e, b) d
      | inr b ↦
          rw (stop_running, e, b)
            (after_delete-Kept item.node task.upid
              (ask (delete_task node task.upid) (λ log. w.delete_task log node task.upid)
                (backup_save (set_item task.upid stop_requested_item s)).1)
              ((stop_requested_item item, saved_stop task.upid s.queue item e, refl), (tt, d)))
    ]
  ]

  stop_all-Kept : (active : List Running) (s : State) → Kept s → Kept (stop_all w active s).1
  unfolding stop_all
  stop_all-Kept [] s d = d
  stop_all-Kept (running ∷ active) s d =
      then-Kept (stop_running w running s) (λ _. stop_all w active) (stop_running-Kept running s d)
        (λ _. stop_all-Kept active)

  wait-Kept : (deadline : ℕ) (s : State) → Kept s → Kept (wait w deadline s).1
  unfolding wait
  wait-Kept deadline s d = elim (Bool-cases (leb deadline (w.monotonic s.log))) [
    | inl e ↦ rw (wait, e) (tt, d)
    | inr e ↦ rw (wait, e) (tt, (tt, d))
  ]

  reconcile_all-Kept : (ks : List String) (s : State) → Kept s → Kept (reconcile_all w ks s).1
  unfolding reconcile_all
  reconcile_all-Kept [] s d = d
  reconcile_all-Kept (key ∷ ks) s d = elim (Option-cases (lookup key s.queue.items)) [
    | inl e ↦ rw (reconcile_all, e) (reconcile_all-Kept ks s d)
    | inr (item, e) ↦ elim (Bool-cases (is_submitting item.state)) [
      | inr b ↦ rw (reconcile_all, e, b) (reconcile_all-Kept ks s d)
      | inl b ↦
          rw (reconcile_all, e, b)
            (then-Kept (replay_backup_item w key s) (λ _. reconcile_all w ks)
              (kept _ (replay_backup_item-Safe w "" (budget s) false key s (loose s d)))
              (λ _. reconcile_all-Kept ks))
    ]
  ]

  module _ (next : State → Result Progress × State) (deadline : ℕ) where
    turn-Kept :
        ((s : State) → Kept s → Kept (next s).1)
        → (active : List Running) (s : State) → Kept s
        → Kept (turn w next deadline active s).1
    unfolding turn
    turn-Kept k active s d =
        then-Kept (capture w [] (not_known s.queue.items active) s) _
          (capture-Kept (not_known s.queue.items active) [] s d)
          (λ captured t dt.
            then-Kept (keep_captured captured t) _ (keep_captured-Kept captured t dt) (λ _ u du.
              elim (Bool-cases (no_tasks active)) [
                | inl e ↦ rw e du
                | inr e ↦ rw e (
                    then-Kept (then_do (stop_all w active u) (λ _. wait w deadline)) (λ _. next)
                      (then-Kept (stop_all w active u) (λ _. wait w deadline)
                        (stop_all-Kept active u du) (λ _. wait-Kept deadline))
                      (λ _. k))
              ]))

  prepare_loop-Kept : (n deadline : ℕ) (s : State) → Kept s → Kept (prepare_loop w n deadline s).1
  unfolding prepare_loop
  prepare_loop-Kept zero deadline s d = d
  prepare_loop-Kept (suc n) deadline s d =
      then-Kept (pve_tasks_idle w true s) (turn w (prepare_loop w n deadline) deadline)
        (kept _ (pve_tasks_idle-Safe w "" (budget s) false s (loose s d)))
        (turn-Kept (prepare_loop w n deadline) deadline (prepare_loop-Kept n deadline))

  -- Before the loop: the answers of the cluster that it starts with.
  start-Kept : (fuel : ℕ) (p : Pending) (s : State) → Kept s → Kept (prepare_backups w fuel p s).1
  unfolding prepare_backups
  start-Kept fuel p s d =
      then-Kept
        (reconcile_all w (keys (read_queue s.journal).items)
          (record s { queue = read_queue s.journal }))
        _
        (reconcile_all-Kept (keys (read_queue s.journal).items)
          (record s { queue = read_queue s.journal }) d)
        (λ _ t dt. prepare_loop-Kept fuel _ _ (tt, dt))

  -- The last thing asked is whether a backup runs on either node; none does.
  pub record Quiet (s : State) : Type 0 where
    pub before : State
    pub idle : (pve_tasks_idle w true before).0 ≡ ok []
    pub log :
        (s.log ≡ (pve_tasks_idle w true before).1.log)
        ⊎ (s.log ≡ saved s.queue ∷ (pve_tasks_idle w true before).1.log)

  abbrev Ready : Result Progress × State → Type 0
  Ready r = r.0 ≡ ok ready → Quiet r.1

  then-Ready :
      {A : Type 0} (r : Result A × State) (f : A → State → Result Progress × State)
      → ((a : A) (t : State) → r ≡ (ok a, t) → Ready (f a t))
      → Ready (then_do r f)
  then-Ready (ok a, s) f k = k a s refl
  then-Ready (err e, s) f k = λ q. absurd cc

  module _ (next : State → Result Progress × State) (deadline : ℕ)
      (k : (s : State) → Ready (next s)) where
    save_items-Ready :
        (items : Dict Item) (before s : State)
        → pve_tasks_idle w true before ≡ (ok [], s)
        → Ready (then_do (save_items items s) (λ _ u. (ok ready, u)))
    unfolding save_items backup_save
    save_items-Ready [] before s e = λ q. record {
      before = before;
      idle = ap (λ r. r.0) e;
      log = inl (sym (ap (λ r. r.1.log) e));
    }
    save_items-Ready (i ∷ is) before s e = λ q. record {
      before = before;
      idle = ap (λ r. r.0) e;
      log = inr (sym (ap (λ r. saved s.queue ∷ r.1.log) e));
    }

    turn-Ready :
        (active : List Running) (before s : State)
        → pve_tasks_idle w true before ≡ (ok active, s)
        → Ready (turn w next deadline active s)
    unfolding turn capture not_known keep_captured drop_replays update keys
    turn-Ready [] before s e = save_items-Ready s.queue.items before s e
    turn-Ready (running ∷ active) before s e =
        then-Ready (capture w [] (not_known s.queue.items (running ∷ active)) s) _ (λ captured t _.
          then-Ready (keep_captured captured t) _ (λ _ u _.
            then-Ready (then_do (stop_all w (running ∷ active) u) (λ _. wait w deadline)) _
              (λ _ v _. k v)))

  prepare_loop-Ready : (n deadline : ℕ) (s : State) → Ready (prepare_loop w n deadline s)
  unfolding prepare_loop
  prepare_loop-Ready zero deadline s = λ q. absurd cc
  prepare_loop-Ready (suc n) deadline s = then-Ready (pve_tasks_idle w true s) _ (λ active t e.
      turn-Ready (prepare_loop w n deadline) deadline (prepare_loop-Ready n deadline) active s t e)

  start-Ready : (fuel : ℕ) (p : Pending) (s : State) → Ready (prepare_backups w fuel p s)
  unfolding prepare_backups
  start-Ready fuel p s =
      then-Ready
        (reconcile_all w (keys (read_queue s.journal).items)
          (record s { queue = read_queue s.journal }))
        _ (λ _ t _. prepare_loop-Ready fuel _ _)

-- Before a reboot no backup is stopped, and none submitted, but directly after a save of the journal
-- in which its item is marked so, if that was so for all before. The reboot may go on only if the
-- last thing asked was which tasks run on the two nodes, and none did; after that nothing was done
-- but a save of the journal.
pub prepare_backups-Quiet :
    (w : World) (fuel : ℕ) (p : Pending) (s : State)
    → IsDurable s.log
    → IsDurable (prepare_backups w fuel p s).1.log
      × ((prepare_backups w fuel p s).0 ≡ ok ready → Quiet w (prepare_backups w fuel p s).1)
prepare_backups-Quiet w fuel p s d = (start-Kept w fuel p s d, start-Ready w fuel p s)
