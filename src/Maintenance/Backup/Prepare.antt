-- ===== src/Maintenance/Backup/Prepare.antt =====
-- `prepare_backups` of ansible/host-maintenance/files/maintenance-agent.py: the backups that run are
-- written to the journal and stopped before a reboot.
pub mod Preserves
pub mod Ends
use my_infra.Prelude.{
  ℕ, zero, suc, ◌+◌, Bool, true, false, not, Option, none, some, List, [], ◌∷◌, String, ◌==◌,
  string_eq, leb, if◌then◌else◌,
}
use my_infra.Maintenance.Exec.{
  Error, runtime_error, subprocess_error, value_error, key_error, index_error, os_error, Result, ok,
  err, ◌>>=◌, ◌>>◌, then_do, pure, raise,
}
use my_infra.Prelude.Dict.{Dict, lookup, insert, keys, keep_if, map_values}
use my_infra.Maintenance.Pve.{
  pending, Item, Queue, delete_task, clock, sleep, World, State, Act, ask, Running, pve_tasks_idle,
}
use my_infra.Maintenance.Backup.Arguments.{backup_arguments}
use my_infra.Maintenance.Backup.Journal.{
  is_submitting, backup_save, backup_status, set_item, replay_backup_item,
}

pub data Progress : Type 0 where
  ready : Progress
  out_of_fuel : Progress

-- `pending` of the agent: the execution that the host is rebooted for.
pub record Pending : Type 0 where
  pub boot_id : String
  pub execution_id : String

abbrev pub no_queue : Queue
no_queue = record { items = []; boot_id = none; execution_id = none; resume_allowed = false }

abbrev pub read_queue : Option Queue → Queue
read_queue none = no_queue
read_queue (some queue) = queue

abbrev pub same_execution : Option String → String → Bool
same_execution none id = false
same_execution (some other) id = other == id

abbrev not_stopped : Item → Item
not_stopped item = record item { stop_requested = false }

-- A new execution forgets which stops were requested before.
abbrev pub take_over : Pending → Queue → Queue
take_over p queue = record queue {
  items =
      if same_execution queue.execution_id p.execution_id
      then queue.items
      else map_values not_stopped queue.items;
  boot_id = some p.boot_id;
  execution_id = some p.execution_id;
  resume_allowed = false;
}

abbrev is_known : Option Item → Bool
is_known none = false
is_known (some item) = true

-- `[task for task in active if task['upid'] not in queue['items']]`
unfoldable pub not_known : Dict Item → List Running → List Running
not_known items [] = []
not_known items ((task, node) ∷ active) =
    let rest = not_known items active in
    if is_known (lookup task.upid items) then rest else (task, node) ∷ rest

abbrev pub replays_other : String → Item → Bool
replays_other upid item = elim (item.replay_upid) [ none ↦ true | some u ↦ not (u == upid) ]

-- Items that were being replayed by one of the tasks give way to it.
unfoldable pub drop_replays : List String → Dict Item → Dict Item
drop_replays [] items = items
drop_replays (upid ∷ upids) items = drop_replays upids (keep_if (replays_other upid) items)

-- `dict.update`
unfoldable pub update : Dict Item → Dict Item → Dict Item
update items [] = items
update items ((key, item) ∷ new) = update (insert key item items) new

abbrev pub stop_requested_item : Item → Item
stop_requested_item item = record item { stop_requested = true }

-- `if queue['items']: backup_save(queue)`
unfoldable pub save_items : Dict Item → Act (Unit {0})
unfolding backup_save
save_items [] s = (ok tt, s)
save_items (entry ∷ items) s = backup_save s

-- The captured items are taken into the journal, which is saved if it has any item.
unfoldable pub keep_captured : Dict Item → Act (Unit {0})
unfolding drop_replays update save_items
keep_captured captured s =
    let items = update (drop_replays (keys captured) s.queue.items) captured in
    save_items items (record s { queue = record s.queue { items = items } })

abbrev pub no_tasks : List Running → Bool
no_tasks [] = true
no_tasks (r ∷ rs) = false

module _ (w : World) where
  -- The dictionary of items for the tasks; `acc` has those that were read before.
  unfoldable pub capture : Dict Item → List Running → Act (Dict Item)
  capture acc [] s = (ok acc, s)
  capture acc ((task, node) ∷ fresh) s = then_do (backup_arguments w node task.upid s) (λ arguments.
      capture
        (insert task.upid
          record {
            node = node;
            original_upid = task.upid;
            arguments = arguments;
            state = pending;
            stop_requested = false;
            replay_upid = none;
            submitted_at = none;
            exitstatus = none;
          }
          acc)
        fresh)

  -- A stop that fails is passed over if the task has stopped all the same.
  unfoldable pub after_delete :
      String → String → Result (Unit {0}) × State → Result (Unit {0}) × State
  unfolding backup_status
  after_delete node upid (ok a, s) = (ok a, s)
  after_delete node upid (err subprocess_error, s) =
      then_do (backup_status w node upid s)
        (λ status. if status.status == "stopped" then pure tt else raise subprocess_error)
  after_delete node upid (err runtime_error, s) = (err runtime_error, s)
  after_delete node upid (err value_error, s) = (err value_error, s)
  after_delete node upid (err key_error, s) = (err key_error, s)
  after_delete node upid (err index_error, s) = (err index_error, s)
  after_delete node upid (err os_error, s) = (err os_error, s)

  -- The request is saved before the task is stopped.
  unfoldable pub stop_task : String → String → String → Act (Unit {0})
  unfolding backup_save after_delete
  stop_task item_node node upid s =
      then_do (backup_save (set_item upid stop_requested_item s)) (λ _ t.
        after_delete item_node upid
          (ask (delete_task node upid) (λ log. w.delete_task log node upid) t))

  -- `queue['items'][task['upid']]` raises if there is none.
  unfoldable pub stop_running : Running → Act (Unit {0})
  unfolding stop_task
  stop_running (task, node) s = elim (lookup task.upid s.queue.items) [
    | none ↦ (err key_error, s)
    | some item ↦ if item.stop_requested then (ok tt, s) else stop_task item.node node task.upid s
  ]

  unfoldable pub stop_all : List Running → Act (Unit {0})
  unfolding stop_running
  stop_all [] s = (ok tt, s)
  stop_all (running ∷ active) s = then_do (stop_running running s) (λ _. stop_all active)

  unfoldable pub wait : ℕ → Act (Unit {0})
  wait deadline = do
    now ← ask clock (λ log. ok (w.monotonic log))
    if leb deadline now then raise runtime_error else ask sleep (λ log. ok tt)

  -- A turn of the loop, with the next one.
  unfoldable pub turn : Act Progress → ℕ → List Running → Act Progress
  unfolding capture keep_captured stop_all wait not_known
  turn next deadline active s =
      then_do (capture [] (not_known s.queue.items active) s) (λ captured t.
        then_do (keep_captured captured t) (λ _ u.
          let rest = then_do (then_do (stop_all active u) (λ _. wait deadline)) (λ _. next) in
          if no_tasks active then (ok ready, u) else rest))

  -- One turn for each unit of fuel.
  unfoldable pub prepare_loop : ℕ → ℕ → Act Progress
  unfolding pve_tasks_idle turn
  prepare_loop zero deadline s = (ok out_of_fuel, s)
  prepare_loop (suc n) deadline s =
      then_do (pve_tasks_idle w true s) (turn (prepare_loop n deadline) deadline)

  -- Items that were being submitted are reconciled first.
  unfoldable pub reconcile_all : List String → Act (Unit {0})
  unfolding replay_backup_item
  reconcile_all [] s = (ok tt, s)
  reconcile_all (key ∷ rest) s = elim (lookup key s.queue.items) [
    | none ↦ reconcile_all rest s
    | some item ↦
        let before = replay_backup_item w key s in
        then_do (if is_submitting item.state then before else (ok tt, s)) (λ _. reconcile_all rest)
  ]

  unfoldable pub prepare_backups : ℕ → Pending → Act Progress
  unfolding reconcile_all prepare_loop
  prepare_backups fuel p s =
      let start : State = record s { queue = read_queue s.journal } in
      then_do (reconcile_all (keys start.queue.items) start) (λ _ t.
        then_do (ask clock (λ log. ok (w.monotonic log)) (record t { queue = take_over p t.queue }))
          (λ now. prepare_loop fuel (now + 120_000_000)))
