-- ===== src/Maintenance/Backup/Journal.antt =====
-- `backup_signature`, `backup_status`, `backup_save`, `backup_release` and `replay_backup_item` of
-- ansible/host-maintenance/files/maintenance-agent.py: the journal of interrupted backups, and the
-- replay of one of them.
pub mod Safe
pub mod Asks
pub mod Replay
use Prim.Native.String
use Prim.Native.String.{◌++◌ as ◌<>◌}
use my_infra.Prelude.{
  ℕ, Bool, true, false, not, ◌&&◌, ◌||◌, Option, none, some, List, [], ◌∷◌, ◌++◌, String, ◌==◌,
  nat_eq, string_eq, contains, leb, length, if◌then◌else◌,
}
use my_infra.Maintenance.Exec.{
  Error, runtime_error, subprocess_error, key_error, index_error, Result, ok, err, Exec, ◌>>=◌,
  ◌>>◌, then_do, pure, raise,
}
use my_infra.Prelude.Dict.{Dict, lookup, insert, modify}
use my_infra.Maintenance.Pve
use my_infra.Maintenance.Pve.{
  ItemState, pending, submitting, running, done, failed, Item, Queue, Task, TaskStatus, Event,
  saved, task_status, task_history, active_tasks, storage_status, submit, World, State, Act, ask,
}
use my_infra.Maintenance.Backup.Arguments.{backup_arguments}
use my_infra.Maintenance.Backup.Signature.{backup_signature, same_signature, pairs}

-- `backup_save(queue)` with the queue in memory.
unfoldable pub backup_save : Act (Unit {0})
backup_save s = (ok tt, record s { journal = some s.queue; log = saved s.queue ∷ s.log })

-- `backup_release`: the queue on disk is read anew.
unfoldable pub backup_release : String → Act (Unit {0})
unfolding backup_save
backup_release execution_id s = elim (s.journal) [
  | none ↦ (ok tt, s)
  | some queue ↦ elim (queue.execution_id) [
    | none ↦ (err key_error, s)
    | some id ↦
        if id == execution_id
        then backup_save (record s { queue = record queue { resume_allowed = true } })
        else (ok tt, s)
  ]
]

-- A change of the item in the queue in memory.
abbrev pub set_item : String → (Item → Item) → State → State
set_item key f s = record s { queue = record s.queue { items = modify key f s.queue.items } }

abbrev change : String → (Item → Item) → Act (Unit {0})
change key f s = (ok tt, set_item key f s)

abbrev pub finished : ItemState → Bool
finished done = true
finished failed = true
finished pending = false
finished submitting = false
finished running = false

abbrev pub is_submitting : ItemState → Bool
is_submitting submitting = true
is_submitting pending = false
is_submitting running = false
is_submitting done = false
is_submitting failed = false

abbrev pub says_ok : Option String → Bool
says_ok none = false
says_ok (some e) = e == "OK"

abbrev exit_or_unknown : Option String → String
exit_or_unknown none = "unknown"
exit_or_unknown (some e) = e

abbrev pub stopped_item : TaskStatus → Item → Item
stopped_item status item = record item {
  state = if says_ok status.exitstatus then done else failed;
  exitstatus = some (exit_or_unknown status.exitstatus);
}

abbrev pub found_item : String → Item → Item
found_item upid item = record item { replay_upid = some upid; state = running }

abbrev pub submitted_item : ℕ → Item → Item
submitted_item now item = record item { state = submitting; submitted_at = some now }

-- It finished between inspection and cancellation.
abbrev pub done_item : Item → Item
done_item item = record item { state = done }

abbrev pub is_backup : Task → Bool
is_backup task = elim (task.type) [ none ↦ false | some t ↦ t == "vzdump" ]

abbrev pub any_backup : List Task → Bool
any_backup [] = false
any_backup (task ∷ tasks) = is_backup task || any_backup tasks

-- `arguments[arguments.index('--storage') + 1]`; `none` if there is no such word, and a raise if it is
-- the last one.
unfoldable pub storage_of : List String → Option (Result String)
storage_of [] = none
storage_of (a ∷ []) = if a == "--storage" then some (err index_error) else none
storage_of (a ∷ b ∷ rest) =
    let r = storage_of (b ∷ rest) in if a == "--storage" then some (ok b) else r

-- `f'{option}={value}'` of each pair
unfoldable pub option_words : List String → List String
option_words [] = []
option_words (a ∷ []) = []
option_words (a ∷ b ∷ rest) = (a <> ("=" <> b)) ∷ option_words rest

-- `if item.get('replayUpid')`: an empty text counts as absent.
abbrev pub replay_of : Item → Option String
replay_of item = elim (item.replay_upid) [
  | none ↦ none
  | some upid ↦ if upid == "" then none else some upid
]

module _ (w : World) where
  unfoldable pub backup_status : String → String → Act TaskStatus
  backup_status node upid = ask (task_status node upid) (λ log. w.task_status log node upid)

  -- The replay that has been found: done or failed once it has stopped.
  unfoldable pub follow_replay : String → Item → String → Act (Unit {0})
  unfolding backup_status backup_save
  follow_replay key item upid = do
    status ← backup_status item.node upid
    if status.status == "stopped"
        then (do change key (stopped_item status); backup_save)
        else pure tt

  -- The loop over the task history, for a backup with the arguments of the item.
  unfoldable pub find_replay : String → Item → List Task → Act (Unit {0})
  unfolding backup_save
  find_replay key item [] = pure tt
  find_replay key item (task ∷ tasks) =
      let rest = find_replay key item tasks in
      if is_backup task && not (task.upid == item.original_upid)
      then (do
        arguments ← backup_arguments w item.node task.upid
        if same_signature arguments item.arguments
            then (do change key (found_item task.upid); backup_save)
            else rest)
      else rest

  -- An item that was being submitted when the agent was interrupted.
  unfoldable pub reconcile : String → Item → Act (Unit {0})
  unfolding find_replay
  reconcile key item = elim (item.submitted_at) [
    | none ↦ raise key_error
    | some since ↦ do
      tasks ← ask (task_history item.node since) (λ log. w.task_history log item.node since)
      if leb 1000 (length tasks) then raise runtime_error else find_replay key item tasks
  ]

  unit_name : Item → String
  unit_name item = "host-maintenance-backup-" <> w.hash20 item.original_upid

  -- The submission, saved before it is made.
  unfoldable pub submit_item : String → Item → Act (Unit {0})
  unfolding backup_save unit_name option_words
  submit_item key item s =
      then_do (backup_save (set_item key (submitted_item (w.time s.log)) s)) (λ _.
        let unit = unit_name item in
        let options = option_words item.arguments in
        ask (submit key item.node unit options) (λ log. w.submit log item.node unit options))

  -- Whether the storage of the backup, if it names one, can be written.
  unfoldable pub storage_ready : Item → Act Bool
  unfolding storage_of
  storage_ready item = elim (storage_of item.arguments) [
    | none ↦ pure true
    | some (err e) ↦ raise e
    | some (ok storage) ↦
        ask (storage_status item.node storage) (λ log. w.storage_status log item.node storage)
  ]

  -- No other backup may run on the node.
  unfoldable pub when_idle : String → Item → Act (Unit {0})
  unfolding storage_ready submit_item
  when_idle key item = do
    active ← ask (active_tasks item.node) (λ log. w.active_tasks log item.node)
    if any_backup active
        then pure tt
        else (do ready ← storage_ready item; if ready then submit_item key item else pure tt)

  -- An item that is not yet submitted.
  unfoldable pub start_replay : String → Item → Act (Unit {0})
  unfolding backup_status backup_save when_idle
  start_replay key item = do
    original ← backup_status item.node item.original_upid
    if not (original.status == "stopped")
        then pure tt
        else if says_ok original.exitstatus
        then (do change key done_item; backup_save)
        else when_idle key item

  unfoldable pub replay_item : String → Item → Act (Unit {0})
  unfolding follow_replay reconcile start_replay
  replay_item key item = if finished item.state then pure tt else elim (replay_of item) [
    | some upid ↦ follow_replay key item upid
    | none ↦ if is_submitting item.state then reconcile key item else start_replay key item
  ]

  -- `replay_backup_item`, on the item of the queue in memory.
  unfoldable pub replay_backup_item : String → Act (Unit {0})
  unfolding replay_item
  replay_backup_item key s = elim (lookup key s.queue.items) [
    | none ↦ (err key_error, s)
    | some item ↦ replay_item key item s
  ]
