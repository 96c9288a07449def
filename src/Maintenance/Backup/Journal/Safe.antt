-- ===== src/Maintenance/Backup/Journal/Safe.antt =====
-- What a replay of ansible/host-maintenance/files/maintenance-agent.py may do to the journal of
-- interrupted backups and to the record of what happened.
use my_infra.Prelude.{
  Bool, true, ℕ, suc, ◌+◌, ◌≤◌, ◌≡◌, refl, Option, none, some, List, [], ◌∷◌, String, arith, ◌==◌,
  string_eq, if◌then◌else◌, Bool-cases, Option-cases, inl, inr,
}
use text.Mathlib.TextEquality.{eq_iff}
use my_infra.Prelude.Dict.{Dict, lookup, modify, lookup-modify}
use my_infra.Maintenance.Pve.{
  Item, Event, cluster_status, services, package_locks, dpkg_audit, active_tasks, task_log,
  task_status, task_history, storage_status, delete_task, submit, saved, archived, unlinked, clock,
  sleep, State,
}
use my_infra.Maintenance.Backup.Journal.{finished, is_submitting, replay_of}

abbrev pub submitted_key : Event → Option String
submitted_key (submit key node unit options) = some key
submitted_key cluster_status = none
submitted_key services = none
submitted_key package_locks = none
submitted_key dpkg_audit = none
submitted_key (active_tasks node) = none
submitted_key (task_log node upid) = none
submitted_key (task_status node upid) = none
submitted_key (task_history node since) = none
submitted_key (storage_status node storage) = none
submitted_key (delete_task node upid) = none
submitted_key (saved queue) = none
submitted_key (archived queue) = none
submitted_key unlinked = none
submitted_key clock = none
submitted_key sleep = none

-- The item in a queue that is saved.
abbrev pub saved_item : String → Event → Option Item
saved_item key (saved queue) = lookup key queue.items
saved_item key (archived queue) = none
saved_item key unlinked = none
saved_item key clock = none
saved_item key sleep = none
saved_item key cluster_status = none
saved_item key services = none
saved_item key package_locks = none
saved_item key dpkg_audit = none
saved_item key (active_tasks node) = none
saved_item key (task_log node upid) = none
saved_item key (task_status node upid) = none
saved_item key (task_history node since) = none
saved_item key (storage_status node storage) = none
saved_item key (delete_task node upid) = none
saved_item key (submit other node unit options) = none

-- What must have been saved of an item before: that it is being submitted, or being stopped.
abbrev pub required : Event → Option (String × (Item → Bool))
required (submit key node unit options) = some (key, λ item. is_submitting item.state)
required (delete_task node upid) = some (upid, λ item. item.stop_requested)
required (archived queue) = none
required unlinked = none
required clock = none
required sleep = none
required cluster_status = none
required services = none
required package_locks = none
required dpkg_audit = none
required (active_tasks node) = none
required (task_log node upid) = none
required (task_status node upid) = none
required (task_history node since) = none
required (storage_status node storage) = none
required (saved queue) = none

-- How often the backup has been submitted again.
abbrev count_key : String → Option String → ℕ → ℕ
count_key key none n = n
count_key key (some other) n = if other == key then suc n else n

abbrev pub submits : String → List Event → ℕ
submits key [] = 0
submits key (e ∷ log) = count_key key (submitted_key e) (submits key log)

abbrev pub IsSaved : String → (Item → Bool) → List Event → Type 0
IsSaved key test [] = ⊥
IsSaved key test (e ∷ log) = (item : Item) × saved_item key e ≡ some item × test item ≡ true

abbrev pub SavedFirst : Option (String × (Item → Bool)) → List Event → Type 0
SavedFirst none log = Unit
SavedFirst (some (key, test)) log = IsSaved key test log

-- Each submission and each stop comes directly after the save that says so.
abbrev pub IsDurable : List Event → Type 0
IsDurable [] = Unit
IsDurable (e ∷ log) = SavedFirst (required e) log × IsDurable log

-- 1 for an item that a replay may yet submit.
abbrev pub startable_item : Item → ℕ
startable_item item =
    if finished item.state
    then 0
    else elim (replay_of item) [ some upid ↦ 0 | none ↦ if is_submitting item.state then 0 else 1 ]

abbrev pub startable : Option Item → ℕ
startable none = 0
startable (some item) = startable_item item

-- The submissions made and those that may come are at most `bound`; disk and memory agree; and
-- each submission was saved first.
pub record Safe (key : String) (bound : ℕ) (agreed : Bool) (s : State) : Type 0 where
  pub budget : submits key s.log + startable (lookup key s.queue.items) ≤ bound
  pub synced : agreed ≡ true → s.journal ≡ some s.queue
  pub durable : IsDurable s.log

module _ (j : String) (bound : ℕ) (agreed : Bool) where
  pub asked-Safe :
      (e : Event) (s : State)
      → submitted_key e ≡ none
      → required e ≡ none
      → Safe j bound agreed s
      → Safe j bound agreed (record s { log = e ∷ s.log })
  asked-Safe e s q r h = record {
    budget = rw q (h.budget);
    synced = h.synced;
    durable = (rw r tt, h.durable);
  }

  startable-modify :
      (key : String) (f : Item → Item) (items : Dict Item)
      → ((item : Item)
          → lookup key items ≡ some item
          → startable_item (f item) ≤ startable_item item)
      → startable (lookup j (modify key f items)) ≤ startable (lookup j items)
  startable-modify key f items less = elim (Bool-cases (key == j)) [
    | inr d ↦ rw (lookup-modify j key f items, d) (ground arith)
    | inl d ↦ elim (Option-cases (lookup j items)) [
      | inl e ↦ rw (lookup-modify j key f items, d, e) (ground arith)
      | inr (item, e) ↦ rw (lookup-modify j key f items, d, e) (less item (cc ((eq_iff key j).0 d)))
    ]
  ]

  -- A change of one item, saved at once.
  abbrev pub changed : String → (Item → Item) → State → State
  changed key f s =
      let queue = record s.queue { items = modify key f s.queue.items } in
      record s { queue = queue; journal = some queue; log = saved queue ∷ s.log }

  pub changed-Safe :
      (key : String) (f : Item → Item) (s : State)
      → ((item : Item)
          → lookup key s.queue.items ≡ some item
          → startable_item (f item) ≤ startable_item item)
      → Safe j bound agreed s
      → Safe j bound agreed (changed key f s)
  changed-Safe key f s less h = record {
    budget = omega (arith, h.budget, startable-modify key f s.queue.items less);
    synced = λ _. refl;
    durable = (tt, h.durable);
  }
