-- ===== src/Tests/Maintenance.antt =====
-- ansible/host-maintenance/files/maintenance-agent.py on one interrupted backup in a cluster that is
-- well.
use my_infra.Prelude.{
  ◌*◌, ◌≢◌, length, arith, Bool, not, ◌||◌, if◌then◌else◌, ◌+◌, ◌≤◌, ◌≡◌, ◌↔◌, refl, true, false,
  none, some, List, [], ◌∷◌, ◌++◌, String, ◌==◌, string_eq,
}
use my_infra.Prelude.Dict.{keys, lookup, modify, insert, map_values, keep_if}
use my_infra.Prelude.Sorted.{Pair}
use my_infra.Maintenance.Exec.{ok, err, runtime_error}
use my_infra.Maintenance.Pve.{Running, pve_tasks_idle}
use my_infra.Maintenance.Pve.Idle.{Inventory, pve_tasks_idle_iff}
use my_infra.Maintenance.Pve.{
  Item, Queue, World, State, pending, Event, delete_task, saved, submit, task_log, task_status,
  task_history, active_tasks, storage_status, archived, cluster_status, services, package_locks,
  dpkg_audit, unlinked, clock, sleep,
}
use my_infra.Maintenance.Backup.Arguments.{
  backup_arguments, read_words, read_options, take_guests, is_backup_option,
}
use my_infra.Maintenance.Backup.Signature.{same_signature, backup_signature}
use my_infra.Maintenance.Backup.Signature.Same.{given, flat, same_signature_lem}
use my_infra.Maintenance.Backup.Journal.Safe.{submits, IsDurable}
use my_infra.Maintenance.Backup.Prepare.{Pending, ready, out_of_fuel, no_queue, prepare_backups}
use my_infra.Maintenance.Backup.Prepare.Ends.{Clock, prepare_backups_ends}
use my_infra.Maintenance.Backup.Prepare.Preserves.{Quiet, prepare_backups-Quiet}
use my_infra.Maintenance.Backup.Replays.Once.{replay_runs, startable_on_disk, replay_runs-submits}

abbrev words : List String
words = "100" ∷ "--mode" ∷ "snapshot" ∷ "--node" ∷ "pve-x570" ∷ []

read_words_run :
    read_words (λ s. s == "100") "pve-x570" words
    ≡ ok ("--vmid" ∷ "100" ∷ "--mode" ∷ "snapshot" ∷ [])
unfolding read_words read_options take_guests is_backup_option
read_words_run = refl

abbrev world : World
world = record {
  cluster_status = λ log. ok (
      record { type = some "node"; online = some 1; quorate = none }
      ∷ record { type = some "node"; online = some 1; quorate = none }
      ∷ record { type = some "cluster"; online = none; quorate = some 1 }
      ∷ []);
  services = λ log. ok ("active" ∷ []);
  package_locks = λ log. ok true;
  dpkg_audit = λ log. ok true;
  active_tasks = λ log node. ok [];
  task_log = λ log node upid. ok none;
  task_status = λ log node upid. ok record { status = "stopped"; exitstatus = some "interrupted" };
  task_history = λ log node since. ok [];
  storage_status = λ log node storage. ok true;
  delete_task = λ log node upid. ok tt;
  submit = λ log node unit options. ok tt;
  time = λ log. 1_700_000_000;
  monotonic = λ log. 0;
  boot_id = "second";
  shlex_split = λ s. ok words;
  isdigit = λ s. s == "100";
  hash20 = λ s. s;
}

abbrev key : String
key = "UPID:pve-x570:vzdump:100"

abbrev item : Item
item = record {
  node = "pve-x570";
  original_upid = key;
  arguments = "--vmid" ∷ "100" ∷ "--mode" ∷ "snapshot" ∷ [];
  state = pending;
  stop_requested = true;
  replay_upid = none;
  submitted_at = none;
  exitstatus = none;
}

abbrev queue : Queue
queue = record {
  items = (key, item) ∷ [];
  boot_id = some "first";
  execution_id = some "e";
  resume_allowed = false;
}

abbrev interrupted : State
interrupted = record { journal = some queue; last = none; queue = queue; log = [] }

-- The second run does not submit again.
second_replay_run : submits key (replay_runs (world ∷ world ∷ []) interrupted).log ≡ 1
unfolding replay_runs keys lookup modify
second_replay_run = refl

replay_runs-submits_example :
    submits key (replay_runs (world ∷ world ∷ []) interrupted).log
      ≤ submits key [] + startable_on_disk key (some queue)
    × startable_on_disk key (some queue) ≤ 1
    × IsDurable (replay_runs (world ∷ world ∷ []) interrupted).log
replay_runs-submits_example = replay_runs-submits (world ∷ world ∷ []) interrupted key tt

-- A backup runs until it is asked to stop.
abbrev stopped : List Event → Bool
stopped [] = false
stopped (delete_task node upid ∷ log) = true
stopped (saved q ∷ log) = stopped log
stopped (submit k node unit options ∷ log) = stopped log
stopped (task_log node upid ∷ log) = stopped log
stopped (task_status node upid ∷ log) = stopped log
stopped (task_history node since ∷ log) = stopped log
stopped (active_tasks node ∷ log) = stopped log
stopped (storage_status node storage ∷ log) = stopped log
stopped (archived q ∷ log) = stopped log
stopped (cluster_status ∷ log) = stopped log
stopped (services ∷ log) = stopped log
stopped (package_locks ∷ log) = stopped log
stopped (dpkg_audit ∷ log) = stopped log
stopped (unlinked ∷ log) = stopped log
stopped (clock ∷ log) = stopped log
stopped (sleep ∷ log) = stopped log

abbrev busy : World
busy = record world {
  active_tasks = λ log node.
      if stopped log || not (node == "pve-x570")
      then ok []
      else ok (record { upid = "UPID:pve-x570:1:vzdump:"; type = some "vzdump" } ∷ []);
  task_log = λ log node upid. ok (some "INFO: starting new backup job: vzdump 100 --mode snapshot");
}

abbrev idle : State
idle = record { journal = none; last = none; queue = no_queue; log = [] }

abbrev execution : Pending
execution = record { boot_id = "first"; execution_id = "e" }

prepare_run : (prepare_backups busy 2 execution idle).0 ≡ ok ready
unfolding prepare_backups keys lookup map_values backup_arguments read_options take_guests
    is_backup_option insert keep_if modify
prepare_run = refl

prepare_backups-Quiet_example :
    IsDurable (prepare_backups busy 2 execution idle).1.log
    × ((prepare_backups busy 2 execution idle).0 ≡ ok ready
        → Quiet busy (prepare_backups busy 2 execution idle).1)
prepare_backups-Quiet_example = prepare_backups-Quiet busy 2 execution idle tt

abbrev both : List Running
both = (record { upid = "UPID:pve-x570:1:vzdump:"; type = some "vzdump" }, "pve-x570") ∷ []

pve_tasks_idle_iff_example :
    ((pve_tasks_idle busy true idle).0 ≡ ok both) ↔ Inventory busy true [] both
pve_tasks_idle_iff_example = pve_tasks_idle_iff busy true idle both

pve_tasks_idle_run :
    ((pve_tasks_idle busy true idle).0 ≡ ok both)
    × ((pve_tasks_idle busy false idle).0 ≡ err runtime_error)
unfolding pve_tasks_idle
pve_tasks_idle_run = (refl, refl)

abbrev logged : List String
logged = "--vmid" ∷ "100" ∷ "--quiet" ∷ "1" ∷ "--mode" ∷ "snapshot" ∷ []

abbrev proxied : List String
proxied = "--mode" ∷ "snapshot" ∷ "--vmid" ∷ "100" ∷ []

same_signature_run : same_signature logged proxied ≡ true
unfolding same_signature backup_signature
same_signature_run = refl

abbrev in_front : List Pair
in_front = ("--storage", "pbs") ∷ []

same_signature_example :
    (given "--mode" "snapshot" logged ≡ given "--mode" "snapshot" proxied)
    × (same_signature
          (flat in_front ++ (flat (("--all", "1") ∷ ("--compress", "zstd") ∷ []) ++ logged))
          (flat in_front ++ (flat (("--compress", "zstd") ∷ ("--all", "1") ∷ []) ++ proxied))
        ≡ true)
    × (same_signature (flat in_front ++ "--quiet" ∷ "1" ∷ logged) (flat in_front ++ proxied) ≡ true)
same_signature_example =
    same_signature_lem logged proxied "--mode" "snapshot" "1" in_front ("--all", "1")
      ("--compress", "zstd") refl same_signature_run

-- Two seconds for each event.
abbrev paced : World
paced = record busy { monotonic = λ log. length log * 2_000_000 }

paced-Clock : Clock paced
paced-Clock = record { grows = λ e log. omega arith; sleeps = λ log. omega arith }

prepare_backups_ends_example : (prepare_backups paced 61 execution idle).0 ≢ ok out_of_fuel
prepare_backups_ends_example =
    prepare_backups_ends paced 61 execution idle paced-Clock (omega arith)
