-- ===== src/Tests/Agent.antt =====
-- The agent of ansible/host-maintenance/files/maintenance-agent.py on hosts that are well.
use my_infra.Prelude.{
  ◌*◌, ◌≡◌, refl, true, false, none, some, [], ◌∷◌, length, ◌==◌, string_eq, if◌then◌else◌,
}
use my_infra.Prelude.Action.{ok}
use my_infra.Maintenance.Exec
use my_infra.Maintenance.Pve.{World}
use my_infra.Maintenance.Agent.{
  Policy, status, http_error, detail, Execution, AgentState, AgentWorld, Config,
}
use my_infra.Maintenance.Agent.Handoff.{handoff_loockit}
use my_infra.Maintenance.Agent.Handoff.Restores.{Restored, handoff_loockit-Restored}
use my_infra.Maintenance.Agent.Updates.{update_packages}
use my_infra.Maintenance.Agent.Updates.Keeps.{reboots, update_packages-reboots}
use my_infra.Prelude.Dict.{map_values}
use my_infra.Maintenance.Agent.Process.{offer, process}
use my_infra.Maintenance.Agent.Process.Waits.{actions, process-actions}
use my_infra.Maintenance.Agent.Process.Permits.{IsAuthorised}
use my_infra.Maintenance.Agent.Process.Reboots.{process-IsAuthorised}

abbrev cluster : World
cluster = record {
  cluster_status = λ log. Exec.ok (
      record { type = some "node"; online = some 1; quorate = none }
      ∷ record { type = some "node"; online = some 1; quorate = none }
      ∷ record { type = some "cluster"; online = none; quorate = some 1 }
      ∷ []);
  services = λ log. Exec.ok ("active" ∷ []);
  package_locks = λ log. Exec.ok true;
  dpkg_audit = λ log. Exec.ok true;
  active_tasks = λ log node. Exec.ok [];
  task_log = λ log node upid. Exec.ok none;
  task_status = λ log node upid. Exec.ok record { status = "stopped"; exitstatus = none };
  task_history = λ log node since. Exec.ok [];
  storage_status = λ log node storage. Exec.ok true;
  delete_task = λ log node upid. Exec.ok tt;
  submit = λ log key unit options. Exec.ok tt;
  time = λ log. 0;
  monotonic = λ log. 0;
  boot_id = "boot";
  shlex_split = λ s. Exec.ok [];
  isdigit = λ s. true;
  hash20 = λ s. s;
}

abbrev endpoints : Policy
endpoints = record {
  availability_scope = "loockit-and-tunnel";
  tunnel_endpoints =
      ("pve-x570", "a/ready")
      ∷ ("pve-b550m", "b/ready")
      ∷ ("rpi-107", "c/ready")
      ∷ ("rpi-109", "d/ready")
      ∷ [];
  loockit_endpoints = ("pve-x570", "x/readyz") ∷ ("pve-b550m", "y/readyz") ∷ [];
}

-- Loockit runs on the other node; it is evening.
abbrev world : AgentWorld
world = record {
  boot_id = "boot";
  pve = λ log. cluster;
  policy = λ log. ok endpoints;
  urlopen = λ log url.
      if url == "x/readyz" then http_error 503 (detail (some "standby replica")) else status 200;
  docker_start = λ log. ok tt;
  docker_stop = λ log. ok tt;
  monotonic = λ log. length log * 1_000_000;
  time = λ log. 45_000;
  required = λ log. true;
  kernels = λ log. ok ("6.8", []);
  is_newer = λ a b. false;
  simulate = λ log. ok ("Inst vim" ∷ []);
  sha256 = λ s. s;
  refresh = λ log. ok tt;
  install = λ log. ok tt;
  reboot = λ log. ok tt;
  lock = λ log. ok tt;
  package_lock = λ log. ok tt;
  audit = λ log. ok true;
  api = λ log call. ok (some "e1");
}

abbrev config : Config
config = record { host = "pve-x570"; controller = "https://controller"; has_access = true }

abbrev old_execution : Execution
old_execution = record {
  boot_id = "boot";
  execution_id = "e0";
  outcome = none;
  reason = none;
  loockit_stopped = false;
}

abbrev fresh : AgentState
fresh = record {
  backups = record {
    journal = none;
    last = none;
    queue = record { items = []; boot_id = none; execution_id = none; resume_allowed = false };
    log = [];
  };
  execution = none;
  update = none;
  request = none;
  pending = old_execution;
  log = [];
}

-- The peer serves after Loockit of the host has stopped.
abbrev switched : AgentWorld
switched = record world {
  urlopen = λ log url.
      if url == "y/readyz" then http_error 503 (detail (some "standby replica")) else status 200;
}

handoff_loockit-Restored_example :
    Restored switched "pve-x570" fresh.log (handoff_loockit switched 97 "pve-x570" fresh)
handoff_loockit-Restored_example = handoff_loockit-Restored switched 97 "pve-x570" fresh refl

process_run : reboots (process world 97 config fresh).1.log ≡ 1
unfolding process offer map_values
process_run = refl

abbrev interrupted : AgentState
interrupted = record fresh { execution = some old_execution }

process-actions_example :
    actions (process world 97 config interrupted).1.log ≡ actions interrupted.log
process-actions_example = process-actions world 97 config old_execution interrupted refl refl

process-IsAuthorised_example : IsAuthorised world config (process world 97 config fresh).1.log
process-IsAuthorised_example = process-IsAuthorised world 97 config fresh tt

update_packages-reboots_example :
    reboots (update_packages world config true fresh).1.log ≡ reboots fresh.log
update_packages-reboots_example = update_packages-reboots world config true fresh
