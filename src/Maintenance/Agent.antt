-- ===== src/Maintenance/Agent.antt =====
-- The agent of ansible/host-maintenance/files/maintenance-agent.py around its backups: the journals
-- execution.json, update.json and update-request.json, the requests it makes and the commands it
-- runs. What they answer is a function of all steps before; a part that works on the backups is one
-- step with its record of events. Writing a file does not fail.
pub mod Availability
pub mod Handoff
pub mod Updates
pub mod Process
pub mod Main
pub mod Keeps
use my_infra.Prelude.{ℕ, Bool, true, false, Option, some, List, ◌∷◌, String, if◌then◌else◌}
use my_infra.Prelude.Dict.{Dict}
use my_infra.Prelude.Action.{Result, ok, err, Action}
use my_infra.Maintenance.Exec
use my_infra.Maintenance.Pve.{World, Event}
use my_infra.Maintenance.Pve

pub data AgentError : Type 0 where
  -- `AvailabilityBlocked`, a `RuntimeError`
  blocked : AgentError
  runtime_error : AgentError
  subprocess_error : AgentError
  value_error : AgentError
  key_error : AgentError
  type_error : AgentError
  index_error : AgentError
  os_error : AgentError
  attribute_error : AgentError
  -- Not the program's: the fuel of a loop is used up.
  out_of_fuel : AgentError

-- availability-policy.json
pub record Policy : Type 0 where
  pub availability_scope : String
  pub tunnel_endpoints : Dict String
  pub loockit_endpoints : Dict String

-- The body of an error: `read` itself may raise; else it is not JSON, not an object, or has a `detail`.
pub data Body : Type 0 where
  unread : AgentError → Body
  not_json : Body
  not_object : Body
  detail : Option String → Body

-- What `urlopen` does: it returns a status, or raises an `HTTPError` or another error.
pub data Probe : Type 0 where
  status : ℕ → Probe
  http_error : ℕ → Body → Probe
  failed : AgentError → Probe

pub data Outcome : Type 0 where
  blocked_outcome : Outcome
  failed_outcome : Outcome
  complete_outcome : Outcome

pub data Reason : Type 0 where
  availability : Reason
  preflight : Reason

-- execution.json
pub record Execution : Type 0 where
  pub boot_id : String
  pub execution_id : String
  pub outcome : Option Outcome
  pub reason : Option Reason
  pub loockit_stopped : Bool

-- update.json
pub record Update : Type 0 where
  pub boot_id : String
  pub execution_id : String
  pub outcome : Option Outcome

pub record Report : Type 0 where
  pub boot_id : String
  pub required : Bool
  pub updates : ℕ
  pub fingerprint : String
  pub healthy : Bool

-- The requests of the controller.
pub data Call : Type 0 where
  report : Report → Call
  claim : Call
  update_claim : Call
  result : String → Outcome → Option Reason → Call
  update_result : String → Outcome → Call
  recover : Call

pub data Step : Type 0 where
  -- A part about backups or the cluster, with all that has happened there so far.
  ran : List Event → Step
  probed : String → Probe → Step
  read_policy : Step
  read_kernels : Step
  docker_start : String → Step
  docker_stop : String → Step
  monotonic : Step
  sleep : Step
  -- The hour in Japan.
  window : ℕ → Step
  reboot_flag : Step
  simulate : Step
  refresh : Step
  install : Step
  reboot : Step
  called : Call → Step
  save_execution : Execution → Step
  unlink_execution : Step
  save_update : Update → Step
  unlink_update : Step
  lock : Step
  package_lock : Step
  audit : Step

pub record AgentState : Type 0 where
  pub backups : Pve.State
  pub execution : Option Execution
  pub update : Option Update
  -- Whether the package lists were refreshed for the request.
  pub request : Option Bool
  -- `pending` of the program.
  pub pending : Execution
  pub log : List Step

pub record AgentWorld : Type 0 where
  pub boot_id : String
  pub pve : List Step → World
  pub policy : List Step → Result AgentError Policy
  pub urlopen : List Step → String → Probe
  pub docker_start : List Step → Result AgentError (Unit {0})
  pub docker_stop : List Step → Result AgentError (Unit {0})
  -- Microseconds, and the seconds of `time.time()`.
  pub monotonic : List Step → ℕ
  pub time : List Step → ℕ
  -- Whether reboot-required exists.
  pub required : List Step → Bool
  -- The kernel that runs, and the versions of those in /boot.
  pub kernels : List Step → Result AgentError (String × List String)
  -- `dpkg --compare-versions A gt B`
  pub is_newer : String → String → Bool
  -- The lines of `apt-get -s dist-upgrade`, and SHA-256.
  pub simulate : List Step → Result AgentError (List String)
  pub sha256 : String → String
  pub refresh : List Step → Result AgentError (Unit {0})
  pub install : List Step → Result AgentError (Unit {0})
  pub reboot : List Step → Result AgentError (Unit {0})
  -- The locks of the agent and of the package manager, and whether `dpkg --audit` prints nothing.
  pub lock : List Step → Result AgentError (Unit {0})
  pub package_lock : List Step → Result AgentError (Unit {0})
  pub audit : List Step → Result AgentError Bool
  -- A claim answers with the number of the execution, or with nothing.
  pub api : List Step → Call → Result AgentError (Option String)

pub record Config : Type 0 where
  pub host : String
  pub controller : String
  -- Whether the credentials of Cloudflare Access are there.
  pub has_access : Bool

abbrev pub AgentAct : Type 0 → Type 0
AgentAct A = Action AgentError AgentState A

-- A step and its answer.
abbrev pub perform : {A : Type 0} → Step → (List Step → Result AgentError A) → AgentAct A
perform e answer s = (answer s.log, record s { log = e ∷ s.log })

abbrev pub of_error : Exec.Error → AgentError
of_error Exec.runtime_error = runtime_error
of_error Exec.subprocess_error = subprocess_error
of_error Exec.value_error = value_error
of_error Exec.key_error = key_error
of_error Exec.index_error = index_error
of_error Exec.os_error = os_error

abbrev pub of_result : {A : Type 0} → Exec.Result A → Result AgentError A
of_result (Exec.ok a) = ok a
of_result (Exec.err e) = err (of_error e)

-- A part about the backups or the cluster.
abbrev pub on_cluster : {A : Type 0} → AgentWorld → (World → Pve.Act A) → AgentAct A
on_cluster w act s =
    let r = act (w.pve s.log) s.backups in
    (of_result r.0, record s { backups = r.1; log = ran r.1.log ∷ s.log })

abbrev pub is_blocked : AgentError → Bool
is_blocked blocked = true
is_blocked runtime_error = false
is_blocked subprocess_error = false
is_blocked value_error = false
is_blocked key_error = false
is_blocked type_error = false
is_blocked index_error = false
is_blocked os_error = false
is_blocked attribute_error = false
is_blocked out_of_fuel = false

-- `except` that changes the result only.
abbrev pub answer_with :
    {A B : Type 0}
    → (Result AgentError A → Result AgentError B)
    → Result AgentError A × AgentState
    → Result AgentError B × AgentState
answer_with f r = (f r.0, r.1)

-- A result that changes nothing.
abbrev pub give : {A : Type 0} → Result AgentError A → AgentAct A
give r s = (r, s)

-- `if not b: raise e`
abbrev pub require : Bool → AgentError → AgentAct (Unit {0})
require b e s = ((if b then ok tt else err e), s)

-- `save(pending)`
abbrev pub save : AgentState → AgentState
save s = record s { execution = some s.pending; log = save_execution s.pending ∷ s.log }
