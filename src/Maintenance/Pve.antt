-- ===== src/Maintenance/Pve.antt =====
-- The commands of ansible/host-maintenance/files/maintenance-agent.py about the Proxmox cluster, and
-- `package_idle`, `pve_healthy` and `pve_tasks_idle`. What a command prints is not the program's:
-- it is a function of all that has happened before.
pub mod Idle
use my_infra.Prelude.{
  ℕ, suc, Bool, true, false, not, ◌&&◌, ◌||◌, Option, none, some, List, [], ◌∷◌, ◌++◌, String, ◌==◌,
  nat_eq, string_eq, leb, length, if◌then◌else◌,
}
use my_infra.Maintenance.Exec.{runtime_error, Result, ok, err, Exec, ◌>>=◌, pure, raise}
use my_infra.Prelude.Dict.{Dict}

pub data ItemState : Type 0 where
  pending : ItemState
  submitting : ItemState
  running : ItemState
  done : ItemState
  failed : ItemState

-- A backup to be replayed; `none` and `false` are absent keys.
pub record Item : Type 0 where
  pub node : String
  pub original_upid : String
  pub arguments : List String
  pub state : ItemState
  pub stop_requested : Bool
  pub replay_upid : Option String
  pub submitted_at : Option ℕ
  pub exitstatus : Option String

-- backup-replay.json
pub record Queue : Type 0 where
  pub items : Dict Item
  pub boot_id : Option String
  pub execution_id : Option String
  pub resume_allowed : Bool

-- A task of `pvesh get /nodes/NODE/tasks`.
pub record Task : Type 0 where
  pub upid : String
  pub type : Option String

pub record TaskStatus : Type 0 where
  pub status : String
  pub exitstatus : Option String

-- An entry of `pvesh get /cluster/status`; `online` and `quorate` are numbers in the JSON.
pub record ClusterItem : Type 0 where
  pub type : Option String
  pub online : Option ℕ
  pub quorate : Option ℕ

-- What the agent does to the world, and what it asks.
pub data Event : Type 0 where
  cluster_status : Event
  services : Event
  package_locks : Event
  dpkg_audit : Event
  active_tasks : String → Event
  task_log : String → String → Event
  task_status : String → String → Event
  task_history : String → ℕ → Event
  storage_status : String → String → Event
  delete_task : String → String → Event
  -- The key of the item, the node, the unit's name and the options.
  submit : String → String → String → List String → Event
  saved : Queue → Event
  archived : Queue → Event
  unlinked : Event
  clock : Event
  sleep : Event

-- The answers, from all events before, the newest first.
pub record World : Type 0 where
  pub cluster_status : List Event → Result (List ClusterItem)
  pub services : List Event → Result (List String)
  -- `false` is a `BlockingIOError`.
  pub package_locks : List Event → Result Bool
  -- Whether `dpkg --audit` prints nothing but blanks.
  pub dpkg_audit : List Event → Result Bool
  pub active_tasks : List Event → String → Result (List Task)
  -- The text of the first line of the log, if there is one.
  pub task_log : List Event → String → String → Result (Option String)
  pub task_status : List Event → String → String → Result TaskStatus
  pub task_history : List Event → String → ℕ → Result (List Task)
  pub storage_status : List Event → String → String → Result Bool
  pub delete_task : List Event → String → String → Result (Unit {0})
  pub submit : List Event → String → String → List String → Result (Unit {0})
  -- `time.time()` in whole seconds and `time.monotonic()` in microseconds
  pub time : List Event → ℕ
  pub monotonic : List Event → ℕ
  pub boot_id : String
  -- What Python brings: `shlex.split`, `str.isdigit`, the text behind a prefix, and the first twenty
  -- digits of a SHA-256.
  pub shlex_split : String → Result (List String)
  pub isdigit : String → Bool
  pub hash20 : String → String

-- The journal on disk, the one last copied to backup-replay-last.json, the journal in memory, and
-- what has happened.
pub record State : Type 0 where
  pub journal : Option Queue
  pub last : Option Queue
  pub queue : Queue
  pub log : List Event

abbrev pub Act : Type 0 → Type 0
Act A = Exec State A

-- One event and its answer.
abbrev pub ask : {A : Type 0} → Event → (List Event → Result A) → State → Result A × State
ask e answer s = (answer s.log, record s { log = e ∷ s.log })

abbrev is_node : ClusterItem → Bool
is_node item = elim (item.type) [ none ↦ false | some t ↦ t == "node" ]

abbrev is_one : Option ℕ → Bool
is_one none = false
is_one (some n) = n == 1

-- `all(item.get('online') == 1 for item in nodes)`, and how many nodes there are
all_online : List ClusterItem → Bool
all_online [] = true
all_online (item ∷ items) =
    let rest = all_online items in if is_node item then is_one item.online && rest else rest

count_nodes : List ClusterItem → ℕ
count_nodes [] = 0
count_nodes (item ∷ items) = let rest = count_nodes items in if is_node item then suc rest else rest

abbrev is_cluster : ClusterItem → Bool
is_cluster item = elim (item.type) [ none ↦ false | some t ↦ t == "cluster" ]

any_quorate : List ClusterItem → Bool
any_quorate [] = false
any_quorate (item ∷ items) = (is_cluster item && is_one item.quorate) || any_quorate items

all_active : List String → Bool
all_active [] = true
all_active (line ∷ lines) = (line == "active") && all_active lines

-- The test of the cluster and of the lines of `systemctl is-active`.
unfoldable pub cluster_healthy : List ClusterItem → List String → Bool
unfolding all_online count_nodes any_quorate all_active
cluster_healthy cluster lines =
    all_active lines && (count_nodes cluster == 2) && all_online cluster && any_quorate cluster

-- A task with the node that runs it.
abbrev pub Running : Type 0
Running = Task × String

abbrev pub is_backup : Task → Bool
is_backup task = elim (task.type) [ none ↦ false | some t ↦ t == "vzdump" ]

-- The loop over the tasks of a node.
unfoldable pub only_backups : Bool → String → List Task → Result (List Running)
only_backups allow_backups node [] = ok []
only_backups allow_backups node (task ∷ tasks) =
    if not allow_backups || not (is_backup task)
    then err runtime_error
    else elim (only_backups allow_backups node tasks) [
      | err e ↦ err e
      | ok rest ↦ ok ((task, node) ∷ rest)
    ]

abbrev lift : {A : Type 0} → Result A → Act A
lift r s = (r, s)

module _ (w : World) where
  unfoldable pub package_idle : Act Bool
  package_idle = do
    free ← ask package_locks (λ log. w.package_locks log)
    if free then ask dpkg_audit (λ log. w.dpkg_audit log) else pure false

  unfoldable pub pve_healthy : Act Bool
  unfolding package_idle cluster_healthy
  pve_healthy = do
    cluster ← ask cluster_status (λ log. w.cluster_status log)
    lines ← ask services (λ log. w.services log)
    if cluster_healthy cluster lines then package_idle else pure false

  unfoldable pub node_tasks : Bool → String → Act (List Running)
  unfolding only_backups
  node_tasks allow_backups node = do
    tasks ← ask (active_tasks node) (λ log. w.active_tasks log node)
    if leb 1000 (length tasks)
        then raise runtime_error
        else lift (only_backups allow_backups node tasks)

  unfoldable pub pve_tasks_idle : Bool → Act (List Running)
  unfolding node_tasks
  pve_tasks_idle allow_backups = do
    first ← node_tasks allow_backups "pve-x570"
    second ← node_tasks allow_backups "pve-b550m"
    pure (first ++ second)
