-- ===== src/Monitor/Pbs.antt =====
-- `pbs_values`, `pbs` and `pbs_archive_values` of docker/home-service-monitor/monitor.py.
pub mod Latest
use Prim.Native.String.{◌++◌ as ◌<>◌}
use my_infra.Prelude.{
  ℕ, Bool, true, false, not, ◌&&◌, ◌||◌, Option, none, some, List, [], ◌∷◌, String, ltb, ◌==◌,
  string_eq, if◌then◌else◌,
}
use my_infra.Prelude.Dict.{Dict, lookup}
use my_infra.Prelude.Action.{Result, ok, err, then_do, ◌>>=◌, ◌>>◌, pure, raise}
use my_infra.Monitor.Metrics.{Error, value_error, other_error, Value, whole, flag}
use my_infra.Monitor.Scan.{Call, secret, get, Act, ask, add}

pub record Snapshot : Type 0 where
  pub backup_type : String
  pub backup_id : String
  pub backup_time : ℕ
  -- The `filename` of each file.
  pub files : List (Option String)
  pub comment : Option String
  -- The `state` of the verification; `none` if either is absent.
  pub verification : Option String

unfoldable pub has_manifest : List (Option String) → Bool
has_manifest [] = false
has_manifest (none ∷ files) = has_manifest files
has_manifest (some f ∷ files) = (f == "index.json.blob") || has_manifest files

-- A complete snapshot of the machine.
unfoldable pub is_candidate : String → Snapshot → Bool
unfolding has_manifest
is_candidate vm s = (s.backup_type == "vm") && (s.backup_id == vm) && has_manifest s.files

unfoldable pub candidates : String → List Snapshot → List Snapshot
unfolding is_candidate
candidates vm [] = []
candidates vm (s ∷ snapshots) =
    let rest = candidates vm snapshots in if is_candidate vm s then s ∷ rest else rest

-- `max(candidates, key=..., default=None)` is the first of the greatest.
unfoldable pub later_of : Snapshot → List Snapshot → Snapshot
later_of best [] = best
later_of best (s ∷ snapshots) =
    later_of (if ltb best.backup_time s.backup_time then s else best) snapshots

unfoldable pub latest : List Snapshot → Option Snapshot
unfolding later_of
latest [] = none
latest (s ∷ snapshots) = some (later_of s snapshots)

abbrev pub has_state : String → Snapshot → Bool
has_state state s = elim (s.verification) [ none ↦ false | some v ↦ v == state ]

unfoldable pub any_state : String → List Snapshot → Bool
any_state state [] = false
any_state state (s ∷ snapshots) = has_state state s || any_state state snapshots

-- `max([...] or [0])` over the snapshots whose verification is good
unfoldable pub last_verified : List Snapshot → ℕ
last_verified [] = 0
last_verified (s ∷ snapshots) =
    let rest = last_verified snapshots in
    if has_state "ok" s && ltb rest s.backup_time then s.backup_time else rest

abbrev pub time_of : Option Snapshot → ℕ
time_of none = 0
time_of (some s) = s.backup_time

abbrev state_is : String → Option Snapshot → Bool
state_is state none = false
state_is state (some s) = has_state state s

abbrev comment_of : Option Snapshot → String
comment_of none = ""
comment_of (some s) = elim (s.comment) [ none ↦ "" | some c ↦ c ]

abbrev or_empty : Option String → String
or_empty none = ""
or_empty (some s) = s

-- What Python brings: `s.splitlines()[0].strip()`, and `s[:200]`.
pub record Texts : Type 0 where
  pub first_line : String → String
  pub cut : String → String

unfoldable pub vm_name : Texts → Dict String → String → Option Snapshot → String
unfolding lookup
vm_name t names vm found =
    let comment = comment_of found in
    let line = if comment == "" then "" else t.first_line comment in
    if line == "" then or_empty (lookup vm names) else line

abbrev vm_label : String → Dict String
vm_label vm = ("vm", vm) ∷ []

module _ (t : Texts) (names : Dict String) (snapshots : List Snapshot) where
  -- The metrics of one machine.
  unfoldable pub vm_values : String → Act (Unit {0})
  unfolding add candidates latest any_state last_verified vm_name
  vm_values vm = do
    let found = candidates vm snapshots
    let newest = latest found
    let name = vm_name t names vm newest
    if name == ""
        then pure tt
        else add "home_pbs_vm_info" (whole 1) (("vm", vm) ∷ ("vm_name", t.cut name) ∷ [])
    add "home_pbs_backup_last_success_seconds" (whole (time_of newest)) (vm_label vm)
    add "home_pbs_verification_ok" (flag (state_is "ok" newest)) (vm_label vm)
    add "home_pbs_verification_failed" (flag (any_state "failed" found)) (vm_label vm)
    add "home_pbs_last_verified_backup_seconds" (whole (last_verified found)) (vm_label vm)

  unfoldable pub pbs_values : List String → Act (Unit {0})
  unfolding vm_values
  pbs_values [] s = (ok tt, s)
  pbs_values (vm ∷ expected) s = then_do (vm_values vm s) (λ _. pbs_values expected)

-- A job of verification or synchronisation.
pub record Job : Type 0 where
  pub id : String
  pub store : String
  pub last_run_state : Option String
  pub last_run_endtime : Option ℕ

-- `next(j for j in jobs if ...)` raises if there is none.
unfoldable pub find_job : String → String → List Job → Result Error Job
find_job id store [] = err other_error
find_job id store (j ∷ jobs) =
    if (j.id == id) && (j.store == store) then ok j else find_job id store jobs

-- `state and state != 'OK'`
abbrev failed : Option String → Bool
failed none = false
failed (some state) = not (state == "") && not (state == "OK")

abbrev good : Option String → Bool
good none = false
good (some state) = state == "OK"

abbrev or_zero : Option ℕ → ℕ
or_zero none = 0
or_zero (some n) = n

abbrev lift : {A : Type 0} → Result Error A → Act A
lift r s = (r, s)

-- The greatest time of the complete snapshots, or 0.
unfoldable pub last_complete : List Snapshot → ℕ
last_complete [] = 0
last_complete (s ∷ snapshots) =
    let rest = last_complete snapshots in if ltb rest s.backup_time then s.backup_time else rest

pub record PbsTarget : Type 0 where
  pub url : String
  pub store : String
  pub vms : List String
  pub vm_names : Dict String
  -- Its store and its jobs; a synchronisation job is not always there.
  pub archive_store : Option String
  pub archive_verify_job : String
  pub archive_sync_job : Option String

unfoldable pub archive_vm_values : List Snapshot → List String → Act (Unit {0})
unfolding add candidates last_complete
archive_vm_values snapshots [] s = (ok tt, s)
archive_vm_values snapshots (vm ∷ vms) s =
    then_do
      (add "home_pbs_archive_last_success_seconds" (whole (last_complete (candidates vm snapshots)))
        (vm_label vm) s)
      (λ _. archive_vm_values snapshots vms)

abbrev sync_values : Option String → String → List Job → Act (Unit {0})
sync_values none store jobs = pure tt
sync_values (some id) store jobs = do
  sync ← lift (find_job id store jobs)
  add "home_pbs_archive_sync_failed" (flag (failed sync.last_run_state)) []

unfoldable pub pbs_archive_values :
    PbsTarget → String → List Snapshot → List Job → List Job → Act (Unit {0})
unfolding archive_vm_values find_job add
pbs_archive_values target store snapshots jobs sync_jobs = do
  archive_vm_values snapshots target.vms
  job ← lift (find_job target.archive_verify_job store jobs)
  add "home_pbs_archive_verification_last_success_seconds"
      (whole (if good job.last_run_state then or_zero job.last_run_endtime else 0)) []
  add "home_pbs_archive_verification_failed" (flag (failed job.last_run_state)) []
  sync_values target.archive_sync_job store sync_jobs

-- The answers of the backup server; the number beside the snapshots is when its certificate expires.
pub record PbsWorld : Type 0 where
  pub credential : List Call → String → Result Error String
  pub snapshots : List Call → String → Result Error (List Snapshot × ℕ)
  -- Used and available bytes.
  pub status : List Call → String → Result Error (ℕ × ℕ)
  pub verify : List Call → Result Error (List Job)
  pub sync : List Call → Result Error (List Job)

module _ (w : PbsWorld) (t : Texts) (target : PbsTarget) where
  -- `read` of one path: the credentials, and then the request.
  abbrev read : {A : Type 0} → String → (List Call → Result Error A) → Act A
  read path answer = do
    id ← ask (secret "pbs-token-id") (λ log. w.credential log "pbs-token-id")
    token ← ask (secret "pbs-token-secret") (λ log. w.credential log "pbs-token-secret")
    ask (get (target.url <> ("/api2/json" <> path))) answer

  abbrev read_sync : Option String → Act (List Job)
  read_sync none = pure []
  read_sync (some id) = read "/admin/sync" (λ log. w.sync log)

  abbrev read_archive : Option String → Act (Unit {0})
  read_archive none = pure tt
  read_archive (some store) = do
    (used, avail) ←
        read ("/admin/datastore/" <> (target.store <> "/status")) (λ log. w.status log target.store)
    add "home_pbs_local_used_bytes" (whole used) []
    add "home_pbs_local_available_bytes" (whole avail) []
    (archive, expires) ←
        read ("/admin/datastore/" <> (store <> "/snapshots")) (λ log. w.snapshots log store)
    jobs ← read "/admin/verify" (λ log. w.verify log)
    sync_jobs ← read_sync target.archive_sync_job
    pbs_archive_values target store archive jobs sync_jobs

  unfoldable pub pbs : Act (Unit {0})
  unfolding add pbs_values pbs_archive_values
  pbs = do
    (rows, expires) ←
        read ("/admin/datastore/" <> (target.store <> "/snapshots"))
          (λ log. w.snapshots log target.store)
    add "home_api_tls_expiry_seconds" (whole expires) []
    pbs_values t target.vm_names rows target.vms
    read_archive target.archive_store
