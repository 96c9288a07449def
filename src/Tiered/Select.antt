-- ===== src/Tiered/Select.antt =====
-- `select_verified`, `require_copies` and `validate_sync` of ansible/pbs/files/pbs-tiered.py.
use Prim.Native.String.{◌++◌ as ◌<>◌}
use my_infra.Prelude.{
  ℕ, ◌+◌, ◌*◌, Bool, true, false, not, ◌&&◌, ◌||◌, Option, none, some, List, [], ◌∷◌, String, ltb,
  ◌==◌, nat_eq, string_eq, if◌then◌else◌,
}
use my_infra.Prelude.Action.{Result, ok, err}

pub data TieredError : Type 0 where
  runtime_error : TieredError
  key_error : TieredError
  stop_iteration : TieredError
  blocking_io_error : TieredError
  -- Not the program's: the fuel of a loop is used up.
  out_of_fuel : TieredError

-- `identity` of a snapshot: its type, its id and its time.
pub record Identity : Type 0 where
  pub backup_type : String
  pub backup_id : String
  pub backup_time : ℕ

pub record Backup : Type 0 where
  pub identity : Identity
  -- The `filename` of each file.
  pub files : List (Option String)
  -- The `state` of the verification.
  pub verification : Option String
  pub protected : Bool

abbrev pub same_identity : Identity → Identity → Bool
same_identity a b =
    (a.backup_type == b.backup_type)
    && (a.backup_id == b.backup_id)
    && (a.backup_time == b.backup_time)

abbrev pub group : Backup → String
group s = s.identity.backup_type <> ("/" <> s.identity.backup_id)

abbrev is_index : Option String → Bool
is_index none = false
is_index (some f) = f == "index.json.blob"

abbrev any_index : List (Option String) → Bool
any_index [] = false
any_index (f ∷ files) = is_index f || any_index files

abbrev pub complete : Backup → Bool
complete s = any_index s.files

abbrev is_ok : Option String → Bool
is_ok none = false
is_ok (some v) = v == "ok"

-- A complete snapshot of the group that has been verified.
unfoldable pub is_verified : String → Backup → Bool
is_verified name s = (group s == name) && complete s && is_ok s.verification

unfoldable pub verified : String → List Backup → List Backup
unfolding is_verified
verified name [] = []
verified name (s ∷ rows) =
    let rest = verified name rows in if is_verified name s then s ∷ rest else rest

-- `max(candidates, key=..., default=None)`: the first of the newest.
unfoldable pub newest : Backup → List Backup → Backup
newest best [] = best
newest best (s ∷ rows) =
    newest (if ltb best.identity.backup_time s.identity.backup_time then s else best) rows

abbrev pub newest_of : List Backup → Option Backup
newest_of [] = none
newest_of (s ∷ rows) = some (newest s rows)

-- `now - backup_time > 26 * 3600`; `now` is in microseconds.
unfoldable pub is_old : ℕ → Backup → Bool
is_old now s = ltb ((s.identity.backup_time + 93_600) * 1_000_000) now

abbrev pub recent : ℕ → Option Backup → Result TieredError Backup
recent now none = err runtime_error
recent now (some s) = if is_old now s then err runtime_error else ok s

abbrev pub and_then :
    Result TieredError Backup → Result TieredError (List Backup) → Result TieredError (List Backup)
and_then (err e) rest = err e
and_then (ok s) (err e) = err e
and_then (ok s) (ok rest) = ok (s ∷ rest)

-- One snapshot of each group.
unfoldable pub select_verified : List Backup → List String → ℕ → Result TieredError (List Backup)
unfolding verified newest is_old
select_verified rows [] now = ok []
select_verified rows (name ∷ groups) now =
    and_then (recent now (newest_of (verified name rows))) (select_verified rows groups now)

unfoldable pub has_copy : Identity → List Backup → Bool
has_copy k [] = false
has_copy k (s ∷ archive) = (complete s && same_identity s.identity k) || has_copy k archive

unfoldable pub all_copied : List Backup → List Backup → Bool
unfolding has_copy
all_copied [] archive = true
all_copied (s ∷ chosen) archive = has_copy s.identity archive && all_copied chosen archive

unfoldable pub require_copies : List Backup → List Backup → Result TieredError (Unit {0})
unfolding all_copied
require_copies chosen archive = if all_copied chosen archive then ok tt else err runtime_error

-- A job of synchronisation.
pub record SyncJob : Type 0 where
  pub id : String
  pub store : Option String
  pub remote_store : Option String
  pub remote : Bool
  pub sync_direction : Option String
  pub owner : Option String
  pub verified_only : Bool
  pub remove_vanished : Bool

pub record TieredConfig : Type 0 where
  pub local : String
  pub archive : String
  pub groups : List String
  pub sync_job : String
  pub prune_job : String
  pub mountpoint : String
  pub label : String

abbrev is_text : Option String → String → Bool
is_text none t = false
is_text (some s) t = s == t

abbrev or_pull : Option String → String
or_pull none = "pull"
or_pull (some s) = s

unfoldable pub validate_sync : TieredConfig → SyncJob → Result TieredError (Unit {0})
validate_sync config job =
    if not (is_text job.store config.archive)
      || not (is_text job.remote_store config.local)
      || job.remote
      || not (or_pull job.sync_direction == "pull")
      || not (is_text job.owner "admin@pbs")
      || not job.verified_only
      || job.remove_vanished
    then err runtime_error
    else ok tt
