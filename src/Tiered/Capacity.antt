-- ===== src/Tiered/Capacity.antt =====
-- `check` and `main` of ansible/pbs/files/pbs-capacity-hook.py.
use my_infra.Prelude.{
  ℕ, ◌*◌, Bool, false, not, ◌||◌, Option, none, some, String, ltb, leb, ◌==◌, string_eq,
  if◌then◌else◌,
}
use my_infra.Prelude.Action.{Result, ok, err}
use my_infra.Tiered.Select.{TieredError, runtime_error}

pub record Storage : Type 0 where
  pub is_active : Bool
  pub is_enabled : Bool
  pub used : ℕ
  pub avail : ℕ

abbrev pub gib : ℕ
gib = 1_073_741_824

-- Whether it warns, if the backup may start.
unfoldable pub check_capacity : Storage → Storage → Result TieredError Bool
check_capacity local host =
    if not local.is_active || not local.is_enabled
    then err runtime_error
    else if leb (330 * gib) local.used || ltb local.avail (16 * gib)
    then err runtime_error
    else if ltb host.avail (20 * gib)
    then err runtime_error
    else ok (leb (310 * gib) local.used)

-- `status` of the two storages may fail; the backup's storage is asked first.
unfoldable pub check_both :
    Result TieredError Storage → Result TieredError Storage → Result TieredError Bool
check_both (err e) host = err e
check_both (ok local) (err e) = err e
check_both (ok local) (ok host) = check_capacity local host

-- The hook at its phase, if it is given one, and the answers of `status`.
unfoldable pub run_hook :
    Option String
    → Result TieredError Storage
    → Result TieredError Storage
    → Result TieredError Bool
run_hook none local host = ok false
run_hook (some phase) local host =
    if phase == "job-start" || phase == "backup-start" then check_both local host else ok false
