-- ===== src/Tests/Tiered.antt =====
-- ansible/pbs/files/pbs-tiered.py on one group with three snapshots.
use my_infra.Prelude.{
  ℕ, ◌*◌, ◌≡◌, ◌≢◌, refl, true, Option, none, some, List, [], ◌∷◌, String, string_eq,
}
use my_infra.Prelude.Action.{ok, err}
use my_infra.Tiered.Select.{Identity, Backup, TieredConfig, runtime_error, select_verified}
use my_infra.Tiered.Chosen.{AreSelected, select_verified-AreSelected}
use my_infra.Tiered.Pins.{done, Run, TieredWorld}
use my_infra.Tiered.Daily.{housekeeping}
use my_infra.Tiered.Pruned.{prunes, IsRecoverable, housekeeping-IsRecoverable}
use my_infra.Tiered.Capacity.{gib, check_capacity, check_both, run_hook}

abbrev identity_at : ℕ → Identity
identity_at time = record { backup_type = "vm"; backup_id = "100"; backup_time = time }

abbrev backup : ℕ → Option String → Backup
backup time state = record {
  identity = identity_at time;
  files = some "index.json.blob" ∷ [];
  verification = state;
  protected = true;
}

abbrev listing : List Backup
listing = backup 10 (some "ok") ∷ backup 30 none ∷ backup 20 (some "ok") ∷ []

select_verified_run :
    (select_verified listing ("vm/100" ∷ []) 90_000_000_000 ≡ ok (backup 20 (some "ok") ∷ []))
    × (select_verified listing ("vm/100" ∷ []) 93_620_000_001 ≡ err runtime_error)
unfolding select_verified
select_verified_run = (refl, refl)

selected_now :
    select_verified listing ("vm/100" ∷ []) 90_000_000_000 ≡ ok (backup 20 (some "ok") ∷ [])
unfolding select_verified
selected_now = refl

select_verified-AreSelected_example :
    AreSelected listing 90_000_000_000 ("vm/100" ∷ []) (backup 20 (some "ok") ∷ [])
select_verified-AreSelected_example =
    select_verified-AreSelected listing ("vm/100" ∷ []) 90_000_000_000 (backup 20 (some "ok") ∷ [])
      selected_now

abbrev world : TieredWorld
world = record {
  ismount = λ log. true;
  label = λ log. ok "backup";
  jobs = λ log. ok [];
  verify = λ log. ok tt;
  snapshots = λ log store. ok listing;
  sync = λ log. ok tt;
  protect = λ log k b. done;
  monotonic = λ log. 0;
  time = λ log. 90_000_000_000;
  prune = λ log. ok tt;
  collect = λ log. ok tt;
}

abbrev config : TieredConfig
config = record {
  local = "hdd";
  archive = "idrive";
  groups = "vm/100" ∷ [];
  sync_job = "sync";
  prune_job = "prune";
  mountpoint = "/mnt";
  label = "backup";
}

abbrev copied : Run
copied = record {
  state = record {
    pins = identity_at 20 ∷ [];
    last_sync = some 89_000;
    synced = identity_at 20 ∷ [];
  };
  disk = none;
  log = [];
}

pruned : prunes (housekeeping world config copied).1.log ≢ prunes copied.log
unfolding housekeeping
pruned = λ h. absurd cc

housekeeping-IsRecoverable_example : IsRecoverable world config copied
housekeeping-IsRecoverable_example = housekeeping-IsRecoverable world config copied pruned

check_capacity_run :
    check_capacity
      record { is_active = true; is_enabled = true; used = 320 * gib; avail = 20 * gib }
      record { is_active = true; is_enabled = true; used = 0; avail = 20 * gib }
    ≡ ok true
unfolding check_capacity
check_capacity_run = refl

hook_stops :
    run_hook (some "backup-start") (err runtime_error) (err runtime_error) ≡ err runtime_error
unfolding run_hook check_both
hook_stops = refl
