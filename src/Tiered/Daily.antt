-- ===== src/Tiered/Daily.antt =====
-- `check_mount`, `housekeeping`, `daily` and `main` of ansible/pbs/files/pbs-tiered.py.
use my_infra.Prelude.{
  ℕ, ◌/◌, Bool, true, false, not, ◌&&◌, Option, none, some, List, [], ◌∷◌, String, ◌==◌, nat_eq,
  string_eq, if◌then◌else◌,
}
use my_infra.Prelude.Action.{Result, ok, err, then_do, ◌>>=◌, ◌>>◌, raise}
use my_infra.Tiered.Select.{
  TieredError, runtime_error, stop_iteration, Identity, Backup, select_verified, require_copies,
  SyncJob, TieredConfig, validate_sync,
}
use my_infra.Tiered.Pins.{
  mount, label, list_jobs, verify, list, run_sync, clock, run_prune, collect, Run, TieredState,
  TieredWorld, TieredAct, order, save_now, find_backup, identities, update_pins,
}

abbrev pub give : {A : Type 0} → Result TieredError A → TieredAct A
give r s = (r, s)

-- `next(j for j in jobs if ...)` raises if there is none.
unfoldable pub find_sync_job : String → List SyncJob → Result TieredError SyncJob
find_sync_job id [] = err stop_iteration
find_sync_job id (j ∷ jobs) = if j.id == id then ok j else find_sync_job id jobs

abbrev pub is_protected : Option Backup → Bool
is_protected none = false
is_protected (some row) = row.protected

-- Each snapshot that was copied is still there and protected.
unfoldable pub all_pinned : List Backup → List Identity → Bool
unfolding find_backup
all_pinned rows [] = true
all_pinned rows (k ∷ ks) = is_protected (find_backup k none rows) && all_pinned rows ks

abbrev pub is_set : Option ℕ → Bool
is_set none = false
is_set (some n) = not (n == 0)

module _ (w : TieredWorld) (config : TieredConfig) where
  unfoldable pub check_mount : TieredAct (Unit {0})
  check_mount = do
    is_mounted ← order mount (λ log. ok (w.ismount log))
    give (if is_mounted then ok tt else err runtime_error)
    found ← order label (λ log. w.label log)
    give (if found == config.label then ok tt else err runtime_error)

  abbrev pub rows_of : String → TieredAct (List Backup)
  rows_of store = order (list store) (λ log. w.snapshots log store)

  abbrev pub prune_when : Bool → TieredAct (Unit {0})
  prune_when false = raise runtime_error
  prune_when true = do order run_prune (λ log. w.prune log); order collect (λ log. w.collect log)

  abbrev pub prune_rows : List Backup → TieredAct (Unit {0})
  prune_rows rows s = prune_when (all_pinned rows s.state.synced) s

  -- Before the first copy nothing is pruned.
  unfoldable pub housekeeping : TieredAct (Unit {0})
  unfolding all_pinned
  housekeeping s =
      let go = then_do (rows_of config.local s) prune_rows in
      if is_set s.state.last_sync then go else (ok tt, s)

  abbrev confirmed : List Backup → Run → Run
  confirmed chosen s = save_now (record s {
    state = record s.state {
      last_sync = some (w.time s.log / 1_000_000);
      synced = identities chosen;
    };
    log = clock ∷ s.log;
  })

  unfoldable pub daily : ℕ → TieredAct (Unit {0})
  unfolding find_sync_job validate_sync select_verified require_copies update_pins housekeeping
  daily fuel = do
    jobs ← order list_jobs (λ log. w.jobs log)
    job ← give (find_sync_job config.sync_job jobs)
    give (validate_sync config job)
    order verify (λ log. w.verify log)
    rows ← rows_of config.local
    now ← order clock (λ log. ok (w.time log))
    chosen ← give (select_verified rows config.groups now)
    order run_sync (λ log. w.sync log)
    archive ← rows_of config.archive
    give (require_copies chosen archive)
    present ← rows_of config.local
    update_pins w fuel chosen present
    λ s. housekeeping (confirmed chosen s)

  abbrev no_state : TieredState
  no_state = record { pins = []; last_sync = none; synced = [] }

  abbrev read_state : Option TieredState → TieredState
  read_state none = no_state
  read_state (some state) = state

  abbrev act : ℕ → Bool → TieredAct (Unit {0})
  act fuel true = daily fuel
  act fuel false = housekeeping

  -- Under the lock, if it is free.
  unfoldable pub run_tiered : ℕ → Bool → Bool → TieredAct (Unit {0})
  unfolding check_mount daily housekeeping
  run_tiered fuel is_daily free s =
      let go =
        then_do (check_mount s)
          (λ _ t. act fuel is_daily (record t { state = read_state t.disk })) in
      if free then go else (ok tt, s)
