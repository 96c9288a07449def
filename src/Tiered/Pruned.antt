-- ===== src/Tiered/Pruned.antt =====
-- When `housekeeping` of ansible/pbs/files/pbs-tiered.py prunes.
use my_infra.Prelude.{
  ℕ, suc, ◌≡◌, ◌≢◌, refl, sym, subst, Bool, true, false, none, List, [], ◌∷◌, arith, Bool-cases,
  inl, inr, All, if◌then◌else◌,
}
use my_infra.Prelude.Action.{Result, ok, err, then_do}
use my_infra.Tiered.Select.{TieredError, Identity, Backup, TieredConfig}
use my_infra.Tiered.Pins.{
  Task, mount, label, list_jobs, verify, list, run_sync, protect, monotonic, sleep, clock,
  save_state, run_prune, collect, Run, TieredWorld, find_backup,
}
use my_infra.Tiered.Daily.{
  is_protected, all_pinned, is_set, rows_of, prune_when, prune_rows, housekeeping,
}

abbrev pub is_prune : Task → Bool
is_prune run_prune = true
is_prune mount = false
is_prune label = false
is_prune list_jobs = false
is_prune verify = false
is_prune (list store) = false
is_prune run_sync = false
is_prune (protect k b) = false
is_prune monotonic = false
is_prune sleep = false
is_prune clock = false
is_prune (save_state state) = false
is_prune collect = false

abbrev pub prunes : List Task → ℕ
prunes [] = 0
prunes (t ∷ log) = let n = prunes log in if is_prune t then suc n else n

abbrev pub IsPinned : List Backup → Identity → Type 0
IsPinned rows k = is_protected (find_backup k none rows) ≡ true

-- A copy has been confirmed, and the local store, listed now, has each snapshot that was copied, protected.
pub record IsRecoverable (w : TieredWorld) (config : TieredConfig) (s : Run) : Type 0 where
  pub rows : List Backup
  pub confirmed : is_set s.state.last_sync ≡ true
  pub listed : w.snapshots s.log config.local ≡ ok rows
  pub pinned : All (IsPinned rows) s.state.synced

all_pinned-IsPinned :
    (rows : List Backup) (ks : List Identity) → all_pinned rows ks ≡ true → All (IsPinned rows) ks
unfolding all_pinned
all_pinned-IsPinned rows [] h = tt
all_pinned-IsPinned rows (k ∷ ks) h = elim (Bool-cases (is_protected (find_backup k none rows))) [
  | inl e ↦ (e, all_pinned-IsPinned rows ks (ground (arith, h, e)))
  | inr e ↦ absurd (ground (arith, h, e))
]

-- After the listing.
rows_then :
    (w : TieredWorld) (config : TieredConfig) (s : Run) (r : Result TieredError (List Backup))
    → is_set s.state.last_sync ≡ true
    → w.snapshots s.log config.local ≡ r
    → prunes (then_do (r, record s { log = list config.local ∷ s.log }) (prune_rows w config)).1.log
      ≢ prunes s.log
    → IsRecoverable w config s
rows_then w config s (err e) c l h = absurd (h refl)
rows_then w config s (ok rows) c l h = elim (Bool-cases (all_pinned rows s.state.synced)) [
  | inl a ↦ record {
    rows = rows;
    confirmed = c;
    listed = l;
    pinned = all_pinned-IsPinned rows s.state.synced a;
  }
  | inr a ↦ absurd (
      h (
        subst
          (λ b.
            prunes (prune_when w config b (record s { log = list config.local ∷ s.log })).1.log
            ≡ prunes s.log)
          (sym a) refl))
]

-- Nothing is pruned unless a copy in the archive has been confirmed and each snapshot that was copied is
-- in the local store, as it is listed just before, and protected.
pub housekeeping-IsRecoverable :
    (w : TieredWorld) (config : TieredConfig) (s : Run)
    → prunes (housekeeping w config s).1.log ≢ prunes s.log
    → IsRecoverable w config s
unfolding housekeeping
housekeeping-IsRecoverable w config s h = elim (Bool-cases (is_set s.state.last_sync)) [
  | inl e ↦ rows_then w config s (w.snapshots s.log config.local) e refl (
      subst
        (λ b.
          prunes
            (if b
              then then_do (rows_of w config config.local s) (prune_rows w config)
              else (ok tt, s)).1.log
          ≢ prunes s.log)
        e h)
  | inr e ↦ absurd (
      h (
        subst
          (λ b.
            prunes
              (if b
                then then_do (rows_of w config config.local s) (prune_rows w config)
                else (ok tt, s)).1.log
            ≡ prunes s.log)
          (sym e) refl))
]
