-- ===== src/Tiered/Pins.antt =====
-- `set_protected` and `update_pins` of ansible/pbs/files/pbs-tiered.py.
use my_infra.Prelude.{
  ℕ, zero, suc, ◌+◌, Bool, true, false, ◌||◌, Option, none, some, List, [], ◌∷◌, String, leb, ◌==◌,
  nat_eq, string_eq, if◌then◌else◌,
}
use my_infra.Prelude.Sorted.{text_leb}
use my_infra.Prelude.Action.{Result, ok, err, then_do, ◌>>=◌, ◌>>◌, pure, Action}
use my_infra.Tiered.Select.{
  TieredError, runtime_error, key_error, out_of_fuel, Identity, Backup, same_identity, SyncJob,
}

-- state.json
pub record TieredState : Type 0 where
  pub pins : List Identity
  pub last_sync : Option ℕ
  pub synced : List Identity

-- What an update of a protection answers.
pub data Protection : Type 0 where
  done : Protection
  busy : Protection
  refused : Protection

pub data Task : Type 0 where
  mount : Task
  label : Task
  list_jobs : Task
  verify : Task
  list : String → Task
  run_sync : Task
  protect : Identity → Bool → Task
  monotonic : Task
  sleep : Task
  clock : Task
  save_state : TieredState → Task
  run_prune : Task
  collect : Task

-- The state in memory, the one on disk, and what has been done.
pub record Run : Type 0 where
  pub state : TieredState
  pub disk : Option TieredState
  pub log : List Task

-- What the commands answer.
pub record TieredWorld : Type 0 where
  pub ismount : List Task → Bool
  pub label : List Task → Result TieredError String
  pub jobs : List Task → Result TieredError (List SyncJob)
  pub verify : List Task → Result TieredError (Unit {0})
  pub snapshots : List Task → String → Result TieredError (List Backup)
  pub sync : List Task → Result TieredError (Unit {0})
  pub protect : List Task → Identity → Bool → Protection
  -- Microseconds.
  pub monotonic : List Task → ℕ
  pub time : List Task → ℕ
  pub prune : List Task → Result TieredError (Unit {0})
  pub collect : List Task → Result TieredError (Unit {0})

abbrev pub TieredAct : Type 0 → Type 0
TieredAct A = Action TieredError Run A

abbrev pub order : {A : Type 0} → Task → (List Task → Result TieredError A) → TieredAct A
order t answer s = (answer s.log, record s { log = t ∷ s.log })

-- `save_state`
abbrev pub save_now : Run → Run
save_now s = record s { disk = some s.state; log = save_state s.state ∷ s.log }

-- `sorted(keys)` of a set.
abbrev identity_leb : Identity → Identity → Bool
identity_leb a b =
    if a.backup_type == b.backup_type
    then (if a.backup_id == b.backup_id
        then leb a.backup_time b.backup_time
        else text_leb a.backup_id b.backup_id)
    else text_leb a.backup_type b.backup_type

unfoldable pub insert_identity : Identity → List Identity → List Identity
unfolding text_leb
insert_identity k [] = k ∷ []
insert_identity k (j ∷ ks) =
    let rest = insert_identity k ks in
    if same_identity k j then j ∷ ks else if identity_leb k j then k ∷ j ∷ ks else j ∷ rest

unfoldable pub sort_identities : List Identity → List Identity
unfolding insert_identity
sort_identities [] = []
sort_identities (k ∷ ks) = insert_identity k (sort_identities ks)

unfoldable pub has_identity : List Identity → Identity → Bool
has_identity [] k = false
has_identity (j ∷ ks) k = same_identity j k || has_identity ks k

unfoldable pub without : Identity → List Identity → List Identity
without k [] = []
without k (j ∷ ks) = let rest = without k ks in if same_identity j k then rest else j ∷ rest

-- `owned - desired`
unfoldable pub minus : List Identity → List Identity → List Identity
unfolding has_identity
minus [] desired = []
minus (k ∷ owned) desired =
    let rest = minus owned desired in if has_identity desired k then rest else k ∷ rest

-- `{identity(s): s for s in rows}`: the last one counts.
unfoldable pub find_backup : Identity → Option Backup → List Backup → Option Backup
find_backup k found [] = found
find_backup k found (s ∷ rows) =
    find_backup k (if same_identity s.identity k then some s else found) rows

abbrev pub identities : List Backup → List Identity
identities [] = []
identities (s ∷ rows) = s.identity ∷ identities rows

abbrev pub set_pins : List Identity → Run → Run
set_pins pins s = record s { state = record s.state { pins = pins } }

module _ (w : TieredWorld) where
  -- A turn whose update is busy sleeps, and tries again before the deadline.
  unfoldable pub set_protected : ℕ → ℕ → Identity → Bool → TieredAct (Unit {0})
  set_protected zero deadline k b s = (err out_of_fuel, s)
  set_protected (suc n) deadline k b s =
      let t : Run = record s { log = protect k b ∷ s.log } in
      let late : Run = record t { log = monotonic ∷ t.log } in
      let again = then_do (order sleep (λ log. ok tt) late) (λ _. set_protected n deadline k b) in
      elim (w.protect s.log k b) [
        | done ↦ (ok tt, t)
        | refused ↦ (err runtime_error, late)
        | busy ↦ if leb deadline (w.monotonic t.log) then (err runtime_error, late) else again
      ]

  abbrev protect_until : ℕ → Identity → Bool → TieredAct (Unit {0})
  protect_until fuel k b = do
    now ← order monotonic (λ log. ok (w.monotonic log))
    set_protected fuel (now + 900_000_000) k b

  -- A snapshot that someone else protects is not owned.
  unfoldable pub pin_all : ℕ → List Backup → List Identity → TieredAct (Unit {0})
  unfolding set_protected find_backup sort_identities insert_identity
  pin_all fuel rows [] s = (ok tt, s)
  pin_all fuel rows (k ∷ ks) s = elim (find_backup k none rows) [
    | none ↦ (err key_error, s)
    | some row ↦
        let pin = then_do (protect_until fuel k true s) (λ _ t.
          pin_all fuel rows ks
            (save_now (set_pins (sort_identities (insert_identity k t.state.pins)) t))) in
        let skip = pin_all fuel rows ks s in if row.protected then skip else pin
  ]

  abbrev unprotect : ℕ → Identity → Option Backup → TieredAct (Unit {0})
  unprotect fuel k none = pure tt
  unprotect fuel k (some row) = protect_until fuel k false

  -- A pin that is gone is only forgotten.
  unfoldable pub unpin_all : ℕ → List Backup → List Identity → TieredAct (Unit {0})
  unfolding set_protected find_backup without sort_identities
  unpin_all fuel rows [] s = (ok tt, s)
  unpin_all fuel rows (k ∷ ks) s = then_do (unprotect fuel k (find_backup k none rows) s) (λ _ t.
      unpin_all fuel rows ks (save_now (set_pins (sort_identities (without k t.state.pins)) t)))

  unfoldable pub update_pins : ℕ → List Backup → List Backup → TieredAct (Unit {0})
  unfolding pin_all unpin_all minus sort_identities
  update_pins fuel chosen rows = do
    let desired = sort_identities (identities chosen)
    pin_all fuel rows desired
    λ s. unpin_all fuel rows (sort_identities (minus s.state.pins desired)) s
