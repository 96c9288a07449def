-- ===== src/Monitor/Pbs/Latest.antt =====
-- Which snapshots of a machine docker/home-service-monitor/monitor.py reports.
use my_infra.Prelude.{
  ℕ, ◌≤◌, ◌≡◌, ◌↔◌, inl, inr, refl, sym, ap, subst, true, false, Option, none, some, List, [], ◌∷◌,
  String, arith, ltb, ◌==◌, string_eq, All, Any, Bool-cases,
}
use text.Mathlib.TextEquality.{eq_iff}
use my_infra.Monitor.Pbs.{
  Snapshot, has_manifest, is_candidate, candidates, later_of, latest, last_verified, time_of,
}

-- A snapshot of the machine whose manifest has been written.
abbrev pub IsComplete : String → Snapshot → Type 0
IsComplete vm s =
    (s.backup_type ≡ "vm") × (s.backup_id ≡ vm) × Any (λ f. f ≡ some "index.json.blob") s.files

of_manifest :
    (files : List (Option String))
    → has_manifest files ≡ true
    → Any (λ f. f ≡ some "index.json.blob") files
unfolding has_manifest
of_manifest [] h = cc
of_manifest (none ∷ files) h = inr (of_manifest files h)
of_manifest (some f ∷ files) h = elim (Bool-cases (f == "index.json.blob")) [
  | inl e ↦ inl (ap some ((eq_iff f "index.json.blob").0 e))
  | inr e ↦ inr (of_manifest files (ground (arith, e, h)))
]

to_manifest :
    (files : List (Option String))
    → Any (λ f. f ≡ some "index.json.blob") files
    → has_manifest files ≡ true
unfolding has_manifest
to_manifest [] h = absurd h
to_manifest (none ∷ files) (inl e) = absurd cc
to_manifest (none ∷ files) (inr h) = to_manifest files h
to_manifest (some f ∷ files) (inl e) = ground (arith, eq_iff f "index.json.blob", e)
to_manifest (some f ∷ files) (inr h) = ground (arith, to_manifest files h)

is_candidate_iff : (vm : String) (s : Snapshot) → (is_candidate vm s ≡ true) ↔ IsComplete vm s
unfolding is_candidate
is_candidate_iff vm s = (
  λ h. (
    ground (arith, h, eq_iff s.backup_type "vm"),
    ground (arith, h, eq_iff s.backup_id vm),
    of_manifest s.files (ground (arith, h)),
  ),
  λ h.
      ground (
        arith,
        eq_iff s.backup_type "vm",
        eq_iff s.backup_id vm,
        h.0,
        h.1,
        to_manifest s.files h.2,
      ),
)

-- Nothing in the list is later than `n`.
abbrev UpTo : ℕ → List Snapshot → Type 0
UpTo n = All (λ s. s.backup_time ≤ n)

module _ (best s : Snapshot) (xs : List Snapshot) where
  later_of_newer :
      ltb best.backup_time s.backup_time ≡ true → later_of best (s ∷ xs) ≡ later_of s xs
  unfolding later_of
  later_of_newer e = rw e refl

  later_of_older :
      ltb best.backup_time s.backup_time ≡ false → later_of best (s ∷ xs) ≡ later_of best xs
  unfolding later_of
  later_of_older e = rw e refl

later_of-ge :
    (best : Snapshot) (xs : List Snapshot) → best.backup_time ≤ (later_of best xs).backup_time
unfolding later_of
later_of-ge best [] = omega arith
later_of-ge best (s ∷ xs) = elim (Bool-cases (ltb best.backup_time s.backup_time)) [
  | inl e ↦ rw (e, later_of) (ground (arith, e, later_of-ge s xs))
  | inr e ↦ rw (e, later_of) (later_of-ge best xs)
]

later_of-UpTo : (best : Snapshot) (xs : List Snapshot) → UpTo (later_of best xs).backup_time xs
later_of-UpTo best [] = tt
later_of-UpTo best (s ∷ xs) = elim (Bool-cases (ltb best.backup_time s.backup_time)) [
  | inl e ↦
      subst (λ b. UpTo b.backup_time (s ∷ xs)) (sym (later_of_newer best s xs e))
        (later_of-ge s xs, later_of-UpTo s xs)
  | inr e ↦
      subst (λ b. UpTo b.backup_time (s ∷ xs)) (sym (later_of_older best s xs e))
        (ground (arith, e, later_of-ge best xs), later_of-UpTo best xs)
]

latest-UpTo : (xs : List Snapshot) → UpTo (time_of (latest xs)) xs
unfolding latest
latest-UpTo [] = tt
latest-UpTo (s ∷ xs) = (later_of-ge s xs, later_of-UpTo s xs)

last_verified-le : (n : ℕ) (xs : List Snapshot) → UpTo n xs → last_verified xs ≤ n
unfolding last_verified
last_verified-le n [] h = omega arith
last_verified-le n (s ∷ xs) h = ground (arith, h.0, last_verified-le n xs h.1)

-- The newest one, if there is any, is among them.
abbrev pub IsFrom : List Snapshot → Option Snapshot → Type 0
IsFrom xs none = xs ≡ []
IsFrom xs (some s) = Any (λ x. x ≡ s) xs

older :
    (P : Snapshot → Type 0) (x y : Snapshot) (xs : List Snapshot)
    → Any P (x ∷ xs)
    → Any P (x ∷ y ∷ xs)
older P x y xs (inl h) = inl h
older P x y xs (inr h) = inr (inr h)

later_of_member :
    (best : Snapshot) (xs : List Snapshot) → Any (λ x. x ≡ later_of best xs) (best ∷ xs)
unfolding later_of
later_of_member best [] = inl refl
later_of_member best (s ∷ xs) = elim (Bool-cases (ltb best.backup_time s.backup_time)) [
  | inl e ↦
      subst (λ b. Any (λ x. x ≡ b) (best ∷ s ∷ xs)) (sym (later_of_newer best s xs e))
        (inr (later_of_member s xs))
  | inr e ↦
      subst (λ b. Any (λ x. x ≡ b) (best ∷ s ∷ xs)) (sym (later_of_older best s xs e))
        (older (λ x. x ≡ later_of best xs) best s xs (later_of_member best xs))
]

latest-IsFrom : (xs : List Snapshot) → IsFrom xs (latest xs)
unfolding latest
latest-IsFrom [] = refl
latest-IsFrom (s ∷ xs) = later_of_member s xs

none_taken : (vm : String) → candidates vm [] ≡ []
unfolding candidates
none_taken vm = refl

module _ (vm : String) (s : Snapshot) (snapshots : List Snapshot) where
  taken : is_candidate vm s ≡ true → candidates vm (s ∷ snapshots) ≡ s ∷ candidates vm snapshots
  unfolding candidates
  taken e = rw e refl

  passed : is_candidate vm s ≡ false → candidates vm (s ∷ snapshots) ≡ candidates vm snapshots
  unfolding candidates
  passed e = rw e refl

first_or :
    (Q : Snapshot → Type 0) (vm : String) (s : Snapshot) (snapshots : List Snapshot)
    → is_candidate vm s ≡ true
    → (Any Q (candidates vm snapshots) → Any (λ s. IsComplete vm s × Q s) snapshots)
    → Any Q (s ∷ candidates vm snapshots)
    → Any (λ s. IsComplete vm s × Q s) (s ∷ snapshots)
first_or Q vm s snapshots e f (inl h) = inl ((is_candidate_iff vm s).0 e, h)
first_or Q vm s snapshots e f (inr h) = inr (f h)

-- What the list of candidates says of all snapshots.
candidates-All :
    (Q : Snapshot → Type 0) (vm : String) (snapshots : List Snapshot)
    → All Q (candidates vm snapshots)
    → All (λ s. IsComplete vm s → Q s) snapshots
unfolding candidates
candidates-All Q vm [] h = tt
candidates-All Q vm (s ∷ snapshots) h = elim (Bool-cases (is_candidate vm s)) [
  | inl e ↦
      let k : All Q (s ∷ candidates vm snapshots) = subst (All Q) (taken vm s snapshots e) h in
      (λ _. k.0, candidates-All Q vm snapshots k.1)
  | inr e ↦ (
    λ c. absurd (ground (arith, e, (is_candidate_iff vm s).1 c)),
    candidates-All Q vm snapshots (subst (All Q) (passed vm s snapshots e) h),
  )
]

candidates-Any :
    (Q : Snapshot → Type 0) (vm : String) (snapshots : List Snapshot)
    → Any Q (candidates vm snapshots)
    → Any (λ s. IsComplete vm s × Q s) snapshots
candidates-Any Q vm [] h = absurd (subst (Any Q) (none_taken vm) h)
candidates-Any Q vm (s ∷ snapshots) h = elim (Bool-cases (is_candidate vm s)) [
  | inl e ↦
      first_or Q vm s snapshots e (candidates-Any Q vm snapshots)
        (subst (Any Q) (taken vm s snapshots e) h)
  | inr e ↦ inr (candidates-Any Q vm snapshots (subst (Any Q) (passed vm s snapshots e) h))
]

-- The newest complete snapshot of the machine, if there is one.
abbrev pub IsNewest : String → List Snapshot → Option Snapshot → Type 0
IsNewest vm snapshots none = All (λ s. IsComplete vm s → ⊥) snapshots
IsNewest vm snapshots (some n) =
    Any (λ s. IsComplete vm s × s ≡ n) snapshots
    × All (λ s. IsComplete vm s → s.backup_time ≤ n.backup_time) snapshots

IsNewest-of :
    (vm : String) (snapshots : List Snapshot) (n : Option Snapshot)
    → UpTo (time_of n) (candidates vm snapshots)
    → IsFrom (candidates vm snapshots) n
    → IsNewest vm snapshots n
IsNewest-of vm snapshots none h from =
    candidates-All (λ s. ⊥) vm snapshots (subst (All (λ s. ⊥)) (sym from) tt)
IsNewest-of vm snapshots (some n) h from = (
  candidates-Any (λ s. s ≡ n) vm snapshots from,
  candidates-All (λ s. s.backup_time ≤ n.backup_time) vm snapshots h,
)

-- Of the snapshots of a machine whose manifest has been written, the one that is reported is one of
-- them and none is later; none is reported exactly if there are none. The time that is reported for
-- the last verified backup is no later than the time of the last backup.
pub latest-IsNewest :
    (vm : String) (snapshots : List Snapshot)
    → IsNewest vm snapshots (latest (candidates vm snapshots))
      × (last_verified (candidates vm snapshots) ≤ time_of (latest (candidates vm snapshots)))
latest-IsNewest vm snapshots =
    let found = candidates vm snapshots in
    (
      IsNewest-of vm snapshots (latest found) (latest-UpTo found) (latest-IsFrom found),
      last_verified-le (time_of (latest found)) found (latest-UpTo found),
    )
