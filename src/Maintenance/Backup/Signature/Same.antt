-- ===== src/Maintenance/Backup/Signature/Same.antt =====
-- What two backups have in common if `backup_signature` of
-- ansible/host-maintenance/files/maintenance-agent.py gives the same for both.
use my_infra.Prelude.{
  ℕ, suc, ◌≡◌, refl, ap, ◌∙◌, Bool, true, false, ◌&&◌, ◌==◌, List, [], ◌∷◌, ◌++◌, String, arith,
  string_eq, if◌then◌else◌, Bool-cases, inl, inr,
}
use text.Mathlib.TextEquality.{eq_iff}
use my_infra.Prelude.Sorted.{Pair, pair_leb, insert_pair, sort_pairs}
use my_infra.Prelude.Sorted.Commute.{insert_pair_swap}
use my_infra.Maintenance.Backup.Signature.{
  pair_eqb, pairs_eqb, pairs, without_quiet, backup_signature, same_signature,
}

-- How often a pair stands in a list.
abbrev occurrences : Pair → List Pair → ℕ
occurrences p [] = 0
occurrences p (q ∷ qs) = if pair_eqb q p then suc (occurrences p qs) else occurrences p qs

swap :
    (a b : Bool) (n : ℕ)
    → (if b then suc (if a then suc n else n) else (if a then suc n else n))
      ≡ (if a then suc (if b then suc n else n) else (if b then suc n else n))
swap a b n = ground arith

occurrences-insert_pair :
    (p q : Pair) (qs : List Pair) → occurrences p (insert_pair q qs) ≡ occurrences p (q ∷ qs)
unfolding insert_pair
occurrences-insert_pair p q [] = refl
occurrences-insert_pair p q (r ∷ qs) = elim (Bool-cases (pair_leb q r)) [
  | inl e ↦ rw (insert_pair, e) refl
  | inr e ↦
      rw (insert_pair, e, occurrences-insert_pair p q qs)
        (swap (pair_eqb q p) (pair_eqb r p) (occurrences p qs))
]

occurrences-sort_pairs :
    (p : Pair) (ps : List Pair) → occurrences p (sort_pairs ps) ≡ occurrences p ps
unfolding sort_pairs
occurrences-sort_pairs p [] = refl
occurrences-sort_pairs p (q ∷ ps) =
    rw (sort_pairs, occurrences-insert_pair p q (sort_pairs ps), occurrences-sort_pairs p ps) refl

pairs_same : (ps qs : List Pair) → pairs_eqb ps qs ≡ true → ps ≡ qs
pairs_same [] [] e = refl
pairs_same [] (q ∷ qs) e = absurd cc
pairs_same (p ∷ ps) [] e = absurd cc
pairs_same ((a, b) ∷ ps) ((c, d) ∷ qs) e = ground (arith, eq_iff a c, eq_iff b d, pairs_same ps qs)

-- How often the arguments give an option with a value, read two by two.
abbrev pub given : String → String → List String → ℕ
given option value [] = 0
given option value (a ∷ []) = 0
given option value (a ∷ b ∷ rest) =
    let n = given option value rest in if (a == option) && (b == value) then suc n else n

occurrences-given :
    (option value : String) (xs : List String)
    → (option == "--quiet") ≡ false
    → occurrences (option, value) (without_quiet (pairs xs)) ≡ given option value xs
unfolding pairs without_quiet
occurrences-given option value [] h = refl
occurrences-given option value (a ∷ []) h = refl
occurrences-given option value (a ∷ b ∷ rest) h = ground (
  arith,
  eq_iff a "--quiet",
  eq_iff a option,
  eq_iff option "--quiet",
  occurrences-given option value rest h,
)

-- The arguments of a list of options.
abbrev pub flat : List Pair → List String
flat [] = []
flat ((option, value) ∷ ps) = option ∷ value ∷ flat ps

signature-flat :
    (ps : List Pair) (a b : List String)
    → backup_signature a ≡ backup_signature b
    → backup_signature (flat ps ++ a) ≡ backup_signature (flat ps ++ b)
unfolding backup_signature pairs without_quiet sort_pairs
signature-flat [] a b e = e
signature-flat ((option, value) ∷ ps) a b e = elim (Bool-cases (option == "--quiet")) [
  | inl q ↦ rw (without_quiet, q) (signature-flat ps a b e)
  | inr q ↦ rw (without_quiet, q) (ap (insert_pair (option, value)) (signature-flat ps a b e))
]

signature_swap :
    (p q : Pair) (a : List String)
    → backup_signature (p.0 ∷ p.1 ∷ q.0 ∷ q.1 ∷ a) ≡ backup_signature (q.0 ∷ q.1 ∷ p.0 ∷ p.1 ∷ a)
unfolding backup_signature pairs without_quiet sort_pairs
signature_swap p q a = elim (Bool-cases (p.0 == "--quiet")) [
  | inl b ↦ rw (without_quiet, b) refl
  | inr b ↦ elim (Bool-cases (q.0 == "--quiet")) [
    | inl c ↦ rw (without_quiet, b, c) refl
    | inr c ↦ rw (without_quiet, b, c) (insert_pair_swap p q (sort_pairs (without_quiet (pairs a))))
  ]
]

pairs_eqb_refl : (ps qs : List Pair) → ps ≡ qs → pairs_eqb ps qs ≡ true
pairs_eqb_refl [] [] e = refl
pairs_eqb_refl [] (q ∷ qs) e = absurd cc
pairs_eqb_refl (p ∷ ps) [] e = absurd cc
pairs_eqb_refl ((a, b) ∷ ps) ((c, d) ∷ qs) e =
    ground (arith, eq_iff a c, eq_iff b d, pairs_eqb_refl ps qs, e)

signature_quiet :
    (loud : String) (a : List String) → backup_signature ("--quiet" ∷ loud ∷ a) ≡ backup_signature a
unfolding backup_signature pairs without_quiet
signature_quiet loud a = refl

given_same :
    (a b : List String) (option value : String)
    → (option == "--quiet") ≡ false
    → backup_signature a ≡ backup_signature b
    → given option value a ≡ given option value b
unfolding backup_signature
given_same a b option value h same = cc (
  occurrences-given option value a h,
  occurrences-given option value b h,
  occurrences-sort_pairs (option, value) (without_quiet (pairs a)),
  occurrences-sort_pairs (option, value) (without_quiet (pairs b)),
  ap (occurrences (option, value)) same,
)

-- Two lists of arguments with the same signature give each option but `--quiet` with each value equally
-- often. And they still have the same one if the same options are put in front of both, if two of these
-- that stand next to each other are swapped in one list, or if one list gives `--quiet` as well.
pub same_signature_lem :
    (a b : List String) (option value loud : String) (front : List Pair) (p q : Pair)
    → (option == "--quiet") ≡ false
    → same_signature a b ≡ true
    → (given option value a ≡ given option value b)
      × (same_signature
            (flat front ++ (flat (p ∷ q ∷ []) ++ a))
            (flat front ++ (flat (q ∷ p ∷ []) ++ b))
          ≡ true)
      × (same_signature (flat front ++ "--quiet" ∷ loud ∷ a) (flat front ++ b) ≡ true)
unfolding same_signature
same_signature_lem a b option value loud front p q h e =
    let same = pairs_same (backup_signature a) (backup_signature b) e in
    let swapped = signature_swap p q a ∙ signature-flat (q ∷ p ∷ []) a b same in
    let moved = signature-flat front (flat (p ∷ q ∷ []) ++ a) (flat (q ∷ p ∷ []) ++ b) swapped in
    let loudly = signature-flat front ("--quiet" ∷ loud ∷ a) b (signature_quiet loud a ∙ same) in
    (given_same a b option value h same, pairs_eqb_refl _ _ moved, pairs_eqb_refl _ _ loudly)
