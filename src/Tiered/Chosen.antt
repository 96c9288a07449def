-- ===== src/Tiered/Chosen.antt =====
-- What `select_verified` of ansible/pbs/files/pbs-tiered.py selects.
use my_infra.Prelude.{
  ℕ, ◌+◌, ◌*◌, ◌≤◌, ◌≡◌, refl, sym, subst, Bool, true, false, List, [], ◌∷◌, String, arith, ltb,
  nat_eq, string_eq, Bool-cases, inl, inr, All, Any, if◌then◌else◌,
}
use my_infra.Prelude.Action.{Result, ok, err}
use my_infra.Tiered.Select.{
  TieredError, runtime_error, Backup, is_verified, verified, newest, newest_of, is_old, recent,
  and_then, select_verified,
}

-- A snapshot of the store that is complete and verified, at most 26 hours old, and no older than any other
-- such one of its group.
pub record IsSelected (rows : List Backup) (now : ℕ) (name : String) (s : Backup) : Type 0 where
  pub present : Any (λ r. r ≡ s) rows
  pub sound : is_verified name s ≡ true
  pub young : now ≤ (s.identity.backup_time + 93_600) * 1_000_000
  pub no_older :
      All (λ r. is_verified name r ≡ true → r.identity.backup_time ≤ s.identity.backup_time) rows

-- One for each group, in their order.
abbrev pub AreSelected : List Backup → ℕ → List String → List Backup → Type 0
AreSelected rows now [] [] = Unit
AreSelected rows now [] (s ∷ chosen) = ⊥
AreSelected rows now (name ∷ groups) [] = ⊥
AreSelected rows now (name ∷ groups) (s ∷ chosen) =
    IsSelected rows now name s × AreSelected rows now groups chosen

module _ (best s : Backup) (rows : List Backup) where
  newer :
      ltb best.identity.backup_time s.identity.backup_time ≡ true
      → newest best (s ∷ rows) ≡ newest s rows
  unfolding newest
  newer e = rw (newest, e) refl

  older :
      ltb best.identity.backup_time s.identity.backup_time ≡ false
      → newest best (s ∷ rows) ≡ newest best rows
  unfolding newest
  older e = rw (newest, e) refl

abbrev IsOneOf : List Backup → Backup → Type 0
IsOneOf rows x = Any (λ r. r ≡ x) rows

-- The newest of a list, from one on, is one of them.
newest-IsOneOf : (best : Backup) (rows : List Backup) → IsOneOf (best ∷ rows) (newest best rows)
unfolding newest
newest-IsOneOf best [] = inl refl
newest-IsOneOf best (s ∷ rows) =
    elim (Bool-cases (ltb best.identity.backup_time s.identity.backup_time)) [
      | inl e ↦
          subst (IsOneOf (best ∷ s ∷ rows)) (sym (newer best s rows e))
            (inr (newest-IsOneOf s rows))
      | inr e ↦
          subst (IsOneOf (best ∷ s ∷ rows)) (sym (older best s rows e))
            (elim (newest-IsOneOf best rows) [ inl q ↦ inl q | inr q ↦ inr (inr q) ])
    ]

abbrev UpTo : Backup → List Backup → Type 0
UpTo x rows = All (λ r. r.identity.backup_time ≤ x.identity.backup_time) rows

newest-UpTo : (best : Backup) (rows : List Backup) → UpTo (newest best rows) (best ∷ rows)
unfolding newest
newest-UpTo best [] = (omega arith, tt)
newest-UpTo best (s ∷ rows) =
    elim (Bool-cases (ltb best.identity.backup_time s.identity.backup_time)) [
      | inl e ↦
          subst (λ x. UpTo x (best ∷ s ∷ rows)) (sym (newer best s rows e))
            (let h = newest-UpTo s rows in (ground (arith, e, h.0), h))
      | inr e ↦
          subst (λ x. UpTo x (best ∷ s ∷ rows)) (sym (older best s rows e))
            (let h = newest-UpTo best rows in (h.0, (ground (arith, e, h.0), h.1)))
    ]

module _ (name : String) (r : Backup) (rows : List Backup) where
  taken : is_verified name r ≡ true → verified name (r ∷ rows) ≡ r ∷ verified name rows
  unfolding verified
  taken e = rw (verified, e) refl

  passed : is_verified name r ≡ false → verified name (r ∷ rows) ≡ verified name rows
  unfolding verified
  passed e = rw (verified, e) refl

-- The first of a selection, and the rest.
record Split (r : Result TieredError Backup) (rest : Result TieredError (List Backup))
    (chosen : List Backup) : Type 0 where
  head : Backup
  tail : List Backup
  first : r ≡ ok head
  others : rest ≡ ok tail
  whole : chosen ≡ head ∷ tail

not_old :
    (now : ℕ) (s : Backup)
    → is_old now s ≡ false
    → now ≤ (s.identity.backup_time + 93_600) * 1_000_000
unfolding is_old
not_old now s h = ground (arith, h)

module _ (now : ℕ) (t s : Backup) where
  aged :
      (b : Bool)
      → ◌≡◌ {A = Result TieredError Backup} (if b then err runtime_error else ok t) (ok s)
      → (b ≡ false) × (t ≡ s)
  aged true h = absurd cc
  aged false h = (refl, cc)

module _ (name : String) where
  verified-Any :
      (Q : Backup → Type 0) (rows : List Backup)
      → Any Q (verified name rows)
      → Any (λ r. (is_verified name r ≡ true) × Q r) rows
  unfolding verified
  verified-Any Q [] h = absurd h
  verified-Any Q (r ∷ rows) h = elim (Bool-cases (is_verified name r)) [
    | inl e ↦ elim (subst (Any Q) (taken name r rows e) h) [
      | inl q ↦ inl (e, q)
      | inr q ↦ inr (verified-Any Q rows q)
    ]
    | inr e ↦ inr (verified-Any Q rows (subst (Any Q) (passed name r rows e) h))
  ]

  verified-All :
      (Q : Backup → Type 0) (rows : List Backup)
      → All Q (verified name rows)
      → All (λ r. is_verified name r ≡ true → Q r) rows
  unfolding verified
  verified-All Q [] h = tt
  verified-All Q (r ∷ rows) h = elim (Bool-cases (is_verified name r)) [
    | inl e ↦ let k = subst (All Q) (taken name r rows e) h in (λ _. k.0, verified-All Q rows k.1)
    | inr e ↦ (λ q. absurd cc, verified-All Q rows (subst (All Q) (passed name r rows e) h))
  ]

  -- The one that is present is verified.
  found :
      (s : Backup) (rows : List Backup)
      → Any (λ r. (is_verified name r ≡ true) × (r ≡ s)) rows
      → (is_verified name s ≡ true) × Any (λ r. r ≡ s) rows
  found s [] h = absurd h
  found s (r ∷ rows) (inl h) = (subst (λ x. is_verified name x ≡ true) h.1 h.0, inl h.1)
  found s (r ∷ rows) (inr h) = let k = found s rows h in (k.0, inr k.1)

  recent-IsSelected :
      (rows : List Backup) (now : ℕ) (found_rows : List Backup) (s : Backup)
      → verified name rows ≡ found_rows
      → recent now (newest_of found_rows) ≡ ok s
      → IsSelected rows now name s
  recent-IsSelected rows now [] s v h = absurd cc
  recent-IsSelected rows now (t ∷ ts) s v h =
      let a = aged now (newest t ts) s (is_old now (newest t ts)) h in
      let p = found s rows (
        verified-Any (λ r. r ≡ s) rows
          (subst (λ xs. Any (λ r. r ≡ s) xs) (sym v)
            (subst (λ x. IsOneOf (t ∷ ts) x) a.1 (newest-IsOneOf t ts)))) in
      record {
        present = p.1;
        sound = p.0;
        young = not_old now s (subst (λ x. is_old now x ≡ false) a.1 a.0);
        no_older =
            verified-All (λ r. r.identity.backup_time ≤ s.identity.backup_time) rows
              (subst (λ xs. UpTo s xs) (sym v)
                (subst (λ x. UpTo x (t ∷ ts)) a.1 (newest-UpTo t ts)));
      }

and_then_ok :
    (r : Result TieredError Backup) (rest : Result TieredError (List Backup)) (chosen : List Backup)
    → and_then r rest ≡ ok chosen
    → Split r rest chosen
and_then_ok (err e) rest chosen h = absurd cc
and_then_ok (ok s) (err e) chosen h = absurd cc
and_then_ok (ok s) (ok rest) chosen h = record {
  head = s;
  tail = rest;
  first = refl;
  others = refl;
  whole = cc;
}

-- If the selection does not fail, it has one snapshot for each group, in their order: one of the store
-- that is complete and verified and at most 26 hours old, and no older than any other such one of its
-- group.
pub select_verified-AreSelected :
    (rows : List Backup) (groups : List String) (now : ℕ) (chosen : List Backup)
    → select_verified rows groups now ≡ ok chosen
    → AreSelected rows now groups chosen
unfolding select_verified
select_verified-AreSelected rows [] now [] h = tt
select_verified-AreSelected rows [] now (s ∷ chosen) h = absurd cc
select_verified-AreSelected rows (name ∷ groups) now chosen h =
    let p =
      and_then_ok (recent now (newest_of (verified name rows))) (select_verified rows groups now)
        chosen h in
    subst (λ c. AreSelected rows now (name ∷ groups) c) (sym p.whole)
      (
        recent-IsSelected name rows now (verified name rows) p.head refl p.first,
        select_verified-AreSelected rows groups now p.tail p.others,
      )
