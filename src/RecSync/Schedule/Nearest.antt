-- ===== src/RecSync/Schedule/Nearest.antt =====
-- `match_program` returns the first of the nearest rows within the tolerance.
use my_infra.Prelude.{
  ℕ, ◌+◌, ◌≤◌, ◌<◌, ◌≡◌, refl, ap, ◌⊎◌, inl, inr, ◌&&◌, Option, none, some, List, [], ◌∷◌, ◌++◌,
  arith, ltb, leb, abs_diff, All, Bool-cases,
}
use my_infra.RecSync.Text.{Text}
use my_infra.RecSync.Schedule.{Slot, match_loop, match_program}

module _ (tolerance target : ℕ) where
  abbrev pub delta : Slot → ℕ
  delta p = abs_diff p.start target

  -- `p` is the first row of the least distance, and its distance is below `bound`.
  pub record IsNearest (bound : ℕ) (programs : List Slot) (p : Slot) : Type 0 where
    pub earlier : List Slot
    pub later : List Slot
    pub stands : programs ≡ earlier ++ p ∷ later
    pub within : delta p < bound
    pub nearer_than_earlier : All (λ q. delta p < delta q) earlier
    pub near_as_later : All (λ q. delta p ≤ delta q) later

  -- Nothing is below the bound, or a nearest row was found.
  abbrev Found : ℕ → List Slot → Option (ℕ × Text) → Option (ℕ × Text) → Type 0
  Found bound programs best r =
      (All (λ q. bound ≤ delta q) programs × (r ≡ best))
      ⊎ ((p : Slot) × IsNearest bound programs p × (r ≡ some (p.program_id, p.name)))

  extend :
      (q : Slot) (programs : List Slot) (bound bound' : ℕ) (p : Slot)
      → bound' ≤ bound
      → bound' ≤ delta q
      → IsNearest bound' programs p
      → IsNearest bound (q ∷ programs) p
  extend q programs bound bound' p le far n = record {
    earlier = q ∷ n.earlier;
    later = n.later;
    stands = ap (λ l. q ∷ l) n.stands;
    within = omega (arith, n.within);
    nearer_than_earlier = (omega (arith, n.within), n.nearer_than_earlier);
    near_as_later = n.near_as_later;
  }

  match_loop-Found :
      (programs : List Slot) (bound : ℕ) (best : Option (ℕ × Text))
      → bound ≤ tolerance + 1
      → Found bound programs best (match_loop tolerance target programs bound best)
  unfolding match_loop
  match_loop-Found [] bound best h = inl (tt, refl)
  match_loop-Found (q ∷ programs) bound best h =
      elim (Bool-cases (leb (delta q) tolerance && ltb (delta q) bound)) [
        | inl closer ↦
            rw closer
              (elim (match_loop-Found programs (delta q) (some (q.program_id, q.name))
                (ground arith)) [
                  | inl (far, e) ↦ inr (
                    q,
                    record {
                      earlier = [];
                      later = programs;
                      stands = refl;
                      within = ground arith;
                      nearer_than_earlier = tt;
                      near_as_later = far;
                    },
                    e,
                  )
                  | inr (p, n, e) ↦
                      inr (p, extend q programs bound (delta q) p (ground arith) (omega arith) n, e)
                ])
        | inr not_closer ↦ rw not_closer (elim (match_loop-Found programs bound best h) [
          | inl (far, e) ↦ inl ((ground arith, far), e)
          | inr (p, n, e) ↦
              inr (p, extend q programs bound bound p (omega arith) (ground arith) n, e)
        ])
      ]

  -- What the function promises of its result.
  abbrev pub MatchSpec : List Slot → Option (ℕ × Text) → Type 0
  MatchSpec programs none = All (λ q. tolerance < delta q) programs
  MatchSpec programs (some found) =
      (p : Slot) × IsNearest (tolerance + 1) programs p × (found ≡ (p.program_id, p.name))

-- The result is `none` exactly if every row is further off than the tolerance. Otherwise it is the
-- id and the name of a row within the tolerance, nearer than all earlier rows and no further off
-- than any later one.
pub match_program_lem :
    (tolerance : ℕ) (programs : List Slot) (target : ℕ)
    → MatchSpec tolerance target programs (match_program tolerance programs target)
unfolding match_program
match_program_lem tolerance programs target =
    elim (match_loop-Found tolerance target programs (tolerance + 1) none (omega arith)) [
      | inl (far, e) ↦ rw e (weaken programs far)
      | inr (p, n, e) ↦ rw e (p, n, refl)
    ]
  where
    weaken :
        (l : List Slot)
        → All (λ q. tolerance + 1 ≤ delta tolerance target q) l
        → All (λ q. tolerance < delta tolerance target q) l
    weaken [] h = tt
    weaken (q ∷ l) h = (omega (arith, h.0), weaken l h.1)
