-- ===== src/RecSync/Reserves/Pages.antt =====
-- The paging of `fetch_existing_reserve_program_ids`: it ends, and it misses no reservation.
use my_infra.Prelude.{
  ℕ, zero, suc, ◌+◌, ◌*◌, ◌≤◌, ◌<◌, ◌≡◌, ◌≢◌, refl, ap, sym, ◌∙◌, Bool, true, false, ◌||◌, Option,
  none, some, List, [], ◌∷◌, ◌++◌, arith, leb, nat_eq, contains, length, take, drop,
  take-append-drop, Option-cases, Bool-cases, inl, inr,
}
use my_infra.RecSync.Http.{Net, Call, get_reserves, ReservesPage, returned, out_of_fuel}
use my_infra.RecSync.Reserves.{add_ids, no_rows, reserves_loop, fetch_existing_reserve_program_ids}

-- The ids that reservations name.
abbrev pub program_ids : List (Option ℕ) → List ℕ
program_ids [] = []
program_ids (none ∷ reserves) = program_ids reserves
program_ids (some p ∷ reserves) = p ∷ program_ids reserves

contains-add_ids :
    (reserves : List (Option ℕ)) (ids : List ℕ) (p : ℕ)
    → contains (add_ids reserves ids) p ≡ (contains ids p || contains (program_ids reserves) p)
unfolding add_ids
contains-add_ids [] ids p = ground arith
contains-add_ids (none ∷ reserves) ids p = contains-add_ids reserves ids p
contains-add_ids (some q ∷ reserves) ids p =
    ground (arith, contains-add_ids reserves ids p, contains-add_ids reserves (q ∷ ids) p)

contains-program_ids-append :
    (xs ys : List (Option ℕ)) (p : ℕ)
    → contains (program_ids (xs ++ ys)) p
      ≡ (contains (program_ids xs) p || contains (program_ids ys) p)
contains-program_ids-append [] ys p = refl
contains-program_ids-append (none ∷ xs) ys p = contains-program_ids-append xs ys p
contains-program_ids-append (some q ∷ xs) ys p = ground (arith, contains-program_ids-append xs ys p)

drop-nil {ℓ} : {A : Type ℓ} (n : ℕ) → drop {A = A} n [] ≡ []
drop-nil zero = refl
drop-nil (suc n) = refl

drop-drop {ℓ} : {A : Type ℓ} (n m : ℕ) (xs : List A) → drop (n + m) xs ≡ drop m (drop n xs)
drop-drop zero m xs = let e : zero + m ≡ m = omega arith in rw e
drop-drop (suc n) m [] = let e : suc n + m ≡ suc (n + m) = omega arith in rw e (sym (drop-nil m))
drop-drop (suc n) m (x ∷ xs) =
    let e : suc n + m ≡ suc (n + m) = omega arith in rw e (drop-drop n m xs)

module _ (net : Net) where
  -- No page names more than `n` reservations in all.
  abbrev pub TotalBelow : ℕ → Type 0
  TotalBelow n =
      (log : List Call) (offset : ℕ) (page : ReservesPage)
      → net.get_reserves log offset 100 ≡ some page
      → page.total ≤ n

  -- The server serves the list `rows`, which does not change while it is read.
  abbrev pub ServesReserves : List (Option ℕ) → Type 0
  ServesReserves rows =
      (log : List Call) (offset : ℕ)
      → net.get_reserves log offset 100
        ≡ some (record { reserves = take 100 (drop offset rows); total = length rows })

  reserves_loop_ends :
      (fuel n offset : ℕ) (ids : List ℕ) (log : List Call)
      → TotalBelow n
      → 0 < fuel
      → n ≤ offset + fuel * 100
      → (reserves_loop net fuel offset ids log).0 ≢ out_of_fuel
  unfolding reserves_loop
  reserves_loop_ends zero n offset ids log total pos h = absurd (omega arith)
  reserves_loop_ends (suc fuel) n offset ids log total pos h =
      elim (Option-cases (net.get_reserves log offset 100)) [
        | inl e ↦ rw (e, reserves_loop) (λ r. cc)
        | inr (page, e) ↦
            rw (e, reserves_loop)
              (elim (Bool-cases (leb page.total (offset + 100) || no_rows page.reserves)) [
                | inl stop ↦ rw stop (λ r. cc)
                | inr more ↦ rw more (
                    reserves_loop_ends fuel n (offset + 100) (add_ids page.reserves ids)
                      (get_reserves offset 100 ∷ log) total
                      (ground (arith, more, total log offset page e)) (omega arith))
              ])
      ]

-- If the server never names more than `100 * fuel` reservations in all, the loop ends within `fuel`
-- rounds.
pub fetch_existing_ends :
    (net : Net) (fuel n : ℕ) (log : List Call)
    → TotalBelow net n
    → 0 < fuel
    → n ≤ fuel * 100
    → (fetch_existing_reserve_program_ids net fuel log).0 ≢ out_of_fuel
unfolding fetch_existing_reserve_program_ids
fetch_existing_ends net fuel n log total pos h =
    reserves_loop_ends net fuel n 0 [] log total pos (omega arith)

-- An empty page stands at the end of the list.
rows_end : (n : ℕ) (rows : List (Option ℕ)) → no_rows (take (suc n) rows) ≡ true → rows ≡ []
rows_end n [] h = refl
rows_end n (r ∷ rows) h = ground arith

drop_all {ℓ} : {A : Type ℓ} (n : ℕ) (xs : List A) → length xs ≤ n → drop n xs ≡ []
drop_all n [] h = drop-nil n
drop_all zero (x ∷ xs) h = absurd (omega arith)
drop_all (suc n) (x ∷ xs) h = drop_all n xs (omega arith)

or_assoc : (a b c : Bool) → ((a || b) || c) ≡ (a || (b || c))
or_assoc a b c = ground arith

or_false : (a : Bool) → (a || false) ≡ a
or_false a = ground arith

module _ (net : Net) (rows : List (Option ℕ)) (serves : ServesReserves net rows) where
  -- The loop returns, and its set has the ids it began with and those of the rows still to come.
  abbrev Collects : ℕ → ℕ → List ℕ → List Call → Type 0
  Collects fuel offset ids log =
      (out : List ℕ) × ((reserves_loop net fuel offset ids log).0 ≡ returned out)
      × ((p : ℕ) → contains out p ≡ (contains ids p || contains (program_ids (drop offset rows)) p))

  -- The last page of the list.
  nothing_left :
      (offset : ℕ)
      → (leb (length rows) (offset + 100) || no_rows (take 100 (drop offset rows))) ≡ true
      → drop (offset + 100) rows ≡ []
  nothing_left offset stop = elim (Bool-cases (leb (length rows) (offset + 100))) [
    | inl last ↦ drop_all (offset + 100) rows (ground (arith, last))
    | inr more ↦
        drop-drop offset 100 rows
        ∙ ap (drop 100) (rows_end 99 (drop offset rows) (ground (arith, more, stop)))
        ∙ drop-nil 100
  ]

  -- The ids of a page and those behind it.
  page_ids :
      (offset : ℕ) (p : ℕ)
      → contains (program_ids (drop offset rows)) p ≡ (
          contains (program_ids (take 100 (drop offset rows))) p
          || contains (program_ids (drop (offset + 100) rows)) p)
  page_ids offset p =
      ap (λ l. contains (program_ids l) p) (sym (take-append-drop 100 (drop offset rows)))
      ∙ contains-program_ids-append (take 100 (drop offset rows)) (drop 100 (drop offset rows)) p
      ∙ ap
          (λ l.
            contains (program_ids (take 100 (drop offset rows))) p || contains (program_ids l) p)
          (sym (drop-drop offset 100 rows))

  last_page_ids :
      (offset : ℕ) (p : ℕ)
      → drop (offset + 100) rows ≡ []
      → contains (program_ids (drop offset rows)) p
        ≡ contains (program_ids (take 100 (drop offset rows))) p
  last_page_ids offset p e =
      page_ids offset p
      ∙ ap
          (λ l.
            contains (program_ids (take 100 (drop offset rows))) p || contains (program_ids l) p)
          e
      ∙ or_false (contains (program_ids (take 100 (drop offset rows))) p)

  abbrev rest_ids : ℕ → ℕ → Bool
  rest_ids offset p = contains (program_ids (drop (offset + 100) rows)) p

  reserves_loop-Collects :
      (fuel offset : ℕ) (ids : List ℕ) (log : List Call)
      → 0 < fuel
      → length rows ≤ offset + fuel * 100
      → Collects fuel offset ids log
  unfolding reserves_loop
  reserves_loop-Collects zero offset ids log pos h = absurd (omega arith)
  reserves_loop-Collects (suc fuel) offset ids log pos h =
      let page = take 100 (drop offset rows) in
      let ids' = add_ids page ids in
      elim (Bool-cases
        (leb (length rows) (offset + 100) || no_rows (take 100 (drop offset rows)))) [
          | inl stop ↦ (
            ids',
            rw (serves log offset, reserves_loop) (rw stop),
            λ p.
                contains-add_ids page ids p
                ∙ ap (λ b. contains ids p || b)
                    (sym (last_page_ids offset p (nothing_left offset stop))),
          )
          | inr more ↦
              let (out, e, same) =
                reserves_loop-Collects fuel (offset + 100) ids' (get_reserves offset 100 ∷ log)
                  (ground (arith, more)) (omega arith) in
              (
                out,
                rw (serves log offset, reserves_loop) (rw more e),
                λ p.
                    same p
                    ∙ ap (λ b. b || rest_ids offset p) (contains-add_ids page ids p)
                    ∙ or_assoc (contains ids p) (contains (program_ids page) p) (rest_ids offset p)
                    ∙ ap (λ b. contains ids p || b) (sym (page_ids offset p)),
              )
        ]

-- From a server whose list of reservations does not change meanwhile, enough rounds return the set
-- of exactly the ids that the reservations of the whole list name.
pub fetch_existing_collects :
    (net : Net) (rows : List (Option ℕ)) (fuel : ℕ) (log : List Call)
    → ServesReserves net rows
    → 0 < fuel
    → length rows ≤ fuel * 100
    → (ids : List ℕ) × ((fetch_existing_reserve_program_ids net fuel log).0 ≡ returned ids)
      × ((p : ℕ) → contains ids p ≡ contains (program_ids rows) p)
unfolding fetch_existing_reserve_program_ids
fetch_existing_collects net rows fuel log serves pos h =
    reserves_loop-Collects net rows serves fuel 0 [] log pos (omega arith)
