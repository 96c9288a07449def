-- ===== src/RecSync/Reserves.antt =====
-- `fetch_existing_reserve_program_ids` and `add_reserve` of docker/annict-rec-sync/sync.py.
pub mod Pages
use my_infra.Prelude.{
  ℕ, zero, suc, ◌+◌, Bool, true, false, ◌||◌, Option, none, some, List, [], ◌∷◌, leb, ◌==◌, nat_eq,
  contains, if◌then◌else◌,
}
use my_infra.RecSync.Text.{Text, is_empty}
use my_infra.RecSync.Http.{
  Net, Call, get_reserves, post_reserve, Reservation, ReservesPage, Outcome, returned, raised,
  out_of_fuel, Http, send,
}

-- `ids.add(p)`; the order of a set is not observed.
unfoldable pub add : ℕ → List ℕ → List ℕ
add p ids = if contains ids p then ids else p ∷ ids

-- The loop over one page.
unfoldable pub add_ids : List (Option ℕ) → List ℕ → List ℕ
unfolding add
add_ids [] ids = ids
add_ids (none ∷ reserves) ids = add_ids reserves ids
add_ids (some p ∷ reserves) ids = add_ids reserves (add p ids)

abbrev pub no_rows : List (Option ℕ) → Bool
no_rows [] = true
no_rows (r ∷ reserves) = false

module _ (net : Net) where
  -- The `while` loop, with fuel for its rounds.
  unfoldable pub reserves_loop : ℕ → ℕ → List ℕ → Http (List ℕ)
  reserves_loop zero offset program_ids log = (out_of_fuel, log)
  reserves_loop (suc fuel) offset program_ids log =
      let log' = get_reserves offset 100 ∷ log in
      elim (net.get_reserves log offset 100) [
        | none ↦ (raised, log')
        | some page ↦
            let ids = add_ids page.reserves program_ids in
            elim (leb page.total (offset + 100) || no_rows page.reserves) [
              | true ↦ (returned ids, log')
              | false ↦ reserves_loop fuel (offset + 100) ids log'
            ]
      ]

  unfoldable pub fetch_existing_reserve_program_ids : ℕ → Http (List ℕ)
  unfolding reserves_loop add_ids
  fetch_existing_reserve_program_ids fuel = reserves_loop fuel 0 []

-- The settings that the body of a reservation takes.
pub record Recording : Type 0 where
  pub allow_end_lack : Bool
  pub encode_mode : Text
  pub encode_delete_original : Bool

abbrev pub reservation : Recording → ℕ → Reservation
reservation c program_id = record {
  program_id = program_id;
  allow_end_lack = c.allow_end_lack;
  encode = if is_empty c.encode_mode then none else some (c.encode_mode, c.encode_delete_original);
}

unfoldable pub add_reserve : Recording → Net → ℕ → Http (Unit {0})
add_reserve c net program_id =
    let body = reservation c program_id in
    send (post_reserve body) (λ log. net.post_reserve log body)
