-- ===== src/RecSync/Run/Steps.antt =====
-- The branches of the two steps of a run of docker/annict-rec-sync/sync.py that send requests of
-- their own: reading a guide, and one reservation.
use my_infra.Prelude.{
  ℕ, ◌+◌, ◌≡◌, true, false, none, List, ◌∷◌, nat_eq, contains, Bool-cases, Option-cases, inl, inr,
}
use my_infra.RecSync.Http.{Net, Call, post_reserve, Outcome, returned, raised}
use my_infra.RecSync.Http
use my_infra.RecSync.Schedule.{Slot, read_guide, fetch_channel_schedule}
use my_infra.RecSync.Reserves.{add, add_reserve, reservation}
use my_infra.RecSync.Run.Candidates.{Settings}
use my_infra.RecSync.Run.Booking.{State, cached, get_schedule, reserve_one, set_stats}
use my_infra.RecSync.Run.Keeps.{Ends}

-- One more known reservation.
abbrev pub noted : ℕ → State → State
noted p s = record s {
  existing = add p s.existing;
  stats = record s.stats { reserved = s.stats.reserved + 1 };
}

abbrev pub posted : Settings → ℕ → State → State
posted c p s = record s { log = post_reserve (reservation c.recording p) ∷ s.log }

abbrev pub counted_already : State → State
counted_already s = set_stats (λ st. record st { already = st.already + 1 }) s

module _ (P R : State → Type 0) (c : Settings) (net : Net) (p : ℕ) (s : State) where
  pub reserve_one-Ends :
      (contains s.existing p ≡ true → P (counted_already s))
      → (contains s.existing p ≡ false → c.dry_run ≡ true → P (noted p s))
      → (contains s.existing p ≡ false → c.dry_run ≡ false → R (posted c p s))
      → (contains s.existing p ≡ false → c.dry_run ≡ false → P (noted p (posted c p s)))
      → Ends P R (reserve_one c net p s)
  unfolding reserve_one add_reserve
  reserve_one-Ends old dry failed new = elim (Bool-cases (contains s.existing p)) [
    | inl e ↦ rw (e, reserve_one) (old e)
    | inr e ↦ elim (Bool-cases (c.dry_run)) [
      | inl d ↦ rw (e, reserve_one) (rw d (dry e d))
      | inr d ↦ elim (Option-cases (net.post_reserve s.log (reservation c.recording p))) [
        | inl a ↦ rw (e, reserve_one) (rw d (rw a (failed e d)))
        | inr (_, a) ↦ rw (e, reserve_one) (rw d (rw a (new e d)))
      ]
    ]
  ]

abbrev pub guide_asked : ℕ → ℕ → ℕ → State → State
guide_asked start days ch s = record s { log = Http.get_schedule ch start days ∷ s.log }

abbrev pub guide_kept : ℕ → ℕ → ℕ → List Slot → State → State
guide_kept start days ch schedule s = record (guide_asked start days ch s) {
  schedule_cache = (ch, schedule) ∷ s.schedule_cache;
}

module _ (P R : State → Type 0) (net : Net) (start days ch : ℕ) (s : State) where
  pub get_schedule-Ends :
      (P s)
      → (cached ch s.schedule_cache ≡ none → R (guide_asked start days ch s))
      → (cached ch s.schedule_cache ≡ none
          → (schedule : List Slot) → P (guide_kept start days ch schedule s))
      → Ends P R (get_schedule net start days ch s)
  unfolding get_schedule fetch_channel_schedule
  get_schedule-Ends kept failed fetched = elim (Option-cases (cached ch s.schedule_cache)) [
    | inr (schedule, e) ↦ rw (e, get_schedule) kept
    | inl e ↦ elim (Option-cases (net.get_schedule s.log ch start days)) [
      | inl a ↦ rw (e, get_schedule) (rw a (failed e))
      | inr (guide, a) ↦ rw (e, get_schedule) (rw a (fetched e (read_guide guide)))
    ]
  ]
