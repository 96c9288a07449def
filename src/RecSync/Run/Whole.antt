-- ===== src/RecSync/Run/Whole.antt =====
-- A whole run of docker/annict-rec-sync/sync.py, from the empty state.
use my_infra.Prelude.{
  ℕ, zero, suc, ◌≡◌, ◌⊎◌, refl, ap, ◌∙◌, true, false, ◌||◌, Option, none, List, [], ◌∷◌, ◌++◌,
  Bool-cases, Option-cases, inl, inr, leb, ◌+◌, nat_eq, length,
}
use my_infra.RecSync.Text.{Text, is_empty}
use my_infra.RecSync.Http
use my_infra.RecSync.Http.{Net, Call, Outcome, returned, raised, out_of_fuel, ◌>>=◌}
use my_infra.RecSync.Reserves.{add_ids, no_rows, reserves_loop, fetch_existing_reserve_program_ids}
use my_infra.RecSync.Season.{Times, Work, read_works, works_loop, fetch_season_works}
use my_infra.RecSync.Run.Booking.{State}
use my_infra.RecSync.Run.Main.{Env, start, process_works, main}
use my_infra.RecSync.Run.Posts.{posts, NoDouble, process_works-NoDouble}

posts-works_loop :
    (times : Times) (net : Net) (season : Text) (fuel : ℕ) (after : Option Text) (works : List Work)
    (log : List Call)
    → posts (works_loop times net season fuel after works log).1 ≡ posts log
unfolding works_loop
posts-works_loop times net season zero after works log = refl
posts-works_loop times net season (suc fuel) after works log =
    elim (Option-cases (net.search_works log season after)) [
      | inl a ↦ rw (a, works_loop)
      | inr (page, a) ↦ elim (Bool-cases (page.errors)) [
        | inl b ↦ rw (a, works_loop) (rw b)
        | inr b ↦ elim (Option-cases (read_works times page.nodes)) [
          | inl c ↦ rw (a, works_loop) (rw b (rw c))
          | inr (read, c) ↦ elim (Bool-cases (page.has_next_page)) [
            | inl d ↦
                rw (a, works_loop)
                  (rw b (
                    rw c (
                      rw d (
                        posts-works_loop times net season fuel page.end_cursor (works ++ read)
                          (Http.search_works season after ∷ log)))))
            | inr d ↦ rw (a, works_loop) (rw b (rw c (rw d)))
          ]
        ]
      ]
    ]

posts-reserves_loop :
    (net : Net) (fuel offset : ℕ) (ids : List ℕ) (log : List Call)
    → posts (reserves_loop net fuel offset ids log).1 ≡ posts log
unfolding reserves_loop
posts-reserves_loop net zero offset ids log = refl
posts-reserves_loop net (suc fuel) offset ids log =
    elim (Option-cases (net.get_reserves log offset 100)) [
      | inl a ↦ rw (a, reserves_loop)
      | inr (page, a) ↦ elim (Bool-cases (leb page.total (offset + 100) || no_rows page.reserves)) [
        | inl b ↦ rw (a, reserves_loop) (rw b)
        | inr b ↦
            rw (a, reserves_loop)
              (rw b (
                posts-reserves_loop net fuel (offset + 100) (add_ids page.reserves ids)
                  (Http.get_reserves offset 100 ∷ log)))
      ]
    ]

-- A run has posted no programme twice, and none that the reservations it read at the start name,
-- whatever the servers answer and however the run ends. If they could not be read, it has posted
-- nothing.
pub record SafeRun (e : Env) (season : Text) (fuel : ℕ) : Type 0 where
  pub known : List ℕ
  pub safe : NoDouble known (main e season fuel start).1
  pub read_first :
      (posts (main e season fuel start).1.log ≡ [])
      ⊎ ((log : List Call) × ((fetch_existing_reserve_program_ids e.net fuel log).0
            ≡ returned known))

Outcome-cases :
    {A : Type 0} (o : Outcome A) → ((a : A) × (o ≡ returned a)) ⊎ ((o ≡ raised) ⊎ (o ≡ out_of_fuel))
Outcome-cases (returned a) = inl (a, refl)
Outcome-cases raised = inr (inl refl)
Outcome-cases out_of_fuel = inr (inr refl)

nothing_posted : {s : State} → posts s.log ≡ [] → NoDouble [] s
nothing_posted h = record { once = rw h tt; fresh = rw h tt }

finish :
    (r : Outcome (Unit {0}) × State)
    → (◌>>=◌ {B = ℕ} (λ (_ : State). r) (λ _ s. (returned 0, s)) start).1 ≡ r.1
finish (returned a, s) = refl
finish (raised, s) = refl
finish (out_of_fuel, s) = refl

module _ (e : Env) (season : Text) (fuel : ℕ) where
  abbrev works_log : List Call
  works_log = (fetch_season_works e.times e.net season fuel []).1

  abbrev ids_log : List Call
  ids_log = (fetch_existing_reserve_program_ids e.net fuel works_log).1

  posts-works_log : posts works_log ≡ []
  unfolding fetch_season_works
  posts-works_log = posts-works_loop e.times e.net season fuel none [] []

  posts-ids_log : posts ids_log ≡ []
  unfolding fetch_existing_reserve_program_ids
  posts-ids_log = posts-reserves_loop e.net fuel 0 [] works_log ∙ posts-works_log

  abbrev after : State
  after = (main e season fuel start).1

  cut_short : posts after.log ≡ [] → SafeRun e season fuel
  cut_short h = record { known = []; safe = nothing_posted h; read_first = inl h }

  log_without_token : is_empty e.settings.token ≡ true → after.log ≡ []
  unfolding main
  log_without_token a = rw (a, after, main)

  module _ (a : is_empty e.settings.token ≡ false) where
    log_without_works :
        ((fetch_season_works e.times e.net season fuel []).0 ≡ raised)
          ⊎ ((fetch_season_works e.times e.net season fuel []).0 ≡ out_of_fuel)
        → after.log ≡ works_log
    unfolding main
    log_without_works (inl b) = rw (a, after, main) (rw (b, Http.continue))
    log_without_works (inr b) = rw (a, after, main) (rw (b, Http.continue))

    module _ (works : List Work)
        (b : (fetch_season_works e.times e.net season fuel []).0 ≡ returned works) where
      log_without_ids :
          ((fetch_existing_reserve_program_ids e.net fuel works_log).0 ≡ raised)
            ⊎ ((fetch_existing_reserve_program_ids e.net fuel works_log).0 ≡ out_of_fuel)
          → after.log ≡ ids_log
      unfolding main
      log_without_ids (inl c) = rw (a, after, main) (rw (b, Http.continue) (rw (c, Http.continue)))
      log_without_ids (inr c) = rw (a, after, main) (rw (b, Http.continue) (rw (c, Http.continue)))

      module _ (ids : List ℕ)
          (c : (fetch_existing_reserve_program_ids e.net fuel works_log).0 ≡ returned ids) where
        abbrev loop_start : State
        loop_start = record start {
          log = ids_log;
          existing = ids;
          stats = record start.stats { works = length works };
        }

        after_loop : after ≡ (process_works e works loop_start).1
        unfolding main
        after_loop =
            rw (a, after, main)
              (rw (b, Http.continue)
                (rw (c, Http.continue) (finish (process_works e works loop_start))))

        whole : SafeRun e season fuel
        whole = record {
          known = ids;
          safe = rw after_loop (process_works-NoDouble e works loop_start posts-ids_log);
          read_first = inr (works_log, c);
        }

-- A run from the empty state has posted no programme twice, and none that the reservations it read at
-- its start name, whatever the servers answer and however it ends; if it could not read them, it has
-- posted nothing.
pub main-SafeRun : (e : Env) (season : Text) (fuel : ℕ) → SafeRun e season fuel
main-SafeRun e season fuel = elim (Bool-cases (is_empty e.settings.token)) [
  | inl a ↦ cut_short e season fuel (ap posts (log_without_token e season fuel a))
  | inr a ↦ elim (Outcome-cases (fetch_season_works e.times e.net season fuel []).0) [
    | inr b ↦
        cut_short e season fuel
          (ap posts (log_without_works e season fuel a b) ∙ posts-works_log e season fuel)
    | inl (works, b) ↦
        elim (Outcome-cases
          (fetch_existing_reserve_program_ids e.net fuel (works_log e season fuel)).0) [
            | inr c ↦
                cut_short e season fuel (
                  ap posts (log_without_ids e season fuel a works b c)
                  ∙ posts-ids_log e season fuel)
            | inl (ids, c) ↦ whole e season fuel a works b ids c
          ]
  ]
]
