-- ===== src/RecSync/Run/Totals.antt =====
-- What a run of docker/annict-rec-sync/sync.py counts as reserved, and how often it reads a guide.
use my_infra.Prelude.{
  ℕ, ◌+◌, ◌≤◌, ◌≡◌, ◌≢◌, refl, ap, true, false, none, List, [], ◌∷◌, arith, nat_eq, contains,
  IsNodup, All, length,
}
use my_infra.RecSync.Http.{
  Call, post_reserve, search_works, get_services, get_reserves, get_schedule, Outcome, returned,
  raised, out_of_fuel,
}
use my_infra.RecSync.Schedule.{Slot}
use my_infra.RecSync.Season.{Work}
use my_infra.RecSync.Run.Booking.{State, cached}
use my_infra.RecSync.Run.Main.{Env, schedule_start_ms, schedule_days, process_works}
use my_infra.RecSync.Run.Keeps.{Ends, Rules, process_works-Keeps}
use my_infra.RecSync.Run.Steps.{reserve_one-Ends, get_schedule-Ends}
use my_infra.RecSync.Run.Posts.{posts}

-- What has been counted as reserved since `s` against what has been posted since.
abbrev pub Equal : State → State → Type 0
Equal s t = t.stats.reserved + length (posts s.log) ≡ s.stats.reserved + length (posts t.log)

pub record AtMostOneMore (s t : State) : Type 0 where
  pub least : t.stats.reserved + length (posts s.log) ≤ s.stats.reserved + length (posts t.log)
  pub most : s.stats.reserved + length (posts t.log) ≤ t.stats.reserved + length (posts s.log) + 1

module _ (e : Env) (works : List Work) (s : State) (wet : e.settings.dry_run ≡ false) where
  dry_absurd : e.settings.dry_run ≡ true → ⊥
  dry_absurd d = cc

  Equal-rules : Rules e (Equal s) (AtMostOneMore s)
  Equal-rules = record {
    counters = λ t st names same h. omega (arith, h, same);
    scraper = λ t id h. h;
    guide = λ ch t h.
        get_schedule-Ends (Equal s) (AtMostOneMore s) e.net (schedule_start_ms e) (schedule_days e)
          ch t h (λ _. record { least = omega (arith, h); most = omega (arith, h) }) (λ _ _. h);
    reserve = λ p t h.
        reserve_one-Ends (Equal s) (AtMostOneMore s) e.settings e.net p t (λ _. h)
          (λ _ d. absurd (dry_absurd d))
          (λ _ _. record { least = omega (arith, h); most = omega (arith, h) })
          (λ _ _. omega (arith, h));
  }

  split :
      (r : Outcome (Unit {0}) × State)
      → Ends (Equal s) (AtMostOneMore s) r
      → AtMostOneMore s r.1 × (r.0 ≡ returned tt → Equal s r.1)
  split (returned a, t) h = (record { least = omega (arith, h); most = omega (arith, h) }, λ _. h)
  split (raised, t) h = (h, λ r. cc)
  split (out_of_fuel, t) h = (h, λ r. cc)

  -- Outside a dry run the counter of reservations grows by the number of requests posted, except that
  -- the last request of a run that is cut short may not have been counted.
  pub process_works_reserved :
      AtMostOneMore s (process_works e works s).1
      × ((process_works e works s).0 ≡ returned tt → Equal s (process_works e works s).1)
  process_works_reserved =
      split (process_works e works s)
        (process_works-Keeps e (Equal s) (AtMostOneMore s) Equal-rules works s refl)

-- The channels whose guide was asked for, the newest first.
abbrev pub guides : List Call → List ℕ
guides [] = []
guides (get_schedule ch start days ∷ log) = ch ∷ guides log
guides (search_works season after ∷ log) = guides log
guides (get_services id ∷ log) = guides log
guides (get_reserves offset limit ∷ log) = guides log
guides (post_reserve b ∷ log) = guides log

abbrev pub GuidesOnce : State → Type 0
GuidesOnce s = IsNodup (guides s.log)

-- Each guide asked for is kept.
record AllKept (s : State) : Type 0 where
  once : GuidesOnce s
  kept : All (λ ch. cached ch s.schedule_cache ≢ none) (guides s.log)

not_asked :
    (ch : ℕ) (cache : List (ℕ × List Slot)) (chs : List ℕ)
    → All (λ c. cached c cache ≢ none) chs
    → cached ch cache ≡ none
    → contains chs ch ≡ false
not_asked ch cache [] h new = refl
not_asked ch cache (c ∷ chs) h new =
    ground (arith, not_asked ch cache chs h.1 new, h.0, ap (λ k. cached k cache) {x = c} {y = ch})

kept-cons :
    (ch : ℕ) (schedule : List Slot) (cache : List (ℕ × List Slot)) (chs : List ℕ)
    → All (λ c. cached c cache ≢ none) chs
    → All (λ c. cached c ((ch, schedule) ∷ cache) ≢ none) chs
unfolding cached
kept-cons ch schedule cache [] h = tt
kept-cons ch schedule cache (c ∷ chs) h =
    (λ e. h.0 (ground arith), kept-cons ch schedule cache chs h.1)

cached-head :
    (ch : ℕ) (schedule : List Slot) (cache : List (ℕ × List Slot))
    → cached ch ((ch, schedule) ∷ cache) ≢ none
unfolding cached
cached-head ch schedule cache e = ground arith

AllKept-rules : (e : Env) → Rules e AllKept GuidesOnce
AllKept-rules e = record {
  counters = λ t st names same h. record { once = h.once; kept = h.kept };
  scraper = λ t id h. record { once = h.once; kept = h.kept };
  guide = λ ch t h.
      get_schedule-Ends AllKept GuidesOnce e.net (schedule_start_ms e) (schedule_days e) ch t h
        (λ new. (not_asked ch t.schedule_cache (guides t.log) h.kept new, h.once))
        (λ new schedule. record {
          once = (not_asked ch t.schedule_cache (guides t.log) h.kept new, h.once);
          kept = (
            cached-head ch schedule t.schedule_cache,
            kept-cons ch schedule t.schedule_cache (guides t.log) h.kept,
          );
        });
  reserve = λ p t h.
      reserve_one-Ends AllKept GuidesOnce e.settings e.net p t
        (λ _. record { once = h.once; kept = h.kept })
        (λ _ _. record { once = h.once; kept = h.kept }) (λ _ _. h.once)
        (λ _ _. record { once = h.once; kept = h.kept });
}

Ends-GuidesOnce : (r : Outcome (Unit {0}) × State) → Ends AllKept GuidesOnce r → GuidesOnce r.1
Ends-GuidesOnce (returned a, s) h = h.once
Ends-GuidesOnce (raised, s) h = h
Ends-GuidesOnce (out_of_fuel, s) h = h

-- From a state in which no guide has been asked for, the guide of each channel is asked for at most
-- once, however the servers answer and however the run ends.
pub process_works-GuidesOnce :
    (e : Env) (works : List Work) (s : State)
    → guides s.log ≡ []
    → GuidesOnce (process_works e works s).1
process_works-GuidesOnce e works s none_asked = Ends-GuidesOnce (process_works e works s) (
    process_works-Keeps e AllKept GuidesOnce (AllKept-rules e) works s
      (record { once = rw none_asked tt; kept = rw none_asked tt }))
