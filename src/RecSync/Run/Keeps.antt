-- ===== src/RecSync/Run/Keeps.antt =====
-- Invariants of a run of docker/annict-rec-sync/sync.py, from rules for its primitive steps.
use my_infra.Prelude.{
  ℕ, zero, suc, ◌≡◌, refl, ◌∙◌, Bool, true, false, Option, none, some, List, [], ◌∷◌, Bool-cases,
  inl, inr, Option-cases, ◌+◌,
}
use my_infra.RecSync.Text.{Text, Unicode}
use my_infra.RecSync.Channel.{sort_channels}
use my_infra.RecSync.Http.{get_services, Outcome, returned, raised, out_of_fuel, Exec, ◌>>=◌}
use my_infra.RecSync.Scraper.{request_services, is_streamable_on_subscription}
use my_infra.RecSync.Schedule.{Slot}
use my_infra.RecSync.Season.{Program, Work}
use my_infra.RecSync.Run.Candidates.{
  Settings, Stats, Class, repeat, outside, unknown_channel, candidate, Sorting, sort_in,
  sort_programs, classify, programs_of, channels_of,
}
use my_infra.RecSync.Run.Booking.{
  State, get_schedule, Verdict, no_row, other_title, confirmed, verdict, count_verdict,
  count_matches, matched_of, set_stats, reserve_one, reserve_all, no_matches, try_channels,
}
use my_infra.RecSync.Run.Main.{
  Env, channel_map, schedule_start_ms, schedule_days, no_channels, sorted_work, after_sorting,
  decide, ask_scraper, process_work, process_works,
}

-- `P` holds where the run goes on, `R` where it has been cut short by a raise.
abbrev pub Ends : {A : Type 0} → (State → Type 0) → (State → Type 0) → Outcome A × State → Type 0
Ends P R (returned a, s) = P s
Ends P R (raised, s) = R s
Ends P R (out_of_fuel, s) = R s

abbrev pub Keeps : {A : Type 0} → (State → Type 0) → (State → Type 0) → Exec State A → Type 0
Keeps P R m = (s : State) → P s → Ends P R (m s)

Ends-bind :
    {A B : Type 0} (P R : State → Type 0) (r : Outcome A × State) (f : A → Exec State B)
    → Ends P R r
    → ((a : A) → Keeps P R (f a))
    → Ends P R (◌>>=◌ (λ _. r) f r.1)
Ends-bind P R (returned a, s) f h k = k a s h
Ends-bind P R (raised, s) f h k = h
Ends-bind P R (out_of_fuel, s) f h k = h

pub Keeps-bind :
    {A B : Type 0} (P R : State → Type 0) (m : Exec State A) (f : A → Exec State B)
    → Keeps P R m
    → ((a : A) → Keeps P R (f a))
    → Keeps P R (m >>= f)
Keeps-bind P R m f h k s p = Ends-bind P R (m s) f (h s p) k

reserved-count_verdict : (v : Verdict) (st : Stats) → (count_verdict v st).reserved ≡ st.reserved
reserved-count_verdict no_row st = refl
reserved-count_verdict other_title st = refl
reserved-count_verdict (confirmed p) st = refl

reserved-count_matches :
    (c : Settings) (u : Unicode) (title : Text) (schedule : List Slot) (progs : List Program)
    (st : Stats)
    → (count_matches c u title schedule progs st).reserved ≡ st.reserved
unfolding count_matches
reserved-count_matches c u title schedule [] st = refl
reserved-count_matches c u title schedule (prog ∷ progs) st =
    let v = verdict c u title schedule prog in
    reserved-count_matches c u title schedule progs (count_verdict v st)
    ∙ reserved-count_verdict v st

reserved-sort_in :
    (k : Class) (prog : Program) (s : Sorting)
    → (sort_in k prog s).stats.reserved ≡ s.stats.reserved
unfolding sort_in
reserved-sort_in repeat prog s = refl
reserved-sort_in outside prog s = refl
reserved-sort_in unknown_channel prog s = refl
reserved-sort_in (candidate ch) prog s = refl

reserved-sort_programs :
    (c : Settings) (u : Unicode) (m : List (Text × ℕ)) (now : ℕ) (progs : List Program)
    (s : Sorting)
    → (sort_programs c u m now progs s).stats.reserved ≡ s.stats.reserved
unfolding sort_programs
reserved-sort_programs c u m now [] s = refl
reserved-sort_programs c u m now (prog ∷ progs) s =
    let k = classify c u m now prog in
    reserved-sort_programs c u m now progs (sort_in k prog s) ∙ reserved-sort_in k prog s

-- What the steps of a run have to keep.
pub record Rules (e : Env) (P R : State → Type 0) : Type 0 where
  -- The counters but `reserved`, and the names without a channel, may change.
  pub counters :
      (s : State) (st : Stats) (names : List Text)
      → st.reserved ≡ s.stats.reserved
      → P s
      → P (record s { stats = st; unmapped_channels = names })
  -- The scraper may be asked.
  pub scraper : (s : State) (id : ℕ) → P s → P (record s { log = get_services id ∷ s.log })
  pub guide : (ch : ℕ) → Keeps P R (get_schedule e.net (schedule_start_ms e) (schedule_days e) ch)
  pub reserve : (p : ℕ) → Keeps P R (reserve_one e.settings e.net p)

module _ (e : Env) (P R : State → Type 0) (rules : Rules e P R) where
  reserve_all-Keeps :
      (matched : List (Program × ℕ)) → Keeps P R (reserve_all e.settings e.net matched)
  unfolding reserve_all
  reserve_all-Keeps [] s h = h
  reserve_all-Keeps ((prog, p) ∷ matched) s h =
      Keeps-bind P R (reserve_one e.settings e.net p) (λ _. reserve_all e.settings e.net matched)
        (rules.reserve p) (λ _. reserve_all-Keeps matched) s h

  module _ (title : Text) (by_channel : List (ℕ × List Program)) where
    abbrev next : ℕ → List ℕ → List Slot → Exec State (Unit {0})
    next ch channels schedule s =
        let c = e.settings in
        let progs = programs_of ch by_channel in
        let matched = matched_of c e.unicode title schedule progs in
        let s' = set_stats (count_matches c e.unicode title schedule progs) s in
        elim (no_matches matched) [
          | true ↦
              try_channels c e.unicode e.net (schedule_start_ms e) (schedule_days e) title
                by_channel channels s'
          | false ↦ reserve_all c e.net matched s'
        ]

    next-Keeps :
        (ch : ℕ) (channels : List ℕ) (schedule : List Slot)
        → Keeps P R (
            try_channels e.settings e.unicode e.net
              (schedule_start_ms e)
              (schedule_days e)
              title
              by_channel
              channels)
        → Keeps P R (next ch channels schedule)
    next-Keeps ch channels schedule rest s h =
        let c = e.settings in
        let progs = programs_of ch by_channel in
        let matched = matched_of c e.unicode title schedule progs in
        let s' = set_stats (count_matches c e.unicode title schedule progs) s in
        let counted : P s' =
          rules.counters s (count_matches c e.unicode title schedule progs s.stats)
            s.unmapped_channels (reserved-count_matches c e.unicode title schedule progs s.stats)
            h in
        elim (Bool-cases (no_matches matched)) [
          | inl none_found ↦ rw (none_found, next) (rest s' counted)
          | inr found ↦ rw (found, next) (reserve_all-Keeps matched s' counted)
        ]

    try_channels-Keeps :
        (channels : List ℕ)
        → Keeps P R (
            try_channels e.settings e.unicode e.net
              (schedule_start_ms e)
              (schedule_days e)
              title
              by_channel
              channels)
    unfolding try_channels
    try_channels-Keeps [] s h = h
    try_channels-Keeps (ch ∷ channels) s h =
        Keeps-bind P R (get_schedule e.net (schedule_start_ms e) (schedule_days e) ch)
          (next ch channels) (rules.guide ch)
          (λ schedule. next-Keeps ch channels schedule (try_channels-Keeps channels)) s h

  request_services-Keeps :
      (id n : ℕ) (s : State) → P s → P (record s { log = (request_services e.net id n s.log).1 })
  unfolding request_services
  request_services-Keeps id zero s h = h
  request_services-Keeps id (suc zero) s h = elim (Option-cases (e.net.get_services s.log id)) [
    | inl failed ↦ rw (failed, request_services) (rules.scraper s id h)
    | inr (services, answered) ↦ rw (answered, request_services) (rules.scraper s id h)
  ]
  request_services-Keeps id (suc (suc n)) s h = elim (Option-cases (e.net.get_services s.log id)) [
    | inl failed ↦
        rw (failed, request_services)
          (request_services-Keeps id (suc n) (record s { log = get_services id ∷ s.log })
            (rules.scraper s id h))
    | inr (services, answered) ↦ rw (answered, request_services) (rules.scraper s id h)
  ]

  decide-Keeps :
      (w : Work) (by_channel : List (ℕ × List Program)) (streamable : Option Bool)
      → Keeps P R (decide e w by_channel streamable)
  unfolding decide
  decide-Keeps w by_channel none s h =
      rules.counters s (record s.stats { scraper_skip = s.stats.scraper_skip + 1 })
        s.unmapped_channels refl h
  decide-Keeps w by_channel (some true) s h =
      rules.counters s (record s.stats { excluded_streaming = s.stats.excluded_streaming + 1 })
        s.unmapped_channels refl h
  decide-Keeps w by_channel (some false) s h =
      try_channels-Keeps w.title by_channel (sort_channels (channels_of by_channel)) s h

  pub after_sorting-keeps : (w : Work) (s : State) → P s → P (after_sorting (sorted_work e w s) s)
  unfolding sorted_work
  after_sorting-keeps w s h =
      let so = sorted_work e w s in
      rules.counters s so.stats so.unmapped_channels
        (reserved-sort_programs e.settings e.unicode (channel_map e) e.now w.programs _) h

  process_work-Keeps : (w : Work) → Keeps P R (process_work e w)
  unfolding process_work is_streamable_on_subscription
  process_work-Keeps w s h =
      let so = sorted_work e w s in
      let s' = after_sorting so s in
      let sorted : P s' = after_sorting-keeps w s h in
      elim (Bool-cases (no_channels so.by_channel)) [
        | inl idle ↦ rw (idle, process_work) sorted
        | inr busy ↦
            rw (busy, process_work)
              (decide-Keeps w so.by_channel (ask_scraper e w s').0 (ask_scraper e w s').1
                (request_services-Keeps w.annict_id e.settings.scraper_retries s' sorted))
      ]

  pub process_works-Keeps : (works : List Work) → Keeps P R (process_works e works)
  unfolding process_works
  process_works-Keeps [] s h = h
  process_works-Keeps (w ∷ works) s h =
      Keeps-bind P R (process_work e w) (λ _. process_works e works) (process_work-Keeps w)
        (λ _. process_works-Keeps works) s h
