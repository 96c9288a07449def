-- ===== src/RecSync/Run/Choice.antt =====
-- Which broadcasts of a work docker/annict-rec-sync/sync.py reserves: those of one channel, the first
-- in the order of preference that has a confirmed match.
pub mod Channels
pub mod Decision
use my_infra.Prelude.{
  ℕ, ◌≡◌, ◌≢◌, refl, ap, sym, ◌∙◌, ◌⊎◌, inl, inr, Bool, true, false, Option, none, some, List, [],
  ◌∷◌, ◌++◌, arith, ◌==◌, nat_eq, contains, All, Any, All-append, if◌then◌else◌, Bool-cases,
  Option-cases, ◌/◌,
}
use my_infra.RecSync.Text.{Text}
use my_infra.RecSync.Channel.{sort_channels}
use my_infra.RecSync.Http.{Call, Outcome, returned, raised, out_of_fuel, Exec, ◌>>=◌}
use my_infra.RecSync.Schedule.{Slot, match_program}
use my_infra.RecSync.Title.{title_matches}
use my_infra.RecSync.Season.{Program, Work}
use my_infra.RecSync.Run.Candidates.{programs_of, channels_of}
use my_infra.RecSync.Run.Booking.{
  State, cached, get_schedule, Verdict, no_row, other_title, confirmed, verdict, matched_of,
  count_matches, keep_verdict, no_matches, set_stats, reserve_one, reserve_all, try_channels,
}
use my_infra.RecSync.Run.Main.{
  Env, schedule_start_ms, schedule_days, no_channels, sorted_work, after_sorting, ask_scraper,
  decide, process_work,
}
use my_infra.RecSync.Run.Keeps.{Ends, Keeps, Keeps-bind}
use my_infra.RecSync.Run.Steps.{reserve_one-Ends, get_schedule-Ends}
use my_infra.RecSync.Run.Posts.{posts}

abbrev ids_of : List (Program × ℕ) → List ℕ
ids_of [] = []
ids_of ((prog, p) ∷ ms) = p ∷ ids_of ms

module _ (e : Env) (title : Text) where
  -- The guide confirms that the broadcast is the programme `p`: it has `p` at that time, under a name
  -- that matches the title of the work.
  pub record Confirms (schedule : List Slot) (p : ℕ) (prog : Program) : Type 0 where
    pub name : Text
    pub at_time :
        match_program e.settings.match_tolerance_sec schedule (prog.started_at / 1_000_000)
        ≡ some (p, name)
    pub by_title : title_matches e.unicode e.settings.title_match_min_chars title name ≡ true

  abbrev says : List Slot → Program → Verdict
  says schedule prog = verdict e.settings e.unicode title schedule prog

  same_id : (n p : ℕ) → confirmed n ≡ confirmed p → n ≡ p
  same_id n p q = cc

  confirmed-Confirms :
      (schedule : List Slot) (p : ℕ) (prog : Program)
      → says schedule prog ≡ confirmed p
      → Confirms schedule p prog
  unfolding verdict
  confirmed-Confirms schedule p prog q =
      let time : ℕ = prog.started_at / 1_000_000 in
      elim (Option-cases (match_program e.settings.match_tolerance_sec schedule time)) [
        | inl a ↦ let v : says schedule prog ≡ no_row = rw (verdict, a) refl in absurd (cc (v, q))
        | inr ((n, name), a) ↦
            elim (Bool-cases
              (title_matches e.unicode e.settings.title_match_min_chars title name)) [
                | inr b ↦
                    let v : says schedule prog ≡ other_title = rw (verdict, a, b) refl in
                    absurd (cc (v, q))
                | inl b ↦
                    let v : says schedule prog ≡ confirmed n = rw (verdict, a, b) refl in
                    record {
                      name = name;
                      at_time = a ∙ ap (λ k. some (k, name)) (same_id n p (sym v ∙ q));
                      by_title = b;
                    }
              ]
      ]

  Confirms-confirmed :
      (schedule : List Slot) (p : ℕ) (prog : Program)
      → Confirms schedule p prog
      → verdict e.settings e.unicode title schedule prog ≡ confirmed p
  unfolding verdict
  Confirms-confirmed schedule p prog c = rw (verdict, c.at_time, c.by_title) refl

  -- Each id stands for a broadcast of the list that the guide confirms.
  abbrev pub FromList : List Slot → List Program → List ℕ → Type 0
  FromList schedule progs ids = All (λ p. Any (Confirms schedule p) progs) ids

  abbrev pub NoneConfirmed : List Slot → List Program → Type 0
  NoneConfirmed schedule progs = All (λ prog. (p : ℕ) → ¬ Confirms schedule p prog) progs

  abbrev matched : List Slot → List Program → List (Program × ℕ)
  matched schedule progs = matched_of e.settings e.unicode title schedule progs

  later_ones :
      (schedule : List Slot) (prog : Program) (progs : List Program) (ids : List ℕ)
      → FromList schedule progs ids
      → FromList schedule (prog ∷ progs) ids
  later_ones schedule prog progs [] h = tt
  later_ones schedule prog progs (p ∷ ids) h = (inr h.0, later_ones schedule prog progs ids h.1)

  keep-FromList :
      (v : Verdict) (schedule : List Slot) (prog : Program) (progs : List Program)
      → verdict e.settings e.unicode title schedule prog ≡ v
      → FromList schedule progs (ids_of (matched schedule progs))
      → FromList schedule (prog ∷ progs) (ids_of (keep_verdict v prog (matched schedule progs)))
  keep-FromList no_row schedule prog progs q h =
      later_ones schedule prog progs (ids_of (matched schedule progs)) h
  keep-FromList other_title schedule prog progs q h =
      later_ones schedule prog progs (ids_of (matched schedule progs)) h
  keep-FromList (confirmed p) schedule prog progs q h = (
    inl (confirmed-Confirms schedule p prog q),
    later_ones schedule prog progs (ids_of (matched schedule progs)) h,
  )

  matched-FromList :
      (schedule : List Slot) (progs : List Program)
      → FromList schedule progs (ids_of (matched schedule progs))
  unfolding matched_of
  matched-FromList schedule [] = tt
  matched-FromList schedule (prog ∷ progs) =
      keep-FromList (verdict e.settings e.unicode title schedule prog) schedule prog progs refl
        (matched-FromList schedule progs)

  keep-none :
      (v : Verdict) (schedule : List Slot) (prog : Program) (progs : List Program)
      → verdict e.settings e.unicode title schedule prog ≡ v
      → no_matches (keep_verdict v prog (matched schedule progs)) ≡ true
      → (no_matches (matched schedule progs) ≡ true → NoneConfirmed schedule progs)
      → NoneConfirmed schedule (prog ∷ progs)
  keep-none no_row schedule prog progs q k rest =
      (λ p c. absurd (cc (q, Confirms-confirmed schedule p prog c)), rest k)
  keep-none other_title schedule prog progs q k rest =
      (λ p c. absurd (cc (q, Confirms-confirmed schedule p prog c)), rest k)
  keep-none (confirmed p) schedule prog progs q k rest = absurd (cc)

  none-matched :
      (schedule : List Slot) (progs : List Program)
      → no_matches (matched schedule progs) ≡ true
      → NoneConfirmed schedule progs
  unfolding matched_of
  none-matched schedule [] h = tt
  none-matched schedule (prog ∷ progs) h =
      keep-none (verdict e.settings e.unicode title schedule prog) schedule prog progs refl h
        (none-matched schedule progs)

-- The guides kept in `s` are kept in `t`.
abbrev pub Extends : State → State → Type 0
Extends s t =
    (ch : ℕ) (schedule : List Slot)
    → cached ch s.schedule_cache ≡ some schedule
    → cached ch t.schedule_cache ≡ some schedule

cached-kept :
    (ch d : ℕ) (schedule sched : List Slot) (cache : List (ℕ × List Slot))
    → cached ch cache ≡ none
    → cached d cache ≡ some sched
    → cached d ((ch, schedule) ∷ cache) ≡ some sched
unfolding cached
cached-kept ch d schedule sched cache new old =
    ground (arith, ap (λ k. cached k cache) {x = ch} {y = d})

-- Since `s`, only ids of the list have been posted, and the guides are the same.
record Posted (ok : ℕ → Type 0) (s t : State) : Type 0 where
  cache : t.schedule_cache ≡ s.schedule_cache
  news : List ℕ
  added : posts t.log ≡ news ++ posts s.log
  allowed : All ok news

module _ (e : Env) (ok : ℕ → Type 0) (s : State) where
  more :
      (t u : State) (p : ℕ)
      → ok p
      → Posted ok s t
      → u.schedule_cache ≡ t.schedule_cache
      → posts u.log ≡ p ∷ posts t.log
      → Posted ok s u
  more t u p o h c l = record {
    cache = c ∙ h.cache;
    news = p ∷ h.news;
    added = l ∙ ap (λ k. p ∷ k) h.added;
    allowed = (o, h.allowed);
  }

  same :
      (t u : State)
      → Posted ok s t
      → u.schedule_cache ≡ t.schedule_cache
      → posts u.log ≡ posts t.log
      → Posted ok s u
  same t u h c l = record {
    cache = c ∙ h.cache;
    news = h.news;
    added = l ∙ h.added;
    allowed = h.allowed;
  }

  reserve_one-Posted :
      (p : ℕ) → ok p → Keeps (Posted ok s) (Posted ok s) (reserve_one e.settings e.net p)
  reserve_one-Posted p o t h =
      reserve_one-Ends (Posted ok s) (Posted ok s) e.settings e.net p t (λ _. same t _ h refl refl)
        (λ _ _. same t _ h refl refl) (λ _ _. more t _ p o h refl refl)
        (λ _ _. more t _ p o h refl refl)

  reserve_all-Posted :
      (ms : List (Program × ℕ))
      → All ok (ids_of ms)
      → Keeps (Posted ok s) (Posted ok s) (reserve_all e.settings e.net ms)
  unfolding reserve_all
  reserve_all-Posted [] o t h = h
  reserve_all-Posted ((prog, p) ∷ ms) o t h =
      Keeps-bind (Posted ok s) (Posted ok s) (reserve_one e.settings e.net p)
        (λ _. reserve_all e.settings e.net ms) (reserve_one-Posted p o.0)
        (λ _. reserve_all-Posted ms o.1) t h
