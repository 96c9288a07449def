-- ===== src/RecSync/Run/Choice/Channels.antt =====
-- The loop over the channels of a work, of docker/annict-rec-sync/sync.py.
use my_infra.Prelude.{
  ℕ, ◌≡◌, refl, ap, ◌∙◌, ◌⊎◌, inl, inr, some, List, [], ◌∷◌, ◌++◌, All, Any, Bool-cases,
  Option-cases, nat_eq, arith,
}
use my_infra.RecSync.Text.{Text}
use my_infra.RecSync.Http
use my_infra.RecSync.Http.{Call, Outcome, returned, raised, out_of_fuel, Exec, ◌>>=◌}
use my_infra.RecSync.Schedule.{Slot, read_guide, fetch_channel_schedule}
use my_infra.RecSync.Season.{Program}
use my_infra.RecSync.Run.Candidates.{programs_of}
use my_infra.RecSync.Run.Booking.{
  State, cached, get_schedule, count_matches, no_matches, set_stats, reserve_all, try_channels,
}
use my_infra.RecSync.Run.Main.{Env, schedule_start_ms, schedule_days}
use my_infra.RecSync.Run.Keeps.{Ends}
use my_infra.RecSync.Run.Posts.{posts}
use my_infra.RecSync.Run.Choice.{
  Confirms, FromList, NoneConfirmed, matched, matched-FromList, none-matched, Extends, cached-kept,
  Posted, reserve_all-Posted,
}

cached_self :
    (ch : ℕ) (schedule : List Slot) (cache : List (ℕ × List Slot))
    → cached ch ((ch, schedule) ∷ cache) ≡ some schedule
unfolding cached
cached_self ch schedule cache = ground arith

module _ (e : Env) where
  abbrev guide_of : ℕ → Exec State (List Slot)
  guide_of = get_schedule e.net (schedule_start_ms e) (schedule_days e)

  -- Reading a guide posts nothing and forgets no guide.
  record GuideRead (ch : ℕ) (s t : State) : Type 0 where
    extends : Extends s t
    same_posts : posts t.log ≡ posts s.log
    result :
        (guide_of ch s ≡ (raised, t))
        ⊎ ((schedule : List Slot) × (guide_of ch s ≡ (returned schedule, t))
            × (cached ch t.schedule_cache ≡ some schedule))

  guide_read : (ch : ℕ) (s : State) → (t : State) × GuideRead ch s t
  unfolding get_schedule fetch_channel_schedule
  guide_read ch s = elim (Option-cases (cached ch s.schedule_cache)) [
    | inr (schedule, c) ↦ (
      s,
      record {
        extends = λ d sched k. k;
        same_posts = refl;
        result = inr (schedule, rw (c, get_schedule), c);
      },
    )
    | inl c ↦
        let asked = Http.get_schedule ch (schedule_start_ms e) (schedule_days e) ∷ s.log in
        elim (Option-cases (e.net.get_schedule s.log ch (schedule_start_ms e) (schedule_days e))) [
          | inl a ↦ (
            record s { log = asked },
            record {
              extends = λ d sched k. k;
              same_posts = refl;
              result = inl (rw (c, get_schedule) (rw a));
            },
          )
          | inr (guide, a) ↦
              let schedule = read_guide guide in
              (
                record s { log = asked; schedule_cache = (ch, schedule) ∷ s.schedule_cache },
                record {
                  extends = λ d sched k. cached-kept ch d schedule sched s.schedule_cache c k;
                  same_posts = refl;
                  result = inr (
                    schedule,
                    rw (c, get_schedule) (rw a),
                    cached_self ch schedule s.schedule_cache,
                  );
                },
              )
        ]
  ]

module _ (e : Env) (title : Text) (by_channel : List (ℕ × List Program)) where
  -- The run has gone from `s` to `t` and reserved broadcasts of one channel: the guides of all
  -- earlier ones confirm none of their broadcasts.
  pub record Chosen (channels : List ℕ) (s t : State) : Type 0 where
    pub earlier : List ℕ
    pub channel : ℕ
    pub later : List ℕ
    pub order : channels ≡ earlier ++ channel ∷ later
    pub skipped :
        All
          (λ d.
            (schedule : List Slot) × (cached d t.schedule_cache ≡ some schedule)
            × NoneConfirmed e title schedule (programs_of d by_channel))
          earlier
    pub guide : List Slot
    pub kept : cached channel t.schedule_cache ≡ some guide
    pub news : List ℕ
    pub added : posts t.log ≡ news ++ posts s.log
    pub from : FromList e title guide (programs_of channel by_channel) news

  pub record OneChannel (channels : List ℕ) (s t : State) : Type 0 where
    pub extends : Extends s t
    pub choice : (posts t.log ≡ posts s.log) ⊎ Chosen channels s t

  abbrev pub tried : List ℕ → Exec State (Unit {0})
  tried =
      try_channels e.settings e.unicode e.net (schedule_start_ms e) (schedule_days e) title
        by_channel

  -- One more channel in front, whose guide confirms nothing.
  one_more :
      (ch : ℕ) (channels : List ℕ) (s s' t : State) (schedule : List Slot)
      → Extends s s'
      → posts s'.log ≡ posts s.log
      → cached ch s'.schedule_cache ≡ some schedule
      → NoneConfirmed e title schedule (programs_of ch by_channel)
      → OneChannel channels s' t
      → OneChannel (ch ∷ channels) s t
  one_more ch channels s s' t schedule ext same kept nothing h = record {
    extends = λ d sched k. h.extends d sched (ext d sched k);
    choice = elim (h.choice) [
      | inl idle ↦ inl (idle ∙ same)
      | inr c ↦ inr (record {
        earlier = ch ∷ c.earlier;
        channel = c.channel;
        later = c.later;
        order = ap (λ l. ch ∷ l) c.order;
        skipped = ((schedule, h.extends ch schedule kept, nothing), c.skipped);
        guide = c.guide;
        kept = c.kept;
        news = c.news;
        added = c.added ∙ ap (λ l. c.news ++ l) same;
        from = c.from;
      })
    ];
  }

  -- The reservations of the channel that is chosen.
  chosen_here :
      (ch : ℕ) (channels : List ℕ) (s s' t : State) (schedule : List Slot)
      → Extends s s'
      → posts s'.log ≡ posts s.log
      → cached ch s'.schedule_cache ≡ some schedule
      → Posted (λ p. Any (Confirms e title schedule p) (programs_of ch by_channel)) s' t
      → OneChannel (ch ∷ channels) s t
  chosen_here ch channels s s' t schedule ext same kept h = record {
    extends = λ d sched k. ap (cached d) h.cache ∙ ext d sched k;
    choice = inr (record {
      earlier = [];
      channel = ch;
      later = channels;
      order = refl;
      skipped = tt;
      guide = schedule;
      kept = ap (cached ch) h.cache ∙ kept;
      news = h.news;
      added = h.added ∙ ap (λ l. h.news ++ l) same;
      from = h.allowed;
    });
  }

  Ends-Posted :
      (ok : ℕ → Type 0) (s : State) (r : Outcome (Unit {0}) × State)
      → Ends (Posted ok s) (Posted ok s) r
      → Posted ok s r.1
  Ends-Posted ok s (returned a, t) h = h
  Ends-Posted ok s (raised, t) h = h
  Ends-Posted ok s (out_of_fuel, t) h = h

  reserve_all-chosen :
      (ch : ℕ) (schedule : List Slot) (s : State)
      → let progs = programs_of ch by_channel in
        Posted
          (λ p. Any (Confirms e title schedule p) progs)
          s
          (reserve_all e.settings e.net (matched e title schedule progs) s).1
  reserve_all-chosen ch schedule s =
      let progs = programs_of ch by_channel in
      Ends-Posted (λ p. Any (Confirms e title schedule p) progs) s
        (reserve_all e.settings e.net (matched e title schedule progs) s)
        (reserve_all-Posted e (λ p. Any (Confirms e title schedule p) progs) s
          (matched e title schedule progs) (matched-FromList e title schedule progs) s
          (record { cache = refl; news = []; added = refl; allowed = tt }))

  pub try_channels-OneChannel :
      (channels : List ℕ) (s : State) → OneChannel channels s (tried channels s).1
  unfolding try_channels
  try_channels-OneChannel [] s = record { extends = λ d sched k. k; choice = inl refl }
  try_channels-OneChannel (ch ∷ channels) s =
      let (t, g) = guide_read e ch s in
      elim (g.result) [
        | inl cut ↦
            rw (cut, try_channels) (record { extends = g.extends; choice = inl g.same_posts })
        | inr (schedule, got, kept) ↦
            let progs = programs_of ch by_channel in
            let t' = set_stats (count_matches e.settings e.unicode title schedule progs) t in
            elim (Bool-cases (no_matches (matched e title schedule progs))) [
              | inl nothing ↦
                  rw (got, try_channels)
                    (rw (nothing, Http.continue)
                      (one_more ch channels s t' (tried channels t').1 schedule g.extends
                        g.same_posts kept (none-matched e title schedule progs nothing)
                        (try_channels-OneChannel channels t')))
              | inr some_match ↦
                  rw (got, try_channels)
                    (rw (some_match, Http.continue)
                      (chosen_here ch channels s t'
                        (reserve_all e.settings e.net (matched e title schedule progs) t').1
                        schedule g.extends g.same_posts kept (reserve_all-chosen ch schedule t')))
            ]
      ]
