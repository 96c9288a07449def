-- ===== src/RecSync/Run/Choice/Decision.antt =====
-- What one work adds to the reservations, in docker/annict-rec-sync/sync.py.
use my_infra.Prelude.{
  ℕ, zero, suc, ◌<◌, ◌≡◌, refl, ap, sym, arith, map, ◌∙◌, ◌⊎◌, inl, inr, Bool, true, false, Option,
  none, some, List, ◌∷◌, ◌++◌, Bool-cases, Option-cases,
}
use my_infra.RecSync.Text.{Text, normalize}
use my_infra.RecSync.Channel.{sort_channels}
use my_infra.RecSync.Http
use my_infra.RecSync.Http.{Call, Service}
use my_infra.RecSync.Scraper.{
  streams, services_or_empty, request_services, is_streamable_on_subscription,
}
use my_infra.RecSync.Scraper.Retries.{Answered, is_streamable_cases}
use my_infra.RecSync.Season.{Program, Work}
use my_infra.RecSync.Run.Candidates.{channels_of}
use my_infra.RecSync.Run.Booking.{State}
use my_infra.RecSync.Run.Main.{
  Env, no_channels, sorted_work, after_sorting, ask_scraper, decide, process_work,
}
use my_infra.RecSync.Run.Posts.{posts}
use my_infra.RecSync.Run.Choice.Channels.{Chosen, tried, try_channels-OneChannel}

-- The scraper was asked until it answered, and no service that it names streams the work on a
-- subscription; or the settings allow no attempt, and it was not asked.
abbrev pub NotStreamed : Env → Work → List Call → Type 0
NotStreamed e w log =
    let subscribed = map (normalize e.unicode) e.settings.subscribed_services in
    (e.settings.scraper_retries ≡ 0)
    ⊎ ((services : Option (List Service)) × Answered e.net w.annict_id e.settings.scraper_retries
          log services
        × (streams e.unicode subscribed (services_or_empty services) ≡ false))

-- What a work adds: nothing, or, only if no subscription streams it, reservations of one channel.
abbrev pub WorkBooking : Env → Work → State → State → Type 0
WorkBooking e w s t =
    let so = sorted_work e w s in
    (posts t.log ≡ posts s.log)
    ⊎ (NotStreamed e w s.log
        × Chosen e w.title so.by_channel (sort_channels (channels_of so.by_channel)) s t)

zero_or_more : (n : ℕ) → (n ≡ 0) ⊎ (0 < n)
zero_or_more zero = inl refl
zero_or_more (suc n) = inr (omega arith)

the_same : (b : Bool) → ◌≡◌ {A = Option Bool} (some b) (some false) → b ≡ false
the_same b q = cc

asked-NotStreamed :
    (e : Env) (w : Work) (s : State) → (ask_scraper e w s).0 ≡ some false → NotStreamed e w s.log
asked-NotStreamed e w s q =
    let n = e.settings.scraper_retries in
    elim (zero_or_more n) [
      | inl none_allowed ↦ inl none_allowed
      | inr some_allowed ↦
          elim (is_streamable_cases e.unicode e.settings.subscribed_services e.net w.annict_id n
            s.log some_allowed) [
              | inl (services, a, r) ↦ inr (services, a, the_same _ (sym (ap (λ x. x.0) r) ∙ q))
              | inr (failed, r) ↦ absurd (cc (ap (λ x. x.0) r, q))
            ]
    ]

posts-request_services :
    (e : Env) (id n : ℕ) (log : List Call) → posts (request_services e.net id n log).1 ≡ posts log
unfolding request_services
posts-request_services e id zero log = refl
posts-request_services e id (suc zero) log = elim (Option-cases (e.net.get_services log id)) [
  | inl failed ↦ rw (failed, request_services)
  | inr (services, answered) ↦ rw (answered, request_services)
]
posts-request_services e id (suc (suc n)) log = elim (Option-cases (e.net.get_services log id)) [
  | inl failed ↦
      rw (failed, request_services)
        (posts-request_services e id (suc n) (Http.get_services id ∷ log))
  | inr (services, answered) ↦ rw (answered, request_services)
]

Chosen-from :
    (e : Env) (title : Text) (by_channel : List (ℕ × List Program)) (channels : List ℕ)
    (s s' t : State)
    → posts s'.log ≡ posts s.log
    → Chosen e title by_channel channels s' t
    → Chosen e title by_channel channels s t
Chosen-from e title by_channel channels s s' t same c = record {
  earlier = c.earlier;
  channel = c.channel;
  later = c.later;
  order = c.order;
  skipped = c.skipped;
  guide = c.guide;
  kept = c.kept;
  news = c.news;
  added = c.added ∙ ap (λ l. c.news ++ l) same;
  from = c.from;
}

decide-WorkBooking :
    (e : Env) (w : Work) (s s' : State) (answer : Option Bool)
    → (ask_scraper e w (after_sorting (sorted_work e w s) s)).0 ≡ answer
    → posts s'.log ≡ posts s.log
    → WorkBooking e w s (decide e w (sorted_work e w s).by_channel answer s').1
unfolding decide
decide-WorkBooking e w s s' none q same = inl same
decide-WorkBooking e w s s' (some true) q same = inl same
decide-WorkBooking e w s s' (some false) q same =
    let by_channel = (sorted_work e w s).by_channel in
    let channels = sort_channels (channels_of by_channel) in
    let t = (tried e w.title by_channel channels s').1 in
    elim ((try_channels-OneChannel e w.title by_channel channels s').choice) [
      | inl idle ↦ inl (idle ∙ same)
      | inr c ↦ inr (
        asked-NotStreamed e w (after_sorting (sorted_work e w s) s) q,
        Chosen-from e w.title by_channel channels s s' t same c,
      )
    ]

-- However the servers answer, a work adds no reservation, or these hold. The scraper has answered in one
-- of the attempts allowed, and no service of its first answer streams the work on a subscription, unless
-- the settings allow no attempt at all. The reservations stand for broadcasts of one channel whose guide
-- has, at that time, the programme under a name that matches the title. And the guides of all channels
-- that come earlier in the order of preference have no such programme for any of their broadcasts.
pub process_work-WorkBooking :
    (e : Env) (w : Work) (s : State) → WorkBooking e w s (process_work e w s).1
unfolding process_work is_streamable_on_subscription
process_work-WorkBooking e w s =
    let so = sorted_work e w s in
    elim (Bool-cases (no_channels so.by_channel)) [
      | inl idle ↦ rw (idle, process_work) (inl refl)
      | inr busy ↦
          let asked = ask_scraper e w (after_sorting so s) in
          rw (busy, process_work)
            (decide-WorkBooking e w s asked.1 asked.0 refl
              (posts-request_services e w.annict_id e.settings.scraper_retries s.log))
    ]
