-- ===== src/RecSync/Run/Main.antt =====
-- `main` of docker/annict-rec-sync/sync.py.
use my_infra.Prelude.{
  ℕ, ◌+◌, ◌-◌, ◌/◌, Bool, true, false, Option, none, some, List, [], ◌∷◌, if◌then◌else◌, length,
}
use my_infra.RecSync.Text.{Text, Unicode, is_empty}
use my_infra.RecSync.Channel.{load_channel_map, sort_channels}
use my_infra.RecSync.Scraper.{is_streamable_on_subscription}
use my_infra.RecSync.Http.{Net, returned, Exec, ◌>>=◌}
use my_infra.RecSync.Reserves.{fetch_existing_reserve_program_ids}
use my_infra.RecSync.Season.{Program, Work, Times, fetch_season_works}
use my_infra.RecSync.Run.Candidates.{Settings, Stats, Sorting, sort_programs, channels_of}
use my_infra.RecSync.Run.Booking.{State, http, set_stats, try_channels}

-- What `main` has at hand: the settings, the servers, what Python brings, the decoded channel map
-- if the file is there, and the time of the start.
pub record Env : Type 0 where
  pub settings : Settings
  pub unicode : Unicode
  pub times : Times
  pub net : Net
  pub channel_map_file : Option (List (Text × ℕ))
  pub now : ℕ

abbrev pub channel_map : Env → List (Text × ℕ)
channel_map e = load_channel_map e.unicode e.channel_map_file

abbrev pub schedule_start_ms : Env → ℕ
schedule_start_ms e = e.now / 1000

-- `math.ceil(LOOKAHEAD_DAYS) + 1`
abbrev pub schedule_days : Env → ℕ
schedule_days e =
    (e.settings.lookahead_num + e.settings.lookahead_den - 1) / e.settings.lookahead_den + 1

abbrev pub no_channels : List (ℕ × List Program) → Bool
no_channels [] = true
no_channels (c ∷ by_channel) = false

-- The candidates of a work, from the state that the work finds.
unfoldable pub sorted_work : Env → Work → State → Sorting
unfolding sort_programs
sorted_work e w s = sort_programs e.settings e.unicode (channel_map e) e.now w.programs (record {
  stats = record s.stats { programs = s.stats.programs + length w.programs };
  unmapped_channels = s.unmapped_channels;
  by_channel = [];
})

abbrev pub after_sorting : Sorting → State → State
after_sorting so s = record s { unmapped_channels = so.unmapped_channels; stats = so.stats }

-- What follows the scraper's answer.
unfoldable pub decide : Env → Work → List (ℕ × List Program) → Option Bool → Exec State (Unit {0})
unfolding try_channels
decide e w by_channel (some true) s =
    (returned tt, set_stats (λ st. record st { excluded_streaming = st.excluded_streaming + 1 }) s)
decide e w by_channel none s =
    (returned tt, set_stats (λ st. record st { scraper_skip = st.scraper_skip + 1 }) s)
decide e w by_channel (some false) s =
    try_channels e.settings e.unicode e.net (schedule_start_ms e) (schedule_days e) w.title
      by_channel (sort_channels (channels_of by_channel)) s

abbrev pub ask_scraper : Env → Work → State → Option Bool × State
ask_scraper e w s =
    let c = e.settings in
    let (streamable, log') =
      is_streamable_on_subscription e.unicode c.subscribed_services c.scraper_retries e.net
        w.annict_id s.log in
    (streamable, record s { log = log' })

unfoldable pub process_work : Env → Work → Exec State (Unit {0})
unfolding sorted_work decide
process_work e w s =
    let so = sorted_work e w s in
    let s' = after_sorting so s in
    if no_channels so.by_channel
    then (returned tt, s')
    else (let (streamable, s'') = ask_scraper e w s' in decide e w so.by_channel streamable s'')

unfoldable pub process_works : Env → List Work → Exec State (Unit {0})
unfolding process_work
process_works e [] s = (returned tt, s)
process_works e (w ∷ works) s = ◌>>=◌ (process_work e w) (λ _. process_works e works) s

abbrev pub no_stats : Stats
no_stats = record {
  works = 0;
  excluded_streaming = 0;
  scraper_skip = 0;
  programs = 0;
  rebroadcast = 0;
  out_of_window = 0;
  unmapped = 0;
  no_match = 0;
  title_mismatch = 0;
  reserved = 0;
  already = 0;
}

abbrev pub start : State
start = record {
  log = [];
  existing = [];
  schedule_cache = [];
  unmapped_channels = [];
  stats = no_stats;
}

abbrev with_works : List Work → State → State
with_works works s = set_stats (λ st. record st { works = length works }) s

abbrev with_existing : List ℕ → State → State
with_existing ids s = record s { existing = ids }

-- `main`, with fuel for the rounds of each paging loop; the result is the exit status.
unfoldable pub main : Env → Text → ℕ → Exec State ℕ
unfolding process_works
main e season fuel s =
    if is_empty e.settings.token
    then (returned 2, s)
    else ◌>>=◌ (http (fetch_season_works e.times e.net season fuel))
        (λ works s₁.
          ◌>>=◌ (http (fetch_existing_reserve_program_ids e.net fuel))
            (λ ids s₂.
              ◌>>=◌ (process_works e works) (λ _ s₃. (returned 0, s₃)) (with_existing ids s₂))
            (with_works works s₁))
        s
