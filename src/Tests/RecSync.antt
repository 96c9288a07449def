-- ===== src/Tests/RecSync.antt =====
-- docker/annict-rec-sync/sync.py on a small season: one work on two channels, a scraper that fails
-- once, and one reservation that exists already.
use Prim.Native.Char.{code}
use my_infra.Prelude.{
  ℕ, suc, ◌+◌, ◌*◌, ◌≡◌, ◌↔◌, ◌⊎◌, ◌≢◌, ◌≤◌, refl, ap, take, drop, true, false, Option, none, some,
  List, [], ◌∷◌, map, arith, String, contains, IsNodup, nat_eq, length, Any,
}
use my_infra.RecSync.Quarter.{season_of_month, current_season}
use my_infra.RecSync.Text.{Text, Unicode, normalize, text_eq, is_substring}
use my_infra.RecSync.Title.{longest_common_substring_len, title_matches, same_title}
use my_infra.RecSync.Title.Infix.{IsInfix}
use my_infra.RecSync.Title.Longest.{CommonSubstring, longest_common_substring_len_lem}
use my_infra.RecSync.Title.Match.{SameTitle, title_matches_iff}
use my_infra.RecSync.Schedule.{Slot, match_program, fetch_channel_schedule}
use mathlib.Core.List.{flatten}
use my_infra.RecSync.Schedule.Nearest.{MatchSpec, match_program_lem}
use my_infra.RecSync.Http
use my_infra.RecSync.Http.{Net, Call, Outcome, returned, raised, out_of_fuel}
use my_infra.RecSync.Season.{Times, Work, fetch_season_works}
use my_infra.RecSync.Run.Candidates.{Settings}
use my_infra.RecSync.Run.Main.{Env, no_stats, start, channel_map, main, process_work, process_works}
use my_infra.RecSync.Channel.{get_channel, load_channel_map, sort_channels}
use my_infra.RecSync.Channel.{last_entry, get-load_channel_map}
use my_infra.RecSync.Channel.Order.{IsByPreference, sort_channels_lem}
use my_infra.RecSync.Scraper.{streams, services_or_empty, is_streamable_on_subscription}
use my_infra.RecSync.Scraper.Retries.{asked, Failed, Answered, is_streamable_cases}
use my_infra.RecSync.Scraper.Services.{Covers, streams_iff}
use my_infra.RecSync.Reserves.{add_reserve, fetch_existing_reserve_program_ids}
use my_infra.RecSync.Reserves.Pages.{
  program_ids, TotalBelow, fetch_existing_collects, fetch_existing_ends,
}
use my_infra.RecSync.Season.Pages.{with_errors, fetch_season_works_lem}
use my_infra.RecSync.Run.Candidates.{Sorting, sort_programs, channels_of, programs_of}
use my_infra.RecSync.Run.Candidates.Counts.{counted, candidates_of, sort_programs_lem}
use my_infra.RecSync.Run.Choice.Decision.{WorkBooking, process_work-WorkBooking}
use my_infra.RecSync.Run.Totals.{
  AtMostOneMore, Equal, GuidesOnce, process_works_reserved, process_works-GuidesOnce,
}
use my_infra.RecSync.Run.Posts.{posts, process_works_dry}
use my_infra.RecSync.Run.Whole.{SafeRun, main-SafeRun}

abbrev text : String → Text
text String.[] = []
text (String.◌∷◌ c s) = code c ∷ text s

abbrev ascii : Unicode
ascii = record { nfkc = λ s. s; lower = λ s. s }

abbrev times : Times
times = record { fromisoformat = λ s. some (1_000_000 * length s); label = λ t. [] }

abbrev settings : Settings
settings = record {
  token = text "t";
  subscribed_services = text "Netflix" ∷ [];
  match_tolerance_sec = 300;
  lookahead_num = 8;
  lookahead_den = 1;
  scraper_retries = 3;
  title_match_min_chars = 4;
  recording = record {
    allow_end_lack = true;
    encode_mode = text "H.265";
    encode_delete_original = false;
  };
  skip_rebroadcast = true;
  dry_run = false;
}

abbrev node : String → String → Http.ProgramNode
node at ch = record { started_at = text at; channel = some (some (text ch)); rebroadcast = none }

-- The scraper answers the second request.
abbrev scraper : List Call → ℕ → Option (Option (List Http.Service))
scraper (Http.get_services _ ∷ log) id =
    some (some (record { name = some (text "Hulu"); available = true } ∷ []))
scraper _ id = none

abbrev net : Net
net = record {
  search_works = λ log season after. some (record {
    errors = false;
    nodes =
        record {
          annict_id = 7;
          title = text "Bocchi";
          programs = node "12345" "BS one" ∷ node "1234567" "GR" ∷ node "x" "Tube" ∷ [];
        }
        ∷ [];
    has_next_page = false;
    end_cursor = none;
  });
  get_services = scraper;
  get_reserves = λ log offset limit. some (record { reserves = some 5 ∷ none ∷ []; total = 2 });
  get_schedule = λ log ch start days.
      some ((record { start_at = 9000; id = ch + 1; name = some (text "Bocchi the") } ∷ []) ∷ []);
  post_reserve = λ log body. some tt;
}

abbrev env : Env
env = record {
  settings = settings;
  unicode = ascii;
  times = times;
  net = net;
  channel_map_file = some ((text "BS one", 400_101) ∷ (text "GR", 3_000_000_001) ∷ []);
  now = 0;
}

run : ℕ → Outcome ℕ × List Call
unfolding main add_reserve fetch_season_works fetch_existing_reserve_program_ids get_channel
    load_channel_map text_eq normalize is_streamable_on_subscription is_substring sort_channels
    channels_of fetch_channel_schedule programs_of match_program flatten title_matches same_title
    longest_common_substring_len
run fuel = let (r, s) = main env (text "2026-spring") fuel start in (r, s.log)

-- The terrestrial channel is preferred to BS, and its programme is posted once.
run_posts :
    let (r, log) = run 2 in
    ◌≡◌ {A = Outcome ℕ × List ℕ} (r, posts log) (returned 0, 3_000_000_002 ∷ [])
unfolding run
run_posts = refl

main-SafeRun_example : SafeRun env (text "2026-spring") 2
main-SafeRun_example = main-SafeRun env (text "2026-spring") 2

abbrev works : List Work
works =
    record {
      annict_id = 7;
      title = text "Bocchi";
      programs =
          record {
            started_at = 9_000_000;
            channel_name = text "GR";
            slot_label = [];
            rebroadcast = false;
          }
          ∷ record {
            started_at = 9_000_000;
            channel_name = text "Tube";
            slot_label = [];
            rebroadcast = false;
          }
          ∷ [];
    }
    ∷ []

abbrev first_work : Work
first_work = record {
  annict_id = 7;
  title = text "Bocchi";
  programs =
      record {
        started_at = 9_000_000;
        channel_name = text "GR";
        slot_label = [];
        rebroadcast = false;
      }
      ∷ [];
}

process_work-WorkBooking_example :
    WorkBooking env first_work start (process_work env first_work start).1
process_work-WorkBooking_example = process_work-WorkBooking env first_work start

longest_common_substring_len_example :
    CommonSubstring
      (text "xabcy")
      (text "zabcw")
      (longest_common_substring_len (text "xabcy") (text "zabcw"))
    × ((w : Text)
        → IsInfix w (text "xabcy")
        → IsInfix w (text "zabcw")
        → length w ≤ longest_common_substring_len (text "xabcy") (text "zabcw"))
longest_common_substring_len_example =
    longest_common_substring_len_lem (text "xabcy") (text "zabcw")

longest_common_run : longest_common_substring_len (text "xabcy") (text "zabcw") ≡ 3
unfolding longest_common_substring_len
longest_common_run = refl

title_matches_iff_example :
    (title_matches ascii 4 (text "a bcd ef") (text "xbc dey") ≡ true)
    ↔ SameTitle 4 (normalize ascii (text "a bcd ef")) (normalize ascii (text "xbc dey"))
title_matches_iff_example = title_matches_iff ascii 4 (text "a bcd ef") (text "xbc dey")

abbrev guide : List Slot
guide =
    record { start = 1000; program_id = 1; name = text "far" }
    ∷ record { start = 1290; program_id = 2; name = text "near" }
    ∷ record { start = 1310; program_id = 3; name = text "tie" }
    ∷ []

match_program_example : MatchSpec 300 1300 guide (match_program 300 guide 1300)
match_program_example = match_program_lem 300 guide 1300

match_program_run : match_program 300 guide 1300 ≡ some (2, text "near")
unfolding match_program
match_program_run = refl

abbrev dry_env : Env
dry_env = record env { settings = record settings { dry_run = true } }

process_works_dry_example : posts (process_works dry_env works start).1.log ≡ posts start.log
process_works_dry_example = process_works_dry dry_env works start refl

process_works_reserved_example :
    AtMostOneMore start (process_works env works start).1
    × ((process_works env works start).0 ≡ returned tt
        → Equal start (process_works env works start).1)
process_works_reserved_example = process_works_reserved env works start refl

process_works-GuidesOnce_example : GuidesOnce (process_works env works start).1
process_works-GuidesOnce_example = process_works-GuidesOnce env works start refl

abbrev empty_sorting : Sorting
empty_sorting = record { stats = no_stats; unmapped_channels = []; by_channel = [] }

sort_programs_example :
    let r = sort_programs settings ascii (channel_map env) 0 first_work.programs empty_sorting in
    (counted r ≡ 1)
    × IsNodup (channels_of r.by_channel)
    × ((ch : ℕ)
        → programs_of ch r.by_channel
          ≡ candidates_of settings ascii (channel_map env) 0 ch first_work.programs)
sort_programs_example =
    sort_programs_lem settings ascii (channel_map env) 0 first_work.programs empty_sorting refl

abbrev reserve_rows : List (Option ℕ)
reserve_rows = some 5 ∷ none ∷ some 6 ∷ []

abbrev paged : Net
paged = record net {
  get_reserves = λ log offset limit.
      some (record { reserves = take limit (drop offset reserve_rows); total = 3 });
}

fetch_existing_collects_example :
    (ids : List ℕ) × ((fetch_existing_reserve_program_ids paged 1 []).0 ≡ returned ids)
    × ((p : ℕ) → contains ids p ≡ contains (program_ids reserve_rows) p)
fetch_existing_collects_example =
    fetch_existing_collects paged reserve_rows 1 [] (λ log offset. refl) (omega arith) (omega arith)

total_below : TotalBelow paged 3
total_below log offset page e = omega (arith, ap (totals) e)
  where
    totals : Option Http.ReservesPage → ℕ
    totals none = 3
    totals (some page) = page.total

fetch_existing_ends_example : (fetch_existing_reserve_program_ids paged 1 []).0 ≢ out_of_fuel
fetch_existing_ends_example =
    fetch_existing_ends paged 1 3 [] total_below (omega arith) (omega arith)

abbrev works_page : Http.WorksPage
works_page = record { errors = true; nodes = []; has_next_page = true; end_cursor = none }

abbrev refusing : Net
refusing = record net { search_works = λ log season after. some works_page }

fetch_season_works_example : (fetch_season_works times refusing [] 1 []).0 ≡ raised
fetch_season_works_example =
    fetch_season_works_lem times refusing [] 1 [] (with_errors works_page (λ log. refl) refl)
      (omega arith)

is_streamable_cases_example :
    ((services : Option (List Http.Service)) × (a : Answered net 7 3 [] services)
      × (is_streamable_on_subscription ascii (text "Hulu" ∷ []) 3 net 7 [] ≡ (
        some
            (streams ascii (map (normalize ascii) (text "Hulu" ∷ [])) (services_or_empty services)),
        asked 7 (suc a.failures) [],
      )))
    ⊎ (Failed net 7 3 []
        × (is_streamable_on_subscription ascii (text "Hulu" ∷ []) 3 net 7 []
            ≡ (none, asked 7 3 [])))
is_streamable_cases_example = is_streamable_cases ascii (text "Hulu" ∷ []) net 7 3 [] (omega arith)

is_streamable_run :
    is_streamable_on_subscription ascii (text "Hulu" ∷ []) 3 net 7 []
    ≡ (some true, Http.get_services 7 ∷ Http.get_services 7 ∷ [])
unfolding is_streamable_on_subscription is_substring normalize
is_streamable_run = refl

-- With `SCRAPER_RETRIES` 0 nothing is asked, and the work counts as not streaming.
no_retries_run :
    is_streamable_on_subscription ascii (text "Hulu" ∷ []) 0 net 7 [] ≡ (some false, [])
unfolding is_streamable_on_subscription
no_retries_run = refl

abbrev hulu : List Http.Service
hulu = record { name = some (text "Hulu JP"); available = true } ∷ []

streams_iff_example :
    (streams ascii (text "Hulu" ∷ []) hulu ≡ true) ↔ Any (Covers ascii (text "Hulu" ∷ [])) hulu
streams_iff_example = streams_iff ascii (text "Hulu" ∷ []) hulu

abbrev raw_map : List (Text × ℕ)
raw_map = (text "B S", 1) ∷ (text "BS", 2) ∷ []

get-load_channel_map_example :
    get_channel (text "BS") (load_channel_map ascii (some raw_map))
    ≡ last_entry ascii (text "BS") raw_map none
get-load_channel_map_example = get-load_channel_map ascii (text "BS") raw_map

abbrev three : List ℕ
three = 700_000 ∷ 400_101 ∷ 3_000_000_001 ∷ []

sort_channels_example :
    IsByPreference (sort_channels three)
    × ((c : ℕ) → contains (sort_channels three) c ≡ contains three c)
    × (IsNodup three → IsNodup (sort_channels three))
sort_channels_example = sort_channels_lem three

season_of_april : current_season (λ n. "2026") 2026 4 ≡ "2026-spring"
unfolding current_season season_of_month
season_of_april = refl
