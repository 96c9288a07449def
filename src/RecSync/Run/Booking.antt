-- ===== src/RecSync/Run/Booking.antt =====
-- The second part of `main`'s loop of docker/annict-rec-sync/sync.py: the channels of a work in
-- their order, the match against the programme guide, and the reservations.
use my_infra.Prelude.{
  ℕ, ◌+◌, ◌/◌, Bool, true, false, Option, none, some, List, [], ◌∷◌, ◌==◌, nat_eq, contains,
  if◌then◌else◌,
}
use my_infra.RecSync.Text.{Text, Unicode}
use my_infra.RecSync.Title.{title_matches}
use my_infra.RecSync.Schedule.{Slot, match_program, fetch_channel_schedule}
use my_infra.RecSync.Http.{Net, Call, Outcome, returned, Exec, Http, ◌>>=◌}
use my_infra.RecSync.Reserves.{add, add_reserve}
use my_infra.RecSync.Season.{Program}
use my_infra.RecSync.Run.Candidates.{Settings, Stats, programs_of}

-- What a run changes: the requests made, the known reservations, the guides fetched so far, the
-- names without a channel, and the counters.
pub record State : Type 0 where
  pub log : List Call
  pub existing : List ℕ
  pub schedule_cache : List (ℕ × List Slot)
  pub unmapped_channels : List Text
  pub stats : Stats

-- A request within a run.
abbrev pub http {ℓ} : {A : Type ℓ} → Http A → State → Outcome A × State
http m s = let (r, log') = m s.log in (r, record s { log = log' })

unfoldable pub cached : ℕ → List (ℕ × List Slot) → Option (List Slot)
cached ch [] = none
cached ch ((c, schedule) ∷ rest) = if c == ch then some schedule else cached ch rest

abbrev remember : ℕ → List Slot → Exec State (List Slot)
remember ch schedule s =
    (returned schedule, record s { schedule_cache = (ch, schedule) ∷ s.schedule_cache })

-- `get_schedule(ch_id)`, with the start and the days of the run.
module _ (net : Net) (start_ms days : ℕ) where
  unfoldable pub get_schedule : ℕ → Exec State (List Slot)
  unfolding cached
  get_schedule ch s = elim (cached ch s.schedule_cache) [
    | some schedule ↦ (returned schedule, s)
    | none ↦
        ◌>>=◌ (http (fetch_channel_schedule net ch start_ms days))
          (λ schedule. remember ch schedule) s
  ]

-- A broadcast against the guide: `no_match`, `title_mismatch` or a match.
pub data Verdict : Type 0 where
  no_row : Verdict
  other_title : Verdict
  confirmed : ℕ → Verdict

abbrev verdict_of : Bool → ℕ → Verdict
verdict_of matches program_id = if matches then confirmed program_id else other_title

unfoldable pub verdict : Settings → Unicode → Text → List Slot → Program → Verdict
verdict c u title schedule prog =
    elim (match_program c.match_tolerance_sec schedule (prog.started_at / 1_000_000)) [
      | none ↦ no_row
      | some (program_id, program_name) ↦
          verdict_of (title_matches u c.title_match_min_chars title program_name) program_id
    ]

abbrev pub count_verdict : Verdict → Stats → Stats
count_verdict no_row st = record st { no_match = st.no_match + 1 }
count_verdict other_title st = record st { title_mismatch = st.title_mismatch + 1 }
count_verdict (confirmed program_id) st = st

abbrev pub keep_verdict : Verdict → Program → List (Program × ℕ) → List (Program × ℕ)
keep_verdict (confirmed program_id) prog matched = (prog, program_id) ∷ matched
keep_verdict no_row prog matched = matched
keep_verdict other_title prog matched = matched

module _ (c : Settings) (u : Unicode) (title : Text) (schedule : List Slot) where
  -- The loop over the broadcasts of one channel: the matches, and the counters after it.
  unfoldable pub matched_of : List Program → List (Program × ℕ)
  unfolding verdict
  matched_of [] = []
  matched_of (prog ∷ progs) = keep_verdict (verdict c u title schedule prog) prog (matched_of progs)

  unfoldable pub count_matches : List Program → Stats → Stats
  unfolding verdict
  count_matches [] st = st
  count_matches (prog ∷ progs) st =
      count_matches progs (count_verdict (verdict c u title schedule prog) st)

abbrev pub set_stats : (Stats → Stats) → State → State
set_stats f s = record s { stats = f s.stats }

abbrev note_already : Exec State (Unit {0})
note_already s = (returned tt, set_stats (λ st. record st { already = st.already + 1 }) s)

abbrev note_reserved : ℕ → Exec State (Unit {0})
note_reserved program_id s = (
  returned tt,
  record s {
    existing = add program_id s.existing;
    stats = record s.stats { reserved = s.stats.reserved + 1 };
  },
)

module _ (c : Settings) (net : Net) where
  -- One matched broadcast.
  unfoldable pub reserve_one : ℕ → Exec State (Unit {0})
  reserve_one program_id s =
      if contains s.existing program_id
      then note_already s
      else if c.dry_run
      then note_reserved program_id s
      else ◌>>=◌ (http (add_reserve c.recording net program_id)) (λ _. note_reserved program_id) s

  unfoldable pub reserve_all : List (Program × ℕ) → Exec State (Unit {0})
  unfolding reserve_one
  reserve_all [] s = (returned tt, s)
  reserve_all ((prog, program_id) ∷ matched) s =
      ◌>>=◌ (reserve_one program_id) (λ _. reserve_all matched) s

abbrev pub no_matches : List (Program × ℕ) → Bool
no_matches [] = true
no_matches (m ∷ matched) = false

module _ (c : Settings) (u : Unicode) (net : Net) (start_ms days : ℕ) where
  module _ (title : Text) (by_channel : List (ℕ × List Program)) where
    -- The loop over the sorted channels, which ends at the first one with a match.
    unfoldable pub try_channels : List ℕ → Exec State (Unit {0})
    unfolding get_schedule matched_of count_matches reserve_all
    try_channels [] s = (returned tt, s)
    try_channels (ch ∷ channels) s =
        ◌>>=◌ (get_schedule net start_ms days ch)
          (λ schedule s'.
            let progs = programs_of ch by_channel in
            let matched = matched_of c u title schedule progs in
            let s'' = set_stats (count_matches c u title schedule progs) s' in
            elim (no_matches matched) [
              | true ↦ try_channels channels s''
              | false ↦ reserve_all c net matched s''
            ])
          s
