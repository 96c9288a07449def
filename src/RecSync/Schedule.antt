-- ===== src/RecSync/Schedule.antt =====
-- `fetch_channel_schedule` and `match_program` of docker/annict-rec-sync/sync.py.
pub mod Nearest
use my_infra.Prelude.{
  ℕ, ◌+◌, ◌/◌, ◌&&◌, map, Option, none, some, List, [], ◌∷◌, ltb, leb, abs_diff, if◌then◌else◌,
}
use mathlib.Core.List.{flatten}
use mathlib.Core.Option
use my_infra.RecSync.Text.{Text}
use my_infra.RecSync.Http.{GuideEntry, Net, Call, get_schedule, Http, send}

-- A row of the programme guide: the start in seconds, the id and the name.
pub record Slot : Type 0 where
  pub start : ℕ
  pub program_id : ℕ
  pub name : Text

-- `prog.get("name") or ""`
abbrev entry_name : Option Text → Text
entry_name none = []
entry_name (some name) = name

unfoldable pub read_guide : List (List GuideEntry) → List Slot
read_guide guide =
    map (λ e. record { start = e.start_at / 1000; program_id = e.id; name = entry_name e.name })
      (flatten guide)

unfoldable pub fetch_channel_schedule : Net → ℕ → ℕ → ℕ → Http (List Slot)
unfolding read_guide
fetch_channel_schedule net channel_id start_ms days =
    send (get_schedule channel_id start_ms days)
      (λ log. Option.map read_guide (net.get_schedule log channel_id start_ms days))

-- The loop over the rows, with `best_delta` and `best`.
match_loop : ℕ → ℕ → List Slot → ℕ → Option (ℕ × Text) → Option (ℕ × Text)
match_loop tolerance target_sec [] best_delta best = best
match_loop tolerance target_sec (p ∷ programs) best_delta best =
    let delta = abs_diff p.start target_sec in
    let closer = leb delta tolerance && ltb delta best_delta in
    match_loop tolerance target_sec programs (if closer then delta else best_delta)
      (if closer then some (p.program_id, p.name) else best)

unfoldable pub match_program : ℕ → List Slot → ℕ → Option (ℕ × Text)
unfolding match_loop
match_program tolerance programs target_sec =
    match_loop tolerance target_sec programs (tolerance + 1) none
