-- ===== src/RecSync/Run/Candidates.antt =====
-- The first part of `main`'s loop of docker/annict-rec-sync/sync.py: which broadcasts of a work could
-- be reserved, grouped by channel.
pub mod Counts
use my_infra.Prelude.{
  ℕ, suc, ◌+◌, ◌-◌, ◌*◌, ◌/◌, Bool, true, false, ◌&&◌, ◌||◌, Option, none, some, List, [], ◌∷◌,
  ◌++◌, ltb, leb, ◌==◌, nat_eq, contains, if◌then◌else◌,
}
use my_infra.RecSync.Text.{Text, Unicode, normalize, text_eq}
use my_infra.RecSync.Channel.{get_channel}
use my_infra.RecSync.Reserves.{Recording}
use my_infra.RecSync.Season.{Program}

-- The environment variables that the run reads. `LOOKAHEAD_DAYS` is a float, given as a fraction.
pub record Settings : Type 0 where
  pub token : Text
  pub subscribed_services : List Text
  pub match_tolerance_sec : ℕ
  pub lookahead_num : ℕ
  pub lookahead_den : ℕ
  pub scraper_retries : ℕ
  pub title_match_min_chars : ℕ
  pub recording : Recording
  pub skip_rebroadcast : Bool
  pub dry_run : Bool

-- The counters of a run.
pub record Stats : Type 0 where
  pub works : ℕ
  pub excluded_streaming : ℕ
  pub scraper_skip : ℕ
  pub programs : ℕ
  pub rebroadcast : ℕ
  pub out_of_window : ℕ
  pub unmapped : ℕ
  pub no_match : ℕ
  pub title_mismatch : ℕ
  pub reserved : ℕ
  pub already : ℕ

abbrev pub day : ℕ
day = 86_400_000_000

pub data Class : Type 0 where
  repeat : Class
  outside : Class
  unknown_channel : Class
  candidate : ℕ → Class

abbrev class_of_channel : Option ℕ → Class
class_of_channel none = unknown_channel
class_of_channel (some ch_id) = candidate ch_id

-- The guards of the loop over the broadcasts. `(started_at - now).days` is a whole number of days,
-- and it is compared with the fraction `lookahead_num / lookahead_den`.
unfoldable pub classify : Settings → Unicode → List (Text × ℕ) → ℕ → Program → Class
classify c u channel_map now prog =
    if c.skip_rebroadcast && prog.rebroadcast
    then repeat
    else if ltb prog.started_at now
        || leb c.lookahead_num ((prog.started_at - now) / day * c.lookahead_den)
    then outside
    else class_of_channel (get_channel (normalize u prog.channel_name) channel_map)

-- `by_channel.setdefault(ch_id, []).append(prog)`; a dict keeps the order of its keys.
unfoldable pub append_to : ℕ → Program → List (ℕ × List Program) → List (ℕ × List Program)
append_to ch prog [] = (ch, prog ∷ []) ∷ []
append_to ch prog ((c, progs) ∷ rest) =
    if c == ch then (c, progs ++ prog ∷ []) ∷ rest else (c, progs) ∷ append_to ch prog rest

-- What the loop changes.
pub record Sorting : Type 0 where
  pub stats : Stats
  pub unmapped_channels : List Text
  pub by_channel : List (ℕ × List Program)

abbrev pub add_name : Text → List Text → List Text
add_name name names = if contains names name then names else name ∷ names

unfoldable pub sort_in : Class → Program → Sorting → Sorting
unfolding append_to
sort_in repeat prog s = record s {
  stats = record s.stats { rebroadcast = s.stats.rebroadcast + 1 };
}
sort_in outside prog s = record s {
  stats = record s.stats { out_of_window = s.stats.out_of_window + 1 };
}
sort_in unknown_channel prog s = record s {
  stats = record s.stats { unmapped = s.stats.unmapped + 1 };
  unmapped_channels = add_name prog.channel_name s.unmapped_channels;
}
sort_in (candidate ch) prog s = record s { by_channel = append_to ch prog s.by_channel }

module _ (c : Settings) (u : Unicode) (channel_map : List (Text × ℕ)) (now : ℕ) where
  unfoldable pub sort_programs : List Program → Sorting → Sorting
  unfolding classify sort_in
  sort_programs [] s = s
  sort_programs (prog ∷ progs) s =
      sort_programs progs (sort_in (classify c u channel_map now prog) prog s)

-- `by_channel[ch_id]` of a key that is there.
unfoldable pub programs_of : ℕ → List (ℕ × List Program) → List Program
programs_of ch [] = []
programs_of ch ((c, progs) ∷ rest) = if c == ch then progs else programs_of ch rest

unfoldable pub channels_of : List (ℕ × List Program) → List ℕ
channels_of [] = []
channels_of ((c, progs) ∷ rest) = c ∷ channels_of rest
