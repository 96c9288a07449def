-- ===== src/RecSync/Quarter.antt =====
-- `current_season` of docker/annict-rec-sync/sync.py, at the year and month of the local clock.
use Prim.Native.String.{◌++◌ as ◌<>◌}
use my_infra.Prelude.{ℕ, String, ltb, if◌then◌else◌}

-- The table of the months, 1 to 12.
unfoldable pub season_of_month : ℕ → String
season_of_month month =
    if ltb month 4
    then "winter"
    else if ltb month 7
    then "spring"
    else if ltb month 10
    then "summer"
    else "autumn"

-- `show` is Python's decimal form of the year.
unfoldable pub current_season : (ℕ → String) → ℕ → ℕ → String
current_season show year month = show year <> "-" <> season_of_month month
