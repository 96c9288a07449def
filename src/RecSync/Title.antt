-- ===== src/RecSync/Title.antt =====
-- `_longest_common_substring_len` and `title_matches` of docker/annict-rec-sync/sync.py. The two
-- rows of the table are lists with one entry for each place between the characters of `b`.
pub mod Infix
pub mod Longest
pub mod Match
use my_infra.Prelude.{
  ℕ, suc, ◌+◌, Bool, true, false, ◌&&◌, ◌||◌, List, [], ◌∷◌, ◌==◌, nat_eq, ltb, leb, if◌then◌else◌,
  length,
}
use my_infra.RecSync.Text.{Text, Unicode, normalize, is_substring, is_empty}

-- `[0] * n`
unfoldable pub zeros : ℕ → List ℕ
zeros ℕ.zero = []
zeros (suc n) = 0 ∷ zeros n

-- The inner loop, from `j` on: the characters `b[j:]`, the entries `prev[j:]`, and `best`. It
-- returns `cur[j + 1:]` and the new `best`. A row shorter than `b` does not occur.
row : ℕ → Text → List ℕ → ℕ → List ℕ × ℕ
row ca [] prev best = ([], best)
row ca (cb ∷ b) [] best = ([], best)
row ca (cb ∷ b) (p ∷ prev) best =
    let cell : ℕ = if ca == cb then p + 1 else 0 in
    let (cur, best') = row ca b prev (if ca == cb && ltb best cell then cell else best) in
    (cell ∷ cur, best')

-- The outer loop over the rest of `a`.
rows : Text → Text → List ℕ → ℕ → ℕ
rows [] b prev best = best
rows (ca ∷ a) b prev best = let (cur, best') = row ca b prev best in rows a b (0 ∷ cur) best'

unfoldable pub longest_common_substring_len : Text → Text → ℕ
unfolding zeros row rows
longest_common_substring_len a b =
    if is_empty a || is_empty b then 0 else rows a b (zeros (length b + 1)) 0

-- The comparison after normalization, with `TITLE_MATCH_MIN_CHARS`.
unfoldable pub same_title : ℕ → Text → Text → Bool
same_title min_chars w p =
    if is_empty w || is_empty p
    then false
    else if leb (length w) min_chars
    then is_substring w p
    else leb min_chars (longest_common_substring_len w p)

unfoldable pub title_matches : Unicode → ℕ → Text → Text → Bool
title_matches u min_chars work_title program_name =
    same_title min_chars (normalize u work_title) (normalize u program_name)
