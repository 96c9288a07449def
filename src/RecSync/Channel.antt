-- ===== src/RecSync/Channel.antt =====
-- `channel_priority` and `load_channel_map` of docker/annict-rec-sync/sync.py, and the order in
-- which `main` tries the channels of a work.
pub mod Order
use my_infra.Prelude.{
  ℕ, ◌+◌, ◌≤◌, ◌<◌, ◌≡◌, refl, ap, ◌∙◌, Bool, true, false, ◌&&◌, ◌||◌, Option, none, some, List, [],
  ◌∷◌, arith, ◌==◌, nat_eq, ltb, leb, if◌then◌else◌, All, map,
}
use my_infra.RecSync.Text.{Text, Unicode, normalize, text_eq}

-- 0 is terrestrial (GR), 1 is BS, 2 is CS.
unfoldable pub channel_priority : ℕ → ℕ
channel_priority ch_id =
    if leb 1_000_000_000 ch_id then 0 else if leb 400_000 ch_id && ltb ch_id 500_000 then 1 else 2

-- `(channel_priority(c), c) <= (channel_priority(d), d)` on tuples
unfoldable pub before : ℕ → ℕ → Bool
before c d =
    let p = channel_priority c in let q = channel_priority d in ltb p q || (p == q && leb c d)

insert_channel : ℕ → List ℕ → List ℕ
insert_channel c [] = c ∷ []
insert_channel c (d ∷ ds) = if before c d then c ∷ d ∷ ds else d ∷ insert_channel c ds

-- `sorted(by_channel, key=lambda c: (channel_priority(c), c))`
unfoldable pub sort_channels : List ℕ → List ℕ
unfolding insert_channel before channel_priority
sort_channels [] = []
sort_channels (c ∷ cs) = insert_channel c (sort_channels cs)

-- A dict as the list of its entries. `channel_map.get(name)`.
unfoldable pub get_channel : Text → List (Text × ℕ) → Option ℕ
get_channel k [] = none
get_channel k ((j, v) ∷ m) = if j == k then some v else get_channel k m

put_channel : Text → ℕ → List (Text × ℕ) → List (Text × ℕ)
put_channel k v [] = (k, v) ∷ []
put_channel k v ((j, w) ∷ m) = if j == k then (k, v) ∷ m else (j, w) ∷ put_channel k v m

normalize_keys : Unicode → List (Text × ℕ) → List (Text × ℕ) → List (Text × ℕ)
normalize_keys u [] m = m
normalize_keys u ((k, v) ∷ raw) m = normalize_keys u raw (put_channel (normalize u k) v m)

-- The argument is the decoded file, or `none` if there is no such file.
unfoldable pub load_channel_map : Unicode → Option (List (Text × ℕ)) → List (Text × ℕ)
unfolding put_channel normalize_keys
load_channel_map u none = []
load_channel_map u (some raw) = normalize_keys u raw []

get-put_channel :
    (k j : Text) (v : ℕ) (m : List (Text × ℕ))
    → get_channel j (put_channel k v m) ≡ (if k == j then some v else get_channel j m)
unfolding get_channel put_channel
get-put_channel k j v [] = refl
get-put_channel k j v ((i, w) ∷ m) = ground (
  arith,
  text_eq.same_iff k j,
  text_eq.same_iff i k,
  text_eq.same_iff i j,
  get-put_channel k j v m,
)

-- The value of the last entry of the file whose name normalizes to the key.
abbrev pub last_entry : Unicode → Text → List (Text × ℕ) → Option ℕ → Option ℕ
last_entry u name [] found = found
last_entry u name ((k, v) ∷ raw) found =
    last_entry u name raw (if normalize u k == name then some v else found)

get-normalize_keys :
    (u : Unicode) (name : Text) (raw m : List (Text × ℕ))
    → get_channel name (normalize_keys u raw m) ≡ last_entry u name raw (get_channel name m)
unfolding normalize_keys
get-normalize_keys u name [] m = refl
get-normalize_keys u name ((k, v) ∷ raw) m =
    get-normalize_keys u name raw (put_channel (normalize u k) v m)
    ∙ ap (last_entry u name raw) (get-put_channel (normalize u k) name v m)

-- Looking up a normalized name gives the number of the last entry of the file that normalizes to it.
pub get-load_channel_map :
    (u : Unicode) (name : Text) (raw : List (Text × ℕ))
    → get_channel name (load_channel_map u (some raw)) ≡ last_entry u name raw none
unfolding load_channel_map get_channel
get-load_channel_map u name raw = get-normalize_keys u name raw []
