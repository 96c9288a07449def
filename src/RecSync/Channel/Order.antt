-- ===== src/RecSync/Channel/Order.antt =====
-- The order in which `main` tries channels: sorted by priority and id, each channel once.
use my_infra.Prelude.{
  ℕ, ◌≤◌, ◌<◌, ◌≡◌, ◌⊎◌, refl, inl, inr, true, false, ◌||◌, List, [], ◌∷◌, arith, ◌==◌, nat_eq, All,
  Bool-cases, contains, IsNodup, ◌∙◌,
}
use my_infra.RecSync.Channel.{channel_priority, before, insert_channel, sort_channels}

before_total : (c d : ℕ) → before c d ≡ false → before d c ≡ true
unfolding before
before_total c d h = ground arith

before_trans : (c d e : ℕ) → before c d ≡ true → before d e ≡ true → before c e ≡ true
unfolding before
before_trans c d e h k = ground arith

pub before_antisymm : (c d : ℕ) → before c d ≡ true → before d c ≡ true → c ≡ d
unfolding before
before_antisymm c d h k = ground arith

-- Each channel stands before all later ones.
abbrev pub IsOrdered : List ℕ → Type 0
IsOrdered [] = Unit
IsOrdered (c ∷ cs) = All (λ d. before c d ≡ true) cs × IsOrdered cs

All-insert :
    (c e : ℕ) (cs : List ℕ)
    → before e c ≡ true
    → All (λ d. before e d ≡ true) cs
    → All (λ d. before e d ≡ true) (insert_channel c cs)
unfolding insert_channel
All-insert c e [] h hs = (h, tt)
All-insert c e (d ∷ cs) h hs = ground (arith, All-insert c e cs h hs.1)

All-trans :
    (c d : ℕ) (cs : List ℕ)
    → before c d ≡ true
    → All (λ e. before d e ≡ true) cs
    → All (λ e. before c e ≡ true) cs
All-trans c d [] h hs = tt
All-trans c d (e ∷ cs) h hs = (before_trans c d e h hs.0, All-trans c d cs h hs.1)

insert_channel-IsOrdered : (c : ℕ) (cs : List ℕ) → IsOrdered cs → IsOrdered (insert_channel c cs)
unfolding insert_channel
insert_channel-IsOrdered c [] h = (tt, tt)
insert_channel-IsOrdered c (d ∷ cs) h = elim (Bool-cases (before c d)) [
  | inl first ↦ rw first ((first, All-trans c d cs first h.0), h)
  | inr later ↦
      rw later (All-insert c d cs (before_total c d later) h.0, insert_channel-IsOrdered c cs h.1)
]

contains-insert_channel :
    (c : ℕ) (cs : List ℕ) (a : ℕ) → contains (insert_channel c cs) a ≡ (c == a || contains cs a)
unfolding insert_channel
contains-insert_channel c [] a = refl
contains-insert_channel c (d ∷ cs) a = ground (arith, contains-insert_channel c cs a)

pub sort_channels-IsOrdered : (cs : List ℕ) → IsOrdered (sort_channels cs)
unfolding sort_channels
sort_channels-IsOrdered [] = tt
sort_channels-IsOrdered (c ∷ cs) =
    insert_channel-IsOrdered c (sort_channels cs) (sort_channels-IsOrdered cs)

pub contains-sort_channels : (cs : List ℕ) (a : ℕ) → contains (sort_channels cs) a ≡ contains cs a
unfolding sort_channels
contains-sort_channels [] a = refl
contains-sort_channels (c ∷ cs) a =
    ground (arith, contains-insert_channel c (sort_channels cs) a, contains-sort_channels cs a)

insert_channel-IsNodup :
    (c : ℕ) (cs : List ℕ) → contains cs c ≡ false → IsNodup cs → IsNodup (insert_channel c cs)
unfolding insert_channel
insert_channel-IsNodup c [] new h = (refl, tt)
insert_channel-IsNodup c (d ∷ cs) new h =
    ground (arith, insert_channel-IsNodup c cs, contains-insert_channel c cs d)

sort_channels-IsNodup : (cs : List ℕ) → IsNodup cs → IsNodup (sort_channels cs)
unfolding sort_channels
sort_channels-IsNodup [] h = tt
sort_channels-IsNodup (c ∷ cs) h =
    insert_channel-IsNodup c (sort_channels cs) (contains-sort_channels cs c ∙ h.0)
      (sort_channels-IsNodup cs h.1)

-- `c` is no worse than `d`: terrestrial channels come first, those of BS next, and channels of one kind
-- by their number.
abbrev pub IsPreferred : ℕ → ℕ → Type 0
IsPreferred c d =
    (1_000_000_000 ≤ d → 1_000_000_000 ≤ c)
    × (400_000 ≤ d → d < 500_000 → c < 1_000_000_000 → (400_000 ≤ c) × (c < 500_000))
    × (1_000_000_000 ≤ c → 1_000_000_000 ≤ d → c ≤ d)
    × (400_000 ≤ c → c < 500_000 → 400_000 ≤ d → d < 500_000 → c ≤ d)
    × (c < 400_000 ⊎ ((500_000 ≤ c) × (c < 1_000_000_000))
        → d < 400_000 ⊎ ((500_000 ≤ d) × (d < 1_000_000_000))
        → c ≤ d)

-- Each channel is no worse than all later ones.
abbrev pub IsByPreference : List ℕ → Type 0
IsByPreference [] = Unit
IsByPreference (c ∷ cs) = All (λ d. IsPreferred c d) cs × IsByPreference cs

before-IsPreferred : (c d : ℕ) → before c d ≡ true → IsPreferred c d
unfolding before channel_priority
before-IsPreferred c d h = ground arith

All-IsPreferred :
    (c : ℕ) (cs : List ℕ) → All (λ d. before c d ≡ true) cs → All (λ d. IsPreferred c d) cs
All-IsPreferred c [] h = tt
All-IsPreferred c (d ∷ cs) h = (before-IsPreferred c d h.0, All-IsPreferred c cs h.1)

IsOrdered-IsByPreference : (cs : List ℕ) → IsOrdered cs → IsByPreference cs
IsOrdered-IsByPreference [] h = tt
IsOrdered-IsByPreference (c ∷ cs) h = (All-IsPreferred c cs h.0, IsOrdered-IsByPreference cs h.1)

-- The channels of a work are tried in this order: terrestrial ones, numbered from 1,000,000,000 on,
-- before those of BS, from 400,000 to 499,999, before all others, and those of one kind by number. They
-- are the same channels as were given, and none stands twice if none was given twice.
pub sort_channels_lem :
    (cs : List ℕ)
    → IsByPreference (sort_channels cs)
      × ((c : ℕ) → contains (sort_channels cs) c ≡ contains cs c)
      × (IsNodup cs → IsNodup (sort_channels cs))
sort_channels_lem cs = (
  IsOrdered-IsByPreference (sort_channels cs) (sort_channels-IsOrdered cs),
  contains-sort_channels cs,
  sort_channels-IsNodup cs,
)
