-- ===== src/RecSync/Run/Candidates/Counts.antt =====
-- The grouping by channel: what each channel gets, and that every broadcast is counted once.
use my_infra.Prelude.{
  ℕ, ◌+◌, ◌≡◌, refl, ◌∙◌, ap, sym, ◌||◌, List, [], ◌∷◌, ◌++◌, arith, ◌==◌, nat_eq, contains,
  IsNodup, if◌then◌else◌, length, length-append,
}
use mathlib.Core.List.{append-nil, append_assoc}
use my_infra.RecSync.Text.{Text, Unicode}
use my_infra.RecSync.Season.{Program}
use my_infra.RecSync.Run.Candidates.{
  Settings, Class, repeat, outside, unknown_channel, candidate, classify, append_to, Sorting,
  sort_in, sort_programs, programs_of, channels_of,
}

programs_of-append_to :
    (d ch : ℕ) (prog : Program) (m : List (ℕ × List Program))
    → programs_of d (append_to ch prog m)
      ≡ (if ch == d then programs_of d m ++ prog ∷ [] else programs_of d m)
unfolding programs_of append_to
programs_of-append_to d ch prog [] = ground arith
programs_of-append_to d ch prog ((c, progs) ∷ m) = ground (arith, programs_of-append_to d ch prog m)

contains-append_to :
    (d ch : ℕ) (prog : Program) (m : List (ℕ × List Program))
    → contains (channels_of (append_to ch prog m)) d ≡ (ch == d || contains (channels_of m) d)
unfolding channels_of append_to
contains-append_to d ch prog [] = refl
contains-append_to d ch prog ((c, progs) ∷ m) = ground (arith, contains-append_to d ch prog m)

append_to-IsNodup :
    (ch : ℕ) (prog : Program) (m : List (ℕ × List Program))
    → IsNodup (channels_of m)
    → IsNodup (channels_of (append_to ch prog m))
unfolding channels_of append_to
append_to-IsNodup ch prog [] h = (refl, tt)
append_to-IsNodup ch prog ((c, progs) ∷ m) h =
    ground (arith, append_to-IsNodup ch prog m h.1, contains-append_to c ch prog m)

-- The number of broadcasts under all channels.
abbrev pub grouped : List (ℕ × List Program) → ℕ
grouped [] = 0
grouped ((c, progs) ∷ m) = length progs + grouped m

grouped-append_to :
    (ch : ℕ) (prog : Program) (m : List (ℕ × List Program))
    → grouped (append_to ch prog m) ≡ grouped m + 1
unfolding append_to
grouped-append_to ch prog [] = omega arith
grouped-append_to ch prog ((c, progs) ∷ m) =
    ground (arith, grouped-append_to ch prog m, length-append {0} progs (prog ∷ []))

-- All that the loop has counted and grouped.
abbrev pub counted : Sorting → ℕ
counted s = s.stats.rebroadcast + s.stats.out_of_window + s.stats.unmapped + grouped s.by_channel

counted-sort_in :
    (k : Class) (prog : Program) (s : Sorting) → counted (sort_in k prog s) ≡ counted s + 1
unfolding sort_in
counted-sort_in repeat prog s = omega arith
counted-sort_in outside prog s = omega arith
counted-sort_in unknown_channel prog s = omega arith
counted-sort_in (candidate ch) prog s = omega (arith, grouped-append_to ch prog s.by_channel)

abbrev for_channel : ℕ → Class → Program → List Program → List Program
for_channel ch (candidate d) prog rest = if d == ch then prog ∷ rest else rest
for_channel ch repeat prog rest = rest
for_channel ch outside prog rest = rest
for_channel ch unknown_channel prog rest = rest

programs_of-sort_in :
    (ch : ℕ) (k : Class) (prog : Program) (s : Sorting)
    → programs_of ch (sort_in k prog s).by_channel
      ≡ programs_of ch s.by_channel ++ for_channel ch k prog []
unfolding sort_in
programs_of-sort_in ch repeat prog s = sym (append-nil _)
programs_of-sort_in ch outside prog s = sym (append-nil _)
programs_of-sort_in ch unknown_channel prog s = sym (append-nil _)
programs_of-sort_in ch (candidate d) prog s =
    programs_of-append_to ch d prog s.by_channel
    ∙ ground (arith, append-nil (programs_of ch s.by_channel))

sort_in-IsNodup :
    (k : Class) (prog : Program) (s : Sorting)
    → IsNodup (channels_of s.by_channel)
    → IsNodup (channels_of (sort_in k prog s).by_channel)
unfolding sort_in
sort_in-IsNodup repeat prog s h = h
sort_in-IsNodup outside prog s h = h
sort_in-IsNodup unknown_channel prog s h = h
sort_in-IsNodup (candidate ch) prog s h = append_to-IsNodup ch prog s.by_channel h

for_channel-append :
    (ch : ℕ) (k : Class) (prog : Program) (rest : List Program)
    → for_channel ch k prog [] ++ rest ≡ for_channel ch k prog rest
for_channel-append ch repeat prog rest = refl
for_channel-append ch outside prog rest = refl
for_channel-append ch unknown_channel prog rest = refl
for_channel-append ch (candidate d) prog rest = ground arith

module _ (c : Settings) (u : Unicode) (channel_map : List (Text × ℕ)) (now : ℕ) where
  -- The broadcasts that pass every guard and belong to the channel, in their order.
  abbrev pub candidates_of : ℕ → List Program → List Program
  candidates_of ch [] = []
  candidates_of ch (prog ∷ progs) =
      for_channel ch (classify c u channel_map now prog) prog (candidates_of ch progs)

  programs_of-sort_programs :
      (ch : ℕ) (progs : List Program) (s : Sorting)
      → programs_of ch (sort_programs c u channel_map now progs s).by_channel
        ≡ programs_of ch s.by_channel ++ candidates_of ch progs
  unfolding sort_programs
  programs_of-sort_programs ch [] s = sym (append-nil _)
  programs_of-sort_programs ch (prog ∷ progs) s =
      let k = classify c u channel_map now prog in
      programs_of-sort_programs ch progs (sort_in k prog s)
      ∙ ap (λ l. l ++ candidates_of ch progs) (programs_of-sort_in ch k prog s)
      ∙ append_assoc (programs_of ch s.by_channel) (for_channel ch k prog [])
          (candidates_of ch progs)
      ∙ ap (λ l. programs_of ch s.by_channel ++ l)
          (for_channel-append ch k prog (candidates_of ch progs))

  counted-sort_programs :
      (progs : List Program) (s : Sorting)
      → counted (sort_programs c u channel_map now progs s) ≡ counted s + length progs
  unfolding sort_programs
  counted-sort_programs [] s = omega arith
  counted-sort_programs (prog ∷ progs) s =
      let k = classify c u channel_map now prog in
      omega (arith, counted-sort_programs progs (sort_in k prog s), counted-sort_in k prog s)

  pub sort_programs-IsNodup :
      (progs : List Program) (s : Sorting)
      → IsNodup (channels_of s.by_channel)
      → IsNodup (channels_of (sort_programs c u channel_map now progs s).by_channel)
  unfolding sort_programs
  sort_programs-IsNodup [] s h = h
  sort_programs-IsNodup (prog ∷ progs) s h =
      let k = classify c u channel_map now prog in
      sort_programs-IsNodup progs (sort_in k prog s) (sort_in-IsNodup k prog s h)

  -- From no groups, every broadcast is counted as rebroadcast, out of the window or unmapped, or is
  -- grouped, and only once; no channel has two groups; and the group of a channel is the list of the
  -- broadcasts that pass every guard and belong to it, in their order.
  pub sort_programs_lem :
      (progs : List Program) (s : Sorting)
      → s.by_channel ≡ []
      → let r = sort_programs c u channel_map now progs s in
        (counted r ≡ counted s + length progs)
        × IsNodup (channels_of r.by_channel)
        × ((ch : ℕ) → programs_of ch r.by_channel ≡ candidates_of ch progs)
  sort_programs_lem progs s none_yet = (
    counted-sort_programs progs s,
    sort_programs-IsNodup progs s (unfold channels_of in rw none_yet tt),
    λ ch.
        programs_of-sort_programs ch progs s
        ∙ ap (λ m. programs_of ch m ++ candidates_of ch progs) none_yet
        ∙ (unfold programs_of in refl),
  )
