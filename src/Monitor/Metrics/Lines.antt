-- ===== src/Monitor/Metrics/Lines.antt =====
-- `render` of docker/home-service-monitor/monitor.py writes one line for each sample.
use my_infra.Prelude.{
  ℕ, ◌≡◌, refl, List, [], ◌∷◌, ◌++◌, map, ◌==◌, nat_eq, All, All-append, if◌then◌else◌, Bool-cases,
  inl, inr,
}
use mathlib.Core.List.{append_assoc}
use my_infra.Prelude.Sorted.{Pair, pair_leb, insert_pair, sort_pairs}
use my_infra.Monitor.Metrics.{
  Text, text, Value, Sample, Metrics, quote, join_labels, render_sample, render_all, render,
}
use my_infra.Monitor.Metrics.Quote.{InLine, quote_one_line}

abbrev push : ℕ → List Text → List Text
push c [] = (c ∷ []) ∷ []
push c (l ∷ ls) = (c ∷ l) ∷ ls

-- `s.split('\n')`
pub split_lines : Text → List Text
split_lines [] = [] ∷ []
split_lines (c ∷ s) = let rest = split_lines s in if c == b'\n' then [] ∷ rest else push c rest

split_lines-append :
    (s rest : Text) → All InLine s → split_lines (s ++ (b'\n' ∷ rest)) ≡ s ∷ split_lines rest
unfolding split_lines
split_lines-append [] rest h = refl
split_lines-append (c ∷ s) rest h = rw (h.0, split_lines-append s rest h.1) refl

insert_pair-All :
    (P : Pair → Type 0) (p : Pair) (ps : List Pair) → P p → All P ps → All P (insert_pair p ps)
unfolding insert_pair
insert_pair-All P p [] h hs = (h, hs)
insert_pair-All P p (q ∷ ps) h hs = elim (Bool-cases (pair_leb p q)) [
  | inl e ↦ rw (insert_pair, e) (h, hs)
  | inr e ↦ rw (insert_pair, e) (hs.0, insert_pair-All P p ps h hs.1)
]

sort_pairs-All : (P : Pair → Type 0) (ps : List Pair) → All P ps → All P (sort_pairs ps)
unfolding sort_pairs
sort_pairs-All P [] h = tt
sort_pairs-All P (p ∷ ps) h = insert_pair-All P p (sort_pairs ps) h.0 (sort_pairs-All P ps h.1)

abbrev KeyPlain : Pair → Type 0
KeyPlain l = All InLine (text l.0)

join_labels-InLine : (ls : List Pair) → All KeyPlain ls → All InLine (join_labels ls)
unfolding join_labels
join_labels-InLine [] h = tt
join_labels-InLine ((k, v) ∷ []) h =
    All-append InLine (text k) (b'=' ∷ quote (text v)) h.0 (refl, quote_one_line (text v))
join_labels-InLine ((k, v) ∷ l ∷ ls) h =
    All-append InLine (text k) (b'=' ∷ (quote (text v) ++ (b',' ∷ join_labels (l ∷ ls)))) h.0 (
      refl,
      All-append InLine (quote (text v)) (b',' ∷ join_labels (l ∷ ls)) (quote_one_line (text v))
          (refl, join_labels-InLine (l ∷ ls) h.1),
    )

-- Without its line end.
module _ (show : Value → Text) where
  abbrev pub line_of : Sample → Text
  line_of s =
      text s.name ++ (b'{' ∷ (join_labels (sort_pairs s.labels) ++ (b'}' ∷ b' ' ∷ show s.value)))

  -- The names hold no line end; the values of the labels may.
  abbrev pub NamesPlain : Sample → Type 0
  NamesPlain s = All InLine (text s.name) × All (λ l. All InLine (text l.0)) s.labels

  module _ (plain : (v : Value) → All InLine (show v)) where
    line_of-InLine : (s : Sample) → NamesPlain s → All InLine (line_of s)
    line_of-InLine s h =
        All-append InLine (text s.name)
          (b'{' ∷ (join_labels (sort_pairs s.labels) ++ (b'}' ∷ b' ' ∷ show s.value))) h.0
          (
            refl,
            All-append InLine (join_labels (sort_pairs s.labels)) (b'}' ∷ b' ' ∷ show s.value)
                (join_labels-InLine (sort_pairs s.labels) (sort_pairs-All KeyPlain s.labels h.1))
                (refl, (refl, plain s.value)),
          )

    render_sample_line :
        (s : Sample) (rest : Text) → render_sample show s ++ rest ≡ line_of s ++ (b'\n' ∷ rest)
    unfolding render_sample
    render_sample_line s rest = simp append_assoc

    render_all_lines :
        (samples : List Sample)
        → All NamesPlain samples
        → split_lines (render_all show samples) ≡ map line_of samples ++ ([] ∷ [])
    unfolding render_all split_lines
    render_all_lines [] h = refl
    render_all_lines (s ∷ samples) h =
        rw
          (
            render_sample_line s (render_all show samples),
            split_lines-append (line_of s) (render_all show samples) (line_of-InLine s h.0),
            render_all_lines samples h.1,
          )
          refl

-- Where the names of metrics and labels and the numbers hold no line end, what is written has one
-- line for each sample, in their order, and nothing else, whatever the values of the labels are.
pub render_lines :
    (show : Value → Text) (m : Metrics)
    → ((v : Value) → All InLine (show v))
    → All (NamesPlain show) m.samples
    → split_lines (render show m) ≡ map (line_of show) m.samples ++ ([] ∷ [])
unfolding render
render_lines show m plain names = render_all_lines show plain m.samples names
