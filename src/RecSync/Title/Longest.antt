-- ===== src/RecSync/Title/Longest.antt =====
-- `_longest_common_substring_len` against its description: the length of a longest text that stands
-- in both arguments.
use my_infra.Prelude.{
  ℕ, ◌+◌, ◌≤◌, ◌≡◌, refl, sym, ap, ◌∙◌, inl, inr, List, [], ◌∷◌, ◌++◌, All, arith, ◌==◌, nat_eq,
  ltb, if◌then◌else◌, length, Bool-cases,
}
use mathlib.Core.List.{append_assoc}
use native.Mathlib.Numerals.{add-one}
use my_infra.RecSync.Text.{Text}
use my_infra.RecSync.Title.{zeros, row, rows, longest_common_substring_len}
use my_infra.RecSync.Title.Infix.{
  IsInfix, rev_onto, rev_onto-append, length-rev_onto, IsInfix-rev_onto,
}

-- How many characters two texts have in common at their beginning.
abbrev common : Text → Text → ℕ
common [] t = 0
common (x ∷ s) [] = 0
common (x ∷ s) (y ∷ t) = if x == y then common s t + 1 else 0

-- The entries of a row behind the first: for each prefix of `b`, read backwards onto `rb`, what it
-- has in common with `ra`, the prefix of `a` read backwards.
abbrev cells : Text → Text → Text → List ℕ
cells ra rb [] = []
cells ra rb (c ∷ b) = common ra (c ∷ rb) ∷ cells ra (c ∷ rb) b

abbrev best_of : ℕ → List ℕ → ℕ
best_of best [] = best
best_of best (k ∷ ks) = best_of (if ltb best k then k else best) ks

abbrev best_rows : Text → Text → Text → ℕ → ℕ
best_rows ra [] b best = best
best_rows ra (x ∷ a) b best = best_rows (x ∷ ra) a b (best_of best (cells (x ∷ ra) [] b))

row_lem :
    (ca : ℕ) (b ra rb : Text) (best : ℕ)
    → row ca b (common ra rb ∷ cells ra rb b) best
      ≡ (cells (ca ∷ ra) rb b, best_of best (cells (ca ∷ ra) rb b))
unfolding row
row_lem ca [] ra rb best = refl
row_lem ca (cb ∷ b) ra rb best =
    ground (arith, row_lem ca b ra (cb ∷ rb) best, row_lem ca b ra (cb ∷ rb) (common ra rb + 1))

rows_lem :
    (a b ra : Text) (best : ℕ)
    → rows a b (common ra [] ∷ cells ra [] b) best ≡ best_rows ra a b best
unfolding rows
rows_lem [] b ra best = refl
rows_lem (ca ∷ a) b ra best =
    rw (row_lem ca b ra [] best, rows)
      (rows_lem a b (ca ∷ ra) (best_of best (cells (ca ∷ ra) [] b)))

cells-nil : (b rb : Text) → zeros (length b) ≡ cells [] rb b
unfolding zeros
cells-nil [] rb = refl
cells-nil (c ∷ b) rb = ap (λ t. 0 ∷ t) (cells-nil b (c ∷ rb))

zeros-add-one : (n : ℕ) → zeros (n + 1) ≡ 0 ∷ zeros n
unfolding zeros
zeros-add-one n = rw add-one

-- The function is the largest entry of the table.
longest-eq-best : (a b : Text) → longest_common_substring_len a b ≡ best_rows [] a b 0
unfolding longest_common_substring_len
longest-eq-best [] b = refl
longest-eq-best (x ∷ a) [] = no_columns a (x ∷ [])
  where
    no_columns : (a ra : Text) → 0 ≡ best_rows ra a [] 0
    no_columns [] ra = refl
    no_columns (y ∷ a) ra = no_columns a (y ∷ ra)
longest-eq-best (x ∷ a) (y ∷ b) =
    rw (zeros-add-one (length (y ∷ b)), cells-nil (y ∷ b) []) (rows_lem (x ∷ a) (y ∷ b) [] 0)

-- What two texts have in common at their beginning, cut off.
common_split :
    (s t : Text)
    → (w : Text) × (u : Text) × (v : Text) × (s ≡ w ++ u) × (t ≡ w ++ v) × (length w ≡ common s t)
common_split [] t = ([], [], t, refl, refl, refl)
common_split (x ∷ s) [] = ([], x ∷ s, [], refl, refl, refl)
common_split (x ∷ s) (y ∷ t) = elim (Bool-cases (x == y)) [
  | inl same ↦
      let (w, u, v, p, q, r) = common_split s t in
      (
        x ∷ w,
        u,
        v,
        ap (λ l. x ∷ l) p,
        ground (arith, same, q),
        rw (same, common) (omega (arith, r)),
      )
  | inr differ ↦ ([], x ∷ s, y ∷ t, refl, refl, rw (differ, common))
]

-- A text that stands in both arguments and has the length `n`.
abbrev pub CommonSubstring : Text → Text → ℕ → Type 0
CommonSubstring a b n = (w : Text) × IsInfix w a × IsInfix w b × (length w ≡ n)

common-CommonSubstring :
    (a₁ a₂ b₁ b₂ : Text)
    → CommonSubstring (a₁ ++ a₂) (b₁ ++ b₂) (common (rev_onto a₁ []) (rev_onto b₁ []))
common-CommonSubstring a₁ a₂ b₁ b₂ =
    let (w, u, v, p, q, r) = common_split (rev_onto a₁ []) (rev_onto b₁ []) in
    (
      rev_onto w [],
      IsInfix-rev_onto a₁ a₂ w u p,
      IsInfix-rev_onto b₁ b₂ w v q,
      omega (arith, length-rev_onto w [], r),
    )

shift : (B b₁ b₂ : Text) (c : ℕ) → B ≡ b₁ ++ c ∷ b₂ → B ≡ (b₁ ++ c ∷ []) ++ b₂
shift B b₁ b₂ c e = e ∙ sym (append_assoc b₁ (c ∷ []) b₂)

shift_back : (b₁ rb : Text) (c : ℕ) → rb ≡ rev_onto b₁ [] → c ∷ rb ≡ rev_onto (b₁ ++ c ∷ []) []
shift_back b₁ rb c e = ap (λ t. c ∷ t) e ∙ sym (rev_onto-append b₁ (c ∷ []) [])

module _ (A B : Text) where
  cells_common :
      (b₂ b₁ a₁ a₂ ra rb : Text)
      → A ≡ a₁ ++ a₂
      → ra ≡ rev_onto a₁ []
      → B ≡ b₁ ++ b₂
      → rb ≡ rev_onto b₁ []
      → All (CommonSubstring A B) (cells ra rb b₂)
  cells_common [] b₁ a₁ a₂ ra rb eA ea eB eb = tt
  cells_common (c ∷ b₂) b₁ a₁ a₂ ra rb eA ea eB eb =
      let eB' = shift B b₁ b₂ c eB in
      let eb' = shift_back b₁ rb c eb in
      (
        rw (eA, ea, eb', eB') (common-CommonSubstring a₁ a₂ (b₁ ++ c ∷ []) b₂),
        cells_common b₂ (b₁ ++ c ∷ []) a₁ a₂ ra (c ∷ rb) eA ea eB' eb',
      )

  best_of_common :
      (ks : List ℕ) (best : ℕ)
      → CommonSubstring A B best
      → All (CommonSubstring A B) ks
      → CommonSubstring A B (best_of best ks)
  best_of_common [] best h hs = h
  best_of_common (k ∷ ks) best h hs = elim (Bool-cases (ltb best k)) [
    | inl larger ↦ rw larger (best_of_common ks k hs.0 hs.1)
    | inr not_larger ↦ rw not_larger (best_of_common ks best h hs.1)
  ]

  best_rows_common :
      (a₂ a₁ ra : Text) (best : ℕ)
      → A ≡ a₁ ++ a₂
      → ra ≡ rev_onto a₁ []
      → CommonSubstring A B best
      → CommonSubstring A B (best_rows ra a₂ B best)
  best_rows_common [] a₁ ra best eA ea h = h
  best_rows_common (x ∷ a₂) a₁ ra best eA ea h =
      let eA' = shift A a₁ a₂ x eA in
      let ea' = shift_back a₁ ra x ea in
      best_rows_common a₂ (a₁ ++ x ∷ []) (x ∷ ra) (best_of best (cells (x ∷ ra) [] B)) eA' ea' (
        best_of_common (cells (x ∷ ra) [] B) best h
          (cells_common B [] (a₁ ++ x ∷ []) a₂ (x ∷ ra) [] eA' ea' refl refl))

-- A common substring of the returned length exists.
pub longest_is_common : (a b : Text) → CommonSubstring a b (longest_common_substring_len a b)
longest_is_common a b =
    rw (longest-eq-best a b)
      (best_rows_common a b a [] [] 0 refl refl ([], ([], a, refl), ([], b, refl), refl))

best_of_grows : (ks : List ℕ) (best : ℕ) → best ≤ best_of best ks
best_of_grows [] best = omega arith
best_of_grows (k ∷ ks) best = ground (arith, best_of_grows ks best, best_of_grows ks k)

best_rows_grows : (a ra b : Text) (best : ℕ) → best ≤ best_rows ra a b best
best_rows_grows [] ra b best = omega arith
best_rows_grows (x ∷ a) ra b best = omega (
  arith,
  best_of_grows (cells (x ∷ ra) [] b) best,
  best_rows_grows a (x ∷ ra) b (best_of best (cells (x ∷ ra) [] b)),
)

-- Every entry is below the best: the entry for the prefix `c ∷ b₁` of `b`.
cell-le-best :
    (b₁ b₂ ra rb : Text) (c best : ℕ)
    → common ra (rev_onto (c ∷ b₁) rb) ≤ best_of best (cells ra rb (c ∷ b₁ ++ b₂))
cell-le-best [] b₂ ra rb c best =
    let k = common ra (c ∷ rb) in
    ground
      (arith, best_of_grows (cells ra (c ∷ rb) b₂) k, best_of_grows (cells ra (c ∷ rb) b₂) best)
cell-le-best (d ∷ b₁) b₂ ra rb c best =
    cell-le-best b₁ b₂ ra (c ∷ rb) d
      (if ltb best (common ra (c ∷ rb)) then common ra (c ∷ rb) else best)

entry-le-best :
    (a₁ a₂ ra b₁ b₂ : Text) (x c best : ℕ)
    → common (rev_onto (x ∷ a₁) ra) (rev_onto (c ∷ b₁) [])
      ≤ best_rows ra (x ∷ a₁ ++ a₂) (c ∷ b₁ ++ b₂) best
entry-le-best [] a₂ ra b₁ b₂ x c best =
    let b = c ∷ b₁ ++ b₂ in
    omega (
      arith,
      cell-le-best b₁ b₂ (x ∷ ra) [] c best,
      best_rows_grows a₂ (x ∷ ra) b (best_of best (cells (x ∷ ra) [] b)),
    )
entry-le-best (y ∷ a₁) a₂ ra b₁ b₂ x c best =
    entry-le-best a₁ a₂ (x ∷ ra) b₁ b₂ y c (best_of best (cells (x ∷ ra) [] (c ∷ b₁ ++ b₂)))

length-le-common : (w s t : Text) → length w + common s t ≤ common (rev_onto w s) (rev_onto w t)
length-le-common [] s t = omega arith
length-le-common (x ∷ w) s t = omega (arith, length-le-common w (x ∷ s) (x ∷ t), common_same x s t)
  where
    common_same : (x : ℕ) (s t : Text) → common (x ∷ s) (x ∷ t) ≡ common s t + 1
    common_same x s t = ground arith

common-nil : (s : Text) → common s [] ≡ 0
common-nil [] = refl
common-nil (x ∷ s) = refl

prefixes-le-longest :
    (s a t b : Text)
    → common (rev_onto s []) (rev_onto t []) ≤ longest_common_substring_len (s ++ a) (t ++ b)
prefixes-le-longest [] a t b = omega arith
prefixes-le-longest (x ∷ s) a [] b = omega (arith, common-nil (rev_onto (x ∷ s) []))
prefixes-le-longest (x ∷ s) a (c ∷ t) b =
    rw (longest-eq-best (x ∷ s ++ a) (c ∷ t ++ b)) (entry-le-best s a [] t b x c 0)

-- No common substring is longer than the returned length.
pub longest_is_largest :
    (a b w : Text) → IsInfix w a → IsInfix w b → length w ≤ longest_common_substring_len a b
longest_is_largest a b w (p, q, ea) (r, t, eb) =
    rw (← sym (cut p q a ea), ← sym (cut r t b eb)) whole
  where
    cut : (p q a : Text) → a ≡ p ++ (w ++ q) → a ≡ (p ++ w) ++ q
    cut p q a e = e ∙ sym (append_assoc p w q)

    bound : length w ≤ common (rev_onto (p ++ w) []) (rev_onto (r ++ w) [])
    bound =
        rw (rev_onto-append p w [], rev_onto-append r w [])
          (omega (arith, length-le-common w (rev_onto p []) (rev_onto r [])))

    whole : length w ≤ longest_common_substring_len ((p ++ w) ++ q) ((r ++ w) ++ t)
    whole = omega (arith, bound, prefixes-le-longest (p ++ w) q (r ++ w) t)

-- The result is the length of a text that stands in both arguments, and no text that stands in both
-- is longer.
pub longest_common_substring_len_lem :
    (a b : Text)
    → CommonSubstring a b (longest_common_substring_len a b)
      × ((w : Text) → IsInfix w a → IsInfix w b → length w ≤ longest_common_substring_len a b)
longest_common_substring_len_lem a b = (longest_is_common a b, longest_is_largest a b)
