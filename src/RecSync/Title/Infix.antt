-- ===== src/RecSync/Title/Infix.antt =====
-- Substrings: what Python's `in` decides, and texts read backwards.
use my_infra.Prelude.{
  ◌+◌, ◌≤◌, ◌≡◌, refl, sym, ap, ◌∙◌, ◌↔◌, true, inl, inr, [], ◌∷◌, ◌++◌, arith, nat_eq, length,
  length-append, Bool-cases,
}
use mathlib.Core.List.{append-nil, append_assoc}
use my_infra.RecSync.Text.{Text, starts_with, is_substring}

-- `w` stands in `s` as one block.
abbrev pub IsInfix : Text → Text → Type 0
IsInfix w s = (p : Text) × (q : Text) × (s ≡ p ++ (w ++ q))

pub IsInfix-refl : (s : Text) → IsInfix s s
IsInfix-refl s = ([], [], sym (append-nil s))

starts_with_sound : (w s : Text) → starts_with w s ≡ true → (q : Text) × (s ≡ w ++ q)
unfolding starts_with
starts_with_sound [] s h = (s, refl)
starts_with_sound (x ∷ w) [] h = ground arith
starts_with_sound (x ∷ w) (y ∷ s) h =
    let (q, e) = starts_with_sound w s (ground arith) in (q, ground (arith, e))

starts_with-append : (w q : Text) → starts_with w (w ++ q) ≡ true
unfolding starts_with
starts_with-append [] q = refl
starts_with-append (x ∷ w) q = ground (arith, starts_with-append w q)

is_substring_sound : (w s : Text) → is_substring w s ≡ true → IsInfix w s
unfolding is_substring
is_substring_sound [] s h = ([], s, refl)
is_substring_sound (x ∷ w) [] h = ground arith
is_substring_sound (x ∷ w) (y ∷ s) h = elim (Bool-cases (starts_with (x ∷ w) (y ∷ s))) [
  | inl here ↦ let (q, e) = starts_with_sound (x ∷ w) (y ∷ s) here in ([], q, e)
  | inr there ↦
      let (p, q, e) = is_substring_sound (x ∷ w) s (ground (arith, there)) in
      (y ∷ p, q, ap (λ t. y ∷ t) e)
]

is_substring-append : (w p q : Text) → is_substring w (p ++ (w ++ q)) ≡ true
unfolding is_substring
is_substring-append [] p q = refl
is_substring-append (x ∷ w) [] q = ground (arith, starts_with-append (x ∷ w) q)
is_substring-append (x ∷ w) (y ∷ p) q = ground (arith, is_substring-append (x ∷ w) p q)

-- Python's `in` finds exactly the substrings.
pub is_substring_iff : (w s : Text) → (is_substring w s ≡ true) ↔ IsInfix w s
is_substring_iff w s = (is_substring_sound w s, λ (p, q, e). rw e (is_substring-append w p q))

-- A substring that is not shorter is the whole text.
pub eq_of_IsInfix : (w s : Text) → IsInfix w s → length s ≤ length w → w ≡ s
eq_of_IsInfix w s ([], [], e) h = sym (e ∙ append-nil w)
eq_of_IsInfix w s ([], x ∷ q, e) h = absurd (omega (arith, ap length e, length-append w (x ∷ q)))
eq_of_IsInfix w s (x ∷ p, q, e) h =
    absurd (omega (arith, ap length e, length-append (x ∷ p) (w ++ q), length-append w q))

-- `w` backwards, in front of `s`
abbrev pub rev_onto : Text → Text → Text
rev_onto [] s = s
rev_onto (x ∷ w) s = rev_onto w (x ∷ s)

pub rev_onto-append : (w v s : Text) → rev_onto (w ++ v) s ≡ rev_onto v (rev_onto w s)
rev_onto-append [] v s = refl
rev_onto-append (x ∷ w) v s = rev_onto-append w v (x ∷ s)

pub rev_onto_split : (w s t : Text) → rev_onto w (s ++ t) ≡ rev_onto w s ++ t
rev_onto_split [] s t = refl
rev_onto_split (x ∷ w) s t = rev_onto_split w (x ∷ s) t

pub rev_onto-rev_onto : (w s t : Text) → rev_onto (rev_onto w s) t ≡ rev_onto s (w ++ t)
rev_onto-rev_onto [] s t = refl
rev_onto-rev_onto (x ∷ w) s t = rev_onto-rev_onto w (x ∷ s) t

pub length-rev_onto : (w s : Text) → length (rev_onto w s) ≡ length w + length s
length-rev_onto [] s = omega arith
length-rev_onto (x ∷ w) s = omega (arith, length-rev_onto w (x ∷ s))

-- If `a` begins with `p`, and `p` read backwards begins with `w`, then `w` backwards stands in `a`.
pub IsInfix-rev_onto : (p q w u : Text) → rev_onto p [] ≡ w ++ u → IsInfix (rev_onto w []) (p ++ q)
IsInfix-rev_onto p q w u e =
    (rev_onto u [], q, ap (λ t. t ++ q) whole ∙ append_assoc (rev_onto u []) (rev_onto w []) q)
  where
    back : p ≡ rev_onto (w ++ u) []
    back = sym (append-nil p) ∙ sym (rev_onto-rev_onto p [] []) ∙ ap (λ t. rev_onto t []) e

    whole : p ≡ rev_onto u [] ++ rev_onto w []
    whole = back ∙ rev_onto-append w u [] ∙ rev_onto_split u [] (rev_onto w [])
