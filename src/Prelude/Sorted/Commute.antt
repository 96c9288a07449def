-- ===== src/Prelude/Sorted/Commute.antt =====
-- The order of pairs of texts is total, and two insertions into a list may be swapped.
use Prim.Native.Char.{Char, code}
use my_infra.Prelude.{
  ℕ, ◌≡◌, refl, ap, ◌∙◌, sym, Bool, true, false, ◌&&◌, ◌||◌, List, [], ◌∷◌, String, arith, ◌==◌,
  nat_eq, string_eq, ltb, Bool-cases, inl, inr,
}
use text.Mathlib.TextEquality.{Char-path, eq_iff}
use my_infra.Prelude.Sorted.{text_leb, Pair, pair_leb, insert_pair}

text_leb_total : (s t : String) → text_leb s t ≡ false → text_leb t s ≡ true
unfolding text_leb
text_leb_total String.[] t h = absurd cc
text_leb_total (String.◌∷◌ c s) String.[] h = refl
text_leb_total (String.◌∷◌ c s) (String.◌∷◌ d t) h = ground (arith, text_leb_total s t, h)

head_same :
    (m n : ℕ) (a b : Bool)
    → (ltb m n || (m == n && a)) ≡ true
    → (ltb n m || (n == m && b)) ≡ true
    → (m ≡ n) × (a ≡ true) × (b ≡ true)
head_same m n a b h k = ground arith

cons_same : (c d : Char) (s t : String) → c ≡ d → s ≡ t → String.◌∷◌ c s ≡ String.◌∷◌ d t
cons_same c d s t p q = cc

text_leb_antisym : (s t : String) → text_leb s t ≡ true → text_leb t s ≡ true → s ≡ t
unfolding text_leb
text_leb_antisym String.[] String.[] h k = refl
text_leb_antisym String.[] (String.◌∷◌ d t) h k = absurd cc
text_leb_antisym (String.◌∷◌ c s) String.[] h k = absurd cc
text_leb_antisym (String.◌∷◌ c s) (String.◌∷◌ d t) h k =
    let e = head_same (code c) (code d) (text_leb s t) (text_leb t s) h k in
    cons_same c d s t (Char-path c d e.0) (text_leb_antisym s t e.1 e.2)

text_leb_trans : (s t u : String) → text_leb s t ≡ true → text_leb t u ≡ true → text_leb s u ≡ true
unfolding text_leb
text_leb_trans String.[] t u h k = refl
text_leb_trans (String.◌∷◌ c s) String.[] u h k = absurd cc
text_leb_trans (String.◌∷◌ c s) (String.◌∷◌ d t) String.[] h k = absurd cc
text_leb_trans (String.◌∷◌ c s) (String.◌∷◌ d t) (String.◌∷◌ e u) h k =
    ground (arith, text_leb_trans s t u, h, k)

pair_leb_total : (p q : Pair) → pair_leb p q ≡ false → pair_leb q p ≡ true
pair_leb_total (a, b) (c, d) h =
    ground (arith, eq_iff a c, eq_iff c a, text_leb_total b d, text_leb_total a c, h)

pair_leb_antisym : (p q : Pair) → pair_leb p q ≡ true → pair_leb q p ≡ true → p ≡ q
pair_leb_antisym (a, b) (c, d) h k =
    ground (arith, eq_iff a c, eq_iff c a, text_leb_antisym b d, text_leb_antisym a c, h, k)

pair_leb_trans : (p q r : Pair) → pair_leb p q ≡ true → pair_leb q r ≡ true → pair_leb p r ≡ true
pair_leb_trans (a, b) (c, d) (e, f) h k = ground (
  arith,
  eq_iff a c,
  eq_iff c e,
  eq_iff a e,
  text_leb_trans b d f,
  text_leb_trans a c e,
  text_leb_antisym a c,
  h,
  k,
)

insert_pair_before :
    (p q : Pair) (rs : List Pair)
    → pair_leb p q ≡ true
    → pair_leb q p ≡ false
    → insert_pair p (insert_pair q rs) ≡ insert_pair q (insert_pair p rs)
unfolding insert_pair
insert_pair_before p q [] a b = rw (insert_pair, a, b) refl
insert_pair_before p q (r ∷ rs) a b = elim (Bool-cases (pair_leb q r)) [
  | inl c ↦ rw (insert_pair, c, pair_leb_trans p q r a c, a, b) (rw (c) refl)
  | inr c ↦ elim (Bool-cases (pair_leb p r)) [
    | inl d ↦ rw (insert_pair, c, d) (rw (b, c) refl)
    | inr d ↦ rw (insert_pair, c, d) (rw (c) (ap (λ l. r ∷ l) (insert_pair_before p q rs a b)))
  ]
]

pub insert_pair_swap :
    (p q : Pair) (rs : List Pair)
    → insert_pair p (insert_pair q rs) ≡ insert_pair q (insert_pair p rs)
insert_pair_swap p q rs = elim (Bool-cases (pair_leb p q)) [
  | inl a ↦ elim (Bool-cases (pair_leb q p)) [
    | inl b ↦
        let e = pair_leb_antisym p q a b in
        ap (λ x. insert_pair x (insert_pair q rs)) e
        ∙ sym (ap (λ x. insert_pair q (insert_pair x rs)) e)
    | inr b ↦ insert_pair_before p q rs a b
  ]
  | inr a ↦ elim (Bool-cases (pair_leb q p)) [
    | inl b ↦ sym (insert_pair_before q p rs b a)
    | inr b ↦ absurd (cc (b, pair_leb_total p q a))
  ]
]
