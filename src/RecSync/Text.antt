-- ===== src/RecSync/Text.antt =====
-- `normalize` of docker/annict-rec-sync/sync.py, and Python's `in` on texts. A text is the list of
-- its code points.
use my_infra.Prelude.{
  ℕ, Bool, true, false, ◌&&◌, ◌||◌, List, [], ◌∷◌, ◌≡◌, ◌↔◌, arith, Eq, ◌==◌, nat_eq, if◌then◌else◌,
}

abbrev pub Text : Type 0
Text = List ℕ

-- The tables of Unicode, which Python brings: `unicodedata.normalize("NFKC", ·)` and `str.lower`.
pub record Unicode : Type 0 where
  pub nfkc : Text → Text
  pub lower : Text → Text

-- `s.replace(c, "")` for one code point `c`
pub remove : ℕ → Text → Text
remove c [] = []
remove c (x ∷ s) = let rest = remove c s in if x == c then rest else x ∷ rest

-- A space is U+0020, and the ideographic space is U+3000.
unfoldable pub normalize : Unicode → Text → Text
unfolding remove
normalize u s = u.lower (remove 0x3000 (remove 0x20 (u.nfkc s)))

unfoldable pub starts_with : Text → Text → Bool
starts_with [] s = true
starts_with (x ∷ w) [] = false
starts_with (x ∷ w) (y ∷ s) = x == y && starts_with w s

-- `w in s`
unfoldable pub is_substring : Text → Text → Bool
unfolding starts_with
is_substring [] s = true
is_substring (x ∷ w) [] = false
is_substring (x ∷ w) (y ∷ s) = starts_with (x ∷ w) (y ∷ s) || is_substring (x ∷ w) s

-- `==` on texts.
pub text_beq : Text → Text → Bool
text_beq [] [] = true
text_beq [] (y ∷ t) = false
text_beq (x ∷ s) [] = false
text_beq (x ∷ s) (y ∷ t) = x == y && text_beq s t

pub text_beq_iff : (s t : Text) → (text_beq s t ≡ true) ↔ (s ≡ t)
unfolding text_beq
text_beq_iff [] [] = ground arith
text_beq_iff [] (y ∷ t) = ground arith
text_beq_iff (x ∷ s) [] = ground arith
text_beq_iff (x ∷ s) (y ∷ t) = ground (arith, text_beq_iff s t)

instance unfoldable pub text_eq : Eq Text
unfolding text_beq
text_eq = record { same = text_beq; same_iff = text_beq_iff }

abbrev pub is_empty : Text → Bool
is_empty [] = true
is_empty (x ∷ s) = false
