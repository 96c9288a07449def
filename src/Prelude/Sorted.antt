-- ===== src/Prelude/Sorted.antt =====
-- Python's `sorted` on pairs of texts. Texts are compared by their code points, as Python does.
pub mod Commute
use Prim.Native.Char.{code}
use my_infra.Prelude.{
  Bool, true, false, ◌&&◌, ◌||◌, List, [], ◌∷◌, String, ◌==◌, nat_eq, string_eq, ltb, if◌then◌else◌,
}

-- `s <= t`
unfoldable pub text_leb : String → String → Bool
text_leb String.[] t = true
text_leb (String.◌∷◌ c s) String.[] = false
text_leb (String.◌∷◌ c s) (String.◌∷◌ d t) =
    ltb (code c) (code d) || (code c == code d && text_leb s t)

abbrev pub Pair : Type 0
Pair = String × String

-- `(a, b) <= (c, d)`
abbrev pub pair_leb : Pair → Pair → Bool
pair_leb (a, b) (c, d) = if a == c then text_leb b d else text_leb a c

unfoldable pub insert_pair : Pair → List Pair → List Pair
insert_pair p [] = p ∷ []
insert_pair p (q ∷ qs) = if pair_leb p q then p ∷ q ∷ qs else q ∷ insert_pair p qs

unfoldable pub sort_pairs : List Pair → List Pair
unfolding insert_pair text_leb
sort_pairs [] = []
sort_pairs (p ∷ ps) = insert_pair p (sort_pairs ps)
