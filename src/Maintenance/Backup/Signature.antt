-- ===== src/Maintenance/Backup/Signature.antt =====
-- `backup_signature` of ansible/host-maintenance/files/maintenance-agent.py: the options of a backup
-- but `--quiet`, sorted. Texts are compared by their code points, as Python does.
pub mod Same
use Prim.Native.Char.{code}
use my_infra.Prelude.Sorted.{Pair, sort_pairs}
use my_infra.Prelude.{
  Bool, true, false, ◌&&◌, ◌||◌, List, [], ◌∷◌, String, ◌==◌, nat_eq, string_eq, ltb, if◌then◌else◌,
}

-- `zip(arguments[::2], arguments[1::2])`
unfoldable pub pairs : List String → List Pair
pairs [] = []
pairs (a ∷ []) = []
pairs (a ∷ b ∷ rest) = (a, b) ∷ pairs rest

unfoldable pub without_quiet : List Pair → List Pair
without_quiet [] = []
without_quiet ((option, value) ∷ ps) =
    let rest = without_quiet ps in if option == "--quiet" then rest else (option, value) ∷ rest

unfoldable pub backup_signature : List String → List Pair
unfolding pairs without_quiet sort_pairs
backup_signature arguments = sort_pairs (without_quiet (pairs arguments))

abbrev pub pair_eqb : Pair → Pair → Bool
pair_eqb (a, b) (c, d) = a == c && b == d

abbrev pub pairs_eqb : List Pair → List Pair → Bool
pairs_eqb [] [] = true
pairs_eqb [] (q ∷ qs) = false
pairs_eqb (p ∷ ps) [] = false
pairs_eqb (p ∷ ps) (q ∷ qs) = pair_eqb p q && pairs_eqb ps qs

-- `backup_signature(a) == backup_signature(b)`
unfoldable pub same_signature : List String → List String → Bool
same_signature a b = pairs_eqb (backup_signature a) (backup_signature b)
