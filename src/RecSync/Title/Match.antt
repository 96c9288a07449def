-- ===== src/RecSync/Title/Match.antt =====
-- What `title_matches` decides.
use Prim.Native.Nat.{min}
use my_infra.Prelude.{
  ℕ, ◌≤◌, ◌≡◌, refl, ◌≢◌, ◌↔◌, true, [], ◌∷◌, arith, leb, length, Bool-cases, inl, inr, leb→le,
  le→leb, subst,
}
use my_infra.RecSync.Text.{Text, Unicode, normalize, is_substring}
use my_infra.RecSync.Title.{longest_common_substring_len, same_title, title_matches}
use my_infra.RecSync.Title.Infix.{IsInfix, IsInfix-refl, is_substring_iff, eq_of_IsInfix}
use my_infra.RecSync.Title.Longest.{longest_is_common, longest_is_largest}

-- Neither text is empty, and a text of `min_chars` characters, or all of `w` if that is shorter,
-- stands in both.
pub record SameTitle (min_chars : ℕ) (w p : Text) : Type 0 where
  pub work_nonempty : w ≢ []
  pub program_nonempty : p ≢ []
  pub shared : (s : Text) × IsInfix s w × IsInfix s p × (min (length w) min_chars ≤ length s)

nonempty : (x : ℕ) (s : Text) → x ∷ s ≢ []
nonempty x s e = cc

module _ (min_chars x : ℕ) (w : Text) (y : ℕ) (p : Text) where
  abbrev work : Text
  work = x ∷ w

  abbrev program : Text
  program = y ∷ p

  short_iff :
      length work ≤ min_chars
      → (is_substring work program ≡ true) ↔ SameTitle min_chars work program
  short_iff short = (
    λ found. record {
      work_nonempty = nonempty x w;
      program_nonempty = nonempty y p;
      shared = (work, IsInfix-refl work, (is_substring_iff work program).0 found, omega arith);
    },
    λ same.
        let (s, in_work, in_program, long) = same.shared in
        let e : s ≡ work = eq_of_IsInfix s work in_work (omega arith) in
        (is_substring_iff work program).1 (subst (λ t. IsInfix t program) e in_program),
  )

  long_iff :
      min_chars ≤ length work
      → (leb min_chars (longest_common_substring_len work program) ≡ true)
        ↔ SameTitle min_chars work program
  long_iff long = (
    λ enough.
        let (s, in_work, in_program, e) = longest_is_common work program in
        record {
          work_nonempty = nonempty x w;
          program_nonempty = nonempty y p;
          shared = (s, in_work, in_program, omega (arith, leb→le _ _ enough, e));
        },
    λ same.
        let (s, in_work, in_program, enough) = same.shared in
        le→leb _ _ (omega (arith, longest_is_largest work program s in_work in_program)),
  )

same_title_iff :
    (min_chars : ℕ) (w p : Text) → (same_title min_chars w p ≡ true) ↔ SameTitle min_chars w p
unfolding same_title
same_title_iff m [] p = (λ h. ground arith, λ h. absurd (h.work_nonempty refl))
same_title_iff m (x ∷ w) [] = (λ h. ground arith, λ h. absurd (h.program_nonempty refl))
same_title_iff m (x ∷ w) (y ∷ p) = elim (Bool-cases (leb (length (x ∷ w)) m)) [
  | inl short ↦ rw short (short_iff m x w y p (leb→le _ _ short))
  | inr long ↦ rw long (long_iff m x w y p (ground arith))
]

-- A work's title matches a programme's name exactly when, both normalized, neither is empty and some
-- text of at least `TITLE_MATCH_MIN_CHARS` characters, or of the work's whole length if that is
-- shorter, stands in both.
pub title_matches_iff :
    (u : Unicode) (min_chars : ℕ) (work_title program_name : Text)
    → (title_matches u min_chars work_title program_name ≡ true)
      ↔ SameTitle min_chars (normalize u work_title) (normalize u program_name)
unfolding title_matches
title_matches_iff u min_chars t n = same_title_iff min_chars (normalize u t) (normalize u n)
