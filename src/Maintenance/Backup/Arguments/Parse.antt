-- ===== src/Maintenance/Backup/Arguments/Parse.antt =====
-- How the options of a backup command are read by `backup_arguments` of
-- ansible/host-maintenance/files/maintenance-agent.py.
use my_infra.Prelude.{
  ◌≡◌, refl, ap, inl, inr, true, false, List, [], ◌∷◌, String, ◌==◌, string_eq, arith, All,
  Bool-cases,
}
use text.Mathlib.TextEquality.{eq_iff}
use my_infra.Maintenance.Exec.{runtime_error, Result, ok, err}
use my_infra.Maintenance.Backup.Arguments.{is_backup_option, read_options}

-- An option of a command, `--node` or a known one.
pub data Choice : Type 0 where
  for_node : Choice
  with_value : String → String → Choice

abbrev pub IsKnown : Choice → Type 0
IsKnown for_node = Unit
IsKnown (with_value option value) = (is_backup_option option ≡ true)

-- The words of the options, and the arguments kept of them.
abbrev pub words_of : String → List Choice → List String
words_of node [] = []
words_of node (for_node ∷ cs) = "--node" ∷ node ∷ words_of node cs
words_of node (with_value option value ∷ cs) = option ∷ value ∷ words_of node cs

abbrev pub kept_of : List Choice → List String
kept_of [] = []
kept_of (for_node ∷ cs) = kept_of cs
kept_of (with_value option value ∷ cs) = option ∷ value ∷ kept_of cs

-- The words are those of a list of known options for the node.
pub record Parsed (node : String) (words kept : List String) : Type 0 where
  pub choices : List Choice
  pub known : All IsKnown choices
  pub spelled : words ≡ words_of node choices
  pub result : kept ≡ kept_of choices

abbrev pub OptionsSpec : String → List String → Result (List String) → Type 0
OptionsSpec node words (ok kept) = Parsed node words kept
OptionsSpec node words (err e) =
    (e ≡ runtime_error) × ((cs : List Choice) → All IsKnown cs → words ≡ words_of node cs → ⊥)

abbrev Impossible : String → List String → Type 0
Impossible node words = (cs : List Choice) → All IsKnown cs → words ≡ words_of node cs → ⊥

pub node_unknown : is_backup_option "--node" ≡ false
unfolding is_backup_option
node_unknown = refl

single-Impossible : (node option : String) → Impossible node (option ∷ [])
single-Impossible node option [] h e = cc
single-Impossible node option (for_node ∷ cs) h e = cc
single-Impossible node option (with_value o v ∷ cs) h e = cc

module _ (node option value : String) (words : List String) where
  other_node-Impossible :
      option ≡ "--node" → (value == node) ≡ false → Impossible node (option ∷ value ∷ words)
  other_node-Impossible p q [] h e = cc
  other_node-Impossible p q (for_node ∷ cs) h e = ground (arith, eq_iff value node)
  other_node-Impossible p q (with_value o v ∷ cs) h e =
      let same : o ≡ "--node" = cc in
      let known : is_backup_option "--node" ≡ true = rw same at (h.0) in cc (known, node_unknown)

  unknown-Impossible :
      (option == "--node") ≡ false
      → is_backup_option option ≡ false
      → Impossible node (option ∷ value ∷ words)
  unknown-Impossible p q [] h e = cc
  unknown-Impossible p q (for_node ∷ cs) h e = ground (arith, eq_iff option "--node")
  unknown-Impossible p q (with_value o v ∷ cs) h e =
      let same : option ≡ o = cc in cc (ap is_backup_option same, h.0, q)

  rest-Impossible : Impossible node words → Impossible node (option ∷ value ∷ words)
  rest-Impossible rest [] h e = cc
  rest-Impossible rest (for_node ∷ cs) h e = rest cs h.1 (cc)
  rest-Impossible rest (with_value o v ∷ cs) h e = rest cs h.1 (cc)

  spec-for_node :
      (r : Result (List String))
      → option ≡ "--node"
      → value ≡ node
      → OptionsSpec node words r
      → OptionsSpec node (option ∷ value ∷ words) r
  spec-for_node (ok kept) p q h = record {
    choices = for_node ∷ h.choices;
    known = (tt, h.known);
    spelled = cc (p, q, h.spelled);
    result = h.result;
  }
  spec-for_node (err x) p q h = (h.0, rest-Impossible h.1)

  spec-with_value :
      (r : Result (List String))
      → (option == "--node") ≡ false
      → is_backup_option option ≡ true
      → OptionsSpec node words r
      → OptionsSpec node
          (option ∷ value ∷ words)
          (elim r [ err x ↦ err x | ok kept ↦ ok (option ∷ value ∷ kept) ])
  spec-with_value (ok kept) p q h = record {
    choices = with_value option value ∷ h.choices;
    known = (q, h.known);
    spelled = cc (h.spelled);
    result = cc (h.result);
  }
  spec-with_value (err x) p q h = (h.0, rest-Impossible h.1)

pub read_options-OptionsSpec :
    (node : String) (words : List String) → OptionsSpec node words (read_options node words)
unfolding read_options
read_options-OptionsSpec node [] = record {
  choices = [];
  known = tt;
  spelled = refl;
  result = refl;
}
read_options-OptionsSpec node (option ∷ []) = (refl, single-Impossible node option)
read_options-OptionsSpec node (option ∷ value ∷ words) =
    let rest = read_options-OptionsSpec node words in
    elim (Bool-cases (option == "--node")) [
      | inl p ↦ elim (Bool-cases (value == node)) [
        | inl q ↦ rw p (
            rw q (
              spec-for_node node option value words (read_options node words)
                ((eq_iff option "--node").0 p) ((eq_iff value node).0 q) rest))
        | inr q ↦ rw p (
            rw q (
              refl,
              other_node-Impossible node option value words ((eq_iff option "--node").0 p) q,
            ))
      ]
      | inr p ↦ elim (Bool-cases (is_backup_option option)) [
        | inl q ↦
            rw p (rw q (spec-with_value node option value words (read_options node words) p q rest))
        | inr q ↦ rw p (rw q (refl, unknown-Impossible node option value words p q))
      ]
    ]
