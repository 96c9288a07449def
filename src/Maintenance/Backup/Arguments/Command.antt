-- ===== src/Maintenance/Backup/Arguments/Command.antt =====
-- What `backup_arguments` of ansible/host-maintenance/files/maintenance-agent.py accepts of a command.
use my_infra.Prelude.{◌≡◌, Bool, true, false, List, [], ◌∷◌, ◌++◌, String, string_eq, All}
use my_infra.Maintenance.Backup.Arguments.{guest_arguments, selects_guests}
use my_infra.Maintenance.Backup.Arguments.Parse.{Choice, IsKnown, words_of, kept_of}

module _ (isdigit : String → Bool) where
  -- The first word, if any, is no number.
  abbrev pub StartsPlain : List String → Type 0
  StartsPlain [] = Unit
  StartsPlain (word ∷ words) = (isdigit word ≡ false)

  abbrev pub AreNumbers : List String → Type 0
  AreNumbers = All (λ word. isdigit word ≡ true)

  record Split (words guests rest : List String) : Type 0 where
    whole : words ≡ guests ++ rest
    numbers : AreNumbers guests
    plain : StartsPlain rest

  -- The words are numbers of guests, and then known options, each with a value, and `--node` with this
  -- node; they select guests by number or by option. The arguments are those of the guests and all
  -- options but `--node`.
  pub record IsCommand (node : String) (words arguments : List String) : Type 0 where
    pub guests : List String
    pub choices : List Choice
    pub numbers : AreNumbers guests
    pub plain : StartsPlain (words_of node choices)
    pub known : All IsKnown choices
    pub spelled : words ≡ guests ++ words_of node choices
    pub result : arguments ≡ guest_arguments guests ++ kept_of choices
    pub selects : selects_guests guests arguments ≡ true
