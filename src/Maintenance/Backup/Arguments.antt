-- ===== src/Maintenance/Backup/Arguments.antt =====
-- `backup_arguments` of ansible/host-maintenance/files/maintenance-agent.py: the arguments of a
-- backup, read from the first line of its log.
pub mod Parse
pub mod Command
use Prim.Native.Char.{code}
use Prim.Native.String
use Prim.Native.String.{◌++◌ as ◌<>◌}
use text.Mathlib.Text.{starts_with, find?}
use my_infra.Prelude.{
  ℕ, Bool, true, false, not, ◌&&◌, ◌||◌, Option, none, some, List, [], ◌∷◌, ◌++◌, String, ◌==◌,
  nat_eq, string_eq, contains, if◌then◌else◌,
}
use my_infra.Maintenance.Exec.{
  Error, runtime_error, value_error, Result, ok, err, ◌>>=◌, then_do, pure, raise,
}
use my_infra.Maintenance.Pve.{World, Act, ask, task_log}

-- `BACKUP_OPTIONS`, each with the two dashes that the program takes off before it looks there.
abbrev pub backup_options : List String
backup_options =
    "--all" ∷ "--bwlimit" ∷ "--compress" ∷ "--dumpdir" ∷ "--exclude" ∷ "--exclude-path"
    ∷ "--fleecing" ∷ "--ionice" ∷ "--job-id" ∷ "--lockwait" ∷ "--mailnotification" ∷ "--mailto"
    ∷ "--mode" ∷ "--notes-template" ∷ "--notification-mode" ∷ "--pbs-change-detection-mode"
    ∷ "--performance" ∷ "--pigz" ∷ "--pool" ∷ "--protected" ∷ "--prune-backups" ∷ "--quiet"
    ∷ "--remove" ∷ "--script" ∷ "--stdexcludes" ∷ "--stopwait" ∷ "--storage" ∷ "--tmpdir" ∷ "--zstd"
    ∷ []

unfoldable pub is_backup_option : String → Bool
is_backup_option = contains backup_options

-- `','.join(guests)`
abbrev pub join : List String → String
join [] = ""
join (g ∷ []) = g
join (g ∷ h ∷ gs) = g <> ("," <> join (h ∷ gs))

-- The guests at the front of the words, and the words behind them.
unfoldable pub take_guests : (String → Bool) → List String → List String × List String
take_guests isdigit [] = ([], [])
take_guests isdigit (word ∷ words) =
    let (guests, rest) = take_guests isdigit words in
    if isdigit word then (word ∷ guests, rest) else ([], word ∷ words)

-- The loop over the options. An option that stands last has no value.
unfoldable pub read_options : String → List String → Result (List String)
read_options node [] = ok []
read_options node (option ∷ []) = err runtime_error
read_options node (option ∷ value ∷ words) =
    let rest = read_options node words in
    if option == "--node"
    then (if value == node then rest else err runtime_error)
    else if is_backup_option option
    then elim rest [ err e ↦ err e | ok arguments ↦ ok (option ∷ value ∷ arguments) ]
    else err runtime_error

abbrev pub guest_arguments : List String → List String
guest_arguments [] = []
guest_arguments (g ∷ gs) = "--vmid" ∷ join (g ∷ gs) ∷ []

abbrev pub no_guests : List String → Bool
no_guests [] = true
no_guests (g ∷ gs) = false

-- The test after the loop.
abbrev pub selects_guests : List String → List String → Bool
selects_guests guests arguments =
    not (no_guests guests) || contains arguments "--all" || contains arguments "--pool"

-- The words of the command behind `vzdump`.
unfoldable pub read_words : (String → Bool) → String → List String → Result (List String)
read_words isdigit node words =
    let (guests, rest) = take_guests isdigit words in
    elim (read_options node rest) [
      | err e ↦ err e
      | ok options ↦
          let arguments = guest_arguments guests ++ options in
          if selects_guests guests arguments then ok arguments else err runtime_error
    ]

-- Whether `upid` names a backup of the node; `pattern in text` is given.
abbrev pub valid_identity : (String → String → Bool) → String → String → Bool
valid_identity within node upid =
    ((node == "pve-x570") || (node == "pve-b550m"))
    && starts_with upid ("UPID:" <> (node <> ":"))
    && within ":vzdump:" upid

-- The text behind a prefix, if the text begins with it.
unfoldable pub strip_prefix : String → String → Option String
strip_prefix String.[] s = some s
strip_prefix (String.◌∷◌ c p) String.[] = none
strip_prefix (String.◌∷◌ c p) (String.◌∷◌ d s) = if code c == code d then strip_prefix p s else none

abbrev pub is_found : Option ℕ → Bool
is_found none = false
is_found (some i) = true

module _ (w : World) where
  -- What is made of the first line of the log; `log[0].get('t', '')`.
  abbrev read_line : String → Option String → Result (List String)
  read_line node none = err runtime_error
  read_line node (some line) = elim (strip_prefix "INFO: starting new backup job: vzdump " line) [
    | none ↦ err runtime_error
    | some command ↦ elim (w.shlex_split command) [
      | err e ↦ err e
      | ok words ↦ read_words w.isdigit node words
    ]
  ]

  unfoldable pub backup_arguments : String → String → Act (List String)
  unfolding strip_prefix read_words
  backup_arguments node upid =
      if valid_identity (λ pattern s. is_found (find? s pattern)) node upid
      then (do
        line ← ask (task_log node upid) (λ log. w.task_log log node upid)
        (λ s. (read_line node line, s)))
      else raise runtime_error
