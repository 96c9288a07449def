-- ===== src/RecSync/Season.antt =====
-- The data model and `fetch_season_works` of docker/annict-rec-sync/sync.py.
pub mod Pages
use my_infra.Prelude.{
  ℕ, zero, suc, Bool, true, false, Option, none, some, List, [], ◌∷◌, ◌++◌, if◌then◌else◌,
}
use my_infra.RecSync.Text.{Text}
use my_infra.RecSync.Http.{
  Net, Call, search_works, ProgramNode, WorkNode, Outcome, returned, raised, out_of_fuel, Http,
}

-- A broadcast. Times are microseconds since 1970, of either clock.
pub record Program : Type 0 where
  pub started_at : ℕ
  pub channel_name : Text
  pub slot_label : Text
  pub rebroadcast : Bool

pub record Work : Type 0 where
  pub annict_id : ℕ
  pub title : Text
  pub programs : List Program

-- What Python's `datetime` brings: `fromisoformat`, which may raise, and `strftime("%m/%d %H:%M")`.
pub record Times : Type 0 where
  pub fromisoformat : Text → Option ℕ
  pub label : ℕ → Text

-- `(p.get("channel") or {}).get("name", "")`
abbrev channel_name_of : Option (Option Text) → Text
channel_name_of none = []
channel_name_of (some none) = []
channel_name_of (some (some name)) = name

-- `bool(p.get("rebroadcast", False))`
abbrev is_rebroadcast : Option Bool → Bool
is_rebroadcast none = false
is_rebroadcast (some b) = b

module _ (times : Times) where
  abbrev program_at : ProgramNode → ℕ → Program
  program_at p t = record {
    started_at = t;
    channel_name = channel_name_of p.channel;
    slot_label = times.label t;
    rebroadcast = is_rebroadcast p.rebroadcast;
  }

  read_programs : List ProgramNode → Option (List Program)
  read_programs [] = some []
  read_programs (p ∷ nodes) = elim (times.fromisoformat p.started_at) [
    | none ↦ none
    | some t ↦ elim (read_programs nodes) [
      | none ↦ none
      | some programs ↦ some (program_at p t ∷ programs)
    ]
  ]

  abbrev work_with : WorkNode → List Program → Work
  work_with w programs = record { annict_id = w.annict_id; title = w.title; programs = programs }

  -- The loop over the works of a page.
  unfoldable pub read_works : List WorkNode → Option (List Work)
  unfolding read_programs
  read_works [] = some []
  read_works (w ∷ nodes) = elim (read_programs w.programs) [
    | none ↦ none
    | some programs ↦ elim (read_works nodes) [
      | none ↦ none
      | some works ↦ some (work_with w programs ∷ works)
    ]
  ]

  module _ (net : Net) (season : Text) where
    -- The `while` loop, with fuel for its rounds.
    unfoldable pub works_loop : ℕ → Option Text → List Work → Http (List Work)
    works_loop zero after works log = (out_of_fuel, log)
    works_loop (suc fuel) after works log =
        let log' = search_works season after ∷ log in
        elim (net.search_works log season after) [
          | none ↦ (raised, log')
          | some page ↦ elim (page.errors) [
            | true ↦ (raised, log')
            | false ↦ elim (read_works page.nodes) [
              | none ↦ (raised, log')
              | some read ↦ elim (page.has_next_page) [
                | true ↦ works_loop fuel page.end_cursor (works ++ read) log'
                | false ↦ (returned (works ++ read), log')
              ]
            ]
          ]
        ]

    unfoldable pub fetch_season_works : ℕ → Http (List Work)
    unfolding works_loop read_works
    fetch_season_works fuel = works_loop fuel none []
