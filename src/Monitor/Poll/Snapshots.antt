-- ===== src/Monitor/Poll/Snapshots.antt =====
-- What the snapshots of docker/home-service-monitor/monitor.py hold after any turns of its threads.
use my_infra.Prelude.{
  ℕ, ◌≡◌, ◌⊎◌, ◌↔◌, refl, ap, ◌∙◌, Bool, true, false, Option, none, some, List, [], ◌∷◌, ◌++◌,
  String, arith, ◌==◌, string_eq, IsNodup, if◌then◌else◌, inl, inr, contains, length, ◌≤◌, nat_eq,
}
use text.Mathlib.TextEquality.{eq_iff}
use my_infra.Prelude.Dict.{Dict, lookup, lookup-insert}
use my_infra.Prelude.Action.{ok, err, Result-cases}
use my_infra.Monitor.Metrics.{Text, Error, Value, whole, micro, Sample, render}
use my_infra.Monitor.Poll.{
  Target, Exporter, run_collector, outcome, collect_once, poll_turn, poll_turns, set_of,
  has_duplicates,
}

abbrev pub or_else : Option Text → Option Text → Option Text
or_else none d = d
or_else (some t) d = some t

module _ (x : Exporter) where
  -- What the last turn of a target with the name has written.
  pub last_turn : String → List (Target × ℕ) → Option Text
  last_turn name [] = none
  last_turn name ((target, now) ∷ turns) =
      let rest = last_turn name turns in
      or_else rest
        (if target.name == name then some (render x.show (collect_once x target now)) else none)

  turn_lem :
      (target : Target) (now : ℕ) (snapshots : Dict Text) (name : String)
      → lookup name (poll_turn x target now snapshots) ≡ (
          if target.name == name
          then some (render x.show (collect_once x target now))
          else lookup name snapshots)
  unfolding poll_turn
  turn_lem target now snapshots name =
      lookup-insert name target.name (render x.show (collect_once x target now)) snapshots

  latest_of :
      (a : Option Text) (b : Bool) (v : Text) (l : Option Text)
      → or_else a (if b then some v else l) ≡ or_else (or_else a (if b then some v else none)) l
  latest_of none true v l = refl
  latest_of none false v l = refl
  latest_of (some t) b v l = refl

  turns_lem :
      (turns : List (Target × ℕ)) (snapshots : Dict Text) (name : String)
      → lookup name (poll_turns x turns snapshots)
        ≡ or_else (last_turn name turns) (lookup name snapshots)
  unfolding poll_turns last_turn
  turns_lem [] snapshots name = refl
  turns_lem ((target, now) ∷ turns) snapshots name =
      turns_lem turns (poll_turn x target now snapshots) name
      ∙ (ap (or_else (last_turn name turns)) (turn_lem target now snapshots name)
          ∙ latest_of (last_turn name turns) (target.name == name)
              (render x.show (collect_once x target now)) (lookup name snapshots))

-- In whatever order the threads take their turns, what is shown under a name is what the last turn of
-- a target with this name has written; before the first one, what was shown at the start.
pub poll_turns-lookup :
    (x : Exporter) (turns : List (Target × ℕ)) (snapshots : Dict Text) (name : String)
    → lookup name (poll_turns x turns snapshots)
      ≡ or_else (last_turn x name turns) (lookup name snapshots)
poll_turns-lookup = turns_lem

abbrev sample : Target → String → Value → Sample
sample target name value = record {
  name = name;
  value = value;
  labels = ("target", target.name) ∷ ("kind", target.kind) ∷ [];
}

-- The poll has failed, and shows this and its time only.
pub record Failed (x : Exporter) (target : Target) (now : ℕ) : Type 0 where
  pub error : Error
  pub raised : (run_collector target (x.collectors target.kind)).0 ≡ err error
  pub shows :
      (collect_once x target now).samples
      ≡ sample target "home_monitor_success" (whole 0)
        ∷ sample target "home_monitor_completed_seconds" (micro now)
        ∷ []

-- The poll has succeeded, and shows what it has collected, before the same two metrics.
pub record Succeeded (x : Exporter) (target : Target) (now : ℕ) : Type 0 where
  pub returned : (run_collector target (x.collectors target.kind)).0 ≡ ok tt
  pub shows :
      (collect_once x target now).samples
      ≡ ((run_collector target (x.collectors target.kind)).1.metrics.samples
          ++ (record {
            name = "home_monitor_success";
            value = whole 1;
            labels = (run_collector target (x.collectors target.kind)).1.metrics.labels;
          }
              ∷ []))
        ++ (record {
          name = "home_monitor_completed_seconds";
          value = micro now;
          labels = (run_collector target (x.collectors target.kind)).1.metrics.labels;
        }
            ∷ [])

-- A poll that raises, whatever it has collected before, shows nothing but its failure and its time;
-- one that does not shows all that it has collected.
pub collect_once_cases :
    (x : Exporter) (target : Target) (now : ℕ) → Succeeded x target now ⊎ Failed x target now
unfolding collect_once outcome
collect_once_cases x target now =
    elim (Result-cases ((run_collector target (x.collectors target.kind)).0)) [
      | inl (a, e) ↦ inl record { returned = e; shows = rw (collect_once, outcome, e) refl }
      | inr (f, e) ↦
          inr record { error = f; raised = e; shows = rw (collect_once, outcome, e) refl }
    ]

contains-set_of : (names : List String) (n : String) → contains (set_of names) n ≡ contains names n
unfolding set_of
contains-set_of [] n = refl
contains-set_of (m ∷ names) n =
    ground (arith, contains-set_of names n, contains-set_of names m, eq_iff m n)

length-set_of : (names : List String) → length (set_of names) ≤ length names
unfolding set_of
length-set_of [] = omega arith
length-set_of (n ∷ names) = ground (arith, length-set_of names)

set_of-IsNodup : (names : List String) → (length names ≡ length (set_of names)) ↔ IsNodup names
unfolding set_of
set_of-IsNodup [] = (λ _. tt, λ _. refl)
set_of-IsNodup (n ∷ names) =
    ground (arith, set_of-IsNodup names, length-set_of names, contains-set_of names n)

-- The test of the names at the start, which compares their number with that of the set of them, lets
-- them pass exactly if no two are equal.
pub has_duplicates_iff : (names : List String) → (has_duplicates names ≡ false) ↔ IsNodup names
unfolding has_duplicates
has_duplicates_iff names = ground (arith, set_of-IsNodup names)
