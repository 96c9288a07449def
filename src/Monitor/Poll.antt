-- ===== src/Monitor/Poll.antt =====
-- `collect_once`, `poll`, the handler and the check of `main` of
-- docker/home-service-monitor/monitor.py. A turn of each thread is one step; the lock makes the
-- change of the snapshots and their reading whole.
pub mod Snapshots
use my_infra.Prelude.{
  ℕ, ◌-◌, ◌*◌, Bool, true, false, not, ◌||◌, Option, none, some, List, [], ◌∷◌, ◌++◌, String, leb,
  ◌==◌, string_eq, contains, length, nat_eq, if◌then◌else◌,
}
use my_infra.Prelude.Dict.{Dict, lookup, insert}
use my_infra.Prelude.Action.{Result, ok, err, then_do}
use my_infra.Monitor.Metrics.{
  Text, text, Error, other_error, Value, whole, micro, Metrics, new_metrics, add_sample, render,
}
use my_infra.Monitor.Scan.{Call, Scan, Act, add}

pub record Target : Type 0 where
  pub name : String
  pub kind : String
  -- Seconds.
  pub interval : ℕ

-- The collectors by their kinds, and `str` of a float.
pub record Exporter : Type 0 where
  pub collectors : String → Option (Act (Unit {0}))
  pub show : Value → Text

abbrev number : String → ℕ → Metrics → Metrics
number name n m = (add_sample name (whole n) [] m).1

-- What is shown of a poll that ended so: after a failure nothing of what it had collected.
unfoldable pub outcome : Target → Result Error (Unit {0}) × Scan → Metrics
unfolding add_sample
outcome target (ok a, s) = number "home_monitor_success" 1 s.metrics
outcome target (err e, s) = number "home_monitor_success" 0 (new_metrics target.name target.kind)

abbrev no_scan : Target → Scan
no_scan target = record { log = []; metrics = new_metrics target.name target.kind }

-- A kind that is not known raises.
abbrev run_collector : Target → Option (Act (Unit {0})) → Result Error (Unit {0}) × Scan
run_collector target none = (err other_error, no_scan target)
run_collector target (some collect) = collect (no_scan target)

module _ (x : Exporter) where
  -- The metrics of one poll that ends at a time, in microseconds.
  unfoldable pub collect_once : Target → ℕ → Metrics
  unfolding outcome add_sample
  collect_once target now =
      (add_sample "home_monitor_completed_seconds" (micro now) []
        (outcome target (run_collector target (x.collectors target.kind)))).1

  -- A turn of the thread of a target.
  unfoldable pub poll_turn : Target → ℕ → Dict Text → Dict Text
  unfolding collect_once render insert
  poll_turn target now snapshots =
      insert target.name (render x.show (collect_once target now)) snapshots

  -- The turns of all threads, in the order in which they take the lock.
  unfoldable pub poll_turns : List (Target × ℕ) → Dict Text → Dict Text
  unfolding poll_turn
  poll_turns [] snapshots = snapshots
  poll_turns ((target, now) ∷ turns) snapshots = poll_turns turns (poll_turn target now snapshots)

-- `max(1, interval - elapsed)`, in microseconds.
unfoldable pub pause : Target → ℕ → ℕ
pause target elapsed =
    let left = target.interval * 1_000_000 - elapsed in
    if leb 1_000_000 left then left else 1_000_000

unfoldable pub join_values : Dict Text → Text
join_values [] = []
join_values ((k, v) ∷ d) = v ++ join_values d

-- `do_GET`: the body, or status 404.
unfoldable pub do_get : String → Dict Text → Option Text
unfolding join_values
do_get path snapshots =
    if not ((path == "/metrics") || (path == "/healthz"))
    then none
    else some (if path == "/metrics" then join_values snapshots else text "ok\n")

-- `set(names)`, as the list of its members.
unfoldable pub set_of : List String → List String
set_of [] = []
set_of (n ∷ ns) = let rest = set_of ns in if contains rest n then rest else n ∷ rest

-- `len(names) != len(set(names))`, which raises.
unfoldable pub has_duplicates : List String → Bool
unfolding set_of
has_duplicates names = not (length names == length (set_of names))
