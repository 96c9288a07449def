-- ===== src/Monitor/Scan.antt =====
-- One poll of a target by docker/home-service-monitor/monitor.py: the requests made so far and the
-- metrics so far. What a server answers is a function of all requests before.
use my_infra.Prelude.{ℕ, List, ◌∷◌, String}
use my_infra.Prelude.Dict.{Dict}
use my_infra.Prelude.Action.{Result, Action}
use my_infra.Monitor.Metrics.{Value, Error, Metrics, add_sample}

pub data Call : Type 0 where
  secret : String → Call
  get : String → Call
  -- A page of a collection, with its offset.
  get_page : String → ℕ → Call
  query : String → Call
  send : ℕ → String → Call
  receive : Call
  sleep : Call

pub record Scan : Type 0 where
  pub log : List Call
  pub metrics : Metrics

abbrev pub Act : Type 0 → Type 0
Act A = Action Error Scan A

-- One request and its answer.
abbrev pub ask : {A : Type 0} → Call → (List Call → Result Error A) → Act A
ask call answer s = (answer s.log, record s { log = call ∷ s.log })

abbrev keep_metrics : Scan → Result Error (Unit {0}) × Metrics → Result Error (Unit {0}) × Scan
keep_metrics s (r, m) = (r, record s { metrics = m })

-- `metrics.add`
unfoldable pub add : String → Value → Dict String → Act (Unit {0})
unfolding add_sample
add name value labels s = keep_metrics s (add_sample name value labels s.metrics)
