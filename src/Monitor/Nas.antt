-- ===== src/Monitor/Nas.antt =====
-- `truenas` of docker/home-service-monitor/monitor.py: the pools and the alerts of the storage.
pub mod Deadline
use my_infra.Prelude.{
  ℕ, zero, suc, ◌+◌, ◌*◌, Bool, true, false, not, ◌&&◌, ◌||◌, Option, none, some, List, [], ◌∷◌,
  String, ltb, length, ◌==◌, nat_eq, string_eq, contains, if◌then◌else◌,
}
use my_infra.Prelude.Dict.{Dict}
use my_infra.Prelude.Action.{Result, ok, err, then_do, ◌>>=◌, ◌>>◌, pure, raise}
use my_infra.Monitor.Metrics.{
  Error, value_error, timeout_error, other_error, out_of_fuel, Value, whole, micro, ratio, flag,
}
use my_infra.Monitor.Scan.{Call, secret, send, receive, Act, ask, add}

-- The last scan of a pool.
pub record PoolScan : Type 0 where
  pub function : Option String
  pub state : Option String
  pub end_time : String
  pub errors : ℕ

pub record Pool : Type 0 where
  pub name : String
  pub healthy : Bool
  pub status : String
  pub allocated : ℕ
  pub size : ℕ
  pub scan : Option PoolScan

pub record Alert : Type 0 where
  pub dismissed : Bool
  pub klass : String
  pub level : String

-- What the calls answer.
pub data Answer : Type 0 where
  logged_in : Bool → Answer
  pools : List Pool → Answer
  alerts : List Alert → Answer

-- A message from the server: the number of the call it answers, if it has one, and the answer;
-- `none` is an error.
pub record Message : Type 0 where
  pub id : Option ℕ
  pub answer : Option Answer
  pub is_connected : Bool

-- The server; `time.monotonic()` in microseconds; `timestamp` in microseconds; and whether the regular
-- expression for disks is found in a text.
pub record NasWorld : Type 0 where
  pub credential : List Call → Result Error String
  -- Whether the certificate is the pinned one.
  pub verify_leaf : List Call → Result Error (Unit {0})
  -- The status of the handshake, and when the certificate expires.
  pub handshake : ℕ
  pub expires : ℕ
  pub messages : List Call → Result Error Message
  pub monotonic : List Call → ℕ
  pub timestamp : String → Result Error ℕ
  pub about_disks : String → Bool

abbrev option_is : Option String → String → Bool
option_is none s = false
option_is (some t) s = t == s

-- The number of the call comes first.
abbrev pub is_answer : ℕ → Option ℕ → Bool
is_answer id none = false
is_answer id (some n) = n == id

-- Alerts about disks that are not dismissed and serious.
unfoldable pub count_alerts : (String → Bool) → List Alert → ℕ
count_alerts about [] = 0
count_alerts about (a ∷ more) =
    let rest = count_alerts about more in
    if not a.dismissed
      && about a.klass
      && contains ("CRITICAL" ∷ "ALERT" ∷ "EMERGENCY" ∷ "ERROR" ∷ []) a.level
    then suc rest
    else rest

abbrev pool_label : Pool → Dict String
pool_label p = ("pool", p.name) ∷ []

abbrev lift : {A : Type 0} → Result Error A → Act A
lift r s = (r, s)

abbrev scrub_errors : Option PoolScan → ℕ
scrub_errors none = 0
scrub_errors (some scan) = scan.errors

abbrev usage : Pool → Result Error Value
usage p = if p.size == 0 then err other_error else ok (ratio p.allocated p.size)

module _ (w : NasWorld) where
  -- When the last scrub without errors ended, or 0.
  unfoldable pub scrubbed : Option PoolScan → Result Error Value
  scrubbed none = ok (whole 0)
  scrubbed (some scan) =
      if option_is scan.function "SCRUB" && option_is scan.state "FINISHED" && (scan.errors == 0)
      then elim (w.timestamp scan.end_time) [ err e ↦ err e | ok t ↦ ok (micro t) ]
      else ok (whole 0)

  abbrev pub answer_of : Option Answer → Act Answer
  answer_of none = raise value_error
  answer_of (some a) = pure a

  -- The messages until the answer, before the deadline. The fuel counts the messages.
  unfoldable pub await : ℕ → ℕ → ℕ → Act Answer
  await zero deadline id s = (err out_of_fuel, s)
  await (suc fuel) deadline id s =
      let next = then_do (ask receive (λ log. w.messages log) s) (λ message t.
        let rest = await fuel deadline id t in
        if is_answer id message.id then answer_of message.answer t else rest) in
      if ltb (w.monotonic s.log) deadline then next else (err timeout_error, s)

  -- `rpc`: the call with a number.
  unfoldable pub rpc : ℕ → ℕ → ℕ → String → Act Answer
  unfolding await
  rpc fuel deadline id method = do ask (send id method) (λ log. ok tt); await fuel deadline id

  unfoldable pub pool_values : List Pool → Act (Unit {0})
  unfolding add scrubbed
  pool_values [] s = (ok tt, s)
  pool_values (p ∷ ps) s =
      then_do
        (add "home_nas_pool_healthy" (flag (p.healthy && (p.status == "ONLINE"))) (pool_label p) s)
        (λ _ t.
          then_do (usage p, t)
            (λ used u. then_do (add "home_nas_pool_used_ratio" used (pool_label p) u) (λ _ v.
              then_do (scrubbed p.scan, v)
                (λ last x.
                  then_do (add "home_nas_scrub_last_success_seconds" last (pool_label p) x) (λ _ y.
                    then_do
                      (add "home_nas_scrub_errors" (whole (scrub_errors p.scan)) (pool_label p) y)
                      (λ _. pool_values ps))))))

  abbrev is_logged_in : Answer → Bool
  is_logged_in (logged_in b) = b
  is_logged_in (pools ps) = false
  is_logged_in (alerts xs) = false

  abbrev pools_in : Answer → List Pool
  pools_in (logged_in b) = []
  pools_in (pools ps) = ps
  pools_in (alerts xs) = []

  abbrev alerts_in : Answer → List Alert
  alerts_in (logged_in b) = []
  alerts_in (pools ps) = []
  alerts_in (alerts xs) = xs

  abbrev no_pools : List Pool → Bool
  no_pools [] = true
  no_pools (p ∷ ps) = false

  -- The negotiation of the older protocol.
  abbrev negotiate : Bool → Act (Unit {0})
  negotiate false = pure tt
  negotiate true = do
    ask (send 0 "connect") (λ log. ok tt)
    message ← ask receive (λ log. w.messages log)
    if message.is_connected then pure tt else raise value_error

  abbrev guard : Bool → Act (Unit {0})
  guard true = pure tt
  guard false = raise value_error

  unfoldable pub truenas : ℕ → Bool → Act (Unit {0})
  unfolding rpc pool_values count_alerts add
  truenas fuel legacy s =
      let deadline = w.monotonic s.log + 40_000_000 in
      (do
        (λ t. (w.verify_leaf t.log, t))
        guard (w.handshake == 101)
        add "home_api_tls_expiry_seconds" (whole w.expires) []
        negotiate legacy
        key ← ask (secret "api key") (λ log. w.credential log)
        login ← rpc fuel deadline 1 "auth.login_with_api_key"
        guard (is_logged_in login)
        found ← rpc fuel deadline 2 "pool.query"
        guard (not (no_pools (pools_in found)))
        pool_values (pools_in found)
        listed ← rpc fuel deadline 3 "alert.list"
        add "home_nas_disk_alerts" (whole (count_alerts w.about_disks (alerts_in listed))) [])
        s
