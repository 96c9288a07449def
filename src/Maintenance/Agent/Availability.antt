-- ===== src/Maintenance/Agent/Availability.antt =====
-- `availability_policy`, `availability_check` and `loockit_state` of
-- ansible/host-maintenance/files/maintenance-agent.py.
pub mod Alive
pub mod Serves
use Prim.Native.String.{◌++◌ as ◌<>◌}
use my_infra.Prelude.{
  ℕ, ◌+◌, Bool, true, false, not, ◌&&◌, ◌||◌, Option, none, some, List, [], ◌∷◌, String, ◌==◌,
  nat_eq, string_eq, contains, if◌then◌else◌,
}
use my_infra.Prelude.Strings.{ends_with, remove_suffix}
use my_infra.Prelude.Dict.{Dict, keys}
use my_infra.Prelude.Action.{Result, ok, err, then_do, ◌>>=◌, ◌>>◌, pure, raise}
use my_infra.Maintenance.Agent.{
  AgentError, blocked, runtime_error, subprocess_error, value_error, key_error, type_error,
  index_error, os_error, attribute_error, out_of_fuel, Policy, Body, unread, not_json, not_object,
  detail, Probe, status, http_error, failed, probed, read_policy, AgentState, AgentWorld, AgentAct,
  perform, answer_with, give, require,
}

abbrev all_in : List String → List String → Bool
all_in [] ys = true
all_in (x ∷ xs) ys = contains ys x && all_in xs ys

-- `set(xs) == {...}`
abbrev same_names : List String → List String → Bool
same_names xs ys = all_in xs ys && all_in ys xs

abbrev all_end : String → Dict String → Bool
all_end suffix [] = true
all_end suffix ((node, url) ∷ d) = ends_with url suffix && all_end suffix d

-- The test of the policy for a host.
unfoldable pub is_complete : String → Policy → Bool
unfolding ends_with keys
is_complete host p =
    (p.availability_scope == "loockit-and-tunnel")
    && same_names (keys p.tunnel_endpoints) ("pve-x570" ∷ "pve-b550m" ∷ "rpi-107" ∷ "rpi-109" ∷ [])
    && all_end "/ready" p.tunnel_endpoints
    && same_names (keys p.loockit_endpoints) ("pve-x570" ∷ "pve-b550m" ∷ [])
    && contains (keys p.loockit_endpoints) host
    && all_end "/readyz" p.loockit_endpoints

-- What `availability_check` denies the reboot for. What else is raised stays as it is.
abbrev pub denied : AgentError → AgentError
denied blocked = blocked
denied os_error = blocked
denied value_error = blocked
denied key_error = blocked
denied type_error = blocked
denied subprocess_error = blocked
denied runtime_error = runtime_error
denied index_error = index_error
denied attribute_error = attribute_error
denied out_of_fuel = out_of_fuel

-- `availability_policy` lets the errors of commands through.
abbrev pub unreadable : AgentError → AgentError
unreadable subprocess_error = subprocess_error
unreadable os_error = blocked
unreadable value_error = blocked
unreadable key_error = blocked
unreadable type_error = blocked
unreadable blocked = blocked
unreadable runtime_error = runtime_error
unreadable index_error = index_error
unreadable attribute_error = attribute_error
unreadable out_of_fuel = out_of_fuel

-- The error that is raised in place of another.
abbrev pub raise_as :
    {A : Type 0} → (AgentError → AgentError) → Result AgentError A → Result AgentError A
raise_as f (ok a) = ok a
raise_as f (err e) = err (f e)

abbrev pub is_standby : Option String → Bool
is_standby none = false
is_standby (some d) = d == "standby replica"

abbrev pub healthz : String → String
healthz url = remove_suffix url "/readyz" <> "/healthz"

-- A process must answer with 200.
abbrev pub healthy_process : Probe → Result AgentError (Unit {0})
healthy_process (status n) = if n == 200 then ok tt else err blocked
healthy_process (http_error n body) = err os_error
healthy_process (failed e) = err e

-- The answer of a standby is read only after a reboot.
abbrev pub standby_answer : Body → Result AgentError Bool
standby_answer (unread e) = err e
standby_answer not_json = err value_error
standby_answer not_object = err attribute_error
standby_answer (detail d) = if is_standby d then ok false else err blocked

-- Whether one that is ready has answered; a standby has not.
abbrev pub readiness : Bool → Probe → Result AgentError Bool
readiness reboot (status n) = if n == 200 then ok true else err blocked
readiness reboot (http_error n body) =
    if reboot || not (n == 503) then err blocked else standby_answer body
readiness reboot (failed e) = err e

-- Whether a tunnel answers; requests that fail count as no.
abbrev pub tunnel_up : Probe → Result AgentError Bool
tunnel_up (status n) = ok (n == 200)
tunnel_up (http_error n body) = ok false
tunnel_up (failed os_error) = ok false
tunnel_up (failed value_error) = ok false
tunnel_up (failed blocked) = err blocked
tunnel_up (failed runtime_error) = err runtime_error
tunnel_up (failed subprocess_error) = err subprocess_error
tunnel_up (failed key_error) = err key_error
tunnel_up (failed type_error) = err type_error
tunnel_up (failed index_error) = err index_error
tunnel_up (failed attribute_error) = err attribute_error
tunnel_up (failed out_of_fuel) = err out_of_fuel

abbrev pub one_more : Bool → ℕ → ℕ
one_more true n = n + 1
one_more false n = n

pub data LoockitState : Type 0 where
  serving : LoockitState
  standby : LoockitState

-- What `read` raises in the handler of `loockit_state`: these two are caught there.
abbrev unread_state : AgentError → AgentError
unread_state value_error = blocked
unread_state attribute_error = blocked
unread_state blocked = blocked
unread_state runtime_error = runtime_error
unread_state subprocess_error = subprocess_error
unread_state key_error = key_error
unread_state type_error = type_error
unread_state index_error = index_error
unread_state os_error = os_error
unread_state out_of_fuel = out_of_fuel

-- The body is read for 503 only.
abbrev pub error_state : ℕ → Body → Result AgentError LoockitState
error_state n (unread e) = err (if n == 503 then unread_state e else blocked)
error_state n not_json = err blocked
error_state n not_object = err blocked
error_state n (detail d) = if (n == 503) && is_standby d then ok standby else err blocked

abbrev pub state_of : Probe → Result AgentError LoockitState
state_of (status n) = if n == 200 then ok serving else err blocked
state_of (http_error n body) = error_state n body
state_of (failed os_error) = err blocked
state_of (failed blocked) = err blocked
state_of (failed value_error) = err value_error
state_of (failed runtime_error) = err runtime_error
state_of (failed subprocess_error) = err subprocess_error
state_of (failed key_error) = err key_error
state_of (failed type_error) = err type_error
state_of (failed index_error) = err index_error
state_of (failed attribute_error) = err attribute_error
state_of (failed out_of_fuel) = err out_of_fuel

module _ (w : AgentWorld) where
  -- The answer is kept in the record of steps.
  unfoldable pub urlopen : String → AgentAct Probe
  urlopen url s =
      let answer = w.urlopen s.log url in (ok answer, record s { log = probed url answer ∷ s.log })

  abbrev pub complete_policy : String → Policy → Result AgentError Policy
  complete_policy host p = if is_complete host p then ok p else err blocked

  unfoldable pub availability_policy : String → AgentAct Policy
  unfolding is_complete
  availability_policy host s =
      then_do (answer_with (raise_as unreadable) (perform read_policy (λ log. w.policy log) s))
        (λ p. give (complete_policy host p))

  -- Not before a reboot.
  abbrev pub ask_health : Bool → String → AgentAct (Unit {0})
  ask_health true url = pure tt
  ask_health false url = do answer ← urlopen (healthz url); give (healthy_process answer)

  -- One endpoint of Loockit.
  unfoldable pub ask_loockit : Bool → String → AgentAct Bool
  unfolding urlopen remove_suffix
  ask_loockit reboot url = do
    ask_health reboot url
    answer ← urlopen url
    give (readiness reboot answer)

  unfoldable pub count_ready : String → Bool → ℕ → Dict String → AgentAct ℕ
  unfolding ask_loockit
  count_ready host reboot ready [] s = (ok ready, s)
  count_ready host reboot ready ((node, url) ∷ d) s =
      let skip = count_ready host reboot ready d s in
      let look =
        then_do (ask_loockit reboot url s) (λ up. count_ready host reboot (one_more up ready) d) in
      if reboot && (node == host) then skip else look

  abbrev pub ask_tunnel : String → AgentAct Bool
  ask_tunnel url = do answer ← urlopen url; give (tunnel_up answer)

  unfoldable pub count_tunnels : String → Bool → ℕ → Dict String → AgentAct ℕ
  unfolding urlopen
  count_tunnels host reboot ready [] s = (ok ready, s)
  count_tunnels host reboot ready ((domain, url) ∷ d) s =
      let skip = count_tunnels host reboot ready d s in
      let look =
        then_do (ask_tunnel url s) (λ up. count_tunnels host reboot (one_more up ready) d) in
      if reboot && (domain == host) then skip else look

  unfoldable pub check_services : String → Bool → AgentAct (Unit {0})
  unfolding availability_policy count_ready count_tunnels
  check_services host reboot = do
    policy ← availability_policy host
    ready ← count_ready host reboot 0 policy.loockit_endpoints
    require (ready == 1) blocked
    tunnels ← count_tunnels host reboot 0 policy.tunnel_endpoints
    require (not (tunnels == 0)) blocked

  unfoldable pub availability_check : String → Bool → AgentAct (Unit {0})
  unfolding check_services
  availability_check host reboot s = answer_with (raise_as denied) (check_services host reboot s)

  unfoldable pub loockit_state : String → AgentAct LoockitState
  unfolding urlopen
  loockit_state url = do answer ← urlopen url; give (state_of answer)
