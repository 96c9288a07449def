-- ===== src/Maintenance/Agent/Handoff.antt =====
-- `restore_loockit`, `handoff_loockit`, `pve_recovered`, `reboot_required` and `pve_preflight` of
-- ansible/host-maintenance/files/maintenance-agent.py.
pub mod Keeps
pub mod Restores
use my_infra.Prelude.{
  ℕ, zero, suc, ◌+◌, Bool, true, false, not, ◌&&◌, ◌||◌, Option, none, some, List, [], ◌∷◌, String,
  ltb, ◌==◌, nat_eq, string_eq, if◌then◌else◌,
}
use my_infra.Prelude.Dict.{Dict, lookup}
use my_infra.Prelude.Action.{Result, ok, err, then_do, ◌>>=◌, ◌>>◌, pure, raise}
use my_infra.Maintenance.Pve.{pve_healthy, pve_tasks_idle}
use my_infra.Maintenance.Agent.{
  AgentError, blocked, runtime_error, subprocess_error, value_error, key_error, type_error,
  index_error, os_error, attribute_error, out_of_fuel, Policy, Probe, status, http_error, failed,
  read_kernels, docker_start, docker_stop, monotonic, sleep, reboot_flag, AgentState, AgentWorld,
  AgentAct, perform, is_blocked, answer_with, give, require, on_cluster, save,
}
use my_infra.Maintenance.Agent.Availability.{
  urlopen, availability_policy, availability_check, LoockitState, serving, standby, loockit_state,
  raise_as, healthz,
}

-- A command that fails blocks the maintenance.
abbrev pub failed_command : AgentError → AgentError
failed_command subprocess_error = blocked
failed_command blocked = blocked
failed_command runtime_error = runtime_error
failed_command value_error = value_error
failed_command key_error = key_error
failed_command type_error = type_error
failed_command index_error = index_error
failed_command os_error = os_error
failed_command attribute_error = attribute_error
failed_command out_of_fuel = out_of_fuel

abbrev pub set_stopped : Bool → AgentState → AgentState
set_stopped b s = record s { pending = record s.pending { loockit_stopped = b } }

-- The node of `LOOCKIT_CTIDS` that is not the host.
abbrev pub peer_of : String → String
peer_of host = if host == "pve-x570" then "pve-b550m" else "pve-x570"

abbrev pub required_key : {A : Type 0} → Option A → Result AgentError A
required_key none = err key_error
required_key (some a) = ok a

-- In the search of a tunnel only an `OSError` counts as no.
abbrev surviving_answer : Probe → Result AgentError Bool
surviving_answer (status n) = ok (n == 200)
surviving_answer (http_error n body) = ok false
surviving_answer (failed os_error) = ok false
surviving_answer (failed blocked) = err blocked
surviving_answer (failed runtime_error) = err runtime_error
surviving_answer (failed subprocess_error) = err subprocess_error
surviving_answer (failed value_error) = err value_error
surviving_answer (failed key_error) = err key_error
surviving_answer (failed type_error) = err type_error
surviving_answer (failed index_error) = err index_error
surviving_answer (failed attribute_error) = err attribute_error
surviving_answer (failed out_of_fuel) = err out_of_fuel

-- While the peer is not ready, it counts as a standby.
abbrev pub or_standby : Result AgentError LoockitState → Result AgentError LoockitState
or_standby (ok a) = ok a
or_standby (err e) = if is_blocked e then ok standby else err e

abbrev pub is_serving : LoockitState → Bool
is_serving serving = true
is_serving standby = false

-- `try: ... finally: last`: what `last` raises comes first.
abbrev pub finally :
    {A : Type 0}
    → Result AgentError A × AgentState
    → AgentAct (Unit {0})
    → Result AgentError A × AgentState
finally (r, s) last = then_do (last s) (λ _ t. (r, t))

-- `pve_recovered` answers whether, unless something else is raised.
abbrev pub recovered_answer : Result AgentError (Unit {0}) → Result AgentError Bool
recovered_answer (ok a) = ok true
recovered_answer (err e) = if is_blocked e then ok false else err e

module _ (w : AgentWorld) where
  abbrev start_loockit : String → AgentAct (Unit {0})
  start_loockit host s =
      answer_with (raise_as failed_command)
        (perform (docker_start host) (λ log. w.docker_start log) s)

  -- Loockit of the host is started again if it was stopped.
  unfoldable pub restore_loockit : String → AgentAct (Unit {0})
  restore_loockit host s =
      let start = then_do (start_loockit host s) (λ _ t. (ok tt, save (set_stopped false t))) in
      if s.pending.loockit_stopped then start else (ok tt, s)

  abbrev pub ask_surviving : String → AgentAct Bool
  ask_surviving url = do answer ← urlopen w url; give (surviving_answer answer)

  -- Whether a tunnel of another node answers.
  unfoldable pub survives : String → Bool → Dict String → AgentAct Bool
  unfolding urlopen
  survives host found [] s = (ok found, s)
  survives host found ((node, url) ∷ d) s =
      let skip = survives host found d s in
      let look = then_do (ask_surviving url s) (λ up. survives host (found || up) d) in
      if node == host then skip else look

  -- The loop until the peer is ready, one turn for each unit of fuel.
  unfoldable pub await_peer : ℕ → ℕ → String → AgentAct (Unit {0})
  unfolding loockit_state
  await_peer zero deadline url s = (err out_of_fuel, s)
  await_peer (suc n) deadline url s =
      then_do (perform monotonic (λ log. ok (w.monotonic log)) s) (λ now t.
        let next = then_do (answer_with or_standby (loockit_state w url t)) (λ peer u.
          let rest = then_do (perform sleep (λ log. ok tt) u) (λ _. await_peer n deadline url) in
          if is_serving peer then (ok tt, u) else rest) in
        if ltb now deadline then next else (err blocked, t))

  -- `docker stop`, and the wait.
  unfoldable pub stop_and_wait : ℕ → String → String → AgentAct (Unit {0})
  unfolding await_peer
  stop_and_wait fuel host url = do
    perform (docker_stop host) (λ log. w.docker_stop log)
    now ← perform monotonic (λ log. ok (w.monotonic log))
    await_peer fuel (now + 480_000_000) url

  -- From the save that says so on, until Loockit of the host has been started again.
  unfoldable pub hand_over : ℕ → String → String → AgentAct (Unit {0})
  unfolding stop_and_wait restore_loockit
  hand_over fuel host url s =
      finally
        (answer_with (raise_as failed_command)
          (stop_and_wait fuel host url (save (set_stopped true s))))
        (restore_loockit host)

  -- Before the switch: the peer lives, Loockit of the host is ready, and a tunnel survives.
  unfoldable pub may_switch : String → Dict String → Dict String → String → AgentAct (Unit {0})
  unfolding survives loockit_state lookup
  may_switch host loockit tunnels url = do
    loockit_state w (healthz url)
    local ← give (required_key (lookup host loockit))
    here ← loockit_state w local
    require (is_serving here) blocked
    surviving ← survives host false tunnels
    require surviving blocked

  -- The peer is a standby.
  unfoldable pub switch_over : ℕ → String → Dict String → Dict String → String → AgentAct (Unit {0})
  unfolding may_switch hand_over availability_check
  switch_over fuel host loockit tunnels url = do
    may_switch host loockit tunnels url
    hand_over fuel host url
    availability_check w host true

  abbrev pub when_peer : ℕ → String → Policy → String → LoockitState → AgentAct (Unit {0})
  when_peer fuel host policy url serving = availability_check w host true
  when_peer fuel host policy url standby =
      switch_over fuel host policy.loockit_endpoints policy.tunnel_endpoints url

  unfoldable pub handoff_loockit : ℕ → String → AgentAct (Unit {0})
  unfolding switch_over availability_policy availability_check loockit_state lookup
  handoff_loockit fuel host = do
    policy ← availability_policy w host
    url ← give (required_key (lookup (peer_of host) policy.loockit_endpoints))
    peer ← loockit_state w url
    when_peer fuel host policy url peer

  unfoldable pub pve_recovered : String → AgentAct Bool
  unfolding availability_check
  pve_recovered host s = then_do (on_cluster w pve_healthy s) (λ healthy t.
      let answer = answer_with recovered_answer (availability_check w host false t) in
      if healthy then answer else (ok false, t))

  unfoldable pub any_newer : String → List String → Bool
  any_newer current [] = false
  any_newer current (version ∷ versions) = w.is_newer version current || any_newer current versions

  -- The kernels are looked at on a host of the cluster.
  abbrev pub or_kernels : Bool → Bool → AgentAct Bool
  or_kernels pve true = pure true
  or_kernels false false = pure false
  or_kernels true false = do
    (current, versions) ← perform read_kernels (λ log. w.kernels log)
    pure (any_newer current versions)

  unfoldable pub reboot_required : Bool → AgentAct Bool
  unfolding any_newer
  reboot_required pve = do
    flag ← perform reboot_flag (λ log. ok (w.required log))
    or_kernels pve flag

  abbrev pub only_pending : Bool → AgentAct Bool
  only_pending true = reboot_required true
  only_pending false = pure false

  abbrev pub maybe_handoff : ℕ → String → Bool → AgentAct (Unit {0})
  maybe_handoff fuel host true = handoff_loockit fuel host
  maybe_handoff fuel host false = pure tt

  -- The preflight but for its last check, with the handoff if there is an execution and the host will
  -- reboot.
  unfoldable pub preflight_start : ℕ → String → Bool → AgentAct (Unit {0})
  unfolding handoff_loockit reboot_required
  preflight_start fuel host pending = do
    healthy ← on_cluster w pve_healthy
    require healthy runtime_error
    on_cluster w (λ v. pve_tasks_idle v true)
    will ← only_pending pending
    maybe_handoff fuel host will

  unfoldable pub pve_preflight : ℕ → String → Bool → AgentAct (Unit {0})
  unfolding preflight_start availability_check
  pve_preflight fuel host pending = do
    preflight_start fuel host pending
    availability_check w host true
