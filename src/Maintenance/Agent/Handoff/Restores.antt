-- ===== src/Maintenance/Agent/Handoff/Restores.antt =====
-- `handoff_loockit` of ansible/host-maintenance/files/maintenance-agent.py starts Loockit again, or says
-- that it is stopped.
use my_infra.Prelude.{
  ◌≡◌, ◌≢◌, refl, ap, ◌∙◌, ℕ, true, false, some, List, [], ◌∷◌, String, inl, inr,
}
use my_infra.Prelude.Dict.{Dict, lookup}
use my_infra.Prelude.Action.{Result, ok, err, then_do, Result-cases}
use my_infra.Maintenance.Agent.{
  AgentError, Policy, Step, ran, docker_start, docker_stop, save_execution, AgentState, AgentWorld,
  AgentAct, give, save,
}
use my_infra.Maintenance.Agent.Availability.{
  availability_policy, availability_check, LoockitState, serving, standby, loockit_state, raise_as,
}
use my_infra.Maintenance.Agent.Availability.Serves.{Since, Since-more}
use my_infra.Maintenance.Agent.Handoff.{
  set_stopped, peer_of, failed_command, required_key, finally, restore_loockit, stop_and_wait,
  hand_over, may_switch, switch_over, when_peer, handoff_loockit,
}
use my_infra.Maintenance.Agent.Keeps.{
  Kind, rebooting, installing, claiming, switching, quiet, kind_of, Stable,
  availability_policy-Keeps, availability_check-Keeps, loockit_state-Keeps,
}
use my_infra.Maintenance.Agent.Handoff.Keeps.{may_switch-Keeps, stop_and_wait-Keeps}

abbrev keep_switch : Kind → Step → List Step → List Step
keep_switch switching e steps = e ∷ steps
keep_switch rebooting e steps = steps
keep_switch installing e steps = steps
keep_switch claiming e steps = steps
keep_switch quiet e steps = steps

-- The steps that stop or start Loockit, the last one first.
abbrev pub switches : List Step → List Step
switches [] = []
switches (e ∷ log) = keep_switch (kind_of e) e (switches log)

-- Loockit was stopped once since the record `old`, and after that only one start was tried, at the
-- record `asked`.
pub record Stopped (host : String) (old asked log : List Step) : Type 0 where
  pub stopped : switches asked ≡ docker_stop host ∷ switches old
  pub tried : Since (docker_start host ∷ asked) log
  pub only : switches log ≡ docker_start host ∷ docker_stop host ∷ switches old

-- The journal on disk says that it is stopped.
abbrev pub IsKnown : AgentState → Type 0
IsKnown s = (s.pending.loockit_stopped ≡ true) × (s.execution ≡ some s.pending)

-- How a handoff may end.
pub data Restored (w : AgentWorld) (host : String) (old : List Step)
    (r : Result AgentError (Unit {0}) × AgentState) : Type 0 where
  -- Loockit of the host was not touched.
  untouched :
      switches r.1.log ≡ switches old → r.1.pending.loockit_stopped ≡ false → Restored w host old r
  -- It was stopped, and started again.
  restarted :
      (asked : List Step)
      → Stopped host old asked r.1.log
      → w.docker_start asked ≡ ok tt
      → r.1.pending.loockit_stopped ≡ false
      → Restored w host old r
  -- It was stopped, and starting it has failed.
  left_stopped :
      (asked : List Step) (error : AgentError)
      → Stopped host old asked r.1.log
      → w.docker_start asked ≡ err error
      → r.0 ≢ ok tt
      → IsKnown r.1
      → Restored w host old r

module _ (w : AgentWorld) (host : String) (old : List Step) where
  abbrev Ended : Result AgentError (Unit {0}) × AgentState → Type 0
  Ended r = Restored w host old r

  -- Loockit runs and was not touched.
  abbrev Untouched : AgentState → Type 0
  Untouched s = (switches s.log ≡ switches old) × (s.pending.loockit_stopped ≡ false)

  -- Loockit was stopped and is not started yet.
  abbrev Down : AgentState → Type 0
  Down s = (switches s.log ≡ docker_stop host ∷ switches old) × IsKnown s

  -- It was started again.
  abbrev Again : List Step → AgentState → Type 0
  Again asked s = Stopped host old asked s.log × (s.pending.loockit_stopped ≡ false)

  switches_quiet :
      (e : Step) (log : List Step) → kind_of e ≡ quiet → switches (e ∷ log) ≡ switches log
  switches_quiet e log q = ap (λ k. keep_switch k e (switches log)) q

  Untouched-Stable : Stable Untouched
  Untouched-Stable = record {
    asked = λ e s q h. (switches_quiet e s.log q ∙ h.0, h.1);
    ran_on = λ b s h. h;
  }

  Down-Stable : Stable Down
  Down-Stable = record {
    asked = λ e s q h. (switches_quiet e s.log q ∙ h.0, h.1);
    ran_on = λ b s h. h;
  }

  Stopped-more :
      (asked : List Step) (e : Step) (log : List Step)
      → kind_of e ≡ quiet
      → Stopped host old asked log
      → Stopped host old asked (e ∷ log)
  Stopped-more asked e log q h = record {
    stopped = h.stopped;
    tried = Since-more (docker_start host ∷ asked) e log h.tried;
    only = switches_quiet e log q ∙ h.only;
  }

  Again-Stable : (asked : List Step) → Stable (Again asked)
  Again-Stable asked = record {
    asked = λ e s q h. (Stopped-more asked e s.log q h.0, h.1);
    ran_on = λ b s h. (Stopped-more asked (ran b.log) s.log refl h.0, h.1);
  }

  then-Ended :
      {A : Type 0} (r : Result AgentError A × AgentState) (f : A → AgentAct (Unit {0}))
      → Untouched r.1
      → ((a : A) (t : AgentState) → Untouched t → Ended (f a t))
      → Ended (then_do r f)
  then-Ended (ok a, s) f h k = k a s h
  then-Ended (err e, s) f h k = untouched h.0 h.1

  -- The check after the handoff.
  Ended-then :
      (r : Result AgentError (Unit {0}) × AgentState)
      → Ended r
      → Ended (then_do r (λ _. availability_check w host true))
  Ended-then (ok a, s) (untouched same runs) =
      let h = availability_check-Keeps Untouched Untouched-Stable w host true s (same, runs) in
      untouched h.0 h.1
  Ended-then (ok a, s) (restarted asked stopped up runs) =
      let h =
        availability_check-Keeps (Again asked) (Again-Stable asked) w host true s (stopped, runs) in
      restarted asked h.0 up h.1
  Ended-then (ok a, s) (left_stopped asked error stopped down failed known) = absurd (failed refl)
  Ended-then (err e, s) (untouched same runs) = untouched same runs
  Ended-then (err e, s) (restarted asked stopped up runs) = restarted asked stopped up runs
  Ended-then (err e, s) (left_stopped asked error stopped down failed known) =
      left_stopped asked error stopped down (λ q. absurd cc) known

  -- The attempt to start it again, whatever came before.
  finally-Ended :
      (r : Result AgentError (Unit {0})) (t : AgentState)
      → Down t
      → Ended (finally (r, t) (restore_loockit w host))
  unfolding restore_loockit
  finally-Ended r t h = elim (Result-cases (w.docker_start t.log)) [
    | inl (a, e) ↦
        rw (restore_loockit, h.1.0, e)
          (restarted t.log
            record {
              stopped = h.0;
              tried = record { recent = save_execution _ ∷ []; grown = refl };
              only = ap (λ l. docker_start host ∷ l) h.0;
            }
            e refl)
    | inr (f, e) ↦
        rw (restore_loockit, h.1.0, e)
          (left_stopped t.log f
            record {
              stopped = h.0;
              tried = record { recent = []; grown = refl };
              only = ap (λ l. docker_start host ∷ l) h.0;
            }
            e (λ q. absurd cc) (refl, cc (h.1.1)))
  ]

  hand_over-Ended :
      (fuel : ℕ) (url : String) (s : AgentState) → Untouched s → Ended (hand_over w fuel host url s)
  unfolding hand_over
  hand_over-Ended fuel url s h =
      let stopped : AgentState = save (set_stopped true s) in
      finally-Ended (raise_as failed_command (stop_and_wait w fuel host url stopped).0)
        (stop_and_wait w fuel host url stopped).1
        (stop_and_wait-Keeps Down Down-Stable w fuel host url stopped
          (ap (λ l. docker_stop host ∷ l) h.0, (refl, refl)))

  switch_over-Ended :
      (fuel : ℕ) (loockit tunnels : Dict String) (url : String) (s : AgentState)
      → Untouched s
      → Ended (switch_over w fuel host loockit tunnels url s)
  unfolding switch_over
  switch_over-Ended fuel loockit tunnels url s h =
      then-Ended (may_switch w host loockit tunnels url s) _
        (may_switch-Keeps Untouched Untouched-Stable w host loockit tunnels url s h)
        (λ _ t k. Ended-then (hand_over w fuel host url t) (hand_over-Ended fuel url t k))

  when_peer-Ended :
      (fuel : ℕ) (policy : Policy) (url : String) (peer : LoockitState) (s : AgentState)
      → Untouched s
      → Ended (when_peer w fuel host policy url peer s)
  when_peer-Ended fuel policy url serving s h =
      let k = availability_check-Keeps Untouched Untouched-Stable w host true s h in
      untouched k.0 k.1
  when_peer-Ended fuel policy url standby s h =
      switch_over-Ended fuel policy.loockit_endpoints policy.tunnel_endpoints url s h

-- If Loockit of the host ran before as far as the journal says, one of three holds however the handoff
-- ends. No container was stopped or started. Or Loockit of the host was stopped once and after that
-- started once, and the start has succeeded. Or it was stopped once and the one start after that has
-- failed: then the handoff has failed too, and the journal on disk says that Loockit is stopped.
pub handoff_loockit-Restored :
    (w : AgentWorld) (fuel : ℕ) (host : String) (s : AgentState)
    → s.pending.loockit_stopped ≡ false
    → Restored w host s.log (handoff_loockit w fuel host s)
unfolding handoff_loockit
handoff_loockit-Restored w fuel host s h =
    let calm = Untouched-Stable w host s.log in
    let runs : AgentState → Type 0 = Untouched w host s.log in
    then-Ended w host s.log (availability_policy w host s) _
      (availability_policy-Keeps runs calm w host s (refl, h))
      (λ policy t k.
        then-Ended w host s.log
          (give (required_key (lookup (peer_of host) policy.loockit_endpoints)) t) _ k
          (λ url u l.
            then-Ended w host s.log (loockit_state w url u) _
              (loockit_state-Keeps runs calm w url u l)
              (λ peer v m. when_peer-Ended w host s.log fuel policy url peer v m)))
