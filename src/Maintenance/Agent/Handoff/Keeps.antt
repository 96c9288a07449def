-- ===== src/Maintenance/Agent/Handoff/Keeps.antt =====
-- What the preflight of ansible/host-maintenance/files/maintenance-agent.py leaves alone.
use my_infra.Prelude.{
  ℕ, zero, suc, ◌+◌, refl, ◌≡◌, Bool, true, false, ◌||◌, [], ◌∷◌, String, ltb, ◌==◌, string_eq,
  if◌then◌else◌, Bool-cases, inl, inr,
}
use my_infra.Prelude.Dict.{Dict, lookup}
use my_infra.Prelude.Action.{Result, ok, then_do, then-Keeps}
use my_infra.Maintenance.Pve.{pve_healthy, pve_tasks_idle}
use my_infra.Maintenance.Agent.{
  AgentError, blocked, runtime_error, Policy, Step, docker_start, docker_stop, monotonic, sleep,
  read_kernels, reboot_flag, AgentState, AgentWorld, perform, answer_with, give, require,
  on_cluster, save,
}
use my_infra.Maintenance.Agent.Availability.{
  urlopen, availability_policy, availability_check, LoockitState, serving, standby, loockit_state,
  healthz, raise_as,
}
use my_infra.Maintenance.Agent.Handoff.{
  set_stopped, peer_of, required_key, or_standby, is_serving, start_loockit, restore_loockit,
  ask_surviving, survives, await_peer, stop_and_wait, hand_over, may_switch, switch_over, when_peer,
  handoff_loockit, pve_recovered, or_kernels, reboot_required, only_pending, maybe_handoff,
  preflight_start, pve_preflight, recovered_answer, failed_command,
}
use my_infra.Maintenance.Agent.Keeps.{
  Stable, kind_of, switching, on_cluster-Keeps, urlopen-Keeps, availability_policy-Keeps,
  availability_check-Keeps, loockit_state-Keeps,
}

-- A predicate that the journal of the handoff does not change either.
pub record Saved (P : AgentState → Type 0) : Type 0 where
  pub stopped : (b : Bool) (s : AgentState) → P s → P (set_stopped b s)
  pub put : (s : AgentState) → P s → P (save s)
  pub switched :
      (e : Step) (s : AgentState) → kind_of e ≡ switching → P s → P (record s { log = e ∷ s.log })

pub cond-Keeps :
    {A : Type 0} (P : AgentState → Type 0) (b : Bool) (x y : Result AgentError A × AgentState)
    → P x.1
    → P y.1
    → P (if b then x else y).1
cond-Keeps P true x y h k = h
cond-Keeps P false x y h k = k

module _ (P : AgentState → Type 0) (stable : Stable P) (w : AgentWorld) where
  pub survives-Keeps :
      (host : String) (found : Bool) (d : Dict String) (s : AgentState)
      → P s
      → P (survives w host found d s).1
  unfolding survives urlopen
  survives-Keeps host found [] s h = h
  survives-Keeps host found ((node, url) ∷ d) s h = elim (Bool-cases (node == host)) [
    | inl e ↦ rw (survives, e) (survives-Keeps host found d s h)
    | inr e ↦
        rw (survives, e)
          (then-Keeps P (ask_surviving w url s) _ (urlopen-Keeps P stable w url s h)
            (λ up t k. survives-Keeps host (found || up) d t k))
  ]

  pub await_peer-Keeps :
      (n deadline : ℕ) (url : String) (s : AgentState) → P s → P (await_peer w n deadline url s).1
  unfolding await_peer
  await_peer-Keeps zero deadline url s h = h
  await_peer-Keeps (suc n) deadline url s h =
      let asked = stable.asked monotonic s refl h in
      let t : AgentState = record s { log = monotonic ∷ s.log } in
      elim (Bool-cases (ltb (w.monotonic s.log) deadline)) [
        | inr e ↦ rw (await_peer, e) asked
        | inl e ↦
            rw (await_peer, e)
              (then-Keeps P (answer_with or_standby (loockit_state w url t)) _
                (loockit_state-Keeps P stable w url t asked)
                (λ peer u k.
                  elim peer
                    as (λ p.
                      P
                        (if is_serving p
                          then (ok tt, u)
                          else then_do (perform sleep (λ log. ok tt) u)
                              (λ _. await_peer w n deadline url)).1) [
                                | serving ↦ k
                                | standby ↦
                                    await_peer-Keeps n deadline url _ (stable.asked sleep u refl k)
                              ]))
      ]

  pub stop_and_wait-Keeps :
      (fuel : ℕ) (host url : String) (s : AgentState)
      → P (record s { log = docker_stop host ∷ s.log })
      → P (stop_and_wait w fuel host url s).1
  unfolding stop_and_wait
  stop_and_wait-Keeps fuel host url s h =
      then-Keeps P (perform (docker_stop host) (λ log. w.docker_stop log) s) _ h (λ a t k.
        await_peer-Keeps fuel (w.monotonic t.log + 480_000_000) url _
          (stable.asked monotonic t refl k))

  pub pve_recovered-Keeps : (host : String) (s : AgentState) → P s → P (pve_recovered w host s).1
  unfolding pve_recovered
  pve_recovered-Keeps host s h =
      then-Keeps P (on_cluster w pve_healthy s) _ (on_cluster-Keeps P stable w pve_healthy s h)
        (λ healthy t k.
          cond-Keeps P healthy (answer_with recovered_answer (availability_check w host false t))
            (ok false, t) (availability_check-Keeps P stable w host false t k) k)

  or_kernels-Keeps : (b flag : Bool) (s : AgentState) → P s → P (or_kernels w b flag s).1
  or_kernels-Keeps b true s h = h
  or_kernels-Keeps false false s h = h
  or_kernels-Keeps true false s h =
      then-Keeps P (perform read_kernels (λ log. w.kernels log) s) _
        (stable.asked read_kernels s refl h) (λ a t k. k)

  pub reboot_required-Keeps : (b : Bool) (s : AgentState) → P s → P (reboot_required w b s).1
  unfolding reboot_required
  reboot_required-Keeps b s h =
      or_kernels-Keeps b (w.required s.log) _ (stable.asked reboot_flag s refl h)

  pub may_switch-Keeps :
      (host : String) (loockit tunnels : Dict String) (url : String) (s : AgentState)
      → P s
      → P (may_switch w host loockit tunnels url s).1
  unfolding may_switch
  may_switch-Keeps host loockit tunnels url s h =
      then-Keeps P (loockit_state w (healthz url) s) _
        (loockit_state-Keeps P stable w (healthz url) s h)
        (λ a t k. then-Keeps P (give (required_key (lookup host loockit)) t) _ k (λ local u l.
          then-Keeps P (loockit_state w local u) _ (loockit_state-Keeps P stable w local u l)
            (λ here v m. then-Keeps P (require (is_serving here) blocked v) _ m (λ _ x o.
              then-Keeps P (survives w host false tunnels x) _
                (survives-Keeps host false tunnels x o) (λ surviving y q. q)))))

  module _ (saves : Saved P) where
    pub restore_loockit-Keeps :
        (host : String) (s : AgentState) → P s → P (restore_loockit w host s).1
    unfolding restore_loockit
    restore_loockit-Keeps host s h =
        let start : Result AgentError (Unit {0}) × AgentState =
          then_do (start_loockit w host s) (λ _ t. (ok tt, save (set_stopped false t))) in
        cond-Keeps P (s.pending.loockit_stopped) start (ok tt, s)
          (then-Keeps P (start_loockit w host s) (λ _ t. (ok tt, save (set_stopped false t)))
            (saves.switched (docker_start host) s refl h)
            (λ a t k. saves.put _ (saves.stopped false t k)))
          h

    hand_over-Keeps :
        (fuel : ℕ) (host url : String) (s : AgentState) → P s → P (hand_over w fuel host url s).1
    unfolding hand_over
    hand_over-Keeps fuel host url s h =
        let stopped : AgentState = save (set_stopped true s) in
        let t : AgentState = (stop_and_wait w fuel host url stopped).1 in
        then-Keeps P (restore_loockit w host t)
          (λ _ u. (raise_as failed_command (stop_and_wait w fuel host url stopped).0, u))
          (restore_loockit-Keeps host t (
            stop_and_wait-Keeps fuel host url stopped (
              saves.switched (docker_stop host) stopped refl
                (saves.put (set_stopped true s) (saves.stopped true s h)))))
          (λ a u k. k)

    switch_over-Keeps :
        (fuel : ℕ) (host : String) (loockit tunnels : Dict String) (url : String) (s : AgentState)
        → P s
        → P (switch_over w fuel host loockit tunnels url s).1
    unfolding switch_over
    switch_over-Keeps fuel host loockit tunnels url s h =
        then-Keeps P (may_switch w host loockit tunnels url s) _
          (may_switch-Keeps host loockit tunnels url s h)
          (λ _ t k.
            then-Keeps P (hand_over w fuel host url t) _ (hand_over-Keeps fuel host url t k)
              (λ _ u l. availability_check-Keeps P stable w host true u l))

    when_peer-Keeps :
        (fuel : ℕ) (host : String) (policy : Policy) (url : String) (peer : LoockitState)
        (s : AgentState)
        → P s
        → P (when_peer w fuel host policy url peer s).1
    when_peer-Keeps fuel host policy url serving s h =
        availability_check-Keeps P stable w host true s h
    when_peer-Keeps fuel host policy url standby s h =
        switch_over-Keeps fuel host policy.loockit_endpoints policy.tunnel_endpoints url s h

    handoff_loockit-Keeps :
        (fuel : ℕ) (host : String) (s : AgentState) → P s → P (handoff_loockit w fuel host s).1
    unfolding handoff_loockit
    handoff_loockit-Keeps fuel host s h =
        then-Keeps P (availability_policy w host s) _
          (availability_policy-Keeps P stable w host s h)
          (λ policy t k.
            then-Keeps P (give (required_key (lookup (peer_of host) policy.loockit_endpoints)) t) _
              k
              (λ url u l.
                then-Keeps P (loockit_state w url u) _ (loockit_state-Keeps P stable w url u l)
                  (λ peer v m. when_peer-Keeps fuel host policy url peer v m)))

    only_pending-Keeps : (b : Bool) (s : AgentState) → P s → P (only_pending w b s).1
    only_pending-Keeps true s h = reboot_required-Keeps true s h
    only_pending-Keeps false s h = h

    maybe_handoff-Keeps :
        (fuel : ℕ) (host : String) (b : Bool) (s : AgentState)
        → P s
        → P (maybe_handoff w fuel host b s).1
    maybe_handoff-Keeps fuel host true s h = handoff_loockit-Keeps fuel host s h
    maybe_handoff-Keeps fuel host false s h = h

    -- All of the preflight but its last check.
    pub preflight_start-Keeps :
        (fuel : ℕ) (host : String) (b : Bool) (s : AgentState)
        → P s
        → P (preflight_start w fuel host b s).1
    unfolding preflight_start
    preflight_start-Keeps fuel host b s h =
        then-Keeps P (on_cluster w pve_healthy s) _ (on_cluster-Keeps P stable w pve_healthy s h)
          (λ healthy t k. then-Keeps P (require healthy runtime_error t) _ k (λ _ u l.
            then-Keeps P (on_cluster w (λ v. pve_tasks_idle v true) u) _
              (on_cluster-Keeps P stable w (λ v. pve_tasks_idle v true) u l)
              (λ tasks v m.
                then-Keeps P (only_pending w b v) _ (only_pending-Keeps b v m)
                  (λ will x o. maybe_handoff-Keeps fuel host will x o))))

    pub pve_preflight-Keeps :
        (fuel : ℕ) (host : String) (b : Bool) (s : AgentState)
        → P s
        → P (pve_preflight w fuel host b s).1
    unfolding pve_preflight
    pve_preflight-Keeps fuel host b s h =
        then-Keeps P (preflight_start w fuel host b s) _ (preflight_start-Keeps fuel host b s h)
          (λ _ t k. availability_check-Keeps P stable w host true t k)
