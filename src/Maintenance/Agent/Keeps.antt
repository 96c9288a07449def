-- ===== src/Maintenance/Agent/Keeps.antt =====
-- What the checks of ansible/host-maintenance/files/maintenance-agent.py leave alone: they ask, and
-- the record of steps grows.
use my_infra.Prelude.{
  ℕ, ◌≡◌, refl, ap, Bool, true, false, ◌&&◌, List, [], ◌∷◌, String, ◌==◌, string_eq, nat_eq,
  Bool-cases, inl, inr,
}
use my_infra.Prelude.Dict.{Dict}
use my_infra.Prelude.Action.{then-Keeps}
use my_infra.Maintenance.Pve.{World}
use my_infra.Maintenance.Pve
use my_infra.Maintenance.Agent.{
  blocked, Call, report, claim, update_claim, result, update_result, recover, Step, ran, probed,
  read_policy, read_kernels, docker_start, docker_stop, monotonic, sleep, window, reboot_flag,
  simulate, refresh, install, reboot, called, save_execution, unlink_execution, save_update,
  unlink_update, lock, package_lock, audit, AgentState, AgentWorld, on_cluster, require,
}
use my_infra.Maintenance.Agent.Availability.{
  urlopen, availability_policy, ask_health, ask_loockit, count_ready, ask_tunnel, count_tunnels,
  check_services, availability_check, one_more, loockit_state, healthz,
}

-- What a step does.
pub data Kind : Type 0 where
  rebooting : Kind
  installing : Kind
  claiming : Kind
  -- Loockit of the host is stopped or started.
  switching : Kind
  quiet : Kind

abbrev pub call_kind : Call → Kind
call_kind claim = claiming
call_kind update_claim = claiming
call_kind (report r) = quiet
call_kind (result id outcome reason) = quiet
call_kind (update_result id outcome) = quiet
call_kind recover = quiet

abbrev pub kind_of : Step → Kind
kind_of reboot = rebooting
kind_of install = installing
kind_of (called call) = call_kind call
kind_of (ran log) = quiet
kind_of (probed url answer) = quiet
kind_of read_policy = quiet
kind_of read_kernels = quiet
kind_of (docker_start host) = switching
kind_of (docker_stop host) = switching
kind_of monotonic = quiet
kind_of sleep = quiet
kind_of (window hour) = quiet
kind_of reboot_flag = quiet
kind_of simulate = quiet
kind_of refresh = quiet
kind_of (save_execution p) = quiet
kind_of unlink_execution = quiet
kind_of (save_update u) = quiet
kind_of unlink_update = quiet
kind_of lock = quiet
kind_of package_lock = quiet
kind_of audit = quiet

abbrev pub is_active : Kind → Bool
is_active rebooting = true
is_active installing = true
is_active claiming = true
is_active switching = false
is_active quiet = false

abbrev pub is_rebooting : Kind → Bool
is_rebooting rebooting = true
is_rebooting installing = false
is_rebooting claiming = false
is_rebooting switching = false
is_rebooting quiet = false

-- The steps that change a host, or ask for the permission to.
abbrev pub acts : Step → Bool
acts e = is_active (kind_of e)

abbrev pub is_reboot : Step → Bool
is_reboot e = is_rebooting (kind_of e)

inactive : (k : Kind) → is_active k ≡ false → is_rebooting k ≡ false
inactive rebooting h = absurd cc
inactive installing h = refl
inactive claiming h = refl
inactive switching h = refl
inactive quiet h = refl

pub quiet-is_reboot : (e : Step) → acts e ≡ false → is_reboot e ≡ false
quiet-is_reboot e h = inactive (kind_of e) h

-- A predicate that what is asked does not change.
pub record Stable (P : AgentState → Type 0) : Type 0 where
  pub asked :
      (e : Step) (s : AgentState) → kind_of e ≡ quiet → P s → P (record s { log = e ∷ s.log })
  pub ran_on :
      (b : Pve.State) (s : AgentState) → P s → P (record s { backups = b; log = ran b.log ∷ s.log })

-- A predicate on the record that only steps change which act.
pub quiet-Stable :
    (Q : List Step → Type 0)
    → ((e : Step) (log : List Step) → acts e ≡ false → Q log → Q (e ∷ log))
    → Stable (λ s. Q s.log)
quiet-Stable Q push = record {
  asked = λ e s a h. push e s.log (ap is_active a) h;
  ran_on = λ b s h. push (ran b.log) s.log refl h;
}

module _ (P : AgentState → Type 0) (stable : Stable P) (w : AgentWorld) where
  pub on_cluster-Keeps :
      {A : Type 0} (act : World → Pve.Act A) (s : AgentState) → P s → P (on_cluster w act s).1
  on_cluster-Keeps act s h = stable.ran_on _ s h

  pub urlopen-Keeps : (url : String) (s : AgentState) → P s → P (urlopen w url s).1
  unfolding urlopen
  urlopen-Keeps url s h = stable.asked (probed url (w.urlopen s.log url)) s refl h

  pub availability_policy-Keeps :
      (host : String) (s : AgentState) → P s → P (availability_policy w host s).1
  unfolding availability_policy
  availability_policy-Keeps host s h =
      then-Keeps P _ _ (stable.asked read_policy s refl h) (λ p t k. k)

  ask_health-Keeps : (b : Bool) (url : String) (s : AgentState) → P s → P (ask_health w b url s).1
  unfolding urlopen
  ask_health-Keeps true url s h = h
  ask_health-Keeps false url s h = urlopen-Keeps (healthz url) s h

  ask_loockit-Keeps : (b : Bool) (url : String) (s : AgentState) → P s → P (ask_loockit w b url s).1
  unfolding ask_loockit urlopen
  ask_loockit-Keeps b url s h =
      then-Keeps P (ask_health w b url s) _ (ask_health-Keeps b url s h)
        (λ _ t k. urlopen-Keeps url t k)

  pub count_ready-Keeps :
      (host : String) (b : Bool) (n : ℕ) (d : Dict String) (s : AgentState)
      → P s
      → P (count_ready w host b n d s).1
  unfolding count_ready
  count_ready-Keeps host b n [] s h = h
  count_ready-Keeps host b n ((node, url) ∷ d) s h = elim (Bool-cases (b && (node == host))) [
    | inl e ↦ rw (count_ready, e) (count_ready-Keeps host b n d s h)
    | inr e ↦
        rw (count_ready, e)
          (then-Keeps P _ _ (ask_loockit-Keeps b url s h)
            (λ up t k. count_ready-Keeps host b (one_more up n) d t k))
  ]

  pub count_tunnels-Keeps :
      (host : String) (b : Bool) (n : ℕ) (d : Dict String) (s : AgentState)
      → P s
      → P (count_tunnels w host b n d s).1
  unfolding count_tunnels urlopen
  count_tunnels-Keeps host b n [] s h = h
  count_tunnels-Keeps host b n ((node, url) ∷ d) s h = elim (Bool-cases (b && (node == host))) [
    | inl e ↦ rw (count_tunnels, e) (count_tunnels-Keeps host b n d s h)
    | inr e ↦
        rw (count_tunnels, e)
          (then-Keeps P (ask_tunnel w url s) _ (urlopen-Keeps url s h)
            (λ up t k. count_tunnels-Keeps host b (one_more up n) d t k))
  ]

  check_services-Keeps :
      (host : String) (b : Bool) (s : AgentState) → P s → P (check_services w host b s).1
  unfolding check_services
  check_services-Keeps host b s h =
      then-Keeps P (availability_policy w host s) _ (availability_policy-Keeps host s h)
        (λ policy t k.
          then-Keeps P (count_ready w host b 0 policy.loockit_endpoints t) _
            (count_ready-Keeps host b 0 policy.loockit_endpoints t k)
            (λ ready u l. then-Keeps P (require (ready == 1) blocked u) _ l (λ _ v m.
              then-Keeps P (count_tunnels w host b 0 policy.tunnel_endpoints v) _
                (count_tunnels-Keeps host b 0 policy.tunnel_endpoints v m) (λ tunnels x o. o))))

  pub availability_check-Keeps :
      (host : String) (b : Bool) (s : AgentState) → P s → P (availability_check w host b s).1
  unfolding availability_check
  availability_check-Keeps host b s h = check_services-Keeps host b s h

  pub loockit_state-Keeps : (url : String) (s : AgentState) → P s → P (loockit_state w url s).1
  unfolding loockit_state urlopen
  loockit_state-Keeps url s h = urlopen-Keeps url s h
