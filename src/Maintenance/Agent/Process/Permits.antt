-- ===== src/Maintenance/Agent/Process/Permits.antt =====
-- When `process` of ansible/host-maintenance/files/maintenance-agent.py reboots the host.
use text.Mathlib.Text.{starts_with}
use my_infra.Prelude.{
  ℕ, ◌≡◌, refl, ap, Bool, true, false, ◌&&◌, some, List, [], ◌∷◌, ◌++◌, String, All, nat_eq,
  string_eq,
}
use my_infra.Prelude.Action.{Result, ok, err, then_do, ◌>>=◌, ◌>>◌, pure}
use my_infra.Maintenance.Pve.{package_idle, pve_tasks_idle}
use my_infra.Maintenance.Backup.Prepare.{Progress}
use my_infra.Maintenance.Agent.{
  AgentError, blocked, runtime_error, Step, claim, called, window, reboot_flag, save_execution,
  AgentState, AgentWorld, Config, AgentAct, give, require, on_cluster,
}
use my_infra.Maintenance.Agent.Availability.{availability_check}
use my_infra.Maintenance.Agent.Availability.Alive.{
  IsSafeWithout, IsSafeWithout-push, Passed, then-Passed, availability_check-Passed,
}
use my_infra.Maintenance.Agent.Availability.Serves.{Since, guard_true}
use my_infra.Maintenance.Agent.Handoff.{reboot_required, preflight_start, pve_preflight}
use my_infra.Maintenance.Agent.Updates.{is_night, hour_of, pve_reboot_window_open}
use my_infra.Maintenance.Agent.Process.{
  pve, only_if, is_ready, stop_backups, recheck, ready_to_reboot, required_here, first_check,
  checks,
}
use my_infra.Maintenance.Agent.Keeps.{Stable, acts, is_active, is_reboot, quiet-Stable}
use my_infra.Maintenance.Agent.Handoff.Keeps.{
  Saved, preflight_start-Keeps, pve_preflight-Keeps, reboot_required-Keeps,
}

-- The last step has found that it is night in Japan.
pub record IsNight (log : List Step) : Type 0 where
  pub hour : ℕ
  pub before : List Step
  pub last : log ≡ window hour ∷ before
  pub night : is_night hour ≡ true

-- Since the record `old` there are only steps that neither claim nor change the host.
pub record OnlyQuiet (old log : List Step) : Type 0 where
  pub recent : List Step
  pub grown : log ≡ recent ++ old
  pub calm : All (λ e. acts e ≡ false) recent

-- What is needed for a reboot. The controller has granted a claim, and since then nothing else was
-- claimed, installed or rebooted. And on a host of the cluster it is night, and Loockit and a tunnel
-- have been seen alive on other nodes since the claim.
pub record IsPermitted (w : AgentWorld) (config : Config) (log : List Step) : Type 0 where
  pub old : List Step
  pub id : String
  pub granted : w.api old claim ≡ ok (some id)
  pub claimed : OnlyQuiet (called claim ∷ old) log
  pub cluster :
      starts_with config.host "pve-" ≡ true
      → IsNight log × IsSafeWithout w config.host (called claim ∷ old) log

-- Each reboot in the record was permitted.
abbrev pub IsAuthorised : AgentWorld → Config → List Step → Type 0
IsAuthorised w config [] = Unit
IsAuthorised w config (e ∷ log) =
    (is_reboot e ≡ true → IsPermitted w config log) × IsAuthorised w config log

module _ (w : AgentWorld) (fuel : ℕ) (config : Config) (old : List Step) where
  abbrev pub Recent : AgentState → Type 0
  Recent s = Since old s.log

  pub Since-push :
      (e : Step) (log : List Step) → acts e ≡ false → Since old log → Since old (e ∷ log)
  Since-push e log a h = record { recent = e ∷ h.recent; grown = cc (h.grown) }

  pub Recent-Stable : Stable Recent
  Recent-Stable = quiet-Stable (Since old) Since-push

  pub Recent-Saved : Saved Recent
  Recent-Saved = record {
    stopped = λ b s h. h;
    put = λ s h. Since-push (save_execution s.pending) s.log refl h;
    switched = λ e s a h. Since-push e s.log (ap is_active a) h;
  }

  -- The same with quiet steps only.
  abbrev pub Calm : AgentState → Type 0
  Calm s = OnlyQuiet old s.log

  pub OnlyQuiet-push :
      (e : Step) (log : List Step) → acts e ≡ false → OnlyQuiet old log → OnlyQuiet old (e ∷ log)
  OnlyQuiet-push e log a h = record {
    recent = e ∷ h.recent;
    grown = cc (h.grown);
    calm = (a, h.calm);
  }

  pub Calm-Stable : Stable Calm
  Calm-Stable = quiet-Stable (OnlyQuiet old) OnlyQuiet-push

  pub Calm-Saved : Saved Calm
  Calm-Saved = record {
    stopped = λ b s h. h;
    put = λ s h. OnlyQuiet-push (save_execution s.pending) s.log refl h;
    switched = λ e s a h. OnlyQuiet-push e s.log (ap is_active a) h;
  }

  abbrev Clear : List Step → Type 0
  Clear log = IsNight log × IsSafeWithout w config.host old log

  -- What follows if nothing is raised.
  abbrev Cleared : Result AgentError (Unit {0}) × AgentState → Type 0
  Cleared r = r.0 ≡ ok tt → Clear r.1.log

  then-Cleared :
      {A : Type 0} (r : Result AgentError A × AgentState) (f : A → AgentAct (Unit {0}))
      → ((a : A) → r.0 ≡ ok a → Cleared (f a r.1))
      → Cleared (then_do r f)
  then-Cleared (ok a, s) f k = k a refl
  then-Cleared (err e, s) f k = λ q. absurd cc

  window-Cleared :
      (s : AgentState)
      → IsSafeWithout w config.host old s.log
      → Cleared (then_do (pve_reboot_window_open w s) (λ still. require still blocked))
  unfolding pve_reboot_window_open
  window-Cleared s h =
      let hour : ℕ = hour_of (w.time s.log) in
      λ q. (
        record {
          hour = hour;
          before = s.log;
          last = refl;
          night = guard_true w config.host old (is_night hour) blocked s q;
        },
        IsSafeWithout-push w config.host old (window hour) s.log h,
      )

  preflight-Passed :
      (s : AgentState)
      → Since old s.log
      → Passed w config.host old (pve_preflight w fuel config.host false s)
  unfolding pve_preflight
  preflight-Passed s h =
      then-Passed w config.host old (preflight_start w fuel config.host false s)
        (λ _. availability_check w config.host true)
        (λ _ e.
          availability_check-Passed w config.host old (preflight_start w fuel config.host false s).1
            (preflight_start-Keeps Recent Recent-Stable w Recent-Saved fuel config.host false s h))

  recheck-Cleared : (s : AgentState) → Since old s.log → Cleared (recheck w fuel config s)
  unfolding recheck
  recheck-Cleared s h = then-Cleared (pve_preflight w fuel config.host false s) _ (λ _ e.
      then-Cleared
        (on_cluster w (λ v. pve_tasks_idle v false) (pve_preflight w fuel config.host false s).1) _
        (λ tasks _.
          window-Cleared
            (on_cluster w (λ v. pve_tasks_idle v false)
              (pve_preflight w fuel config.host false s).1).1
            (IsSafeWithout-push w config.host old _ (pve_preflight w fuel config.host false s).1.log
              (preflight-Passed s h e))))

  ready_to_reboot-Cleared :
      (s : AgentState) → Since old s.log → Cleared (ready_to_reboot w fuel config s)
  unfolding ready_to_reboot pve_reboot_window_open
  ready_to_reboot-Cleared s h =
      let night : AgentState = (pve_reboot_window_open w s).1 in
      let k : Since old night.log = Since-push (window (hour_of (w.time s.log))) s.log refl h in
      let go : Progress → AgentAct (Unit {0}) =
        λ progress. give (is_ready progress) >> recheck w fuel config in
      then-Cleared (pve_reboot_window_open w s)
        (λ is_open. require is_open blocked >> (stop_backups w fuel config >>= go))
        (λ is_open _.
          then-Cleared (require is_open blocked night) (λ _. stop_backups w fuel config >>= go)
            (λ _ _. then-Cleared (stop_backups w fuel config night) go (λ progress _.
              then-Cleared (give (is_ready progress) (stop_backups w fuel config night).1)
                (λ _. recheck w fuel config)
                (λ _ _.
                  recheck-Cleared (stop_backups w fuel config night).1
                    (Since-push _ night.log refl k)))))

  -- If the host is to be rebooted, and is one of the cluster.
  abbrev Ready : Result AgentError Bool × AgentState → Type 0
  Ready r = r.0 ≡ ok true → starts_with config.host "pve-" ≡ true → Clear r.1.log

  then-Ready :
      {A : Type 0} (r : Result AgentError A × AgentState) (f : A → AgentAct Bool)
      → ((a : A) → r.0 ≡ ok a → Ready (f a r.1))
      → Ready (then_do r f)
  then-Ready (ok a, s) f k = k a refl
  then-Ready (err e, s) f k = λ q. absurd cc

  last-Ready :
      (cluster will : Bool) (s : AgentState)
      → Since old s.log
      → starts_with config.host "pve-" ≡ cluster
      → Ready
          (then_do (only_if (cluster && will) (ready_to_reboot w fuel config) s) (λ _. pure will))
  last-Ready false will s h e = λ q c. absurd cc
  last-Ready true false s h e = λ q c. absurd cc
  last-Ready true true s h e =
      then-Ready (ready_to_reboot w fuel config s) (λ _. pure true)
        (λ a p q c. ready_to_reboot-Cleared s h p)

  pub first_check-Keeps :
      (P : AgentState → Type 0)
      → Stable P
      → Saved P
      → (b : Bool) (s : AgentState) → P s
      → P (first_check w fuel config b s).1
  unfolding required_here
  first_check-Keeps P stable saves true s h =
      pve_preflight-Keeps P stable w saves fuel config.host true s h
  first_check-Keeps P stable saves false s h = stable.asked reboot_flag s refl h

  pub checks-Ready : (s : AgentState) → Since old s.log → Ready (checks w fuel config s)
  unfolding checks
  checks-Ready s h =
      let idle : AgentState = (on_cluster w package_idle s).1 in
      let k : Since old idle.log = Since-push _ s.log refl h in
      let first : AgentState = (first_check w fuel config (pve w fuel config) idle).1 in
      let l : Since old first.log =
        first_check-Keeps Recent Recent-Stable Recent-Saved (pve w fuel config) idle k in
      then-Ready (on_cluster w package_idle s) _ (λ free _.
        then-Ready (require free runtime_error idle) _ (λ _ _.
          then-Ready (first_check w fuel config (pve w fuel config) idle) _ (λ _ _.
            then-Ready (reboot_required w (pve w fuel config) first) _ (λ will _.
              last-Ready (pve w fuel config) will (reboot_required w (pve w fuel config) first).1
                (reboot_required-Keeps Recent Recent-Stable w (pve w fuel config) first l) refl))))
