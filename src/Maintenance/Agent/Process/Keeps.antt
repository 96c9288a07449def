-- ===== src/Maintenance/Agent/Process/Keeps.antt =====
-- What the checks of `process` of ansible/host-maintenance/files/maintenance-agent.py leave alone.
use my_infra.Prelude.{
  ℕ, refl, Bool, true, false, not, ◌&&◌, Option, [], nat_eq, string_eq, Bool-cases, inl, inr,
}
use my_infra.Prelude.Action.{◌>>=◌, ◌>>◌, pure, then-Keeps}
use my_infra.Maintenance.Pve.{package_idle, pve_tasks_idle}
use my_infra.Maintenance.Backup.Prepare.{Progress}
use my_infra.Maintenance.Agent.{
  blocked, runtime_error, Outcome, Reason, result, window, AgentState, AgentWorld, Config, AgentAct,
  give, require, on_cluster, save,
}
use my_infra.Maintenance.Agent.Handoff.{reboot_required, pve_recovered, pve_preflight}
use my_infra.Maintenance.Agent.Updates.{api, hour_of, pve_reboot_window_open}
use my_infra.Maintenance.Agent.Process.{
  set_outcome, pve, only_if, is_ready, stop_backups, recheck, ready_to_reboot, first_check, checks,
  end_execution, next_boot,
}
use my_infra.Maintenance.Agent.Keeps.{Stable, on_cluster-Keeps}
use my_infra.Maintenance.Agent.Handoff.Keeps.{
  Saved, pve_preflight-Keeps, pve_recovered-Keeps, reboot_required-Keeps,
}
use my_infra.Maintenance.Agent.Process.Waits.{told-Keeps}
use my_infra.Maintenance.Agent.Process.Permits.{first_check-Keeps}

module _ (P : AgentState → Type 0) (stable : Stable P) (saves : Saved P) (w : AgentWorld) (fuel : ℕ)
    (config : Config) where
  window-Keeps : (s : AgentState) → P s → P (pve_reboot_window_open w s).1
  unfolding pve_reboot_window_open
  window-Keeps s h = stable.asked (window (hour_of (w.time s.log))) s refl h

  recheck-Keeps : (s : AgentState) → P s → P (recheck w fuel config s).1
  unfolding recheck
  recheck-Keeps s h =
      then-Keeps P (pve_preflight w fuel config.host false s) _
        (pve_preflight-Keeps P stable w saves fuel config.host false s h)
        (λ _ t k.
          then-Keeps P (on_cluster w (λ v. pve_tasks_idle v false) t) _
            (on_cluster-Keeps P stable w (λ v. pve_tasks_idle v false) t k)
            (λ tasks u l.
              then-Keeps P (pve_reboot_window_open w u) (λ still. require still blocked)
                (window-Keeps u l) (λ _ v m. m)))

  ready_to_reboot-Keeps : (s : AgentState) → P s → P (ready_to_reboot w fuel config s).1
  unfolding ready_to_reboot
  ready_to_reboot-Keeps s h =
      let go : Progress → AgentAct (Unit {0}) =
        λ progress. give (is_ready progress) >> recheck w fuel config in
      then-Keeps P (pve_reboot_window_open w s)
        (λ night. require night blocked >> (stop_backups w fuel config >>= go)) (window-Keeps s h)
        (λ night t k.
          then-Keeps P (require night blocked t) (λ _. stop_backups w fuel config >>= go) k
            (λ _ u l.
              then-Keeps P (stop_backups w fuel config u) go (stable.ran_on _ u l) (λ progress v m.
                then-Keeps P (give (is_ready progress) v) (λ _. recheck w fuel config) m
                  (λ _ x o. recheck-Keeps x o))))

  last_check-Keeps :
      (b : Bool) (s : AgentState) → P s → P (only_if b (ready_to_reboot w fuel config) s).1
  last_check-Keeps true s h = ready_to_reboot-Keeps s h
  last_check-Keeps false s h = h

  pub checks-Keeps : (s : AgentState) → P s → P (checks w fuel config s).1
  unfolding checks
  checks-Keeps s h =
      then-Keeps P (on_cluster w package_idle s) _ (on_cluster-Keeps P stable w package_idle s h)
        (λ free t k. then-Keeps P (require free runtime_error t) _ k (λ _ u l.
          then-Keeps P (first_check w fuel config (pve w fuel config) u) _
            (first_check-Keeps w fuel config [] P stable saves (pve w fuel config) u l)
            (λ _ v m.
              then-Keeps P (reboot_required w (pve w fuel config) v) _
                (reboot_required-Keeps P stable w (pve w fuel config) v m)
                (λ will x o.
                  then-Keeps P
                    (only_if (pve w fuel config && will) (ready_to_reboot w fuel config) x)
                    (λ _. pure will) (last_check-Keeps (pve w fuel config && will) x o)
                    (λ _ y q. q)))))

  pub next_boot-Keeps : (s : AgentState) → P s → P (next_boot w fuel config s).1
  unfolding next_boot
  next_boot-Keeps s h = elim (Bool-cases (pve w fuel config)) [
    | inl e ↦
        rw (next_boot, e)
          (then-Keeps P (pve_recovered w config.host s) (λ recovered. pure (not recovered))
            (pve_recovered-Keeps P stable w config.host s h) (λ a t k. k))
    | inr e ↦ rw (next_boot, e) h
  ]

  -- The answer about an execution.
  pub told_result-Keeps :
      (outcome : Outcome) (reason : Option Reason)
      → ((o : Outcome) (r : Option Reason) (t : AgentState) → P t → P (set_outcome o r t))
      → (s : AgentState) → P s
      → P (end_execution w fuel config outcome reason s).1
  unfolding end_execution
  told_result-Keeps outcome reason set s h =
      let t : AgentState = save (set_outcome outcome reason s) in
      then-Keeps P (api w config (result s.pending.execution_id outcome reason) t) _
        (told-Keeps P stable w fuel config (result s.pending.execution_id outcome reason) t refl
          (saves.put (set_outcome outcome reason s) (set outcome reason s h)))
        (λ a u k. k)
