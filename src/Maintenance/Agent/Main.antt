-- ===== src/Maintenance/Agent/Main.antt =====
-- `main` of ansible/host-maintenance/files/maintenance-agent.py.
use text.Mathlib.Text.{starts_with}
use my_infra.Prelude.{
  ℕ, Bool, true, false, not, ◌||◌, Option, none, some, [], ◌∷◌, string_eq, contains, if◌then◌else◌,
}
use my_infra.Prelude.Action.{ok, ◌>>=◌, ◌>>◌, pure, raise}
use my_infra.Maintenance.Pve.{pve_healthy}
use my_infra.Maintenance.Backup.Journal.{backup_release}
use my_infra.Maintenance.Agent.{
  runtime_error, recover, lock, package_lock, audit, AgentWorld, Config, AgentAct, perform, require,
  on_cluster,
}
use my_infra.Maintenance.Agent.Handoff.{pve_recovered, reboot_required, pve_preflight}
use my_infra.Maintenance.Agent.Updates.{
  updates, api, send_report, is_caught, try_else, drop_update, update_packages,
}
use my_infra.Maintenance.Agent.Process.{drop_execution, pve, only_if, process}

-- The arguments of the command.
pub data Mode : Type 0 where
  probe : Mode
  recovery : Mode
  updater : Mode
  tick : Mode

-- What `--probe` prints.
pub record Readiness : Type 0 where
  pub updates : ℕ
  pub reboot_required : Bool
  pub healthy : Bool
  -- For the hosts of the cluster.
  pub reboot_safe : Option Bool

module _ (w : AgentWorld) (fuel : ℕ) (config : Config) where
  abbrev cluster_safe : AgentAct (Option Bool)
  cluster_safe s =
      try_else is_caught (pve_preflight w fuel config.host false s) (λ e. pure (some false))
        (λ a. pure (some true))

  -- The local readiness, without a handoff.
  unfoldable pub probe_host : AgentAct (Option Readiness)
  unfolding updates reboot_required pve_recovered pve_preflight
  probe_host = do
    found ← updates w
    required ← reboot_required w (pve w fuel config)
    healthy ← (if pve w fuel config then pve_recovered w config.host else pure true)
    safe ← (if pve w fuel config then cluster_safe else pure none)
    pure (
        some record {
          updates = found.0;
          reboot_required = required;
          healthy = healthy;
          reboot_safe = safe;
        })

  -- The backups of the execution may be started again.
  unfoldable pub release_execution : AgentAct (Unit {0})
  unfolding backup_release
  release_execution s = elim (s.execution) [
    | none ↦ (ok tt, s)
    | some p ↦ only_if (pve w fuel config) (on_cluster w (λ v. backup_release p.execution_id)) s
  ]

  -- After an inspection by hand both journals are dropped.
  unfoldable pub recover_host : AgentAct (Unit {0})
  unfolding updates reboot_required send_report api release_execution
  recover_host = do
    perform package_lock (λ log. w.package_lock log)
    clean ← perform audit (λ log. w.audit log)
    require clean runtime_error
    found ← updates w
    required ← reboot_required w (pve w fuel config)
    healthy ← (if pve w fuel config then on_cluster w pve_healthy else pure true)
    send_report w config required found healthy
    api w config recover
    release_execution
    λ s. (ok tt, drop_update (drop_execution s))

  abbrev in_mode : Mode → AgentAct (Unit {0})
  in_mode probe = pure tt
  in_mode recovery = recover_host
  in_mode updater = update_packages w config true
  in_mode tick = process w fuel config

  unfoldable pub locked : Mode → AgentAct (Option Readiness)
  unfolding recover_host update_packages process
  locked mode = do perform lock (λ log. w.lock log); in_mode mode; pure none

  abbrev run_mode : Mode → AgentAct (Option Readiness)
  run_mode probe = probe_host
  run_mode recovery = locked recovery
  run_mode updater = locked updater
  run_mode tick = locked tick

  unfoldable pub main : Mode → AgentAct (Option Readiness)
  unfolding probe_host locked
  main mode =
      if not (contains ("dev-app-server" ∷ "pve-x570" ∷ "pve-b550m" ∷ []) config.host)
        || not (starts_with config.controller "https://")
      then raise runtime_error
      else run_mode mode
