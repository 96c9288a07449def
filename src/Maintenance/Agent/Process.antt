-- ===== src/Maintenance/Agent/Process.antt =====
-- `process` and `main` of ansible/host-maintenance/files/maintenance-agent.py.
pub mod Keeps
pub mod Waits
pub mod Permits
pub mod Reboots
use text.Mathlib.Text.{starts_with}
use my_infra.Prelude.{
  ℕ, Bool, true, false, not, ◌&&◌, ◌||◌, Option, none, some, List, [], ◌∷◌, String, ◌==◌, nat_eq,
  string_eq, contains, if◌then◌else◌,
}
use my_infra.Prelude.Action.{Result, ok, err, then_do, ◌>>=◌, ◌>>◌, pure, raise}
use my_infra.Maintenance.Pve.{pve_healthy, pve_tasks_idle, package_idle}
use my_infra.Maintenance.Backup.Journal.{backup_release}
use my_infra.Maintenance.Backup.Replays.{replay_backups}
use my_infra.Maintenance.Backup.Prepare.{Progress, prepare_backups}
use my_infra.Maintenance.Backup.Prepare
use my_infra.Maintenance.Agent.{
  AgentError, blocked, runtime_error, subprocess_error, value_error, key_error, type_error,
  index_error, os_error, attribute_error, out_of_fuel, Outcome, blocked_outcome, failed_outcome,
  complete_outcome, Reason, availability, preflight, Execution, Update, Call, claim, result,
  update_result, recover, reboot_flag, reboot, called, unlink_execution, AgentState, AgentWorld,
  Config, AgentAct, perform, give, require, on_cluster, save,
}
use my_infra.Maintenance.Agent.Handoff.{
  restore_loockit, pve_recovered, reboot_required, pve_preflight,
}
use my_infra.Maintenance.Agent.Updates.{
  updates, api, send_report, no_call, is_caught, try_else, drop_update, pve_reboot_window_open,
  update_packages,
}

abbrev is_failed : Outcome → Bool
is_failed failed_outcome = true
is_failed blocked_outcome = false
is_failed complete_outcome = false

abbrev pub set_outcome : Outcome → Option Reason → AgentState → AgentState
set_outcome outcome reason s = record s {
  pending = record s.pending { outcome = some outcome; reason = reason };
}

abbrev pub drop_execution : AgentState → AgentState
drop_execution s = record s { execution = none; log = unlink_execution ∷ s.log }

abbrev or_preflight : Option Reason → Reason
or_preflight none = preflight
or_preflight (some reason) = reason

-- `'availability' if isinstance(error, AvailabilityBlocked) else 'preflight'`
abbrev reason_of : AgentError → Reason
reason_of blocked = availability
reason_of runtime_error = preflight
reason_of subprocess_error = preflight
reason_of value_error = preflight
reason_of key_error = preflight
reason_of type_error = preflight
reason_of index_error = preflight
reason_of os_error = preflight
reason_of attribute_error = preflight
reason_of out_of_fuel = preflight

abbrev is_open : Option Outcome → Bool
is_open none = true
is_open (some outcome) = false

-- `if will: ...`, with nothing else
abbrev pub only_if : Bool → AgentAct (Unit {0}) → AgentAct (Unit {0})
only_if true act = act
only_if false act = pure tt

abbrev pub is_ready : Progress → Result AgentError (Unit {0})
is_ready Prepare.ready = ok tt
is_ready Prepare.out_of_fuel = err out_of_fuel

abbrev pub has_request : Option Bool → Bool
has_request none = false
has_request (some refreshed) = true

-- The fuel is for the loops of the handoff and of the backups.
module _ (w : AgentWorld) (fuel : ℕ) (config : Config) where
  abbrev pub pve : Bool
  pve = starts_with config.host "pve-"

  -- What is left of an update; whether `process` ends here.
  unfoldable pub settle_update : AgentAct Bool
  unfolding api
  settle_update s = elim (s.update) [
    | none ↦ (ok false, s)
    | some u ↦ elim (u.outcome) [
      | none ↦ (ok true, s)
      | some outcome ↦
          then_do (api w config (update_result u.execution_id outcome) s)
            (λ _ t. if is_failed outcome then (ok true, t) else (ok false, drop_update t))
    ]
  ]

  -- A handoff that was interrupted is undone, and its reboot is blocked.
  unfoldable pub undo_handoff : AgentAct (Unit {0})
  unfolding restore_loockit
  undo_handoff s =
      let undo = then_do (restore_loockit w config.host s) (λ _ t.
        if (t.pending.boot_id == w.boot_id) && is_open t.pending.outcome
        then (ok tt, save (set_outcome blocked_outcome (some availability) t))
        else (ok tt, t)) in
      if pve && s.pending.loockit_stopped then undo else (ok tt, s)

  -- In the boot of the execution: its outcome is told, or it is left to be looked into.
  unfoldable pub same_boot : AgentAct Bool
  unfolding api
  same_boot s = elim (s.pending.outcome) [
    | none ↦ (ok true, s)
    | some outcome ↦
        then_do
          (api w config
            (result s.pending.execution_id outcome (some (or_preflight s.pending.reason))) s)
          (λ _ t. (ok true, drop_execution t))
  ]

  -- After the reboot: whether the host has not recovered.
  unfoldable pub next_boot : AgentAct Bool
  unfolding pve_recovered
  next_boot =
      if pve
      then (pve_recovered w config.host >>= λ recovered. pure (not recovered))
      else pure false

  -- What is left of an execution; whether `process` ends here.
  unfoldable pub settle_execution : AgentAct Bool
  unfolding undo_handoff same_boot next_boot
  settle_execution s = elim (s.execution) [
    | none ↦ (ok false, s)
    | some p ↦ then_do (undo_handoff (record s { pending = p })) (λ _ t.
        let same = same_boot t in
        let next = next_boot t in if t.pending.boot_id == w.boot_id then same else next)
  ]

  abbrev pub stop_backups : AgentAct Progress
  stop_backups s =
      on_cluster w
        (λ v.
          prepare_backups v fuel
            record { boot_id = s.pending.boot_id; execution_id = s.pending.execution_id })
        s

  -- The last checks; none of them takes long.
  unfoldable pub recheck : AgentAct (Unit {0})
  unfolding pve_preflight pve_reboot_window_open
  recheck = do
    pve_preflight w fuel config.host false
    on_cluster w (λ v. pve_tasks_idle v false)
    still ← pve_reboot_window_open w
    require still blocked

  -- What must hold before a host of the cluster is rebooted.
  unfoldable pub ready_to_reboot : AgentAct (Unit {0})
  unfolding prepare_backups pve_reboot_window_open recheck
  ready_to_reboot = do
    night ← pve_reboot_window_open w
    require night blocked
    progress ← stop_backups
    give (is_ready progress)
    recheck

  unfoldable pub required_here : AgentAct (Unit {0})
  required_here = do
    flag ← perform reboot_flag (λ log. ok (w.required log))
    require flag runtime_error

  abbrev pub first_check : Bool → AgentAct (Unit {0})
  first_check true = pve_preflight w fuel config.host true
  first_check false = required_here

  -- Whether the host is to be rebooted; it raises if it must not be.
  unfoldable pub checks : AgentAct Bool
  unfolding pve_preflight reboot_required ready_to_reboot required_here
  checks = do
    idle ← on_cluster w package_idle
    require idle runtime_error
    first_check pve
    will ← reboot_required w pve
    only_if (pve && will) ready_to_reboot
    pure will

  abbrev pub release : AgentAct (Unit {0})
  release s = only_if pve (on_cluster w (λ v. backup_release s.pending.execution_id)) s

  -- The outcome is saved before it is told.
  unfoldable pub end_execution : Outcome → Option Reason → AgentAct (Unit {0})
  unfolding api
  end_execution outcome reason s =
      then_do
        (api w config (result s.pending.execution_id outcome reason)
          (save (set_outcome outcome reason s)))
        no_call

  -- The journal is kept while Loockit of the host is stopped.
  unfoldable pub block : AgentError → AgentAct (Unit {0})
  unfolding end_execution backup_release
  block e s = then_do (release s) (λ _ t.
      then_do (end_execution blocked_outcome (some (reason_of e)) t)
        (λ _ u. if u.pending.loockit_stopped then (ok tt, u) else (ok tt, drop_execution u)))

  unfoldable pub complete : AgentAct (Unit {0})
  unfolding end_execution
  complete s =
      then_do (end_execution complete_outcome s.pending.reason s) (λ _ t. (ok tt, drop_execution t))

  unfoldable pub fail : AgentAct (Unit {0})
  unfolding end_execution backup_release
  fail s = then_do (release s) (λ _ t.
      then_do (end_execution failed_outcome t.pending.reason t)
        (λ _ u. (err runtime_error, drop_execution u)))

  -- The reboot, or the end of an execution that needs none.
  unfoldable pub carry_out : Bool → AgentAct (Unit {0})
  unfolding complete fail
  carry_out will s =
      let restart =
        try_else is_caught (perform reboot (λ log. w.reboot log) s) (λ e. fail) (λ a. pure tt) in
      let finish = try_else is_caught (complete s) (λ e. fail) (λ a. pure tt) in
      if will then restart else finish

  -- The execution that was claimed; its journal comes first.
  unfoldable pub execute : String → AgentAct (Unit {0})
  unfolding checks block carry_out
  execute id s =
      let p : Execution = record {
        boot_id = w.boot_id;
        execution_id = id;
        outcome = none;
        reason = none;
        loockit_stopped = false;
      } in
      try_else is_caught (checks (save (record s { pending = p }))) block carry_out

  -- The journal of an execution before the reboot is dropped after the report.
  abbrev pub drop_old : AgentAct (Unit {0})
  drop_old s = elim (s.execution) [ none ↦ (ok tt, s) | some p ↦ (ok tt, drop_execution s) ]

  unfoldable pub ask_claim : AgentAct (Unit {0})
  unfolding api execute update_packages
  ask_claim s = then_do (api w config claim s) (λ answer t.
      let update = update_packages w config false t in
      let run = λ (id : String). execute id t in
      elim answer [
        | none ↦ if pve && has_request t.request then update else (ok tt, t)
        | some id ↦ run id
      ])

  abbrev pub health : Bool → AgentAct Bool
  health true = pve_recovered w config.host
  health false = on_cluster w package_idle

  unfoldable pub offer : AgentAct (Unit {0})
  unfolding updates pve_recovered reboot_required send_report ask_claim
  offer = do
    found ← updates w
    healthy ← health pve
    required ← reboot_required w pve
    send_report w config required found healthy
    drop_old
    ask_claim

  abbrev pub unless_waiting : Bool → AgentAct (Unit {0})
  unless_waiting true = pure tt
  unless_waiting false = offer

  unfoldable pub after_update : Bool → AgentAct (Unit {0})
  unfolding settle_execution
  after_update true = pure tt
  after_update false = settle_execution >>= unless_waiting

  unfoldable pub process : AgentAct (Unit {0})
  unfolding replay_backups settle_update after_update
  process = do
    only_if pve (on_cluster w (λ v. replay_backups v))
    stop ← settle_update
    after_update stop
