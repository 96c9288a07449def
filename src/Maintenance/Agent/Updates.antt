-- ===== src/Maintenance/Agent/Updates.antt =====
-- `updates`, `api`, `pve_reboot_window_open` and `update_packages` of
-- ansible/host-maintenance/files/maintenance-agent.py.
pub mod Keeps
use Prim.Native.String.{◌++◌ as ◌<>◌}
use text.Mathlib.Text.{starts_with}
use my_infra.Prelude.{
  ℕ, suc, ◌+◌, ◌/◌, ◌%◌, Bool, true, false, not, ◌&&◌, ◌||◌, Option, none, some, List, [], ◌∷◌,
  String, leb, ◌==◌, nat_eq, if◌then◌else◌,
}
use my_infra.Prelude.Sorted.{text_leb}
use my_infra.Prelude.Action.{Result, ok, err, then_do, ◌>>=◌, ◌>>◌, pure, raise}
use my_infra.Maintenance.Pve.{pve_healthy, pve_tasks_idle}
use my_infra.Maintenance.Agent.{
  AgentError, blocked, runtime_error, subprocess_error, value_error, key_error, type_error,
  index_error, os_error, attribute_error, out_of_fuel, Outcome, blocked_outcome, failed_outcome,
  complete_outcome, Execution, Update, Report, Call, report, update_claim, update_result, window,
  simulate, refresh, install, called, save_update, unlink_update, AgentState, AgentWorld, Config,
  AgentAct, perform, require, on_cluster,
}
use my_infra.Maintenance.Agent.Handoff.{reboot_required}

abbrev is_change : String → Bool
is_change line = starts_with line "Inst " || starts_with line "Remv "

-- `sorted(line for line in lines if ...)`
unfoldable pub insert_line : String → List String → List String
unfolding text_leb
insert_line l [] = l ∷ []
insert_line l (m ∷ ms) =
    let rest = insert_line l ms in if text_leb l m then l ∷ m ∷ ms else m ∷ rest

unfoldable pub changes : List String → List String
unfolding insert_line
changes [] = []
changes (l ∷ ls) = let rest = changes ls in if is_change l then insert_line l rest else rest

unfoldable pub count_installs : List String → ℕ
count_installs [] = 0
count_installs (l ∷ ls) =
    let rest = count_installs ls in if starts_with l "Inst " then suc rest else rest

-- `'\n'.join(lines)`
unfoldable pub join_lines : List String → String
join_lines [] = ""
join_lines (l ∷ []) = l
join_lines (l ∷ m ∷ ms) = l <> ("\n" <> join_lines (m ∷ ms))

-- The hour in Japan is from 20 on.
unfoldable pub is_night : ℕ → Bool
is_night hour = leb 20 hour

abbrev pub hour_of : ℕ → ℕ
hour_of seconds = (seconds + 32_400) / 3_600 % 24

abbrev pub no_call : Option String → AgentAct (Unit {0})
no_call answer = pure tt

abbrev is_some : {A : Type 0} → Option A → Bool
is_some none = false
is_some (some a) = true

abbrev refreshed : Option Bool → Bool
refreshed none = false
refreshed (some b) = b

-- Whether an `except (RuntimeError, subprocess.SubprocessError)` takes it.
abbrev pub is_caught : AgentError → Bool
is_caught blocked = true
is_caught runtime_error = true
is_caught subprocess_error = true
is_caught value_error = false
is_caught key_error = false
is_caught type_error = false
is_caught index_error = false
is_caught os_error = false
is_caught attribute_error = false
is_caught out_of_fuel = false

-- Whether an `except subprocess.SubprocessError` takes it.
abbrev pub is_command_error : AgentError → Bool
is_command_error subprocess_error = true
is_command_error blocked = false
is_command_error runtime_error = false
is_command_error value_error = false
is_command_error key_error = false
is_command_error type_error = false
is_command_error index_error = false
is_command_error os_error = false
is_command_error attribute_error = false
is_command_error out_of_fuel = false

-- `try: ... except: handle`, and what follows else.
abbrev pub try_else :
    {A B : Type 0}
    → (AgentError → Bool)
    → Result AgentError A × AgentState
    → (AgentError → AgentAct B)
    → (A → AgentAct B)
    → Result AgentError B × AgentState
try_else test (ok a, s) handle next = next a s
try_else test (err e, s) handle next = if test e then handle e s else (err e, s)

-- The journal of the update, saved.
abbrev pub put_update : Update → AgentState → AgentState
put_update u s = record s { update = some u; log = save_update u ∷ s.log }

abbrev pub drop_update : AgentState → AgentState
drop_update s = record s { update = none; log = unlink_update ∷ s.log }

module _ (w : AgentWorld) where
  -- How many packages are to be installed, and a fingerprint of the changes.
  unfoldable pub updates : AgentAct (ℕ × String)
  unfolding changes count_installs join_lines
  updates = do
    lines ← perform simulate (λ log. w.simulate log)
    pure (count_installs (changes lines), w.sha256 (join_lines (changes lines)))

  unfoldable pub pve_reboot_window_open : AgentAct Bool
  unfolding is_night
  pve_reboot_window_open s =
      let hour = hour_of (w.time s.log) in
      (ok (is_night hour), record s { log = window hour ∷ s.log })

  unfoldable pub api : Config → Call → AgentAct (Option String)
  api config call =
      if not config.has_access
      then raise runtime_error
      else perform (called call) (λ log. w.api log call)

  -- The report of the state of the host.
  unfoldable pub send_report : Config → Bool → ℕ × String → Bool → AgentAct (Unit {0})
  unfolding api
  send_report config required (count, fingerprint) healthy = do
    api config (
        report record {
          boot_id = w.boot_id;
          required = required;
          updates = count;
          fingerprint = fingerprint;
          healthy = healthy;
        })
    pure tt

  module _ (config : Config) where
    -- The outcome is saved before it is told.
    unfoldable pub end_update : Update → Outcome → AgentAct (Unit {0})
    unfolding api
    end_update u outcome s =
        let done : Update = record u { outcome = some outcome } in
        then_do (api config (update_result u.execution_id outcome) (put_update done s)) no_call

    -- `dist-upgrade`. A failure leaves the journal.
    unfoldable pub install_packages : Update → AgentAct (Unit {0})
    unfolding end_update
    install_packages u s =
        try_else is_command_error (perform install (λ log. w.install log) s)
          (λ e. end_update u failed_outcome >> raise runtime_error)
          (λ a t.
            then_do (end_update u complete_outcome t)
              (λ _ v. (ok tt, record (drop_update v) { request = none })))

    -- Both are tested again under the claim.
    unfoldable pub still_idle : AgentAct (Unit {0})
    still_idle = do
      healthy ← on_cluster w pve_healthy
      require healthy runtime_error
      on_cluster w (λ v. pve_tasks_idle v false)
      pure tt

    unfoldable pub run_update : String → AgentAct (Unit {0})
    unfolding still_idle end_update install_packages
    run_update id s =
        let u : Update = record { boot_id = w.boot_id; execution_id = id; outcome = none } in
        try_else is_caught (still_idle (put_update u s))
          (λ e t. then_do (end_update u blocked_outcome t) (λ _ v. (ok tt, drop_update v)))
          (λ a. install_packages u)

    unfoldable pub claim_update : AgentAct (Unit {0})
    unfolding api run_update
    claim_update s =
        then_do (api config update_claim s)
          (λ answer. elim answer [ none ↦ pure tt | some id ↦ run_update id ])

    -- No task may be active. Then the updates are reported, and claimed if there are any.
    unfoldable pub offer_update : AgentAct (Unit {0})
    unfolding updates reboot_required send_report claim_update
    offer_update s =
        try_else is_caught (on_cluster w (λ v. pve_tasks_idle v false) s) (λ e. pure tt)
          (λ a. do
            found ← updates
            required ← reboot_required w true
            healthy ← on_cluster w pve_healthy
            send_report config required found healthy
            if found.0 == 0 then (λ t. (ok tt, record t { request = none })) else claim_update)

    -- The package lists are refreshed once for a request.
    unfoldable pub refresh_lists : AgentAct (Unit {0})
    refresh_lists s =
        let run =
          then_do (perform refresh (λ log. w.refresh log) s)
            (λ _ t. (ok tt, record t { request = some true })) in
        if refreshed s.request then (ok tt, s) else run

    unfoldable pub update_packages : Bool → AgentAct (Unit {0})
    unfolding refresh_lists offer_update
    update_packages queue s =
        let t : AgentState = if queue then record s { request = some false } else s in
        let go =
          then_do (on_cluster w pve_healthy t)
            (λ healthy. if healthy then (refresh_lists >> offer_update) else pure tt) in
        if not (starts_with config.host "pve-")
        then (err runtime_error, s)
        else if is_some t.execution || is_some t.update
        then (ok tt, t)
        else go
