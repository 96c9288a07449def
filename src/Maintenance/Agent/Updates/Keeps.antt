-- ===== src/Maintenance/Agent/Updates/Keeps.antt =====
-- `update_packages` of ansible/host-maintenance/files/maintenance-agent.py makes no reboot.
use text.Mathlib.Text.{starts_with}
use my_infra.Prelude.{
  ℕ, suc, ◌≡◌, refl, Bool, true, false, not, ◌||◌, Option, none, some, List, [], ◌∷◌, String, ◌==◌,
  nat_eq, string_eq, if◌then◌else◌, Bool-cases, inl, inr,
}
use my_infra.Prelude.Action.{Result, ok, err, then_do, ◌>>◌, pure, raise, then-Keeps}
use my_infra.Maintenance.Pve.{pve_healthy, pve_tasks_idle}
use my_infra.Maintenance.Agent.{
  AgentError, runtime_error, Outcome, blocked_outcome, failed_outcome, complete_outcome, Update,
  Call, report, update_claim, update_result, Step, simulate, refresh, install, called, save_update,
  unlink_update, AgentState, AgentWorld, Config, AgentAct, perform, require, on_cluster,
}
use my_infra.Maintenance.Agent.Handoff.{reboot_required}
use my_infra.Maintenance.Agent.Updates.{
  updates, api, send_report, is_caught, is_command_error, try_else, put_update, drop_update,
  end_update, install_packages, still_idle, run_update, claim_update, offer_update, refreshed,
  refresh_lists, is_some, update_packages,
}
use my_infra.Maintenance.Agent.Keeps.{
  Stable, acts, is_reboot, quiet-is_reboot, quiet-Stable, on_cluster-Keeps,
}
use my_infra.Maintenance.Agent.Handoff.Keeps.{cond-Keeps, reboot_required-Keeps}

pub try_else-Keeps :
    {A B : Type 0} (P : AgentState → Type 0) (test : AgentError → Bool)
    (r : Result AgentError A × AgentState) (handle : AgentError → AgentAct B)
    (next : A → AgentAct B)
    → P r.1
    → ((e : AgentError) (t : AgentState) → P t → P (handle e t).1)
    → ((a : A) (t : AgentState) → P t → P (next a t).1)
    → P (try_else test r handle next).1
try_else-Keeps P test (ok a, s) handle next h k n = n a s h
try_else-Keeps P test (err e, s) handle next h k n = elim (Bool-cases (test e)) [
  | inl a ↦ rw a (k e s h)
  | inr a ↦ rw a h
]

module _ (Q : List Step → Type 0)
    (push : (e : Step) (log : List Step) → acts e ≡ false → Q log → Q (e ∷ log)) (w : AgentWorld)
    (config : Config) where
  pub api-Keeps :
      (call : Call) (s : AgentState)
      → (Q s.log → Q (called call ∷ s.log))
      → Q s.log
      → Q (api w config call s).1.log
  unfolding api
  api-Keeps call s k h = elim (Bool-cases (config.has_access)) [
    | inl a ↦ rw (api, a) (k h)
    | inr a ↦ rw (api, a) h
  ]

  pub updates-Keeps : (s : AgentState) → Q s.log → Q (updates w s).1.log
  unfolding updates
  updates-Keeps s h =
      then-Keeps (λ t. Q t.log) (perform simulate (λ log. w.simulate log) s) _
        (push simulate s.log refl h) (λ a t k. k)

  pub send_report-Keeps :
      (required : Bool) (found : ℕ × String) (healthy : Bool) (s : AgentState)
      → Q s.log
      → Q (send_report w config required found healthy s).1.log
  unfolding send_report
  send_report-Keeps required found healthy s h =
      let call : Call = report record {
        boot_id = w.boot_id;
        required = required;
        updates = found.0;
        fingerprint = found.1;
        healthy = healthy;
      } in
      then-Keeps (λ t. Q t.log) (api w config call s) _
        (api-Keeps call s (push (called call) s.log refl) h) (λ a t k. k)

  pub end_update-Keeps :
      (u : Update) (outcome : Outcome) (s : AgentState)
      → Q s.log
      → Q (end_update w config u outcome s).1.log
  unfolding end_update
  end_update-Keeps u outcome s h =
      let done : Update = record u { outcome = some outcome } in
      let call : Call = update_result u.execution_id outcome in
      then-Keeps (λ t. Q t.log) (api w config call (put_update done s)) _
        (api-Keeps call (put_update done s) (push (called call) (save_update done ∷ s.log) refl)
          (push (save_update done) s.log refl h))
        (λ a t k. k)

  pub still_idle-Keeps : (s : AgentState) → Q s.log → Q (still_idle w config s).1.log
  unfolding still_idle
  still_idle-Keeps s h =
      let stable : Stable (λ t. Q t.log) = quiet-Stable Q push in
      then-Keeps (λ t. Q t.log) (on_cluster w pve_healthy s) _
        (on_cluster-Keeps _ stable w pve_healthy s h)
        (λ healthy t k.
          then-Keeps (λ t. Q t.log) (require healthy runtime_error t) _ k
            (λ _ u l.
              then-Keeps (λ t. Q t.log) (on_cluster w (λ v. pve_tasks_idle v false) u) _
                (on_cluster-Keeps _ stable w (λ v. pve_tasks_idle v false) u l) (λ _ v m. m)))

  pub refresh_lists-Keeps : (s : AgentState) → Q s.log → Q (refresh_lists w config s).1.log
  unfolding refresh_lists
  refresh_lists-Keeps s h = elim (Bool-cases (refreshed s.request)) [
    | inl a ↦ rw (refresh_lists, a) h
    | inr a ↦
        rw (refresh_lists, a)
          (then-Keeps (λ t. Q t.log) (perform refresh (λ log. w.refresh log) s)
            (λ _ t. (ok tt, record t { request = some true })) (push refresh s.log refl h)
            (λ _ t k. k))
  ]

-- What no step but a reboot changes.
module _ (Q : List Step → Type 0)
    (push : (e : Step) (log : List Step) → is_reboot e ≡ false → Q log → Q (e ∷ log))
    (w : AgentWorld) (config : Config) where
  abbrev Kept : AgentState → Type 0
  Kept s = Q s.log

  abbrev pub calm : (e : Step) (log : List Step) → acts e ≡ false → Q log → Q (e ∷ log)
  calm e log a = push e log (quiet-is_reboot e a)

  install_packages-Keeps :
      (u : Update) (s : AgentState) → Q s.log → Q (install_packages w config u s).1.log
  unfolding install_packages
  install_packages-Keeps u s h =
      try_else-Keeps Kept is_command_error (perform install (λ log. w.install log) s)
        (λ e. end_update w config u failed_outcome >> raise runtime_error)
        (λ a t.
          then_do (end_update w config u complete_outcome t)
            (λ _ v. (ok tt, record (drop_update v) { request = none })))
        (push install s.log refl h)
        (λ e t k.
          then-Keeps Kept (end_update w config u failed_outcome t) (λ _. raise runtime_error)
            (end_update-Keeps Q calm w config u failed_outcome t k) (λ _ v l. l))
        (λ a t k.
          then-Keeps Kept (end_update w config u complete_outcome t)
            (λ _ v. (ok tt, record (drop_update v) { request = none }))
            (end_update-Keeps Q calm w config u complete_outcome t k)
            (λ _ v l. push unlink_update v.log refl l))

  run_update-Keeps : (id : String) (s : AgentState) → Q s.log → Q (run_update w config id s).1.log
  unfolding run_update
  run_update-Keeps id s h =
      let u : Update = record { boot_id = w.boot_id; execution_id = id; outcome = none } in
      try_else-Keeps Kept is_caught (still_idle w config (put_update u s))
        (λ e t. then_do (end_update w config u blocked_outcome t) (λ _ v. (ok tt, drop_update v)))
        (λ a. install_packages w config u)
        (still_idle-Keeps Q calm w config (put_update u s) (push (save_update u) s.log refl h))
        (λ e t k.
          then-Keeps Kept (end_update w config u blocked_outcome t) (λ _ v. (ok tt, drop_update v))
            (end_update-Keeps Q calm w config u blocked_outcome t k)
            (λ _ v l. push unlink_update v.log refl l))
        (λ a t k. install_packages-Keeps u t k)

  on_claim : Option String → AgentAct (Unit {0})
  on_claim answer = elim answer [ none ↦ pure tt | some id ↦ run_update w config id ]

  on_claim-Keeps : (answer : Option String) (s : AgentState) → Q s.log → Q (on_claim answer s).1.log
  unfolding on_claim
  on_claim-Keeps none s h = h
  on_claim-Keeps (some id) s h = run_update-Keeps id s h

  claim_update-Keeps : (s : AgentState) → Q s.log → Q (claim_update w config s).1.log
  unfolding claim_update on_claim
  claim_update-Keeps s h =
      then-Keeps Kept (api w config update_claim s) on_claim
        (api-Keeps Q calm w config update_claim s (push (called update_claim) s.log refl) h)
        on_claim-Keeps

  after_report : Bool → AgentAct (Unit {0})
  after_report b = if b then (λ t. (ok tt, record t { request = none })) else claim_update w config

  after_report-Keeps : (b : Bool) (s : AgentState) → Q s.log → Q (after_report b s).1.log
  unfolding after_report
  after_report-Keeps true s h = h
  after_report-Keeps false s h = claim_update-Keeps s h

  offer_update-Keeps : (s : AgentState) → Q s.log → Q (offer_update w config s).1.log
  unfolding offer_update after_report
  offer_update-Keeps s h =
      let stable : Stable Kept = quiet-Stable Q calm in
      try_else-Keeps Kept is_caught (on_cluster w (λ v. pve_tasks_idle v false) s) _ _
        (on_cluster-Keeps Kept stable w (λ v. pve_tasks_idle v false) s h) (λ e t k. k)
        (λ a t k. then-Keeps Kept (updates w t) _ (updates-Keeps Q calm w config t k) (λ found u l.
          then-Keeps Kept (reboot_required w true u) _
            (reboot_required-Keeps Kept stable w true u l)
            (λ required v m.
              then-Keeps Kept (on_cluster w pve_healthy v) _
                (on_cluster-Keeps Kept stable w pve_healthy v m)
                (λ healthy x o.
                  then-Keeps Kept (send_report w config required found healthy x)
                    (λ _. after_report (found.0 == 0))
                    (send_report-Keeps Q calm w config required found healthy x o)
                    (λ _ y p. after_report-Keeps (found.0 == 0) y p)))))

  when_healthy : Bool → AgentAct (Unit {0})
  when_healthy healthy =
      if healthy then (refresh_lists w config >> offer_update w config) else pure tt

  when_healthy-Keeps : (b : Bool) (s : AgentState) → Q s.log → Q (when_healthy b s).1.log
  unfolding when_healthy
  when_healthy-Keeps true s h =
      then-Keeps Kept (refresh_lists w config s) (λ _. offer_update w config)
        (refresh_lists-Keeps Q calm w config s h) (λ _ t k. offer_update-Keeps t k)
  when_healthy-Keeps false s h = h

  go-Keeps :
      (t : AgentState) → Q t.log → Q (then_do (on_cluster w pve_healthy t) when_healthy).1.log
  go-Keeps t h =
      then-Keeps Kept (on_cluster w pve_healthy t) when_healthy
        (on_cluster-Keeps Kept (quiet-Stable Q calm) w pve_healthy t h) when_healthy-Keeps

  queued-Keeps :
      (s t : AgentState)
      → Q s.log
      → Q t.log
      → Kept
          (if not (starts_with config.host "pve-")
            then (err runtime_error, s)
            else if is_some t.execution || is_some t.update
            then (ok tt, t)
            else then_do (on_cluster w pve_healthy t) when_healthy).1
  queued-Keeps s t h k =
      let go : Result AgentError (Unit {0}) × AgentState =
        then_do (on_cluster w pve_healthy t) when_healthy in
      let rest : Result AgentError (Unit {0}) × AgentState =
        if is_some t.execution || is_some t.update then (ok tt, t) else go in
      cond-Keeps Kept (not (starts_with config.host "pve-")) (err runtime_error, s) rest h
        (cond-Keeps Kept (is_some t.execution || is_some t.update) (ok tt, t) go k (go-Keeps t k))

  pub update_packages-Keeps :
      (queue : Bool) (s : AgentState) → Q s.log → Q (update_packages w config queue s).1.log
  unfolding update_packages when_healthy
  update_packages-Keeps true s h = queued-Keeps s (record s { request = some false }) h h
  update_packages-Keeps false s h = queued-Keeps s s h h

abbrev pub reboots : List Step → ℕ
reboots [] = 0
reboots (e ∷ log) = let n = reboots log in if is_reboot e then suc n else n

-- The update of the packages makes no reboot, whatever the commands and the controller answer.
pub update_packages-reboots :
    (w : AgentWorld) (config : Config) (queue : Bool) (s : AgentState)
    → reboots (update_packages w config queue s).1.log ≡ reboots s.log
update_packages-reboots w config queue s =
    update_packages-Keeps (λ log. reboots log ≡ reboots s.log) (λ e log a h. rw (reboots, a) h) w
      config queue s refl
