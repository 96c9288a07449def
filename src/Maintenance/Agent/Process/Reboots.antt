-- ===== src/Maintenance/Agent/Process/Reboots.antt =====
-- `process` of ansible/host-maintenance/files/maintenance-agent.py reboots only when it is permitted.
use my_infra.Prelude.{
  ℕ, ◌≡◌, refl, ap, sym, subst, Bool, true, false, ◌&&◌, Option, none, some, List, [], ◌∷◌, String,
  ◌==◌, nat_eq, string_eq, if◌then◌else◌, Bool-cases, Option-cases, inl, inr,
}
use my_infra.Prelude.Action.{Result, ok, err, then_do, pure, then-Keeps}
use my_infra.Maintenance.Pve.{World, package_idle, pve_tasks_idle}
use my_infra.Maintenance.Pve
use my_infra.Maintenance.Backup.Journal.{backup_release}
use my_infra.Maintenance.Backup.Replays.{replay_backups}
use my_infra.Maintenance.Agent.{
  AgentError, runtime_error, Outcome, blocked_outcome, failed_outcome, complete_outcome, Reason,
  Execution, Step, claim, called, reboot, save_execution, unlink_execution, unlink_update,
  AgentState, AgentWorld, Config, AgentAct, perform, on_cluster, save,
}
use my_infra.Maintenance.Agent.Availability.Serves.{Since}
use my_infra.Maintenance.Agent.Handoff.{reboot_required}
use my_infra.Maintenance.Agent.Updates.{
  updates, api, send_report, is_caught, try_else, update_packages,
}
use my_infra.Maintenance.Agent.Process.{
  drop_execution, reason_of, pve, only_if, checks, release, end_execution, block, complete, fail,
  carry_out, execute, settle_update, undo_handoff, same_boot, next_boot, settle_execution,
  has_request, drop_old, health, ask_claim, offer, unless_waiting, after_update, process,
}
use my_infra.Maintenance.Agent.Keeps.{
  Stable, acts, is_active, is_reboot, quiet-is_reboot, quiet-Stable, on_cluster-Keeps,
}
use my_infra.Maintenance.Agent.Handoff.Keeps.{
  Saved, cond-Keeps, pve_recovered-Keeps, reboot_required-Keeps,
}
use my_infra.Maintenance.Agent.Updates.Keeps.{
  try_else-Keeps, updates-Keeps, send_report-Keeps, update_packages-Keeps,
}
use my_infra.Maintenance.Agent.Process.Waits.{
  settle_update-Keeps, undo_handoff-Keeps, same_boot-Keeps,
}
use my_infra.Maintenance.Agent.Process.Keeps.{checks-Keeps, next_boot-Keeps, told_result-Keeps}
use my_infra.Maintenance.Agent.Process.Permits.{
  OnlyQuiet, IsPermitted, IsAuthorised, OnlyQuiet-push, Calm, Calm-Stable, Calm-Saved, checks-Ready,
}

-- The checks, and what they have found if they pass.
checked :
    (P : AgentState → Type 0) (r : Result AgentError Bool × AgentState)
    (handle : AgentError → AgentAct (Unit {0})) (next : Bool → AgentAct (Unit {0}))
    → P r.1
    → ((e : AgentError) (t : AgentState) → P t → P (handle e t).1)
    → ((will : Bool) → r.0 ≡ ok will → P r.1 → P (next will r.1).1)
    → P (try_else is_caught r handle next).1
checked P (ok will, s) handle next h k n = n will refl h
checked P (err e, s) handle next h k n =
    cond-Keeps P (is_caught e) (handle e s) (err e, s) (k e s h) h

module _ (w : AgentWorld) (fuel : ℕ) (config : Config) where
  abbrev Lawful : AgentState → Type 0
  Lawful s = IsAuthorised w config s.log

  push :
      (e : Step) (log : List Step)
      → is_reboot e ≡ false
      → IsAuthorised w config log
      → IsAuthorised w config (e ∷ log)
  push e log a h = (λ q. absurd cc, h)

  calm :
      (e : Step) (log : List Step)
      → acts e ≡ false
      → IsAuthorised w config log
      → IsAuthorised w config (e ∷ log)
  calm e log a = push e log (quiet-is_reboot e a)

  Lawful-Stable : Stable Lawful
  Lawful-Stable = quiet-Stable (IsAuthorised w config) calm

  Lawful-Saved : Saved Lawful
  Lawful-Saved = record {
    stopped = λ b s h. h;
    put = λ s h. calm (save_execution s.pending) s.log refl h;
    switched = λ e s a h. calm e s.log (ap is_active a) h;
  }

  only_if-Lawful :
      (b : Bool) (act : World → Pve.Act (Unit {0})) (s : AgentState)
      → Lawful s
      → Lawful (only_if b (on_cluster w act) s).1
  only_if-Lawful true act s h = on_cluster-Keeps Lawful Lawful-Stable w act s h
  only_if-Lawful false act s h = h

  release-Lawful : (s : AgentState) → Lawful s → Lawful (release w fuel config s).1
  release-Lawful s h =
      only_if-Lawful (pve w fuel config) (λ v. backup_release s.pending.execution_id) s h

  end_execution-Lawful :
      (outcome : Outcome) (reason : Option Reason) (s : AgentState)
      → Lawful s
      → Lawful (end_execution w fuel config outcome reason s).1
  end_execution-Lawful outcome reason =
      told_result-Keeps Lawful Lawful-Stable Lawful-Saved w fuel config outcome reason
        (λ o r t k. k)

  fail-Lawful : (s : AgentState) → Lawful s → Lawful (fail w fuel config s).1
  unfolding fail
  fail-Lawful s h = then-Keeps Lawful (release w fuel config s) _ (release-Lawful s h) (λ _ t k.
      then-Keeps Lawful (end_execution w fuel config failed_outcome t.pending.reason t)
        (λ _ u. (err runtime_error, drop_execution u))
        (end_execution-Lawful failed_outcome t.pending.reason t k)
        (λ _ u l. calm unlink_execution u.log refl l))

  complete-Lawful : (s : AgentState) → Lawful s → Lawful (complete w fuel config s).1
  unfolding complete
  complete-Lawful s h =
      then-Keeps Lawful (end_execution w fuel config complete_outcome s.pending.reason s)
        (λ _ t. (ok tt, drop_execution t))
        (end_execution-Lawful complete_outcome s.pending.reason s h)
        (λ _ t k. calm unlink_execution t.log refl k)

  block-Lawful : (e : AgentError) (s : AgentState) → Lawful s → Lawful (block w fuel config e s).1
  unfolding block
  block-Lawful e s h =
      let last : Unit {0} → AgentAct (Unit {0}) =
        λ _ u. if u.pending.loockit_stopped then (ok tt, u) else (ok tt, drop_execution u) in
      then-Keeps Lawful (release w fuel config s)
        (λ _ t. then_do (end_execution w fuel config blocked_outcome (some (reason_of e)) t) last)
        (release-Lawful s h)
        (λ _ t k.
          then-Keeps Lawful (end_execution w fuel config blocked_outcome (some (reason_of e)) t)
            last (end_execution-Lawful blocked_outcome (some (reason_of e)) t k)
            (λ _ u l.
              cond-Keeps Lawful (u.pending.loockit_stopped) (ok tt, u) (ok tt, drop_execution u) l
                (calm unlink_execution u.log refl l)))

  carry_out-Lawful :
      (will : Bool) (s : AgentState)
      → Lawful s
      → (will ≡ true → IsPermitted w config s.log)
      → Lawful (carry_out w fuel config will s).1
  unfolding carry_out
  carry_out-Lawful true s h p =
      try_else-Keeps Lawful is_caught (perform reboot (λ log. w.reboot log) s)
        (λ e. fail w fuel config) (λ a. pure tt) (λ _. p refl, h) (λ e t k. fail-Lawful t k)
        (λ a t k. k)
  carry_out-Lawful false s h p =
      try_else-Keeps Lawful is_caught (complete w fuel config s) (λ e. fail w fuel config)
        (λ a. pure tt) (complete-Lawful s h) (λ e t k. fail-Lawful t k) (λ a t k. k)

  execute-Lawful :
      (id : String) (old : List Step) (s : AgentState)
      → Lawful s
      → w.api old claim ≡ ok (some id)
      → OnlyQuiet (called claim ∷ old) s.log
      → Lawful (execute w fuel config id s).1
  unfolding execute
  execute-Lawful id old s h granted only =
      let p : Execution = record {
        boot_id = w.boot_id;
        execution_id = id;
        outcome = none;
        reason = none;
        loockit_stopped = false;
      } in
      let t : AgentState = save (record s { pending = p }) in
      let after : List Step = called claim ∷ old in
      let recent : Since after t.log = record {
        recent = save_execution p ∷ only.recent;
        grown = cc (only.grown);
      } in
      checked Lawful (checks w fuel config t) (block w fuel config) (carry_out w fuel config)
        (checks-Keeps Lawful Lawful-Stable Lawful-Saved w fuel config t
          (calm (save_execution p) s.log refl h))
        block-Lawful
        (λ will e k. carry_out-Lawful will (checks w fuel config t).1 k (λ y. record {
          old = old;
          id = id;
          granted = granted;
          claimed =
              checks-Keeps (Calm w fuel config after) (Calm-Stable w fuel config after)
                (Calm-Saved w fuel config after) w fuel config t
                (OnlyQuiet-push w fuel config after (save_execution p) s.log refl only);
          cluster =
              checks-Ready w fuel config after t recent
                (subst (λ b. (checks w fuel config t).0 ≡ ok b) y e);
        }))

  claim_then :
      (r : Result AgentError (Option String)) (t : AgentState)
      (f : Option String → AgentAct (Unit {0}))
      → Lawful t
      → ((answer : Option String) → r ≡ ok answer → Lawful (f answer t).1)
      → Lawful (then_do (r, t) f).1
  claim_then (ok answer) t f h k = k answer refl
  claim_then (err e) t f h k = h

  on_answer : Option String → AgentAct (Unit {0})
  on_answer answer t =
      let update = update_packages w config false t in
      let run = λ (id : String). execute w fuel config id t in
      elim answer [
        | none ↦ if pve w fuel config && has_request t.request then update else (ok tt, t)
        | some id ↦ run id
      ]

  on_answer-Lawful :
      (old : List Step) (answer : Option String) (t : AgentState)
      → Lawful t
      → w.api old claim ≡ ok answer
      → OnlyQuiet (called claim ∷ old) t.log
      → Lawful (on_answer answer t).1
  unfolding on_answer
  on_answer-Lawful old none t h e only =
      cond-Keeps Lawful (pve w fuel config && has_request t.request)
        (update_packages w config false t) (ok tt, t)
        (update_packages-Keeps (IsAuthorised w config) push w config false t h) h
  on_answer-Lawful old (some id) t h e only = execute-Lawful id old t h e only

  api_open :
      (s : AgentState)
      → config.has_access ≡ true
      → api w config claim s ≡ (w.api s.log claim, record s { log = called claim ∷ s.log })
  unfolding api
  api_open s e = rw (api, e) refl

  api_shut :
      (s : AgentState) → config.has_access ≡ false → api w config claim s ≡ (err runtime_error, s)
  unfolding api
  api_shut s e = rw (api, e) refl

  ask_claim-Lawful : (s : AgentState) → Lawful s → Lawful (ask_claim w fuel config s).1
  unfolding ask_claim on_answer
  ask_claim-Lawful s h = elim (Bool-cases (config.has_access)) [
    | inr e ↦ subst (λ r. Lawful (then_do r on_answer).1) (sym (api_shut s e)) h
    | inl e ↦
        let t : AgentState = record s { log = called claim ∷ s.log } in
        let k : Lawful t = push (called claim) s.log refl h in
        subst (λ r. Lawful (then_do r on_answer).1) (sym (api_open s e))
          (claim_then (w.api s.log claim) t on_answer k (λ answer q.
            on_answer-Lawful s.log answer t k q record { recent = []; grown = refl; calm = tt }))
  ]

  drop_old-Lawful : (s : AgentState) → Lawful s → Lawful (drop_old w fuel config s).1
  drop_old-Lawful s h = elim (Option-cases (s.execution)) [
    | inl e ↦ rw e h
    | inr (p, e) ↦ rw e (calm unlink_execution s.log refl h)
  ]

  health-Lawful : (b : Bool) (s : AgentState) → Lawful s → Lawful (health w fuel config b s).1
  health-Lawful true s h = pve_recovered-Keeps Lawful Lawful-Stable w config.host s h
  health-Lawful false s h = on_cluster-Keeps Lawful Lawful-Stable w package_idle s h

  offer-Lawful : (s : AgentState) → Lawful s → Lawful (offer w fuel config s).1
  unfolding offer
  offer-Lawful s h =
      then-Keeps Lawful (updates w s) _ (updates-Keeps (IsAuthorised w config) calm w config s h)
        (λ found t k.
          then-Keeps Lawful (health w fuel config (pve w fuel config) t) _
            (health-Lawful (pve w fuel config) t k)
            (λ healthy u l.
              then-Keeps Lawful (reboot_required w (pve w fuel config) u) _
                (reboot_required-Keeps Lawful Lawful-Stable w (pve w fuel config) u l)
                (λ required v m.
                  then-Keeps Lawful (send_report w config required found healthy v) _
                    (send_report-Keeps (IsAuthorised w config) calm w config required found healthy
                      v m)
                    (λ _ x o.
                      then-Keeps Lawful (drop_old w fuel config x) (λ _. ask_claim w fuel config)
                        (drop_old-Lawful x o) (λ _ y q. ask_claim-Lawful y q)))))

  same_or_next : AgentState → Result AgentError Bool × AgentState
  same_or_next t =
      if t.pending.boot_id == w.boot_id
      then same_boot w fuel config t
      else next_boot w fuel config t

  settled_by : Option Execution → AgentState → Result AgentError Bool × AgentState
  settled_by none s = (ok false, s)
  settled_by (some p) s =
      then_do (undo_handoff w fuel config (record s { pending = p })) (λ _. same_or_next)

  settled_by-Lawful : (o : Option Execution) (s : AgentState) → Lawful s → Lawful (settled_by o s).1
  unfolding settled_by same_or_next
  settled_by-Lawful none s h = h
  settled_by-Lawful (some p) s h =
      then-Keeps Lawful (undo_handoff w fuel config (record s { pending = p })) (λ _. same_or_next)
        (undo_handoff-Keeps Lawful Lawful-Stable w fuel config Lawful-Saved (λ o r t k. k)
          (record s { pending = p }) h)
        (λ _ t k.
          cond-Keeps Lawful (t.pending.boot_id == w.boot_id) (same_boot w fuel config t)
            (next_boot w fuel config t)
            (same_boot-Keeps Lawful Lawful-Stable w fuel config
              (λ u l. calm unlink_execution u.log refl l) t k)
            (next_boot-Keeps Lawful Lawful-Stable Lawful-Saved w fuel config t k))

  settle_execution-Lawful :
      (s : AgentState) → Lawful s → Lawful (settle_execution w fuel config s).1
  unfolding settle_execution settled_by same_or_next
  settle_execution-Lawful s h = elim (Option-cases (s.execution)) [
    | inl e ↦ rw (settle_execution, e) h
    | inr (p, e) ↦
        subst
          (λ o.
            Lawful
              (elim o as (λ q. Result AgentError Bool × AgentState) [
                | none ↦ (ok false, s)
                | some x ↦
                    then_do (undo_handoff w fuel config (record s { pending = x }))
                      (λ _. same_or_next)
              ]).1)
          (sym e) (settled_by-Lawful (some p) s h)
  ]

  unless_waiting-Lawful :
      (b : Bool) (s : AgentState) → Lawful s → Lawful (unless_waiting w fuel config b s).1
  unless_waiting-Lawful true s h = h
  unless_waiting-Lawful false s h = offer-Lawful s h

  after_update-Lawful :
      (b : Bool) (s : AgentState) → Lawful s → Lawful (after_update w fuel config b s).1
  unfolding after_update
  after_update-Lawful true s h = h
  after_update-Lawful false s h =
      then-Keeps Lawful (settle_execution w fuel config s) (unless_waiting w fuel config)
        (settle_execution-Lawful s h) unless_waiting-Lawful

-- Whatever the world answers and however the tick ends: if each reboot in the record was permitted, each
-- one is after a tick of the agent. Permitted is one after a claim that the controller has granted and
-- since which nothing else was claimed, installed or rebooted. On a host of the cluster, the last step
-- before it has also found that it is night in Japan, and Loockit and a tunnel have answered since the
-- claim, at endpoints that the policy read since then has for other nodes.
pub process-IsAuthorised :
    (w : AgentWorld) (fuel : ℕ) (config : Config) (s : AgentState)
    → IsAuthorised w config s.log
    → IsAuthorised w config (process w fuel config s).1.log
unfolding process
process-IsAuthorised w fuel config s h =
    then-Keeps (Lawful w fuel config)
      (only_if (pve w fuel config) (on_cluster w (λ v. replay_backups v)) s)
      (λ _ t. then_do (settle_update w fuel config t) (after_update w fuel config))
      (only_if-Lawful w fuel config (pve w fuel config) (λ v. replay_backups v) s h)
      (λ _ t k.
        then-Keeps (Lawful w fuel config) (settle_update w fuel config t)
          (after_update w fuel config)
          (settle_update-Keeps (Lawful w fuel config) (Lawful-Stable w fuel config) w fuel config t
            (λ u l. calm w fuel config unlink_update u.log refl l) k)
          (after_update-Lawful w fuel config))
