-- ===== src/Maintenance/Agent/Process/Waits.antt =====
-- What `process` of ansible/host-maintenance/files/maintenance-agent.py does with an execution that it
-- finds on disk.
use my_infra.Prelude.{
  ℕ, suc, ◌≡◌, ◌≢◌, refl, ap, sym, subst, Bool, true, false, ◌&&◌, Option, none, some, List, [],
  ◌∷◌, String, ◌==◌, nat_eq, string_eq, if◌then◌else◌, Bool-cases, Option-cases, inl, inr,
}
use text.Mathlib.TextEquality.{eq_iff}
use my_infra.Prelude.Action.{Result, ok, err, then_do, then-Keeps}
use my_infra.Maintenance.Backup.Replays.{replay_backups}
use my_infra.Maintenance.Agent.{
  AgentError, Outcome, blocked_outcome, Reason, availability, Execution, Call, result,
  update_result, Step, called, ran, save_execution, unlink_execution, unlink_update, AgentState,
  AgentWorld, Config, AgentAct, on_cluster, save,
}
use my_infra.Maintenance.Agent.Handoff.{restore_loockit}
use my_infra.Maintenance.Agent.Updates.{api, drop_update}
use my_infra.Maintenance.Agent.Process.{
  is_failed, set_outcome, drop_execution, or_preflight, is_open, only_if, pve, settle_update,
  undo_handoff, same_boot, next_boot, settle_execution, unless_waiting, after_update, process,
}
use my_infra.Maintenance.Agent.Keeps.{
  Stable, acts, kind_of, is_active, quiet, quiet-Stable, on_cluster-Keeps,
}
use my_infra.Maintenance.Agent.Handoff.Keeps.{Saved, cond-Keeps, restore_loockit-Keeps}

module _ (P : AgentState → Type 0) (stable : Stable P) (w : AgentWorld) (fuel : ℕ)
    (config : Config) where
  pub told-Keeps :
      (call : Call) (s : AgentState)
      → kind_of (called call) ≡ quiet
      → P s
      → P (api w config call s).1
  unfolding api
  told-Keeps call s a h = elim (Bool-cases (config.has_access)) [
    | inl b ↦ rw (api, b) (stable.asked (called call) s a h)
    | inr b ↦ rw (api, b) h
  ]

  -- After the answer of the controller.
  settled : Outcome → AgentState → Result AgentError Bool × AgentState
  settled outcome t = if is_failed outcome then (ok true, t) else (ok false, drop_update t)

  pub settle_update-Keeps :
      (s : AgentState)
      → ((t : AgentState) → P t → P (drop_update t))
      → P s
      → P (settle_update w fuel config s).1
  unfolding settle_update settled
  settle_update-Keeps s dropped h = elim (Option-cases (s.update)) [
    | inl a ↦ rw (settle_update, a) h
    | inr (u, a) ↦ elim (Option-cases (u.outcome)) [
      | inl b ↦ rw (settle_update, a, b) h
      | inr (outcome, b) ↦
          rw (settle_update, a, b)
            (then-Keeps P (api w config (update_result u.execution_id outcome) s)
              (λ _. settled outcome) (told-Keeps (update_result u.execution_id outcome) s refl h)
              (λ _ t k.
                cond-Keeps P (is_failed outcome) (ok true, t) (ok false, drop_update t) k
                  (dropped t k)))
    ]
  ]

  marked : AgentState → Result AgentError (Unit {0}) × AgentState
  marked t =
      if (t.pending.boot_id == w.boot_id) && is_open t.pending.outcome
      then (ok tt, save (set_outcome blocked_outcome (some availability) t))
      else (ok tt, t)

  pub undo_handoff-Keeps :
      Saved P
      → ((outcome : Outcome) (reason : Option Reason) (t : AgentState)
          → P t
          → P (set_outcome outcome reason t))
      → (s : AgentState) → P s
      → P (undo_handoff w fuel config s).1
  unfolding undo_handoff marked
  undo_handoff-Keeps saves set s h =
      let undo : Result AgentError (Unit {0}) × AgentState =
        then_do (restore_loockit w config.host s) (λ _. marked) in
      cond-Keeps P (pve w fuel config && s.pending.loockit_stopped) undo (ok tt, s)
        (then-Keeps P (restore_loockit w config.host s) (λ _. marked)
          (restore_loockit-Keeps P stable w saves config.host s h)
          (λ _ t k.
            cond-Keeps P ((t.pending.boot_id == w.boot_id) && is_open t.pending.outcome)
              (ok tt, save (set_outcome blocked_outcome (some availability) t)) (ok tt, t)
              (saves.put _ (set blocked_outcome (some availability) t k)) k))
        h

  pub same_boot-Keeps :
      ((t : AgentState) → P t → P (drop_execution t))
      → (s : AgentState) → P s
      → P (same_boot w fuel config s).1
  unfolding same_boot
  same_boot-Keeps dropped s h = elim (Option-cases (s.pending.outcome)) [
    | inl a ↦ rw (same_boot, a) h
    | inr (outcome, a) ↦
        let call : Call =
          result s.pending.execution_id outcome (some (or_preflight s.pending.reason)) in
        subst
          (λ o.
            P
              (elim o as (λ p. Result AgentError Bool × AgentState) [
                | none ↦ (ok true, s)
                | some out ↦
                    then_do
                      (api w config
                        (result s.pending.execution_id out (some (or_preflight s.pending.reason)))
                        s)
                      (λ _ t. (ok true, drop_execution t))
              ]).1)
          (sym a)
          (then-Keeps P (api w config call s) (λ _ t. (ok true, drop_execution t))
            (told-Keeps call s refl h) (λ _ t k. dropped t k))
  ]

-- It ends there: nothing says that the tick goes on.
abbrev Ends : Result AgentError Bool × AgentState → Type 0
Ends r = r.0 ≢ ok false

told-Ends :
    (r : Result AgentError (Option String) × AgentState)
    → Ends (then_do r (λ _ t. (ok true, drop_execution t)))
told-Ends (ok a, s) = λ q. absurd cc
told-Ends (err e, s) = λ q. absurd cc

same_boot-Ends :
    (w : AgentWorld) (fuel : ℕ) (config : Config) (s : AgentState)
    → Ends (same_boot w fuel config s)
unfolding same_boot
same_boot-Ends w fuel config s = elim (Option-cases (s.pending.outcome)) [
  | inl a ↦ rw (same_boot, a) (λ q. absurd cc)
  | inr (outcome, a) ↦
      subst
        (λ o. Ends (elim o as (λ p. Result AgentError Bool × AgentState) [
          | none ↦ (ok true, s)
          | some out ↦
              then_do
                (api w config
                  (result s.pending.execution_id out (some (or_preflight s.pending.reason))) s)
                (λ _ t. (ok true, drop_execution t))
        ]))
        (sym a)
        (told-Ends (
          api w config
            (result s.pending.execution_id outcome (some (or_preflight s.pending.reason))) s))
]

module _ (Q : List Step → Type 0)
    (push : (e : Step) (log : List Step) → acts e ≡ false → Q log → Q (e ∷ log)) (w : AgentWorld)
    (fuel : ℕ) (config : Config) where
  abbrev pub Kept : AgentState → Type 0
  Kept s = Q s.log

  pub Kept-Stable : Stable Kept
  Kept-Stable = quiet-Stable Q push

  pub Kept-Saved : Saved Kept
  Kept-Saved = record {
    stopped = λ b s h. h;
    put = λ s h. push (save_execution s.pending) s.log refl h;
    switched = λ e s a h. push e s.log (ap is_active a) h;
  }

  abbrev InBoot : AgentState → Type 0
  InBoot s = Q s.log × (s.pending.boot_id ≡ w.boot_id)

  InBoot-Stable : Stable InBoot
  InBoot-Stable = record {
    asked = λ e s a h. (push e s.log (ap is_active a) h.0, h.1);
    ran_on = λ b s h. (push (ran b.log) s.log refl h.0, h.1);
  }

  InBoot-Saved : Saved InBoot
  InBoot-Saved = record {
    stopped = λ b s h. h;
    put = λ s h. (push (save_execution s.pending) s.log refl h.0, h.1);
    switched = λ e s a h. (push e s.log (ap is_active a) h.0, h.1);
  }

  -- Nothing is added that acts, and the tick ends.
  abbrev Waits : Result AgentError Bool × AgentState → Type 0
  Waits r = Q r.1.log × Ends r

  undone-Waits :
      (r : Result AgentError (Unit {0}) × AgentState)
      → InBoot r.1
      → Waits (
          then_do r (λ _ t.
            if t.pending.boot_id == w.boot_id
            then same_boot w fuel config t
            else next_boot w fuel config t))
  undone-Waits (err e, s) h = (h.0, λ q. absurd cc)
  undone-Waits (ok a, s) h = rw ((eq_iff s.pending.boot_id w.boot_id).1 h.1) (
    same_boot-Keeps Kept Kept-Stable w fuel config (λ t k. push unlink_execution t.log refl k) s
        h.0,
    same_boot-Ends w fuel config s,
  )

  settle_execution-Waits :
      (p : Execution) (s : AgentState)
      → Q s.log
      → s.execution ≡ some p
      → p.boot_id ≡ w.boot_id
      → Waits (settle_execution w fuel config s)
  unfolding settle_execution
  settle_execution-Waits p s h e b =
      subst
        (λ o. Waits (elim o as (λ q. Result AgentError Bool × AgentState) [
          | none ↦ (ok false, s)
          | some x ↦ then_do (undo_handoff w fuel config (record s { pending = x })) (λ _ t.
              if t.pending.boot_id == w.boot_id
              then same_boot w fuel config t
              else next_boot w fuel config t)
        ]))
        (sym e)
        (undone-Waits (undo_handoff w fuel config (record s { pending = p })) (
          undo_handoff-Keeps InBoot InBoot-Stable w fuel config InBoot-Saved (λ o r t k. k)
            (record s { pending = p }) (h, b)))

  waits_then :
      (r : Result AgentError Bool × AgentState)
      → Waits r
      → Q (then_do r (unless_waiting w fuel config)).1.log
  waits_then (ok true, s) h = h.0
  waits_then (ok false, s) h = absurd (h.1 refl)
  waits_then (err e, s) h = h.0

  -- With the execution that was found.
  abbrev Found : Execution → AgentState → Type 0
  Found p s = Q s.log × (s.execution ≡ some p)

  Found-Stable : (p : Execution) → Stable (Found p)
  Found-Stable p = record {
    asked = λ e s a h. (push e s.log (ap is_active a) h.0, h.1);
    ran_on = λ b s h. (push (ran b.log) s.log refl h.0, h.1);
  }

  found_then :
      {A : Type 0} (p : Execution) (r : Result AgentError A × AgentState)
      (f : A → AgentAct (Unit {0}))
      → Found p r.1
      → ((a : A) (t : AgentState) → Found p t → Q (f a t).1.log)
      → Q (then_do r f).1.log
  found_then p (ok a, s) f h k = k a s h
  found_then p (err e, s) f h k = h.0

  after_update-Keeps :
      (p : Execution) (stop : Bool) (s : AgentState)
      → p.boot_id ≡ w.boot_id
      → Found p s
      → Q (after_update w fuel config stop s).1.log
  unfolding after_update
  after_update-Keeps p true s b h = h.0
  after_update-Keeps p false s b h =
      waits_then (settle_execution w fuel config s) (settle_execution-Waits p s h.0 h.1 b)

  only_if-Keeps :
      (p : Execution) (b : Bool) (s : AgentState)
      → Found p s
      → Found p (only_if b (on_cluster w (λ v. replay_backups v)) s).1
  only_if-Keeps p true s h =
      on_cluster-Keeps (Found p) (Found-Stable p) w (λ v. replay_backups v) s h
  only_if-Keeps p false s h = h

  process-Keeps :
      (p : Execution) (s : AgentState)
      → s.execution ≡ some p
      → p.boot_id ≡ w.boot_id
      → Q s.log
      → Q (process w fuel config s).1.log
  unfolding process
  process-Keeps p s e b h =
      found_then p (only_if (pve w fuel config) (on_cluster w (λ v. replay_backups v)) s)
        (λ _ t. then_do (settle_update w fuel config t) (after_update w fuel config))
        (only_if-Keeps p (pve w fuel config) s (h, e))
        (λ _ t k.
          found_then p (settle_update w fuel config t) (after_update w fuel config)
            (settle_update-Keeps (Found p) (Found-Stable p) w fuel config t
              (λ u l. (push unlink_update u.log refl l.0, l.1)) k)
            (λ stop u l. after_update-Keeps p stop u b l))

abbrev pub actions : List Step → ℕ
actions [] = 0
actions (e ∷ log) = let n = actions log in if acts e then suc n else n

-- While the journal of an execution is on disk that was made in this boot, whatever else it says, a
-- tick of the agent claims nothing, installs nothing and does not reboot.
pub process-actions :
    (w : AgentWorld) (fuel : ℕ) (config : Config) (p : Execution) (s : AgentState)
    → s.execution ≡ some p
    → p.boot_id ≡ w.boot_id
    → actions (process w fuel config s).1.log ≡ actions s.log
process-actions w fuel config p s e b =
    process-Keeps (λ log. actions log ≡ actions s.log) (λ x log a h. rw (actions, a) h) w fuel
      config p s e b refl
