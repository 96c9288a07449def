-- ===== src/Maintenance/Agent/Availability/Alive.antt =====
-- What `availability_check` of ansible/host-maintenance/files/maintenance-agent.py has seen when it
-- lets a reboot pass.
use my_infra.Prelude.{
  ◌≡◌, refl, ap, subst, Bool, true, false, List, [], ◌∷◌, String, nat_eq, string_eq, Any,
  if◌then◌else◌,
}
use my_infra.Prelude.Action.{Result, ok, err, then_do}
use my_infra.Maintenance.Agent.{
  AgentError, blocked, Policy, Step, read_policy, AgentState, AgentWorld, AgentAct, give,
}
use my_infra.Maintenance.Agent.Availability.{
  is_complete, complete_policy, availability_policy, check_services, availability_check, raise_as,
  unreadable, denied,
}
use my_infra.Maintenance.Agent.Availability.Serves.{Since, Serves, Serves-push, ready-Seen}

-- Without the host, Loockit is served and a tunnel is up, by the policy that was read since the record
-- `old`: it is complete, and an endpoint of another node has answered after it was read, of each kind.
pub record IsSafeWithout (w : AgentWorld) (host : String) (old log : List Step) : Type 0 where
  pub start : List Step
  pub begun : Since old start
  pub policy : Policy
  pub read : w.policy start ≡ ok policy
  pub complete : is_complete host policy ≡ true
  pub loockit : Any (Serves w host (read_policy ∷ start) log) policy.loockit_endpoints
  pub tunnel : Any (Serves w host (read_policy ∷ start) log) policy.tunnel_endpoints

-- What has been seen stays seen.
pub IsSafeWithout-push :
    (w : AgentWorld) (host : String) (old : List Step) (e : Step) (log : List Step)
    → IsSafeWithout w host old log
    → IsSafeWithout w host old (e ∷ log)
IsSafeWithout-push w host old e log h = record {
  start = h.start;
  begun = h.begun;
  policy = h.policy;
  read = h.read;
  complete = h.complete;
  loockit = Serves-push w host (read_policy ∷ h.start) e log h.policy.loockit_endpoints h.loockit;
  tunnel = Serves-push w host (read_policy ∷ h.start) e log h.policy.tunnel_endpoints h.tunnel;
}

not_raised : (r : Result AgentError (Unit {0})) → raise_as denied r ≡ ok tt → r ≡ ok tt
not_raised (ok a) h = refl
not_raised (err e) h = absurd cc

module _ (w : AgentWorld) (host : String) (old : List Step) where
  -- What has been seen if nothing is raised.
  abbrev pub Passed : Result AgentError (Unit {0}) × AgentState → Type 0
  Passed r = r.0 ≡ ok tt → IsSafeWithout w host old r.1.log

  pub then-Passed :
      {A : Type 0} (r : Result AgentError A × AgentState) (f : A → AgentAct (Unit {0}))
      → ((a : A) → r.0 ≡ ok a → Passed (f a r.1))
      → Passed (then_do r f)
  then-Passed (ok a, s) f k = k a refl
  then-Passed (err e, s) f k = λ q. absurd cc

  chosen :
      (b : Bool) (p q : Policy)
      → ◌≡◌ {A = Result AgentError Policy} (if b then ok p else err blocked) (ok q)
      → (b ≡ true) × (p ≡ q)
  chosen true p q h = (refl, cc)
  chosen false p q h = absurd cc

  -- The policy that the file has, and its test.
  policy_read :
      (r : Result AgentError Policy) (t : AgentState) (q : Policy)
      → (then_do (raise_as unreadable r, t) (λ p. give (complete_policy w host p))).0 ≡ ok q
      → (r ≡ ok q) × (is_complete host q ≡ true)
  policy_read (err e) t q h = absurd cc
  policy_read (ok p) t q h =
      let c = chosen (is_complete host p) p q h in
      (ap ok c.1, subst (λ x. is_complete host x ≡ true) c.1 c.0)

  policy_next :
      (r : Result AgentError Policy) (t : AgentState)
      → Since t.log
          (then_do (raise_as unreadable r, t) (λ p. give (complete_policy w host p))).1.log
  policy_next (err e) t = record { recent = []; grown = refl }
  policy_next (ok p) t = record { recent = []; grown = refl }

  check_services-Passed : (s : AgentState) → Since old s.log → Passed (check_services w host true s)
  unfolding check_services availability_policy
  check_services-Passed s h = then-Passed (availability_policy w host s) _ (λ policy e q.
      let t : AgentState = record s { log = read_policy ∷ s.log } in
      let found = policy_read (w.policy s.log) t policy e in
      let seen =
        ready-Seen w host (read_policy ∷ s.log) policy (availability_policy w host s).1
          (policy_next (w.policy s.log) t) q in
      record {
        start = s.log;
        begun = h;
        policy = policy;
        read = found.0;
        complete = found.1;
        loockit = seen.0;
        tunnel = seen.1;
      })

  pub availability_check-Passed :
      (s : AgentState) → Since old s.log → Passed (availability_check w host true s)
  unfolding availability_check
  availability_check-Passed s h =
      λ q. check_services-Passed s h (not_raised (check_services w host true s).0 q)
