-- ===== src/Maintenance/Agent/Availability/Serves.antt =====
-- What `availability_check` of ansible/host-maintenance/files/maintenance-agent.py has heard of the
-- other nodes when it has counted an endpoint.
use my_infra.Prelude.{
  ℕ, ◌+◌, ◌<◌, ◌≡◌, inl, inr, refl, sym, subst, Bool, true, false, not, List, [], ◌∷◌, ◌++◌, String,
  arith, ◌==◌, nat_eq, string_eq, Any, Bool-cases,
}
use my_infra.Prelude.Dict.{Dict}
use my_infra.Prelude.Action.{Result, ok, err, then_do, Result-cases}
use my_infra.Maintenance.Agent.{
  AgentError, blocked, runtime_error, subprocess_error, value_error, key_error, type_error,
  index_error, os_error, attribute_error, out_of_fuel, Policy, Probe, status, http_error, failed,
  Step, ran, probed, AgentState, AgentWorld, AgentAct, require,
}
use my_infra.Maintenance.Agent.Availability.{
  urlopen, readiness, tunnel_up, ask_loockit, count_ready, ask_tunnel, count_tunnels, one_more,
}
use my_infra.Maintenance.Agent.Keeps.{Stable, urlopen-Keeps, count_ready-Keeps, count_tunnels-Keeps}

-- What has happened since the record `old`.
pub record Since (old log : List Step) : Type 0 where
  pub recent : List Step
  pub grown : log ≡ recent ++ old

-- Since the record `old` the world has answered a request of the URL with 200.
pub record Answered (w : AgentWorld) (old : List Step) (url : String) (log : List Step)
    : Type 0 where
  pub asked : List Step
  pub since : Since old asked
  pub answered : w.urlopen asked url ≡ status 200
  pub noted : Since (probed url (status 200) ∷ asked) log

-- An endpoint of another node that has answered.
abbrev pub Serves : AgentWorld → String → List Step → List Step → String × String → Type 0
Serves w host old log (node, url) = ((node == host) ≡ false) × Answered w old url log

pub Since-more :
    (old : List Step) (e : Step) (log : List Step) → Since old log → Since old (e ∷ log)
Since-more old e log h = record { recent = e ∷ h.recent; grown = cc (h.grown) }

pub Since-Stable : (old : List Step) → Stable (λ s. Since old s.log)
Since-Stable old = record {
  asked = λ e s q h. Since-more old e s.log h;
  ran_on = λ b s h. Since-more old (ran b.log) s.log h;
}

Answered-more :
    (w : AgentWorld) (old : List Step) (url : String) (e : Step) (log : List Step)
    → Answered w old url log
    → Answered w old url (e ∷ log)
Answered-more w old url e log h = record {
  asked = h.asked;
  since = h.since;
  answered = h.answered;
  noted = Since-more (probed url (status 200) ∷ h.asked) e log h.noted;
}

Answered-Stable :
    (w : AgentWorld) (old : List Step) (url : String) → Stable (λ s. Answered w old url s.log)
Answered-Stable w old url = record {
  asked = λ e s q h. Answered-more w old url e s.log h;
  ran_on = λ b s h. Answered-more w old url (ran b.log) s.log h;
}

Any-map :
    {A : Type 0} {P Q : A → Type 0} (xs : List A) → ((x : A) → P x → Q x) → Any P xs → Any Q xs
Any-map [] f h = h
Any-map (x ∷ xs) f (inl h) = inl (f x h)
Any-map (x ∷ xs) f (inr h) = inr (Any-map xs f h)

Serves-map :
    (w : AgentWorld) (host : String) (old log more : List Step) (d : Dict String)
    → ((url : String) → Answered w old url log → Answered w old url more)
    → Any (Serves w host old log) d
    → Any (Serves w host old more) d
Serves-map w host old log more d f h = Any-map d (λ x k. (k.0, f x.1 k.1)) h

pub Serves-push :
    (w : AgentWorld) (host : String) (old : List Step) (e : Step) (log : List Step)
    (d : Dict String)
    → Any (Serves w host old log) d
    → Any (Serves w host old (e ∷ log)) d
Serves-push w host old e log d h =
    Serves-map w host old log (e ∷ log) d (λ url k. Answered-more w old url e log k) h

-- Before a reboot only a status of 200 counts.
readiness-ready :
    (p : Probe) (up : Bool) → readiness true p ≡ ok up → (p ≡ status 200) × (up ≡ true)
readiness-ready (status n) up h = ground (arith, h)
readiness-ready (http_error n body) up h = absurd cc
readiness-ready (failed e) up h = absurd cc

tunnel_up-up : (p : Probe) → tunnel_up p ≡ ok true → p ≡ status 200
tunnel_up-up (status n) h = ground (arith, h)
tunnel_up-up (http_error n body) h = absurd cc
tunnel_up-up (failed os_error) h = absurd cc
tunnel_up-up (failed value_error) h = absurd cc
tunnel_up-up (failed blocked) h = absurd cc
tunnel_up-up (failed runtime_error) h = absurd cc
tunnel_up-up (failed subprocess_error) h = absurd cc
tunnel_up-up (failed key_error) h = absurd cc
tunnel_up-up (failed type_error) h = absurd cc
tunnel_up-up (failed index_error) h = absurd cc
tunnel_up-up (failed attribute_error) h = absurd cc
tunnel_up-up (failed out_of_fuel) h = absurd cc

module _ (w : AgentWorld) (host : String) (old : List Step) where
  -- The answer that has just come.
  answered_now :
      (url : String) (s : AgentState)
      → Since old s.log
      → w.urlopen s.log url ≡ status 200
      → Answered w old url (urlopen w url s).1.log
  unfolding urlopen
  answered_now url s h e = record {
    asked = s.log;
    since = h;
    answered = e;
    noted = record { recent = []; grown = cc (e) };
  }

  -- If more are counted than before, one of the endpoints serves.
  abbrev Shown : ℕ → ℕ → Dict String → Result AgentError ℕ × AgentState → Type 0
  Shown n m d r = r.0 ≡ ok m → n < m → Any (Serves w host old r.1.log) d

  ready_skip :
      (n : ℕ) (node url : String) (d : Dict String) (s : AgentState)
      → (node == host) ≡ true
      → count_ready w host true n ((node, url) ∷ d) s ≡ count_ready w host true n d s
  unfolding count_ready
  ready_skip n node url d s e = rw (count_ready, e) refl

  ready_look :
      (n : ℕ) (node url : String) (d : Dict String) (s : AgentState)
      → (node == host) ≡ false
      → count_ready w host true n ((node, url) ∷ d) s
        ≡ then_do (ask_loockit w true url s) (λ up. count_ready w host true (one_more up n) d)
  unfolding count_ready
  ready_look n node url d s e = rw (count_ready, e) refl

  -- The endpoint that is asked.
  ready_asked :
      (n m : ℕ) (node url : String) (d : Dict String) (s : AgentState)
      → (node == host) ≡ false
      → Since old s.log
      → Shown n m
          ((node, url) ∷ d)
          (then_do (ask_loockit w true url s) (λ up. count_ready w host true (one_more up n) d))
  unfolding ask_loockit urlopen
  ready_asked n m node url d s a h = elim (Result-cases (readiness true (w.urlopen s.log url))) [
    | inr (f, e) ↦ rw (ask_loockit, e) (λ q. absurd cc)
    | inl (up, e) ↦
        rw (ask_loockit, e)
          (λ q l. inl (
            a,
            count_ready-Keeps (λ t. Answered w old url t.log) (Answered-Stable w old url) w host
                true (one_more up n) d _
                (answered_now url s h ((readiness-ready (w.urlopen s.log url) up e).0)),
          ))
  ]

  count_ready-Serves :
      (n m : ℕ) (d : Dict String) (s : AgentState)
      → Since old s.log
      → Shown n m d (count_ready w host true n d s)
  unfolding count_ready
  count_ready-Serves n m [] s h = λ e l. absurd (ground (arith, e, l))
  count_ready-Serves n m ((node, url) ∷ d) s h = elim (Bool-cases (node == host)) [
    | inl a ↦
        subst (Shown n m ((node, url) ∷ d)) (sym (ready_skip n node url d s a))
          (λ e l. inr (count_ready-Serves n m d s h e l))
    | inr a ↦
        subst (Shown n m ((node, url) ∷ d)) (sym (ready_look n node url d s a))
          (ready_asked n m node url d s a h)
  ]

  tunnels_skip :
      (n : ℕ) (node url : String) (d : Dict String) (s : AgentState)
      → (node == host) ≡ true
      → count_tunnels w host true n ((node, url) ∷ d) s ≡ count_tunnels w host true n d s
  unfolding count_tunnels
  tunnels_skip n node url d s e = rw (count_tunnels, e) refl

  tunnels_look :
      (n : ℕ) (node url : String) (d : Dict String) (s : AgentState)
      → (node == host) ≡ false
      → count_tunnels w host true n ((node, url) ∷ d) s
        ≡ then_do (ask_tunnel w url s) (λ up. count_tunnels w host true (one_more up n) d)
  unfolding count_tunnels
  tunnels_look n node url d s e = rw (count_tunnels, e) refl

  -- After the answer of the tunnel.
  tunnels_asked :
      (n m : ℕ) (node url : String) (d : Dict String) (r : Result AgentError Bool) (t : AgentState)
      → (node == host) ≡ false
      → Since old t.log
      → (r ≡ ok true → Answered w old url t.log)
      → ((u : AgentState) → Since old u.log → Shown n m d (count_tunnels w host true n d u))
      → Shown n m
          ((node, url) ∷ d)
          (then_do (r, t) (λ up. count_tunnels w host true (one_more up n) d))
  tunnels_asked n m node url d (err f) t a h now more = λ q. absurd cc
  tunnels_asked n m node url d (ok true) t a h now more = λ q l. inl (
    a,
    count_tunnels-Keeps (λ u. Answered w old url u.log) (Answered-Stable w old url) w host true
        (n + 1) d t (now refl),
  )
  tunnels_asked n m node url d (ok false) t a h now more = λ q l. inr (more t h q l)

  count_tunnels-Serves :
      (n m : ℕ) (d : Dict String) (s : AgentState)
      → Since old s.log
      → Shown n m d (count_tunnels w host true n d s)
  unfolding count_tunnels urlopen
  count_tunnels-Serves n m [] s h = λ e l. absurd (ground (arith, e, l))
  count_tunnels-Serves n m ((node, url) ∷ d) s h = elim (Bool-cases (node == host)) [
    | inl a ↦
        subst (Shown n m ((node, url) ∷ d)) (sym (tunnels_skip n node url d s a))
          (λ e l. inr (count_tunnels-Serves n m d s h e l))
    | inr a ↦ subst (Shown n m ((node, url) ∷ d)) (sym (tunnels_look n node url d s a)) (
        tunnels_asked n m node url d (tunnel_up (w.urlopen s.log url)) (urlopen w url s).1 a
          (urlopen-Keeps (λ t. Since old t.log) (Since-Stable old) w url s h)
          (λ e. answered_now url s h (tunnel_up-up (w.urlopen s.log url) e))
          (λ t k. count_tunnels-Serves n m d t k))
  ]

  -- What both loops have seen if nothing is raised.
  abbrev Seen : Policy → Result AgentError (Unit {0}) × AgentState → Type 0
  Seen policy r =
      r.0 ≡ ok tt
      → Any (Serves w host old r.1.log) policy.loockit_endpoints
        × Any (Serves w host old r.1.log) policy.tunnel_endpoints

  then-Seen :
      {A : Type 0} (policy : Policy) (r : Result AgentError A × AgentState)
      (f : A → AgentAct (Unit {0}))
      → ((a : A) → r.0 ≡ ok a → Seen policy (f a r.1))
      → Seen policy (then_do r f)
  then-Seen policy (ok a, s) f k = k a refl
  then-Seen policy (err e, s) f k = λ q. absurd cc

  pub guard_true :
      (b : Bool) (e : AgentError) (s : AgentState) → (require b e s).0 ≡ ok tt → b ≡ true
  guard_true true e s h = refl
  guard_true false e s h = absurd cc

  tunnels-Seen :
      (policy : Policy) (s : AgentState)
      → Since old s.log
      → Any (Serves w host old s.log) policy.loockit_endpoints
      → Seen policy (
          then_do
            (count_tunnels w host true 0 policy.tunnel_endpoints s)
            (λ tunnels. require (not (tunnels == 0)) blocked))
  tunnels-Seen policy s h seen =
      let t : AgentState = (count_tunnels w host true 0 policy.tunnel_endpoints s).1 in
      then-Seen policy (count_tunnels w host true 0 policy.tunnel_endpoints s) _ (λ m e q. (
        Serves-map w host old s.log t.log policy.loockit_endpoints
            (λ url.
              count_tunnels-Keeps (λ u. Answered w old url u.log) (Answered-Stable w old url) w host
                true 0 policy.tunnel_endpoints s)
            seen,
        count_tunnels-Serves 0 m policy.tunnel_endpoints s h e (
            let b : not (m == 0) ≡ true = guard_true (not (m == 0)) blocked t q in
            ground (arith, b)),
      ))

  pub ready-Seen :
      (policy : Policy) (s : AgentState)
      → Since old s.log
      → Seen policy (
          then_do (count_ready w host true 0 policy.loockit_endpoints s) (λ ready t.
            then_do (require (ready == 1) blocked t) (λ _ u.
              then_do
                (count_tunnels w host true 0 policy.tunnel_endpoints u)
                (λ tunnels. require (not (tunnels == 0)) blocked))))
  ready-Seen policy s h =
      let t : AgentState = (count_ready w host true 0 policy.loockit_endpoints s).1 in
      then-Seen policy (count_ready w host true 0 policy.loockit_endpoints s) _ (λ n e.
        then-Seen policy (require (n == 1) blocked t) _ (λ _ q.
          tunnels-Seen policy t
            (count_ready-Keeps (λ u. Since old u.log) (Since-Stable old) w host true 0
              policy.loockit_endpoints s h)
            (count_ready-Serves 0 n policy.loockit_endpoints s h e
              (let b : (n == 1) ≡ true = guard_true (n == 1) blocked t q in ground (arith, b)))))
