-- ===== src/Monitor/Retry.antt =====
-- `get_json` and `kubernetes_get_json` of docker/home-service-monitor/monitor.py.

use my_infra.Prelude.{
  ℕ, Bool, true, false, not, ◌||◌, ◌≡◌, ◌∙◌, refl, sym, subst, ◌↔◌, ◌⊎◌, inl, inr, Bool-cases, List,
  ◌∷◌, String, ◌==◌, nat_eq, if◌then◌else◌,
}
use my_infra.Prelude.Action.{Result, ok, err, ◌>>=◌, raise, Result-cases}
use my_infra.Monitor.Metrics.{
  Error, value_error, http_status, timeout_error, connection_error, http_exception, other_error,
  out_of_fuel,
}
use my_infra.Monitor.Scan.{Call, get, sleep, Scan, Act, ask}

-- A status and what is parsed from the body, if that is JSON.
pub record Response (A : Type 0) : Type 0 where
  pub status : ℕ
  pub body : Result Error A

-- The answer to a request, or what it raises.
abbrev pub Server : Type 0 → Type 0
Server A = List Call → Result Error (Response A)

abbrev pub parse : {A : Type 0} → Response A → Act A
parse r = if r.status == 200 then (λ s. (r.body, s)) else raise (http_status r.status)

unfoldable pub get_json : {A : Type 0} → String → Server A → Act A
get_json url answer = do response ← ask (get url) answer; parse response

-- What a second attempt may mend.
abbrev pub is_transient : Error → Bool
is_transient (http_status n) = (n == 429) || (n == 500) || (n == 502) || (n == 503) || (n == 504)
is_transient timeout_error = true
is_transient connection_error = true
is_transient http_exception = true
is_transient value_error = false
is_transient other_error = false
is_transient out_of_fuel = false

module _ {A : Type 0} (url : String) (answer : Server A) where
  abbrev pause : Scan → Scan
  pause s = record s { log = sleep ∷ s.log }

  -- An attempt, and the next one, which is made after a pause.
  abbrev or_again : Bool → Act A → Result Error A × Scan → Result Error A × Scan
  or_again last next (ok a, s) = (ok a, s)
  or_again last next (err e, s) =
      if not (is_transient e) || last then (err e, s) else next (pause s)

  -- `for attempt in range(2)`
  unfoldable pub kubernetes_get_json : Act A
  unfolding get_json
  kubernetes_get_json s =
      or_again false (λ t. or_again true (λ u. (err other_error, u)) (get_json url answer t))
        (get_json url answer s)

  abbrev pub FailsForGood : Scan → Error → Type 0
  FailsForGood s e = ((get_json url answer s).0 ≡ err e) × (is_transient e ≡ false)

  -- For now, and then again.
  pub record FailsTwice (s : Scan) (e : Error) : Type 0 where
    pub first : Error
    pub fails : (get_json url answer s).0 ≡ err first
    pub transient : is_transient first ≡ true
    pub again : (get_json url answer (pause (get_json url answer s).1)).0 ≡ err e

  err_same : (f e : Error) → ◌≡◌ {A = Result Error A} (err f) (err e) → f ≡ e
  err_same f e h = cc

  -- The last attempt stands.
  last_attempt : (next : Act A) (r : Result Error A × Scan) → (or_again true next r).0 ≡ r.0
  last_attempt next (ok a, s) = refl
  last_attempt next (err f, s) = elim (Bool-cases (is_transient f)) [
    | inl t ↦ rw t refl
    | inr t ↦ rw t refl
  ]

  -- After a failure for now all depends on the second attempt.
  second :
      (s : Scan) (f : Error)
      → (get_json url answer s).0 ≡ err f
      → is_transient f ≡ true
      → (kubernetes_get_json s).0
        ≡ (or_again true
            (λ u. (err other_error, u))
            (get_json url answer (pause (get_json url answer s).1))).0
  unfolding kubernetes_get_json
  second s f p t = rw (kubernetes_get_json, p, t) refl

  fails_of :
      (s : Scan) (e : Error) → (kubernetes_get_json s).0 ≡ err e → FailsForGood s e ⊎ FailsTwice s e
  unfolding kubernetes_get_json
  fails_of s e = elim (Result-cases ((get_json url answer s).0)) [
    | inl (a, p) ↦ rw (kubernetes_get_json, p) (λ h. absurd cc)
    | inr (f, p) ↦ elim (Bool-cases (is_transient f)) [
      | inr t ↦
          rw (kubernetes_get_json, p, t)
            (λ h. inl (h, subst (λ x. is_transient x ≡ false) (err_same f e h) t))
      | inl t ↦ λ h. inr record {
        first = f;
        fails = p;
        transient = t;
        again =
            sym (
              last_attempt (λ u. (err other_error, u))
                (get_json url answer (pause (get_json url answer s).1)))
            ∙ (sym (second s f p t) ∙ h);
      }
    ]
  ]

  to_fail :
      (s : Scan) (e : Error) → FailsForGood s e ⊎ FailsTwice s e → (kubernetes_get_json s).0 ≡ err e
  unfolding kubernetes_get_json
  to_fail s e (inl (p, t)) = rw (kubernetes_get_json, p, t) refl
  to_fail s e (inr h) =
      second s h.first h.fails h.transient
      ∙ (last_attempt (λ u. (err other_error, u))
            (get_json url answer (pause (get_json url answer s).1))
          ∙ h.again)

-- The poll of an inventory fails exactly if the first attempt fails for good, or if it fails for now
-- and the second one, made after a pause, fails too; then with the error of the last attempt made.
pub kubernetes_get_json_fails :
    {A : Type 0} (url : String) (answer : Server A) (s : Scan) (e : Error)
    → ((kubernetes_get_json url answer s).0 ≡ err e)
      ↔ (FailsForGood url answer s e ⊎ FailsTwice url answer s e)
kubernetes_get_json_fails url answer s e = (fails_of url answer s e, to_fail url answer s e)
