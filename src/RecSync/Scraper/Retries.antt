-- ===== src/RecSync/Scraper/Retries.antt =====
-- How often the scraper is asked, and when the job cannot tell.
use my_infra.Prelude.{
  ℕ, zero, suc, ◌<◌, ◌≡◌, Option, none, some, List, ◌∷◌, arith, map, ◌⊎◌, Option-cases, inl, inr,
}
use my_infra.RecSync.Text.{Text, Unicode, normalize}
use my_infra.RecSync.Http.{Service, Net, Call, get_services}
use my_infra.RecSync.Scraper.{
  streams, services_or_empty, request_services, is_streamable_on_subscription,
}

-- The history after `k` more requests for the services of a work.
abbrev pub asked : ℕ → ℕ → List Call → List Call
asked annict_id zero log = log
asked annict_id (suc k) log = asked annict_id k (get_services annict_id ∷ log)

module _ (net : Net) (annict_id : ℕ) where
  -- The first `k` requests raise.
  abbrev pub Failed : ℕ → List Call → Type 0
  Failed k log = (j : ℕ) → j < k → net.get_services (asked annict_id j log) annict_id ≡ none

  -- The first answer is `services`, after fewer than `retries` requests that raised.
  pub record Answered (retries : ℕ) (log : List Call) (services : Option (List Service))
      : Type 0 where
    pub failures : ℕ
    pub in_time : failures < retries
    pub failed : Failed failures log
    pub answered : net.get_services (asked annict_id failures log) annict_id ≡ some services

  Failed-suc :
      (k : ℕ) (log : List Call)
      → net.get_services log annict_id ≡ none
      → Failed k (get_services annict_id ∷ log)
      → Failed (suc k) log
  Failed-suc k log first later zero h = first
  Failed-suc k log first later (suc j) h = later j (omega arith)

  abbrev Cases : ℕ → List Call → Option (Option (List Service)) × List Call → Type 0
  Cases retries log r =
      ((services : Option (List Service)) × (a : Answered retries log services) × (r
          ≡ (some services, asked annict_id (suc a.failures) log)))
      ⊎ (Failed retries log × (r ≡ (none, asked annict_id retries log)))

  at_once :
      (n : ℕ) (log : List Call) (services : Option (List Service))
      → net.get_services log annict_id ≡ some services
      → Answered (suc n) log services
  at_once n log services e = record {
    failures = 0;
    in_time = omega arith;
    failed = λ j h. absurd (omega arith);
    answered = e;
  }

  one_later :
      (n : ℕ) (log : List Call) (services : Option (List Service))
      → net.get_services log annict_id ≡ none
      → Answered n (get_services annict_id ∷ log) services
      → Answered (suc n) log services
  one_later n log services e a = record {
    failures = suc a.failures;
    in_time = omega (arith, a.in_time);
    failed = Failed-suc a.failures log e a.failed;
    answered = a.answered;
  }

  request_services-Cases :
      (retries : ℕ) (log : List Call)
      → Cases (suc retries) log (request_services net annict_id (suc retries) log)
  unfolding request_services at_once one_later
  request_services-Cases zero log = elim (Option-cases (net.get_services log annict_id)) [
    | inr (services, e) ↦ inl (services, at_once 0 log services e, rw (e, request_services))
    | inl e ↦ inr (Failed-suc 0 log e (λ j h. absurd (omega arith)), rw (e, request_services))
  ]
  request_services-Cases (suc n) log = elim (Option-cases (net.get_services log annict_id)) [
    | inr (services, e) ↦ inl (services, at_once (suc n) log services e, rw (e, request_services))
    | inl e ↦
        rw (e, request_services)
          (elim (request_services-Cases n (get_services annict_id ∷ log)) [
            | inl (services, a, r) ↦ inl (services, one_later (suc n) log services e a, r)
            | inr (failed, r) ↦ inr (Failed-suc (suc n) log e failed, r)
          ])
  ]

-- With at least one attempt, either some attempt answers after only failed ones: then no further
-- request is made, and the services it lists are judged. Or each of the attempts is made and fails,
-- and only then is the result `none`.
pub is_streamable_cases :
    (u : Unicode) (subscribed : List Text) (net : Net) (annict_id retries : ℕ) (log : List Call)
    → 0 < retries
    → ((services : Option (List Service)) × (a : Answered net annict_id retries log services)
        × (is_streamable_on_subscription u subscribed retries net annict_id log ≡ (
          some (streams u (map (normalize u) subscribed) (services_or_empty services)),
          asked annict_id (suc a.failures) log,
        )))
      ⊎ (Failed net annict_id retries log
          × (is_streamable_on_subscription u subscribed retries net annict_id log
              ≡ (none, asked annict_id retries log)))
unfolding is_streamable_on_subscription
is_streamable_cases u subscribed net annict_id zero log h = absurd (omega arith)
is_streamable_cases u subscribed net annict_id (suc n) log h =
    elim (request_services-Cases net annict_id n log) [
      | inl (services, a, r) ↦ inl (services, a, rw r)
      | inr (failed, r) ↦ inr (failed, rw r)
    ]
