-- ===== src/Monitor/Nas/Deadline.antt =====
-- `rpc` of docker/home-service-monitor/monitor.py ends by its deadline.
use my_infra.Prelude.{
  ℕ, zero, suc, ◌<◌, ◌≤◌, ◌≢◌, List, ◌∷◌, arith, ltb, nat_eq, Bool-cases, inl, inr, Option, none,
  some,
}
use my_infra.Prelude.Action.{err, Result-cases}
use my_infra.Monitor.Metrics.{out_of_fuel}
use my_infra.Monitor.Scan.{Call, receive, Scan}
use my_infra.Monitor.Nas.{NasWorld, Answer, answer_of, is_answer, await}

-- The history after `k` more messages.
abbrev pub received : ℕ → List Call → List Call
received zero log = log
received (suc k) log = received k (receive ∷ log)

answer_of_ends :
    (w : NasWorld) (a : Option Answer) (s : Scan) → (answer_of w a s).0 ≢ err out_of_fuel
answer_of_ends w none s = λ q. absurd cc
answer_of_ends w (some a) s = λ q. absurd cc

-- If the deadline has passed once `k` more messages have been read, whatever the clock shows before,
-- then the wait needs fuel for no more than these messages and one more look at the clock: it ends with
-- the answer or with an error of the program. `out_of_fuel` is no error that the connection raises.
pub await_ends :
    (w : NasWorld) (fuel deadline id k : ℕ) (s : Scan)
    → ((log : List Call) → w.messages log ≢ err out_of_fuel)
    → k < fuel
    → deadline ≤ w.monotonic (received k s.log)
    → (await w fuel deadline id s).0 ≢ err out_of_fuel
unfolding await
await_ends w zero deadline id k s own p h = absurd (omega (arith, p))
await_ends w (suc fuel) deadline id zero s own p h =
    elim (Bool-cases (ltb (w.monotonic s.log) deadline)) [
      | inr a ↦ rw (await, a) (λ q. absurd cc)
      | inl a ↦ absurd (ground (arith, a, h))
    ]
await_ends w (suc fuel) deadline id (suc k) s own p h =
    elim (Bool-cases (ltb (w.monotonic s.log) deadline)) [
      | inr a ↦ rw (await, a) (λ q. absurd cc)
      | inl a ↦ elim (Result-cases (w.messages s.log)) [
        | inr (f, e) ↦ rw (await, a, e) (λ q. own s.log (cc))
        | inl (message, e) ↦ elim (Bool-cases (is_answer id message.id)) [
          | inl b ↦ rw (await, a, e, b) (answer_of_ends w message.answer _)
          | inr b ↦
              rw (await, a, e, b)
                (await_ends w fuel deadline id k (record s { log = receive ∷ s.log }) own
                  (omega (arith, p)) h)
        ]
      ]
    ]
