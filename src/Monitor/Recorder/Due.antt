-- ===== src/Monitor/Recorder/Due.antt =====
-- When docker/home-service-monitor/monitor.py reports that a recording has not started.
use my_infra.Prelude.{
  ℕ, ◌+◌, ◌<◌, ◌≡◌, ◌⊎◌, ◌↔◌, inl, inr, refl, true, false, List, [], ◌∷◌, arith, nat_eq, All, Any,
  Bool-cases,
}
use my_infra.Monitor.Recorder.{Reserve, Recorded, Key, key_eqb, has_key, us, is_overdue, count_if}

-- A recording of the channel that started at the same time.
abbrev pub Of : Reserve → Recorded → Type 0
Of r x = (x.channel_id ≡ r.channel_id) × (x.start_at ≡ r.start_at)

-- It should have started two minutes ago, and has not ended.
abbrev pub IsDue : ℕ → Reserve → Type 0
IsDue now r = (r.is_skip ≡ false) × (us r.start_at + 120_000_000 < now) × (now < us r.end_at)

abbrev pub IsTaped : List Recorded → List Recorded → Reserve → Type 0
IsTaped recordings recorded r = Any (Of r) recordings ⊎ Any (Of r) recorded

has_key-Of :
    (xs : List Recorded) (r : Reserve)
    → has_key xs (r.channel_id, r.start_at) ≡ true
    → Any (Of r) xs
unfolding has_key
has_key-Of [] r h = cc
has_key-Of (x ∷ xs) r h =
    elim (Bool-cases (key_eqb (x.channel_id, x.start_at) (r.channel_id, r.start_at))) [
      | inl e ↦ inl (ground (arith, e))
      | inr e ↦ inr (has_key-Of xs r (ground (arith, e, h)))
    ]

Of-has_key :
    (xs : List Recorded) (r : Reserve)
    → Any (Of r) xs
    → has_key xs (r.channel_id, r.start_at) ≡ true
unfolding has_key
Of-has_key [] r h = absurd h
Of-has_key (x ∷ xs) r (inl h) = ground (arith, h.0, h.1)
Of-has_key (x ∷ xs) r (inr h) = ground (arith, Of-has_key xs r h)

module _ (recordings recorded : List Recorded) (now : ℕ) where
  abbrev key : Reserve → Key
  key r = (r.channel_id, r.start_at)

  overdue-IsTaped :
      (r : Reserve)
      → is_overdue recordings recorded now r ≡ false
      → IsDue now r
      → IsTaped recordings recorded r
  unfolding is_overdue
  overdue-IsTaped r e due = elim (Bool-cases (has_key recordings (key r))) [
    | inl a ↦ inl (has_key-Of recordings r a)
    | inr a ↦ elim (Bool-cases (has_key recorded (key r))) [
      | inl b ↦ inr (has_key-Of recorded r b)
      | inr b ↦ absurd (ground (arith, e, due.0, due.1, due.2, a, b))
    ]
  ]

  overdue-IsDue : (r : Reserve) → is_overdue recordings recorded now r ≡ true → IsDue now r
  unfolding is_overdue
  overdue-IsDue r e = ground (arith, e)

  overdue-not-IsTaped :
      (r : Reserve)
      → is_overdue recordings recorded now r ≡ true
      → IsTaped recordings recorded r
      → ⊥
  unfolding is_overdue
  overdue-not-IsTaped r e (inl t) = ground (arith, e, Of-has_key recordings r t)
  overdue-not-IsTaped r e (inr t) = ground (arith, e, Of-has_key recorded r t)

  IsTaped-overdue :
      (r : Reserve)
      → (IsDue now r → IsTaped recordings recorded r)
      → is_overdue recordings recorded now r ≡ false
  IsTaped-overdue r f = elim (Bool-cases (is_overdue recordings recorded now r)) [
    | inr e ↦ e
    | inl e ↦ absurd (overdue-not-IsTaped r e (f (overdue-IsDue r e)))
  ]

abbrev pub Covered : List Recorded → List Recorded → ℕ → Reserve → Type 0
Covered recordings recorded now r = IsDue now r → IsTaped recordings recorded r

-- No recording is reported as not started exactly if for each reservation that should have started
-- two minutes ago, has not ended and is not skipped, the channel is being recorded, or has been, from
-- the same start on.
pub not_started_iff :
    (recordings recorded : List Recorded) (now : ℕ) (reserves : List Reserve)
    → (count_if (is_overdue recordings recorded now) reserves ≡ 0)
      ↔ All (Covered recordings recorded now) reserves
unfolding count_if
not_started_iff recordings recorded now [] = (λ _. tt, λ _. refl)
not_started_iff recordings recorded now (r ∷ rs) =
    let ih = not_started_iff recordings recorded now rs in
    elim (Bool-cases (is_overdue recordings recorded now r)) [
      | inl e ↦
          rw (count_if, e)
            (
              λ z. absurd (omega (arith, z)),
              λ h. absurd (
                  overdue-not-IsTaped recordings recorded now r e
                    (h.0 (overdue-IsDue recordings recorded now r e))),
            )
      | inr e ↦
          rw (count_if, e)
            (λ z. (overdue-IsTaped recordings recorded now r e, ih.0 z), λ h. ih.1 h.1)
    ]
