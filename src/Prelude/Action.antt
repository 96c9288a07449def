-- ===== src/Prelude/Action.antt =====
-- Actions that change a state and may raise, over any errors and states. What was done before a raise
-- stays done.
use my_infra.Prelude.{◌≡◌, ◌⊎◌, refl, inl, inr}

pub data Result (E A : Type 0) : Type 0 where
  ok : A → Result E A
  err : E → Result E A

pub Result-cases : {E A : Type 0} (r : Result E A) → ((a : A) × r ≡ ok a) ⊎ ((e : E) × r ≡ err e)
Result-cases (ok a) = inl (a, refl)
Result-cases (err e) = inr (e, refl)

abbrev pub Action : Type 0 → Type 0 → Type 0 → Type 0
Action E S A = S → Result E A × S

module _ {E S : Type 0} where
  abbrev pub then_do : {A B : Type 0} → Result E A × S → (A → Action E S B) → Result E B × S
  then_do (ok a, s) f = f a s
  then_do (err e, s) f = (err e, s)

  infixl 5 ◌>>=◌ ◌>>◌
  abbrev pub ◌>>=◌ : {A B : Type 0} → Action E S A → (A → Action E S B) → Action E S B
  ◌>>=◌ m f s = then_do (m s) f

  abbrev pub ◌>>◌ : {A B : Type 0} → Action E S A → Action E S B → Action E S B
  ◌>>◌ m n s = then_do (m s) (λ _. n)

  abbrev pub pure : {A : Type 0} → A → Action E S A
  pure a s = (ok a, s)

  abbrev pub raise : {A : Type 0} → E → Action E S A
  raise e s = (err e, s)

  -- An action after another, with a predicate that each keeps.
  pub then-Keeps :
      {A B : Type 0} (P : S → Type 0) (r : Result E A × S) (f : A → Action E S B)
      → P r.1
      → ((a : A) (t : S) → P t → P (f a t).1)
      → P (then_do r f).1
  then-Keeps P (ok a, s) f h k = k a s h
  then-Keeps P (err e, s) f h k = h
