-- ===== src/Maintenance/Exec.antt =====
-- Actions of ansible/host-maintenance/files/maintenance-agent.py: they change a state and may raise.
-- What was done before a raise stays done. The exceptions are told apart as far as handlers do;
-- their messages are left out.
use my_infra.Prelude.{◌≡◌, ◌⊎◌, refl, inl, inr}

pub data Error : Type 0 where
  runtime_error : Error
  subprocess_error : Error
  value_error : Error
  key_error : Error
  index_error : Error
  os_error : Error

pub data Result (A : Type 0) : Type 0 where
  ok : A → Result A
  err : Error → Result A

abbrev pub Exec : Type 0 → Type 0 → Type 0
Exec S A = S → Result A × S

module _ {S : Type 0} where
  abbrev pub then_do : {A B : Type 0} → Result A × S → (A → Exec S B) → Result B × S
  then_do (ok a, s) f = f a s
  then_do (err e, s) f = (err e, s)

  infixl 5 ◌>>=◌ ◌>>◌
  abbrev pub ◌>>=◌ : {A B : Type 0} → Exec S A → (A → Exec S B) → Exec S B
  ◌>>=◌ m f s = then_do (m s) f

  abbrev pub ◌>>◌ : {A B : Type 0} → Exec S A → Exec S B → Exec S B
  ◌>>◌ m n s = then_do (m s) (λ _. n)

  abbrev pub pure : {A : Type 0} → A → Exec S A
  pure a s = (ok a, s)

  abbrev pub raise : {A : Type 0} → Error → Exec S A
  raise e s = (err e, s)

  -- `except: pass`
  abbrev pub ignore_error : Result (Unit {0}) × S → Result (Unit {0}) × S
  ignore_error (ok a, s) = (ok a, s)
  ignore_error (err e, s) = (ok tt, s)

pub Result-cases : {A : Type 0} (r : Result A) → ((a : A) × r ≡ ok a) ⊎ ((e : Error) × r ≡ err e)
Result-cases (ok a) = inl (a, refl)
Result-cases (err e) = inr (e, refl)
