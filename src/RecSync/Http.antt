-- ===== src/RecSync/Http.antt =====
-- The requests of docker/annict-rec-sync/sync.py and the state that they thread. The servers are not
-- part of the program: what they answer is `Net`, a function of all requests made before.
use my_infra.Prelude.{ℕ, Bool, Option, none, some, List, ◌∷◌}
use my_infra.RecSync.Text.{Text}

-- The body of `POST /api/reserves`; `encode` is `mode1` and `isDeleteOriginalAfterEncode`.
pub record Reservation : Type 0 where
  pub program_id : ℕ
  pub allow_end_lack : Bool
  pub encode : Option (Text × Bool)

pub data Call : Type 0 where
  search_works : Text → Option Text → Call
  get_services : ℕ → Call
  get_reserves : ℕ → ℕ → Call
  get_schedule : ℕ → ℕ → ℕ → Call
  post_reserve : Reservation → Call

-- A decoded broadcast of Annict; `none` is a missing key, and for the channel and `rebroadcast` null too.
-- The name of a channel is a text or missing.
pub record ProgramNode : Type 0 where
  pub started_at : Text
  pub channel : Option (Option Text)
  pub rebroadcast : Option Bool

pub record WorkNode : Type 0 where
  pub annict_id : ℕ
  pub title : Text
  pub programs : List ProgramNode

pub record WorksPage : Type 0 where
  pub errors : Bool
  pub nodes : List WorkNode
  pub has_next_page : Bool
  pub end_cursor : Option Text

-- A streaming service as the scraper lists it.
pub record Service : Type 0 where
  pub name : Option Text
  pub available : Bool

-- The `programId` of each reservation on the page, and `total`.
pub record ReservesPage : Type 0 where
  pub reserves : List (Option ℕ)
  pub total : ℕ

-- An entry of the programme guide, its start in milliseconds.
pub record GuideEntry : Type 0 where
  pub start_at : ℕ
  pub id : ℕ
  pub name : Option Text

-- The answers, newest request first in the history; `none` is a request that raises.
pub record Net : Type 0 where
  pub search_works : List Call → Text → Option Text → Option WorksPage
  pub get_services : List Call → ℕ → Option (Option (List Service))
  pub get_reserves : List Call → ℕ → ℕ → Option ReservesPage
  pub get_schedule : List Call → ℕ → ℕ → ℕ → Option (List (List GuideEntry))
  pub post_reserve : List Call → Reservation → Option (Unit {0})

-- What a function ends with. `out_of_fuel` stands for a loop that goes on.
pub data Outcome {ℓ} (A : Type ℓ) : Type ℓ where
  returned : A → Outcome A
  raised : Outcome A
  out_of_fuel : Outcome A

-- What was done before a raise stays done.
abbrev pub Exec {ℓ} : Type ℓ → Type ℓ → Type ℓ
Exec S A = S → Outcome A × S

abbrev pub Http {ℓ} : Type ℓ → Type ℓ
Http A = List Call → Outcome A × List Call

module _ {ℓ} {S A B : Type ℓ} where
  abbrev pub continue : Outcome A → (A → Exec S B) → Exec S B
  continue (returned a) f s = f a s
  continue raised f s = (raised, s)
  continue out_of_fuel f s = (out_of_fuel, s)

  infixl 5 ◌>>=◌ ◌>>◌
  abbrev pub ◌>>=◌ : Exec S A → (A → Exec S B) → Exec S B
  ◌>>=◌ m f s = let (r, s') = m s in continue r f s'

  abbrev pub ◌>>◌ : Exec S A → Exec S B → Exec S B
  ◌>>◌ m n s = let (r, s') = m s in continue r (λ _. n) s'

module _ {ℓ} {S A : Type ℓ} where
  abbrev pub pure : A → Exec S A
  pure a s = (returned a, s)

  abbrev pub raise : Exec S A
  raise s = (raised, s)

-- One request: its answer depends on the history, and it is added to the history.
abbrev pub answer {ℓ} : {A : Type ℓ} → Option A → Outcome A
answer none = raised
answer (some a) = returned a

abbrev pub send {ℓ} :
    {A : Type ℓ} → Call → (List Call → Option A) → List Call → Outcome A × List Call
send c respond log = (answer (respond log), c ∷ log)
