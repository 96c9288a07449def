-- ===== src/RecSync/Scraper.antt =====
-- `is_streamable_on_subscription` of docker/annict-rec-sync/sync.py.
pub mod Retries
pub mod Services
use my_infra.Prelude.{
  ℕ, zero, suc, ◌+◌, Bool, true, false, not, ◌||◌, Option, none, some, List, [], ◌∷◌, map,
  if◌then◌else◌,
}
use my_infra.RecSync.Text.{Text, Unicode, normalize, is_substring}
use my_infra.RecSync.Http.{Service, Net, Call, get_services, Http}

-- `any(sub in name_norm for sub in subscribed_norm)`
any_substring : List Text → Text → Bool
any_substring [] name = false
any_substring (sub ∷ subs) name = is_substring sub name || any_substring subs name

-- `svc.get("name", "")`
abbrev pub name_or_empty : Option Text → Text
name_or_empty none = []
name_or_empty (some name) = name

-- The loop over the services.
unfoldable pub streams : Unicode → List Text → List Service → Bool
unfolding any_substring
streams u subscribed_norm [] = false
streams u subscribed_norm (svc ∷ services) =
    let rest = streams u subscribed_norm services in
    if not svc.available
    then rest
    else if any_substring subscribed_norm (normalize u (name_or_empty svc.name))
    then true
    else rest

-- `services or []`
abbrev pub services_or_empty : Option (List Service) → List Service
services_or_empty none = []
services_or_empty (some services) = services

module _ (net : Net) (annict_id : ℕ) where
  -- The loop over the attempts, `retries` of them left. `none` is the early `return None`, and with
  -- no attempt left at the start `services` stays `None`.
  unfoldable pub request_services : ℕ → List Call → Option (Option (List Service)) × List Call
  request_services zero log = (some none, log)
  request_services (suc retries) log =
      let rest = request_services retries (get_services annict_id ∷ log) in
      elim (net.get_services log annict_id) [
        | some services ↦ (some services, get_services annict_id ∷ log)
        | none ↦ elim retries [ zero ↦ (none, get_services annict_id ∷ log) | suc _ ↦ rest ]
      ]

-- `none` is the program's `None`: it cannot tell.
abbrev judge : Unicode → List Text → Option (Option (List Service)) → Option Bool
judge u subscribed_services none = none
judge u subscribed_services (some services) =
    some (streams u (map (normalize u) subscribed_services) (services_or_empty services))

unfoldable pub is_streamable_on_subscription :
    Unicode → List Text → ℕ → Net → ℕ → List Call → Option Bool × List Call
unfolding request_services streams
is_streamable_on_subscription u subscribed_services retries net annict_id log =
    let (services, log') = request_services net annict_id retries log in
    (judge u subscribed_services services, log')
