-- ===== src/RecSync/Scraper/Services.antt =====
-- Which lists of services count as streaming on a subscription.
use my_infra.Prelude.{◌≡◌, ◌↔◌, inl, inr, true, List, [], ◌∷◌, arith, Any, Bool-cases}
use my_infra.RecSync.Text.{Text, Unicode, normalize, is_substring}
use my_infra.RecSync.Title.Infix.{IsInfix, is_substring_iff}
use my_infra.RecSync.Http.{Service}
use my_infra.RecSync.Scraper.{any_substring, name_or_empty, streams}

any_substring_iff :
    (subs : List Text) (name : Text)
    → (any_substring subs name ≡ true) ↔ Any (λ sub. IsInfix sub name) subs
unfolding any_substring
any_substring_iff [] name = (λ h. cc, λ h. absurd h)
any_substring_iff (sub ∷ subs) name =
    let (there, back) = any_substring_iff subs name in
    let (inside, outside) = is_substring_iff sub name in
    (
      λ h. elim (Bool-cases (is_substring sub name)) [
        | inl e ↦ inl (inside e)
        | inr e ↦ inr (there (ground arith))
      ],
      λ h. elim h [ inl i ↦ ground (arith, outside i) | inr r ↦ ground (arith, back r) ],
    )

-- The service is available, and its normalized name contains the name of a subscription.
pub record Covers (u : Unicode) (subscribed_norm : List Text) (svc : Service) : Type 0 where
  pub available : svc.available ≡ true
  pub named : Any (λ sub. IsInfix sub (normalize u (name_or_empty svc.name))) subscribed_norm

-- A list of services counts as streaming exactly if one of them is available under a name that,
-- normalized, contains the given name of a subscription.
pub streams_iff :
    (u : Unicode) (subscribed_norm : List Text) (services : List Service)
    → (streams u subscribed_norm services ≡ true) ↔ Any (Covers u subscribed_norm) services
unfolding streams
streams_iff u subs [] = (λ h. cc, λ h. absurd h)
streams_iff u subs (svc ∷ services) =
    let name = normalize u (name_or_empty svc.name) in
    let (there, back) = streams_iff u subs services in
    let (inside, outside) = any_substring_iff subs name in
    (
      λ h. elim (Bool-cases (svc.available)) [
        | inr e ↦ inr (there (ground (arith, e)))
        | inl e ↦ elim (Bool-cases (any_substring subs name)) [
          | inl f ↦ inl (record { available = e; named = inside f })
          | inr f ↦ inr (there (ground (arith, e, f)))
        ]
      ],
      λ h. elim h [
        | inl c ↦ ground (arith, c.available, outside c.named)
        | inr r ↦ ground (arith, back r)
      ],
    )
