-- ===== src/Monitor/Pages.antt =====
-- `pages` of docker/home-service-monitor/monitor.py.
pub mod Honest
use my_infra.Prelude.{
  ℕ, zero, suc, ◌+◌, Bool, true, false, Option, none, some, List, [], ◌∷◌, ◌++◌, String, leb,
  length, if◌then◌else◌,
}
use my_infra.Prelude.Action.{Result, ok, err, then_do, ◌>>=◌, pure, raise}
use my_infra.Monitor.Metrics.{value_error}
use my_infra.Monitor.Scan.{Act}

-- `none` is a collection that is not a list.
pub record Page (A : Type 0) : Type 0 where
  pub items : Option (List A)
  pub total : ℕ

abbrev pub is_empty : {A : Type 0} → List A → Bool
is_empty [] = true
is_empty (x ∷ xs) = false

module _ {A : Type 0} (fetch : ℕ → Act (Page A)) where
  -- The loop over the offsets, with the rounds that are left.
  unfoldable pub pages_loop : ℕ → ℕ → List A → Act (List A)
  pages_loop zero offset result s = (err value_error, s)
  pages_loop (suc n) offset result s = then_do (fetch offset s) (λ page. elim (page.items) [
    | none ↦ raise value_error
    | some items ↦
        let all = result ++ items in
        let rest = pages_loop n (offset + 100) all in
        if leb page.total (length all)
        then pure all
        else if is_empty items
        then raise value_error
        else rest
  ])

  -- `range(0, 100000, 100)` has a thousand offsets.
  unfoldable pub pages : Act (List A)
  unfolding pages_loop
  pages = pages_loop 1000 0 []
