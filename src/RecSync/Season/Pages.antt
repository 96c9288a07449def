-- ===== src/RecSync/Season/Pages.antt =====
-- The paging of `fetch_season_works`: the works of all pages, in order, or a raise.
use mathlib.Core.List.{append-nil, append_assoc}
use my_infra.Prelude.{
  ℕ, zero, suc, ◌≤◌, ◌≡◌, ◌∙◌, ap, sym, Bool, true, false, Option, none, some, List, [], ◌∷◌, ◌++◌,
  arith, length,
}
use my_infra.RecSync.Text.{Text}
use my_infra.RecSync.Http.{Net, Call, search_works, WorksPage, Outcome, returned, raised}
use my_infra.RecSync.Season.{Times, Work, read_works, works_loop, fetch_season_works}

module _ (times : Times) (net : Net) (season : Text) where
  -- Whatever was asked before, the page behind `after` is `page`.
  abbrev pub Serves : Option Text → WorksPage → Type 0
  Serves after page = (log : List Call) → net.search_works log season after ≡ some page

  -- The pages from the cursor `after` to the last one, as the works that they name, and how the
  -- reading ends: the last page is read, or a page cannot be.
  pub data Pages : Option Text → List (List Work) → Bool → Type 0 where
    last :
        {after : Option Text} (page : WorksPage) {works : List Work}
        → Serves after page
        → page.errors ≡ false
        → read_works times page.nodes ≡ some works
        → page.has_next_page ≡ false
        → Pages after (works ∷ []) true
    more :
        {after : Option Text} (page : WorksPage) {works : List Work} {rest : List (List Work)}
        {ok : Bool}
        → Serves after page
        → page.errors ≡ false
        → read_works times page.nodes ≡ some works
        → page.has_next_page ≡ true
        → Pages page.end_cursor rest ok
        → Pages after (works ∷ rest) ok
    refused :
        {after : Option Text}
        → ((log : List Call) → net.search_works log season after ≡ none)
        → Pages after ([] ∷ []) false
    with_errors :
        {after : Option Text} (page : WorksPage)
        → Serves after page
        → page.errors ≡ true
        → Pages after ([] ∷ []) false
    unreadable :
        {after : Option Text} (page : WorksPage)
        → Serves after page
        → page.errors ≡ false
        → read_works times page.nodes ≡ none
        → Pages after ([] ∷ []) false

  abbrev pub all_works : List (List Work) → List Work
  all_works [] = []
  all_works (works ∷ rest) = works ++ all_works rest

  abbrev pub ending : Bool → List Work → Outcome (List Work)
  ending true works = returned works
  ending false works = raised

  Pages-pos :
      {after : Option Text} {pages : List (List Work)} {ok : Bool}
      → Pages after pages ok
      → 1 ≤ length pages
  Pages-pos (last page s e r n) = omega arith
  Pages-pos (more page s e r n p) = omega arith
  Pages-pos (refused r) = omega arith
  Pages-pos (with_errors page s e) = omega arith
  Pages-pos (unreadable page s e u) = omega arith

  works_loop_lem :
      {after : Option Text} {pages : List (List Work)} {ok : Bool}
      → Pages after pages ok
      → (fuel : ℕ) (works : List Work) (log : List Call) → length pages ≤ fuel
      → (works_loop times net season fuel after works log).0 ≡ ending ok (works ++ all_works pages)
  unfolding works_loop
  works_loop_lem p zero works log h = absurd (omega (arith, Pages-pos p))
  works_loop_lem (last page {works = read} serves no_errors reads no_more) (suc fuel) works log h =
      rw (serves log, works_loop)
        (rw no_errors
          (rw reads (rw no_more (ap (λ l. returned (works ++ l)) (sym (append-nil read))))))
  works_loop_lem (more page {works = read} {rest} {ok} serves no_errors reads next p) (suc fuel)
        works log h =
      rw (serves log, works_loop)
        (rw no_errors (
          rw reads (
            rw next (
              works_loop_lem p fuel (works ++ read) (search_works season _ ∷ log) (omega arith)
              ∙ ap (ending ok) (append_assoc works read (all_works rest))))))
  works_loop_lem (refused refuses) (suc fuel) works log h = rw (refuses log, works_loop)
  works_loop_lem (with_errors page serves errors) (suc fuel) works log h =
      rw (serves log, works_loop) (rw errors)
  works_loop_lem (unreadable page serves no_errors unread) (suc fuel) works log h =
      rw (serves log, works_loop) (rw no_errors (rw unread))

-- With a round of fuel for each page, the function returns the works of all pages in their order if
-- every page is served without errors and can be read, and raises if the page it stops at is refused,
-- has errors, or holds a time that cannot be read.
pub fetch_season_works_lem :
    (times : Times) (net : Net) (season : Text) {pages : List (List Work)} {ok : Bool} (fuel : ℕ)
    (log : List Call)
    → Pages times net season none pages ok
    → length pages ≤ fuel
    → (fetch_season_works times net season fuel log).0
      ≡ ending times net season ok (all_works times net season pages)
unfolding fetch_season_works
fetch_season_works_lem times net season fuel log p h =
    works_loop_lem times net season p fuel [] log h
