-- ===== src/Monitor/Pages/Honest.antt =====
-- `pages` of docker/home-service-monitor/monitor.py against a server that has a fixed collection.
use my_infra.Prelude.{
  ℕ, zero, suc, ◌+◌, ◌*◌, ◌<◌, ◌≤◌, ◌≡◌, refl, true, false, some, List, [], ◌∷◌, ◌++◌, arith, leb,
  length, take, drop, if◌then◌else◌, Bool-cases, inl, inr,
}
use my_infra.Prelude.Action.{Result, ok, err}
use my_infra.Monitor.Metrics.{Error, value_error}
use my_infra.Monitor.Scan.{Scan, Act}
use my_infra.Monitor.Pages.{Page, is_empty, pages_loop, pages}

leb-true : (a b : ℕ) → a ≤ b → leb a b ≡ true
leb-true a b h = ground (arith, h)

leb-false : (a b : ℕ) → b < a → leb a b ≡ false
leb-false a b h = ground (arith, h)

module _ {A : Type 0} where
  -- The server answers each request with the hundred items from the offset on.
  abbrev pub Serves : (ℕ → Act (Page A)) → List A → Type 0
  Serves fetch xs =
      (offset : ℕ) (s : Scan)
      → (fetch offset s).0
        ≡ ok record { items = some (take 100 (drop offset xs)); total = length xs }

  take_none : (m n : ℕ) → take {A = A} m [] ≡ take n []
  take_none zero zero = refl
  take_none zero (suc n) = refl
  take_none (suc m) zero = refl
  take_none (suc m) (suc n) = refl

  take-add : (n m : ℕ) (xs : List A) → take n xs ++ take m (drop n xs) ≡ take (n + m) xs
  take-add zero m xs = let e : 0 + m ≡ m = omega arith in rw e refl
  take-add (suc n) m [] = take_none m (suc n + m)
  take-add (suc n) m (x ∷ xs) =
      let e : suc n + m ≡ suc (n + m) = omega arith in rw (e, take-add n m xs) refl

  length-take : (n : ℕ) (xs : List A) → n ≤ length xs → length (take n xs) ≡ n
  length-take zero xs h = refl
  length-take (suc n) [] h = absurd (omega (arith, h))
  length-take (suc n) (x ∷ xs) h = omega (arith, length-take n xs (omega (arith, h)))

  take_all : (n : ℕ) (xs : List A) → length xs ≤ n → take n xs ≡ xs
  take_all zero [] h = refl
  take_all zero (x ∷ xs) h = absurd (omega (arith, h))
  take_all (suc n) [] h = refl
  take_all (suc n) (x ∷ xs) h = rw (take_all n xs (omega (arith, h))) refl

  some_left : (n : ℕ) (xs : List A) → n < length xs → is_empty (take 100 (drop n xs)) ≡ false
  some_left zero [] h = absurd (omega (arith, h))
  some_left zero (x ∷ xs) h = refl
  some_left (suc n) [] h = absurd (omega (arith, h))
  some_left (suc n) (x ∷ xs) h = some_left n xs (omega (arith, h))

  module _ (fetch : ℕ → Act (Page A)) (xs : List A) (serves : Serves fetch xs) where
    abbrev Within : ℕ → Result Error (List A)
    Within limit = if leb (length xs) limit then ok xs else err value_error

    last_page :
        (n offset : ℕ) (s : Scan)
        → length xs ≤ offset + 100
        → (pages_loop fetch (suc n) offset (take offset xs) s).0 ≡ ok xs
    unfolding pages_loop
    last_page n offset s h =
        rw
          (
            serves offset s,
            pages_loop,
            take-add offset 100 xs,
            take_all (offset + 100) xs h,
            leb-true (length xs) (length xs) (omega arith),
          )
          refl

    next_page :
        (n offset : ℕ) (s : Scan)
        → offset + 100 < length xs
        → (pages_loop fetch (suc n) offset (take offset xs) s).0
          ≡ (pages_loop fetch n (offset + 100) (take (offset + 100) xs) (fetch offset s).1).0
    unfolding pages_loop
    next_page n offset s h =
        rw
          (
            serves offset s,
            pages_loop,
            take-add offset 100 xs,
            length-take (offset + 100) xs (omega (arith, h)),
            leb-false (length xs) (offset + 100) h,
            some_left offset xs (omega (arith, h)),
          )
          refl

    no_rounds :
        (offset : ℕ) (s : Scan)
        → (pages_loop fetch zero offset (take offset xs) s).0 ≡ err value_error
    unfolding pages_loop
    no_rounds offset s = refl

    loop_lem :
        (n offset : ℕ) (s : Scan)
        → offset < length xs
        → (pages_loop fetch n offset (take offset xs) s).0 ≡ Within (offset + n * 100)
    loop_lem zero offset s h =
        rw (no_rounds offset s, leb-false (length xs) (offset + 0 * 100) (omega (arith, h))) refl
    loop_lem (suc n) offset s h = elim (Bool-cases (leb (length xs) (offset + 100))) [
      | inl e ↦
          rw
            (
              last_page n offset s (ground (arith, e)),
              leb-true (length xs) (offset + suc n * 100) (ground (arith, e)),
            )
            refl
      | inr e ↦
          let more : offset + suc n * 100 ≡ offset + 100 + n * 100 = omega arith in
          rw (next_page n offset s (ground (arith, e)), more)
            (loop_lem n (offset + 100) (fetch offset s).1 (ground (arith, e)))
    ]

    first_page : (n : ℕ) (s : Scan) → length xs ≤ 100 → (pages_loop fetch (suc n) 0 [] s).0 ≡ ok xs
    first_page n s h = last_page n 0 s h

-- Against a server that has a fixed collection and answers each request with the hundred items from
-- the offset on, the pages together are the whole collection, in its order, if it has at most a
-- hundred thousand items; if it has more, the poll fails.
pub pages-Serves :
    {A : Type 0} (fetch : ℕ → Act (Page A)) (xs : List A)
    → Serves fetch xs
    → (s : Scan) → (pages fetch s).0 ≡ (if leb (length xs) 100_000 then ok xs else err value_error)
unfolding pages
pages-Serves fetch [] serves s = first_page fetch [] serves 999 s (omega arith)
pages-Serves fetch (x ∷ xs) serves s = loop_lem fetch (x ∷ xs) serves 1000 0 s (omega arith)
