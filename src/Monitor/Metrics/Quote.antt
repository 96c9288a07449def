-- ===== src/Monitor/Metrics/Quote.antt =====
-- What `quote` of docker/home-service-monitor/monitor.py writes can be read back.
use my_infra.Prelude.{
  ℕ, ◌≡◌, refl, sym, false, Option, none, some, [], ◌∷◌, ◌++◌, arith, ◌==◌, nat_eq, All,
  if◌then◌else◌, Bool-cases, inl, inr, All-append,
}
use mathlib.Core.List.{append_assoc}
use my_infra.Monitor.Metrics.{Text, replace, quote}

-- What one code point becomes.
abbrev escape : ℕ → Text
escape c =
    if c == b'\\'
    then b'\\' ∷ b'\\' ∷ []
    else if c == b'\n'
    then b'\\' ∷ b'n' ∷ []
    else if c == b'"'
    then b'\\' ∷ b'"' ∷ []
    else c ∷ []

escape_all : Text → Text
escape_all [] = []
escape_all (c ∷ s) = escape c ++ escape_all s

replace-append : (c : ℕ) (r s t : Text) → replace c r (s ++ t) ≡ replace c r s ++ replace c r t
unfolding replace
replace-append c r [] t = refl
replace-append c r (x ∷ s) t = elim (Bool-cases (x == c)) [
  | inl e ↦
      rw (replace, e, replace-append c r s t) (sym (append_assoc r (replace c r s) (replace c r t)))
  | inr e ↦ rw (replace, e, replace-append c r s t) refl
]

three : Text → Text
three v =
    replace b'"' (b'\\' ∷ b'"' ∷ [])
      (replace b'\n' (b'\\' ∷ b'n' ∷ []) (replace b'\\' (b'\\' ∷ b'\\' ∷ []) v))

three-step : (c : ℕ) (s : Text) → three (c ∷ s) ≡ escape c ++ three s
unfolding three replace
three-step c s = ground arith

three-escape_all : (v : Text) → three v ≡ escape_all v
unfolding three escape_all replace
three-escape_all [] = refl
three-escape_all (c ∷ v) = rw (three-step c v, three-escape_all v) refl

-- A reader of quoted texts, as the exposition format describes them: the text up to the closing
-- quote, and what is behind it.
pub unquote_rest : Text → Option (Text × Text)
unquote_rest [] = none
unquote_rest (c ∷ []) = if c == b'"' then some ([], []) else none
unquote_rest (c ∷ d ∷ s) =
    let escaped = unquote_rest s in
    let plain = unquote_rest (d ∷ s) in
    if c == b'"'
    then some ([], d ∷ s)
    else if c == b'\\'
    then elim escaped [
      | none ↦ none
      | some (v, rest) ↦ some ((if d == b'n' then b'\n' else d) ∷ v, rest)
    ]
    else elim plain [ none ↦ none | some (v, rest) ↦ some (c ∷ v, rest) ]

pub unquote : Text → Option (Text × Text)
unquote [] = none
unquote (c ∷ s) = if c == b'"' then unquote_rest s else none

abbrev put : ℕ → Option (Text × Text) → Option (Text × Text)
put c none = none
put c (some (v, rest)) = some (c ∷ v, rest)

unquote_rest_plain :
    (c : ℕ) (s : Text)
    → (c == b'"') ≡ false
    → (c == b'\\') ≡ false
    → unquote_rest (c ∷ s) ≡ put c (unquote_rest s)
unfolding unquote_rest
unquote_rest_plain c [] p q = rw (p, unquote_rest) refl
unquote_rest_plain c (d ∷ s) p q = rw (p, q, unquote_rest) refl

unquote_rest-escape_all :
    (v rest : Text) → unquote_rest (escape_all v ++ (b'"' ∷ rest)) ≡ some (v, rest)
unfolding unquote_rest escape_all
unquote_rest-escape_all [] [] = refl
unquote_rest-escape_all [] (r ∷ rest) = refl
unquote_rest-escape_all (c ∷ v) rest =
    let ih = unquote_rest-escape_all v rest in
    elim (Bool-cases (c == b'\\')) [
      | inl e ↦ rw (e, unquote_rest, ih) (ground (arith, e))
      | inr e ↦ elim (Bool-cases (c == b'\n')) [
        | inl n ↦ rw (e, n, unquote_rest, ih) (ground (arith, n))
        | inr n ↦ elim (Bool-cases (c == b'"')) [
          | inl q ↦ rw (e, n, q, unquote_rest, ih) (ground (arith, q))
          | inr q ↦ rw (e, n, q, unquote_rest_plain c (escape_all v ++ (b'"' ∷ rest)) q e, ih) refl
        ]
      ]
    ]

-- A text that is quoted is read back, whatever stands behind it.
pub unquote-quote : (v rest : Text) → unquote (quote v ++ rest) ≡ some (v, rest)
unfolding unquote quote three
unquote-quote v rest =
    rw (append_assoc (three v) (b'"' ∷ []) rest, three-escape_all v)
      (unquote_rest-escape_all v rest)

abbrev pub InLine : ℕ → Type 0
InLine c = (c == b'\n') ≡ false

escape_one_line : (c : ℕ) → All InLine (escape c)
escape_one_line c = ground arith

escape_all_one_line : (v : Text) → All InLine (escape_all v)
unfolding escape_all
escape_all_one_line [] = tt
escape_all_one_line (c ∷ v) =
    All-append InLine (escape c) (escape_all v) (escape_one_line c) (escape_all_one_line v)

-- No line ends within a quoted text.
pub quote_one_line : (v : Text) → All InLine (quote v)
unfolding quote three
quote_one_line v = (
  refl,
  rw (three-escape_all v)
      (All-append InLine (escape_all v) (b'"' ∷ []) (escape_all_one_line v) (refl, tt)),
)
