-- ===== src/Monitor/Metrics.antt =====
-- `Metrics` of docker/home-service-monitor/monitor.py. Python's floats are exact numbers here.
pub mod Quote
pub mod Lines
use Prim.Native.Char.{code}
use Prim.Native.String
use my_infra.Prelude.{
  ℕ, ◌*◌, Bool, true, false, List, [], ◌∷◌, ◌++◌, String, ◌==◌, nat_eq, if◌then◌else◌,
}
use my_infra.Prelude.Dict.{Dict, union}
use my_infra.Prelude.Sorted.{sort_pairs}
use my_infra.Prelude.Action.{Result, ok, err}

-- A text that is written, as its code points.
abbrev pub Text : Type 0
Text = List ℕ

abbrev pub text : String → Text
text String.[] = []
text (String.◌∷◌ c s) = code c ∷ text s

-- A number: a whole one, millionths, or a quotient; or what is not finite.
pub data Value : Type 0 where
  whole : ℕ → Value
  micro : ℕ → Value
  ratio : ℕ → ℕ → Value
  non_finite : Value

abbrev pub flag : Bool → Value
flag true = whole 1
flag false = whole 0

pub data Error : Type 0 where
  value_error : Error
  http_status : ℕ → Error
  timeout_error : Error
  connection_error : Error
  http_exception : Error
  other_error : Error
  -- Not the program's: the fuel of a loop is used up.
  out_of_fuel : Error

pub record Sample : Type 0 where
  pub name : String
  pub value : Value
  pub labels : Dict String

pub record Metrics : Type 0 where
  pub labels : Dict String
  pub samples : List Sample

-- `Metrics(target)`
abbrev pub new_metrics : String → String → Metrics
new_metrics name kind = record { labels = ("target", name) ∷ ("kind", kind) ∷ []; samples = [] }

abbrev pub is_finite : Value → Bool
is_finite (whole n) = true
is_finite (micro n) = true
is_finite (ratio a b) = true
is_finite non_finite = false

-- The samples are in the order in which they were added.
unfoldable pub add_sample :
    String → Value → Dict String → Metrics → Result Error (Unit {0}) × Metrics
unfolding union
add_sample name value labels m =
    if is_finite value
    then (
      ok tt,
      record m {
        samples =
            m.samples
            ++ (record { name = name; value = value; labels = union m.labels labels } ∷ []);
      },
    )
    else (err value_error, m)

-- `s.replace(c, r)` for one code point `c`
unfoldable pub replace : ℕ → Text → Text → Text
replace c r [] = []
replace c r (x ∷ s) = let rest = replace c r s in if x == c then r ++ rest else x ∷ rest

unfoldable pub quote : Text → Text
unfolding replace
quote v =
    b'"'
    ∷ (replace b'"' (b'\\' ∷ b'"' ∷ [])
          (replace b'\n' (b'\\' ∷ b'n' ∷ []) (replace b'\\' (b'\\' ∷ b'\\' ∷ []) v))
        ++ (b'"' ∷ []))

unfoldable pub join_labels : List (String × String) → Text
unfolding quote
join_labels [] = []
join_labels ((k, v) ∷ []) = text k ++ (b'=' ∷ quote (text v))
join_labels ((k, v) ∷ l ∷ ls) = text k ++ (b'=' ∷ (quote (text v) ++ (b',' ∷ join_labels (l ∷ ls))))

-- `str` of a float is Python's.
module _ (show : Value → Text) where
  unfoldable pub render_sample : Sample → Text
  unfolding join_labels sort_pairs
  render_sample s =
      text s.name
      ++ (b'{'
          ∷ (join_labels (sort_pairs s.labels) ++ (b'}' ∷ b' ' ∷ (show s.value ++ (b'\n' ∷ [])))))

  unfoldable pub render_all : List Sample → Text
  unfolding render_sample
  render_all [] = []
  render_all (s ∷ samples) = render_sample s ++ render_all samples

  unfoldable pub render : Metrics → Text
  unfolding render_all
  render m = render_all m.samples
