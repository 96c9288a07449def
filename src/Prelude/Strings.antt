-- ===== src/Prelude/Strings.antt =====
-- Python's methods of texts.

use my_infra.Prelude.{Bool, ◌||◌, String, ◌==◌, string_eq, if◌then◌else◌}

-- `s.endswith(w)`
unfoldable pub ends_with : String → String → Bool
ends_with String.[] w = String.[] == w
ends_with (String.◌∷◌ c s) w = let rest = ends_with s w in String.◌∷◌ c s == w || rest

-- `s.removesuffix(w)`
unfoldable pub remove_suffix : String → String → String
remove_suffix String.[] w = String.[]
remove_suffix (String.◌∷◌ c s) w =
    let rest = remove_suffix s w in if String.◌∷◌ c s == w then String.[] else String.◌∷◌ c rest
