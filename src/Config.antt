-- ===== src/Config.antt =====
-- orchestrator/config.py: the variables of the environment that override the settings of a file.
mod Paths
mod Names
pub mod Schema
mod Sections
mod Load
mod Precedence
mod Defaults
mod Tests
use Prim.Native.Char.{Char, code}
use secure_orchestration_mes.Prelude.{
  ℕ, ◌==◌, String, str_eq, if◌then◌else◌, Bool, true, false, ◌&&◌, ◌||◌, Option, none, some, List,
  [], ◌∷◌, ◌>>=◌,
}
use secure_orchestration_mes.Json.{
  Json, boolean, text, object, Members, empty, get_member, put_member, or_else,
}

-- Python's tables of characters and its numerals: `str.lower`, `str.isdigit` of one character, and
-- `int` and `float` of a text, which may raise an exception.
pub record Texts : Type 0 where
  pub lower : String → String
  pub is_digit : Char → Bool
  pub int_of : String → Option Json
  pub float_of : String → Option Json

abbrev pub same_char : Char → Char → Bool
same_char c d = code c == code d

-- What follows `prefix` in `s`, if `s` starts with it.
unfoldable pub after_prefix : String → String → Option String
after_prefix String.[] s = some s
after_prefix (String.◌∷◌ c p) String.[] = none
after_prefix (String.◌∷◌ c p) (String.◌∷◌ d s) = elim (same_char c d) [
  | true ↦ after_prefix p s
  | false ↦ none
]

abbrev pub underscore : Char → Bool
underscore c = code c == 95

abbrev pub push : Char → List String → List String
push c [] = String.◌∷◌ c String.[] ∷ []
push c (part ∷ parts) = String.◌∷◌ c part ∷ parts

-- `s.split("__")`
unfoldable pub split : String → List String
split String.[] = String.[] ∷ []
split (String.◌∷◌ c String.[]) = String.◌∷◌ c String.[] ∷ []
split (String.◌∷◌ c (String.◌∷◌ d s)) = elim (underscore c && underscore d) [
  | true ↦ String.[] ∷ split s
  | false ↦ push c (split (String.◌∷◌ d s))
]

-- `s.replace(".", "", 1)`
unfoldable pub without_dot : String → String
without_dot String.[] = String.[]
without_dot (String.◌∷◌ c s) = elim (code c == 46) [
  | true ↦ s
  | false ↦ String.◌∷◌ c (without_dot s)
]

-- Python's nested dictionaries: `d = d.setdefault(part, {})` along a path and then the assignment.
-- It raises an exception where something else than a dictionary stands on the path. A dictionary
-- that an alias of YAML shares between two places is two dictionaries here.
unfoldable pub set_at : Json → List String → Json → Option Json
set_at v [] w = some w
set_at (object d) (k ∷ ks) w = do
  v ← set_at (or_else (object empty) (get_member d k)) ks w
  some (object (put_member d k v))
set_at v (k ∷ ks) w = none

module _ (texts : Texts) where
  abbrev all_digits : String → Bool
  all_digits String.[] = true
  all_digits (String.◌∷◌ c s) = texts.is_digit c && all_digits s

  -- `str.isdigit`
  unfoldable pub isdigit : String → Bool
  isdigit String.[] = false
  isdigit (String.◌∷◌ c s) = all_digits (String.◌∷◌ c s)

  -- The value of a variable, or an exception.
  unfoldable pub value_of : String → Option Json
  value_of value =
      if str_eq (texts.lower value) "true" || str_eq (texts.lower value) "false"
      then some (boolean (str_eq (texts.lower value) "true"))
      else if isdigit value
      then texts.int_of value
      else if isdigit (without_dot value)
      then texts.float_of value
      else some (text value)

  -- The path that the rest of a name stands for.
  unfoldable pub path_of : String → List String
  path_of name = split (texts.lower name)

  abbrev override_at : Json → Option String → String → Option Json
  override_at raw none value = some raw
  override_at raw (some name) value = do env_val ← value_of value; set_at raw (path_of name) env_val

  -- One round of the loop.
  unfoldable pub override : Json → String × String → Option Json
  override raw (key, value) = override_at raw (after_prefix "SOM__" key) value

  unfoldable pub env_override : Json → List (String × String) → Option Json
  env_override raw [] = some raw
  env_override raw (variable ∷ environ) = do raw' ← override raw variable; env_override raw' environ
