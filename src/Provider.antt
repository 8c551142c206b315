-- ===== src/Provider.antt =====
-- llm/backend.py: the chain of language models, of which the first that answers is used.
mod Order
mod Tests
use secure_orchestration_mes.Prelude.{
  ℕ, String, str_eq, if◌then◌else◌, Bool, Option, none, some, List, [], ◌∷◌,
}
use secure_orchestration_mes.Dict.{Dict}
use secure_orchestration_mes.Dict

pub record LlmResponse : Type 0 where
  pub text : String
  pub model : String
  pub provider : String
  pub tokens_used : ℕ

-- The arguments of `generate`; the temperature in hundredths.
pub record Request : Type 0 where
  pub prompt : String
  pub system_prompt : String
  pub max_tokens : ℕ
  pub temperature : ℕ
  pub json_mode : Bool

-- A backend answers or raises an exception.
abbrev pub Backend : Type 0
Backend = Request → Option LlmResponse

pub record LlmProvider : Type 0 where
  pub provider_name : String
  pub backends : Dict Backend

-- `__init__`
unfoldable pub with_provider : String → LlmProvider
with_provider provider = record { provider_name = provider; backends = [] }

abbrev pub fallback_chain : List String
fallback_chain = "claude" ∷ "gpt4o" ∷ "ollama" ∷ []

unfoldable pub add_backend : LlmProvider → String → Backend → LlmProvider
add_backend self name backend = record self { backends = Dict.put self.backends name backend }

-- `get`, where the empty name stands for the provider's.
unfoldable pub get_backend : LlmProvider → String → Option Backend
get_backend self name =
    if str_eq name ""
    then Dict.get self.backends self.provider_name
    else Dict.get self.backends name

-- The answer of a backend, if there is one of the name and it does not raise.
pub data Attempt : Type 0 where
  absent : Attempt
  raised : Attempt
  answered : LlmResponse → Attempt

abbrev pub outcome_of : Option LlmResponse → Attempt
outcome_of none = raised
outcome_of (some response) = answered response

unfoldable pub attempt : LlmProvider → Request → String → Attempt
attempt self request name = elim (Dict.get self.backends name) [
  | none ↦ absent
  | some backend ↦ outcome_of (backend request)
]

-- The response, or the RuntimeError with the names of the backends that raised.
pub data Generated : Type 0 where
  generated : LlmResponse → Generated
  all_failed : List String → Generated

-- `errors.append(…)`, in front of those that follow.
unfoldable pub add_error : String → Generated → Generated
add_error name (generated response) = generated response
add_error name (all_failed names) = all_failed (name ∷ names)

abbrev pub after_attempt : String → Attempt → Generated → Generated
after_attempt name absent rest = rest
after_attempt name raised rest = add_error name rest
after_attempt name (answered response) rest = generated response

unfoldable pub try_fallbacks : LlmProvider → Request → List String → Generated
try_fallbacks self request [] = all_failed []
try_fallbacks self request (name ∷ chain) =
    let rest = try_fallbacks self request chain in
    if str_eq name self.provider_name
    then rest
    else after_attempt name (attempt self request name) rest

unfoldable pub generate : LlmProvider → Request → Generated
unfolding attempt
generate self request =
    after_attempt self.provider_name (attempt self request self.provider_name)
      (try_fallbacks self request fallback_chain)
