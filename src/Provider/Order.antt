-- ===== src/Provider/Order.antt =====
-- The order in which the backends are asked.
use secure_orchestration_mes.Prelude.{
  String, str_eq, if◌then◌else◌, Bool-cases, inl, inr, ◌≡◌, refl, ap, ◌∙◌, Option, none, some, List,
  [], ◌∷◌,
}
use secure_orchestration_mes.Provider.{
  LlmResponse, Request, LlmProvider, fallback_chain, Attempt, absent, raised, answered, attempt,
  Generated, generated, all_failed, add_error, after_attempt, try_fallbacks, generate,
}

-- The provider first, then the chain without the provider.
abbrev without : String → List String → List String
without k [] = []
without k (name ∷ names) = if str_eq name k then without k names else name ∷ without k names

abbrev pub order : LlmProvider → List String
order self = self.provider_name ∷ without self.provider_name fallback_chain

abbrev response_or : Attempt → Option LlmResponse → Option LlmResponse
response_or absent rest = rest
response_or raised rest = rest
response_or (answered response) rest = some response

abbrev error_or : String → Attempt → List String → List String
error_or name absent rest = rest
error_or name raised rest = name ∷ rest
error_or name (answered response) rest = rest

-- The first answer among the backends of these names, and the names of those that raise.
abbrev pub first_answer : LlmProvider → Request → List String → Option LlmResponse
first_answer self request [] = none
first_answer self request (name ∷ names) =
    response_or (attempt self request name) (first_answer self request names)

abbrev pub raising : LlmProvider → Request → List String → List String
raising self request [] = []
raising self request (name ∷ names) =
    error_or name (attempt self request name) (raising self request names)

abbrev pub conclude : Option LlmResponse → List String → Generated
conclude none names = all_failed names
conclude (some response) names = generated response

after_attempt-conclude :
    (name : String) (a : Attempt) (answer : Option LlmResponse) (names : List String)
    → after_attempt name a (conclude answer names)
      ≡ conclude (response_or a answer) (error_or name a names)
unfolding add_error
after_attempt-conclude name absent answer names = refl
after_attempt-conclude name raised none names = refl
after_attempt-conclude name raised (some response) names = refl
after_attempt-conclude name (answered response) answer names = refl

after_attempt-step :
    (self : LlmProvider) (request : Request) (name : String) (rest : Generated)
    (names : List String)
    → rest ≡ conclude (first_answer self request names) (raising self request names)
    → after_attempt name (attempt self request name) rest
      ≡ conclude (first_answer self request (name ∷ names)) (raising self request (name ∷ names))
after_attempt-step self request name rest names e =
    ap (after_attempt name (attempt self request name)) e
    ∙ after_attempt-conclude name (attempt self request name) (first_answer self request names)
        (raising self request names)

try_fallbacks-conclude :
    (self : LlmProvider) (request : Request) (chain : List String)
    → try_fallbacks self request chain
      ≡ conclude
          (first_answer self request (without self.provider_name chain))
          (raising self request (without self.provider_name chain))
unfolding try_fallbacks
try_fallbacks-conclude self request [] = refl
try_fallbacks-conclude self request (name ∷ chain) =
    elim (Bool-cases (str_eq name self.provider_name)) [
      | inl same ↦ rw same (try_fallbacks-conclude self request chain)
      | inr other ↦ rw other (
          after_attempt-step self request name (try_fallbacks self request chain)
            (without self.provider_name chain) (try_fallbacks-conclude self request chain))
    ]

-- `generate` gives the first answer of the registered backends, asked in the order of the provider
-- and then claude, gpt4o and ollama without the provider; if none answers, it fails with the names
-- of those that raised, in that order.
pub generate_lem :
    (self : LlmProvider) (request : Request)
    → generate self request
      ≡ conclude (first_answer self request (order self)) (raising self request (order self))
unfolding generate
generate_lem self request =
    after_attempt-step self request self.provider_name (try_fallbacks self request fallback_chain)
      (without self.provider_name fallback_chain)
      (try_fallbacks-conclude self request fallback_chain)
