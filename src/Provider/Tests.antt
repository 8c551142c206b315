-- ===== src/Provider/Tests.antt =====
-- A chain whose first backend raises.
use secure_orchestration_mes.Prelude.{◌≡◌, refl, false, none, some, [], ◌∷◌}
use secure_orchestration_mes.Dict.{get}
use secure_orchestration_mes.Provider.{
  LlmResponse, Request, LlmProvider, generated, generate, try_fallbacks, attempt, add_error,
}
use secure_orchestration_mes.Provider.Order.{order, first_answer, raising, conclude, generate_lem}

abbrev response : LlmResponse
response = record { text = "ok"; model = "m"; provider = "ollama"; tokens_used = 1 }

abbrev request : Request
request = record {
  prompt = "p";
  system_prompt = "";
  max_tokens = 1024;
  temperature = 30;
  json_mode = false;
}

abbrev provider : LlmProvider
provider = record {
  provider_name = "gpt4o";
  backends = ("gpt4o", λ r. none) ∷ ("ollama", λ r. some response) ∷ [];
}

fallen_back : generate provider request ≡ generated response
unfolding generate try_fallbacks attempt add_error get
fallen_back = refl

generate_lem_example :
    generate provider request
    ≡ conclude
        (first_answer provider request (order provider))
        (raising provider request (order provider))
generate_lem_example = generate_lem provider request
