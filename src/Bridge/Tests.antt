-- ===== src/Bridge/Tests.antt =====
-- A model that wraps its JSON in a fence, and one whose task is out of the schema.
use secure_orchestration_mes.Prelude.{
  ◌≡◌, ◌≢◌, refl, ◌↔◌, none, some, [], ◌∷◌, All, arith, ◌==◌, if◌then◌else◌, Option,
}
use secure_orchestration_mes.Prelude.Int.{pos}
use secure_orchestration_mes.Text.{
  Text, chars, unfence, strip, strip_left, strip_right, is_space, starts_with, split_lines,
  join_lines, drop_open, drop_close, newline,
}
use secure_orchestration_mes.Json.{
  Json, text, integer, object, member, empty, get_member, int_of, list_of, array, item, nil,
}
use secure_orchestration_mes.Provider.{LlmProvider, LlmResponse, generate, attempt}
use secure_orchestration_mes.Dict.{get}
use secure_orchestration_mes.Bridge.{
  Environment, TranslatedTask, translate, translated, extract_json, from_dict, numbers_of, validate,
  allowed, request, translate_batch,
}
use secure_orchestration_mes.Bridge.Valid.{
  translate_iff, translate_batch-IsValid, IsTranslation, IsValid,
}

-- The one text that the parser knows, and its value.
abbrev body : Text
body = chars "{\"task_type\": \"web_search\", \"priority\": 2, \"permissions_required\": [\"net\"]}"

abbrev data' : Json
data' = object (
    member "task_type" (text "web_search") (
      member "priority" (integer (pos 2))
        (member "permissions_required" (array (item (text "net") nil)) empty)))

abbrev same : Text → Text → Option Json
same [] [] = some data'
same (c ∷ s) (d ∷ t) = if c == d then same s t else none
same _ _ = none

abbrev env : Environment
env = record {
  json_loads = λ s. same s body;
  conversions = record {
    int_of_text = λ s. none;
    float_of_text = λ s. none;
    float_of_int = λ z. none;
  };
  translator_system_prompt = "USER TASK: ";
  uuid = "u";
}

abbrev response : LlmResponse
response = record {
  text =
      "```json\n{\"task_type\": \"web_search\", \"priority\": 2, \"permissions_required\": [\"net\"]}\n```\n";
  model = "phi3:mini";
  provider = "ollama";
  tokens_used = 20;
}

abbrev llm : LlmProvider
llm = record { provider_name = "ollama"; backends = ("ollama", λ r. some response) ∷ [] }

abbrev task : TranslatedTask
task = record {
  task_id = text "u";
  task_type = text "web_search";
  description = text "";
  payload = text "";
  priority = pos 2;
  max_results = pos 10;
  deadline_seconds = pos 0;
  permissions_required = item (text "net") nil;
}

finds_task : translate env llm "find it" ≡ translated task
unfolding translate request generate attempt get extract_json unfence strip strip_left strip_right
    is_space starts_with split_lines join_lines drop_open drop_close from_dict numbers_of list_of
    int_of get_member validate allowed
finds_task = refl

translate_iff_example :
    (translate env llm "find it" ≡ translated task)
    ↔ IsTranslation env (generate llm (request env "find it")) task
translate_iff_example = translate_iff env llm "find it" task

translate_batch-IsValid_example : All IsValid (translate_batch env llm ("a" ∷ "b" ∷ []))
translate_batch-IsValid_example = translate_batch-IsValid env llm ("a" ∷ "b" ∷ [])

abbrev info : Text
info = 106 ∷ []

no_newline : All (λ c. c ≢ newline) info
no_newline = (λ e. omega (arith, e), tt)
