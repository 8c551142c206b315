-- ===== src/Bridge.antt =====
-- translator/slm_bridge.py: a description of a task, in a person's words, becomes a task by the
-- JSON that a language model answers.
mod Answers
mod Valid
mod Tests
use Prim.Native.String.{◌++◌ as ◌+++◌}
use secure_orchestration_mes.Prelude.{
  ℕ, String, leb, ltb, if◌then◌else◌, Bool, true, false, not, ◌&&◌, Option, none, some, List, [],
  ◌∷◌, contains, ◌>>=◌, map,
}
use secure_orchestration_mes.Prelude.Int.{ℤ, pos, ltb_ℤ}
use secure_orchestration_mes.Text.{Text, chars, strip, ticks, unfence, starts_with}
use secure_orchestration_mes.Json.{
  Json, null, boolean, integer, floating, text, array, object, Items, nil, item, Members, empty,
  member, get_member, get_or, Conversions, int_of, list_of,
}
use secure_orchestration_mes.Provider.{
  LlmProvider, LlmResponse, Request, Generated, generated, all_failed, generate,
}

-- What `from_dict` does not convert may be any JSON value.
pub record TranslatedTask : Type 0 where
  pub task_id : Json
  pub task_type : Json
  pub description : Json
  pub payload : Json
  pub priority : ℤ
  pub max_results : ℤ
  pub deadline_seconds : ℤ
  pub permissions_required : Items

abbrev pub allowed_task_types : List String
allowed_task_types =
    "web_search" ∷ "file_read" ∷ "file_write" ∷ "code_execution" ∷ "api_call" ∷ "data_analysis" ∷ []

-- The JSON parser, Python's conversions, the system prompt, and the UUID of a task without id.
pub record Environment : Type 0 where
  pub json_loads : Text → Option Json
  pub conversions : Conversions
  pub translator_system_prompt : String
  pub uuid : String

-- How a translation ends: RuntimeError when no model answers, ValueError for an answer that is not
-- JSON, an exception for fields that are missing or of a wrong type, ValueError for a task out of
-- the schema, and a task.
pub data Translation : Type 0 where
  llm_failed : Translation
  bad_json : Translation
  bad_fields : Translation
  invalid : Translation
  translated : TranslatedTask → Translation

-- `_extract_json`
abbrev pub closes : Text → Bool
closes line = starts_with (strip line) ticks && starts_with ticks (strip line)

module _ (env : Environment) where
  unfoldable pub extract_json : Text → Option Json
  unfolding unfence
  extract_json answer = env.json_loads (unfence closes answer)

  -- The numbers and the list of `from_dict`, or an exception.
  unfoldable pub numbers_of : Members → Option (ℤ × ℤ × ℤ × Items)
  numbers_of data' = do
    priority ← int_of env.conversions (get_or data' "priority" (integer (pos 5)))
    max_results ← int_of env.conversions (get_or data' "max_results" (integer (pos 10)))
    deadline ← int_of env.conversions (get_or data' "deadline_seconds" (integer (pos 0)))
    permissions ← list_of (get_or data' "permissions_required" (array nil))
    some (priority, max_results, deadline, permissions)

  unfoldable pub from_dict : Json → Option TranslatedTask
  from_dict (object data') = do
    task_type ← get_member data' "task_type"
    (priority, max_results, deadline, permissions) ← numbers_of data'
    some (record {
      task_id = get_or data' "task_id" (text env.uuid);
      task_type = task_type;
      description = get_or data' "description" (text "");
      payload = get_or data' "payload" (text "");
      priority = priority;
      max_results = max_results;
      deadline_seconds = deadline;
      permissions_required = permissions;
    })
  from_dict _ = none

-- `_validate`; a task type that is no text is not in the set, or raises a TypeError.
unfoldable pub allowed : Json → Bool
allowed (text k) = contains k allowed_task_types
allowed _ = false

unfoldable pub validate : TranslatedTask → Bool
validate task =
    allowed task.task_type
    && not (ltb_ℤ task.priority (pos 1))
    && not (ltb_ℤ (pos 10) task.priority)
    && not (ltb_ℤ task.max_results (pos 0))
    && not (ltb_ℤ task.deadline_seconds (pos 0))

abbrev pub checked : Option TranslatedTask → Translation
checked none = bad_fields
checked (some task) = if validate task then translated task else invalid

module _ (env : Environment) where
  abbrev pub read : Option Json → Translation
  read none = bad_json
  read (some data') = checked (from_dict env data')

  abbrev pub answer_of : Generated → Translation
  answer_of (all_failed names) = llm_failed
  answer_of (generated response) = read (extract_json env (chars response.text))

  unfoldable pub request : String → Request
  request human_task = record {
    prompt = env.translator_system_prompt +++ human_task;
    system_prompt = "";
    max_tokens = 512;
    temperature = 10;
    json_mode = false;
  }

  unfoldable pub translate : LlmProvider → String → Translation
  translate llm human_task = answer_of (generate llm (request human_task))

-- `translate_batch` keeps the tasks and drops the exceptions.
unfoldable pub kept : List Translation → List TranslatedTask
kept [] = []
kept (translated task ∷ results) = task ∷ kept results
kept (_ ∷ results) = kept results

unfoldable pub translate_batch : Environment → LlmProvider → List String → List TranslatedTask
translate_batch env llm tasks = kept (map (translate env llm) tasks)
