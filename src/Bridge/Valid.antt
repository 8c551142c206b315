-- ===== src/Bridge/Valid.antt =====
-- What the bridge of translator/slm_bridge.py lets pass.
use secure_orchestration_mes.Prelude.{
  ◌≡◌, ◌↔◌, ap, sym, subst, ◌∙◌, refl, String, true, Option, none, some, List, [], ◌∷◌, map, All,
  arith, contains,
}
use mathlib.Core.Option.{some-injective}
use secure_orchestration_mes.Prelude.Int.{pos, ◌≤ℤ◌}
use secure_orchestration_mes.Text.{chars}
use secure_orchestration_mes.Json.{Json, text}
use secure_orchestration_mes.Provider.{
  LlmProvider, LlmResponse, Generated, generated, all_failed, generate,
}
use secure_orchestration_mes.Bridge.{
  TranslatedTask, Environment, Translation, translated, allowed_task_types, extract_json, from_dict,
  allowed, validate, request, translate, kept, translate_batch, read, checked, answer_of,
}

-- What the schema in the system prompt asks of a task, as far as it is checked.
abbrev pub IsValid : TranslatedTask → Type 0
IsValid task =
    ((k : String) × (task.task_type ≡ text k) × (contains k allowed_task_types ≡ true))
    × (pos 1 ≤ℤ task.priority)
    × (task.priority ≤ℤ pos 10)
    × (pos 0 ≤ℤ task.max_results)
    × (pos 0 ≤ℤ task.deadline_seconds)

allowed_iff :
    (v : Json)
    → (allowed v ≡ true) ↔ ((k : String) × (v ≡ text k) × (contains k allowed_task_types ≡ true))
unfolding allowed
allowed_iff (text k) = (λ h. (k, refl, h), λ (j, e, h). ground (arith, e, h))
allowed_iff v = ground arith

pub validate_iff : (task : TranslatedTask) → (validate task ≡ true) ↔ IsValid task
unfolding validate
validate_iff task = ground (arith, allowed_iff task.task_type)

-- The steps that lead to a task.
abbrev pub IsTranslation : Environment → Generated → TranslatedTask → Type 0
IsTranslation env answer task =
    (response : LlmResponse) × (data' : Json) × (answer ≡ generated response)
    × (extract_json env (chars response.text) ≡ some data')
    × (from_dict env data' ≡ some task)
    × IsValid task

checked_iff :
    (o : Option TranslatedTask) (task : TranslatedTask)
    → (checked o ≡ translated task) ↔ ((o ≡ some task) × IsValid task)
checked_iff none task = ground arith
checked_iff (some task') task = ground (arith, validate_iff task', validate_iff task)

read_iff :
    (env : Environment) (o : Option Json) (task : TranslatedTask)
    → (read env o ≡ translated task)
      ↔ ((data' : Json) × (o ≡ some data') × (from_dict env data' ≡ some task) × IsValid task)
read_iff env none task = (λ h. absurd (cc), λ h. absurd (cc))
read_iff env (some data') task = (
  λ h. let (f, v) = (checked_iff (from_dict env data') task).0 h in (data', refl, f, v),
  λ (d, e, f, v).
      (checked_iff (from_dict env data') task).1
        (ap (from_dict env) (some-injective data' d e) ∙ f, v),
)

generated-injective : (r r' : LlmResponse) → generated r ≡ generated r' → r ≡ r'
generated-injective r r' h = cc

answer_iff :
    (env : Environment) (answer : Generated) (task : TranslatedTask)
    → (answer_of env answer ≡ translated task) ↔ IsTranslation env answer task
answer_iff env (all_failed names) task = (λ h. absurd (cc), λ h. absurd (cc))
answer_iff env (generated response) task =
    let o = extract_json env (chars response.text) in
    (
      λ h. let (d, e, f, v) = (read_iff env o task).0 h in (response, d, refl, e, f, v),
      λ (r, d, g, e, f, v). (read_iff env o task).1 (
        d,
        subst (λ r. extract_json env (chars r.text) ≡ some d)
            (sym (generated-injective response r g)) e,
        f,
        v,
      ),
    )

-- A description becomes a task exactly when a model answers, its answer is JSON with fields that
-- convert, and the task is one of the allowed types, has a priority from 1 to 10 and has no
-- negative limit or deadline.
pub translate_iff :
    (env : Environment) (llm : LlmProvider) (human_task : String) (task : TranslatedTask)
    → (translate env llm human_task ≡ translated task)
      ↔ IsTranslation env (generate llm (request env human_task)) task
unfolding translate
translate_iff env llm human_task task = answer_iff env (generate llm (request env human_task)) task

-- What a batch keeps.
kept-IsValid :
    (results : List Translation)
    → All (λ result. (task : TranslatedTask) → result ≡ translated task → IsValid task) results
    → All IsValid (kept results)
unfolding kept
kept-IsValid [] h = tt
kept-IsValid (translated task ∷ results) h = (h.0 task refl, kept-IsValid results h.1)
kept-IsValid (_ ∷ results) h = kept-IsValid results h.1

results-IsValid :
    (env : Environment) (llm : LlmProvider) (tasks : List String)
    → All
        (λ result. (task : TranslatedTask) → result ≡ translated task → IsValid task)
        (map (translate env llm) tasks)
results-IsValid env llm [] = tt
results-IsValid env llm (t ∷ tasks) = (
  λ task h. let (r, d, g, e, f, v) = (translate_iff env llm t task).0 h in v,
  results-IsValid env llm tasks,
)

-- Whatever the models answer, each task that a batch of descriptions gives is of an allowed type,
-- has a priority from 1 to 10 and has no negative limit or deadline.
pub translate_batch-IsValid :
    (env : Environment) (llm : LlmProvider) (tasks : List String)
    → All IsValid (translate_batch env llm tasks)
unfolding translate_batch
translate_batch-IsValid env llm tasks =
    kept-IsValid (map (translate env llm) tasks) (results-IsValid env llm tasks)
