-- ===== src/Reports/Templates.antt =====
-- llm/incident_reporter.py: the templates that PromptCacheManager keeps in files, as a dictionary
-- from the key of a template to what its file says.
use secure_orchestration_mes.Prelude.{
  ℕ, ◌≡◌, refl, ap, ◌∙◌, ◌-◌, String, str_eq, ltb, if◌then◌else◌, Option, none, some, List, [], ◌∷◌,
}
use secure_orchestration_mes.Dict.{Dict, get, put, pop, get-put, get-pop}
use secure_orchestration_mes.Reports.{cache_ttl}

pub record Template : Type 0 where
  pub template : String
  pub cached_at : ℕ

pub data Action : Type 0 where
  cache_template : String → String → Action
  invalidate : String → Action

abbrev pub young : ℕ → Option Template → Option String
young now none = none
young now (some data') = if ltb (now - data'.cached_at) cache_ttl then some data'.template else none

unfoldable pub get_cached_template : Dict Template → ℕ → String → Option String
get_cached_template dir now template_key = young now (get dir template_key)

-- `cache_template` and `invalidate`, at `now`.
unfoldable pub act : Dict Template → ℕ → Action → Dict Template
act dir now (cache_template key template) =
    put dir key (record { template = template; cached_at = now })
act dir now (invalidate key) = pop dir key

-- Calls in the order in which they are made, each at its time.
unfoldable pub run : Dict Template → List (ℕ × Action) → Dict Template
run dir [] = dir
run dir ((now, action) ∷ actions) = run (act dir now action) actions

-- The last call on a key says what the key has.
unfoldable pub last_on : String → Option Template → List (ℕ × Action) → Option Template
last_on key known [] = known
last_on key known ((now, cache_template j template) ∷ actions) =
    last_on key
      (if str_eq j key then some (record { template = template; cached_at = now }) else known)
      actions
last_on key known ((now, invalidate j) ∷ actions) =
    last_on key (if str_eq j key then none else known) actions

get-run :
    (dir : Dict Template) (actions : List (ℕ × Action)) (key : String)
    → get (run dir actions) key ≡ last_on key (get dir key) actions
unfolding run last_on act
get-run dir [] key = refl
get-run dir ((now, cache_template j t) ∷ actions) key =
    let new : Template = record { template = t; cached_at = now } in
    get-run (put dir j new) actions key
    ∙ ap (λ known. last_on key known actions) (get-put dir j key new)
get-run dir ((now, invalidate j) ∷ actions) key =
    get-run (pop dir j) actions key ∙ ap (λ known. last_on key known actions) (get-pop dir j key)

-- Whatever calls are made in whatever order, a template is answered exactly when the last call on
-- its key stored it, and less than a day ago; it is then the template of that call.
pub get_cached_template-run :
    (actions : List (ℕ × Action)) (now : ℕ) (key : String)
    → get_cached_template (run [] actions) now key ≡ young now (last_on key none actions)
unfolding get_cached_template get
get_cached_template-run actions now key = ap (young now) (get-run [] actions key)
