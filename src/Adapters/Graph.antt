-- ===== src/Adapters/Graph.antt =====
-- orchestrator/langgraph_adapter.py: what the calls of a wrapped graph make of an answer, and the log of
-- the calls.
use secure_orchestration_mes.Prelude.{
  String, ◌≡◌, refl, ◌≢◌, not, ◌&&◌, ◌>>=◌, str_eq, if◌then◌else◌, Bool, true, false, Option, none,
  some, List, [], ◌∷◌, ◌++◌, map,
}
use secure_orchestration_mes.Messages.{Bytes, AgentRegistrationRequest, AgentRegistrationResponse}
use secure_orchestration_mes.Json.{
  Json, text, object, Members, empty, member, array, nil, get_or, list_of, elements,
}
use secure_orchestration_mes.Adapters.{
  Answer, Adapter, Environment, Task, Submitted, submit, finish, graph_answer,
}
use secure_orchestration_mes.Adapters.Steps.{Step, run, finish-foreign}

-- `json.loads`, or a JSONDecodeError, and `bytes.decode` with replacements.
pub record Codec : Type 0 where
  pub json_loads : Bytes → Option Json
  pub decode : Bytes → String

-- How `ainvoke` ends: with a state of the graph, with a TimeoutError, or with a RuntimeError.
pub data Invoked : Type 0 where
  returned : Json → Invoked
  timeout_error : Invoked
  runtime_error : (error : String) → Invoked

-- How `astream` ends: with its chunks, or with an exception for an answer that is no dictionary or
-- whose chunks are no list.
pub data Streamed : Type 0 where
  chunks : List Json → Streamed
  raised : Streamed

module _ (codec : Codec) where
  abbrev or_raw : Bytes → Option Json → Json
  or_raw payload none = object (member "raw" (text (codec.decode payload)) empty)
  or_raw payload (some v) = v

  unfoldable pub deserialize_result : Bytes → Json
  deserialize_result payload = or_raw payload (codec.json_loads payload)

  unfoldable pub ainvoke : Answer → Invoked
  ainvoke a =
      if str_eq a.state "COMPLETED"
      then returned (deserialize_result a.payload)
      else if str_eq a.state "TIMEOUT"
      then timeout_error
      else runtime_error a.error

  -- `chunk if isinstance(chunk, dict) else {"content": chunk}`
  unfoldable pub chunk_of : Json → Json
  chunk_of (object d) = object d
  chunk_of v = object (member "content" v empty)

  abbrev chunks_in : Option (List Json) → Streamed
  chunks_in none = raised
  chunks_in (some vs) = chunks (map chunk_of vs)

  abbrev iterated : Json → Option (List Json)
  iterated v = list_of v >>= λ vs. some (elements vs)

  abbrev loaded : Bytes → Option Json → Streamed
  loaded payload none = chunks (object (member "content" (text (codec.decode payload)) empty) ∷ [])
  loaded payload (some (object d)) = chunks_in (iterated (get_or d "chunks" (array nil)))
  loaded payload (some v) = raised

  abbrev is_empty : Bytes → Bool
  is_empty [] = true
  is_empty (b ∷ bs) = false

  unfoldable pub astream : Answer → Streamed
  astream a =
      if str_eq a.state "COMPLETED" && not (is_empty a.payload)
      then loaded a.payload (codec.json_loads a.payload)
      else chunks (object (member "error" (text a.error) empty) ∷ [])

-- `execute_task` of the graph adapter has no argument for the priority.
unfoldable pub execute_graph_task :
    Environment
    → (AgentRegistrationRequest → Option AgentRegistrationResponse)
    → Adapter
    → Task
    → Submitted × Adapter
execute_graph_task env register self task = submit env register self (record task { priority = 5 })

pub record Invocation : Type 0 where
  pub method : String
  pub task_id : String
  pub timestamp : String
  pub state_keys : List String

abbrev keys : Members → List String
keys empty = []
keys (member k v d) = k ∷ keys d

-- `_log_invocation`, whose task id is not that of the task.
unfoldable pub log_invocation :
    (audit_trail_enabled : Bool)
    → List Invocation
    → (method task_id timestamp : String) → Members
    → List Invocation
log_invocation audit_trail_enabled log method task_id timestamp state =
    if audit_trail_enabled
    then log
      ++ (record {
        method = method;
        task_id = task_id;
        timestamp = timestamp;
        state_keys = keys state;
      }
          ∷ [])
    else log

never-returned :
    (timed : Bool) (error : String) (state : Json)
    → (if timed then timeout_error else runtime_error error) ≢ returned state
never-returned true error state e = cc
never-returned false error state e = cc

-- A graph that is wrapped by an adapter without open calls never returns a state, and streams
-- nothing but an error, whatever calls are made, whatever packets come and whatever they say.
pub graph-never :
    (codec : Codec) (env : Environment)
    (register : AgentRegistrationRequest → Option AgentRegistrationResponse) (self : Adapter)
    (steps : List Step) (task_id : String) (state : Json)
    → self.futures ≡ []
    → let a = (finish env (run env register graph_answer self steps) task_id).0 in
      (ainvoke codec a ≢ returned state)
      × (astream codec a ≡ chunks (object (member "error" (text a.error) empty) ∷ []))
unfolding ainvoke astream
graph-never codec env register self steps task_id state fresh =
    let foreign =
      finish-foreign env register graph_answer (λ r name. refl) self steps task_id fresh in
    let a = (finish env (run env register graph_answer self steps) task_id).0 in
    (
      rw (foreign, ainvoke) (never-returned (str_eq a.state "TIMEOUT") a.error state),
      rw (foreign, astream) refl,
    )
