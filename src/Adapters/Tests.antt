-- ===== src/Adapters/Tests.antt =====
-- An adapter over toy packages, whose formats write the token of a request where a result has its id.
use secure_orchestration_mes.Prelude.{
  String, ◌≡◌, ◌≢◌, refl, sym, ap, ◌∙◌, true, none, some, List, [], ◌∷◌, ◌+◌, ◌<◌, ◌^◌, arith,
  Option, str_eq, if◌then◌else◌, Bool-cases, eq_iff, inl, inr,
}
use mathlib.Core.Option.{some-injective}
use secure_orchestration_mes.Messages.{
  Bytes, TaskRequest, TaskResult, AgentRegistrationRequest, AgentRegistrationResponse, completed,
}
use secure_orchestration_mes.Crypto.{CryptoSession}
use secure_orchestration_mes.Crypto.Tests.{toy_primitives, toy_primitives-Laws}
use secure_orchestration_mes.Client.{MeshAgent}
use secure_orchestration_mes.Client
use secure_orchestration_mes.Adapters.{
  Adapter, Environment, Task, crew_answer, submit, consume, finish, submitted, timed_out,
  tool_result,
}
use secure_orchestration_mes.Adapters.Steps.{Step, starts, consumes, run, tool_result-never}
use secure_orchestration_mes.Adapters.Own.{submit-eaten}
use secure_orchestration_mes.Adapters.Graph.{Codec}

abbrev task_result : TaskResult
task_result = record {
  task_id = "t";
  state = completed;
  payload = [];
  error_message = "";
  completed_at = "";
  sequence_number = 0;
  metrics = record {
    execution_time_ms = 0;
    result_payload_bytes = 0;
    external_call_count = 0;
    error_count = 0;
    peak_memory_bytes = 0;
  };
}

-- A format that keeps the token of a request as a text.
abbrev token_of : Bytes → Option TaskResult
token_of [] = some (record task_result { task_id = "" })
token_of (b ∷ bs) = none

abbrev client : Client.Environment
client = record {
  primitives = toy_primitives;
  hkdf_info = [];
  ephemeral_private = 1 ∷ [];
  session_private = 2 ∷ [];
  session_nonce = 3 ∷ [];
  parse_task_request = λ plaintext. none;
  serialize_task_result = λ r. [];
  error_text = λ e. "";
  completed_at = "";
  elapsed_ms = 1;
}

abbrev serialize : TaskRequest → Bytes
serialize q = if str_eq q.access_token "" then [] else 1 ∷ []

abbrev env : Environment
env = record {
  client = client;
  parse_task_result = token_of;
  serialize_task_request = serialize;
  created_at = "";
  deadline_at = λ n. "";
  deadline_text = "Task deadline exceeded";
}

abbrev session : CryptoSession
session = record {
  agent_private = [];
  agent_public = [];
  orchestrator_public = [];
  session_key = 3 ∷ [];
  nonce_base = 4 ∷ [];
  session_id = "a";
  sequence_counter = 0;
}

abbrev agent : MeshAgent
agent = record {
  config = record { agent_id = "a"; agent_label = ""; capabilities = []; sdk_version = "" };
  crypto = some session;
  access_token = none;
  token_expires_at = none;
  executor = record { action_handlers = [] };
  pending_results = [];
}

abbrev self : Adapter
self = record { agent = agent; connected = true; futures = [] }

abbrev task : Task
task = record {
  task_id = "t1";
  description = "find";
  task_type = "api_call";
  payload = [];
  deadline_seconds = 300;
  priority = 5;
}

abbrev no_server : AgentRegistrationRequest → Option AgentRegistrationResponse
no_server r = none

other_id : ◌≢◌ {A = String} "" "t1"
other_id h = cc

wire :
    (q : TaskRequest) (r : TaskResult)
    → token_of (serialize q) ≡ some r
    → r.task_id ≡ q.access_token
wire q r h = elim (Bool-cases (str_eq q.access_token "")) [
  | inl unset ↦
      let made : some (record task_result { task_id = "" }) ≡ some r = (rw unset at h) in
      sym (ap (λ r. r.task_id) (some-injective _ r made)) ∙ sym ((eq_iff q.access_token "").0 unset)
  | inr set ↦ absurd (ground (arith, h, set))
]

small_counter : session.sequence_counter + 2 < 2 ^ 64
small_counter = omega arith

submit-eaten_example :
    let after = submit env no_server self task in
    let later = consume env no_server crew_answer after.1 in
    (after.0 ≡ submitted)
    × (later.agent.pending_results ≡ [])
    × ((finish env later "t1").0 ≡ timed_out env "t1")
submit-eaten_example =
    submit-eaten env no_server crew_answer self task session refl refl refl toy_primitives-Laws
      small_counter other_id wire

abbrev steps : List Step
steps = starts task ∷ consumes ∷ []

tool_result-never_example :
    tool_result (finish env (run env no_server crew_answer self steps) "t1").0 ≡ none
tool_result-never_example =
    tool_result-never env no_server crew_answer (λ r name. refl) self steps "t1" refl

abbrev codec : Codec
codec = record { json_loads = λ b. none; decode = λ b. "" }
