-- ===== src/Adapters.antt =====
-- orchestrator/crewai_adapter.py and orchestrator/langgraph_adapter.py: tasks of other frameworks, over
-- an agent of agent_sdk/client.py. The two adapters differ in the answers that they make.
mod Steps
mod Graph
mod Own
mod Tests
use secure_orchestration_mes.Prelude.{
  ℕ, ◌*◌, String, str_eq, leb, if◌then◌else◌, Bool, true, false, Option, none, some, List, [], ◌∷◌,
  ◌++◌, length,
}
use secure_orchestration_mes.Dict.{Dict, get, put, pop}
use secure_orchestration_mes.Messages.{
  Bytes, SignedPacket, TaskContext, PermissionScope, TaskRequest, TaskResult, TaskState,
  task_unspecified, pending, dispatched, in_progress, completed, failed, cancelled,
  task_quarantined, task_unknown, AgentRegistrationRequest, AgentRegistrationResponse,
}
use secure_orchestration_mes.Crypto.{CryptoSession, decrypt, verify}
use secure_orchestration_mes.Client.{
  MeshAgent, Connected, answer, bad_key, connect, sign_and_encrypt, pending_limit,
}
use secure_orchestration_mes.Client

-- The dictionary that `execute_task` returns; a key that is not there is empty.
pub record Answer : Type 0 where
  pub task_id : String
  pub state : String
  pub payload : Bytes
  pub error : String
  pub metrics : Option (ℕ × ℕ)

-- A future: it is in `_pending_tasks`; or it was taken out of it, with its result or, when an
-- exception came before, without one.
pub data Future : Type 0 where
  awaited : Future
  resolved : Answer → Future
  abandoned : Future

-- The futures of the calls of `execute_task` that have not returned, under the ids of their tasks.
pub record Adapter : Type 0 where
  pub agent : MeshAgent
  pub connected : Bool
  pub futures : Dict Future

-- The agent's packages, the wire format and the clock, and the error that an adapter answers at a
-- deadline.
pub record Environment : Type 0 where
  pub client : Client.Environment
  pub parse_task_result : Bytes → Option TaskResult
  pub serialize_task_request : TaskRequest → Bytes
  pub created_at : String
  pub deadline_at : ℕ → String
  pub deadline_text : String

-- What is asked of `execute_task`, with the UUID of the task.
pub record Task : Type 0 where
  pub task_id : String
  pub description : String
  pub task_type : String
  pub payload : Bytes
  pub deadline_seconds : ℕ
  pub priority : ℕ

-- `mesh_pb2.TaskState.Name`, a ValueError for a number without name.
unfoldable pub state_name : TaskState → Option String
state_name task_unspecified = some "TASK_STATE_UNSPECIFIED"
state_name pending = some "TASK_STATE_PENDING"
state_name dispatched = some "TASK_STATE_DISPATCHED"
state_name in_progress = some "TASK_STATE_IN_PROGRESS"
state_name completed = some "TASK_STATE_COMPLETED"
state_name failed = some "TASK_STATE_FAILED"
state_name cancelled = some "TASK_STATE_CANCELLED"
state_name task_quarantined = some "TASK_STATE_QUARANTINED"
state_name (task_unknown n) = none

-- The answers of the two adapters.
abbrev pub crew_answer : TaskResult → String → Answer
crew_answer r state = record {
  task_id = r.task_id;
  state = state;
  payload = r.payload;
  error = r.error_message;
  metrics = some (r.metrics.execution_time_ms, r.metrics.result_payload_bytes);
}

abbrev pub graph_answer : TaskResult → String → Answer
graph_answer r state = record {
  task_id = r.task_id;
  state = state;
  payload = r.payload;
  error = r.error_message;
  metrics = none;
}

-- The first part of `execute_task`: the request is queued, an exception is raised, or the call waits
-- for room in the queue.
pub data Submitted : Type 0 where
  submitted : Submitted
  raised : Submitted
  waits : Submitted

abbrev pub on_agent : Adapter → MeshAgent → Adapter
on_agent self agent = record self { agent = agent }

-- Whether `connect` came back, whatever its answer, and the adapter after it.
abbrev pub after_connect : Adapter → Connected × MeshAgent → Bool × Adapter
after_connect self (answer true, agent) = (true, record self { agent = agent; connected = true })
after_connect self (answer false, agent) = (true, on_agent self agent)
after_connect self (bad_key, agent) = (false, on_agent self agent)

module _ (env : Environment)
    (register : AgentRegistrationRequest → Option AgentRegistrationResponse) where
  -- `if not self._connected: await self.connect()`
  unfoldable pub ensure_connected : Adapter → Bool × Adapter
  ensure_connected self =
      if self.connected
      then (true, self)
      else after_connect self (connect env.client register self.agent)

  abbrev pub token_or_empty : Option String → String
  token_or_empty none = ""
  token_or_empty (some token) = token

  unfoldable pub request_of : MeshAgent → CryptoSession → Task → TaskRequest
  request_of agent session task = record {
    access_token = token_or_empty agent.access_token;
    task = record {
      task_id = task.task_id;
      parent_task_id = "";
      description = task.description;
      payload = task.payload;
      task_type = task.task_type;
      created_at = env.created_at;
      deadline_at = env.deadline_at task.deadline_seconds;
      priority = task.priority;
    };
    permission_scope = record {
      allowed_actions = task.task_type ∷ [];
      max_payload_bytes = 10 * 1024 * 1024;
      max_execution_ms = task.deadline_seconds * 1000;
      resource_allowlist = [];
    };
    sequence_number = session.sequence_counter;
  }

  -- `await self._agent._pending_results.put(signed)`; a full queue makes the call wait.
  abbrev pub enqueue : Adapter → Option SignedPacket × CryptoSession → Submitted × Adapter
  enqueue self (none, session) =
      (raised, on_agent self (record self.agent { crypto = some session }))
  enqueue self (some packet, session) =
      if leb pending_limit (length self.agent.pending_results)
      then (waits, on_agent self (record self.agent { crypto = some session }))
      else (
        submitted,
        on_agent self (record self.agent {
          crypto = some session;
          pending_results = self.agent.pending_results ++ (packet ∷ []);
        }),
      )

  -- Without a session `_sign_and_encrypt` raises an exception, and the future stays.
  unfoldable pub send_request : Adapter → Task → Option CryptoSession → Submitted × Adapter
  send_request self task none = (raised, self)
  send_request self task (some session) = enqueue self (
      sign_and_encrypt env.client session
        (env.serialize_task_request (request_of self.agent session task)))

  abbrev pub submit_connected : Adapter → Task → Submitted × Adapter
  submit_connected self task =
      send_request (record self { futures = put self.futures task.task_id awaited }) task
        self.agent.crypto

  unfoldable pub submit : Adapter → Task → Submitted × Adapter
  submit self task =
      let (returned, self') = ensure_connected self in
      if returned then submit_connected self' task else (raised, self')

  -- `_handle_response`: what becomes of the futures. `answer_of` makes the answer of the adapter.
  abbrev pub resolve : (TaskResult → String → Answer) → TaskResult → Option String → Future
  resolve answer_of r none = abandoned
  resolve answer_of r (some state) = resolved (answer_of r state)

  abbrev pub settle :
      (TaskResult → String → Answer) → Dict Future → TaskResult → Option Future → Dict Future
  settle answer_of futures r (some awaited) =
      put futures r.task_id (resolve answer_of r (state_name r.state))
  settle answer_of futures r _ = futures

  unfoldable pub handle_plaintext :
      (TaskResult → String → Answer) → Dict Future → Option TaskResult → Dict Future
  handle_plaintext answer_of futures none = futures
  handle_plaintext answer_of futures (some r) = settle answer_of futures r (get futures r.task_id)

  abbrev pub handle_decrypted :
      (TaskResult → String → Answer)
      → Dict Future
      → CryptoSession
      → SignedPacket
      → Option Bytes
      → Dict Future
  handle_decrypted answer_of futures session signed none = futures
  handle_decrypted answer_of futures session signed (some plaintext) =
      if verify env.client.primitives session signed.payload signed.hmac_signature
      then handle_plaintext answer_of futures (env.parse_task_result plaintext)
      else futures

  -- Without a session `decrypt` is an exception, which is caught.
  unfoldable pub handle_response :
      (TaskResult → String → Answer)
      → Dict Future
      → Option CryptoSession
      → SignedPacket
      → Dict Future
  handle_response answer_of futures none signed = futures
  handle_response answer_of futures (some session) signed =
      handle_decrypted answer_of futures session signed
        (decrypt env.client.primitives session signed.payload signed.sequence_number)

  -- One round of the consumer, which takes the oldest packet of the queue.
  abbrev pub taken : (TaskResult → String → Answer) → Adapter → List SignedPacket → Adapter
  taken answer_of self [] = self
  taken answer_of self (signed ∷ packets) = record self {
    agent = record self.agent { pending_results = packets };
    futures = handle_response answer_of self.futures self.agent.crypto signed;
  }

  unfoldable pub consume : (TaskResult → String → Answer) → Adapter → Adapter
  consume answer_of self =
      if self.connected then taken answer_of self self.agent.pending_results else self

-- The end of `execute_task`: the answer of the future, or that of the deadline.
abbrev pub timed_out : Environment → String → Answer
timed_out env task_id = record {
  task_id = task_id;
  state = "TIMEOUT";
  payload = [];
  error = env.deadline_text;
  metrics = none;
}

abbrev pub answer_at : Environment → String → Option Future → Answer
answer_at env task_id (some (resolved a)) = a
answer_at env task_id _ = timed_out env task_id

unfoldable pub finish : Environment → Adapter → String → Answer × Adapter
finish env self task_id = (
  answer_at env task_id (get self.futures task_id),
  record self { futures = pop self.futures task_id },
)

-- `wrap_tool`: the payload of a task that completed, or a RuntimeError.
unfoldable pub tool_result : Answer → Option Bytes
tool_result a = if str_eq a.state "COMPLETED" then some a.payload else none
