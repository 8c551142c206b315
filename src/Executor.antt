-- ===== src/Executor.antt =====
-- agent_sdk/executor.py: running a task within the scope that was granted for it.
--
-- A handler is a parameter: the outcome of its coroutine, and the milliseconds that it took, which
-- the clock decides. `completed_at` is the time stamp that the model is given; of an error message
-- the kind is kept and not the text.
mod Scope
mod Tests
use secure_orchestration_mes.Prelude.{
  ℕ, String, ◌+◌, Bool, true, false, ◌||◌, Option, none, some, List, [], ◌∷◌, ltb, leb, str_eq,
  if◌then◌else◌, length, contains, any, occurs_in,
}
use secure_orchestration_mes.Dict
use secure_orchestration_mes.Dict.{Dict}
use secure_orchestration_mes.Messages.{
  Bytes, PermissionScope, TaskContext, TaskState, completed, failed, ExecutionMetrics,
}

unfoldable pub allows_action : PermissionScope → String → Bool
allows_action scope action =
    if contains "*" scope.allowed_actions then true else contains action scope.allowed_actions

unfoldable pub allows_payload_size : PermissionScope → ℕ → Bool
allows_payload_size scope byte_count = leb byte_count scope.max_payload_bytes

unfoldable pub allows_execution_time : PermissionScope → ℕ → Bool
allows_execution_time scope elapsed_ms = leb elapsed_ms scope.max_execution_ms

unfoldable pub allows_resource : PermissionScope → String → Bool
allows_resource scope resource = elim scope.resource_allowlist [
  | [] ↦ true
  | first ∷ rest ↦
      any (λ pattern'. str_eq pattern' "*" || occurs_in pattern' resource) (first ∷ rest)
]

-- What an error message reports.
pub data ExecutionError : Type 0 where
  no_error action_not_allowed no_handler payload_over_limit time_over_limit : ExecutionError
  handler_raised : ExecutionError

pub record ExecutionResult : Type 0 where
  pub task_id : String
  pub state : TaskState
  pub payload : Bytes
  pub error_message : ExecutionError
  pub completed_at : String
  pub metrics : ExecutionMetrics

-- How the coroutine of a handler ends.
pub data HandlerOutcome : Type 0 where
  returns : Bytes → HandlerOutcome
  raises : HandlerOutcome

abbrev pub Handler : Type 0
Handler = TaskContext → HandlerOutcome

pub record TaskExecutor : Type 0 where
  pub action_handlers : Dict Handler

unfoldable pub register_handler : TaskExecutor → String → Handler → TaskExecutor
register_handler self action handler = record self {
  action_handlers = Dict.put self.action_handlers action handler;
}

-- `_result`
unfoldable pub make_result :
    (completed_at task_id : String)
    → TaskState
    → Bytes
    → ExecutionError
    → (elapsed_ms payload_bytes external_calls error_count : ℕ) → ExecutionResult
make_result completed_at task_id state payload error elapsed_ms payload_bytes external_calls
      error_count =
    record {
      task_id = task_id;
      state = state;
      payload = payload;
      error_message = error;
      completed_at = completed_at;
      metrics = record {
        execution_time_ms = elapsed_ms;
        result_payload_bytes = payload_bytes;
        external_call_count = external_calls;
        error_count = error_count;
        peak_memory_bytes = 0;
      };
    }

module _ (completed_at : String) (elapsed_ms : ℕ) (task : TaskContext)
    (scope : PermissionScope) where
  -- What follows the handler's call.
  unfoldable pub after_handler : HandlerOutcome → ExecutionResult
  unfolding allows_payload_size allows_execution_time
  after_handler raises =
      make_result completed_at task.task_id failed [] handler_raised elapsed_ms 0 0 1
  after_handler (returns result_payload) =
      let payload_size = length result_payload in
      if allows_payload_size scope payload_size
      then if allows_execution_time scope elapsed_ms
        then make_result completed_at task.task_id completed result_payload no_error elapsed_ms
            payload_size 0 0
        else make_result completed_at task.task_id failed [] time_over_limit elapsed_ms payload_size
            0 0
      else make_result completed_at task.task_id failed [] payload_over_limit elapsed_ms
          payload_size 0 0

  unfoldable pub execute : TaskExecutor → ExecutionResult
  execute self =
      if allows_action scope task.task_type
      then elim (Dict.get self.action_handlers task.task_type) [
        | none ↦ make_result completed_at task.task_id failed [] no_handler 0 0 0 0
        | some handler ↦ after_handler (handler task)
      ]
      else make_result completed_at task.task_id failed [] action_not_allowed 0 0 0 0
