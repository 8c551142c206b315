-- ===== src/Executor/Tests.antt =====
-- Tasks on a small executor.
use secure_orchestration_mes.Prelude.{String, ◌≡◌, refl, true, false, [], ◌∷◌, arith}
use secure_orchestration_mes.Dict.{get}
use secure_orchestration_mes.Messages.{PermissionScope, TaskContext, completed, failed}
use secure_orchestration_mes.Executor.{
  allows_action, allows_resource, returns, TaskExecutor, make_result, execute, after_handler,
  time_over_limit,
}
use secure_orchestration_mes.Executor.Scope.{IsEarned, completed-IsEarned, IsEarned-completes}

abbrev scope : PermissionScope
scope = record {
  allowed_actions = "search" ∷ [];
  max_payload_bytes = 2;
  max_execution_ms = 100;
  resource_allowlist = "docs" ∷ [];
}

abbrev task : String → TaskContext
task task_type = record {
  task_id = "t1";
  parent_task_id = "";
  description = "";
  payload = [];
  task_type = task_type;
  created_at = "";
  deadline_at = "";
  priority = 5;
}

abbrev self : TaskExecutor
self = record { action_handlers = ("search", λ t. returns (1 ∷ 2 ∷ [])) ∷ [] }

resources : (allows_resource scope "/docs/a" ≡ true) × (allows_resource scope "/etc/passwd" ≡ false)
unfolding allows_resource
resources = (refl, refl)

too_slow :
    execute "" 101 (task "search") scope self
    ≡ make_result "" "t1" failed [] time_over_limit 101 2 0 0
unfolding execute after_handler allows_action get make_result
too_slow = refl

in_scope : IsEarned "" 50 (task "search") scope self (1 ∷ 2 ∷ [])
unfolding allows_action get
in_scope = record {
  permitted = refl;
  handler = λ t. returns (1 ∷ 2 ∷ []);
  registered = refl;
  returned = refl;
  fits = omega arith;
  in_time = omega arith;
}

search_completes : (execute "" 50 (task "search") scope self).state ≡ completed
unfolding make_result
search_completes = rw (IsEarned-completes "" 50 (task "search") scope self (1 ∷ 2 ∷ []) in_scope)

completed-IsEarned_example :
    IsEarned "" 50 (task "search") scope self (execute "" 50 (task "search") scope self).payload
completed-IsEarned_example = completed-IsEarned "" 50 (task "search") scope self search_completes

delete_denied : allows_action scope "delete" ≡ false
unfolding allows_action
delete_denied = refl
