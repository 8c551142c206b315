-- ===== src/Executor/Scope.antt =====
-- What the scope of a task guarantees about its result.
use secure_orchestration_mes.Prelude.{
  ℕ, String, ◌≤◌, ◌≡◌, ◌≢◌, ◌⊎◌, inl, inr, true, false, none, some, [], arith, length, ◌∙◌,
  Bool-cases, Option-cases,
}
use secure_orchestration_mes.Dict
use secure_orchestration_mes.Messages.{Bytes, PermissionScope, TaskContext, completed, failed}
use secure_orchestration_mes.Executor.{
  allows_action, ExecutionResult, HandlerOutcome, returns, raises, Handler, TaskExecutor,
  make_result, after_handler, execute, no_error,
}

module _ (completed_at : String) (elapsed_ms : ℕ) (task : TaskContext)
    (scope : PermissionScope) where
  abbrev pub run : TaskExecutor → ExecutionResult
  run = execute completed_at elapsed_ms task scope

  -- The payload is what a permitted handler returned, in time and in size.
  pub record IsEarned (self : TaskExecutor) (payload : Bytes) : Type 0 where
    pub permitted : allows_action scope task.task_type ≡ true
    pub handler : Handler
    pub registered : Dict.get self.action_handlers task.task_type ≡ some handler
    pub returned : handler task ≡ returns payload
    pub fits : length payload ≤ scope.max_payload_bytes
    pub in_time : elapsed_ms ≤ scope.max_execution_ms

  after_handler-completed :
      (outcome : HandlerOutcome)
      → (after_handler completed_at elapsed_ms task scope outcome).state ≡ completed
      → (outcome ≡ returns (after_handler completed_at elapsed_ms task scope outcome).payload)
        × (length (after_handler completed_at elapsed_ms task scope outcome).payload
            ≤ scope.max_payload_bytes)
        × (elapsed_ms ≤ scope.max_execution_ms)
  unfolding after_handler make_result
  after_handler-completed raises h = absurd (cc)
  after_handler-completed (returns payload) h = (ground arith, ground arith, ground arith)

  denied_completes :
      (self : TaskExecutor)
      → allows_action scope task.task_type ≡ false
      → (run self).state ≢ completed
  unfolding execute make_result
  denied_completes self denied h = ground arith

  missing_completes :
      (self : TaskExecutor)
      → allows_action scope task.task_type ≡ true
      → Dict.get self.action_handlers task.task_type ≡ none
      → (run self).state ≢ completed
  unfolding execute make_result
  missing_completes self permitted missing h = ground arith

  run-handler :
      (self : TaskExecutor) (handler : Handler)
      → allows_action scope task.task_type ≡ true
      → Dict.get self.action_handlers task.task_type ≡ some handler
      → run self ≡ after_handler completed_at elapsed_ms task scope (handler task)
  unfolding execute
  run-handler self handler permitted registered = rw (permitted, registered)

  -- A task completes only if its type is allowed, a handler is registered for the type and returned
  -- the payload of the result, and the payload and the elapsed time are within the scope's limits.
  pub completed-IsEarned :
      (self : TaskExecutor) → (run self).state ≡ completed → IsEarned self (run self).payload
  completed-IsEarned self h = elim (Bool-cases (allows_action scope task.task_type)) [
    | inr denied ↦ absurd (denied_completes self denied h)
    | inl permitted ↦ elim (Option-cases (Dict.get self.action_handlers task.task_type)) [
      | inl missing ↦ absurd (missing_completes self permitted missing h)
      | inr (handler, registered) ↦
          let e = run-handler self handler permitted registered in
          let (returned, fits, in_time) = after_handler-completed (handler task) (rw e at h) in
          record {
            permitted = permitted;
            handler = handler;
            registered = registered;
            returned = rw e returned;
            fits = rw e fits;
            in_time = in_time;
          }
    ]
  ]

  -- And conversely: such a task completes, with that payload and its size, and no error.
  pub IsEarned-completes :
      (self : TaskExecutor) (payload : Bytes)
      → IsEarned self payload
      → run self
        ≡ make_result completed_at task.task_id completed payload no_error elapsed_ms
            (length payload)
            0
            0
  unfolding after_handler
  IsEarned-completes self payload earned =
      run-handler self earned.handler earned.permitted earned.registered ∙ ground arith

  -- Whatever happens, the result names the task, and either the task completed, with a payload
  -- within the limit, or it failed, with an empty payload.
  pub run_cases :
      (self : TaskExecutor)
      → ((run self).task_id ≡ task.task_id)
        × (((run self).state ≡ completed) × (length (run self).payload ≤ scope.max_payload_bytes)
            ⊎ ((run self).state ≡ failed) × ((run self).payload ≡ []))
  unfolding execute after_handler make_result
  run_cases self = (ground arith, ground arith)

  -- A task type that the scope does not allow runs no handler: whatever handlers are registered, the
  -- result is the same.
  pub denied_runs_nothing :
      (self other : TaskExecutor)
      → allows_action scope task.task_type ≡ false
      → run self ≡ run other
  unfolding execute
  denied_runs_nothing self other denied = rw denied
