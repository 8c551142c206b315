-- ===== src/Scheduler/Calls.antt =====
-- The calls that the coroutines of the orchestrator make on one `TaskScheduler`. Each body runs
-- with no pause, so an interleaving of coroutines is a list of calls.
use secure_orchestration_mes.Prelude.{ℕ, String, ◌≡◌, refl, Bool, true, List, [], ◌∷◌}
use secure_orchestration_mes.Messages.{AgentStatus, AgentRegistrationRequest}
use secure_orchestration_mes.Scheduler.{
  TaskScheduler, register, unregister, heartbeat, mark_offline_stale, dispatch, complete_task,
  quarantine, update_anomaly_score,
}

pub data Call : Type 0 where
  call_register : (now : ℕ) → AgentRegistrationRequest → Call
  call_unregister : (agent_id : String) → Call
  call_heartbeat : (now : ℕ) → (agent_id : String) → AgentStatus → Call
  call_mark_offline_stale : (now : ℕ) → Call
  call_dispatch : (task_type : String) → Call
  call_complete_task : (agent_id : String) → (success : Bool) → Call
  call_quarantine : (agent_id : String) → Call
  call_update_anomaly_score : (agent_id : String) → (score : ℕ) → Call

-- The pool after a call.
unfoldable pub perform : Call → TaskScheduler → TaskScheduler
perform (call_register now request) s = (register now request s).1
perform (call_unregister agent_id) s = (unregister agent_id s).1
perform (call_heartbeat now agent_id status) s = (heartbeat now agent_id status s).1
perform (call_mark_offline_stale now) s = (mark_offline_stale now s).1
perform (call_dispatch task_type) s = (dispatch task_type s).1
perform (call_complete_task agent_id success) s = (complete_task agent_id success s).1
perform (call_quarantine agent_id) s = (quarantine agent_id s).1
perform (call_update_anomaly_score agent_id score) s = (update_anomaly_score agent_id score s).1

unfoldable pub run : List Call → TaskScheduler → TaskScheduler
unfolding perform
run [] s = s
run (c ∷ calls) s = run calls (perform c s)

-- While the lock is held no call changes the pool.
pub perform_locked : (c : Call) (s : TaskScheduler) → s.locked ≡ true → perform c s ≡ s
unfolding perform register unregister heartbeat mark_offline_stale dispatch complete_task quarantine
    update_anomaly_score
perform_locked (call_register now request) s h = rw h
perform_locked (call_unregister agent_id) s h = rw h
perform_locked _ s h = rw h

pub run_locked : (calls : List Call) (s : TaskScheduler) → s.locked ≡ true → run calls s ≡ s
unfolding run
run_locked [] s h = refl
run_locked (c ∷ calls) s h = rw (perform_locked c s h) (run_locked calls s h)
