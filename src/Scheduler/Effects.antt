-- ===== src/Scheduler/Effects.antt =====
-- What each method that looks up an agent does when the lock is free: nothing if there is no such
-- agent, else one write.
use secure_orchestration_mes.Prelude.{
  ℕ, String, ◌+◌, ◌-◌, ◌≡◌, ◌⊎◌, inl, inr, Bool, true, false, none, some, arith, Option-cases,
  if◌then◌else◌, ltb, ◌&&◌, leb,
}
use secure_orchestration_mes.Dict.{get, put, pop}
use secure_orchestration_mes.Messages.{AgentStatus, AgentRegistrationRequest}
use secure_orchestration_mes.Scheduler.{
  AgentRecord, TaskScheduler, Outcome, returned, waiting, idle, quarantined, status_map, heartbeat,
  complete_task, quarantine, update_anomaly_score, high_score, register, unregister,
}

-- The pool after a write, with the lock free as before.
abbrev pub written : String → AgentRecord → TaskScheduler → TaskScheduler
written k a s = record s { agents = put s.agents k a; locked = false }

-- Either there is no agent `k` and the method returns `missing` and changes nothing, or it ends as
-- `effect` says.
abbrev pub Looks :
    {A : Type 0}
    → String
    → TaskScheduler
    → A
    → (AgentRecord → Outcome A × TaskScheduler)
    → Outcome A × TaskScheduler
    → Type 0
Looks k s missing effect r =
    (get s.agents k ≡ none) × (r ≡ (returned missing, s))
    ⊎ ((a : AgentRecord) × (get s.agents k ≡ some a) × (r ≡ effect a))

-- The agent after a heartbeat.
abbrev pub beaten : ℕ → AgentStatus → AgentRecord → AgentRecord
beaten now status a = record a { last_heartbeat = now; state = status_map status }

-- The agent after a task.
abbrev pub credited : Bool → AgentRecord → AgentRecord
credited success a = record a {
  tasks_completed = if success then a.tasks_completed + 1 else a.tasks_completed;
  tasks_failed = if success then a.tasks_failed else a.tasks_failed + 1;
  state = idle;
  current_task_id = none;
}

abbrev pub jailed : AgentRecord → AgentRecord
jailed a = record a { state = quarantined; current_task_id = none }

-- The agent after a score.
abbrev pub scored : ℕ → AgentRecord → AgentRecord
scored score a = record a {
  anomaly_score = score;
  suspicion_count = if ltb high_score score then a.suspicion_count + 1 else a.suspicion_count - 1;
}

-- A score writes the agent; with a second suspicion the call then waits with the lock held.
abbrev pub score_effect : String → TaskScheduler → ℕ → AgentRecord → Outcome Unit × TaskScheduler
score_effect k s score a =
    if ltb high_score score && leb 1 a.suspicion_count
    then (waiting, record s { agents = put s.agents k (scored score a); locked = true })
    else (returned tt, written k (scored score a) s)

pub written-free :
    (k : String) (a : AgentRecord) (s : TaskScheduler)
    → s.locked ≡ false
    → written k a s ≡ record s { agents = put s.agents k a }
written-free k a s free = ground arith

module _ (k : String) (s : TaskScheduler) (free : s.locked ≡ false) where
  pub heartbeat_effect :
      (now : ℕ) (status : AgentStatus)
      → Looks k s tt
          (λ a. (returned tt, written k (beaten now status a) s))
          (heartbeat now k status s)
  unfolding heartbeat
  heartbeat_effect now status = elim (Option-cases (get s.agents k)) [
    | inl missing ↦ inl (missing, ground arith)
    | inr (a, found) ↦ inr (a, found, ground arith)
  ]

  pub complete_task_effect :
      (success : Bool)
      → Looks k s tt
          (λ a. (returned tt, written k (credited success a) s))
          (complete_task k success s)
  unfolding complete_task
  complete_task_effect success = elim (Option-cases (get s.agents k)) [
    | inl missing ↦ inl (missing, ground arith)
    | inr (a, found) ↦ inr (a, found, ground arith)
  ]

  pub quarantine_effect :
      Looks k s false (λ a. (returned true, written k (jailed a) s)) (quarantine k s)
  unfolding quarantine
  quarantine_effect = elim (Option-cases (get s.agents k)) [
    | inl missing ↦ inl (missing, ground arith)
    | inr (a, found) ↦ inr (a, found, ground arith)
  ]

  pub update_anomaly_score_effect :
      (score : ℕ) → Looks k s tt (score_effect k s score) (update_anomaly_score k score s)
  unfolding update_anomaly_score
  update_anomaly_score_effect score = elim (Option-cases (get s.agents k)) [
    | inl missing ↦ inl (missing, ground arith)
    | inr (a, found) ↦ inr (a, found, ground arith)
  ]

-- The agent as it is registered.
abbrev pub newcomer : ℕ → AgentRegistrationRequest → AgentRecord
newcomer now request = record {
  agent_id = request.agent_id;
  label = request.agent_label;
  capabilities = request.capabilities;
  state = idle;
  sdk_version = request.sdk_version;
  current_task_id = none;
  registered_at = now;
  last_heartbeat = now;
  tasks_completed = 0;
  tasks_failed = 0;
  anomaly_score = 0;
  suspicion_count = 0;
  session_id = "";
}

module _ (s : TaskScheduler) (free : s.locked ≡ false) where
  pub register_effect :
      (now : ℕ) (request : AgentRegistrationRequest)
      → register now request s
        ≡ (returned (newcomer now request), written request.agent_id (newcomer now request) s)
  unfolding register
  register_effect now request = ground arith

  pub unregister_effect :
      (k : String)
      → unregister k s ≡ (returned tt, record s { agents = pop s.agents k; locked = false })
  unfolding unregister
  unregister_effect k = ground arith
