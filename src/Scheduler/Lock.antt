-- ===== src/Scheduler/Lock.antt =====
-- `update_anomaly_score` calls `quarantine` while it holds the lock that `quarantine` asks for.
use secure_orchestration_mes.Prelude.{
  ℕ, String, ◌+◌, ◌≤◌, ◌<◌, ◌≡◌, refl, true, false, Option, some, List, arith, Bool-cases, inl, inr,
  eq_iff,
}
use secure_orchestration_mes.Dict.{get, put, get-put, get-put_self}
use secure_orchestration_mes.Scheduler.{
  AgentRecord, AgentState, TaskScheduler, waiting, high_score, update_anomaly_score,
}
use mathlib.Core.Option
use secure_orchestration_mes.Scheduler.Effects.{update_anomaly_score_effect, scored}
use secure_orchestration_mes.Scheduler.Calls.{Call, run, run_locked}

-- The pool when the inner call of `quarantine` waits.
abbrev stuck_pool : String → ℕ → AgentRecord → TaskScheduler → TaskScheduler
stuck_pool agent_id score agent s = record s {
  agents =
      put s.agents agent_id
        (record agent { anomaly_score = score; suspicion_count = agent.suspicion_count + 1 });
  locked = true;
}

pub update_anomaly_score-waits :
    (agent_id : String) (score : ℕ) (s : TaskScheduler) (agent : AgentRecord)
    → s.locked ≡ false
    → get s.agents agent_id ≡ some agent
    → high_score < score
    → 1 ≤ agent.suspicion_count
    → update_anomaly_score agent_id score s ≡ (waiting, stuck_pool agent_id score agent s)
unfolding update_anomaly_score
update_anomaly_score-waits agent_id score s agent free found high suspected = ground arith

-- A second suspicious score in a row makes `update_anomaly_score` wait for the lock that it holds:
-- it does not return, the agent is not quarantined (its state is what it was), and from then on no
-- sequence of calls on the scheduler changes the pool, as long as the waiting call is not cancelled.
pub second_suspicion_blocks :
    (agent_id : String) (score : ℕ) (s : TaskScheduler) (agent : AgentRecord) (calls : List Call)
    → s.locked ≡ false
    → get s.agents agent_id ≡ some agent
    → high_score < score
    → 1 ≤ agent.suspicion_count
    → ((update_anomaly_score agent_id score s).0 ≡ waiting)
      × ((after : AgentRecord) × (get (update_anomaly_score agent_id score s).1.agents agent_id
            ≡ some after)
          × (after.state ≡ agent.state))
      × (run calls (update_anomaly_score agent_id score s).1
          ≡ (update_anomaly_score agent_id score s).1)
second_suspicion_blocks agent_id score s agent calls free found high suspected =
    rw (update_anomaly_score-waits agent_id score s agent free found high suspected) (
      refl,
      (_, get-put_self s.agents agent_id _, refl),
      run_locked calls (stuck_pool agent_id score agent s) refl,
    )

abbrev pub state_of : Option AgentRecord → Option AgentState
state_of = Option.map (λ a. a.state)

update_anomaly_score_held :
    (agent_id : String) (score : ℕ) (s : TaskScheduler)
    → s.locked ≡ true
    → update_anomaly_score agent_id score s ≡ (waiting, s)
unfolding update_anomaly_score
update_anomaly_score_held agent_id score s held = ground arith

-- No call of `update_anomaly_score`, whatever the score, changes the state of any agent: the
-- quarantine that it means to issue for repeated suspicions never takes effect.
pub update_anomaly_score-state :
    (agent_id : String) (score : ℕ) (s : TaskScheduler) (k : String)
    → state_of (get (update_anomaly_score agent_id score s).1.agents k) ≡ state_of (get s.agents k)
update_anomaly_score-state agent_id score s k = elim (Bool-cases s.locked) [
  | inl held ↦ rw (update_anomaly_score_held agent_id score s held)
  | inr free ↦ elim (update_anomaly_score_effect agent_id s free score) [
    | inl (absent, e) ↦ rw e
    | inr (a, found, e) ↦
        rw e
          (ground (arith, get-put s.agents agent_id k (scored score a), eq_iff agent_id k, found))
  ]
]
