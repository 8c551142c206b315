-- ===== src/Scheduler/Pool.antt =====
-- What holds of the pool of agents after any calls.
use secure_orchestration_mes.Prelude.{ℕ, ◌≤◌, ◌≡◌, Bool, if◌then◌else◌}
use secure_orchestration_mes.Dict.{AllEntries, IsDistinct}
use secure_orchestration_mes.Scheduler.{TaskScheduler}

-- The suspicions that an agent may have: one more while a call waits with the lock held. Suspects
-- says of which agent.
abbrev pub suspicion_limit : Bool → ℕ
suspicion_limit locked = if locked then 2 else 1

-- Each key stands once and is the id of its agent, and suspicions keep the limit.
pub record IsWellFormed (s : TaskScheduler) : Type 0 where
  pub keys : AllEntries (λ k a. k ≡ a.agent_id) s.agents
  pub distinct : IsDistinct s.agents
  pub suspicions : AllEntries (λ k a. a.suspicion_count ≤ suspicion_limit s.locked) s.agents
