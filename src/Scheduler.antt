-- ===== src/Scheduler.antt =====
-- orchestrator/task_scheduler.py: the pool of agents, and the methods of `TaskScheduler`.
--
-- A time is a number of ticks of a fixed part of a second. A score is a number of units of
-- 2 ^ -1074, the least positive double: every finite double from 0 up is a whole number of them, and
-- comparing them is exact. Negative scores and NaN, which no detector returns, are not modelled.
-- `_task_queue` is never used and has no field.
mod Calls
mod Effects
mod Pool
mod Lock
mod Stale
mod Keeps
mod Lifted
mod Suspects
mod Dispatch
mod Quarantine
mod Tests
use secure_orchestration_mes.Prelude.{
  ℕ, String, ◌+◌, ◌-◌, ◌*◌, ◌^◌, Bool, true, false, ◌&&◌, ◌||◌, not, Option, none, some, List, [],
  ◌∷◌, str_eq, ltb, leb, if◌then◌else◌, contains,
}
use secure_orchestration_mes.Prelude.Int.{ℤ, pos, ◌-ℤ◌, ltb_ℤ}
use secure_orchestration_mes.Dict.{Dict, get, put, pop, values, count}
use secure_orchestration_mes.Messages.{
  AgentStatus, status_unspecified, status_idle, status_busy, status_error, status_quarantined,
  status_offline, status_unknown, AgentRegistrationRequest,
}

pub data AgentState : Type 0 where
  registering idle busy quarantined offline : AgentState

pub record AgentRecord : Type 0 where
  pub agent_id : String
  pub label : String
  pub capabilities : List String
  pub state : AgentState
  pub sdk_version : String
  pub current_task_id : Option String
  pub registered_at : ℕ
  pub last_heartbeat : ℕ
  pub tasks_completed : ℕ
  pub tasks_failed : ℕ
  pub anomaly_score : ℕ
  pub suspicion_count : ℕ
  pub session_id : String

-- The object: `_agents`, whether `_lock` is held, and HEARTBEAT_TIMEOUT_SECONDS, which main.py
-- overwrites from the configuration.
pub record TaskScheduler : Type 0 where
  pub agents : Dict AgentRecord
  pub locked : Bool
  pub heartbeat_timeout : ℕ

-- `__init__`
unfoldable pub init : ℕ → TaskScheduler
init timeout = record { agents = []; locked = false; heartbeat_timeout = timeout }

-- How a call of a coroutine ends: it returns, or it waits for a lock that nothing releases.
pub data Outcome (A : Type 0) : Type 0 where
  returned : A → Outcome A
  waiting : Outcome A

abbrev pub Method : Type 0 → Type 0
Method A = TaskScheduler → Outcome A × TaskScheduler

abbrev release : {A : Type 0} → Outcome A × TaskScheduler → Outcome A × TaskScheduler
release (returned a, s) = (returned a, record s { locked = false })
release (waiting, s) = (waiting, s)

-- `async with self._lock:`. An asyncio.Lock is not reentrant: who asks for it while it is held
-- waits, its holder too. No body awaits anything but `quarantine`, so between two calls the lock is
-- held only by a call that waits.
abbrev pub with_lock : {A : Type 0} → Method A → Method A
with_lock body s = if s.locked then (waiting, s) else release (body (record s { locked = true }))

-- `agent = self._agents.get(agent_id)`, and an early return of `missing` if there is none.
abbrev with_agent : {A : Type 0} → String → A → (AgentRecord → Method A) → Method A
with_agent agent_id missing body s = elim (get s.agents agent_id) [
  | none ↦ (returned missing, s)
  | some agent ↦ body agent s
]

-- A change of the record that the dictionary holds under the key.
abbrev store : String → AgentRecord → TaskScheduler → TaskScheduler
store agent_id agent s = record s { agents = put s.agents agent_id agent }

unfoldable pub register : ℕ → AgentRegistrationRequest → Method AgentRecord
register now request = with_lock λ s.
    let agent : AgentRecord = record {
      agent_id = request.agent_id;
      label = request.agent_label;
      capabilities = request.capabilities;
      state = idle;
      sdk_version = request.sdk_version;
      current_task_id = none;
      registered_at = now;
      last_heartbeat = now;
      tasks_completed = 0;
      tasks_failed = 0;
      anomaly_score = 0;
      suspicion_count = 0;
      session_id = "";
    } in
    (returned agent, store request.agent_id agent s)

unfoldable pub unregister : String → Method Unit
unregister agent_id = with_lock λ s. (returned tt, record s { agents = pop s.agents agent_id })

-- `status_map.get(status, AgentState.OFFLINE)`
unfoldable pub status_map : AgentStatus → AgentState
status_map status_idle = idle
status_map status_busy = busy
status_map status_error = idle
status_map status_quarantined = quarantined
status_map status_offline = offline
status_map status_unspecified = offline
status_map (status_unknown _) = offline

unfoldable pub heartbeat : ℕ → String → AgentStatus → Method Unit
unfolding status_map
heartbeat now agent_id status = with_lock (
    with_agent agent_id tt λ agent s. (
      returned tt,
      store agent_id (record agent { last_heartbeat = now; state = status_map status }) s,
    ))

unfoldable pub state_eq : AgentState → AgentState → Bool
state_eq registering registering = true
state_eq idle idle = true
state_eq busy busy = true
state_eq quarantined quarantined = true
state_eq offline offline = true
state_eq _ _ = false

-- The body of the loop of `mark_offline_stale`.
unfoldable pub mark_stale : ℕ → ℕ → AgentRecord → AgentRecord
unfolding state_eq
mark_stale now timeout agent =
    if ltb timeout (now - agent.last_heartbeat)
    then if state_eq agent.state offline || state_eq agent.state quarantined
      then agent
      else record agent { state = offline }
    else agent

unfoldable pub mark_all_stale : ℕ → ℕ → Dict AgentRecord → Dict AgentRecord
mark_all_stale now timeout [] = []
mark_all_stale now timeout ((agent_id, agent) ∷ agents) =
    (agent_id, mark_stale now timeout agent) ∷ mark_all_stale now timeout agents

unfoldable pub mark_offline_stale : ℕ → Method Unit
unfolding mark_all_stale mark_stale
mark_offline_stale now =
    with_lock
      λ s. (returned tt, record s { agents = mark_all_stale now s.heartbeat_timeout s.agents })

-- The condition of the comprehension that collects the candidates.
unfoldable pub is_candidate : String → AgentRecord → Bool
unfolding state_eq
is_candidate task_type a = state_eq a.state idle && contains task_type a.capabilities

-- The key of the minimum: `a.tasks_completed - a.tasks_failed`, which may be negative.
unfoldable pub load : AgentRecord → ℤ
unfolding ◌-ℤ◌
load a = pos a.tasks_completed -ℤ pos a.tasks_failed

-- `min(candidates, key=…)`: the first of the candidates with the least key. `best` is the least so
-- far.
select : String → Option AgentRecord → List AgentRecord → Option AgentRecord
unfolding is_candidate load
select task_type best [] = best
select task_type none (a ∷ pool) =
    select task_type (if is_candidate task_type a then some a else none) pool
select task_type (some b) (a ∷ pool) =
    select task_type
      (if is_candidate task_type a && ltb_ℤ (load a) (load b) then some a else some b) pool

unfoldable pub dispatch : String → Method (Option AgentRecord)
unfolding select
dispatch task_type = with_lock λ s. elim (select task_type none (values s.agents)) [
  | none ↦ (returned none, s)
  | some candidate ↦
      let chosen = record candidate { state = busy } in
      (returned (some chosen), store candidate.agent_id chosen s)
]

unfoldable pub complete_task : String → Bool → Method Unit
complete_task agent_id success = with_lock (
    with_agent agent_id tt λ agent s. (
      returned tt,
      store agent_id
          (if success
            then record agent {
              tasks_completed = agent.tasks_completed + 1;
              state = idle;
              current_task_id = none;
            }
            else record agent {
              tasks_failed = agent.tasks_failed + 1;
              state = idle;
              current_task_id = none;
            })
          s,
    ))

unfoldable pub quarantine : String → Method Bool
quarantine agent_id = with_lock (
    with_agent agent_id false λ agent s. (
      returned true,
      store agent_id (record agent { state = quarantined; current_task_id = none }) s,
    ))

abbrev pub quarantine_suspicion_threshold : ℕ
quarantine_suspicion_threshold = 2

-- The double 0.65, which is 5854679515581645 / 2 ^ 53.
unfoldable pub high_score : ℕ
high_score = 5854679515581645 * 2 ^ 1021

discard : {A : Type 0} → Outcome A × TaskScheduler → Outcome Unit × TaskScheduler
discard (returned a, s) = (returned tt, s)
discard (waiting, s) = (waiting, s)

-- The call of `quarantine` is made with the lock held.
unfoldable pub update_anomaly_score : String → ℕ → Method Unit
unfolding quarantine discard
update_anomaly_score agent_id score = with_lock (
    with_agent agent_id tt λ agent s.
      if ltb high_score score
      then (let count = agent.suspicion_count + 1 in
          let s' =
            store agent_id (record agent { anomaly_score = score; suspicion_count = count }) s in
          if leb quarantine_suspicion_threshold count
          then discard (quarantine agent_id s')
          else (returned tt, s'))
      else (
        returned tt,
        store agent_id
            (record agent { anomaly_score = score; suspicion_count = agent.suspicion_count - 1 }) s,
      ))

unfoldable pub get_agent : TaskScheduler → String → Option AgentRecord
get_agent s agent_id = get s.agents agent_id

unfoldable pub get_all_agents : TaskScheduler → List AgentRecord
get_all_agents s = values s.agents

unfoldable pub get_idle_count : TaskScheduler → ℕ
unfolding state_eq
get_idle_count s = count (λ a. state_eq a.state idle) (values s.agents)

unfoldable pub get_busy_count : TaskScheduler → ℕ
unfolding state_eq
get_busy_count s = count (λ a. state_eq a.state busy) (values s.agents)
