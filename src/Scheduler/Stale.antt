-- ===== src/Scheduler/Stale.antt =====
-- `mark_offline_stale`, agent by agent.
use secure_orchestration_mes.Prelude.{
  ℕ, String, ◌+◌, ltb, if◌then◌else◌, ◌&&◌, not, Option-cases, ◌≡◌, refl, false, [], ◌∷◌, arith,
  inl, inr,
}
use mathlib.Core.Option
use secure_orchestration_mes.Dict.{Dict, get}
use secure_orchestration_mes.Scheduler.{
  AgentRecord, offline, quarantined, TaskScheduler, returned, mark_stale, mark_all_stale,
  mark_offline_stale, state_eq,
}

pub get-mark_all_stale :
    (now timeout : ℕ) (agents : Dict AgentRecord) (k : String)
    → get (mark_all_stale now timeout agents) k ≡ Option.map (mark_stale now timeout) (get agents k)
unfolding get mark_all_stale
get-mark_all_stale now timeout [] k = refl
get-mark_all_stale now timeout ((j, a) ∷ agents) k =
    ground (arith, get-mark_all_stale now timeout agents k)

-- An agent as the check at a time leaves it.
abbrev pub checked : ℕ → ℕ → AgentRecord → AgentRecord
checked now timeout a = record a {
  state =
      if ltb (a.last_heartbeat + timeout) now && not (state_eq a.state quarantined)
      then offline
      else a.state;
}

-- With the lock free, after `mark_offline_stale` the pool holds for each id the agent that it held,
-- unchanged but for the state: OFFLINE if the last heartbeat is longer ago than the timeout and the
-- agent was not quarantined, else what it was. It holds no other ids.
pub get-mark_offline_stale :
    (now : ℕ) (s : TaskScheduler) (k : String)
    → s.locked ≡ false
    → get (mark_offline_stale now s).1.agents k
      ≡ Option.map (checked now s.heartbeat_timeout) (get s.agents k)
unfolding mark_offline_stale state_eq
get-mark_offline_stale now s k free = elim (Option-cases (get s.agents k)) [
  | inl missing ↦ ground (arith, get-mark_all_stale now s.heartbeat_timeout s.agents k)
  | inr (a, found) ↦ ground (arith, get-mark_all_stale now s.heartbeat_timeout s.agents k)
]

pub mark_offline_stale_effect :
    (now : ℕ) (s : TaskScheduler)
    → s.locked ≡ false
    → mark_offline_stale now s ≡ (
      returned tt,
      record s { agents = mark_all_stale now s.heartbeat_timeout s.agents; locked = false },
    )
unfolding mark_offline_stale
mark_offline_stale_effect now s free = ground arith
