-- ===== src/Scheduler/Tests.antt =====
-- Small pools, and what the program does on them.
use secure_orchestration_mes.Prelude.{
  ℕ, inl, inr, sym, subst, Bool-cases, eq_iff, str_eq, String, ◌+◌, ◌<◌, ◌≡◌, refl, ◌⊎◌, true,
  false, none, some, List, [], ◌∷◌, arith, any,
}
use mathlib.Core.Option.{some-injective, none-ne-some}
use secure_orchestration_mes.Dict.{get, put, values}
use secure_orchestration_mes.Messages.{AgentRegistrationRequest, status_idle}
use secure_orchestration_mes.Scheduler.{
  AgentRecord, AgentState, idle, busy, quarantined, offline, TaskScheduler, returned, waiting, init,
  register, heartbeat, mark_offline_stale, dispatch, complete_task, quarantine,
  update_anomaly_score, high_score, is_candidate, state_eq,
}
use secure_orchestration_mes.Scheduler.Calls.{
  call_dispatch, call_quarantine, call_update_anomaly_score, call_mark_offline_stale, run,
}
use secure_orchestration_mes.Scheduler.Effects.{newcomer, beaten, jailed, credited}
use secure_orchestration_mes.Scheduler.Pool.{IsWellFormed}
use secure_orchestration_mes.Scheduler.Suspects.{HasSuspects, run-HasSuspects}
use secure_orchestration_mes.Scheduler.Lifted.{IsOnly, dispatch-lifted}
use secure_orchestration_mes.Scheduler.Lock.{second_suspicion_blocks}
use secure_orchestration_mes.Scheduler.Dispatch.{dispatch_lem, IsBest, assigned}
use secure_orchestration_mes.Scheduler.Quarantine.{IsQuarantined, run-IsQuarantined}

abbrev request : String → List String → AgentRegistrationRequest
request name skills = record {
  agent_id = name;
  agent_label = name;
  capabilities = skills;
  sdk_version = "0.1.0";
  public_key = [];
}

abbrev agent : String → AgentState → ℕ → ℕ → AgentRecord
agent name state completed suspicions = record {
  agent_id = name;
  label = name;
  capabilities = "search" ∷ [];
  state = state;
  sdk_version = "0.1.0";
  current_task_id = none;
  registered_at = 0;
  last_heartbeat = 0;
  tasks_completed = completed;
  tasks_failed = 0;
  anomaly_score = 0;
  suspicion_count = suspicions;
  session_id = "";
}

-- Two idle agents, the second with the lower load and a suspicion, and a quarantined one.
abbrev pool : TaskScheduler
pool = record {
  agents =
      ("a", agent "a" idle 2 0) ∷ ("b", agent "b" idle 1 1) ∷ ("c", agent "c" quarantined 0 0) ∷ [];
  locked = false;
  heartbeat_timeout = 15;
}

pool-IsWellFormed : IsWellFormed pool
unfolding get
pool-IsWellFormed = record {
  keys = (refl, (refl, (refl, tt)));
  distinct = (refl, (refl, (refl, tt)));
  suspicions = omega arith;
}

dispatch_least : (dispatch "search" pool).0 ≡ returned (some (agent "b" busy 1 1))
unfolding dispatch get put values
dispatch_least = refl

register_then_dispatch :
    (dispatch "draw" (register 7 (request "d" ("draw" ∷ [])) (init 15)).1).0
    ≡ returned (some (record (newcomer 7 (request "d" ("draw" ∷ []))) { state = busy }))
unfolding dispatch register init get put values
register_then_dispatch = refl

dispatch_lem_example :
    (any (is_candidate "search") (values pool.agents) ≡ false)
      × (dispatch "search" pool ≡ (returned none, pool))
    ⊎ ((c : AgentRecord) × (get pool.agents c.agent_id ≡ some c)
        × IsBest "search" (values pool.agents) c
        × (dispatch "search" pool ≡ (
          returned (some (assigned c)),
          record pool { agents = put pool.agents c.agent_id (assigned c) },
        )))
dispatch_lem_example = dispatch_lem "search" pool refl pool-IsWellFormed

found_b : get pool.agents "b" ≡ some (agent "b" idle 1 1)
unfolding get
found_b = refl

above : high_score < high_score + 1
above = omega arith

second_suspicion_blocks_example :
    ((update_anomaly_score "b" (high_score + 1) pool).0 ≡ waiting)
    × ((after : AgentRecord) × (get (update_anomaly_score "b" (high_score + 1) pool).1.agents "b"
          ≡ some after)
        × (after.state ≡ idle))
    × (run (call_quarantine "b" ∷ []) (update_anomaly_score "b" (high_score + 1) pool).1
        ≡ (update_anomaly_score "b" (high_score + 1) pool).1)
second_suspicion_blocks_example =
    second_suspicion_blocks "b" (high_score + 1) pool (agent "b" idle 1 1)
      (call_quarantine "b" ∷ []) refl found_b above (omega arith)

stale_state : get (mark_offline_stale 20 pool).1.agents "a" ≡ some (agent "a" offline 2 0)
unfolding mark_offline_stale get state_eq
stale_state = refl

run-HasSuspects_example :
    IsWellFormed (run (call_update_anomaly_score "b" (high_score + 1) ∷ []) pool)
    × HasSuspects (run (call_update_anomaly_score "b" (high_score + 1) ∷ []) pool)
run-HasSuspects_example =
    run-HasSuspects (call_update_anomaly_score "b" (high_score + 1) ∷ []) pool pool-IsWellFormed
      (omega arith)

found_c : get pool.agents "c" ≡ some (agent "c" quarantined 0 0)
unfolding get
found_c = refl

run-IsQuarantined_example :
    IsQuarantined "c" (run (call_dispatch "search" ∷ call_mark_offline_stale 20 ∷ []) pool)
run-IsQuarantined_example =
    run-IsQuarantined "c" (call_dispatch "search" ∷ call_mark_offline_stale 20 ∷ []) pool
      pool-IsWellFormed (agent "c" quarantined 0 0, found_c, refl) (λ h. h, (λ h. h, tt))

-- One agent that can search, and a busy one.
abbrev pair : TaskScheduler
pair = record {
  agents = ("b", agent "b" idle 1 0) ∷ ("d", agent "d" busy 0 0) ∷ [];
  locked = false;
  heartbeat_timeout = 15;
}

pair-IsWellFormed : IsWellFormed pair
unfolding get
pair-IsWellFormed = record {
  keys = (refl, (refl, tt));
  distinct = (refl, (refl, tt));
  suspicions = omega arith;
}

pair-IsOnly : IsOnly "b" "search" pair
unfolding get is_candidate state_eq
pair-IsOnly j b found fit = elim (Bool-cases (str_eq "b" j)) [
  | inl this ↦ sym ((eq_iff "b" j).0 this)
  | inr other ↦ elim (Bool-cases (str_eq "d" j)) [
    | inl that ↦
        let e = some-injective (agent "d" busy 0 0) b (rw (other, that) at found) in
        let unfit : false ≡ true = subst (λ x. is_candidate "search" x ≡ true) (sym e) fit in
        absurd (cc)
    | inr neither ↦ absurd (none-ne-some b (rw (other, neither) at found))
  ]
]

dispatch-lifted_example :
    ((dispatch "search" (quarantine "b" pair).1).0 ≡ returned none)
    × ((dispatch "search" (heartbeat 5 "b" status_idle (quarantine "b" pair).1).1).0
        ≡ returned (some (assigned (beaten 5 status_idle (jailed (agent "b" idle 1 0))))))
    × ((dispatch "search" (complete_task "b" true (quarantine "b" pair).1).1).0
        ≡ returned (some (assigned (credited true (jailed (agent "b" idle 1 0))))))
unfolding get
dispatch-lifted_example =
    dispatch-lifted "b" "search" pair (agent "b" idle 1 0) 5 true refl pair-IsWellFormed refl refl
      pair-IsOnly
