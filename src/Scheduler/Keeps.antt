-- ===== src/Scheduler/Keeps.antt =====
-- Every call keeps the pool well formed.
use secure_orchestration_mes.Prelude.{
  ℕ, String, ◌≤◌, ◌≡◌, refl, true, false, [], ◌∷◌, arith, inl, inr, Bool-cases, ltb, leb, ◌&&◌,
}
use secure_orchestration_mes.Dict.{
  Dict, put, AllEntries, IsDistinct, put-AllEntries, pop-AllEntries, get-AllEntries, AllEntries-imp,
  put-IsDistinct, pop-IsDistinct,
}
use secure_orchestration_mes.Scheduler.{
  AgentRecord, TaskScheduler, Outcome, high_score, heartbeat, mark_all_stale, mark_stale,
  complete_task, quarantine, update_anomaly_score,
}
use secure_orchestration_mes.Scheduler.Calls.{
  Call, call_register, call_unregister, call_heartbeat, call_mark_offline_stale, call_dispatch,
  call_complete_task, call_quarantine, call_update_anomaly_score, perform,
}
use secure_orchestration_mes.Scheduler.Effects.{
  Looks, beaten, credited, jailed, scored, score_effect, written-free, register_effect,
  unregister_effect, heartbeat_effect, complete_task_effect, quarantine_effect,
  update_anomaly_score_effect,
}
use secure_orchestration_mes.Scheduler.Stale.{get-mark_all_stale, mark_offline_stale_effect}
use secure_orchestration_mes.Scheduler.Dispatch.{dispatch_lem, assigned}
use secure_orchestration_mes.Scheduler.Pool.{IsWellFormed, suspicion_limit}

abbrev pub IsNamed : String → AgentRecord → Type 0
IsNamed k a = k ≡ a.agent_id

abbrev Below : ℕ → String → AgentRecord → Type 0
Below n k a = a.suspicion_count ≤ n

-- Storing an agent under its id, with few suspicions, while the lock is free.
store-IsWellFormed :
    (s : TaskScheduler) (k : String) (a : AgentRecord)
    → s.locked ≡ false
    → IsWellFormed s
    → k ≡ a.agent_id
    → a.suspicion_count ≤ 1
    → IsWellFormed (record s { agents = put s.agents k a; locked = false })
store-IsWellFormed s k a free well named few = record {
  keys = put-AllEntries IsNamed s.agents k a well.keys named;
  distinct = put-IsDistinct s.agents k a well.distinct;
  suspicions = put-AllEntries (Below 1) s.agents k a (rw free at well.suspicions) few;
}

-- A method that looks up an agent and writes it under its id, with few suspicions.
Looks-IsWellFormed :
    {A : Type 0} (k : String) (s : TaskScheduler) (missing : A)
    (effect : AgentRecord → Outcome A × TaskScheduler) (r : Outcome A × TaskScheduler)
    → IsWellFormed s
    → ((a : AgentRecord)
        → k ≡ a.agent_id
        → a.suspicion_count ≤ suspicion_limit s.locked
        → IsWellFormed (effect a).1)
    → Looks k s missing effect r
    → IsWellFormed r.1
Looks-IsWellFormed k s missing effect r well keep (inl (absent, e)) = rw e well
Looks-IsWellFormed k s missing effect r well keep (inr (a, found, e)) = rw e (
    keep a (get-AllEntries IsNamed s.agents k a well.keys found)
      (get-AllEntries (Below (suspicion_limit s.locked)) s.agents k a well.suspicions found))

-- A waiting call has stored one suspicion more.
stuck-IsWellFormed :
    (s : TaskScheduler) (k : String) (a : AgentRecord)
    → s.locked ≡ false
    → IsWellFormed s
    → k ≡ a.agent_id
    → a.suspicion_count ≤ 2
    → IsWellFormed (record s { agents = put s.agents k a; locked = true })
stuck-IsWellFormed s k a free well named few = record {
  keys = put-AllEntries IsNamed s.agents k a well.keys named;
  distinct = put-IsDistinct s.agents k a well.distinct;
  suspicions =
      put-AllEntries (Below 2) s.agents k a
        (AllEntries-imp (λ j b below. omega arith) s.agents (rw free at well.suspicions)) few;
}

scored-IsWellFormed :
    (s : TaskScheduler) (k : String) (a : AgentRecord) (score : ℕ)
    → s.locked ≡ false
    → IsWellFormed s
    → k ≡ a.agent_id
    → a.suspicion_count ≤ 1
    → IsWellFormed (score_effect k s score a).1
scored-IsWellFormed s k a score free well named few =
    elim (Bool-cases (ltb high_score score && leb 1 a.suspicion_count)) [
      | inl second ↦
          rw second (stuck-IsWellFormed s k (scored score a) free well named (ground arith))
      | inr first ↦
          rw first (store-IsWellFormed s k (scored score a) free well named (ground arith))
    ]

module _ (P : String → AgentRecord → Type 0) (now timeout : ℕ)
    (keep : (k : String) (a : AgentRecord) → P k a → P k (mark_stale now timeout a)) where
  mark_all_stale-AllEntries :
      (d : Dict AgentRecord) → AllEntries P d → AllEntries P (mark_all_stale now timeout d)
  unfolding mark_all_stale
  mark_all_stale-AllEntries [] h = tt
  mark_all_stale-AllEntries ((j, a) ∷ d) h = (keep j a h.0, mark_all_stale-AllEntries d h.1)

mark_all_stale-IsDistinct :
    (now timeout : ℕ) (d : Dict AgentRecord)
    → IsDistinct d
    → IsDistinct (mark_all_stale now timeout d)
unfolding mark_all_stale
mark_all_stale-IsDistinct now timeout [] h = tt
mark_all_stale-IsDistinct now timeout ((j, a) ∷ d) h = (
  ground (arith, get-mark_all_stale now timeout d j, h.0),
  mark_all_stale-IsDistinct now timeout d h.1,
)

mark_stale-keeps :
    (now timeout : ℕ) (a : AgentRecord)
    → ((mark_stale now timeout a).agent_id ≡ a.agent_id)
      × ((mark_stale now timeout a).suspicion_count ≡ a.suspicion_count)
unfolding mark_stale
mark_stale-keeps now timeout a = (ground arith, ground arith)

module _ (s : TaskScheduler) (free : s.locked ≡ false) (well : IsWellFormed s) where
  pub perform_free-IsWellFormed : (c : Call) → IsWellFormed (perform c s)
  unfolding perform
  perform_free-IsWellFormed (call_register now request) =
      rw (perform, register_effect s free now request)
        (store-IsWellFormed s request.agent_id _ free well refl (omega arith))
  perform_free-IsWellFormed (call_unregister k) =
      rw (perform, unregister_effect s free k)
        (record {
          keys = pop-AllEntries IsNamed s.agents k well.keys;
          distinct = pop-IsDistinct s.agents k well.distinct;
          suspicions = pop-AllEntries (Below 1) s.agents k (rw free at well.suspicions);
        })
  perform_free-IsWellFormed (call_heartbeat now k status) =
      Looks-IsWellFormed k s tt _ (heartbeat now k status s) well
        (λ a named few.
          store-IsWellFormed s k (beaten now status a) free well named (rw free at few))
        (heartbeat_effect k s free now status)
  perform_free-IsWellFormed (call_mark_offline_stale now) =
      rw (perform, mark_offline_stale_effect now s free)
        (record {
          keys =
              mark_all_stale-AllEntries IsNamed now s.heartbeat_timeout
                (λ j a e. cc (mark_stale-keeps now s.heartbeat_timeout a).0) s.agents well.keys;
          distinct = mark_all_stale-IsDistinct now s.heartbeat_timeout s.agents well.distinct;
          suspicions =
              mark_all_stale-AllEntries (Below 1) now s.heartbeat_timeout
                (λ j a e. omega (arith, (mark_stale-keeps now s.heartbeat_timeout a).1)) s.agents
                (rw free at well.suspicions);
        })
  perform_free-IsWellFormed (call_dispatch task_type) = elim (dispatch_lem task_type s free well) [
    | inl (absent, e) ↦ rw (perform, e) well
    | inr (c, found, best, e) ↦
        rw (perform, e, ← written-free c.agent_id (assigned c) s free)
          (store-IsWellFormed s c.agent_id (assigned c) free well refl
            (get-AllEntries (Below 1) s.agents c.agent_id c (rw free at well.suspicions) found))
  ]
  perform_free-IsWellFormed (call_complete_task k success) =
      Looks-IsWellFormed k s tt _ (complete_task k success s) well
        (λ a named few.
          store-IsWellFormed s k (credited success a) free well named (rw free at few))
        (complete_task_effect k s free success)
  perform_free-IsWellFormed (call_quarantine k) =
      Looks-IsWellFormed k s false _ (quarantine k s) well
        (λ a named few. store-IsWellFormed s k (jailed a) free well named (rw free at few))
        (quarantine_effect k s free)
  perform_free-IsWellFormed (call_update_anomaly_score k score) =
      Looks-IsWellFormed k s tt _ (update_anomaly_score k score s) well
        (λ a named few. scored-IsWellFormed s k a score free well named (rw free at few))
        (update_anomaly_score_effect k s free score)
