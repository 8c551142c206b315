-- ===== src/Scheduler/Suspects.antt =====
-- Which agents of the pool have collected suspicions.
use secure_orchestration_mes.Prelude.{
  ℕ, String, ◌≤◌, ◌≡◌, refl, ap, sym, subst, ◌∙◌, Bool, true, false, some, List, [], ◌∷◌, arith,
  inl, inr, Bool-cases, ltb, leb, ◌&&◌, str_eq, eq_refl, if◌then◌else◌,
}
use secure_orchestration_mes.Dict.{
  Dict, get, AllEntries, put-AllEntries, get-AllEntries, AllEntries-imp, get-put_self,
}
use secure_orchestration_mes.Scheduler.{
  AgentRecord, TaskScheduler, Outcome, returned, high_score, heartbeat, complete_task, quarantine,
  update_anomaly_score,
}
use secure_orchestration_mes.Scheduler.Calls.{
  Call, call_register, call_unregister, call_heartbeat, call_mark_offline_stale, call_dispatch,
  call_complete_task, call_quarantine, call_update_anomaly_score, perform, perform_locked, run,
}
use secure_orchestration_mes.Scheduler.Effects.{
  Looks, written, beaten, credited, jailed, scored, score_effect, register_effect,
  unregister_effect, heartbeat_effect, complete_task_effect, quarantine_effect,
  update_anomaly_score_effect,
}
use secure_orchestration_mes.Scheduler.Stale.{mark_offline_stale_effect}
use secure_orchestration_mes.Scheduler.Dispatch.{dispatch_lem}
use secure_orchestration_mes.Scheduler.Pool.{IsWellFormed}
use secure_orchestration_mes.Scheduler.Keeps.{perform_free-IsWellFormed}

-- While the lock is free no agent has more than one suspicion. While it is held, the agent of the
-- waiting call has two, and no other agent has more than one.
abbrev pub Suspects : Bool → Dict AgentRecord → Type 0
Suspects false d = AllEntries (λ j a. a.suspicion_count ≤ 1) d
Suspects true d =
    (k : String) × (a : AgentRecord) × (get d k ≡ some a)
    × (a.suspicion_count ≡ 2)
    × AllEntries (λ j b. b.suspicion_count ≤ (if str_eq k j then 2 else 1)) d

abbrev pub HasSuspects : TaskScheduler → Type 0
HasSuspects s = Suspects s.locked s.agents

unlocked-HasSuspects : (s : TaskScheduler) → s.locked ≡ false → IsWellFormed s → HasSuspects s
unlocked-HasSuspects s free well = rw free (rw free at well.suspicions)

Looks-unlocked :
    {A : Type 0} (k : String) (s : TaskScheduler) (missing : A) (answer : A)
    (f : AgentRecord → AgentRecord) (r : Outcome A × TaskScheduler)
    → s.locked ≡ false
    → Looks k s missing (λ a. (returned answer, written k (f a) s)) r
    → r.1.locked ≡ false
Looks-unlocked k s missing answer f r free (inl (absent, e)) = rw e free
Looks-unlocked k s missing answer f r free (inr (a, found, e)) = rw e refl

-- A second suspicion stops the call with the lock held.
scored-HasSuspects :
    (s : TaskScheduler) (k : String) (a : AgentRecord) (score : ℕ)
    → AllEntries (λ j b. b.suspicion_count ≤ 1) s.agents
    → a.suspicion_count ≤ 1
    → HasSuspects (score_effect k s score a).1
scored-HasSuspects s k a score few one =
    elim (Bool-cases (ltb high_score score && leb 1 a.suspicion_count)) [
      | inl second ↦ rw second (
        k,
        scored score a,
        get-put_self s.agents k (scored score a),
        ground (arith, second, one),
        put-AllEntries (λ j b. b.suspicion_count ≤ (if str_eq k j then 2 else 1)) s.agents k
            (scored score a) (AllEntries-imp (λ j b below. ground (arith, below)) s.agents few)
            (rw (eq_refl k) (ground (arith, one))),
      )
      | inr first ↦ rw first (
          put-AllEntries (λ j b. b.suspicion_count ≤ 1) s.agents k (scored score a) few
            (ground (arith, first, one)))
    ]

module _ (s : TaskScheduler) (free : s.locked ≡ false) (well : IsWellFormed s) where
  Looks-score :
      (k : String) (score : ℕ) (r : Outcome Unit × TaskScheduler)
      → Looks k s tt (score_effect k s score) r
      → HasSuspects r.1
  Looks-score k score r (inl (absent, e)) = rw e (unlocked-HasSuspects s free well)
  Looks-score k score r (inr (a, found, e)) =
      let few : AllEntries (λ j b. b.suspicion_count ≤ 1) s.agents = rw free at well.suspicions in
      rw e (
        scored-HasSuspects s k a score few
          (get-AllEntries (λ j b. b.suspicion_count ≤ 1) s.agents k a few found))

  -- Every call but `update_anomaly_score` leaves the lock free.
  perform_free-HasSuspects : (c : Call) → HasSuspects (perform c s)
  unfolding perform
  perform_free-HasSuspects (call_update_anomaly_score k score) =
      Looks-score k score (update_anomaly_score k score s)
        (update_anomaly_score_effect k s free score)
  perform_free-HasSuspects (call_register now request) =
      unlocked-HasSuspects (perform (call_register now request) s)
        (ap (λ r. r.1.locked) (register_effect s free now request))
        (perform_free-IsWellFormed s free well (call_register now request))
  perform_free-HasSuspects (call_unregister k) =
      unlocked-HasSuspects (perform (call_unregister k) s)
        (ap (λ r. r.1.locked) (unregister_effect s free k))
        (perform_free-IsWellFormed s free well (call_unregister k))
  perform_free-HasSuspects (call_heartbeat now k status) =
      unlocked-HasSuspects (perform (call_heartbeat now k status) s)
        (Looks-unlocked k s tt tt (beaten now status) (heartbeat now k status s) free
          (heartbeat_effect k s free now status))
        (perform_free-IsWellFormed s free well (call_heartbeat now k status))
  perform_free-HasSuspects (call_mark_offline_stale now) =
      unlocked-HasSuspects (perform (call_mark_offline_stale now) s)
        (ap (λ r. r.1.locked) (mark_offline_stale_effect now s free))
        (perform_free-IsWellFormed s free well (call_mark_offline_stale now))
  perform_free-HasSuspects (call_dispatch task_type) =
      unlocked-HasSuspects (perform (call_dispatch task_type) s)
        (elim (dispatch_lem task_type s free well) [
          | inl (absent, e) ↦ ap (λ r. r.1.locked) e ∙ free
          | inr (c, found, best, e) ↦ ap (λ r. r.1.locked) e ∙ free
        ])
        (perform_free-IsWellFormed s free well (call_dispatch task_type))
  perform_free-HasSuspects (call_complete_task k success) =
      unlocked-HasSuspects (perform (call_complete_task k success) s)
        (Looks-unlocked k s tt tt (credited success) (complete_task k success s) free
          (complete_task_effect k s free success))
        (perform_free-IsWellFormed s free well (call_complete_task k success))
  perform_free-HasSuspects (call_quarantine k) =
      unlocked-HasSuspects (perform (call_quarantine k) s)
        (Looks-unlocked k s false true jailed (quarantine k s) free (quarantine_effect k s free))
        (perform_free-IsWellFormed s free well (call_quarantine k))

-- A pool that is well formed stays so over any calls, each agent standing once and under its id, and
-- so does this of its suspicions: while the lock is free no agent has more than one; while it is
-- held, by a call that waits for it, one agent has two, and no other agent has more than one.
pub run-HasSuspects :
    (calls : List Call) (s : TaskScheduler)
    → IsWellFormed s
    → HasSuspects s
    → IsWellFormed (run calls s) × HasSuspects (run calls s)
unfolding run
run-HasSuspects [] s well few = (well, few)
run-HasSuspects (c ∷ calls) s well few = elim (Bool-cases s.locked) [
  | inl held ↦
      subst (λ t. IsWellFormed (run calls t) × HasSuspects (run calls t))
        (sym (perform_locked c s held)) (run-HasSuspects calls s well few)
  | inr free ↦
      run-HasSuspects calls (perform c s) (perform_free-IsWellFormed s free well c)
        (perform_free-HasSuspects s free well c)
]
