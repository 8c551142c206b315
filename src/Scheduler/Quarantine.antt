-- ===== src/Scheduler/Quarantine.antt =====
-- How long a quarantine lasts.
use secure_orchestration_mes.Prelude.{
  ℕ, String, ◌≡◌, ◌≢◌, refl, Bool, true, false, some, List, [], ◌∷◌, arith, All, inl, inr,
  Bool-cases, ltb, leb, ◌&&◌, eq_iff, str_eq,
}
use secure_orchestration_mes.Dict.{get, put, get-put, get-pop}
use secure_orchestration_mes.Scheduler.{
  AgentRecord, quarantined, TaskScheduler, Outcome, state_eq, heartbeat, complete_task, quarantine,
  update_anomaly_score, is_candidate, high_score,
}
use secure_orchestration_mes.Scheduler.Calls.{
  Call, call_register, call_unregister, call_heartbeat, call_mark_offline_stale, call_dispatch,
  call_complete_task, call_quarantine, call_update_anomaly_score, perform, perform_locked, run,
}
use secure_orchestration_mes.Scheduler.Effects.{
  Looks, beaten, credited, jailed, scored, score_effect, register_effect, unregister_effect,
  newcomer, heartbeat_effect, complete_task_effect, quarantine_effect, update_anomaly_score_effect,
}
use secure_orchestration_mes.Scheduler.Stale.{get-mark_offline_stale, checked}
use secure_orchestration_mes.Scheduler.Dispatch.{dispatch_lem, assigned}
use secure_orchestration_mes.Scheduler.Pool.{IsWellFormed}
use secure_orchestration_mes.Scheduler.Keeps.{perform_free-IsWellFormed}

-- The calls that write the state of agent `k` whatever it was: they lift a quarantine.
abbrev pub Lifts : String → Call → Type 0
Lifts k (call_register now request) = request.agent_id ≡ k
Lifts k (call_unregister j) = j ≡ k
Lifts k (call_heartbeat now j status) = j ≡ k
Lifts k (call_complete_task j success) = j ≡ k
Lifts k _ = ⊥

-- Agent `k` is in the pool and quarantined.
abbrev pub IsQuarantined : String → TaskScheduler → Type 0
IsQuarantined k s = (a : AgentRecord) × (get s.agents k ≡ some a) × (a.state ≡ quarantined)

-- A write to another agent, or one that leaves the state quarantined.
put-IsQuarantined :
    (k j : String) (s : TaskScheduler) (b : AgentRecord) (held : Bool)
    → IsQuarantined k s
    → (j ≡ k → b.state ≡ quarantined)
    → IsQuarantined k (record s { agents = put s.agents j b; locked = held })
put-IsQuarantined k j s b held (a, found, jail) keeps = elim (Bool-cases (str_eq j k)) [
  | inl same ↦ (b, rw (get-put, same), keeps ((eq_iff j k).0 same))
  | inr other ↦ (a, rw (get-put, other) found, jail)
]

-- A method on agent `j` that looks it up.
Looks-IsQuarantined :
    {A : Type 0} (k j : String) (s : TaskScheduler) (missing : A)
    (effect : AgentRecord → Outcome A × TaskScheduler) (r : Outcome A × TaskScheduler)
    → IsQuarantined k s
    → ((a : AgentRecord) → get s.agents j ≡ some a → IsQuarantined k (effect a).1)
    → Looks j s missing effect r
    → IsQuarantined k r.1
Looks-IsQuarantined k j s missing effect r q keep (inl (absent, e)) = rw e q
Looks-IsQuarantined k j s missing effect r q keep (inr (a, found, e)) = rw e (keep a found)

same-quarantined :
    (k j : String) (s : TaskScheduler) (a : AgentRecord)
    → IsQuarantined k s
    → get s.agents j ≡ some a
    → j ≡ k
    → a.state ≡ quarantined
same-quarantined k j s a (b, found, jail) e same = ground (arith, rw same at e)

checked_quarantined :
    (now timeout : ℕ) (a : AgentRecord)
    → a.state ≡ quarantined
    → (checked now timeout a).state ≡ quarantined
unfolding state_eq
checked_quarantined now timeout a jail = ground arith

not-candidate :
    (task_type : String) (c : AgentRecord) → c.state ≡ quarantined → is_candidate task_type c ≢ true
unfolding is_candidate
not-candidate task_type c jail = ground arith

score_effect-IsQuarantined :
    (k j : String) (s : TaskScheduler) (a : AgentRecord) (score : ℕ)
    → IsQuarantined k s
    → (j ≡ k → a.state ≡ quarantined)
    → IsQuarantined k (score_effect j s score a).1
score_effect-IsQuarantined k j s a score q keeps =
    elim (Bool-cases (ltb high_score score && leb 1 a.suspicion_count)) [
      | inl second ↦ rw second (put-IsQuarantined k j s (scored score a) true q keeps)
      | inr first ↦ rw first (put-IsQuarantined k j s (scored score a) false q keeps)
    ]

module _ (k : String) (s : TaskScheduler) (free : s.locked ≡ false) (well : IsWellFormed s)
    (q : IsQuarantined k s) where
  perform_free-IsQuarantined : (c : Call) → ¬ Lifts k c → IsQuarantined k (perform c s)
  unfolding perform
  perform_free-IsQuarantined (call_register now request) h =
      rw (perform, register_effect s free now request)
        (put-IsQuarantined k request.agent_id s (newcomer now request) false q (λ e. absurd (h e)))
  perform_free-IsQuarantined (call_unregister j) h =
      let (a, found, jail) = q in
      rw (perform, unregister_effect s free j)
        (a, ground (arith, get-pop s.agents j k, eq_iff j k), jail)
  perform_free-IsQuarantined (call_heartbeat now j status) h =
      Looks-IsQuarantined k j s tt _ (heartbeat now j status s) q
        (λ a _. put-IsQuarantined k j s (beaten now status a) false q (λ e. absurd (h e)))
        (heartbeat_effect j s free now status)
  perform_free-IsQuarantined (call_mark_offline_stale now) h =
      let (a, found, jail) = q in
      (
        checked now s.heartbeat_timeout a,
        rw (perform, get-mark_offline_stale now s k free, found),
        checked_quarantined now s.heartbeat_timeout a jail,
      )
  perform_free-IsQuarantined (call_dispatch task_type) h =
      elim (dispatch_lem task_type s free well) [
        | inl (absent, e) ↦ rw (perform, e) q
        | inr (c, found, best, e) ↦
            rw (perform, e)
              (put-IsQuarantined k c.agent_id s (assigned c) s.locked q (λ same. absurd (
                not-candidate task_type c (same-quarantined k c.agent_id s c q found same)
                  best.fits)))
      ]
  perform_free-IsQuarantined (call_complete_task j success) h =
      Looks-IsQuarantined k j s tt _ (complete_task j success s) q
        (λ a _. put-IsQuarantined k j s (credited success a) false q (λ e. absurd (h e)))
        (complete_task_effect j s free success)
  perform_free-IsQuarantined (call_quarantine j) h =
      Looks-IsQuarantined k j s false _ (quarantine j s) q
        (λ a _. put-IsQuarantined k j s (jailed a) false q (λ _. refl)) (quarantine_effect j s free)
  perform_free-IsQuarantined (call_update_anomaly_score j score) h =
      Looks-IsQuarantined k j s tt _ (update_anomaly_score j score s) q
        (λ a found. score_effect-IsQuarantined k j s a score q (same-quarantined k j s a q found))
        (update_anomaly_score_effect j s free score)

-- A quarantined agent stays quarantined over any calls among which no registration,
-- deregistration, heartbeat or completed task is its own: `dispatch` never hands it a task, and
-- neither the check for stale agents nor a new anomaly score changes its state.
pub run-IsQuarantined :
    (k : String) (calls : List Call) (s : TaskScheduler)
    → IsWellFormed s
    → IsQuarantined k s
    → All (λ c. ¬ Lifts k c) calls
    → IsQuarantined k (run calls s)
unfolding run
run-IsQuarantined k [] s well q h = q
run-IsQuarantined k (c ∷ calls) s well q h = elim (Bool-cases s.locked) [
  | inl held ↦ rw (run, perform_locked c s held) (run-IsQuarantined k calls s well q h.1)
  | inr free ↦
      run-IsQuarantined k calls (perform c s) (perform_free-IsWellFormed s free well c)
        (perform_free-IsQuarantined k s free well q c h.0) h.1
]
