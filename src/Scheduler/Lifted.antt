-- ===== src/Scheduler/Lifted.antt =====
-- How a heartbeat or a finished task puts a quarantined agent back to work.
use secure_orchestration_mes.Prelude.{
  ℕ, String, ◌≡◌, refl, ap, sym, subst, ◌∙◌, Bool, true, false, some, none, [], ◌∷◌, arith, any,
  inl, inr, Bool-cases, contains, eq_iff, str_eq,
}
use mathlib.Core.Option.{some-injective}
use secure_orchestration_mes.Dict.{Dict, get, values, get-put, get-put_self}
use secure_orchestration_mes.Messages.{status_idle}
use secure_orchestration_mes.Scheduler.{
  AgentRecord, TaskScheduler, Outcome, returned, heartbeat, complete_task, quarantine, dispatch,
  is_candidate, state_eq, status_map,
}
use secure_orchestration_mes.Scheduler.Calls.{
  call_heartbeat, call_complete_task, call_quarantine, perform,
}
use secure_orchestration_mes.Scheduler.Effects.{
  Looks, beaten, credited, jailed, written, heartbeat_effect, complete_task_effect,
  quarantine_effect,
}
use secure_orchestration_mes.Scheduler.Dispatch.{dispatch_lem, assigned}
use secure_orchestration_mes.Scheduler.Pool.{IsWellFormed}
use secure_orchestration_mes.Scheduler.Keeps.{perform_free-IsWellFormed}

-- No agent of the pool but `k` is idle and has the capability.
abbrev pub IsOnly : String → String → TaskScheduler → Type 0
IsOnly k task_type s =
    (j : String) (b : AgentRecord)
    → get s.agents j ≡ some b
    → is_candidate task_type b ≡ true
    → j ≡ k

any-values :
    (p : AgentRecord → Bool) (d : Dict AgentRecord) (k : String) (a : AgentRecord)
    → get d k ≡ some a
    → p a ≡ true
    → any p (values d) ≡ true
unfolding get values
any-values p [] k a found h = absurd (cc)
any-values p ((j, b) ∷ d) k a found h = elim (Bool-cases (str_eq j k)) [
  | inl same ↦ let here = some-injective b a (rw same at found) in rw here (rw h refl)
  | inr other ↦ rw (any-values p d k a (rw other at found) h) (ground arith)
]

Looks-found :
    {A : Type 0} (k : String) (s : TaskScheduler) (missing : A)
    (effect : AgentRecord → Outcome A × TaskScheduler) (r : Outcome A × TaskScheduler)
    (a : AgentRecord)
    → Looks k s missing effect r
    → get s.agents k ≡ some a
    → r ≡ effect a
Looks-found k s missing effect r a (inl (absent, e)) found = absurd (cc)
Looks-found k s missing effect r a (inr (b, found', e)) found =
    e ∙ ap effect (some-injective b a (sym found' ∙ found))

written-IsOnly :
    (k task_type : String) (a : AgentRecord) (s : TaskScheduler)
    → IsOnly k task_type s
    → IsOnly k task_type (written k a s)
written-IsOnly k task_type a s only j b found fit = elim (Bool-cases (str_eq k j)) [
  | inl same ↦ sym ((eq_iff k j).0 same)
  | inr other ↦ only j b (sym (rw (get-put s.agents k j a, other)) ∙ found) fit
]

-- What `dispatch` does when only one agent can be a candidate.
module _ (k task_type : String) (s : TaskScheduler) (a : AgentRecord) (free : s.locked ≡ false)
    (well : IsWellFormed s) (only : IsOnly k task_type s) (found : get s.agents k ≡ some a) where
  dispatch_only :
      is_candidate task_type a ≡ true → (dispatch task_type s).0 ≡ returned (some (assigned a))
  dispatch_only fit = elim (dispatch_lem task_type s free well) [
    | inl (absent, e) ↦
        absurd (cc (any-values (is_candidate task_type) s.agents k a found fit, absent))
    | inr (c, there, best, e) ↦
        let name = only c.agent_id c there best.fits in
        let same = some-injective c a (sym there ∙ ap (get s.agents) name ∙ found) in
        ap (λ r. r.0) e ∙ ap (λ b. returned (some (assigned b))) same
  ]

  dispatch_nobody : is_candidate task_type a ≡ false → (dispatch task_type s).0 ≡ returned none
  dispatch_nobody unfit = elim (dispatch_lem task_type s free well) [
    | inl (absent, e) ↦ ap (λ r. r.0) e
    | inr (c, there, best, e) ↦
        let name = only c.agent_id c there best.fits in
        let same = some-injective c a (sym there ∙ ap (get s.agents) name ∙ found) in
        absurd (cc (best.fits, same, unfit))
  ]

module _ (k : String) (s : TaskScheduler) (a : AgentRecord) (free : s.locked ≡ false)
    (found : get s.agents k ≡ some a) where
  quarantine-written : (quarantine k s).1 ≡ written k (jailed a) s
  quarantine-written =
      ap (λ r. r.1) (Looks-found k s false _ (quarantine k s) a (quarantine_effect k s free) found)

  heartbeat-written :
      (now : ℕ) → (heartbeat now k status_idle s).1 ≡ written k (beaten now status_idle a) s
  heartbeat-written now =
      ap (λ r. r.1)
        (Looks-found k s tt _ (heartbeat now k status_idle s) a
          (heartbeat_effect k s free now status_idle) found)

  complete_task-written :
      (success : Bool) → (complete_task k success s).1 ≡ written k (credited success a) s
  complete_task-written success =
      ap (λ r. r.1)
        (Looks-found k s tt _ (complete_task k success s) a (complete_task_effect k s free success)
          found)

-- With the lock free, a pool whose agent `k` has the capability and in which no other agent is idle
-- with it: after `quarantine` of `k` there is nobody to dispatch to. After then one heartbeat of
-- `k` with the status IDLE, or one task of `k` marked as done, successfully or not, `dispatch` hands
-- the next task to `k` again, and `k` is BUSY.
pub dispatch-lifted :
    (k task_type : String) (s : TaskScheduler) (a : AgentRecord) (now : ℕ) (success : Bool)
    → s.locked ≡ false
    → IsWellFormed s
    → get s.agents k ≡ some a
    → contains task_type a.capabilities ≡ true
    → IsOnly k task_type s
    → ((dispatch task_type (quarantine k s).1).0 ≡ returned none)
      × ((dispatch task_type (heartbeat now k status_idle (quarantine k s).1).1).0
          ≡ returned (some (assigned (beaten now status_idle (jailed a)))))
      × ((dispatch task_type (complete_task k success (quarantine k s).1).1).0
          ≡ returned (some (assigned (credited success (jailed a)))))
unfolding perform is_candidate state_eq status_map
dispatch-lifted k task_type s a now success free well found can only =
    let jail = written k (jailed a) s in
    let there = get-put_self s.agents k (jailed a) in
    let jail_only = written-IsOnly k task_type (jailed a) s only in
    let put_in = quarantine-written k s a free found in
    let beat = heartbeat-written k jail (jailed a) refl there now in
    let done = complete_task-written k jail (jailed a) refl there success in
    let well_jail : IsWellFormed jail =
      subst IsWellFormed put_in (perform_free-IsWellFormed s free well (call_quarantine k)) in
    let well_beat : IsWellFormed (written k (beaten now status_idle (jailed a)) jail) =
      subst IsWellFormed beat
        (perform_free-IsWellFormed jail refl well_jail (call_heartbeat now k status_idle)) in
    let well_done : IsWellFormed (written k (credited success (jailed a)) jail) =
      subst IsWellFormed done
        (perform_free-IsWellFormed jail refl well_jail (call_complete_task k success)) in
    (
      rw put_in (dispatch_nobody k task_type jail (jailed a) refl well_jail jail_only there refl),
      rw (put_in, beat)
          (dispatch_only k task_type (written k (beaten now status_idle (jailed a)) jail)
            (beaten now status_idle (jailed a)) refl well_beat
            (written-IsOnly k task_type _ jail jail_only)
            (get-put_self jail.agents k (beaten now status_idle (jailed a))) can),
      rw (put_in, done)
          (dispatch_only k task_type (written k (credited success (jailed a)) jail)
            (credited success (jailed a)) refl well_done
            (written-IsOnly k task_type _ jail jail_only)
            (get-put_self jail.agents k (credited success (jailed a))) can),
    )
