-- ===== src/Scheduler/Dispatch.antt =====
-- `dispatch`: which agent it picks.
use secure_orchestration_mes.Prelude.{
  String, ◌+◌, ◌≡◌, refl, ◌⊎◌, inl, inr, true, false, ◌&&◌, Option, none, some, List, [], ◌∷◌,
  arith, All, any, Bool-cases, if◌then◌else◌, subst,
}
use secure_orchestration_mes.Prelude.Int.{◌≤ℤ◌, ltb_ℤ}
use secure_orchestration_mes.Dict.{get, put, values, count-put, get-values}
use mathlib.Core.Option.{some-injective, none-ne-some}
use secure_orchestration_mes.Scheduler.Pool.{IsWellFormed}
use secure_orchestration_mes.Scheduler.{
  AgentRecord, idle, busy, TaskScheduler, returned, state_eq, is_candidate, load, select, dispatch,
  get_idle_count, get_busy_count,
}

-- `c` is a candidate and no candidate of the pool has a lower load.
pub record IsBest (task_type : String) (pool : List AgentRecord) (c : AgentRecord) : Type 0 where
  pub fits : is_candidate task_type c ≡ true
  pub least : All (λ a. is_candidate task_type a ≡ true → load c ≤ℤ load a) pool

module _ (task_type : String) where
  -- What has been chosen is kept or improved.
  select-some :
      (pool : List AgentRecord) (b : AgentRecord)
      → is_candidate task_type b ≡ true
      → (c : AgentRecord) × (select task_type (some b) pool ≡ some c)
        × (load c ≤ℤ load b)
        × IsBest task_type pool c
  unfolding select
  select-some [] b h = (b, refl, omega arith, record { fits = h; least = tt })
  select-some (a ∷ pool) b h =
      elim (Bool-cases (is_candidate task_type a && ltb_ℤ (load a) (load b))) [
        | inl better ↦
            let (c, e, le, best) = select-some pool a (ground arith) in
            (
              c,
              rw better e,
              ground arith,
              record { fits = best.fits; least = (λ _. le, best.least) },
            )
        | inr kept ↦
            let (c, e, le, best) = select-some pool b h in
            (
              c,
              rw kept e,
              le,
              record { fits = best.fits; least = (λ fit. ground arith, best.least) },
            )
      ]

  select-none :
      (pool : List AgentRecord)
      → (any (is_candidate task_type) pool ≡ false) × (select task_type none pool ≡ none)
        ⊎ ((c : AgentRecord) × (select task_type none pool ≡ some c) × IsBest task_type pool c)
  unfolding select
  select-none [] = inl (refl, refl)
  select-none (a ∷ pool) = elim (Bool-cases (is_candidate task_type a)) [
    | inl fit ↦
        let (c, e, le, best) = select-some pool a fit in
        inr (c, rw fit e, record { fits = best.fits; least = (λ _. le, best.least) })
    | inr unfit ↦ elim (select-none pool) [
      | inl (absent, e) ↦ inl (rw unfit absent, rw unfit e)
      | inr (c, e, best) ↦
          inr (c, rw unfit e, record { fits = best.fits; least = (λ fit. cc, best.least) })
    ]
  ]

  -- What is chosen comes from the pool.
  select-All :
      (P : AgentRecord → Type 0) (pool : List AgentRecord) (best : Option AgentRecord)
      (c : AgentRecord)
      → All P pool
      → ((b : AgentRecord) → best ≡ some b → P b)
      → select task_type best pool ≡ some c
      → P c
  unfolding select
  select-All P [] best c h hb e = hb c e
  select-All P (a ∷ pool) none c h hb e =
      select-All P pool (if is_candidate task_type a then some a else none) c h.1
        (λ b eb. elim (Bool-cases (is_candidate task_type a)) [
          | inl fit ↦ subst P (some-injective a b (rw fit at eb)) h.0
          | inr unfit ↦ absurd (none-ne-some b (rw unfit at eb))
        ])
        e
  select-All P (a ∷ pool) (some b') c h hb e =
      select-All P pool
        (if is_candidate task_type a && ltb_ℤ (load a) (load b') then some a else some b') c h.1
        (λ b eb. elim (Bool-cases (is_candidate task_type a && ltb_ℤ (load a) (load b'))) [
          | inl better ↦ subst P (some-injective a b (rw better at eb)) h.0
          | inr kept ↦ hb b (rw kept at eb)
        ])
        e

-- The agent as `dispatch` leaves it.
abbrev pub assigned : AgentRecord → AgentRecord
assigned c = record c { state = busy }

-- With the lock free and the entries well formed, `dispatch` either returns None and changes
-- nothing, when no agent is idle and has the capability; or it picks an agent of the pool that is
-- idle and has the capability, of least `tasks_completed - tasks_failed` among those, returns it,
-- and stores it as BUSY, changing no other entry.
pub dispatch_lem :
    (task_type : String) (s : TaskScheduler)
    → s.locked ≡ false
    → IsWellFormed s
    → (any (is_candidate task_type) (values s.agents) ≡ false)
        × (dispatch task_type s ≡ (returned none, s))
      ⊎ ((c : AgentRecord) × (get s.agents c.agent_id ≡ some c)
          × IsBest task_type (values s.agents) c
          × (dispatch task_type s ≡ (
            returned (some (assigned c)),
            record s { agents = put s.agents c.agent_id (assigned c) },
          )))
unfolding dispatch
dispatch_lem task_type s free well = elim (select-none task_type (values s.agents)) [
  | inl (absent, e) ↦ inl (absent, ground arith)
  | inr (c, e, best) ↦ inr (
    c,
    select-All task_type (λ a. get s.agents a.agent_id ≡ some a) (values s.agents) none c
        (get-values (λ a. a.agent_id) s.agents well.keys well.distinct)
        (λ b eb. absurd (none-ne-some b eb)) e,
    best,
    ground arith,
  )
]

candidate-idle :
    (task_type : String) (c : AgentRecord) → is_candidate task_type c ≡ true → c.state ≡ idle
unfolding is_candidate
candidate-idle task_type c h = ground arith

-- A `dispatch` that returns an agent moves one agent from idle to busy: the idle count falls by one
-- and the busy count grows by one.
pub dispatch-counts :
    (task_type : String) (s : TaskScheduler) (chosen : AgentRecord)
    → s.locked ≡ false
    → IsWellFormed s
    → (dispatch task_type s).0 ≡ returned (some chosen)
    → (get_idle_count (dispatch task_type s).1 + 1 ≡ get_idle_count s)
      × (get_busy_count (dispatch task_type s).1 ≡ get_busy_count s + 1)
unfolding get_idle_count get_busy_count
dispatch-counts task_type s chosen free well e = elim (dispatch_lem task_type s free well) [
  | inl (absent, same) ↦ absurd (cc)
  | inr (c, found, best, same) ↦
      let was = candidate-idle task_type c best.fits in
      let idles = count-put (λ a. state_eq a.state idle) s.agents c.agent_id (assigned c) c found in
      let busies =
        count-put (λ a. state_eq a.state busy) s.agents c.agent_id (assigned c) c found in
      rw same (ground (arith, was, idles), ground (arith, was, busies))
]
