-- ===== src/Server/Stream.antt =====
-- What the handlers keep, and what TaskStream answers.
use secure_orchestration_mes.Prelude.{
  ℕ, String, ◌≡◌, ◌≢◌, refl, ◌∙◌, ap, inl, inr, Bool, true, false, Bool-cases, Option-cases, none,
  arith, sym, ◌/◌,
}
use secure_orchestration_mes.Messages.{Bytes, SignedPacket}
use secure_orchestration_mes.Crypto.{CryptoSession}
use secure_orchestration_mes.Tokens.{
  TokenIssuer, TokenPayload, accepted, rejected, second, get_session,
}
use secure_orchestration_mes.Tokens
use secure_orchestration_mes.Scheduler.{
  TaskScheduler, returned, get_agent, quarantined, state_eq, AgentRecord,
}
use secure_orchestration_mes.Scheduler
use secure_orchestration_mes.Dict.{get, get-put_self}
use secure_orchestration_mes.Guardrail.{Validation, result, raised, validate_inbound}
use secure_orchestration_mes.Guardrail.Validate.{is_pass, passing-IsClean}
use secure_orchestration_mes.Handlers.{
  Servicer, Environment, Reply, replied, continue, failed, blocked, reply, on_scheduler,
}
use secure_orchestration_mes.Server.{
  audit, after_validation, guard_packet, is_barred, task_step, issue_quarantine, quarantine_notice,
  outcome_text, error_packet,
}

accepted≢rejected : {token : TokenPayload} → accepted token ≢ rejected
accepted≢rejected e = cc

module _ (env : Environment) where
  continue-reply :
      {A : Type 0} (response : A) (r : Reply Unit) (s : Servicer)
      → (continue (λ u. reply response) (r, s)).1.scheduler ≡ s.scheduler
  unfolding continue
  continue-reply response (replied u) s = refl
  continue-reply response failed s = refl
  continue-reply response blocked s = refl

  audit-scheduler :
      (i : ℕ) (event_type agent_id task_id detail : String) (s : Servicer)
      → (audit env i event_type agent_id task_id detail s).1.scheduler ≡ s.scheduler
  unfolding audit
  audit-scheduler i event_type agent_id task_id detail s = elim (Option-cases s.audit_trail) [
    | inl off ↦ ground arith
    | inr (trail, on) ↦ ground arith
  ]

  after_validation-scheduler :
      (agent_id : String) (packet : SignedPacket) (session : CryptoSession) (v : Validation)
      (s : Servicer)
      → is_pass v ≡ false
      → (after_validation env agent_id packet session v s).1.scheduler ≡ s.scheduler
  unfolding after_validation
  after_validation-scheduler agent_id packet session raised s h = refl
  after_validation-scheduler agent_id packet session (result r) s h =
      let text = outcome_text r.outcome in
      let (outcome, s') = audit env 0 "GUARDRAIL_REJECTED" agent_id "" text s in
      rw h (
        continue-reply (error_packet text) outcome s'
        ∙ audit-scheduler 0 "GUARDRAIL_REJECTED" agent_id "" text s)

  module _ (unsigned : (key : Bytes) (now : ℕ) → env.jose.decode key now "" ≡ none) where
    rejected-empty : (issuer : TokenIssuer) → Tokens.verify env.jose env.now issuer "" ≡ rejected
    unfolding Tokens.verify
    rejected-empty issuer = rw (Tokens.verify, unsigned issuer.public_key (env.now / second)) refl

    guard_packet-scheduler :
        (agent_id : String) (packet : SignedPacket) (session : CryptoSession) (s : Servicer)
        → (guard_packet env agent_id packet session s).1.scheduler ≡ s.scheduler
    unfolding guard_packet
    guard_packet-scheduler agent_id packet session s =
        let (v, g) =
          validate_inbound (env.stamp 2).1 env.latency_us env.parse_task_result env.primitives
            env.jose env.now s.token_issuer s.guardrail packet session "" in
        after_validation-scheduler agent_id packet session v (record s { guardrail = g })
          (elim (Bool-cases (is_pass v)) [
            | inr no_pass ↦ no_pass
            | inl is_passed ↦
                let clean =
                  passing-IsClean (env.stamp 2).1 env.latency_us env.parse_task_result
                    env.primitives env.jose env.now s.token_issuer s.guardrail packet session ""
                    is_passed in
                absurd (accepted≢rejected (sym clean.signed ∙ rejected-empty s.token_issuer))
          ])

    -- Where the package takes the empty text for no token, no packet of TaskStream has an effect on
    -- the pool, whatever the packet holds: no task is completed and no agent quarantined through it.
    pub task_step-scheduler :
        (agent_id : String) (packet : SignedPacket) (s : Servicer)
        → (task_step env agent_id packet s).1.scheduler ≡ s.scheduler
    unfolding task_step
    task_step-scheduler agent_id packet s =
        elim (Bool-cases (is_barred env (get_agent s.scheduler agent_id))) [
          | inl barred ↦ rw barred refl
          | inr known ↦ elim (Option-cases (get_session s.token_issuer agent_id)) [
            | inl missing ↦ rw (known, missing) refl
            | inr (session, found) ↦
                rw (known, found) (guard_packet-scheduler agent_id packet session s)
          ]
        ]

  quarantine-barred :
      (agent_id : String) (s : TaskScheduler)
      → s.locked ≡ false
      → is_barred env (get_agent (Scheduler.quarantine agent_id s).1 agent_id) ≡ true
  unfolding Scheduler.quarantine get_agent state_eq
  quarantine-barred agent_id s free = elim (Option-cases (get s.agents agent_id)) [
    | inl missing ↦ ground arith
    | inr (agent, found) ↦ ground (
      arith,
      get-put_self s.agents agent_id (record agent { state = quarantined; current_task_id = none }),
    )
  ]

  audit-after :
      (i : ℕ) (event_type agent_id task_id detail : String) {A : Type 0} (a : A) (s : Servicer)
      → (continue (λ u. reply a) (audit env i event_type agent_id task_id detail s)).1.scheduler
        ≡ s.scheduler
  audit-after i event_type agent_id task_id detail a s =
      let (outcome, s') = audit env i event_type agent_id task_id detail s in
      continue-reply a outcome s' ∙ audit-scheduler i event_type agent_id task_id detail s

  quarantine-returns :
      (agent_id : String) (s : TaskScheduler)
      → s.locked ≡ false
      → (found : Bool) × ((Scheduler.quarantine agent_id s).0 ≡ returned found)
  unfolding Scheduler.quarantine
  quarantine-returns agent_id s free = elim (Option-cases (get s.agents agent_id)) [
    | inl missing ↦ (false, ground arith)
    | inr (agent, found) ↦ (true, ground arith)
  ]

  issue_quarantine-scheduler :
      (agent_id reason : String) (s : Servicer)
      → s.scheduler.locked ≡ false
      → (issue_quarantine env agent_id reason s).1.scheduler
        ≡ (Scheduler.quarantine agent_id s.scheduler).1
  unfolding issue_quarantine on_scheduler continue
  issue_quarantine-scheduler agent_id reason s free =
      let (found, e) = quarantine-returns agent_id s.scheduler free in
      let s' = record s { scheduler = (Scheduler.quarantine agent_id s.scheduler).1 } in
      rw e (audit-after 0 "AGENT_QUARANTINED" agent_id "" reason (agent_id, true) s')

  -- After IssueQuarantine, with the lock free, whether its audit entry is recorded or raises an
  -- exception, each packet of that agent is answered with a quarantine notice and changes nothing.
  pub quarantine_bars :
      (agent_id reason : String) (packet : SignedPacket) (s : Servicer)
      → s.scheduler.locked ≡ false
      → task_step env agent_id packet (issue_quarantine env agent_id reason s).1 ≡ (
        replied (quarantine_notice agent_id "Agent quarantined or unknown"),
        (issue_quarantine env agent_id reason s).1,
      )
  unfolding task_step
  quarantine_bars agent_id reason packet s free =
      let barred =
        ap (λ t. is_barred env (get_agent t agent_id))
          (issue_quarantine-scheduler agent_id reason s free)
        ∙ quarantine-barred agent_id s.scheduler free in
      rw barred refl
