-- ===== src/Server.antt =====
-- orchestrator/server.py: the handlers of the service AgentMesh, over the components.
mod Stream
mod Tests
use secure_orchestration_mes.Prelude.{
  ℕ, String, Bool, true, false, if◌then◌else◌, Option, none, some, List, [], ◌∷◌, ◌++◌, map,
}
use secure_orchestration_mes.Messages.{
  Bytes, SignedPacket, TaskResult, TaskState, completed, AgentStatus, AgentRegistrationRequest,
  AgentRegistrationResponse,
}
use secure_orchestration_mes.Crypto.{
  Primitives, CryptoSession, init_for_orchestrator, encrypt, decrypt, sign,
}
use secure_orchestration_mes.Tokens.{Jose, TokenIssuer, issue, register_session, get_session}
use secure_orchestration_mes.Scheduler.{
  TaskScheduler, AgentRecord, Outcome, returned, waiting, Method, state_eq, quarantined, register,
  heartbeat, complete_task, quarantine, update_anomaly_score, get_agent,
}
use secure_orchestration_mes.Guardrail.{
  GuardrailLayer, ValidationOutcome, pass, reject_expired_jwt, reject_permission_out_of_scope,
  reject_hmac_mismatch, reject_payload_oversize, reject_replay, reject_schema_violation,
  reject_missing_session, Validation, result, raised, passed, Metric, validate_inbound,
  drain_metrics,
}
use secure_orchestration_mes.Audit.{
  Hashes, AuditTrail, Recorded, recorded, value_error, integrity_error, snapshot_error,
  never_returns, record_event,
}
use secure_orchestration_mes.Anomaly.{
  CombinedAnomalyEngine, CombinedAnomalyScore, Level, normal, suspicious, critical, score,
  should_quarantine,
}
use secure_orchestration_mes.Handlers.{
  LoggerCall, log_metric, log_anomaly_event, Servicer, Environment, Reply, replied, failed, blocked,
  Handler, reply, continue, and_then, on_scheduler, reply_of_record,
}

-- What a rejected packet is answered with, and the text of the outcome.
pub data Response : Type 0 where
  quarantine_notice : (agent_id reason_detail : String) → Response
  error_packet : (error_code : String) → Response
  signed : SignedPacket → Response

unfoldable pub outcome_text : ValidationOutcome → String
outcome_text pass = "PASS"
outcome_text reject_expired_jwt = "REJECT_EXPIRED_JWT"
outcome_text reject_permission_out_of_scope = "REJECT_PERMISSION_OUT_OF_SCOPE"
outcome_text reject_hmac_mismatch = "REJECT_HMAC_MISMATCH"
outcome_text reject_payload_oversize = "REJECT_PAYLOAD_OVERSIZE"
outcome_text reject_replay = "REJECT_REPLAY"
outcome_text reject_schema_violation = "REJECT_SCHEMA_VIOLATION"
outcome_text reject_missing_session = "REJECT_MISSING_SESSION"

abbrev is_normal : Level → Bool
is_normal normal = true
is_normal suspicious = false
is_normal critical = false

abbrev is_completed : TaskState → Bool
is_completed completed = true
is_completed state = false

module _ (env : Environment) where
  -- `if self.audit_trail: self.audit_trail.record(…)`, the `i`-th of the handler.
  unfoldable pub audit : (i : ℕ) (event_type agent_id task_id detail : String) → Handler Unit
  audit i event_type agent_id task_id detail s = elim s.audit_trail [
    | none ↦ (replied tt, s)
    | some trail ↦
        let (outcome, trail') =
          record_event env.hashes
            (record {
              entry_id = (env.stamp i).0;
              timestamp = (env.stamp i).1;
              event_type = event_type;
              agent_id = agent_id;
              task_id = task_id;
              detail = detail;
            })
            trail in
        (reply_of_record outcome, record s { audit_trail = some trail' })
  ]

  -- The session of a registration, which raises ValueError for a key that is not one.
  unfoldable pub open_session : AgentRegistrationRequest → Handler CryptoSession
  open_session request s =
      elim (init_for_orchestrator env.primitives env.hkdf_info env.orch_private env.nonce_base
        request.agent_id request.public_key) [
          | none ↦ (failed, s)
          | some crypto ↦ (
            replied crypto,
            record s { token_issuer = register_session s.token_issuer request.agent_id crypto },
          )
        ]

  unfoldable pub register_agent : AgentRegistrationRequest → Handler AgentRegistrationResponse
  register_agent request = and_then (on_scheduler (register env.now request)) λ agent.
      and_then (open_session request) λ crypto s.
        and_then
          (audit 0 "AGENT_REGISTERED" request.agent_id "" (env.caps_text request.capabilities))
          (λ u.
            let (token, expires_at) =
              issue env.jose env.iso8601 env.jti env.now s.token_issuer request.agent_id env.task_id
                request.capabilities in
            reply (record {
              agent_id = request.agent_id;
              orchestrator_public_key = env.primitives.public_bytes_raw crypto.agent_public;
              nonce = crypto.nonce_base;
              access_token = token;
              token_expires_at = expires_at;
              stream_lease_seconds = 300;
            }))
          s

  -- The metrics of the guardrail, handed to the behavioral logger.
  unfoldable pub log_metrics : Handler Unit
  log_metrics s =
      let (metrics, guardrail) = drain_metrics s.guardrail in
      (
        replied tt,
        record s { guardrail = guardrail; logger_calls = s.logger_calls ++ map log_metric metrics },
      )

  -- The server gives the engine no features and no sequence.
  unfoldable pub score_agent : String → Handler CombinedAnomalyScore
  score_agent agent_id s =
      let (score_result, anomaly_engine) = score env.noise s.anomaly_engine agent_id none none in
      (replied score_result, record s { anomaly_engine = anomaly_engine })

  unfoldable pub log_anomaly : String → String → CombinedAnomalyScore → Handler Unit
  log_anomaly agent_id task_id score_result s =
      if is_normal score_result.level then (replied tt, s) else (
        replied tt,
        record s {
          logger_calls =
              s.logger_calls
              ++ (log_anomaly_event agent_id score_result.level score_result.combined_score task_id
                  ∷ []);
        },
      )

  unfoldable pub start_report : String → Handler Unit
  start_report agent_id s =
      if s.has_incident_reporter
      then (replied tt, record s { incident_reports = s.incident_reports ++ (agent_id ∷ []) })
      else (replied tt, s)

  unfoldable pub auto_quarantine : String → CombinedAnomalyScore → Handler Unit
  auto_quarantine agent_id score_result s =
      if should_quarantine s.anomaly_engine agent_id
      then and_then (on_scheduler (quarantine agent_id))
          (λ found.
            and_then
              (audit 1 "AGENT_QUARANTINED" agent_id "" (env.score_text score_result.combined_score))
              (λ u. start_report agent_id))
          s
      else (replied tt, s)

  -- `_sign_and_encrypt` of the acknowledgement; the session is the object in the issuer's map.
  unfoldable pub acknowledge : String → CryptoSession → Handler Response
  acknowledge agent_id session s =
      let raw = env.serialize_grant_ack agent_id true "TASK_ACKNOWLEDGED" in
      let (ciphertext, session') = encrypt env.primitives session raw in
      let s' = record s { token_issuer = register_session s.token_issuer agent_id session' } in
      elim ciphertext [
        | none ↦ (failed, s')
        | some c ↦ (
          replied (
              signed (record {
                payload = c;
                hmac_signature = sign env.primitives session' c;
                sequence_number = session'.sequence_counter;
              })),
          s',
        )
      ]

  -- What follows a packet that passed.
  unfoldable pub accept_result : String → CryptoSession → TaskResult → Handler Response
  accept_result agent_id session task_result =
      let success = is_completed task_result.state in
      and_then (on_scheduler (complete_task agent_id success)) λ u.
        and_then
          (audit 0 (if success then "TASK_COMPLETED" else "TASK_FAILED") agent_id
            task_result.task_id "")
          λ u. and_then log_metrics λ u. and_then (score_agent agent_id) λ score_result.
            and_then (on_scheduler (update_anomaly_score agent_id score_result.combined_score)) λ u.
              and_then (log_anomaly agent_id task_result.task_id score_result) λ u.
                and_then (auto_quarantine agent_id score_result) λ u. acknowledge agent_id session

  unfoldable pub after_validation :
      String → SignedPacket → CryptoSession → Validation → Handler Response
  after_validation agent_id packet session raised s = (failed, s)
  after_validation agent_id packet session (result r) s =
      if passed r
      then elim (decrypt env.primitives session packet.payload packet.sequence_number) [
        | none ↦ (failed, s)
        | some plaintext ↦ elim (env.parse_task_result plaintext) [
          | none ↦ (failed, s)
          | some task_result ↦ accept_result agent_id session task_result s
        ]
      ]
      else and_then (audit 0 "GUARDRAIL_REJECTED" agent_id "" (outcome_text r.outcome))
          (λ u. reply (error_packet (outcome_text r.outcome))) s

  -- The guardrail is asked with the empty text for the access token.
  unfoldable pub guard_packet : String → SignedPacket → CryptoSession → Handler Response
  guard_packet agent_id packet session s =
      let (validation, guardrail) =
        validate_inbound (env.stamp 2).1 env.latency_us env.parse_task_result env.primitives
          env.jose env.now s.token_issuer s.guardrail packet session "" in
      after_validation agent_id packet session validation (record s { guardrail = guardrail })

  abbrev pub is_barred : Option AgentRecord → Bool
  is_barred none = true
  is_barred (some agent) = state_eq agent.state quarantined

  -- One packet of `TaskStream`.
  unfoldable pub task_step : String → SignedPacket → Handler Response
  task_step agent_id packet s =
      if is_barred (get_agent s.scheduler agent_id)
      then (replied (quarantine_notice agent_id "Agent quarantined or unknown"), s)
      else elim (get_session s.token_issuer agent_id) [
        | none ↦ (replied (error_packet "MISSING_SESSION"), s)
        | some session ↦ guard_packet agent_id packet session s
      ]

  -- `HeartBeatStream` returns at the first heartbeat; the answer is the agent and the number.
  unfoldable pub heartbeat_step :
      (agent_id : String) → AgentStatus → (sequence_number : ℕ) → Handler (String × ℕ)
  heartbeat_step agent_id status sequence_number =
      and_then (on_scheduler (heartbeat env.now agent_id status))
        λ u. reply (agent_id, sequence_number)

  -- `PushPermissionGrant` records the grant and changes no permission.
  unfoldable pub push_permission_grant : String → Handler (String × Bool)
  push_permission_grant agent_id =
      and_then (audit 0 "PERMISSION_GRANTED" agent_id "" "") λ u. reply (agent_id, true)

  unfoldable pub report_error : String → Handler (String × Bool)
  report_error agent_id = reply (agent_id, true)

  -- The answer says that the shutdown was initiated, also for an agent that is not there.
  unfoldable pub issue_quarantine : (agent_id reason_detail : String) → Handler (String × Bool)
  issue_quarantine agent_id reason_detail = and_then (on_scheduler (quarantine agent_id)) λ found.
      and_then (audit 0 "AGENT_QUARANTINED" agent_id "" reason_detail) λ u. reply (agent_id, true)
