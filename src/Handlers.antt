-- ===== src/Handlers.antt =====
-- The state that the handlers of orchestrator/server.py share, and how they are put together. A
-- handler takes the state of all components and ends with an answer, with an exception, or not at
-- all; each runs alone from its start to its end.
use secure_orchestration_mes.Prelude.{ℕ, String, Bool, Option, List}
use secure_orchestration_mes.Messages.{Bytes, TaskResult}
use secure_orchestration_mes.Crypto.{Primitives}
use secure_orchestration_mes.Tokens.{Jose, TokenIssuer}
use secure_orchestration_mes.Scheduler.{TaskScheduler, Outcome, returned, waiting, Method}
use secure_orchestration_mes.Guardrail.{GuardrailLayer, Metric}
use secure_orchestration_mes.Audit.{
  Hashes, AuditTrail, Recorded, recorded, value_error, integrity_error, snapshot_error,
  never_returns,
}
use secure_orchestration_mes.Anomaly.{CombinedAnomalyEngine, Level}

-- A call of the behavioral logger, which writes to a database of its own.
pub data LoggerCall : Type 0 where
  log_metric : Metric → LoggerCall
  log_anomaly_event :
      (agent_id : String) (level : Level) (score : ℕ) (task_id : String) → LoggerCall

-- The objects of the servicer, with the calls of the behavioral logger and the agents for which an
-- incident report was started.
pub record Servicer : Type 0 where
  pub token_issuer : TokenIssuer
  pub guardrail : GuardrailLayer
  pub scheduler : TaskScheduler
  pub anomaly_engine : CombinedAnomalyEngine
  pub audit_trail : Option AuditTrail
  pub logger_calls : List LoggerCall
  pub has_incident_reporter : Bool
  pub incident_reports : List String

-- The packages, the formats of texts, and what one handler reads from clocks and random sources.
-- `stamp` are the UUIDs and times of the audit entries, in order.
pub record Environment : Type 0 where
  pub primitives : Primitives
  pub hkdf_info : Bytes
  pub jose : Jose
  pub hashes : Hashes
  pub parse_task_result : Bytes → Option TaskResult
  pub serialize_grant_ack : (agent_id : String) (accepted : Bool) (reason : String) → Bytes
  pub iso8601 : ℕ → String
  pub caps_text : List String → String
  pub score_text : ℕ → String
  pub now : ℕ
  pub latency_us : ℕ
  pub orch_private : Bytes
  pub nonce_base : Bytes
  pub task_id : String
  pub jti : String
  pub noise : ℕ
  pub stamp : ℕ → String × String

-- How a handler ends: `blocked` is a call that waits for a lock for good, or a loop without end.
pub data Reply (A : Type 0) : Type 0 where
  replied : A → Reply A
  failed : Reply A
  blocked : Reply A

abbrev pub Handler : Type 0 → Type 0
Handler A = Servicer → Reply A × Servicer

abbrev pub reply : {A : Type 0} → A → Handler A
reply a s = (replied a, s)

-- The rest of a handler, after what came before it.
unfoldable pub continue : {A B : Type 0} → (A → Handler B) → Reply A × Servicer → Reply B × Servicer
continue next (replied a, s) = next a s
continue next (failed, s) = (failed, s)
continue next (blocked, s) = (blocked, s)

abbrev pub and_then : {A B : Type 0} → Handler A → (A → Handler B) → Handler B
and_then first next s = continue next (first s)

abbrev reply_of : {A : Type 0} → Outcome A → Reply A
reply_of (returned a) = replied a
reply_of waiting = blocked

-- `await self.scheduler.…`
unfoldable pub on_scheduler : {A : Type 0} → Method A → Handler A
on_scheduler method s =
    let (outcome, scheduler) = method s.scheduler in
    (reply_of outcome, record s { scheduler = scheduler })

abbrev pub reply_of_record : Recorded → Reply Unit
reply_of_record (recorded entry) = replied tt
reply_of_record value_error = failed
reply_of_record integrity_error = failed
reply_of_record snapshot_error = failed
reply_of_record never_returns = blocked
