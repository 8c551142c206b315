-- ===== src/Server/Tests.antt =====
-- A server with one agent, over the toy packages of the components' tests.
use secure_orchestration_mes.Prelude.{
  ℕ, ◌≡◌, refl, false, Option, none, [], ◌∷◌, Bool-cases, inl, inr, leb,
}
use secure_orchestration_mes.Dict.{get, put}
use secure_orchestration_mes.Messages.{Bytes, SignedPacket, TaskResult}
use secure_orchestration_mes.Crypto.{CryptoSession}
use secure_orchestration_mes.Crypto.Tests.{toy_primitives}
use secure_orchestration_mes.Crypto
use secure_orchestration_mes.Tokens
use secure_orchestration_mes.Tokens.{get_session}
use secure_orchestration_mes.Tokens.Tests.{toy_jose, sample_issuer}
use secure_orchestration_mes.Scheduler.{AgentRecord, idle, get_agent, state_eq}
use secure_orchestration_mes.Guardrail
use secure_orchestration_mes.Audit.Tests.{toy}
use secure_orchestration_mes.Anomaly.{CombinedAnomalyEngine}
use secure_orchestration_mes.Handlers.{Servicer, Environment, replied, continue}
use secure_orchestration_mes.Server.{
  quarantine_notice, error_packet, task_step, issue_quarantine, audit, guard_packet,
  after_validation, outcome_text,
}
use secure_orchestration_mes.Server.Stream.{task_step-scheduler, quarantine_bars}

abbrev no_result : Bytes → Option TaskResult
no_result b = none

abbrev environment : Environment
environment = record {
  primitives = toy_primitives;
  hkdf_info = [];
  jose = toy_jose;
  hashes = toy;
  parse_task_result = no_result;
  serialize_grant_ack = λ agent_id accepted reason. [];
  iso8601 = λ t. "";
  caps_text = λ caps. "";
  score_text = λ score. "";
  now = 0;
  latency_us = 0;
  orch_private = [];
  nonce_base = [];
  task_id = "t";
  jti = "j";
  noise = 0;
  stamp = λ i. ("id", "now");
}

abbrev agent : AgentRecord
agent = record {
  agent_id = "a";
  label = "";
  capabilities = "search" ∷ [];
  state = idle;
  sdk_version = "";
  current_task_id = none;
  registered_at = 0;
  last_heartbeat = 0;
  tasks_completed = 0;
  tasks_failed = 0;
  anomaly_score = 0;
  suspicion_count = 0;
  session_id = "";
}

abbrev engine : CombinedAnomalyEngine
engine = record {
  if_scorer = record { suspicious_threshold = 5; critical_threshold = 8; model = none };
  suspicious_threshold = 5;
  critical_threshold = 8;
  consecutive_for_quarantine = 2;
  agent_histories = [];
  adaptive_thresholds = [];
}

abbrev servicer : Servicer
servicer = record {
  token_issuer = sample_issuer;
  guardrail = record {
    max_payload_bytes = 10;
    seen_sequences = [];
    sequence_high_water = [];
    metrics_buffer = [];
  };
  scheduler = record { agents = ("a", agent) ∷ []; locked = false; heartbeat_timeout = 15 };
  anomaly_engine = engine;
  audit_trail = none;
  logger_calls = [];
  has_incident_reporter = false;
  incident_reports = [];
}

abbrev session : CryptoSession
session = record {
  agent_private = [];
  agent_public = [];
  orchestrator_public = [];
  session_key = 3 ∷ [];
  nonce_base = 4 ∷ [];
  session_id = "a";
  sequence_counter = 0;
}

abbrev connected : Servicer
connected = record servicer {
  token_issuer = record sample_issuer { session_keys = ("a", session) ∷ [] };
}

abbrev packet : SignedPacket
packet = record { payload = 7 ∷ 8 ∷ []; hmac_signature = 3 ∷ 7 ∷ 8 ∷ []; sequence_number = 1 }

-- A packet with a correct signature and a fresh number.
no_token :
    (task_step environment "a" packet connected).0 ≡ replied (error_packet "REJECT_EXPIRED_JWT")
unfolding task_step get_agent get_session get put state_eq guard_packet after_validation
    Guardrail.validate_inbound Guardrail.check_replay Guardrail.check_plaintext
    Guardrail.check_token Guardrail.passed audit continue outcome_text Crypto.verify Crypto.decrypt
    Crypto.decrypt_payload Crypto.derive_nonce Crypto.big_endian Crypto.bytes_eq Tokens.verify
no_token = refl

no_session :
    (task_step environment "a" packet servicer).0 ≡ replied (error_packet "MISSING_SESSION")
unfolding task_step get_agent get_session get state_eq
no_session = refl

unsigned : (key : Bytes) (now : ℕ) → toy_jose.decode key now "" ≡ none
unsigned key now = elim (Bool-cases (leb now 61)) [
  | inl early ↦ rw early refl
  | inr late ↦ rw late refl
]

task_step-scheduler_example :
    (task_step environment "a" packet connected).1.scheduler ≡ connected.scheduler
task_step-scheduler_example = task_step-scheduler environment unsigned "a" packet connected

quarantine_bars_example :
    task_step environment "a" packet (issue_quarantine environment "a" "manual" servicer).1 ≡ (
      replied (quarantine_notice "a" "Agent quarantined or unknown"),
      (issue_quarantine environment "a" "manual" servicer).1,
    )
quarantine_bars_example = quarantine_bars environment "a" "manual" packet servicer refl
