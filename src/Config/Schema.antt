-- ===== src/Config/Schema.antt =====
-- orchestrator/config.py: the sections of the configuration and their settings.
use secure_orchestration_mes.Prelude.{String, Bool, List}
use secure_orchestration_mes.Prelude.Int.{ℤ}
use secure_orchestration_mes.Json.{Float}

pub record ServerConfig : Type 0 where
  pub host : String
  pub port : ℤ
  pub grpc_max_workers : ℤ
  pub grpc_max_concurrent_streams : ℤ
  pub stream_lease_seconds : ℤ

pub record JwtConfig : Type 0 where
  pub algorithm : String
  pub ttl_seconds : ℤ
  pub issuer : String
  pub private_key_path : String
  pub public_key_path : String

pub record TlsConfig : Type 0 where
  pub enabled : Bool
  pub cert_path : String
  pub key_path : String
  pub ca_cert_path : String

pub record SecurityConfig : Type 0 where
  pub jwt : JwtConfig
  pub tls : TlsConfig
  pub replay_window_seconds : ℤ

pub record IsolationForestConfig : Type 0 where
  pub enabled : Bool
  pub model_path : String
  pub contamination : Float
  pub n_estimators : ℤ
  pub suspicious_threshold : Float
  pub critical_threshold : Float
  pub consecutive_suspicious_for_quarantine : ℤ
  pub window_size_seconds : ℤ

pub record LstmAutoencoderConfig : Type 0 where
  pub enabled : Bool
  pub model_path : String
  pub sequence_length : ℤ
  pub hidden_size : ℤ
  pub bottleneck_size : ℤ
  pub num_layers : ℤ
  pub reconstruction_error_threshold : Float

pub record LogClassifierConfig : Type 0 where
  pub enabled : Bool
  pub model_path : String
  pub bert_model_id : String

pub record AnomalyConfig : Type 0 where
  pub isolation_forest : IsolationForestConfig
  pub lstm_autoencoder : LstmAutoencoderConfig
  pub log_classifier : LogClassifierConfig

pub record OllamaLlmConfig : Type 0 where
  pub base_url : String
  pub model : String
  pub timeout_seconds : Float
  pub max_tokens : ℤ

pub record ClaudeLlmConfig : Type 0 where
  pub api_key_env : String
  pub model : String
  pub max_tokens : ℤ
  pub timeout_seconds : Float

pub record Gpt4oLlmConfig : Type 0 where
  pub api_key_env : String
  pub model : String
  pub max_tokens : ℤ
  pub timeout_seconds : Float

pub record LlmConfig : Type 0 where
  pub provider : String
  pub ollama : OllamaLlmConfig
  pub claude : ClaudeLlmConfig
  pub gpt4o : Gpt4oLlmConfig

pub record SelfUpdateArxivConfig : Type 0 where
  pub categories : List String
  pub max_results_per_query : ℤ

pub record SelfUpdateSecurityConferencesConfig : Type 0 where
  pub enabled : Bool
  pub urls : List String

pub record SelfUpdateCveFeedConfig : Type 0 where
  pub enabled : Bool
  pub url : String

pub record SelfUpdateSourcesConfig : Type 0 where
  pub arxiv : SelfUpdateArxivConfig
  pub security_conferences : SelfUpdateSecurityConferencesConfig
  pub cve_feed : SelfUpdateCveFeedConfig

pub record SelfUpdateConfig : Type 0 where
  pub enabled : Bool
  pub schedule : String
  pub output_file : String
  pub relevance_threshold : Float
  pub sources : SelfUpdateSourcesConfig

pub record DatabaseConfig : Type 0 where
  pub path : String
  pub pool_size : ℤ

pub record LoggingConfig : Type 0 where
  pub level : String
  pub format : String
  pub output : String
  pub file_path : String

pub record JaegerConfig : Type 0 where
  pub host : String
  pub port : ℤ
  pub service_name : String

pub record TelemetryConfig : Type 0 where
  pub enabled : Bool
  pub jaeger : JaegerConfig

pub record AgentDefaultsConfig : Type 0 where
  pub max_payload_bytes : ℤ
  pub max_execution_ms : ℤ
  pub heartbeat_interval_seconds : Float
  pub heartbeat_timeout_seconds : Float
  pub registration_timeout_seconds : Float

pub record QuarantineConfig : Type 0 where
  pub auto_quarantine_enabled : Bool
  pub manual_review_required : Bool
  pub max_quarantine_duration_minutes : ℤ

pub record SideChannelConfig : Type 0 where
  pub enabled : Bool
  pub block_size : ℤ
  pub pad_byte : ℤ

pub record AuditTrailConfig : Type 0 where
  pub enabled : Bool
  pub path : String
  pub merkle_branching : ℤ

pub record AppConfig : Type 0 where
  pub server : ServerConfig
  pub security : SecurityConfig
  pub anomaly : AnomalyConfig
  pub llm : LlmConfig
  pub self_update : SelfUpdateConfig
  pub database : DatabaseConfig
  pub logging : LoggingConfig
  pub telemetry : TelemetryConfig
  pub agent_defaults : AgentDefaultsConfig
  pub quarantine : QuarantineConfig
  pub side_channel : SideChannelConfig
  pub audit_trail : AuditTrailConfig
