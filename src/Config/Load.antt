-- ===== src/Config/Load.antt =====
-- orchestrator/config.py: the whole configuration, from the file and the environment.
use secure_orchestration_mes.Prelude.{
  if◌then◌else◌, String, true, false, Option, none, some, List, [], ◌>>=◌,
}
use secure_orchestration_mes.Prelude.Int.{pos}
use secure_orchestration_mes.Json.{Json, object, Members, empty, get_member}
use secure_orchestration_mes.Config.Schema.{
  SelfUpdateSecurityConferencesConfig, SelfUpdateCveFeedConfig, SelfUpdateSourcesConfig,
  SelfUpdateConfig, DatabaseConfig, LoggingConfig, JaegerConfig, TelemetryConfig,
  AgentDefaultsConfig, QuarantineConfig, SideChannelConfig, AuditTrailConfig, AppConfig,
}
use secure_orchestration_mes.Text.{Text}
use secure_orchestration_mes.Json.{truthy}
use secure_orchestration_mes.Config.{Texts, env_override}
use secure_orchestration_mes.Config.Sections.{
  Pydantic, double, field, section, server_config, security_config, anomaly_config, llm_config,
  self_update_arxiv_config,
}

module _ (p : Pydantic) where
  unfoldable pub self_update_security_conferences_config :
      Members → Option SelfUpdateSecurityConferencesConfig
  self_update_security_conferences_config d = do
    enabled ← field p.bool_field true (get_member d "enabled")
    urls ← field p.list_field [] (get_member d "urls")
    some (record { enabled = enabled; urls = urls })

  unfoldable pub self_update_cve_feed_config : Members → Option SelfUpdateCveFeedConfig
  self_update_cve_feed_config d = do
    enabled ← field p.bool_field true (get_member d "enabled")
    url ←
        field p.str_field "https://nvd.nist.gov/feeds/json/cve/1.1/nvdcve-1.1-recent.json.gz"
          (get_member d "url")
    some (record { enabled = enabled; url = url })

  unfoldable pub self_update_sources_config : Members → Option SelfUpdateSourcesConfig
  self_update_sources_config d = do
    arxiv ← section (self_update_arxiv_config p) (get_member d "arxiv")
    security_conferences ←
        section self_update_security_conferences_config (get_member d "security_conferences")
    cve_feed ← section self_update_cve_feed_config (get_member d "cve_feed")
    some
        (record { arxiv = arxiv; security_conferences = security_conferences; cve_feed = cve_feed })

  unfoldable pub self_update_config : Members → Option SelfUpdateConfig
  self_update_config d = do
    enabled ← field p.bool_field false (get_member d "enabled")
    schedule ← field p.str_field "weekly" (get_member d "schedule")
    output_file ← field p.str_field "SECOND-KNOWLEDGE-BRAIN.md" (get_member d "output_file")
    relevance_threshold ←
        field p.float_field (double 3152519739159347 1022) (get_member d "relevance_threshold")
    sources ← section self_update_sources_config (get_member d "sources")
    some (record {
      enabled = enabled;
      schedule = schedule;
      output_file = output_file;
      relevance_threshold = relevance_threshold;
      sources = sources;
    })

  unfoldable pub database_config : Members → Option DatabaseConfig
  database_config d = do
    path ← field p.str_field "data/behavioral_metrics.db" (get_member d "path")
    pool_size ← field p.int_field (pos 5) (get_member d "pool_size")
    some (record { path = path; pool_size = pool_size })

  unfoldable pub logging_config : Members → Option LoggingConfig
  logging_config d = do
    level ← field p.str_field "INFO" (get_member d "level")
    format ← field p.str_field "json" (get_member d "format")
    output ← field p.str_field "stdout" (get_member d "output")
    file_path ← field p.str_field "logs/orchestrator.log" (get_member d "file_path")
    some (record { level = level; format = format; output = output; file_path = file_path })

  unfoldable pub jaeger_config : Members → Option JaegerConfig
  jaeger_config d = do
    host ← field p.str_field "localhost" (get_member d "host")
    port ← field p.int_field (pos 6831) (get_member d "port")
    service_name ← field p.str_field "secure-orchestration-mesh" (get_member d "service_name")
    some (record { host = host; port = port; service_name = service_name })

  unfoldable pub telemetry_config : Members → Option TelemetryConfig
  telemetry_config d = do
    enabled ← field p.bool_field true (get_member d "enabled")
    jaeger ← section jaeger_config (get_member d "jaeger")
    some (record { enabled = enabled; jaeger = jaeger })

  unfoldable pub agent_defaults_config : Members → Option AgentDefaultsConfig
  agent_defaults_config d = do
    max_payload_bytes ← field p.int_field (pos 10485760) (get_member d "max_payload_bytes")
    max_execution_ms ← field p.int_field (pos 300000) (get_member d "max_execution_ms")
    heartbeat_interval_seconds ←
        field p.float_field (double 5 1074) (get_member d "heartbeat_interval_seconds")
    heartbeat_timeout_seconds ←
        field p.float_field (double 15 1074) (get_member d "heartbeat_timeout_seconds")
    registration_timeout_seconds ←
        field p.float_field (double 30 1074) (get_member d "registration_timeout_seconds")
    some (record {
      max_payload_bytes = max_payload_bytes;
      max_execution_ms = max_execution_ms;
      heartbeat_interval_seconds = heartbeat_interval_seconds;
      heartbeat_timeout_seconds = heartbeat_timeout_seconds;
      registration_timeout_seconds = registration_timeout_seconds;
    })

  unfoldable pub quarantine_config : Members → Option QuarantineConfig
  quarantine_config d = do
    auto_quarantine_enabled ← field p.bool_field true (get_member d "auto_quarantine_enabled")
    manual_review_required ← field p.bool_field false (get_member d "manual_review_required")
    max_quarantine_duration_minutes ←
        field p.int_field (pos 60) (get_member d "max_quarantine_duration_minutes")
    some (record {
      auto_quarantine_enabled = auto_quarantine_enabled;
      manual_review_required = manual_review_required;
      max_quarantine_duration_minutes = max_quarantine_duration_minutes;
    })

  unfoldable pub side_channel_config : Members → Option SideChannelConfig
  side_channel_config d = do
    enabled ← field p.bool_field false (get_member d "enabled")
    block_size ← field p.int_field (pos 4096) (get_member d "block_size")
    pad_byte ← field p.int_field (pos 0) (get_member d "pad_byte")
    some (record { enabled = enabled; block_size = block_size; pad_byte = pad_byte })

  unfoldable pub audit_trail_config : Members → Option AuditTrailConfig
  audit_trail_config d = do
    enabled ← field p.bool_field true (get_member d "enabled")
    path ← field p.str_field "data/audit_trail.db" (get_member d "path")
    merkle_branching ← field p.int_field (pos 2) (get_member d "merkle_branching")
    some (record { enabled = enabled; path = path; merkle_branching = merkle_branching })

  unfoldable pub app_config : Members → Option AppConfig
  app_config d = do
    server ← section (server_config p) (get_member d "server")
    security ← section (security_config p) (get_member d "security")
    anomaly ← section (anomaly_config p) (get_member d "anomaly")
    llm ← section (llm_config p) (get_member d "llm")
    self_update ← section self_update_config (get_member d "self_update")
    database ← section database_config (get_member d "database")
    logging ← section logging_config (get_member d "logging")
    telemetry ← section telemetry_config (get_member d "telemetry")
    agent_defaults ← section agent_defaults_config (get_member d "agent_defaults")
    quarantine ← section quarantine_config (get_member d "quarantine")
    side_channel ← section side_channel_config (get_member d "side_channel")
    audit_trail ← section audit_trail_config (get_member d "audit_trail")
    some (record {
      server = server;
      security = security;
      anomaly = anomaly;
      llm = llm;
      self_update = self_update;
      database = database;
      logging = logging;
      telemetry = telemetry;
      agent_defaults = agent_defaults;
      quarantine = quarantine;
      side_channel = side_channel;
      audit_trail = audit_trail;
    })

abbrev pub validated : Pydantic → Option Json → Option AppConfig
validated p (some (object d)) = app_config p d
validated p _ = none

-- `yaml.safe_load(f) or {}`, of a file that is there.
abbrev pub settings_of : Json → Json
settings_of v = if truthy v then v else object empty

abbrev pub raw_of : (Text → Option Json) → Option Text → Option Json
raw_of safe_load none = some (object empty)
raw_of safe_load (some file) = safe_load file >>= λ v. some (settings_of v)

-- `load_config`, with the text of the file, if there is one, and the variables of the environment.
unfoldable pub load_config :
    Texts
    → Pydantic
    → (Text → Option Json)
    → Option Text
    → List (String × String)
    → Option AppConfig
load_config texts p safe_load file environ = do
  raw ← raw_of safe_load file
  raw' ← env_override texts raw environ
  validated p (some raw')
