-- ===== src/Config/Defaults.antt =====
-- orchestrator/config.py: the configuration without a file and without variables, for the tests.
use secure_orchestration_mes.Prelude.{true, false, [], ◌∷◌}
use secure_orchestration_mes.Prelude.Int.{pos}
use secure_orchestration_mes.Config.Schema.{AppConfig}
use secure_orchestration_mes.Config.Sections.{double}

abbrev pub default_config : AppConfig
default_config = record {
  server = record {
    host = "0.0.0.0";
    port = (pos 50051);
    grpc_max_workers = (pos 100);
    grpc_max_concurrent_streams = (pos 10000);
    stream_lease_seconds = (pos 300);
  };
  security = record {
    jwt = record {
      algorithm = "RS256";
      ttl_seconds = (pos 60);
      issuer = "secure-orchestration-mesh";
      private_key_path = "config/jwt_private.pem";
      public_key_path = "config/jwt_public.pem";
    };
    tls = record {
      enabled = true;
      cert_path = "config/server.crt";
      key_path = "config/server.key";
      ca_cert_path = "config/ca.crt";
    };
    replay_window_seconds = (pos 30);
  };
  anomaly = record {
    isolation_forest = record {
      enabled = true;
      model_path = "models/isolation_forest.pkl";
      contamination = (double 5764607523034235 1015);
      n_estimators = (pos 100);
      suspicious_threshold = (double 5854679515581645 1021);
      critical_threshold = (double 7656119366529843 1021);
      consecutive_suspicious_for_quarantine = (pos 2);
      window_size_seconds = (pos 10);
    };
    lstm_autoencoder = record {
      enabled = false;
      model_path = "models/lstm_autoencoder.pt";
      sequence_length = (pos 50);
      hidden_size = (pos 128);
      bottleneck_size = (pos 32);
      num_layers = (pos 2);
      reconstruction_error_threshold = (double 5404319552844595 1019);
    };
    log_classifier = record {
      enabled = false;
      model_path = "models/bert_log_classifier";
      bert_model_id = "google-bert/bert-base-uncased";
    };
  };
  llm = record {
    provider = "ollama";
    ollama = record {
      base_url = "http://localhost:11434";
      model = "phi3:mini";
      timeout_seconds = (double 30 1074);
      max_tokens = (pos 1024);
    };
    claude = record {
      api_key_env = "CLAUDE_API_KEY";
      model = "claude-sonnet-4-20250514";
      max_tokens = (pos 4096);
      timeout_seconds = (double 60 1074);
    };
    gpt4o = record {
      api_key_env = "OPENAI_API_KEY";
      model = "gpt-4o";
      max_tokens = (pos 4096);
      timeout_seconds = (double 60 1074);
    };
  };
  self_update = record {
    enabled = false;
    schedule = "weekly";
    output_file = "SECOND-KNOWLEDGE-BRAIN.md";
    relevance_threshold = (double 3152519739159347 1022);
    sources = record {
      arxiv = record {
        categories = ("cs.CR" ∷ "cs.MA" ∷ "cs.AI" ∷ "cs.NI" ∷ []);
        max_results_per_query = (pos 50);
      };
      security_conferences = record { enabled = true; urls = [] };
      cve_feed = record {
        enabled = true;
        url = "https://nvd.nist.gov/feeds/json/cve/1.1/nvdcve-1.1-recent.json.gz";
      };
    };
  };
  database = record { path = "data/behavioral_metrics.db"; pool_size = (pos 5) };
  logging = record {
    level = "INFO";
    format = "json";
    output = "stdout";
    file_path = "logs/orchestrator.log";
  };
  telemetry = record {
    enabled = true;
    jaeger = record {
      host = "localhost";
      port = (pos 6831);
      service_name = "secure-orchestration-mesh";
    };
  };
  agent_defaults = record {
    max_payload_bytes = (pos 10485760);
    max_execution_ms = (pos 300000);
    heartbeat_interval_seconds = (double 5 1074);
    heartbeat_timeout_seconds = (double 15 1074);
    registration_timeout_seconds = (double 30 1074);
  };
  quarantine = record {
    auto_quarantine_enabled = true;
    manual_review_required = false;
    max_quarantine_duration_minutes = (pos 60);
  };
  side_channel = record { enabled = false; block_size = (pos 4096); pad_byte = (pos 0) };
  audit_trail = record { enabled = true; path = "data/audit_trail.db"; merkle_branching = (pos 2) };
}
