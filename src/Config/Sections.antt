-- ===== src/Config/Sections.antt =====
-- orchestrator/config.py: a section from the dictionary of its settings, where those that are not
-- there have the default of the source.
use secure_orchestration_mes.Prelude.{
  ℕ, ◌*◌, ◌^◌, String, Bool, true, false, Option, none, some, List, [], ◌∷◌, ◌>>=◌,
}
use secure_orchestration_mes.Prelude.Int.{ℤ, pos}
use secure_orchestration_mes.Json.{Json, Float, finite, object, Members, empty, get_member}
use secure_orchestration_mes.Config.Schema.{
  ServerConfig, JwtConfig, TlsConfig, SecurityConfig, IsolationForestConfig, LstmAutoencoderConfig,
  LogClassifierConfig, AnomalyConfig, OllamaLlmConfig, ClaudeLlmConfig, Gpt4oLlmConfig, LlmConfig,
  SelfUpdateArxivConfig,
}

-- How pydantic reads a value for a field of a type, or its ValidationError.
pub record Pydantic : Type 0 where
  pub str_field : Json → Option String
  pub int_field : Json → Option ℤ
  pub float_field : Json → Option Float
  pub bool_field : Json → Option Bool
  pub list_field : Json → Option (List String)

-- The double m * 2 ^ (e - 1074).
unfoldable pub double : ℕ → ℕ → Float
double m e = finite (pos (m * 2 ^ e))

module _ {ℓ} {A : Type ℓ} where
  -- A key that is not there gives the default.
  abbrev pub field : (Json → Option A) → A → Option Json → Option A
  field convert default none = some default
  field convert default (some v) = convert v

  -- A section that is not there has all its defaults, and one that is no dictionary is an error.
  abbrev pub section : (Members → Option A) → Option Json → Option A
  section convert none = convert empty
  section convert (some (object d)) = convert d
  section convert (some v) = none

module _ (p : Pydantic) where
  unfoldable pub server_config : Members → Option ServerConfig
  server_config d = do
    host ← field p.str_field "0.0.0.0" (get_member d "host")
    port ← field p.int_field (pos 50051) (get_member d "port")
    grpc_max_workers ← field p.int_field (pos 100) (get_member d "grpc_max_workers")
    grpc_max_concurrent_streams ←
        field p.int_field (pos 10000) (get_member d "grpc_max_concurrent_streams")
    stream_lease_seconds ← field p.int_field (pos 300) (get_member d "stream_lease_seconds")
    some (record {
      host = host;
      port = port;
      grpc_max_workers = grpc_max_workers;
      grpc_max_concurrent_streams = grpc_max_concurrent_streams;
      stream_lease_seconds = stream_lease_seconds;
    })

  unfoldable pub jwt_config : Members → Option JwtConfig
  jwt_config d = do
    algorithm ← field p.str_field "RS256" (get_member d "algorithm")
    ttl_seconds ← field p.int_field (pos 60) (get_member d "ttl_seconds")
    issuer ← field p.str_field "secure-orchestration-mesh" (get_member d "issuer")
    private_key_path ← field p.str_field "config/jwt_private.pem" (get_member d "private_key_path")
    public_key_path ← field p.str_field "config/jwt_public.pem" (get_member d "public_key_path")
    some (record {
      algorithm = algorithm;
      ttl_seconds = ttl_seconds;
      issuer = issuer;
      private_key_path = private_key_path;
      public_key_path = public_key_path;
    })

  unfoldable pub tls_config : Members → Option TlsConfig
  tls_config d = do
    enabled ← field p.bool_field true (get_member d "enabled")
    cert_path ← field p.str_field "config/server.crt" (get_member d "cert_path")
    key_path ← field p.str_field "config/server.key" (get_member d "key_path")
    ca_cert_path ← field p.str_field "config/ca.crt" (get_member d "ca_cert_path")
    some (record {
      enabled = enabled;
      cert_path = cert_path;
      key_path = key_path;
      ca_cert_path = ca_cert_path;
    })

  unfoldable pub security_config : Members → Option SecurityConfig
  security_config d = do
    jwt ← section jwt_config (get_member d "jwt")
    tls ← section tls_config (get_member d "tls")
    replay_window_seconds ← field p.int_field (pos 30) (get_member d "replay_window_seconds")
    some (record { jwt = jwt; tls = tls; replay_window_seconds = replay_window_seconds })

  unfoldable pub isolation_forest_config : Members → Option IsolationForestConfig
  isolation_forest_config d = do
    enabled ← field p.bool_field true (get_member d "enabled")
    model_path ← field p.str_field "models/isolation_forest.pkl" (get_member d "model_path")
    contamination ←
        field p.float_field (double 5764607523034235 1015) (get_member d "contamination")
    n_estimators ← field p.int_field (pos 100) (get_member d "n_estimators")
    suspicious_threshold ←
        field p.float_field (double 5854679515581645 1021) (get_member d "suspicious_threshold")
    critical_threshold ←
        field p.float_field (double 7656119366529843 1021) (get_member d "critical_threshold")
    consecutive_suspicious_for_quarantine ←
        field p.int_field (pos 2) (get_member d "consecutive_suspicious_for_quarantine")
    window_size_seconds ← field p.int_field (pos 10) (get_member d "window_size_seconds")
    some (record {
      enabled = enabled;
      model_path = model_path;
      contamination = contamination;
      n_estimators = n_estimators;
      suspicious_threshold = suspicious_threshold;
      critical_threshold = critical_threshold;
      consecutive_suspicious_for_quarantine = consecutive_suspicious_for_quarantine;
      window_size_seconds = window_size_seconds;
    })

  unfoldable pub lstm_autoencoder_config : Members → Option LstmAutoencoderConfig
  lstm_autoencoder_config d = do
    enabled ← field p.bool_field false (get_member d "enabled")
    model_path ← field p.str_field "models/lstm_autoencoder.pt" (get_member d "model_path")
    sequence_length ← field p.int_field (pos 50) (get_member d "sequence_length")
    hidden_size ← field p.int_field (pos 128) (get_member d "hidden_size")
    bottleneck_size ← field p.int_field (pos 32) (get_member d "bottleneck_size")
    num_layers ← field p.int_field (pos 2) (get_member d "num_layers")
    reconstruction_error_threshold ←
        field p.float_field (double 5404319552844595 1019)
          (get_member d "reconstruction_error_threshold")
    some (record {
      enabled = enabled;
      model_path = model_path;
      sequence_length = sequence_length;
      hidden_size = hidden_size;
      bottleneck_size = bottleneck_size;
      num_layers = num_layers;
      reconstruction_error_threshold = reconstruction_error_threshold;
    })

  unfoldable pub log_classifier_config : Members → Option LogClassifierConfig
  log_classifier_config d = do
    enabled ← field p.bool_field false (get_member d "enabled")
    model_path ← field p.str_field "models/bert_log_classifier" (get_member d "model_path")
    bert_model_id ← field p.str_field "google-bert/bert-base-uncased" (get_member d "bert_model_id")
    some (record { enabled = enabled; model_path = model_path; bert_model_id = bert_model_id })

  unfoldable pub anomaly_config : Members → Option AnomalyConfig
  anomaly_config d = do
    isolation_forest ← section isolation_forest_config (get_member d "isolation_forest")
    lstm_autoencoder ← section lstm_autoencoder_config (get_member d "lstm_autoencoder")
    log_classifier ← section log_classifier_config (get_member d "log_classifier")
    some (record {
      isolation_forest = isolation_forest;
      lstm_autoencoder = lstm_autoencoder;
      log_classifier = log_classifier;
    })

  unfoldable pub ollama_llm_config : Members → Option OllamaLlmConfig
  ollama_llm_config d = do
    base_url ← field p.str_field "http://localhost:11434" (get_member d "base_url")
    model ← field p.str_field "phi3:mini" (get_member d "model")
    timeout_seconds ← field p.float_field (double 30 1074) (get_member d "timeout_seconds")
    max_tokens ← field p.int_field (pos 1024) (get_member d "max_tokens")
    some (record {
      base_url = base_url;
      model = model;
      timeout_seconds = timeout_seconds;
      max_tokens = max_tokens;
    })

  unfoldable pub claude_llm_config : Members → Option ClaudeLlmConfig
  claude_llm_config d = do
    api_key_env ← field p.str_field "CLAUDE_API_KEY" (get_member d "api_key_env")
    model ← field p.str_field "claude-sonnet-4-20250514" (get_member d "model")
    max_tokens ← field p.int_field (pos 4096) (get_member d "max_tokens")
    timeout_seconds ← field p.float_field (double 60 1074) (get_member d "timeout_seconds")
    some (record {
      api_key_env = api_key_env;
      model = model;
      max_tokens = max_tokens;
      timeout_seconds = timeout_seconds;
    })

  unfoldable pub gpt4o_llm_config : Members → Option Gpt4oLlmConfig
  gpt4o_llm_config d = do
    api_key_env ← field p.str_field "OPENAI_API_KEY" (get_member d "api_key_env")
    model ← field p.str_field "gpt-4o" (get_member d "model")
    max_tokens ← field p.int_field (pos 4096) (get_member d "max_tokens")
    timeout_seconds ← field p.float_field (double 60 1074) (get_member d "timeout_seconds")
    some (record {
      api_key_env = api_key_env;
      model = model;
      max_tokens = max_tokens;
      timeout_seconds = timeout_seconds;
    })

  unfoldable pub llm_config : Members → Option LlmConfig
  llm_config d = do
    provider ← field p.str_field "ollama" (get_member d "provider")
    ollama ← section ollama_llm_config (get_member d "ollama")
    claude ← section claude_llm_config (get_member d "claude")
    gpt4o ← section gpt4o_llm_config (get_member d "gpt4o")
    some (record { provider = provider; ollama = ollama; claude = claude; gpt4o = gpt4o })

  unfoldable pub self_update_arxiv_config : Members → Option SelfUpdateArxivConfig
  self_update_arxiv_config d = do
    categories ←
        field p.list_field ("cs.CR" ∷ "cs.MA" ∷ "cs.AI" ∷ "cs.NI" ∷ []) (get_member d "categories")
    max_results_per_query ← field p.int_field (pos 50) (get_member d "max_results_per_query")
    some (record { categories = categories; max_results_per_query = max_results_per_query })
