-- ===== src/Config/Tests.antt =====
-- A port in the file and another in the environment.
use Prim.Native.Char.{code}
use secure_orchestration_mes.Prelude.{
  ◌≡◌, refl, String, str_eq, if◌then◌else◌, leb, ◌&&◌, true, Option, none, some, List, [], ◌∷◌,
  ◌++◌, All,
}
use secure_orchestration_mes.Prelude.Int.{ℤ, pos}
use secure_orchestration_mes.Text.{Text}
use secure_orchestration_mes.Json.{
  Json, integer, text, object, empty, member, get_member, put_member, truthy,
}
use secure_orchestration_mes.Config.{
  Texts, after_prefix, split, set_at, isdigit, without_dot, value_of, path_of, override,
  env_override,
}
use secure_orchestration_mes.Config.Paths.{
  IsOverride, AllSpare, get_at, diverge, env_override-decides,
}
use secure_orchestration_mes.Config.Names.{is_key}
use secure_orchestration_mes.Config.Sections.{
  Pydantic, server_config, jwt_config, tls_config, security_config, isolation_forest_config,
  lstm_autoencoder_config, log_classifier_config, anomaly_config, ollama_llm_config,
  claude_llm_config, gpt4o_llm_config, llm_config, self_update_arxiv_config,
}
use secure_orchestration_mes.Config.Defaults.{default_config}
use secure_orchestration_mes.Config.Load.{
  load_config, self_update_security_conferences_config, self_update_cve_feed_config,
  self_update_sources_config, self_update_config, database_config, logging_config, jaeger_config,
  telemetry_config, agent_defaults_config, quarantine_config, side_channel_config,
  audit_trail_config, app_config,
}
use secure_orchestration_mes.Config.Schema.{AppConfig}

abbrev texts : Texts
texts = record {
  lower = λ s. if str_eq s "SERVER__PORT" then "server__port" else s;
  is_digit = λ c. leb 48 (code c) && leb (code c) 57;
  int_of = λ s. if str_eq s "8443" then some (integer (pos 8443)) else none;
  float_of = λ s. none;
}

abbrev int_field : Json → Option ℤ
int_field (integer z) = some z
int_field _ = none

abbrev str_field : Json → Option String
str_field (text s) = some s
str_field _ = none

abbrev pydantic : Pydantic
pydantic = record {
  str_field = str_field;
  int_field = int_field;
  float_field = λ v. none;
  bool_field = λ v. none;
  list_field = λ v. none;
}

abbrev server_of : ℤ → Json
server_of port = object (member "server" (object (member "port" (integer port) empty)) empty)

abbrev path : List String
path = "server" ∷ "port" ∷ []

abbrev before : List (String × String)
before = ("HOME", "/root") ∷ ("SOM__LLM__PROVIDER", "claude") ∷ []

abbrev after : List (String × String)
after = ("PATH", "/bin") ∷ ("SOM__server__host", "::1") ∷ []

abbrev environ : List (String × String)
environ = before ++ ("SOM__SERVER__PORT", "8443") ∷ after

abbrev with_llm : Json
with_llm = object (
    member "server" (object (member "port" (integer (pos 8443)) (member "host" (text "::1") empty)))
      (member "LLM" (object (member "PROVIDER" (text "claude") empty)) empty))

is_override : IsOverride texts "SOM__SERVER__PORT" path
unfolding after_prefix path_of split
is_override = ("SERVER__PORT", refl, refl)

all_spare : AllSpare texts path after
unfolding after_prefix path_of split diverge
all_spare = (tt, (refl, tt))

overridden : env_override texts (server_of (pos 1)) environ ≡ some with_llm
unfolding env_override override after_prefix path_of split value_of isdigit without_dot set_at
    get_member put_member
overridden = refl

env_override-decides_example :
    (w : Json) × (value_of texts "8443" ≡ some w) × (get_at with_llm path ≡ some w)
env_override-decides_example =
    env_override-decides texts before after "SOM__SERVER__PORT" "8443" (server_of (pos 1)) with_llm
      path is_override all_spare overridden

abbrev safe_load : Text → Option Json
safe_load s = some (server_of (pos 1))

keys_are_keys : All (λ key. is_key key ≡ true) ("server" ∷ "grpc_max_workers" ∷ [])
keys_are_keys = (refl, (refl, tt))

abbrev config : AppConfig
config = record default_config {
  server = record default_config.server { host = "::1"; port = pos 8443 };
}

loaded : load_config texts pydantic safe_load (some []) environ ≡ some config
unfolding load_config env_override override after_prefix path_of split value_of isdigit without_dot
    set_at get_member put_member truthy server_config jwt_config tls_config security_config
    isolation_forest_config lstm_autoencoder_config log_classifier_config anomaly_config
    ollama_llm_config claude_llm_config gpt4o_llm_config llm_config self_update_arxiv_config
    self_update_security_conferences_config self_update_cve_feed_config self_update_sources_config
    self_update_config database_config logging_config jaeger_config telemetry_config
    agent_defaults_config quarantine_config side_channel_config audit_trail_config app_config
loaded = refl
