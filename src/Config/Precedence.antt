-- ===== src/Config/Precedence.antt =====
-- orchestrator/config.py: a variable of the environment takes precedence in the whole configuration.
use mathlib.Core.Option.{some-injective}
use secure_orchestration_mes.Prelude.{
  ◌≡◌, sym, ap, ◌∙◌, String, Option, none, some, List, [], ◌∷◌, ◌++◌, ◌>>=◌, bind-some,
  bind-ensures,
}
use secure_orchestration_mes.Prelude.Int.{pos}
use secure_orchestration_mes.Text.{Text}
use secure_orchestration_mes.Json.{
  Json, null, boolean, integer, floating, text, array, object, Members, get_member,
}
use secure_orchestration_mes.Config.{Texts, value_of, env_override}
use secure_orchestration_mes.Config.Paths.{IsOverride, AllSpare, get_at, env_override-decides}
use secure_orchestration_mes.Config.Schema.{AppConfig, ServerConfig}
use secure_orchestration_mes.Config.Sections.{
  Pydantic, field, section, server_config, security_config, anomaly_config, llm_config,
}
use secure_orchestration_mes.Config.Load.{
  app_config, self_update_config, database_config, logging_config, telemetry_config,
  agent_defaults_config, quarantine_config, side_channel_config, audit_trail_config, load_config,
  raw_of, validated,
}

module _ (p : Pydantic) where
  server_config-port :
      (d : Members) (w : Json)
      → get_member d "port" ≡ some w
      → (c : ServerConfig) → server_config p d ≡ some c
      → p.int_field w ≡ some c.port
  unfolding server_config
  server_config-port d w g =
      let P : ServerConfig → Type 0 = λ c. p.int_field w ≡ some c.port in
      bind-ensures P (field p.str_field "0.0.0.0" (get_member d "host")) _ (λ host _.
        bind-ensures P (field p.int_field (pos 50051) (get_member d "port")) _ (λ port e.
          bind-ensures P (field p.int_field (pos 100) (get_member d "grpc_max_workers")) _
            (λ workers _.
              bind-ensures P
                (field p.int_field (pos 10000) (get_member d "grpc_max_concurrent_streams")) _
                (λ streams _.
                  bind-ensures P (field p.int_field (pos 300) (get_member d "stream_lease_seconds"))
                    _
                    (λ lease _ c h.
                      sym (ap (field p.int_field (pos 50051)) g)
                      ∙ e
                      ∙ ap (λ c. some c.port) (some-injective _ c h))))))

  section-port :
      (o : Option Json) (w : Json) (c : ServerConfig)
      → (o >>= λ v. get_at v ("port" ∷ [])) ≡ some w
      → section (server_config p) o ≡ some c
      → p.int_field w ≡ some c.port
  unfolding get_at
  section-port none w c g h = absurd (cc)
  section-port (some (object d)) w c g h =
      let (v, e, f) = bind-some (get_member d "port") _ w g in server_config-port d w (e ∙ f) c h
  section-port (some null) w c g h = absurd (cc)
  section-port (some (boolean b)) w c g h = absurd (cc)
  section-port (some (integer z)) w c g h = absurd (cc)
  section-port (some (floating x)) w c g h = absurd (cc)
  section-port (some (text s)) w c g h = absurd (cc)
  section-port (some (array vs)) w c g h = absurd (cc)

  app_config-port :
      (d : Members) (w : Json)
      → get_at (object d) ("server" ∷ "port" ∷ []) ≡ some w
      → (c : AppConfig) → app_config p d ≡ some c
      → p.int_field w ≡ some c.server.port
  unfolding app_config get_at
  app_config-port d w g =
      let P : AppConfig → Type 0 = λ c. p.int_field w ≡ some c.server.port in
      bind-ensures P (section (server_config p) (get_member d "server")) _ (λ server e.
        bind-ensures P (section (security_config p) (get_member d "security")) _ (λ _ _.
          bind-ensures P (section (anomaly_config p) (get_member d "anomaly")) _ (λ _ _.
            bind-ensures P (section (llm_config p) (get_member d "llm")) _ (λ _ _.
              bind-ensures P (section (self_update_config p) (get_member d "self_update")) _ (λ _ _.
                bind-ensures P (section (database_config p) (get_member d "database")) _ (λ _ _.
                  bind-ensures P (section (logging_config p) (get_member d "logging")) _ (λ _ _.
                    bind-ensures P (section (telemetry_config p) (get_member d "telemetry")) _
                      (λ _ _.
                        bind-ensures P
                          (section (agent_defaults_config p) (get_member d "agent_defaults")) _
                          (λ _ _.
                            bind-ensures P
                              (section (quarantine_config p) (get_member d "quarantine")) _
                              (λ _ _.
                                bind-ensures P
                                  (section (side_channel_config p) (get_member d "side_channel")) _
                                  (λ _ _.
                                    bind-ensures P
                                      (section (audit_trail_config p) (get_member d "audit_trail"))
                                      _
                                      (λ _ _. λ c h.
                                        section-port (get_member d "server") w server g e
                                        ∙ ap (λ c. some c.server.port)
                                            (some-injective _ c h)))))))))))))

  validated-port :
      (raw w : Json) (c : AppConfig)
      → get_at raw ("server" ∷ "port" ∷ []) ≡ some w
      → validated p (some raw) ≡ some c
      → p.int_field w ≡ some c.server.port
  validated-port (object d) w c g h = app_config-port d w g c h
  validated-port null w c g h = absurd (cc)
  validated-port (boolean b) w c g h = absurd (cc)
  validated-port (integer z) w c g h = absurd (cc)
  validated-port (floating x) w c g h = absurd (cc)
  validated-port (text s) w c g h = absurd (cc)
  validated-port (array vs) w c g h = absurd (cc)

  -- The port that the server listens on is that of the variable, as pydantic reads its value, whatever
  -- the file says, where the variables after it are of other prefixes or of paths that part from its own.
  pub load_config-port :
      (texts : Texts) (safe_load : Text → Option Json) (file : Option Text)
      (before after : List (String × String)) (key value : String) (config : AppConfig)
      → IsOverride texts key ("server" ∷ "port" ∷ [])
      → AllSpare texts ("server" ∷ "port" ∷ []) after
      → load_config texts p safe_load file (before ++ (key, value) ∷ after) ≡ some config
      → (w : Json) × (value_of texts value ≡ some w) × (p.int_field w ≡ some config.server.port)
  unfolding load_config
  load_config-port texts safe_load file before after key value config o s h =
      let (raw, e, f) = bind-some (raw_of safe_load file) _ config h in
      let (raw', e', f') =
        bind-some (env_override texts raw (before ++ (key, value) ∷ after)) _ config f in
      let (w, g, l) =
        env_override-decides texts before after key value raw raw' ("server" ∷ "port" ∷ []) o s
          e' in
      (w, g, validated-port raw' w config l f')
