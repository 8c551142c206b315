-- ===== src/Reports/Cache.antt =====
-- What a report owes to the models and to the cache of their answers, in llm/incident_reporter.py.
use secure_orchestration_mes.Prelude.{ℕ, ◌≡◌, refl, ◌-◌, ◌<◌, String, Option, none, some, lt→ltb}
use secure_orchestration_mes.Dict.{get, put, get-put_self}
use secure_orchestration_mes.Text.{chars}
use secure_orchestration_mes.Provider.{LlmProvider, LlmResponse, Generated, generated, all_failed}
use secure_orchestration_mes.Provider
use secure_orchestration_mes.Reports.{
  IncidentReport, Environment, Subject, Cache, cache_ttl, build_prompt, fallback_report,
}
use secure_orchestration_mes.Reports.Generate.{
  parse_response, or_fallback, request, cached, answered, generate_about,
}

module _ (env : Environment) (s : Subject) where
  -- The call answers with some report.
  abbrev pub Answers : Option IncidentReport → Type 0
  Answers result = (report : IncidentReport) × (result ≡ some report)

  or_fallback-Answers :
      (o : Option IncidentReport) → Answers (fallback_report env s) → Answers (or_fallback env s o)
  or_fallback-Answers none h = h
  or_fallback-Answers (some report) h = (report, refl)

  answered-Answers :
      (cache : Cache) (later : ℕ) (key : String) (answer : Generated)
      → Answers (fallback_report env s)
      → Answers ((answered env s cache later key answer).0)
  answered-Answers cache later key (all_failed names) h = h
  answered-Answers cache later key (generated response) h =
      or_fallback-Answers (parse_response env s (chars response.text)) h

  -- Where the prompt and the fallback report can be made and the cache has no answer that is
  -- young enough, a call answers with a report, whatever the models do or write.
  pub generate_about-Answers :
      (llm : LlmProvider) (cache : Cache) (now later : ℕ) (prompt : String)
      → build_prompt env s ≡ some prompt
      → cached env cache now (env.sha256 prompt) ≡ none
      → Answers (fallback_report env s)
      → Answers ((generate_about env llm s cache now later).0)
  unfolding generate_about
  generate_about-Answers llm cache now later prompt b c h =
      rw (b, c)
        (answered-Answers cache later (env.sha256 prompt)
          (Provider.generate llm (request env prompt)) h)

  cached_young :
      (cache : Cache) (t now : ℕ) (key text : String)
      → get cache key ≡ some (t, text)
      → now - t < cache_ttl
      → cached env cache now key ≡ some text
  unfolding cached
  cached_young cache t now key text g y = rw (g, lt→ltb (now - t) cache_ttl y) refl

  generate_about-asks :
      (llm : LlmProvider) (cache : Cache) (now later : ℕ) (prompt : String) (response : LlmResponse)
      → build_prompt env s ≡ some prompt
      → cached env cache now (env.sha256 prompt) ≡ none
      → Provider.generate llm (request env prompt) ≡ generated response
      → generate_about env llm s cache now later ≡ (
        or_fallback env s (parse_response env s (chars response.text)),
        put cache (env.sha256 prompt) (later, response.text),
      )
  unfolding generate_about
  generate_about-asks llm cache now later prompt response b c g = rw (b, c, g) refl

  generate_about-reads :
      (llm : LlmProvider) (cache : Cache) (now later : ℕ) (prompt text : String)
      → build_prompt env s ≡ some prompt
      → cached env cache now (env.sha256 prompt) ≡ some text
      → generate_about env llm s cache now later ≡ (parse_response env s (chars text), cache)
  unfolding generate_about
  generate_about-reads llm cache now later prompt text b c = rw (b, c) refl

  -- After a call that asked a model and had an answer, the same call within a day does not ask
  -- again: it gives what the parser makes of that answer, also when that is an exception, for which
  -- the first call gave the fallback report; and the cache stays.
  pub generate_about_again :
      (llm llm' : LlmProvider) (cache : Cache) (now later now' later' : ℕ) (prompt : String)
      (response : LlmResponse)
      → build_prompt env s ≡ some prompt
      → cached env cache now (env.sha256 prompt) ≡ none
      → Provider.generate llm (request env prompt) ≡ generated response
      → now' - later < cache_ttl
      → let first = generate_about env llm s cache now later in
        let second = generate_about env llm' s first.1 now' later' in
        (first.0 ≡ or_fallback env s (parse_response env s (chars response.text)))
        × (second ≡ (parse_response env s (chars response.text), first.1))
  generate_about_again llm llm' cache now later now' later' prompt response b c g y =
      let cache' = put cache (env.sha256 prompt) (later, response.text) in
      rw (generate_about-asks llm cache now later prompt response b c g) (
        refl,
        generate_about-reads llm' cache' now' later' prompt response.text b (
            cached_young cache' later now' (env.sha256 prompt) response.text
              (get-put_self cache (env.sha256 prompt) (later, response.text)) y),
      )
