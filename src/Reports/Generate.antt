-- ===== src/Reports/Generate.antt =====
-- llm/incident_reporter.py: the answer of a model becomes a report, by way of the cache.
use secure_orchestration_mes.Prelude.{
  ℕ, ◌-◌, String, ltb, if◌then◌else◌, Bool, false, Option, none, some, List, [], length, ◌>>=◌,
}
use secure_orchestration_mes.Prelude.Int.{pos}
use secure_orchestration_mes.Dict.{get, put}
use secure_orchestration_mes.Text.{Text, chars, strip, ticks, unfence, starts_with}
use secure_orchestration_mes.Json.{
  Json, integer, floating, text, array, object, nil, item, Members, get_or, int_of, float_of,
}
use secure_orchestration_mes.Provider.{
  LlmProvider, LlmResponse, Request, Generated, generated, all_failed,
}
use secure_orchestration_mes.Provider
use secure_orchestration_mes.Reports.{
  IncidentReport, Environment, Subject, Cache, half, three_tenths, cache_ttl, summary, build_prompt,
  fallback_report,
}

-- The last line of a fence, in `_parse_response`.
abbrev pub closes : Text → Bool
closes line = starts_with (strip line) ticks

module _ (env : Environment) where
  -- The report of the fields of an answer, or an exception.
  unfoldable pub report_of : Subject → Json → Option IncidentReport
  report_of s (object data') = do
    severity ← int_of env.conversions (get_or data' "severity_score" (integer (pos 5)))
    confidence ← float_of env.conversions (get_or data' "attack_confidence" (floating half))
    likelihood ←
        float_of env.conversions (get_or data' "false_positive_likelihood" (floating three_tenths))
    some (record {
      report_id = get_or data' "report_id" (text env.uuid);
      timestamp = get_or data' "timestamp" (text env.present);
      severity_score = severity;
      attack_type = get_or data' "attack_type" (text "unknown");
      attack_confidence = confidence;
      affected_agent_id = get_or data' "affected_agent_id" s.agent_id;
      quarantine_reason = get_or data' "quarantine_reason" s.reason;
      timeline = get_or data' "timeline" (array nil);
      anomaly_scores = get_or data' "anomaly_scores" s.scores;
      behavioral_summary =
          get_or data' "behavioral_summary"
            (summary env (length s.entries) (integer (pos 0)) (integer (pos 0)) (integer (pos 0)));
      recommended_actions =
          get_or data' "recommended_actions"
            (array (item (text "Review agent activity manually") nil));
      false_positive_likelihood = likelihood;
      raw_markdown = "";
    })
  report_of s _ = none

  abbrev pub report_or_fallback : Subject → Option Json → Option IncidentReport
  report_or_fallback s none = fallback_report env s
  report_or_fallback s (some data') = report_of s data'

  unfoldable pub parse_response : Subject → Text → Option IncidentReport
  parse_response s answer = report_or_fallback s (env.json_loads (unfence closes answer))

  -- `except Exception`
  abbrev pub or_fallback : Subject → Option IncidentReport → Option IncidentReport
  or_fallback s none = fallback_report env s
  or_fallback s (some report) = some report

  unfoldable pub request : String → Request
  request prompt = record {
    prompt = prompt;
    system_prompt = env.report_system_prompt;
    max_tokens = 2048;
    temperature = 20;
    json_mode = false;
  }

  -- The answer that the cache has for a key, unless it is too old.
  abbrev young : ℕ → Option (ℕ × String) → Option String
  young now none = none
  young now (some (cached_time, response)) =
      if ltb (now - cached_time) cache_ttl then some response else none

  unfoldable pub cached : Cache → ℕ → String → Option String
  cached cache now key = young now (get cache key)

  -- After the model's answer, at `later`.
  abbrev pub answered : Subject → Cache → ℕ → String → Generated → Option IncidentReport × Cache
  answered s cache later key (all_failed names) = (fallback_report env s, cache)
  answered s cache later key (generated response) =
      (or_fallback s (parse_response s (chars response.text)), put cache key (later, response.text))

  -- With a prompt, at `now`.
  abbrev pub ask :
      LlmProvider → Subject → Cache → ℕ → ℕ → String → Option String → Option IncidentReport × Cache
  ask llm s cache now later prompt (some response) = (parse_response s (chars response), cache)
  ask llm s cache now later prompt none =
      answered s cache later (env.sha256 prompt) (Provider.generate llm (request prompt))

  abbrev pub generate_with :
      LlmProvider → Subject → Cache → ℕ → ℕ → Option String → Option IncidentReport × Cache
  generate_with llm s cache now later none = (none, cache)
  generate_with llm s cache now later (some prompt) =
      ask llm s cache now later prompt (cached cache now (env.sha256 prompt))

  unfoldable pub generate_about :
      LlmProvider → Subject → Cache → ℕ → ℕ → Option IncidentReport × Cache
  generate_about llm s cache now later = generate_with llm s cache now later (build_prompt env s)

  abbrev pub subject_of : Members → List Json → Subject
  subject_of event entries = record {
    agent_id = get_or event "agent_id" (text "unknown");
    reason = get_or event "reason" (text "unknown");
    scores = get_or event "scores" (array nil);
    entries = entries;
  }

  -- The entries: those given, or else the logger's on the agent, or none.
  abbrev entries_of :
      Option (List Json) → Option (Json → Option (List Json)) → Json → Option (List Json)
  entries_of (some entries) logger agent_id = some entries
  entries_of none (some recent_metrics) agent_id = recent_metrics agent_id
  entries_of none none agent_id = some []

  abbrev pub generate_from :
      LlmProvider → Cache → ℕ → ℕ → Members → Option (List Json) → Option IncidentReport × Cache
  generate_from llm cache now later event none = (none, cache)
  generate_from llm cache now later event (some entries) =
      generate_about llm (subject_of event entries) cache now later

  -- `generate`, at `now`, with the model's answer at `later`.
  unfoldable pub generate :
      LlmProvider
      → Option (Json → Option (List Json))
      → Cache
      → ℕ
      → ℕ
      → Members
      → Option (List Json)
      → Option IncidentReport × Cache
  generate llm logger cache now later event given =
      generate_from llm cache now later event
        (entries_of given logger (get_or event "agent_id" (text "unknown")))
