-- ===== src/Reports/Markdown.antt =====
-- llm/incident_reporter.py: the Markdown of a report, and the report that orchestrator/server.py
-- asks for when it quarantines an agent.
use Prim.Native.String.{◌++◌ as ◌+++◌}
use secure_orchestration_mes.Prelude.{
  ℕ, suc, String, str_eq, if◌then◌else◌, Option, none, some, List, [], ◌∷◌, ◌++◌, traverse, ◌>>=◌,
}
use secure_orchestration_mes.Prelude.Int.{pos}
use secure_orchestration_mes.Text.{joined}
use secure_orchestration_mes.Json.{
  Json, null, integer, floating, text, array, object, Members, empty, member, get_member, get_or,
  item, nil, list_of, elements, truthy, Float,
}
use secure_orchestration_mes.Reports.RoundTrip.{to_dict}
use secure_orchestration_mes.Provider.{LlmProvider}
use secure_orchestration_mes.Reports.{IncidentReport, Environment, Cache, shown}
use secure_orchestration_mes.Reports.Generate.{generate}

-- `v[k]`, or a KeyError or TypeError.
unfoldable pub at_key : String → Json → Option Json
at_key k (object d) = get_member d k
at_key k _ = none

module _ (env : Environment) where
  unfoldable pub event_line : Json → Option String
  event_line entry = do
    time ← at_key "time" entry
    event ← at_key "event" entry
    some ("- **" +++ shown env time +++ "**: " +++ shown env event)

  unfoldable pub detector_line : Json → Option String
  detector_line score = do
    detector ← at_key "detector" score
    value ← at_key "score" score
    value' ← env.fixed 4 value
    threshold ← at_key "threshold" score
    threshold' ← env.fixed 4 threshold
    some (
        "- **"
        +++ shown env detector
        +++ "**: "
        +++ value'
        +++ " (threshold: "
        +++ threshold'
        +++ ")")

  -- A loop that appends a line for each value.
  unfoldable pub lines_of : (Json → Option String) → Json → Option (List String)
  lines_of line v = do vs ← list_of v; traverse line (elements vs)

  abbrev pattern_lines : Json → Option (List String)
  pattern_lines v =
      if truthy v
      then (do
        lines ← lines_of (λ pattern'. some ("  - " +++ shown env pattern')) v
        some ("- Unusual patterns:" ∷ lines))
      else some []

  unfoldable pub summary_lines : Json → Option (List String)
  summary_lines (object bs) = do
    payload ← env.fixed 0 (get_or bs "avg_payload_bytes" (integer (pos 0)))
    latency ← env.fixed 0 (get_or bs "avg_latency_us" (integer (pos 0)))
    rate ← env.percent 2 (get_or bs "error_rate" (integer (pos 0)))
    unusual ← pattern_lines (get_or bs "unusual_patterns" null)
    some (
        ("- Entries analyzed: "
          +++ shown env (get_or bs "total_entries_analyzed" (integer (pos 0))))
        ∷ ("- Avg payload: " +++ payload +++ " bytes")
        ∷ ("- Avg latency: " +++ latency +++ " μs")
        ∷ ("- Error rate: " +++ rate)
        ∷ unusual)
  summary_lines _ = none

  -- `f"{i}. {action}"`, counted from `i`.
  unfoldable pub action_lines : ℕ → List Json → List String
  action_lines i [] = []
  action_lines i (action ∷ actions) =
      (shown env (integer (pos i)) +++ ". " +++ shown env action) ∷ action_lines (suc i) actions

  unfoldable pub build_markdown : IncidentReport → Option String
  build_markdown r = do
    confidence ← env.fixed 2 (floating r.attack_confidence)
    timeline ← lines_of event_line r.timeline
    scores ← lines_of detector_line r.anomaly_scores
    behavior ← summary_lines r.behavioral_summary
    actions ← list_of r.recommended_actions
    likelihood ← env.percent 2 (floating r.false_positive_likelihood)
    some (
        joined (
          ("# Security Incident Report — " +++ shown env r.report_id)
          ∷ ""
          ∷ ("**Timestamp**: " +++ shown env r.timestamp)
          ∷ ("**Severity**: " +++ shown env (integer r.severity_score) +++ "/10")
          ∷ ("**Attack Type**: "
              +++ shown env r.attack_type
              +++ " (confidence: "
              +++ confidence
              +++ ")")
          ∷ ("**Affected Agent**: `" +++ shown env r.affected_agent_id +++ "`")
          ∷ ("**Quarantine Reason**: " +++ shown env r.quarantine_reason)
          ∷ ""
          ∷ "## Timeline"
          ∷ (timeline
              ++ ""
                ∷ "## Anomaly Scores"
                ∷ (scores
                    ++ ""
                      ∷ "## Behavioral Summary"
                      ∷ (behavior
                          ++ ""
                            ∷ "## Recommended Actions"
                            ∷ (action_lines 1 (elements actions)
                                ++ ""
                                  ∷ ("**False positive likelihood**: " +++ likelihood)
                                  ∷ []))))))

  unfoldable pub to_markdown : IncidentReport → Option String
  to_markdown r = if str_eq r.raw_markdown "" then build_markdown r else some r.raw_markdown

  -- The event of `_generate_incident_report` in orchestrator/server.py, with the combined score, the
  -- score of the isolation forest and the threshold.
  unfoldable pub quarantine_event : String → Float → Float → Float → Option Members
  quarantine_event agent_id combined score threshold = do
    combined' ← env.fixed 4 (floating combined)
    some (
        member "agent_id" (text agent_id) (
          member "reason" (text ("Auto-quarantine: anomaly score " +++ combined')) (
            member "scores"
              (array (
                item
                  (object (
                    member "detector_name" (text "isolation_forest") (
                      member "score" (floating score)
                        (member "threshold" (floating threshold) empty))))
                  nil))
              empty)))

  -- `save`: what it writes to the first file, and to the second unless the Markdown raises.
  unfoldable pub save : IncidentReport → Json × Option String
  save r = (object (to_dict r), to_markdown r)

  abbrev pub saved : Option IncidentReport → Option (Json × Option String)
  saved none = none
  saved (some r) = some (save r)

  abbrev pub report_on :
      LlmProvider → Cache → ℕ → ℕ → List Json → Option Members → Option (Json × Option String)
  report_on llm cache now later entries none = none
  report_on llm cache now later entries (some event) =
      saved ((generate env llm none cache now later event (some entries)).0)

  -- `_generate_incident_report` of the server, with the entries of the logger.
  unfoldable pub generate_incident_report :
      LlmProvider
      → Cache
      → ℕ
      → ℕ
      → List Json
      → String
      → Float
      → Float
      → Float
      → Option (Json × Option String)
  generate_incident_report llm cache now later entries agent_id combined score threshold =
      report_on llm cache now later entries (quarantine_event agent_id combined score threshold)
