-- ===== src/Reports/RoundTrip.antt =====
-- llm/incident_reporter.py: a report as a JSON object, and back.
use secure_orchestration_mes.Prelude.{◌≡◌, ◌≢◌, refl, ap, ◌∙◌, some, All}
use secure_orchestration_mes.Text.{
  Text, newline, starts_with, strip, strip_left, strip_right, is_space,
}
use secure_orchestration_mes.Text.Fence.{fenced, unfence-fenced}
use secure_orchestration_mes.Json.{
  integer, floating, object, Members, empty, member, get_member, int_of, float_of,
}
use secure_orchestration_mes.Reports.{IncidentReport, Environment, Subject}
use secure_orchestration_mes.Reports.Generate.{
  report_of, report_or_fallback, parse_response, closes,
}

unfoldable pub to_dict : IncidentReport → Members
to_dict r = member "report_id" r.report_id (
    member "timestamp" r.timestamp (
      member "severity_score" (integer r.severity_score) (
        member "attack_type" r.attack_type (
          member "attack_confidence" (floating r.attack_confidence) (
            member "affected_agent_id" r.affected_agent_id (
              member "quarantine_reason" r.quarantine_reason (
                member "timeline" r.timeline (
                  member "anomaly_scores" r.anomaly_scores (
                    member "behavioral_summary" r.behavioral_summary (
                      member "recommended_actions" r.recommended_actions (
                        member "false_positive_likelihood" (floating r.false_positive_likelihood)
                          empty)))))))))))

report_of-to_dict :
    (env : Environment) (s : Subject) (r : IncidentReport)
    → report_of env s (object (to_dict r)) ≡ some (record r { raw_markdown = "" })
unfolding report_of to_dict get_member int_of float_of
report_of-to_dict env s r = refl

-- An answer that writes a report as a JSON object, between fences, gives that report, whatever it
-- was asked about; only a Markdown text that was set by hand is not written.
pub parse_response-fenced :
    (env : Environment) (s : Subject) (r : IncidentReport) (info body : Text)
    → All (λ c. c ≢ newline) info
    → env.json_loads body ≡ some (object (to_dict r))
    → parse_response env s (fenced info body) ≡ some (record r { raw_markdown = "" })
unfolding parse_response starts_with strip strip_left strip_right is_space
parse_response-fenced env s r info body h e =
    ap (λ t. report_or_fallback env s (env.json_loads t)) (unfence-fenced closes info body refl h)
    ∙ ap (report_or_fallback env s) e
    ∙ report_of-to_dict env s r
