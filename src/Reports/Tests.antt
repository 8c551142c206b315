-- ===== src/Reports/Tests.antt =====
-- A report whose model writes a severity in words: the first call falls back, the second raises.
use secure_orchestration_mes.Prelude.{
  ℕ, ◌≡◌, ◌≢◌, refl, String, if◌then◌else◌, ◌==◌, ◌<◌, ◌-◌, Bool, true, ◌&&◌, none, some, List, [],
  ◌∷◌, All, arith, traverse, false,
}
use secure_orchestration_mes.Prelude.Int.{pos}
use secure_orchestration_mes.Dict.{get}
use secure_orchestration_mes.Text.{
  Text, chars, newline, unfence, strip, strip_left, strip_right, is_space, starts_with, split_lines,
  join_lines, drop_open, drop_close,
}
use secure_orchestration_mes.Json.{
  integer, text, array, object, nil, empty, member, get_member, int_of, truthy,
}
use secure_orchestration_mes.Provider.{
  LlmProvider, LlmResponse, Request, generated, all_failed, generate, attempt, try_fallbacks,
}
use secure_orchestration_mes.Reports.{
  IncidentReport, Environment, Subject, half, three_tenths, cache_ttl, build_prompt,
  fallback_report, fallback_with, average, shown, score_text, entries_text, count_true,
}
use secure_orchestration_mes.Reports.Generate.{
  generate_about, report_of, parse_response, or_fallback, request, cached,
}
use secure_orchestration_mes.Reports.Cache.{Answers, generate_about-Answers, generate_about_again}
use secure_orchestration_mes.Reports.Templates.{Action, cache_template, invalidate}
use secure_orchestration_mes.Reports.RoundTrip.{to_dict}
use secure_orchestration_mes.Reports.Markdown.{generate_incident_report}
use secure_orchestration_mes.Reports.Unsaved.{generate_incident_report-unsaved}

abbrev bad : Text
bad = chars "{\"severity_score\": \"high\"}"

abbrev good : Text
good = chars "{...}"

abbrev same : Text → Text → Bool
same [] [] = true
same (c ∷ s) (d ∷ t) = c == d && same s t
same _ _ = false

abbrev report : IncidentReport
report = record {
  report_id = text "r";
  timestamp = text "now";
  severity_score = pos 9;
  attack_type = text "replay";
  attack_confidence = half;
  affected_agent_id = text "a";
  quarantine_reason = text "q";
  timeline = array nil;
  anomaly_scores = array nil;
  behavioral_summary = object empty;
  recommended_actions = array nil;
  false_positive_likelihood = three_tenths;
  raw_markdown = "";
}

abbrev env : Environment
env = record {
  json_loads = λ s.
      if same s bad
      then some (object (member "severity_score" (text "high") empty))
      else if same s good
      then some (object (to_dict report))
      else none;
  conversions = record {
    int_of_text = λ s. none;
    float_of_text = λ s. none;
    float_of_int = λ z. none;
  };
  repr = λ v. "?";
  fixed = λ n v. some "0";
  percent = λ n v. some "0%";
  add = λ v w. some w;
  divide = λ v n. some v;
  sha256 = λ s. s;
  report_system_prompt = "analyst";
  uuid = "u";
  present = "2026";
  present_again = "2026";
}

abbrev subject : Subject
subject = record { agent_id = text "a"; reason = text "q"; scores = array nil; entries = [] }

abbrev response : LlmResponse
response = record {
  text = "{\"severity_score\": \"high\"}";
  model = "m";
  provider = "ollama";
  tokens_used = 9;
}

abbrev llm : LlmProvider
llm = record { provider_name = "ollama"; backends = ("ollama", λ r. some response) ∷ [] }

abbrev mute : LlmProvider
mute = record { provider_name = "ollama"; backends = [] }

abbrev prompt : String
prompt =
    "ANALYZE THIS QUARANTINE EVENT:\n\nAgent ID: a\nQuarantine Reason: q\n\nANOMALY SCORES:\nNo anomaly scores available\n\nBEHAVIORAL LOG (last 50 entries):\nNo behavioral entries available\n\nClassify the attack type, assess severity, and recommend remediation actions."

prompt_built : build_prompt env subject ≡ some prompt
unfolding build_prompt shown score_text entries_text traverse truthy
prompt_built = refl

uncached : (key : String) → cached env [] 0 key ≡ none
unfolding cached get
uncached key = refl

abbrev fallback : IncidentReport
fallback = fallback_with env subject (integer (pos 0)) (integer (pos 0)) (integer (pos 0))

falls_back : fallback_report env subject ≡ some fallback
unfolding fallback_report average traverse count_true
falls_back = refl

raises : parse_response env subject bad ≡ none
unfolding parse_response unfence strip strip_left strip_right is_space starts_with split_lines
    join_lines drop_open drop_close report_of get_member int_of
raises = refl

answers : generate llm (request env prompt) ≡ generated response
unfolding generate attempt get
answers = refl

generate_about-Answers_example : Answers env subject ((generate_about env llm subject [] 0 5).0)
generate_about-Answers_example =
    generate_about-Answers env subject llm [] 0 5 prompt prompt_built (uncached (env.sha256 prompt))
      (fallback, falls_back)

soon : 7 - 5 < cache_ttl
unfolding cache_ttl
soon = omega arith

generate_about_again_example :
    let first = generate_about env llm subject [] 0 5 in
    let second = generate_about env mute subject first.1 7 8 in
    (first.0 ≡ or_fallback env subject (parse_response env subject bad))
    × (second ≡ (parse_response env subject bad, first.1))
generate_about_again_example =
    generate_about_again env subject llm mute [] 0 5 7 8 prompt response prompt_built
      (uncached (env.sha256 prompt)) answers soon

abbrev actions : List (ℕ × Action)
actions = (1, cache_template "k" "t") ∷ (2, cache_template "l" "u") ∷ (3, invalidate "l") ∷ []

no_newline : All (λ c. c ≢ newline) []
no_newline = tt

reads_good : env.json_loads good ≡ some (object (to_dict report))
reads_good = refl

silent : (q : Request) → (names : List String) × (generate mute q ≡ all_failed names)
unfolding generate attempt try_fallbacks get
silent q = ([], refl)

generate_incident_report-unsaved_example :
    generate_incident_report env mute [] 0 5 [] "a" half half half ≢ some (object empty, some "md")
generate_incident_report-unsaved_example =
    generate_incident_report-unsaved env mute [] 0 5 [] "a" half half half (object empty) "md"
      uncached silent
