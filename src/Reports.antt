-- ===== src/Reports.antt =====
-- llm/incident_reporter.py: the report on a quarantine, which a language model writes or, where it
-- cannot, the code itself, and the cache of the models' answers. orchestrator/server.py asks for it.
-- A time is a number of ticks of 2 ^ -22 seconds.
mod Generate
mod Cache
mod Templates
mod RoundTrip
mod Markdown
mod Unsaved
mod Tests
use Prim.Native.String.{◌++◌ as ◌+++◌}
use secure_orchestration_mes.Prelude.{
  ℕ, ◌+◌, ◌-◌, ◌*◌, ◌^◌, String, ltb, max, if◌then◌else◌, Bool, true, false, ◌&&◌, Option, none,
  some, List, [], ◌∷◌, length, take, traverse, ◌>>=◌,
}
use secure_orchestration_mes.Prelude.Int.{ℤ, pos}
use secure_orchestration_mes.Dict.{Dict, get, put}
use secure_orchestration_mes.Text.{Text, chars, strip, ticks, unfence, starts_with, joined}
use secure_orchestration_mes.Json.{
  Json, null, boolean, integer, floating, text, array, object, Items, nil, item, Members, empty,
  member, get_or, items, elements, truthy, Conversions, int_of, float_of, Float, finite,
}
use secure_orchestration_mes.Provider.{
  LlmProvider, LlmResponse, Request, Generated, generated, all_failed,
}
use secure_orchestration_mes.Provider

-- What `_parse_response` does not convert may be any JSON value.
pub record IncidentReport : Type 0 where
  pub report_id : Json
  pub timestamp : Json
  pub severity_score : ℤ
  pub attack_type : Json
  pub attack_confidence : Float
  pub affected_agent_id : Json
  pub quarantine_reason : Json
  pub timeline : Json
  pub anomaly_scores : Json
  pub behavioral_summary : Json
  pub recommended_actions : Json
  pub false_positive_likelihood : Float
  pub raw_markdown : String

-- The JSON parser, Python's conversions, `str(v)` of a value that is no text, the formats `.nf` and
-- `.n%`, the sum and the quotient of numbers, SHA-256 in hexadecimal digits, the system prompt, the
-- UUID of a report without id, and the present as a text, twice.
pub record Environment : Type 0 where
  pub json_loads : Text → Option Json
  pub conversions : Conversions
  pub repr : Json → String
  pub fixed : ℕ → Json → Option String
  pub percent : ℕ → Json → Option String
  pub add : Json → Json → Option Json
  pub divide : Json → ℕ → Option Json
  pub sha256 : String → String
  pub report_system_prompt : String
  pub uuid : String
  pub present : String
  pub present_again : String

-- The doubles 0.5 and 0.3.
unfoldable pub half : Float
half = finite (pos (2 ^ 1073))

unfoldable pub three_tenths : Float
three_tenths = finite (pos (5404319552844595 * 2 ^ 1020))

-- `cache_ttl_seconds`
unfoldable pub cache_ttl : ℕ
cache_ttl = 86400 * 2 ^ 22

-- What a report is about: `agent_id`, `reason`, `scores` and `entries`.
pub record Subject : Type 0 where
  pub agent_id : Json
  pub reason : Json
  pub scores : Json
  pub entries : List Json

-- The cache of prompts: the time of an answer and its text, under the hash of the prompt.
abbrev pub Cache : Type 0
Cache = Dict (ℕ × String)

-- `e.get(k, default)`, or an AttributeError.
unfoldable pub field_of : String → Json → Json → Option Json
field_of k default (object e) = some (get_or e k default)
field_of k default _ = none

module _ (env : Environment) where
  -- `f"{v}"`
  unfoldable pub shown : Json → String
  shown (text s) = s
  shown v = env.repr v

  unfoldable pub score_line : Json → Option String
  score_line s = do
    detector ← field_of "detector_name" (text "unknown") s
    score ← field_of "score" (integer (pos 0)) s
    score' ← env.fixed 4 score
    threshold ← field_of "threshold" (integer (pos 0)) s
    some (
        "- " +++ shown detector +++ ": " +++ score' +++ " (threshold: " +++ shown threshold +++ ")")

  unfoldable pub score_text : Json → Option String
  score_text (array (item v vs)) = do
    lines ← traverse score_line (v ∷ elements vs)
    some (joined lines)
  score_text scores = if truthy scores then none else some "No anomaly scores available"

  unfoldable pub entry_line : Json → Option String
  entry_line (object e) = do
    latency ← env.fixed 0 (get_or e "latency_us" (integer (pos 0)))
    some (
        "- "
        +++ shown (get_or e "timestamp" (text "?"))
        +++ " | payload="
        +++ shown (get_or e "payload_bytes" (integer (pos 0)))
        +++ "B | latency="
        +++ latency
        +++ "us | error="
        +++ shown (get_or e "error_code" (text "none")))
  entry_line e = some (shown e)

  unfoldable pub entries_text : List String → String
  entries_text [] = "No behavioral entries available"
  entries_text (line ∷ lines) = joined (take 50 (line ∷ lines))

  unfoldable pub build_prompt : Subject → Option String
  build_prompt s = do
    summaries ← traverse entry_line s.entries
    scores ← score_text s.scores
    some (
        "ANALYZE THIS QUARANTINE EVENT:\n\nAgent ID: "
        +++ shown s.agent_id
        +++ "\nQuarantine Reason: "
        +++ shown s.reason
        +++ "\n\nANOMALY SCORES:\n"
        +++ scores
        +++ "\n\nBEHAVIORAL LOG (last 50 entries):\n"
        +++ entries_text summaries
        +++ "\n\nClassify the attack type, assess severity, and recommend remediation actions.")

  unfoldable pub sum : Json → List Json → Option Json
  sum total [] = some total
  sum total (v ∷ vs) = do total' ← env.add total v; sum total' vs

  -- `sum(…) / max(total, 1) if entries else 0`
  unfoldable pub average : String → List Json → Option Json
  average k [] = some (integer (pos 0))
  average k (e ∷ es) = do
    vs ← traverse (field_of k (integer (pos 0))) (e ∷ es)
    total ← sum (integer (pos 0)) vs
    env.divide total (length (e ∷ es))

  unfoldable pub count_true : List Json → ℕ
  count_true [] = 0
  count_true (v ∷ vs) = (if truthy v then 1 else 0) + count_true vs

  abbrev pub summary : ℕ → Json → Json → Json → Json
  summary total payload latency rate = object (
      member "total_entries_analyzed" (integer (pos total)) (
        member "avg_payload_bytes" payload (
          member "avg_latency_us" latency
            (member "error_rate" rate (member "unusual_patterns" (array nil) empty)))))

  abbrev pub fallback_with : Subject → Json → Json → Json → IncidentReport
  fallback_with s avg_payload avg_latency error_rate = record {
    report_id = text env.uuid;
    timestamp = text env.present;
    severity_score = pos 5;
    attack_type = text "unclassified";
    attack_confidence = half;
    affected_agent_id = s.agent_id;
    quarantine_reason = s.reason;
    timeline = array (
        item
          (object (
            member "time" (text env.present_again)
              (member "event" (text ("Agent quarantined: " +++ shown s.reason)) empty)))
          nil);
    anomaly_scores = s.scores;
    behavioral_summary = summary (length s.entries) avg_payload avg_latency error_rate;
    recommended_actions = array (
        items (
          text "Review agent activity"
          ∷ text "Check for false positive"
          ∷ text "Inspect recent task results"
          ∷ []));
    false_positive_likelihood = three_tenths;
    raw_markdown = "";
  }

  unfoldable pub fallback_report : Subject → Option IncidentReport
  fallback_report s = do
    avg_payload ← average "payload_bytes" s.entries
    avg_latency ← average "latency_us" s.entries
    codes ← traverse (field_of "error_code" (text "")) s.entries
    error_rate ← env.divide (integer (pos (count_true codes))) (max (length s.entries) 1)
    some (fallback_with s avg_payload avg_latency error_rate)
