-- ===== src/Reports/Unsaved.antt =====
-- Reports that llm/incident_reporter.py makes and cannot write as Markdown.
use mathlib.Core.Option.{some-injective}
use secure_orchestration_mes.Prelude.{
  ℕ, ◌≡◌, ◌≢◌, refl, sym, ap, ◌∙◌, subst, String, Option, none, some, List, bind-ensures, bind-none,
  ◌>>=◌, traverse, Option-cases, inl, inr, length, max,
}
use secure_orchestration_mes.Prelude.Int.{pos}
use secure_orchestration_mes.Json.{
  Json, integer, floating, text, array, object, Items, item, Members, get_member, get_or, nil,
  Float, list_of,
}
use secure_orchestration_mes.Provider.{LlmProvider, Request, Generated, generated, all_failed}
use secure_orchestration_mes.Provider
use secure_orchestration_mes.Reports.{
  IncidentReport, Environment, Subject, Cache, build_prompt, fallback_report, average, field_of,
  count_true, fallback_with,
}
use secure_orchestration_mes.Reports.Generate.{
  generate, generate_about, request, cached, subject_of,
}
use secure_orchestration_mes.Reports.Markdown.{
  at_key, event_line, detector_line, lines_of, build_markdown, to_markdown, save, quarantine_event,
  generate_incident_report, saved,
}

module _ (env : Environment) where
  -- The first score has no detector under the name that the Markdown reads.
  abbrev IsUnnamed : Json → Type 0
  IsUnnamed scores =
      (d : Members) × (vs : Items) × (scores ≡ array (item (object d) vs))
      × (get_member d "detector" ≡ none)

  lines_of-IsUnnamed :
      (scores : Json) → IsUnnamed scores → lines_of env (detector_line env) scores ≡ none
  unfolding lines_of traverse detector_line at_key list_of
  lines_of-IsUnnamed scores (d, vs, e, h) = rw (e, h) refl

  build_markdown-IsUnnamed :
      (r : IncidentReport) → IsUnnamed r.anomaly_scores → build_markdown env r ≡ none
  unfolding build_markdown
  build_markdown-IsUnnamed r h = rw (lines_of-IsUnnamed r.anomaly_scores h) (
      bind-none (env.fixed 2 (floating r.attack_confidence))
        (λ c. lines_of env (event_line env) r.timeline >>= λ t. none)
        (λ c. bind-none (lines_of env (event_line env) r.timeline) (λ t. none) (λ t. refl)))

  abbrev HasScores : Subject → IncidentReport → Type 0
  HasScores s r = (r.anomaly_scores ≡ s.scores) × (r.raw_markdown ≡ "")

  fallback_report-HasScores :
      (s : Subject) (r : IncidentReport) → fallback_report env s ≡ some r → HasScores s r
  unfolding fallback_report
  fallback_report-HasScores s =
      bind-ensures (HasScores s) (average env "payload_bytes" s.entries) _ (λ p _.
        bind-ensures (HasScores s) (average env "latency_us" s.entries) _ (λ l _.
          bind-ensures (HasScores s) (traverse (field_of "error_code" (text "")) s.entries) _
            (λ codes _.
              bind-ensures (HasScores s)
                (env.divide (integer (pos (count_true env codes))) (max (length s.entries) 1)) _
                (λ rate _ r h.
                  subst (HasScores s) (some-injective (fallback_with env s p l rate) r h)
                    (refl, refl)))))

  to_markdown-HasScores :
      (s : Subject) (r : IncidentReport)
      → IsUnnamed s.scores
      → HasScores s r
      → to_markdown env r ≡ none
  unfolding to_markdown
  to_markdown-HasScores s r u h =
      simp h.1 (build_markdown-IsUnnamed r (subst IsUnnamed (sym h.0) u))

  -- No Markdown can be written of the result.
  abbrev IsUnsaved : Option IncidentReport → Type 0
  IsUnsaved o = (r : IncidentReport) → o ≡ some r → to_markdown env r ≡ none

  generate_about-IsUnsaved :
      (llm : LlmProvider) (s : Subject) (cache : Cache) (now later : ℕ)
      → ((key : String) → cached env cache now key ≡ none)
      → ((q : Request) → (names : List String) × (Provider.generate llm q ≡ all_failed names))
      → IsUnnamed s.scores
      → IsUnsaved ((generate_about env llm s cache now later).0)
  unfolding generate_about
  generate_about-IsUnsaved llm s cache now later c f u = elim (Option-cases (build_prompt env s)) [
    | inl e ↦ rw e (λ r h. absurd (cc))
    | inr (prompt, e) ↦
        let (names, g) = f (request env prompt) in
        rw (e, c (env.sha256 prompt), g)
          (λ r h. to_markdown-HasScores s r u (fallback_report-HasScores s r h))
  ]

  saved-IsUnsaved :
      (o : Option IncidentReport) (json : Json) (markdown : String)
      → IsUnsaved o
      → saved env o ≢ some (json, some markdown)
  unfolding save
  saved-IsUnsaved none json markdown h e = cc
  saved-IsUnsaved (some r) json markdown h e =
      let none-some : none ≡ some markdown =
        sym (h r refl) ∙ ap (λ o. o.1) (some-injective (save env r) (json, some markdown) e) in
      absurd (cc)

  event-IsUnnamed :
      (agent_id : String) (combined score threshold : Float) (event : Members)
      → quarantine_event env agent_id combined score threshold ≡ some event
      → IsUnnamed (get_or event "scores" (array nil))
  unfolding quarantine_event get_member
  event-IsUnnamed agent_id combined score threshold =
      bind-ensures (λ event. IsUnnamed (get_or event "scores" (array nil)))
        (env.fixed 4 (floating combined)) _
        (λ text' _ event h.
          subst (λ event. IsUnnamed (get_or event "scores" (array nil))) (some-injective _ event h)
            (_, _, refl, refl))

  -- Where no model answers and the cache has no answer that is young enough, the report that the
  -- server asks for on a quarantine is never written out whole: its Markdown raises an exception.
  pub generate_incident_report-unsaved :
      (llm : LlmProvider) (cache : Cache) (now later : ℕ) (entries : List Json) (agent_id : String)
      (combined score threshold : Float) (json : Json) (markdown : String)
      → ((key : String) → cached env cache now key ≡ none)
      → ((q : Request) → (names : List String) × (Provider.generate llm q ≡ all_failed names))
      → generate_incident_report env llm cache now later entries agent_id combined score threshold
        ≢ some (json, some markdown)
  unfolding generate_incident_report generate
  generate_incident_report-unsaved llm cache now later entries agent_id combined score threshold
        json markdown c f =
      elim (Option-cases (quarantine_event env agent_id combined score threshold)) [
        | inl e ↦ rw e (λ h. cc)
        | inr (event, e) ↦ rw e (
            saved-IsUnsaved
              ((generate_about env llm (subject_of env event entries) cache now later).0) json
              markdown
              (generate_about-IsUnsaved llm (subject_of env event entries) cache now later c f
                (event-IsUnnamed agent_id combined score threshold event e)))
      ]
