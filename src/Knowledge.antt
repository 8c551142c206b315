-- ===== src/Knowledge.antt =====
-- self_update/crawl4ai_pipeline.py: the papers and alerts that the knowledge base is updated with. A
-- relevance is a number of units of 2^-1074.
mod Base
mod Once
mod Ranked
mod Alerts
mod Matched
mod Tests
use Prim.Native.String.{◌++◌ as ◌+++◌}
use secure_orchestration_mes.Prelude.{
  ℕ, zero, suc, ◌+◌, ◌*◌, ◌^◌, String, ltb, leb, if◌then◌else◌, Bool, true, false, not, ◌&&◌, ◌||◌,
  Option, none, some, List, [], ◌∷◌, ◌++◌, any, occurs_in,
}
use secure_orchestration_mes.Prelude.Int.{ℤ}

pub record PaperEntry : Type 0 where
  pub title : String
  pub authors : String
  pub year : ℤ
  pub venue : String
  pub doi_or_arxiv : String
  pub abstract' : String
  pub relevance_score : ℕ
  pub relevance_note : String

abbrev pub keywords_include : List String
keywords_include =
    "agent" ∷ "multi-agent" ∷ "prompt injection" ∷ "zero-trust" ∷ "anomaly detection" ∷ "grpc"
    ∷ "protobuf" ∷ "llm security" ∷ "orchestration" ∷ "cryptographic protocol" ∷ "ai safety"
    ∷ "adversarial" ∷ "agent hijacking" ∷ "protocol verification" ∷ "federated learning security"
    ∷ "agent-based security" ∷ []

abbrev pub keywords_exclude : List String
keywords_exclude =
    "image classification" ∷ "nlp translation" ∷ "recommendation system" ∷ "speech recognition"
    ∷ "object detection" ∷ "sentiment analysis" ∷ "chatbot" ∷ "language model benchmark"
    ∷ "protein folding" ∷ []

-- min(0.95, 0.5 + matches * 0.08), in doubles.
unfoldable pub score_of : ℕ → ℕ
score_of zero = 4503599627370496 * 2 ^ 1021
score_of (suc zero) = 5224175567749775 * 2 ^ 1021
score_of (suc (suc zero)) = 5944751508129055 * 2 ^ 1021
score_of (suc (suc (suc zero))) = 6665327448508334 * 2 ^ 1021
score_of (suc (suc (suc (suc zero)))) = 7385903388887614 * 2 ^ 1021
score_of (suc (suc (suc (suc (suc zero))))) = 8106479329266893 * 2 ^ 1021
score_of (suc (suc (suc (suc (suc (suc n)))))) = 8556839292003942 * 2 ^ 1021

unfoldable pub count_in : String → List String → ℕ
count_in text [] = 0
count_in text (kw ∷ kws) = (if occurs_in kw text then 1 else 0) + count_in text kws

-- `str.lower` is an argument.
module _ (lower : String → String) where
  unfoldable pub combined : PaperEntry → String
  combined paper = lower (paper.title +++ " " +++ paper.abstract')

  unfoldable pub compute_relevance : PaperEntry → ℕ
  compute_relevance paper = score_of (count_in (combined paper) keywords_include)

  abbrev note : Bool → String → List String → List String
  note b text rest = if b then text ∷ rest else rest

  abbrev notes : String → List String
  notes text = note (occurs_in "prompt injection" text) "Prompt injection defense" (
      note (occurs_in "zero-trust" text || occurs_in "zero trust" text) "Zero-trust architecture" (
        note (occurs_in "anomaly detection" text) "Anomaly detection method" (
          note (occurs_in "grpc" text || occurs_in "protobuf" text) "Protocol security" (
            note (occurs_in "multi-agent" text || occurs_in "agent" text) "Multi-agent system" (
              note (occurs_in "cryptographic" text || occurs_in "encryption" text)
                "Cryptographic protocol"
                (note (occurs_in "orchestrat" text) "Orchestration security" []))))))

  -- `", ".join(notes)`
  unfoldable pub comma_joined : List String → String
  comma_joined [] = "General agent security relevance"
  comma_joined (n ∷ []) = n
  comma_joined (n ∷ n' ∷ ns) = n +++ ", " +++ comma_joined (n' ∷ ns)

  unfoldable pub generate_relevance_note : PaperEntry → String
  generate_relevance_note paper = comma_joined (notes (combined paper))

  abbrev pub fits : PaperEntry → Bool
  fits paper =
      any (λ kw. occurs_in kw (combined paper)) keywords_include
      && not (any (λ kw. occurs_in kw (combined paper)) keywords_exclude)

  unfoldable pub scored : PaperEntry → PaperEntry
  scored paper = record paper {
    relevance_score = compute_relevance paper;
    relevance_note = generate_relevance_note paper;
  }

  unfoldable pub relevant : ℕ → List PaperEntry → List PaperEntry
  relevant min_score [] = []
  relevant min_score (paper ∷ papers) =
      let rest = relevant min_score papers in
      if fits paper && leb min_score (compute_relevance paper) then scored paper ∷ rest else rest

  -- `sorted(…, reverse=True)`, which keeps the order of papers of one score.
  unfoldable pub insert : PaperEntry → List PaperEntry → List PaperEntry
  insert p [] = p ∷ []
  insert p (q ∷ qs) =
      let rest = insert p qs in
      if leb q.relevance_score p.relevance_score then p ∷ q ∷ qs else q ∷ rest

  unfoldable pub sorted : List PaperEntry → List PaperEntry
  sorted [] = []
  sorted (p ∷ ps) = insert p (sorted ps)

  unfoldable pub filter : ℕ → List PaperEntry → List PaperEntry
  filter min_score papers = sorted (relevant min_score papers)
