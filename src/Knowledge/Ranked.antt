-- ===== src/Knowledge/Ranked.antt =====
-- Which papers the filter of self_update/crawl4ai_pipeline.py lets through, and in which order.
use secure_orchestration_mes.Prelude.{ℕ, ◌≤◌, ◌≡◌, String, true, List, [], ◌∷◌, All}
use secure_orchestration_mes.Knowledge.{
  PaperEntry, compute_relevance, generate_relevance_note, fits,
}

-- Each paper is no more relevant than those before it.
abbrev pub IsDescending : List PaperEntry → Type 0
IsDescending [] = Unit
IsDescending (p ∷ ps) = All (λ q. q.relevance_score ≤ p.relevance_score) ps × IsDescending ps

module _ (lower : String → String) where
  -- What the filter asks of a paper.
  abbrev pub IsRelevant : ℕ → PaperEntry → Type 0
  IsRelevant min_score p =
      (fits lower p ≡ true)
      × (min_score ≤ p.relevance_score)
      × (p.relevance_score ≡ compute_relevance lower p)
      × (p.relevance_note ≡ generate_relevance_note lower p)
