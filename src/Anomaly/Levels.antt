-- ===== src/Anomaly/Levels.antt =====
-- The levels of the scores, and the engine while no features reach its scorer.
use secure_orchestration_mes.Prelude.{
  ℕ, zero, suc, ◌-◌, ◌≤◌, ◌<◌, ◌≡◌, String, leb, false, ◌↔◌, Option, none, List, [], ◌∷◌, ◌++◌,
  length, drop, all, All, arith, length-drop, inl, inr, Option-cases, min,
}
use secure_orchestration_mes.Dict.{Dict, AllEntries, put-AllEntries, get-AllEntries}
use secure_orchestration_mes.Dict
use secure_orchestration_mes.Anomaly.{
  CombinedAnomalyEngine, Reconstruction, one, half, normal, critical, forest_score,
  combined_score_of, level_of, score_with, score, max_history, append, history_of, update_history,
  recent, calls_for_quarantine, should_quarantine,
}

-- A score is reported as at most 1, it is at least the forest's when that is at most 1, its level is
-- normal exactly when it stays below both thresholds, and critical exactly when it reaches the
-- critical one.
pub score_with-level :
    (self : CombinedAnomalyEngine) (agent_id : String) (if_score : ℕ) (lstm : Option Reconstruction)
    → ((score_with self agent_id if_score lstm).0.combined_score ≤ one)
      × (min if_score one ≤ (score_with self agent_id if_score lstm).0.combined_score)
      × (((score_with self agent_id if_score lstm).0.level ≡ critical)
          ↔ (self.critical_threshold ≤ (score_with self agent_id if_score lstm).0.combined_score))
      × (((score_with self agent_id if_score lstm).0.level ≡ normal) ↔ (
          ((score_with self agent_id if_score lstm).0.combined_score < self.critical_threshold)
          × ((score_with self agent_id if_score lstm).0.combined_score
              < self.suspicious_threshold)))
unfolding score_with combined_score_of level_of
score_with-level self agent_id if_score lstm = (
  omega arith,
  ground arith,
  (λ h. ground arith, λ h. ground arith),
  (λ h. ground arith, λ h. ground arith),
)

abbrev pub Below : ℕ → List ℕ → Type 0
Below t = All (λ s. s < t)

-- Every score that is kept is below the threshold.
abbrev pub IsCalm : CombinedAnomalyEngine → Type 0
IsCalm self = AllEntries (λ k. Below self.suspicious_threshold) self.agent_histories

append-Below : (t : ℕ) (xs : List ℕ) (x : ℕ) → Below t xs → x < t → Below t (xs ++ (x ∷ []))
append-Below t [] x h p = (p, tt)
append-Below t (y ∷ xs) x h p = (h.0, append-Below t xs x h.1 p)

drop-Below : (t n : ℕ) (xs : List ℕ) → Below t xs → Below t (drop n xs)
drop-Below t zero xs h = h
drop-Below t (suc n) [] h = tt
drop-Below t (suc n) (x ∷ xs) h = drop-Below t n xs h.1

all_reach_none : (t : ℕ) (xs : List ℕ) → Below t xs → 1 ≤ length xs → all (leb t) xs ≡ false
all_reach_none t [] h pos = absurd (omega arith)
all_reach_none t (x ∷ xs) h pos = ground (arith, h.0)

calm-calls :
    (n t : ℕ) (history : List ℕ)
    → 1 ≤ n
    → Below t history
    → calls_for_quarantine n t history ≡ false
unfolding calls_for_quarantine recent
calm-calls zero t history pos h = absurd (omega arith)
calm-calls (suc n) t history pos h = ground (
  arith,
  all_reach_none t (drop (length history - suc n) history)
      (drop-Below t (length history - suc n) history h),
  length-drop (length history - suc n) history,
)

history-IsCalm :
    (self : CombinedAnomalyEngine) (k : String)
    → IsCalm self
    → Below self.suspicious_threshold (history_of self k)
history-IsCalm self k calm = elim (Option-cases (Dict.get self.agent_histories k)) [
  | inl missing ↦ rw missing tt
  | inr (history, found) ↦ rw found (
      get-AllEntries (λ k. Below self.suspicious_threshold) self.agent_histories k history calm
        found)
]

update_history-IsCalm :
    (self : CombinedAnomalyEngine) (k : String) (s : ℕ)
    → IsCalm self
    → s < self.suspicious_threshold
    → IsCalm (update_history self k s)
unfolding update_history append
update_history-IsCalm self k s calm low =
    put-AllEntries (λ k. Below self.suspicious_threshold) self.agent_histories k
      (append max_history (history_of self k) s) calm
      (drop-Below self.suspicious_threshold _ _ (
        append-Below self.suspicious_threshold (history_of self k) s (history-IsCalm self k calm)
          low))

stub_score-low :
    (noise : ℕ) (self : CombinedAnomalyEngine)
    → combined_score_of (forest_score noise self.if_scorer none) 0 ≤ half
unfolding combined_score_of forest_score
stub_score-low noise self = omega arith

-- Scores without features and without a sequence, of the agents and with the noise given.
unfoldable pub score_all : List (ℕ × String) → CombinedAnomalyEngine → CombinedAnomalyEngine
score_all [] self = self
score_all ((noise, k) ∷ calls) self = score_all calls (score noise self k none none).1

-- An engine whose thresholds are above 0.5, which takes at least one score for a quarantine, and
-- whose histories are below the suspicious threshold, stays so while the agents are scored without
-- features and without a sequence, as the server does: whatever the noise is, no agent is ever to be
-- quarantined, and the next such score is normal.
pub score_all-IsCalm :
    (calls : List (ℕ × String)) (self : CombinedAnomalyEngine) (k : String) (noise : ℕ)
    → half < self.suspicious_threshold
    → half < self.critical_threshold
    → 1 ≤ self.consecutive_for_quarantine
    → IsCalm self
    → IsCalm (score_all calls self)
      × (should_quarantine (score_all calls self) k ≡ false)
      × ((score noise (score_all calls self) k none none).0.level ≡ normal)
unfolding score_all score score_with level_of should_quarantine update_history
score_all-IsCalm [] self k noise s c n calm =
    let low = stub_score-low noise self in
    (
      calm,
      calm-calls self.consecutive_for_quarantine self.suspicious_threshold (history_of self k) n
          (history-IsCalm self k calm),
      ground arith,
    )
score_all-IsCalm ((noise', j) ∷ calls) self k noise s c n calm =
    let combined = combined_score_of (forest_score noise' self.if_scorer none) 0 in
    let low = stub_score-low noise' self in
    score_all-IsCalm calls (update_history self j combined) k noise s c n
      (update_history-IsCalm self j combined calm (omega arith))
