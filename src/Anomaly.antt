-- ===== src/Anomaly.antt =====
-- anomaly/combined_engine.py, and the score and the levels of anomaly/isolation_forest.py. A score
-- is a double that is not negative, as a number of units of 2^-1074, of which every such double is
-- a whole number.
mod Adaptive
mod History
mod Levels
mod Tests
use secure_orchestration_mes.Prelude.{
  ℕ, zero, suc, ◌+◌, ◌-◌, ◌*◌, ◌^◌, min, max, String, leb, ltb, Bool, true, false, ◌&&◌,
  if◌then◌else◌, Option, none, some, List, [], ◌∷◌, ◌++◌, length, drop, all,
}
use secure_orchestration_mes.Dict.{Dict}
use secure_orchestration_mes.Dict

-- The double 1.0, and with it 0.5; the doubles 0.65 and 0.85.
unfoldable pub one : ℕ
one = 2 ^ 1074

unfoldable pub half : ℕ
half = 2 ^ 1073

unfoldable pub default_suspicious_threshold : ℕ
default_suspicious_threshold = 5854679515581645 * 2 ^ 1021

unfoldable pub default_critical_threshold : ℕ
default_critical_threshold = 7656119366529843 * 2 ^ 1021

pub data Level : Type 0 where
  normal suspicious critical : Level

-- The thresholds and the model of a scorer.
pub record IsolationForestScorer : Type 0 where
  pub suspicious_threshold : ℕ
  pub critical_threshold : ℕ
  pub model : Option (List ℕ → ℕ)

-- `score`. `model` is the clipped score that a loaded model gives to five features, `noise` the
-- normal random number of the stub, with 0 for a negative one.
unfoldable pub forest_score : ℕ → IsolationForestScorer → Option (List ℕ) → ℕ
forest_score noise self none = min noise half
forest_score noise self (some features) = elim self.model [
  | none ↦ min noise half
  | some model ↦
      if leb (length features) 5 && leb 5 (length features)
      then min (model features) one
      else min noise half
]

unfoldable pub classify : IsolationForestScorer → ℕ → Level
classify self score =
    if leb self.critical_threshold score
    then critical
    else if leb self.suspicious_threshold score
    then suspicious
    else normal

-- `AdaptiveThreshold`. A history is a list of times and counts, with the newest last.
pub record AdaptiveThreshold : Type 0 where
  pub threshold : ℕ
  pub min_threshold : ℕ
  pub max_threshold : ℕ
  pub window_days : ℕ
  pub target_fpr : ℕ
  pub adjustment_step : ℕ
  pub fp_history : List (ℕ × ℕ)
  pub total_checks : List (ℕ × ℕ)
  pub last_adjustment : ℕ

-- `_agent_histories`, `_adaptive_thresholds` and the settings. A `deque(maxlen=n)` is a list with the newest last.
pub record CombinedAnomalyEngine : Type 0 where
  pub if_scorer : IsolationForestScorer
  pub suspicious_threshold : ℕ
  pub critical_threshold : ℕ
  pub consecutive_for_quarantine : ℕ
  pub agent_histories : Dict (List ℕ)
  pub adaptive_thresholds : Dict AdaptiveThreshold

abbrev pub max_history : ℕ
max_history = 100

pub record CombinedAnomalyScore : Type 0 where
  pub agent_id : String
  pub isolation_forest_score : ℕ
  pub lstm_reconstruction_error : ℕ
  pub combined_score : ℕ
  pub level : Level
  pub detectors_triggered : List String

-- `d.append(x)` of a `deque(maxlen=maxlen)`.
unfoldable pub append {ℓ} : {A : Type ℓ} → ℕ → List A → A → List A
append maxlen d x = let d' = d ++ (x ∷ []) in drop (length d' - maxlen) d'

abbrev pub or_empty : Option (List ℕ) → List ℕ
or_empty none = []
or_empty (some history) = history

abbrev pub history_of : CombinedAnomalyEngine → String → List ℕ
history_of self agent_id = or_empty (Dict.get self.agent_histories agent_id)

unfoldable pub update_history : CombinedAnomalyEngine → String → ℕ → CombinedAnomalyEngine
update_history self agent_id score = record self {
  agent_histories =
      Dict.put self.agent_histories agent_id (append max_history (history_of self agent_id) score);
}

-- The level that `score` gives.
unfoldable pub level_of : CombinedAnomalyEngine → ℕ → Level
level_of self combined =
    if leb self.critical_threshold combined
    then critical
    else if leb self.suspicious_threshold combined
    then suspicious
    else normal

-- The answer of the LSTM autoencoder, when it is there, is loaded and has a sequence: its error and
-- its own threshold.
pub record Reconstruction : Type 0 where
  pub error : ℕ
  pub threshold : ℕ

abbrev lstm_error : Option Reconstruction → ℕ
lstm_error none = 0
lstm_error (some r) = r.error

abbrev lstm_triggered : Option Reconstruction → List String
lstm_triggered none = []
lstm_triggered (some r) = if ltb r.threshold r.error then "lstm_autoencoder" ∷ [] else []

-- `combined`. An error of 0 gives the score of the forest, also as twice the error.
unfoldable pub combined_score_of : (if_score error : ℕ) → ℕ
combined_score_of if_score error =
    min (if ltb 0 error then max if_score (error * 2) else if_score) one

-- `score`, on the score of the forest.
unfoldable pub score_with :
    CombinedAnomalyEngine
    → String
    → ℕ
    → Option Reconstruction
    → CombinedAnomalyScore × CombinedAnomalyEngine
score_with self agent_id if_score lstm =
    let combined = combined_score_of if_score (lstm_error lstm) in
    (
      record {
        agent_id = agent_id;
        isolation_forest_score = if_score;
        lstm_reconstruction_error = lstm_error lstm;
        combined_score = combined;
        level = level_of self combined;
        detectors_triggered =
            (if leb self.suspicious_threshold if_score then "isolation_forest" ∷ [] else [])
            ++ lstm_triggered lstm;
      },
      update_history self agent_id combined,
    )

unfoldable pub score :
    ℕ
    → CombinedAnomalyEngine
    → String
    → Option (List ℕ)
    → Option Reconstruction
    → CombinedAnomalyScore × CombinedAnomalyEngine
score noise self agent_id features lstm =
    score_with self agent_id (forest_score noise self.if_scorer features) lstm

-- `list(history)[-n:]`, which is the whole list when n is 0.
unfoldable pub recent : ℕ → List ℕ → List ℕ
recent zero history = history
recent (suc n) history = drop (length history - suc n) history

-- The answer on the history of the agent.
unfoldable pub calls_for_quarantine :
    (consecutive_for_quarantine suspicious_threshold : ℕ) → List ℕ → Bool
unfolding recent
calls_for_quarantine n threshold history =
    if ltb (length history) n then false else all (leb threshold) (recent n history)

unfoldable pub should_quarantine : CombinedAnomalyEngine → String → Bool
should_quarantine self agent_id =
    calls_for_quarantine self.consecutive_for_quarantine self.suspicious_threshold
      (history_of self agent_id)
