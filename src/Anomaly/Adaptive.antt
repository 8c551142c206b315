-- ===== src/Anomaly/Adaptive.antt =====
-- `AdaptiveThreshold` of anomaly/combined_engine.py: its threshold, its two histories, and what the
-- engine does with it. Times are ticks of 2^-22 seconds.
pub mod Loosened
use secure_orchestration_mes.Prelude.{
  ℕ, zero, suc, ◌+◌, ◌-◌, ◌*◌, ◌^◌, min, max, String, leb, ltb, Bool, true, false, if◌then◌else◌,
  Option, none, some, List, [], ◌∷◌, length,
}
use secure_orchestration_mes.Dict.{Dict}
use secure_orchestration_mes.Dict
use secure_orchestration_mes.Anomaly.{AdaptiveThreshold, CombinedAnomalyEngine, append}

-- The doubles 0.40, 0.90, 0.05, 0.02 and 1.2.
unfoldable pub default_min_threshold : ℕ
default_min_threshold = 7205759403792794 * 2 ^ 1020

unfoldable pub default_max_threshold : ℕ
default_max_threshold = 8106479329266893 * 2 ^ 1021

unfoldable pub default_target_fpr : ℕ
default_target_fpr = 7205759403792794 * 2 ^ 1017

unfoldable pub default_adjustment_step : ℕ
default_adjustment_step = 5764607523034235 * 2 ^ 1016

unfoldable pub upper_factor : ℕ
upper_factor = 5404319552844595 * 2 ^ 1022

unfoldable pub lower_factor : ℕ
lower_factor = 2 ^ 1073

-- The arithmetic of doubles that are not negative, which rounds. A difference that is negative is 0,
-- which the lower limit makes the same of.
pub record Doubles : Type 0 where
  pub add : ℕ → ℕ → ℕ
  pub subtract : ℕ → ℕ → ℕ
  pub multiply : ℕ → ℕ → ℕ
  pub divide : ℕ → ℕ → ℕ

-- `AdaptiveThreshold(initial_threshold=…)` at the time `now`.
unfoldable pub adaptive_threshold : (initial now : ℕ) → AdaptiveThreshold
adaptive_threshold initial now = record {
  threshold = initial;
  min_threshold = default_min_threshold;
  max_threshold = default_max_threshold;
  window_days = 7;
  target_fpr = default_target_fpr;
  adjustment_step = default_adjustment_step;
  fp_history = [];
  total_checks = [];
  last_adjustment = now;
}

-- `sum(v for _, v in history)`.
unfoldable pub sum_values : List (ℕ × ℕ) → ℕ
sum_values [] = 0
sum_values ((t, v) ∷ history) = v + sum_values history

-- The new threshold for a rate.
unfoldable pub adjusted : Doubles → ℕ → AdaptiveThreshold → ℕ
adjusted d fpr self =
    if ltb (d.multiply self.target_fpr upper_factor) fpr
    then min self.max_threshold (d.add self.threshold self.adjustment_step)
    else if ltb fpr (d.multiply self.target_fpr lower_factor)
    then max self.min_threshold (d.subtract self.threshold self.adjustment_step)
    else self.threshold

-- `_adjust`, on the two sums. `now` is the time at its end.
unfoldable pub adjust_with :
    Doubles → (total_fp total now : ℕ) → AdaptiveThreshold → AdaptiveThreshold
adjust_with d total_fp total now self = if leb total 0 then self else record self {
  threshold = adjusted d (d.divide total_fp total) self;
  last_adjustment = now;
}

unfoldable pub adjust : Doubles → ℕ → AdaptiveThreshold → AdaptiveThreshold
adjust d now self =
    if ltb (length self.fp_history) 100
    then self
    else adjust_with d (sum_values self.fp_history) (sum_values self.total_checks) now self

abbrev pub int_of_bool : Bool → ℕ
int_of_bool false = 0
int_of_bool true = 1

-- The two histories with one more check.
unfoldable pub noted : ℕ → Bool → AdaptiveThreshold → AdaptiveThreshold
noted now is_false_positive self = record self {
  fp_history =
      append (self.window_days * 86400) self.fp_history (now, int_of_bool is_false_positive);
  total_checks = append (self.window_days * 86400) self.total_checks (now, 1);
}

-- `record`, at the time `now`; `later` is the time at the end of `_adjust`.
unfoldable pub record_check :
    Doubles → (now later : ℕ) → Bool → AdaptiveThreshold → AdaptiveThreshold
record_check d now later is_false_positive self =
    if ltb (3600 * 2 ^ 22) (now - self.last_adjustment)
    then adjust d later (noted now is_false_positive self)
    else noted now is_false_positive self

abbrev pub or_fresh : AdaptiveThreshold → Option AdaptiveThreshold → AdaptiveThreshold
or_fresh fresh none = fresh
or_fresh fresh (some t) = t

-- The threshold of an agent, a new one when it has none.
abbrev pub threshold_for : CombinedAnomalyEngine → ℕ → String → AdaptiveThreshold
threshold_for self now agent_id =
    or_fresh (adaptive_threshold self.suspicious_threshold now)
      (Dict.get self.adaptive_thresholds agent_id)

-- The times that one call reads: when it makes a threshold, when it records, when it has adjusted.
pub record Moments : Type 0 where
  pub created : ℕ
  pub recorded : ℕ
  pub adjusted_at : ℕ

unfoldable pub record_false_positive :
    Doubles → Moments → String → CombinedAnomalyEngine → CombinedAnomalyEngine
record_false_positive d at agent_id self = record self {
  adaptive_thresholds =
      Dict.put self.adaptive_thresholds agent_id
        (record_check d at.recorded at.adjusted_at true (threshold_for self at.created agent_id));
}

-- `now` is the time at which a threshold is made for an agent without one.
unfoldable pub get_threshold : CombinedAnomalyEngine → ℕ → String → ℕ
get_threshold self now agent_id = (threshold_for self now agent_id).threshold
