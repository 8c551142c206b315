-- ===== src/Anomaly/Tests.antt =====
-- An engine with the default settings, before and after a few scores.
use native.Mathlib.Nat.{
  le_trans, le_of_mul-le-mul_right, div-mul-le_self, mul-le-mul_left, mul-div_right,
}
use secure_orchestration_mes.Prelude.{
  zero, suc, ◌+◌, ◌-◌, ◌*◌, ◌/◌, ◌≤◌, String, List, ℕ, ◌<◌, ◌≡◌, refl, leb, true, false, ◌&&◌, none,
  [], ◌∷◌, length, all, arith,
}
use secure_orchestration_mes.Anomaly.{
  CombinedAnomalyEngine, IsolationForestScorer, default_suspicious_threshold,
  default_critical_threshold, one, half, normal, critical, classify, score, should_quarantine,
  calls_for_quarantine, recent, update_history, append,
}
use secure_orchestration_mes.Anomaly.Adaptive.{
  Doubles, Moments, default_min_threshold, default_max_threshold, default_target_fpr,
  default_adjustment_step, upper_factor, lower_factor, adaptive_threshold, sum_values, adjusted,
  adjust_with, adjust, noted, record_check, record_false_positive, get_threshold,
}
use secure_orchestration_mes.Anomaly.Adaptive.Loosened.{
  Rounds, AreLoose, report_all, get_threshold-report_all,
}
use secure_orchestration_mes.Dict.{get, put}
use secure_orchestration_mes.Anomaly.History.{last, update_all, should_quarantine_lem}
use secure_orchestration_mes.Anomaly.Levels.{IsCalm, score_all, score_all-IsCalm}

abbrev scorer : IsolationForestScorer
scorer = record {
  suspicious_threshold = default_suspicious_threshold;
  critical_threshold = default_critical_threshold;
  model = none;
}

abbrev engine : CombinedAnomalyEngine
engine = record {
  if_scorer = scorer;
  suspicious_threshold = default_suspicious_threshold;
  critical_threshold = default_critical_threshold;
  consecutive_for_quarantine = 2;
  agent_histories = [];
  adaptive_thresholds = [];
}

full_marks : classify scorer one ≡ critical
unfolding classify default_critical_threshold one
full_marks = refl

abbrev small : CombinedAnomalyEngine
small = record {
  if_scorer = scorer;
  suspicious_threshold = 5;
  critical_threshold = 8;
  consecutive_for_quarantine = 2;
  agent_histories = [];
  adaptive_thresholds = [];
}

twice : should_quarantine (update_all (7 ∷ 3 ∷ 6 ∷ 5 ∷ []) "a" small) "a" ≡ true
unfolding should_quarantine calls_for_quarantine recent update_all update_history append get put
twice = refl

should_quarantine_lem_example :
    should_quarantine (update_all (7 ∷ 3 ∷ 6 ∷ 5 ∷ []) "a" small) "a"
    ≡ leb 2 (length {A = ℕ} (7 ∷ 3 ∷ 6 ∷ 5 ∷ [])) && all (leb 5) (last 2 (7 ∷ 3 ∷ 6 ∷ 5 ∷ []))
unfolding get
should_quarantine_lem_example =
    should_quarantine_lem (7 ∷ 3 ∷ 6 ∷ 5 ∷ []) "a" small refl (omega arith) (omega arith)

half_low : (half < default_suspicious_threshold) × (half < default_critical_threshold)
unfolding half default_suspicious_threshold default_critical_threshold
half_low = (omega arith, omega arith)

score_all-IsCalm_example :
    IsCalm (score_all ((9, "a") ∷ (one, "b") ∷ []) engine)
    × (should_quarantine (score_all ((9, "a") ∷ (one, "b") ∷ []) engine) "a" ≡ false)
    × ((score one (score_all ((9, "a") ∷ (one, "b") ∷ []) engine) "a" none none).0.level ≡ normal)
score_all-IsCalm_example =
    score_all-IsCalm ((9, "a") ∷ (one, "b") ∷ []) engine "a" one half_low.0 half_low.1 (omega arith)
      tt

-- Arithmetic without rounding, but for the quotients.
abbrev exact : Doubles
exact = record {
  add = λ x y. x + y;
  subtract = λ x y. x - y;
  multiply = λ x y. (x * y) / one;
  divide = λ x y. (x * one) / y;
}

exact-Rounds : Rounds exact
unfolding one
exact-Rounds = (
  λ x y. omega arith,
  λ x y h.
      le_of_mul-le-mul_right {k = one}
        (le_trans (div-mul-le_self (x * y) one) (mul-le-mul_left x h)) (omega arith),
  λ n h. mul-div_right one h,
)

-- Calls of `record_false_positive`, more than an hour after the threshold was made.
abbrev reports : ℕ → List (Moments × String)
reports zero = []
reports (suc n) =
    (record { created = 0; recorded = 20000000000; adjusted_at = 20000000001 }, "a") ∷ reports n

hundred_raise :
    get_threshold (report_all exact (reports 100) engine) 0 "a"
    ≡ default_suspicious_threshold + default_adjustment_step
unfolding get_threshold report_all record_false_positive record_check noted adjust adjust_with
    sum_values adjusted adaptive_threshold append get put default_suspicious_threshold
    default_adjustment_step default_max_threshold default_target_fpr default_min_threshold
    upper_factor lower_factor one
hundred_raise = refl

default_low : default_suspicious_threshold ≤ default_max_threshold
unfolding default_suspicious_threshold default_max_threshold
default_low = omega arith

get_threshold-report_all_example :
    (get_threshold engine 0 "a" ≤ get_threshold (report_all exact (reports 100) engine) 0 "a")
    × (get_threshold (report_all exact (reports 100) engine) 0 "a" ≤ default_max_threshold)
    × AreLoose (report_all exact (reports 100) engine)
get_threshold-report_all_example =
    get_threshold-report_all exact (reports 100) engine "a" 0 exact-Rounds default_low tt
