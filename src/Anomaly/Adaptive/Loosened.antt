-- ===== src/Anomaly/Adaptive/Loosened.antt =====
-- What the reports of false positives do to the thresholds of the agents.
use secure_orchestration_mes.Prelude.{
  ℕ, sym, str_eq, eq_iff, ◌-◌, ◌*◌, ◌^◌, ◌≤◌, ◌≡◌, refl, ap, subst, String, List, [], ◌∷◌, true,
  length, arith, inl, inr, Option, none, some, Option-cases, if◌then◌else◌, Bool-cases, leb, ltb,
}
use secure_orchestration_mes.Dict.{AllEntries, get-put, put-AllEntries, get-AllEntries}
use secure_orchestration_mes.Dict
use secure_orchestration_mes.Anomaly.{AdaptiveThreshold, CombinedAnomalyEngine, one, append}
use secure_orchestration_mes.Anomaly.Adaptive.{
  Doubles, Moments, default_max_threshold, default_target_fpr, lower_factor, adaptive_threshold,
  sum_values, adjusted, adjust_with, adjust, noted, record_check, threshold_for, or_fresh,
  record_false_positive, get_threshold,
}

-- What the arithmetic of doubles keeps when it rounds: a sum is not below its first part, a product
-- with a number up to 1 not above its first part, and a number divided by itself is 1.
abbrev pub Rounds : Doubles → Type 0
Rounds d =
    ((x y : ℕ) → x ≤ d.add x y)
    × ((x y : ℕ) → y ≤ one → d.multiply x y ≤ x)
    × ((n : ℕ) → 1 ≤ n → d.divide n n ≡ one)

-- A threshold between two bounds, of which only false positives have been recorded.
abbrev pub IsLoose : ℕ → AdaptiveThreshold → Type 0
IsLoose low t =
    (low ≤ t.threshold)
    × (t.threshold ≤ t.max_threshold)
    × (t.max_threshold ≡ default_max_threshold)
    × (t.target_fpr ≡ default_target_fpr)
    × (t.fp_history ≡ t.total_checks)

adjusted-loose :
    (d : Doubles) (self : AdaptiveThreshold)
    → Rounds d
    → self.threshold ≤ self.max_threshold
    → self.target_fpr ≡ default_target_fpr
    → (self.threshold ≤ adjusted d one self) × (adjusted d one self ≤ self.max_threshold)
unfolding adjusted lower_factor default_target_fpr one
adjusted-loose d self (sums, products, same) high target =
    let sum = sums self.threshold self.adjustment_step in
    let product = products self.target_fpr lower_factor (omega arith) in
    (ground arith, ground arith)

adjust_with-IsLoose :
    (d : Doubles) (low total now : ℕ) (self : AdaptiveThreshold)
    → Rounds d
    → IsLoose low self
    → IsLoose low (adjust_with d total total now self)
unfolding adjust_with
adjust_with-IsLoose d low total now self (sums, products, same) h =
    elim (Bool-cases (leb total 0)) [
      | inl empty ↦ rw empty h
      | inr checked ↦
          let rate = same total (ground arith) in
          let bounds = adjusted-loose d self (sums, products, same) h.1 h.3 in
          rw checked (rw rate ((omega arith, bounds.1, h.2, h.3, h.4)))
    ]

adjust-IsLoose :
    (d : Doubles) (low now : ℕ) (self : AdaptiveThreshold)
    → Rounds d
    → IsLoose low self
    → IsLoose low (adjust d now self)
unfolding adjust
adjust-IsLoose d low now self r h = elim (Bool-cases (ltb (length self.fp_history) 100)) [
  | inl few ↦ rw few h
  | inr many ↦ rw many (
      subst (λ n. IsLoose low (adjust_with d (sum_values self.fp_history) n now self))
        (ap sum_values h.4) (adjust_with-IsLoose d low (sum_values self.fp_history) now self r h))
]

noted-IsLoose :
    (low now : ℕ) (self : AdaptiveThreshold) → IsLoose low self → IsLoose low (noted now true self)
unfolding noted
noted-IsLoose low now self (above, high, top, target, same) =
    (above, high, top, target, ap (λ xs. append (self.window_days * 86400) xs (now, 1)) same)

record_check-IsLoose :
    (d : Doubles) (low now later : ℕ) (self : AdaptiveThreshold)
    → Rounds d
    → IsLoose low self
    → IsLoose low (record_check d now later true self)
unfolding record_check
record_check-IsLoose d low now later self r h =
    let h' = noted-IsLoose low now self h in
    elim (Bool-cases (ltb (3600 * 2 ^ 22) (now - self.last_adjustment))) [
      | inl late ↦ rw late (adjust-IsLoose d low later (noted now true self) r h')
      | inr early ↦ rw early h'
    ]

fresh-IsLoose :
    (low now : ℕ) → low ≤ default_max_threshold → IsLoose low (adaptive_threshold low now)
unfolding adaptive_threshold
fresh-IsLoose low now h = (omega arith, h, refl, refl, refl)

-- Every threshold lies between the suspicious one and 0.90.
abbrev pub AreLoose : CombinedAnomalyEngine → Type 0
AreLoose self = AllEntries (λ k. IsLoose self.suspicious_threshold) self.adaptive_thresholds

threshold_for-IsLoose :
    (self : CombinedAnomalyEngine) (now : ℕ) (k : String)
    → self.suspicious_threshold ≤ default_max_threshold
    → AreLoose self
    → IsLoose self.suspicious_threshold (threshold_for self now k)
threshold_for-IsLoose self now k low h = elim (Option-cases (Dict.get self.adaptive_thresholds k)) [
  | inl missing ↦ rw missing (fresh-IsLoose self.suspicious_threshold now low)
  | inr (t, found) ↦
      rw found (
        get-AllEntries (λ k. IsLoose self.suspicious_threshold) self.adaptive_thresholds k t h
          found)
]

-- The reports of false positives, in order.
unfoldable pub report_all :
    Doubles → List (Moments × String) → CombinedAnomalyEngine → CombinedAnomalyEngine
report_all d [] self = self
report_all d ((at, k) ∷ calls) self = report_all d calls (record_false_positive d at k self)

report-AreLoose :
    (d : Doubles) (self : CombinedAnomalyEngine) (at : Moments) (k : String)
    → Rounds d
    → self.suspicious_threshold ≤ default_max_threshold
    → AreLoose self
    → AreLoose (record_false_positive d at k self)
unfolding record_false_positive
report-AreLoose d self at k r low h =
    put-AllEntries (λ k. IsLoose self.suspicious_threshold) self.adaptive_thresholds k _ h
      (record_check-IsLoose d self.suspicious_threshold at.recorded at.adjusted_at
        (threshold_for self at.created k) r (threshold_for-IsLoose self at.created k low h))

-- The threshold of a new object does not depend on the time.
threshold-or_fresh :
    (initial now later : ℕ) (o : Option AdaptiveThreshold)
    → (or_fresh (adaptive_threshold initial now) o).threshold
      ≡ (or_fresh (adaptive_threshold initial later) o).threshold
unfolding adaptive_threshold
threshold-or_fresh initial now later none = refl
threshold-or_fresh initial now later (some t) = refl

record_check-raises :
    (d : Doubles) (now later low : ℕ) (self : AdaptiveThreshold)
    → Rounds d
    → IsLoose low self
    → self.threshold ≤ (record_check d now later true self).threshold
record_check-raises d now later low self r h =
    (record_check-IsLoose d self.threshold now later self r (omega arith, h.1, h.2, h.3, h.4)).0

-- A report puts no agent's threshold down.
report-raises :
    (d : Doubles) (self : CombinedAnomalyEngine) (at : Moments) (j k : String) (now : ℕ)
    → Rounds d
    → self.suspicious_threshold ≤ default_max_threshold
    → AreLoose self
    → get_threshold self now k ≤ get_threshold (record_false_positive d at j self) now k
unfolding get_threshold record_false_positive
report-raises d self at j k now r low h =
    let initial = self.suspicious_threshold in
    let t = threshold_for self at.created j in
    let t' = record_check d at.recorded at.adjusted_at true t in
    let after : Dict.get (Dict.put self.adaptive_thresholds j t') k
        ≡ (if str_eq j k then some t' else Dict.get self.adaptive_thresholds k) =
      get-put self.adaptive_thresholds j k t' in
    subst
      (λ o.
        (threshold_for self now k).threshold
        ≤ (or_fresh (adaptive_threshold initial now) o).threshold)
      (sym after)
      (elim (Bool-cases (str_eq j k)) [
        | inl same ↦ rw same (
            let raised =
              record_check-raises d at.recorded at.adjusted_at initial t r
                (threshold_for-IsLoose self at.created j low h) in
            let this =
              threshold-or_fresh initial now at.created (Dict.get self.adaptive_thresholds j) in
            subst (λ i. (threshold_for self now i).threshold ≤ t'.threshold) ((eq_iff j k).0 same)
              (omega arith))
        | inr other ↦ rw other (omega arith)
      ])

-- While every threshold lies between the suspicious one and 0.90 and counts false positives only, as
-- those of a new engine do, reports of false positives put no agent's threshold down, and none above
-- 0.90, however many come and at whatever times: the branch that lowers a threshold is not reached.
-- The suspicious threshold is at most 0.90, and sums, products and quotients of doubles round as
-- those of IEEE 754 do.
pub get_threshold-report_all :
    (d : Doubles) (calls : List (Moments × String)) (self : CombinedAnomalyEngine) (k : String)
    (now : ℕ)
    → Rounds d
    → self.suspicious_threshold ≤ default_max_threshold
    → AreLoose self
    → (get_threshold self now k ≤ get_threshold (report_all d calls self) now k)
      × (get_threshold (report_all d calls self) now k ≤ default_max_threshold)
      × AreLoose (report_all d calls self)
unfolding report_all get_threshold record_false_positive
get_threshold-report_all d [] self k now r low h =
    let loose = threshold_for-IsLoose self now k low h in
    (omega arith, omega (arith, loose.1, loose.2), h)
get_threshold-report_all d ((at, j) ∷ calls) self k now r low h =
    let step = report-raises d self at j k now r low h in
    let rest =
      get_threshold-report_all d calls (record_false_positive d at j self) k now r low
        (report-AreLoose d self at j r low h) in
    (omega (arith, step, rest.0), rest.1, rest.2)
