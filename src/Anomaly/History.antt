-- ===== src/Anomaly/History.antt =====
-- The histories of the engine: what `should_quarantine` answers after a sequence of scores.
use mathlib.Core.List.{append-nil, append_assoc}
use secure_orchestration_mes.Prelude.{
  ℕ, zero, suc, ◌+◌, ◌-◌, ◌≤◌, ◌≡◌, refl, ap, ◌∙◌, sym, String, leb, ◌&&◌, none, List, [], ◌∷◌,
  ◌++◌, length, drop, all, arith, length-append, length-drop,
}
use secure_orchestration_mes.Dict.{Dict, get-put, get-put_self}
use secure_orchestration_mes.Dict
use secure_orchestration_mes.Anomaly.{
  CombinedAnomalyEngine, max_history, append, or_empty, history_of, update_history,
  calls_for_quarantine, recent, should_quarantine,
}

-- The last `n` elements, or all when there are fewer.
abbrev pub last {ℓ} : {A : Type ℓ} → ℕ → List A → List A
last n xs = drop (length xs - n) xs

drop-drop {ℓ} : {A : Type ℓ} (n m k : ℕ) (xs : List A) → k ≡ m + n → drop n (drop m xs) ≡ drop k xs
drop-drop n zero k xs e = ap (λ j. drop j xs) (omega arith)
drop-drop zero (suc m) zero [] e = refl
drop-drop zero (suc m) (suc k) [] e = refl
drop-drop (suc n) (suc m) zero [] e = refl
drop-drop (suc n) (suc m) (suc k) [] e = refl
drop-drop n (suc m) zero (x ∷ xs) e = absurd (omega arith)
drop-drop n (suc m) (suc k) (x ∷ xs) e = drop-drop n m k xs (omega arith)

drop-append {ℓ} :
    {A : Type ℓ} (n : ℕ) (xs ys : List A) → n ≤ length xs → drop n (xs ++ ys) ≡ drop n xs ++ ys
drop-append zero xs ys short = refl
drop-append (suc n) [] ys short = absurd (omega arith)
drop-append (suc n) (x ∷ xs) ys short = drop-append n xs ys (omega arith)

last-last {ℓ} : {A : Type ℓ} (n m : ℕ) (xs : List A) → n ≤ m → last n (last m xs) ≡ last n xs
last-last n m xs less =
    drop-drop (length (last m xs) - n) (length xs - m) (length xs - n) xs
      (omega (arith, length-drop (length xs - m) xs))

abbrev append_drop : ℕ → List ℕ → List ℕ
append_drop maxlen xs = drop (length xs - maxlen) xs

-- A deque keeps the last elements that were appended.
append-last :
    (maxlen : ℕ) (xs : List ℕ) (x : ℕ)
    → append maxlen (last maxlen xs) x ≡ last maxlen (xs ++ (x ∷ []))
unfolding append
append-last maxlen xs x =
    let b = length xs - maxlen in
    let xs' = xs ++ (x ∷ []) in
    ap (append_drop maxlen) (sym (drop-append b xs (x ∷ []) (omega arith)))
    ∙ drop-drop (length (drop b xs') - maxlen) b (length xs' - maxlen) xs'
        (omega (arith, length-drop b xs', length-append xs (x ∷ [])))

-- The scores of one agent, in order.
unfoldable pub update_all : List ℕ → String → CombinedAnomalyEngine → CombinedAnomalyEngine
update_all [] k self = self
update_all (s ∷ scores) k self = update_all scores k (update_history self k s)

history-update :
    (self : CombinedAnomalyEngine) (k : String) (s : ℕ)
    → history_of (update_history self k s) k ≡ append max_history (history_of self k) s
unfolding update_history
history-update self k s =
    ap or_empty (get-put_self self.agent_histories k (append max_history (history_of self k) s))

history-update_all :
    (scores before : List ℕ) (k : String) (self : CombinedAnomalyEngine)
    → history_of self k ≡ last max_history before
    → history_of (update_all scores k self) k ≡ last max_history (before ++ scores)
unfolding update_all
history-update_all [] before k self e = rw (append-nil before) e
history-update_all (s ∷ scores) before k self e =
    history-update_all scores (before ++ (s ∷ [])) k (update_history self k s) (
      history-update self k s
      ∙ ap (λ xs. append max_history xs s) e
      ∙ append-last max_history before s)
    ∙ ap (last max_history) (append_assoc before (s ∷ []) scores)

settings-update_all :
    (scores : List ℕ) (k : String) (self : CombinedAnomalyEngine)
    → ((update_all scores k self).consecutive_for_quarantine ≡ self.consecutive_for_quarantine)
      × ((update_all scores k self).suspicious_threshold ≡ self.suspicious_threshold)
unfolding update_all update_history
settings-update_all [] k self = (refl, refl)
settings-update_all (s ∷ scores) k self = settings-update_all scores k (update_history self k s)

recent-last : (n : ℕ) (history : List ℕ) → 1 ≤ n → recent n history ≡ last n history
unfolding recent
recent-last zero history pos = absurd (omega arith)
recent-last (suc n) history pos = refl

calls-last :
    (n m threshold : ℕ) (scores : List ℕ)
    → 1 ≤ n
    → n ≤ m
    → calls_for_quarantine n threshold (last m scores)
      ≡ leb n (length scores) && all (leb threshold) (last n scores)
unfolding calls_for_quarantine
calls-last n m threshold scores pos few =
    rw (recent-last n (last m scores) pos, last-last n m scores few)
      (ground (arith, length-drop (length scores - m) scores))

-- An agent with no history, after scores in a row, is to be quarantined exactly when there were as
-- many as `consecutive_for_quarantine`, and the last so many reached the threshold, for a setting
-- between 1 and the 100 scores that are kept.
pub should_quarantine_lem :
    (scores : List ℕ) (k : String) (self : CombinedAnomalyEngine)
    → Dict.get self.agent_histories k ≡ none
    → 1 ≤ self.consecutive_for_quarantine
    → self.consecutive_for_quarantine ≤ 100
    → should_quarantine (update_all scores k self) k
      ≡ leb self.consecutive_for_quarantine (length scores)
        && all (leb self.suspicious_threshold) (last self.consecutive_for_quarantine scores)
unfolding should_quarantine
should_quarantine_lem scores k self new pos few =
    let e = history-update_all scores [] k self (ap or_empty new) in
    let (same_count, same_threshold) = settings-update_all scores k self in
    rw (e, same_count, same_threshold)
      (calls-last self.consecutive_for_quarantine max_history self.suspicious_threshold scores pos
        few)
