-- ===== src/Guardrail/Window.antt =====
-- The replay window of orchestrator/guardrail.py against the promise that it keeps.
use secure_orchestration_mes.Prelude.{
  ℕ, String, ◌+◌, ◌≤◌, ◌≡◌, refl, sym, ap, ◌∙◌, not, ◌&&◌, inl, inr, Bool, true, false, List, [],
  ◌∷◌, arith, ltb, length, max, Bool-cases, if◌then◌else◌, eq_iff, str_eq,
}
use mathlib.Core.Path.{ap₂}
use secure_orchestration_mes.Dict
use secure_orchestration_mes.Guardrail.{
  GuardrailLayer, init, has, check_window, check_replay, max_window_drift,
}
use secure_orchestration_mes.Guardrail.Replay.{
  seen_of, high_of, get_or-put, seen-check_replay, fresh-check_replay,
}

-- The promise: of the packets so far those that were accepted are remembered for good, each as its
-- session and its number, and one is accepted when its session has not accepted its number before and the
-- number is less than the drift below the highest that its session has accepted.
abbrev pub History : Type 0
History = List (String × ℕ)

unfoldable pub numbers : String → History → List ℕ
numbers k [] = []
numbers k ((j, seq) ∷ history) =
    let rest = numbers k history in if str_eq j k then seq ∷ rest else rest

unfoldable pub highest : List ℕ → ℕ
highest [] = 0
highest (seq ∷ seqs) = max (highest seqs) seq

unfoldable pub accepts : History → String → ℕ → Bool
accepts history k seq =
    not (has (numbers k history) seq) && ltb (highest (numbers k history)) (seq + max_window_drift)

abbrev pub remember : History → String → ℕ → Bool → History
remember history k seq fresh = if fresh then (k, seq) ∷ history else history

unfoldable pub promised : History → History → List Bool
promised history [] = []
promised history ((k, seq) ∷ packets) =
    accepts history k seq ∷ promised (remember history k seq (accepts history k seq)) packets

-- The answers of the code to the packets of a history.
unfoldable pub answers : GuardrailLayer → History → List Bool
answers g [] = []
answers g ((k, seq) ∷ packets) = (check_replay g k seq).0 ∷ answers (check_replay g k seq).1 packets

-- The state of the code for what the promise remembers.
abbrev Represents : GuardrailLayer → History → Type 0
Represents g history =
    (k : String) → (seen_of g k ≡ numbers k history) × (high_of g k ≡ highest (numbers k history))

-- A small window forgets nothing.
check_window-small :
    (seen : List ℕ) (seq : ℕ)
    → length seen ≤ 10000
    → let fresh = not (has seen seq) && ltb (highest seen) (seq + max_window_drift) in
      check_window seen (highest seen) seq ≡ (
        fresh,
        (if fresh then seq ∷ seen else seen),
        (if fresh then max (highest seen) seq else highest seen),
      )
unfolding check_window
check_window-small seen seq small = ground arith

high-check_replay_of :
    (g : GuardrailLayer) (k j : String) (seq : ℕ)
    → high_of (check_replay g k seq).1 j
      ≡ (if str_eq k j then (check_window (seen_of g k) (high_of g k) seq).2 else high_of g j)
unfolding check_replay
high-check_replay_of g k j seq =
    get_or-put g.sequence_high_water k j (check_window (seen_of g k) (high_of g k) seq).2 0

length-numbers : (k : String) (history : History) → length (numbers k history) ≤ length history
unfolding numbers
length-numbers k [] = omega arith
length-numbers k ((j, seq) ∷ history) = ground (arith, length-numbers k history)

numbers-remember :
    (history : History) (k j : String) (seq : ℕ) (fresh : Bool)
    → numbers j (remember history k seq fresh) ≡ (
        if str_eq k j
        then if fresh then seq ∷ numbers j history else numbers j history
        else numbers j history)
unfolding numbers
numbers-remember history k j seq true = refl
numbers-remember history k j seq false = ground arith

highest-if :
    (seqs : List ℕ) (seq : ℕ) (fresh : Bool)
    → highest (if fresh then seq ∷ seqs else seqs)
      ≡ (if fresh then max (highest seqs) seq else highest seqs)
unfolding highest
highest-if seqs seq true = refl
highest-if seqs seq false = refl

module _ (g : GuardrailLayer) (history : History) (rep : Represents g history)
    (small : length history ≤ 10000) where
  window_of :
      (k : String) (seq : ℕ)
      → let fresh = accepts history k seq in
        check_window (seen_of g k) (high_of g k) seq ≡ (
          fresh,
          (if fresh then seq ∷ numbers k history else numbers k history),
          (if fresh then max (highest (numbers k history)) seq else highest (numbers k history)),
        )
  unfolding accepts
  window_of k seq =
      rw ((rep k).0, (rep k).1)
        (check_window-small (numbers k history) seq (omega (arith, length-numbers k history)))

  answer_of : (k : String) (seq : ℕ) → (check_replay g k seq).0 ≡ accepts history k seq
  answer_of k seq = fresh-check_replay g k seq ∙ ap (λ w. w.0) (window_of k seq)

  next-Represents :
      (k : String) (seq : ℕ)
      → Represents (check_replay g k seq).1 (remember history k seq (accepts history k seq))
  next-Represents k seq j = elim (Bool-cases (str_eq k j)) [
    | inl same ↦
        let k≡j = (eq_iff k j).0 same in
        rw
          (
            seen-check_replay g k j seq,
            high-check_replay_of g k j seq,
            numbers-remember,
            same,
            window_of k seq,
            k≡j,
          )
          (refl, sym (highest-if (numbers j history) seq (accepts history j seq)))
    | inr other ↦
        rw (seen-check_replay g k j seq, high-check_replay_of g k j seq, numbers-remember, other)
          (rep j)
  ]

length-remember :
    (history : History) (k : String) (seq : ℕ) (fresh : Bool)
    → length (remember history k seq fresh) ≤ length history + 1
length-remember history k seq fresh = ground arith

answers-promised :
    (g : GuardrailLayer) (history packets : History)
    → Represents g history
    → length history + length packets ≤ 10001
    → answers g packets ≡ promised history packets
unfolding answers promised
answers-promised g history [] rep small = refl
answers-promised g history ((k, seq) ∷ packets) rep small =
    let fresh = accepts history k seq in
    let few : length history ≤ 10000 = omega arith in
    ap₂ (λ b bs. b ∷ bs) (answer_of g history rep few k seq)
      (answers-promised (check_replay g k seq).1 (remember history k seq fresh) packets
        (next-Represents g history rep few k seq)
        (omega (arith, length-remember history k seq fresh)))

init-Represents : (max_payload_bytes : ℕ) → Represents (init max_payload_bytes) []
unfolding init numbers highest Dict.get
init-Represents max_payload_bytes k = (refl, refl)

-- A new guardrail answers the first 10001 packets, of whatever sessions and in whatever order they
-- come, as the promise does that remembers every accepted number for good.
pub answers-init :
    (max_payload_bytes : ℕ) (packets : List (String × ℕ))
    → length packets ≤ 10001
    → answers (init max_payload_bytes) packets ≡ promised [] packets
answers-init max_payload_bytes packets small =
    answers-promised (init max_payload_bytes) [] packets (init-Represents max_payload_bytes)
      (omega arith)
