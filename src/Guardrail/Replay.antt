-- ===== src/Guardrail/Replay.antt =====
-- Which sequence numbers the window accepts.
use secure_orchestration_mes.Prelude.{
  ℕ, String, ◌+◌, ◌≤◌, ◌<◌, ◌≡◌, refl, inl, inr, true, false, List, [], ◌∷◌, arith, length, max,
  Bool-cases, if◌then◌else◌, eq_refl, eq_iff, str_eq, sym, ◌∙◌,
}
use mathlib.Core.Path.{ap₂}
use secure_orchestration_mes.Dict
use secure_orchestration_mes.Dict.{Dict, get-put}
use secure_orchestration_mes.Guardrail.{
  GuardrailLayer, has, prune, check_window, check_replay, max_window_drift, get_or,
}

if_self {ℓ} : {A : Type ℓ} (k : String) (x y : A) → (if str_eq k k then x else y) ≡ x
if_self k x y = rw (eq_refl k)

-- A number that is in the set is refused.
seen_refused :
    (seen : List ℕ) (high seq : ℕ) → has seen seq ≡ true → (check_window seen high seq).0 ≡ false
unfolding check_window
seen_refused seen high seq h = ground arith

-- While the set is small a check forgets nothing, and adds one number at most.
check_window-remembers :
    (seen : List ℕ) (high seq s : ℕ)
    → length seen ≤ 10000
    → has seen s ≡ true
    → (has (check_window seen high seq).1 s ≡ true)
      × (length (check_window seen high seq).1 ≤ length seen + 1)
unfolding check_window has
check_window-remembers seen high seq s small h = ground arith

-- The set and the highest number of a session.
abbrev pub seen_of : GuardrailLayer → String → List ℕ
seen_of g session_id = get_or g.seen_sequences session_id []

abbrev pub high_of : GuardrailLayer → String → ℕ
high_of g session_id = get_or g.sequence_high_water session_id 0

pub get_or-put {ℓ} :
    {V : Type ℓ} (d : Dict V) (k j : String) (v default : V)
    → get_or (Dict.put d k v) j default ≡ (if str_eq k j then v else get_or d j default)
get_or-put d k j v default = elim (Bool-cases (str_eq k j)) [
  | inl same ↦ ground (arith, get-put d k j v)
  | inr other ↦ ground (arith, get-put d k j v)
]

-- What a check does to the window of a session, its own or another.
pub seen-check_replay :
    (g : GuardrailLayer) (k j : String) (seq : ℕ)
    → seen_of (check_replay g k seq).1 j
      ≡ (if str_eq k j then (check_window (seen_of g k) (high_of g k) seq).1 else seen_of g j)
unfolding check_replay
seen-check_replay g k j seq =
    get_or-put g.seen_sequences k j (check_window (seen_of g k) (high_of g k) seq).1 []

pub high-check_replay :
    (g : GuardrailLayer) (k : String) (seq : ℕ)
    → high_of (check_replay g k seq).1 k ≡ (check_window (seen_of g k) (high_of g k) seq).2
unfolding check_replay
high-check_replay g k seq =
    get_or-put g.sequence_high_water k k (check_window (seen_of g k) (high_of g k) seq).2 0
    ∙ if_self k _ _

pub fresh-check_replay :
    (g : GuardrailLayer) (k : String) (seq : ℕ)
    → (check_replay g k seq).0 ≡ (check_window (seen_of g k) (high_of g k) seq).0
unfolding check_replay
fresh-check_replay g k seq = refl

-- A check of any session keeps what a small set remembers.
check_replay-remembers :
    (g : GuardrailLayer) (k j : String) (seq s : ℕ)
    → length (seen_of g k) ≤ 10000
    → has (seen_of g k) s ≡ true
    → (has (seen_of (check_replay g j seq).1 k) s ≡ true)
      × (length (seen_of (check_replay g j seq).1 k) ≤ length (seen_of g k) + 1)
check_replay-remembers g k j seq s small h = elim (Bool-cases (str_eq j k)) [
  | inl same ↦
      rw (seen-check_replay g j k seq, same, (eq_iff j k).0 same)
        (check_window-remembers (seen_of g k) (high_of g k) seq s small h)
  | inr other ↦ rw (seen-check_replay g j k seq, other) (h, omega arith)
]

-- The checks of a list of packets, each by its session and its number.
pub run_checks : List (String × ℕ) → GuardrailLayer → GuardrailLayer
run_checks [] g = g
run_checks ((j, seq) ∷ packets) g = run_checks packets (check_replay g j seq).1

run_checks-remembers :
    (packets : List (String × ℕ)) (g : GuardrailLayer) (k : String) (s : ℕ)
    → length (seen_of g k) + length packets ≤ 10001
    → has (seen_of g k) s ≡ true
    → has (seen_of (run_checks packets g) k) s ≡ true
unfolding run_checks
run_checks-remembers [] g k s small h = h
run_checks-remembers ((j, seq) ∷ packets) g k s small h =
    let (still, grown) = check_replay-remembers g k j seq s (omega arith) h in
    run_checks-remembers packets (check_replay g j seq).1 k s (omega arith) still

accepted-has :
    (seen : List ℕ) (high seq : ℕ)
    → (check_window seen high seq).0 ≡ true
    → (has (check_window seen high seq).1 seq ≡ true)
      × (length seen ≤ 10000 → length (check_window seen high seq).1 ≤ length seen + 1)
unfolding check_window has
accepted-has seen high seq fresh = (ground arith, λ small. ground arith)

refused :
    (g : GuardrailLayer) (k : String) (s : ℕ)
    → has (seen_of g k) s ≡ true
    → (check_replay g k s).0 ≡ false
refused g k s h = fresh-check_replay g k s ∙ seen_refused (seen_of g k) (high_of g k) s h

-- A sequence number that a session has accepted is refused when it comes again, after any packets
-- of any sessions in between, as long as the numbers that the session remembered and the packets in
-- between are 10000 at most.
pub accepted_refused_later :
    (g : GuardrailLayer) (k : String) (s : ℕ) (packets : List (String × ℕ))
    → (check_replay g k s).0 ≡ true
    → length (seen_of g k) + length packets ≤ 10000
    → (check_replay (run_checks packets (check_replay g k s).1) k s).0 ≡ false
accepted_refused_later g k s packets fresh small =
    let (there, grown) =
      accepted-has (seen_of g k) (high_of g k) s (sym (fresh-check_replay g k s) ∙ fresh) in
    let now_seen = seen-check_replay g k k s ∙ if_self k _ _ in
    refused _ k s (
      run_checks-remembers packets (check_replay g k s).1 k s
        (rw now_seen (omega (arith, grown (omega arith)))) (rw now_seen there))

window_again :
    (seen : List ℕ) (high seq : ℕ)
    → (check_window (check_window seen high seq).1 (check_window seen high seq).2 seq).0 ≡ false
unfolding check_window has
window_again seen high seq = ground arith

-- A number that comes twice in a row is refused the second time, whatever the session remembers.
pub again_refused :
    (g : GuardrailLayer) (k : String) (s : ℕ) → (check_replay (check_replay g k s).1 k s).0 ≡ false
again_refused g k s =
    rw
      (
        fresh-check_replay (check_replay g k s).1 k s,
        seen-check_replay g k k s,
        high-check_replay g k s,
        eq_refl k,
      )
      (window_again (seen_of g k) (high_of g k) s)

pub max-check_replay :
    (g : GuardrailLayer) (k : String) (s : ℕ)
    → (check_replay g k s).1.max_payload_bytes ≡ g.max_payload_bytes
unfolding check_replay
max-check_replay g k s = refl

-- The answer depends on the windows alone.
pub same_windows :
    (g h : GuardrailLayer) (k : String) (s : ℕ)
    → g.seen_sequences ≡ h.seen_sequences
    → g.sequence_high_water ≡ h.sequence_high_water
    → (check_replay g k s).0 ≡ (check_replay h k s).0
unfolding check_replay
same_windows g h k s seen high =
    ap₂ (λ a b. (check_window (get_or a k []) (get_or b k 0) s).0) seen high

prune-forgets : (seq s : ℕ) (seen : List ℕ) → s + 5000 ≤ seq → has (prune seq seen) s ≡ false
unfolding prune has
prune-forgets seq s [] far = refl
prune-forgets seq s (t ∷ seen) far = ground (arith, prune-forgets seq s seen far)

forgotten :
    (seen : List ℕ) (high seq s : ℕ)
    → (check_window seen high seq).0 ≡ true
    → 10000 < length seen
    → s + 5000 ≤ seq
    → max high seq < s + max_window_drift
    → (check_window (check_window seen high seq).1 (check_window seen high seq).2 s).0 ≡ true
unfolding check_window has
forgotten seen high seq s fresh large far near = ground (arith, prune-forgets seq s seen far)

-- Once a session remembers more than 10000 numbers, accepting a number forgets all that are 5000 or
-- more below it, and each of those within 100000 of the highest number is then accepted, also when
-- it was accepted before.
pub replay_accepted :
    (g : GuardrailLayer) (k : String) (seq s : ℕ)
    → (check_replay g k seq).0 ≡ true
    → 10000 < length (seen_of g k)
    → has (seen_of g k) s ≡ true
    → s + 5000 ≤ seq
    → max (high_of g k) seq < s + max_window_drift
    → (check_replay (check_replay g k seq).1 k s).0 ≡ true
replay_accepted g k seq s fresh large old far near =
    rw
      (
        fresh-check_replay (check_replay g k seq).1 k s,
        seen-check_replay g k k seq,
        high-check_replay g k seq,
        eq_refl k,
      )
      (forgotten (seen_of g k) (high_of g k) seq s (sym (fresh-check_replay g k seq) ∙ fresh) large
        far near)
