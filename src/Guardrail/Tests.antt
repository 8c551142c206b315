-- ===== src/Guardrail/Tests.antt =====
-- Packets through the guardrail, over the toy primitives and tokens.
use secure_orchestration_mes.Prelude.{
  ℕ, String, zero, suc, ◌≤◌, ◌<◌, ◌≡◌, refl, inr, true, false, Option, some, List, [], ◌∷◌, ◌*◌,
  arith, length,
}
use secure_orchestration_mes.Dict.{get}
use secure_orchestration_mes.Messages.{Bytes, SignedPacket, TaskResult, completed}
use secure_orchestration_mes.Crypto.{CryptoSession, verify, decrypt}
use secure_orchestration_mes.Crypto.{bytes_eq, derive_nonce, decrypt_payload, big_endian}
use secure_orchestration_mes.Crypto.Tests.{toy_primitives}
use secure_orchestration_mes.Tokens.{second, sorted, TokenPayload, accepted}
use secure_orchestration_mes.Tokens
use secure_orchestration_mes.Tokens.Tests.{toy_jose, sample_issuer}
use secure_orchestration_mes.Guardrail.{
  GuardrailLayer, result, reject, reject_replay, pass, check_replay, passed, validate_inbound,
  record_metric, has, init,
}
use secure_orchestration_mes.Guardrail.Replay.{accepted_refused_later, replay_accepted, run_checks}
use secure_orchestration_mes.Guardrail.Window.{answers, promised, answers-init}
use secure_orchestration_mes.Guardrail.Validate.{
  validate-IsClean, passing-IsClean, authentic_once, IsClean, is_pass,
}

abbrev session : CryptoSession
session = record {
  agent_private = [];
  agent_public = [];
  orchestrator_public = [];
  session_key = 3 ∷ [];
  nonce_base = 4 ∷ [];
  session_id = "a";
  sequence_counter = 0;
}

abbrev packet : SignedPacket
packet = record { payload = 7 ∷ 8 ∷ []; hmac_signature = 3 ∷ 7 ∷ 8 ∷ []; sequence_number = 1 }

abbrev task_result : TaskResult
task_result = record {
  task_id = "t1";
  state = completed;
  payload = 8 ∷ [];
  error_message = "";
  completed_at = "";
  sequence_number = 2;
  metrics = record {
    execution_time_ms = 0;
    result_payload_bytes = 1;
    external_call_count = 0;
    error_count = 0;
    peak_memory_bytes = 0;
  };
}

abbrev parse : Bytes → Option TaskResult
parse b = some task_result

abbrev empty : GuardrailLayer
empty = record {
  max_payload_bytes = 10;
  seen_sequences = [];
  sequence_high_water = [];
  metrics_buffer = [];
}

abbrev payload_granted : TokenPayload
payload_granted = record {
  agent_id = "a";
  task_id = "t1";
  permissions = "read" ∷ "write" ∷ [];
  expires_at = 61;
}

packet-IsClean :
    IsClean "" 5 parse toy_primitives toy_jose (2 * second) sample_issuer empty packet session "t"
unfolding verify bytes_eq check_replay has get decrypt decrypt_payload derive_nonce big_endian
    Tokens.verify sorted
packet-IsClean = record {
  authentic = refl;
  fresh = refl;
  plaintext = 8 ∷ [];
  decrypted = refl;
  fits = omega arith;
  token = payload_granted;
  signed = refl;
  task_result = task_result;
  parsed = refl;
  permitted = inr (λ e. cc);
}

packet_validated :
    validate_inbound "" 5 parse toy_primitives toy_jose
      (2 * second)
      sample_issuer
      empty
      packet
      session
      "t"
    ≡ (
      result (record { outcome = pass; task_id = "t1"; agent_id = "a" }),
      record_metric (check_replay empty "a" 1).1 "a" "t1" "" 5 2,
    )
unfolding packet-IsClean
packet_validated =
    validate-IsClean "" 5 parse toy_primitives toy_jose (2 * second) sample_issuer empty packet
      session "t" packet-IsClean

packet_passes :
    is_pass
      (validate_inbound "" 5 parse toy_primitives toy_jose
        (2 * second)
        sample_issuer
        empty
        packet
        session
        "t").0
    ≡ true
unfolding passed packet-IsClean
packet_passes = rw packet_validated

passing-IsClean_example :
    IsClean "" 5 parse toy_primitives toy_jose (2 * second) sample_issuer empty packet session "t"
passing-IsClean_example =
    passing-IsClean "" 5 parse toy_primitives toy_jose (2 * second) sample_issuer empty packet
      session "t" packet_passes

authentic_once_example :
    (validate_inbound "" 5 parse toy_primitives toy_jose
      (2 * second)
      sample_issuer
      (validate_inbound "" 5 parse toy_primitives toy_jose
        (2 * second)
        sample_issuer
        empty
        packet
        session
        "t").1
      packet
      session
      "t").0
    ≡ reject reject_replay
authentic_once_example =
    authentic_once "" 5 parse toy_primitives toy_jose (2 * second) sample_issuer empty packet
      session "t" "t" packet-IsClean.authentic

accepted_refused_later_example :
    (check_replay (run_checks (("a", 2) ∷ ("b", 1) ∷ []) (check_replay empty "a" 1).1) "a" 1).0
    ≡ false
unfolding get
accepted_refused_later_example =
    accepted_refused_later empty "a" 1 (("a", 2) ∷ ("b", 1) ∷ []) packet-IsClean.fresh (omega arith)

-- The numbers below `n`.
upto : ℕ → List ℕ
upto zero = []
upto (suc n) = n ∷ upto n

length-upto : (n : ℕ) → length (upto n) ≡ n
unfolding upto
length-upto zero = refl
length-upto (suc n) = omega (arith, length-upto n)

has-upto : (n s : ℕ) → s < n → has (upto n) s ≡ true
unfolding upto has
has-upto zero s h = absurd (omega arith)
has-upto (suc n) s h = ground (arith, has-upto n s)

not-has-upto : (n s : ℕ) → n ≤ s → has (upto n) s ≡ false
unfolding upto has
not-has-upto zero s h = refl
not-has-upto (suc n) s h = ground (arith, not-has-upto n s)

-- A session that has accepted the numbers 0 to 10000.
abbrev full : GuardrailLayer
full = record {
  max_payload_bytes = 10;
  seen_sequences = ("a", upto 10001) ∷ [];
  sequence_high_water = ("a", 10000) ∷ [];
  metrics_buffer = [];
}

full_fresh : (check_replay full "a" 20000).0 ≡ true
unfolding check_replay get
full_fresh = rw (not-has-upto 10001 20000 (omega arith))

replay_accepted_example : (check_replay (check_replay full "a" 20000).1 "a" 9000).0 ≡ true
unfolding get
replay_accepted_example =
    replay_accepted full "a" 20000 9000 full_fresh (omega (arith, length-upto 10001))
      (has-upto 10001 9000 (omega arith)) (omega arith) (omega arith)

abbrev arrivals : List (String × ℕ)
arrivals = ("a", 1) ∷ ("b", 1) ∷ ("a", 1) ∷ ("a", 200000) ∷ ("a", 5) ∷ []

few_arrivals : length arrivals ≤ 10001
few_arrivals = omega arith

answers-init_example : answers (init 1024) arrivals ≡ promised [] arrivals
answers-init_example = answers-init 1024 arrivals few_arrivals
