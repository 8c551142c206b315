-- ===== src/Guardrail/Validate.antt =====
-- When `validate_inbound` passes a packet, and what it leaves behind.
use secure_orchestration_mes.Prelude.{
  ℕ, String, ◌≤◌, ◌≡◌, ◌≢◌, refl, ◌∙◌, ◌⊎◌, inl, inr, Bool, true, false, Option, some, [], arith,
  length, Bool-cases, Option-cases,
}
use secure_orchestration_mes.Messages.{Bytes, SignedPacket, TaskResult}
use secure_orchestration_mes.Crypto.{Primitives, CryptoSession}
use secure_orchestration_mes.Crypto
use secure_orchestration_mes.Tokens.{
  Jose, TokenIssuer, TokenPayload, Verified, accepted, rejected, key_error,
}
use secure_orchestration_mes.Tokens
use secure_orchestration_mes.Guardrail.{
  pass, reject_replay, GuardrailLayer, Validation, result, raised, reject, passed, check_replay,
  check_token, check_plaintext, validate_inbound, record_metric,
}
use secure_orchestration_mes.Guardrail.Replay.{again_refused, same_windows, max-check_replay}

abbrev pub is_pass : Validation → Bool
is_pass (result r) = passed r
is_pass raised = false

module _ (timestamp : String) (latency_us : ℕ) (parse_task_result : Bytes → Option TaskResult)
    (p : Primitives) (jose : Jose) (now : ℕ) (issuer : TokenIssuer) where
  abbrev pub validate :
      GuardrailLayer → SignedPacket → CryptoSession → String → Validation × GuardrailLayer
  validate = validate_inbound timestamp latency_us parse_task_result p jose now issuer

  -- Every check holds of the packet.
  pub record IsClean (g : GuardrailLayer) (packet : SignedPacket) (session : CryptoSession)
      (access_token : String) : Type 0 where
    pub authentic : Crypto.verify p session packet.payload packet.hmac_signature ≡ true
    pub fresh : (check_replay g session.session_id packet.sequence_number).0 ≡ true
    pub plaintext : Bytes
    pub decrypted : Crypto.decrypt p session packet.payload packet.sequence_number ≡ some plaintext
    pub fits : length packet.payload ≤ g.max_payload_bytes
    pub token : TokenPayload
    pub signed : Tokens.verify jose now issuer access_token ≡ accepted token
    pub task_result : TaskResult
    pub parsed : parse_task_result plaintext ≡ some task_result
    pub permitted : (task_result.payload ≡ []) ⊎ (token.permissions ≢ [])

  -- What steps 3 to 7 leave alone.
  check_plaintext-windows :
      (g : GuardrailLayer) (packet : SignedPacket) (session : CryptoSession) (access_token : String)
      → ((check_plaintext timestamp latency_us parse_task_result p jose now issuer g packet session
            access_token).1.seen_sequences
          ≡ g.seen_sequences)
        × ((check_plaintext timestamp latency_us parse_task_result p jose now issuer g packet
              session access_token).1.sequence_high_water
            ≡ g.sequence_high_water)
  unfolding check_plaintext check_token
  check_plaintext-windows g packet session access_token = (ground arith, ground arith)

  validate-windows :
      (g : GuardrailLayer) (packet : SignedPacket) (session : CryptoSession) (access_token : String)
      → Crypto.verify p session packet.payload packet.hmac_signature ≡ true
      → ((validate g packet session access_token).1.seen_sequences
          ≡ (check_replay g session.session_id packet.sequence_number).1.seen_sequences)
        × ((validate g packet session access_token).1.sequence_high_water
            ≡ (check_replay g session.session_id packet.sequence_number).1.sequence_high_water)
  unfolding validate_inbound
  validate-windows g packet session access_token authentic =
      let g' = (check_replay g session.session_id packet.sequence_number).1 in
      let (seen, high) = check_plaintext-windows g' packet session access_token in
      elim (Bool-cases (check_replay g session.session_id packet.sequence_number).0) [
        | inl fresh ↦ rw (authentic, fresh) (seen, high)
        | inr stale ↦ rw (authentic, stale) (refl, refl)
      ]

  not-fresh :
      (g : GuardrailLayer) (packet : SignedPacket) (session : CryptoSession) (access_token : String)
      → Crypto.verify p session packet.payload packet.hmac_signature ≡ true
      → (check_replay g session.session_id packet.sequence_number).0 ≡ false
      → (validate g packet session access_token).0 ≡ reject reject_replay
  unfolding validate_inbound
  not-fresh g packet session access_token authentic stale = rw (authentic, stale)

  -- A packet with a correct HMAC uses its sequence number up, whatever the outcome: the same packet,
  -- with any token, is then rejected as a replay.
  pub authentic_once :
      (g : GuardrailLayer) (packet : SignedPacket) (session : CryptoSession)
      (access_token later_token : String)
      → Crypto.verify p session packet.payload packet.hmac_signature ≡ true
      → (validate (validate g packet session access_token).1 packet session later_token).0
        ≡ reject reject_replay
  authentic_once g packet session access_token later_token authentic =
      let (seen, high) = validate-windows g packet session access_token authentic in
      not-fresh (validate g packet session access_token).1 packet session later_token authentic (
        same_windows (validate g packet session access_token).1
          (check_replay g session.session_id packet.sequence_number).1 session.session_id
          packet.sequence_number seen high
        ∙ again_refused g session.session_id packet.sequence_number)

  -- A clean packet passes: the result names its task and the agent of its token, and one metric is
  -- added, beside the sequence number.
  pub validate-IsClean :
      (g : GuardrailLayer) (packet : SignedPacket) (session : CryptoSession) (access_token : String)
      (clean : IsClean g packet session access_token)
      → validate g packet session access_token ≡ (
        result (record {
          outcome = pass;
          task_id = clean.task_result.task_id;
          agent_id = clean.token.agent_id;
        }),
        record_metric
            (check_replay g session.session_id packet.sequence_number).1
            clean.token.agent_id
            clean.task_result.task_id
            timestamp
            latency_us
            (length packet.payload),
      )
  unfolding validate_inbound check_plaintext check_token
  validate-IsClean g packet session access_token clean =
      ground (arith, max-check_replay g session.session_id packet.sequence_number)

  abbrev PassesWith : GuardrailLayer → SignedPacket → Bytes → Verified → Type 0
  PassesWith g packet plaintext verified =
      (token : TokenPayload) × (verified ≡ accepted token)
      × (task_result : TaskResult) × (parse_task_result plaintext ≡ some task_result)
      × ((task_result.payload ≡ []) ⊎ (token.permissions ≢ []))

  check_token-pass :
      (g : GuardrailLayer) (packet : SignedPacket) (plaintext : Bytes) (verified : Verified)
      → is_pass (check_token timestamp latency_us parse_task_result g packet plaintext verified).0
        ≡ true
      → PassesWith g packet plaintext verified
  unfolding check_token passed
  check_token-pass g packet plaintext rejected h = absurd (cc)
  check_token-pass g packet plaintext key_error h = absurd (cc)
  check_token-pass g packet plaintext (accepted token) h =
      elim (Option-cases (parse_task_result plaintext)) [
        | inl failed ↦ absurd (ground arith)
        | inr (task_result, parsed) ↦ (token, refl, task_result, parsed, ground arith)
      ]

  -- A packet passes only if every check holds of it: a correct HMAC, a sequence number that the
  -- session accepts, a text that decrypts, a size within the limit, a token that verifies, a parsed
  -- result, and permissions where the result has a payload.
  pub passing-IsClean :
      (g : GuardrailLayer) (packet : SignedPacket) (session : CryptoSession) (access_token : String)
      → is_pass (validate g packet session access_token).0 ≡ true
      → IsClean g packet session access_token
  unfolding validate_inbound check_plaintext passed
  passing-IsClean g packet session access_token h =
      elim (Option-cases (Crypto.decrypt p session packet.payload packet.sequence_number)) [
        | inl failed ↦ absurd (ground arith)
        | inr (plaintext, decrypted) ↦
            let g' = (check_replay g session.session_id packet.sequence_number).1 in
            let (token, signed, task_result, parsed, permitted) =
              check_token-pass g' packet plaintext (Tokens.verify jose now issuer access_token)
                (ground arith) in
            record {
              authentic = ground arith;
              fresh = ground arith;
              plaintext = plaintext;
              decrypted = decrypted;
              fits = ground (arith, max-check_replay g session.session_id packet.sequence_number);
              token = token;
              signed = signed;
              task_result = task_result;
              parsed = parsed;
              permitted = permitted;
            }
      ]
