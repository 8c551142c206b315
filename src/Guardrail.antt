-- ===== src/Guardrail.antt =====
-- orchestrator/guardrail.py: the checks that a packet passes before its result is processed.
--
-- The token issuer is an argument, since the program shares one. Parsing protobuf is a parameter.
-- The text of `detail` and `elapsed_microseconds` are left out of a result; the metric has the
-- latency and the time stamp that it is given.
pub mod Replay
pub mod Validate
mod Window
mod Tests
use secure_orchestration_mes.Prelude.{
  ℕ, String, ◌+◌, ◌*◌, ◌≡◌, Bool, true, false, not, ◌||◌, ◌&&◌, Option, none, some, List, [], ◌∷◌,
  ◌++◌, ltb, leb, ◌==◌, if◌then◌else◌, length, any, max,
}
use secure_orchestration_mes.Dict
use secure_orchestration_mes.Dict.{Dict}
use secure_orchestration_mes.Messages.{Bytes, SignedPacket, TaskResult}
use secure_orchestration_mes.Crypto.{Primitives, CryptoSession}
use secure_orchestration_mes.Crypto
use secure_orchestration_mes.Tokens.{
  Jose, TokenIssuer, TokenPayload, Verified, accepted, rejected, key_error,
}
use secure_orchestration_mes.Tokens

pub data ValidationOutcome : Type 0 where
  pass reject_expired_jwt reject_permission_out_of_scope reject_hmac_mismatch : ValidationOutcome
  reject_payload_oversize reject_replay reject_schema_violation : ValidationOutcome
  reject_missing_session : ValidationOutcome

pub record GuardrailResult : Type 0 where
  pub outcome : ValidationOutcome
  pub task_id : String
  pub agent_id : String

unfoldable pub passed : GuardrailResult → Bool
passed r = elim r.outcome [ pass ↦ true | _ ↦ false ]

pub record Metric : Type 0 where
  pub agent_id : String
  pub task_id : String
  pub timestamp : String
  pub payload_bytes : ℕ
  pub latency_us : ℕ
  pub error_code : String

abbrev pub default_max_payload_bytes : ℕ
default_max_payload_bytes = 10 * 1024 * 1024

abbrev pub max_window_drift : ℕ
max_window_drift = 100000

pub record GuardrailLayer : Type 0 where
  pub max_payload_bytes : ℕ
  pub seen_sequences : Dict (List ℕ)
  pub sequence_high_water : Dict ℕ
  pub metrics_buffer : List Metric

unfoldable pub init : ℕ → GuardrailLayer
init max_payload_bytes = record {
  max_payload_bytes = max_payload_bytes;
  seen_sequences = [];
  sequence_high_water = [];
  metrics_buffer = [];
}

-- `d[k]` of a defaultdict.
abbrev pub get_or {ℓ} : {V : Type ℓ} → Dict V → String → V → V
get_or d k default = elim (Dict.get d k) [ none ↦ default | some v ↦ v ]

-- `s in sequences`
unfoldable pub has : List ℕ → ℕ → Bool
has [] seq = false
has (s ∷ sequences) seq = s == seq || has sequences seq

-- `{s for s in sequences if s > seq - 5000}`
unfoldable pub prune : ℕ → List ℕ → List ℕ
prune seq [] = []
prune seq (s ∷ sequences) =
    let rest = prune seq sequences in if ltb seq (s + 5000) then s ∷ rest else rest

-- The check of one session: the numbers seen, the highest of them, and the new number. A set is a
-- list without repetitions, since a number is added only if it is not there.
unfoldable pub check_window : List ℕ → ℕ → ℕ → Bool × List ℕ × ℕ
unfolding has prune
check_window seq_set high_water seq =
    if leb (seq + max_window_drift) high_water
    then (false, seq_set, high_water)
    else if has seq_set seq
    then (false, seq_set, high_water)
    else (let kept = if ltb 10000 (length seq_set) then prune seq seq_set else seq_set in
        (true, seq ∷ kept, max high_water seq))

-- Reading a defaultdict creates the entry, so both entries are there afterwards on every path.
unfoldable pub check_replay : GuardrailLayer → String → ℕ → Bool × GuardrailLayer
unfolding check_window
check_replay self session_id seq =
    let (fresh, seq_set, high_water) =
      check_window (get_or self.seen_sequences session_id [])
        (get_or self.sequence_high_water session_id 0) seq in
    (
      fresh,
      record self {
        seen_sequences = Dict.put self.seen_sequences session_id seq_set;
        sequence_high_water = Dict.put self.sequence_high_water session_id high_water;
      },
    )

unfoldable pub record_metric :
    GuardrailLayer
    → (agent_id task_id timestamp : String) (latency_us payload_bytes : ℕ) → GuardrailLayer
record_metric self agent_id task_id timestamp latency_us payload_bytes = record self {
  metrics_buffer =
      self.metrics_buffer
      ++ record {
        agent_id = agent_id;
        task_id = task_id;
        timestamp = timestamp;
        payload_bytes = payload_bytes;
        latency_us = latency_us;
        error_code = "";
      }
        ∷ [];
}

unfoldable pub drain_metrics : GuardrailLayer → List Metric × GuardrailLayer
drain_metrics self = (self.metrics_buffer, record self { metrics_buffer = [] })

-- How a validation ends: with a result, or with the KeyError that `TokenIssuer.verify` raised.
pub data Validation : Type 0 where
  result : GuardrailResult → Validation
  raised : Validation

abbrev pub reject : ValidationOutcome → Validation
reject outcome = result (record { outcome = outcome; task_id = ""; agent_id = "" })

abbrev is_empty {ℓ} : {A : Type ℓ} → List A → Bool
is_empty [] = true
is_empty (x ∷ xs) = false

module _ (timestamp : String) (latency_us : ℕ) where
  -- Step 7 and the metric.
  unfoldable pub check_permissions :
      GuardrailLayer → SignedPacket → TokenPayload → TaskResult → Validation × GuardrailLayer
  unfolding record_metric
  check_permissions self packet token task_result =
      if not (is_empty task_result.payload) && is_empty token.permissions
      then (
        result (record {
          outcome = reject_permission_out_of_scope;
          task_id = task_result.task_id;
          agent_id = token.agent_id;
        }),
        self,
      )
      else (
        result
            (record { outcome = pass; task_id = task_result.task_id; agent_id = token.agent_id }),
        record_metric self token.agent_id task_result.task_id timestamp latency_us
            (length packet.payload),
      )

  module _ (parse_task_result : Bytes → Option TaskResult) where
    -- Steps 5 and 6, on the answer of the token issuer.
    unfoldable pub check_token :
        GuardrailLayer → SignedPacket → Bytes → Verified → Validation × GuardrailLayer
    unfolding check_permissions
    check_token self packet plaintext rejected = (reject reject_expired_jwt, self)
    check_token self packet plaintext key_error = (raised, self)
    check_token self packet plaintext (accepted token) = elim (parse_task_result plaintext) [
      | none ↦ (reject reject_schema_violation, self)
      | some task_result ↦ check_permissions self packet token task_result
    ]

    module _ (p : Primitives) (jose : Jose) (now : ℕ) (issuer : TokenIssuer) where
      -- Steps 3 and 4.
      unfoldable pub check_plaintext :
          GuardrailLayer → SignedPacket → CryptoSession → String → Validation × GuardrailLayer
      check_plaintext self packet session access_token =
          elim (Crypto.decrypt p session packet.payload packet.sequence_number) [
            | none ↦ (reject reject_schema_violation, self)
            | some plaintext ↦
                if ltb self.max_payload_bytes (length packet.payload)
                then (reject reject_payload_oversize, self)
                else check_token self packet plaintext (Tokens.verify jose now issuer access_token)
          ]

      unfoldable pub validate_inbound :
          GuardrailLayer → SignedPacket → CryptoSession → String → Validation × GuardrailLayer
      validate_inbound self packet session access_token =
          if not (Crypto.verify p session packet.payload packet.hmac_signature)
          then (reject reject_hmac_mismatch, self)
          else (let (fresh, self') = check_replay self session.session_id packet.sequence_number in
              if fresh
              then check_plaintext self' packet session access_token
              else (reject reject_replay, self'))
