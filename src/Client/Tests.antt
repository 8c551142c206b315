-- ===== src/Client/Tests.antt =====
-- An agent over toy packages, in which HKDF gives the salt.
use secure_orchestration_mes.Prelude.{
  String, Option, ◌==◌, ◌*◌, if◌then◌else◌, drop, ◌≡◌, refl, true, none, some, [], ◌∷◌, ◌++◌, arith,
}
use secure_orchestration_mes.Messages.{
  Bytes, TaskResult, completed, SignedPacket, AgentRegistrationResponse, TaskRequest,
}
use secure_orchestration_mes.Crypto.{
  Primitives, Laws, CryptoSession, init_for_orchestrator, derive_session_key, verify,
}
use secure_orchestration_mes.Dict.{get}
use secure_orchestration_mes.Tokens.{second, sorted, TokenPayload, accepted}
use secure_orchestration_mes.Tokens
use secure_orchestration_mes.Tokens.Tests.{toy_jose, sample_issuer}
use secure_orchestration_mes.Guardrail.{GuardrailLayer}
use secure_orchestration_mes.Guardrail.Validate.{validate}
use secure_orchestration_mes.Client.Accepted.{IsBehind, exchange, passing, exchange-passes}
use secure_orchestration_mes.Crypto.Tests.{toy_primitives, toy_primitives-Laws}
use secure_orchestration_mes.Executor.{returns}
use secure_orchestration_mes.Client.{MeshAgent, Environment, answer, registration, connect}
use secure_orchestration_mes.Client.Handshake.{IsAnswered, connect-session_keys}

abbrev salted : Primitives
salted = record toy_primitives { hkdf = λ salt info secret. salt }

salted-Laws : Laws salted
salted-Laws = record {
  decrypt-encrypt = λ key nonce m. refl;
  exchange_comm = toy_primitives-Laws.exchange_comm;
  from-raw = λ k. refl;
}

abbrev request : TaskRequest
request = record {
  access_token = "t2";
  task = record {
    task_id = "t1";
    parent_task_id = "";
    description = "";
    payload = [];
    task_type = "search";
    created_at = "";
    deadline_at = "";
    priority = 1;
  };
  permission_scope = record {
    allowed_actions = "search" ∷ [];
    max_payload_bytes = 4;
    max_execution_ms = 10;
    resource_allowlist = [];
  };
  sequence_number = 1;
}

abbrev environment : Environment
environment = record {
  primitives = salted;
  hkdf_info = [];
  ephemeral_private = 1 ∷ [];
  session_private = 2 ∷ [];
  session_nonce = 3 ∷ [];
  parse_task_request = λ plaintext. some request;
  serialize_task_result = λ result. result.payload;
  error_text = λ e. "";
  completed_at = "";
  elapsed_ms = 1;
}

abbrev agent : MeshAgent
agent = record {
  config = record { agent_id = "a"; agent_label = ""; capabilities = []; sdk_version = "" };
  crypto = none;
  access_token = none;
  token_expires_at = none;
  executor = record { action_handlers = ("search", λ t. returns (5 ∷ 6 ∷ [])) ∷ [] };
  pending_results = [];
}

abbrev orchestrator : CryptoSession
orchestrator = record {
  agent_private = 9 ∷ [];
  agent_public = 9 ∷ [];
  orchestrator_public = 1 ∷ [];
  session_key = 8 ∷ [];
  nonce_base = 8 ∷ [];
  session_id = "a";
  sequence_counter = 0;
}

abbrev response : AgentRegistrationResponse
response = record {
  agent_id = "a";
  orchestrator_public_key = 9 ∷ [];
  nonce = 8 ∷ [];
  access_token = "t";
  token_expires_at = "";
  stream_lease_seconds = 300;
}

answered :
    IsAnswered environment salted-Laws
      (9 ∷ [])
      (8 ∷ [])
      (registration environment agent)
      orchestrator
      response
unfolding init_for_orchestrator derive_session_key registration
answered = record { opened = refl; same_key = refl; same_nonce = refl }

connect-session_keys_example :
    (a : CryptoSession) × ((connect environment (λ r. some response) agent).0 ≡ answer true)
    × ((connect environment (λ r. some response) agent).1.crypto ≡ some a)
    × (a.nonce_base ≡ 8 ∷ [])
    × (a.session_key ≡ 3 ∷ [])
    × (orchestrator.session_key ≡ 8 ∷ [])
connect-session_keys_example =
    connect-session_keys environment salted-Laws agent (9 ∷ []) (8 ∷ []) orchestrator response
      (λ r. some response) answered refl

abbrev packet : SignedPacket
packet = record { payload = 7 ∷ 1 ∷ []; hmac_signature = 8 ∷ 7 ∷ 1 ∷ []; sequence_number = 4 }

-- A cipher text is 16 bytes longer than its text.
abbrev tag : Bytes
tag = 0 ∷ 0 ∷ 0 ∷ 0 ∷ 0 ∷ 0 ∷ 0 ∷ 0 ∷ 0 ∷ 0 ∷ 0 ∷ 0 ∷ 0 ∷ 0 ∷ 0 ∷ 0 ∷ []

abbrev tagged : Primitives
tagged = record toy_primitives {
  aesgcm_encrypt = λ key nonce m. tag ++ m;
  aesgcm_decrypt = λ key nonce c. some (drop 16 c);
}

tagged-Laws : Laws tagged
tagged-Laws = record {
  decrypt-encrypt = λ key nonce m. refl;
  exchange_comm = toy_primitives-Laws.exchange_comm;
  from-raw = λ k. refl;
}

abbrev result_of : String → Bytes → TaskResult
result_of task_id payload = record {
  task_id = task_id;
  state = completed;
  payload = payload;
  error_message = "";
  completed_at = "";
  sequence_number = 2;
  metrics = record {
    execution_time_ms = 0;
    result_payload_bytes = 1;
    external_call_count = 0;
    error_count = 0;
    peak_memory_bytes = 0;
  };
}

abbrev parse_toy : Bytes → Option TaskResult
parse_toy [] = none
parse_toy (b ∷ bytes) = some (result_of (if b == 8 then "t1" else "t2") (b ∷ bytes))

abbrev guardrail : GuardrailLayer
guardrail = record {
  max_payload_bytes = 20;
  seen_sequences = ("a", 4 ∷ []) ∷ [];
  sequence_high_water = ("a", 4) ∷ [];
  metrics_buffer = [];
}

abbrev sender : CryptoSession
sender = record orchestrator { sequence_counter = 6 }

guardrail-IsBehind : IsBehind 6 "a" guardrail
unfolding get
guardrail-IsBehind = record { high = omega arith; seen = (omega arith, tt) }

abbrev payload_granted : TokenPayload
payload_granted = record {
  agent_id = "a";
  task_id = "t1";
  permissions = "read" ∷ "write" ∷ [];
  expires_at = 61;
}

verified_token : Tokens.verify toy_jose (2 * second) sample_issuer "t" ≡ accepted payload_granted
unfolding Tokens.verify sorted
verified_token = refl

exchange-passes_example :
    exchange
      (record environment { primitives = tagged })
      (λ g packet.
        validate "" 5 parse_toy tagged toy_jose
          (2 * second)
          sample_issuer
          g
          packet
          orchestrator
          "t")
      (result_of "t1" (8 ∷ []) ∷ result_of "t2" (9 ∷ []) ∷ [])
      sender
      guardrail
    ≡ passing payload_granted (result_of "t1" (8 ∷ []))
      ∷ passing payload_granted (result_of "t2" (9 ∷ []))
      ∷ []
exchange-passes_example =
    exchange-passes (record environment { primitives = tagged }) tagged-Laws
      (λ key nonce m. omega arith) parse_toy "" 5 toy_jose (2 * second) sample_issuer "t"
      payload_granted verified_token (λ e. cc)
      (result_of "t1" (8 ∷ []) ∷ result_of "t2" (9 ∷ []) ∷ []) sender orchestrator guardrail refl
      refl guardrail-IsBehind (omega arith) (omega arith, (omega arith, tt)) (refl, (refl, tt))
