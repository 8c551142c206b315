-- ===== src/Client.antt =====
-- agent_sdk/client.py: an agent's connection to the orchestrator, and its answers to tasks.
mod Accepted
mod Handshake
pub mod Inbound
mod Tests
use secure_orchestration_mes.Prelude.{
  ℕ, ◌+◌, String, str_eq, Bool, true, false, not, if◌then◌else◌, leb, Option, none, some, List, [],
  ◌∷◌, ◌++◌, length,
}
use secure_orchestration_mes.Messages.{
  Bytes, SignedPacket, AgentRegistrationRequest, AgentRegistrationResponse, TaskRequest, TaskResult,
}
use secure_orchestration_mes.Crypto.{
  Primitives, CryptoSession, init_for_agent, encrypt, decrypt, sign, verify,
}
use secure_orchestration_mes.Executor.{TaskExecutor, ExecutionResult, ExecutionError, execute}

pub record AgentConfig : Type 0 where
  pub agent_id : String
  pub agent_label : String
  pub capabilities : List String
  pub sdk_version : String

-- The queue of packets to send is a list with the oldest first.
pub record MeshAgent : Type 0 where
  pub config : AgentConfig
  pub crypto : Option CryptoSession
  pub access_token : Option String
  pub token_expires_at : Option String
  pub executor : TaskExecutor
  pub pending_results : List SignedPacket

abbrev pub pending_limit : ℕ
pending_limit = 256

-- The packages, the wire format, the texts of errors, and what is read from clocks and random
-- sources: the private key of `_generate_ephemeral_keypair`, and the private key and the nonce of
-- `CryptoSession.init_for_agent`.
pub record Environment : Type 0 where
  pub primitives : Primitives
  pub hkdf_info : Bytes
  pub ephemeral_private : Bytes
  pub session_private : Bytes
  pub session_nonce : Bytes
  pub parse_task_request : Bytes → Option TaskRequest
  pub serialize_task_result : TaskResult → Bytes
  pub error_text : ExecutionError → String
  pub completed_at : String
  pub elapsed_ms : ℕ

-- The answer of `connect`, or the ValueError for a key of the orchestrator that is not one.
pub data Connected : Type 0 where
  answer : Bool → Connected
  bad_key : Connected

-- How a packet is handled: it is dropped, an exception is raised, the queue is full and the call
-- waits, or the reply is queued.
pub data Handled : Type 0 where
  dropped : Handled
  raised : Handled
  waits : Handled
  queued : SignedPacket → Handled

module _ (env : Environment) where
  unfoldable pub registration : MeshAgent → AgentRegistrationRequest
  registration self = record {
    agent_id = self.config.agent_id;
    agent_label = self.config.agent_label;
    capabilities = self.config.capabilities;
    sdk_version = self.config.sdk_version;
    public_key = env.primitives.public_bytes_raw (env.primitives.public_key env.ephemeral_private);
  }

  -- What `connect` does with the response.
  unfoldable pub accept_response : MeshAgent → AgentRegistrationResponse → Connected × MeshAgent
  accept_response self response =
      let self' = record self {
        access_token = some response.access_token;
        token_expires_at = some response.token_expires_at;
      } in
      elim (init_for_agent env.primitives env.hkdf_info env.session_private env.session_nonce
        self.config.agent_id response.orchestrator_public_key) [
          | none ↦ (bad_key, self')
          | some session ↦ (
            answer true,
            record self' { crypto = some (record session { nonce_base = response.nonce }) },
          )
        ]

  -- `connect`, with what the call of Register answers, or none for an RpcError.
  unfoldable pub connect :
      (AgentRegistrationRequest → Option AgentRegistrationResponse)
      → MeshAgent
      → Connected × MeshAgent
  connect register self = elim (register (registration self)) [
    | none ↦ (answer false, self)
    | some response ↦ accept_response self response
  ]

  -- `_sign_and_encrypt`: the counter is raised here and once more by `encrypt`.
  unfoldable pub sign_and_encrypt : CryptoSession → Bytes → Option SignedPacket × CryptoSession
  sign_and_encrypt session raw =
      let (ciphertext, session') =
        encrypt env.primitives (record session { sequence_counter = session.sequence_counter + 1 })
          raw in
      elim ciphertext [
        | none ↦ (none, session')
        | some c ↦ (
          some (record {
            payload = c;
            hmac_signature = sign env.primitives session' c;
            sequence_number = session'.sequence_counter;
          }),
          session',
        )
      ]

  unfoldable pub result_message : ℕ → ExecutionResult → TaskResult
  result_message seq result = record {
    task_id = result.task_id;
    state = result.state;
    payload = result.payload;
    error_message = env.error_text result.error_message;
    completed_at = result.completed_at;
    sequence_number = seq + 1;
    metrics = result.metrics;
  }

  unfoldable pub send : MeshAgent → Option SignedPacket × CryptoSession → Handled × MeshAgent
  send self (none, session) = (raised, record self { crypto = some session })
  send self (some packet, session) =
      if leb pending_limit (length self.pending_results)
      then (waits, record self { crypto = some session })
      else (
        queued packet,
        record self {
          crypto = some session;
          pending_results = self.pending_results ++ (packet ∷ []);
        },
      )

  -- A request whose access token is empty leaves the token as it is.
  unfoldable pub renewed : MeshAgent → TaskRequest → MeshAgent
  renewed self request =
      if str_eq request.access_token ""
      then self
      else record self { access_token = some request.access_token }

  unfoldable pub perform : MeshAgent → CryptoSession → ℕ → TaskRequest → Handled × MeshAgent
  perform self session seq request =
      let result =
        execute env.completed_at env.elapsed_ms request.task request.permission_scope
          self.executor in
      send (renewed self request)
        (sign_and_encrypt session (env.serialize_task_result (result_message seq result)))

  -- `_handle_inbound_packet`, of a connected agent.
  unfoldable pub handle_inbound_packet :
      MeshAgent → CryptoSession → SignedPacket → Handled × MeshAgent
  handle_inbound_packet self session packet =
      if verify env.primitives session packet.payload packet.hmac_signature
      then elim (decrypt env.primitives session packet.payload packet.sequence_number) [
        | none ↦ (dropped, self)
        | some plaintext ↦ elim (env.parse_task_request plaintext) [
          | none ↦ (raised, self)
          | some request ↦ perform self session packet.sequence_number request
        ]
      ]
      else (dropped, self)
