-- ===== src/Websocket.antt =====
-- orchestrator/websocket_fallback.py: agents over WebSocket, over the components that are shared with
-- the gRPC service. A connection is the record of its handler; what it sends is the answer of the
-- call.
mod Connect
mod Frames
mod Connections
mod Tests
use secure_orchestration_mes.Prelude.{
  ℕ, ◌^◌, String, str_eq, ltb, if◌then◌else◌, Bool, true, false, Option, none, some, List, [], ◌∷◌,
  ◌++◌, length,
}
use secure_orchestration_mes.Dict.{Dict, get, put, pop}
use secure_orchestration_mes.Messages.{
  Bytes, SignedPacket, TaskState, completed, TaskResult, TaskRequest, AgentRegistrationRequest,
  AgentRegistrationResponse,
}
use secure_orchestration_mes.Crypto.{
  Primitives, CryptoSession, init_for_orchestrator, encrypt, decrypt, sign, verify, big_endian,
}
use secure_orchestration_mes.Tokens.{Jose, TokenIssuer, issue, register_session}
use secure_orchestration_mes.Scheduler.{
  TaskScheduler, AgentRecord, Outcome, returned, waiting, register, complete_task,
}
use secure_orchestration_mes.Guardrail.{
  GuardrailLayer, Validation, result, raised, passed, validate_inbound,
}

pub record WebsocketAuthContext : Type 0 where
  pub agent_id : String
  pub session : CryptoSession
  pub access_token : String
  pub connected_at : ℕ

-- The guardrail has the token issuer that it was made with. The session of a handler is the object in
-- the issuer's map, whose counter nothing here reads.
pub record WebsocketServer : Type 0 where
  pub token_issuer : Option TokenIssuer
  pub guardrail : Option (TokenIssuer × GuardrailLayer)
  pub scheduler : Option TaskScheduler
  pub handlers : Dict WebsocketAuthContext

-- The packages, the wire format, and what is read from clocks and random sources.
pub record Environment : Type 0 where
  pub primitives : Primitives
  pub hkdf_info : Bytes
  pub jose : Jose
  pub parse_registration : Bytes → Option AgentRegistrationRequest
  pub parse_signed : Bytes → Option SignedPacket
  pub parse_task_result : Bytes → Option TaskResult
  pub serialize_signed : SignedPacket → Bytes
  pub serialize_task_result : TaskResult → Bytes
  pub serialize_task_request : TaskRequest → Bytes
  pub iso8601 : ℕ → String
  pub timestamp : String
  pub latency_us : ℕ
  pub now : ℕ
  pub orch_private : Bytes
  pub nonce_base : Bytes
  pub uuid : String
  pub task_id : String
  pub jti : String

-- How a call ends: with a value, with an exception, or never, since it waits for a lock.
pub data Ended (A : Type 0) : Type 0 where
  done : A → Ended A
  failed : Ended A
  blocked : Ended A

-- Connections that are closed at once (1002), or whose handler runs, with the response it sent.
pub data Connection : Type 0 where
  refused : Connection
  opened : AgentRegistrationResponse → WebsocketAuthContext → Connection

-- A call of `CryptoSession.decrypt`, where a missing argument is a TypeError.
unfoldable pub call_decrypt : Primitives → CryptoSession → Bytes → Option ℕ → Option Bytes
call_decrypt p session payload none = none
call_decrypt p session payload (some sequence_number) = decrypt p session payload sequence_number

abbrev is_completed : TaskState → Bool
is_completed completed = true
is_completed state = false

-- `struct.pack("!I", n)` raises an exception for a number of more than 32 bits.
unfoldable pub prefix : ℕ → Option Bytes
prefix n = if ltb n (2 ^ 32) then some (big_endian 4 n) else none

module _ (env : Environment) where
  -- `if self._scheduler: await self._scheduler.complete_task(…)`
  abbrev completed_by :
      WebsocketServer → Outcome Unit × TaskScheduler → Ended Unit × WebsocketServer
  completed_by s (returned u, scheduler) = (done tt, record s { scheduler = some scheduler })
  completed_by s (waiting, scheduler) = (blocked, record s { scheduler = some scheduler })

  unfoldable pub complete : String → TaskResult → WebsocketServer → Ended Unit × WebsocketServer
  complete agent_id r s = elim s.scheduler [
    | none ↦ (done tt, s)
    | some scheduler ↦ completed_by s (complete_task agent_id (is_completed r.state) scheduler)
  ]

  abbrev after_guardrail :
      String → TaskResult → WebsocketServer → Validation → Ended Unit × WebsocketServer
  after_guardrail agent_id r s raised = (failed, s)
  after_guardrail agent_id r s (result answer) =
      if passed answer then complete agent_id r s else (done tt, s)

  -- `on_task_complete`: the packet that the guardrail is given has no signature and the number 0.
  unfoldable pub on_task_complete :
      WebsocketAuthContext → TaskResult → WebsocketServer → Ended Unit × WebsocketServer
  on_task_complete auth r s = elim s.guardrail [
    | none ↦ complete auth.agent_id r s
    | some (issuer, guardrail) ↦
        let (validation, guardrail') =
          validate_inbound env.timestamp env.latency_us env.parse_task_result env.primitives
            env.jose env.now issuer guardrail
            (record {
              payload = env.serialize_task_result r;
              hmac_signature = [];
              sequence_number = 0;
            })
            auth.session auth.access_token in
        after_guardrail auth.agent_id r (record s { guardrail = some (issuer, guardrail') })
          validation
  ]

  abbrev after_decrypt :
      WebsocketAuthContext
      → SignedPacket
      → WebsocketServer
      → Option Bytes
      → Ended Unit × WebsocketServer
  after_decrypt auth signed s none = (done tt, s)
  after_decrypt auth signed s (some plaintext) =
      if verify env.primitives auth.session signed.payload signed.hmac_signature
      then elim (env.parse_task_result plaintext) [
        | none ↦ (failed, s)
        | some r ↦ on_task_complete auth r s
      ]
      else (done tt, s)

  -- `_handle_frame`, whose call of `decrypt` has no sequence number.
  unfoldable pub handle_frame :
      WebsocketAuthContext → Bytes → WebsocketServer → Ended Unit × WebsocketServer
  handle_frame auth raw s = elim (env.parse_signed raw) [
    | none ↦ (done tt, s)
    | some signed ↦
        after_decrypt auth signed s (call_decrypt env.primitives auth.session signed.payload none)
  ]

  -- `run`, over the frames of a connection until it is closed or an exception ends it.
  abbrev continue :
      (WebsocketServer → Ended Unit × WebsocketServer)
      → Ended Unit × WebsocketServer
      → Ended Unit × WebsocketServer
  continue next (done u, s) = next s
  continue next (failed, s) = (failed, s)
  continue next (blocked, s) = (blocked, s)

  unfoldable pub run :
      WebsocketAuthContext → List Bytes → WebsocketServer → Ended Unit × WebsocketServer
  run auth [] s = (done tt, s)
  run auth (raw ∷ frames) s = continue (run auth frames) (handle_frame auth raw s)
