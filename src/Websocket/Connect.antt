-- ===== src/Websocket/Connect.antt =====
-- orchestrator/websocket_fallback.py: the life of a connection, and the tasks that are sent over it.
use secure_orchestration_mes.Prelude.{
  String, str_eq, if◌then◌else◌, Bool, Option, none, some, List, ◌++◌, length,
}
use secure_orchestration_mes.Dict.{get, put, pop}
use secure_orchestration_mes.Messages.{
  Bytes, SignedPacket, TaskRequest, AgentRegistrationRequest, AgentRegistrationResponse,
}
use secure_orchestration_mes.Crypto.{CryptoSession, init_for_orchestrator, encrypt, sign}
use secure_orchestration_mes.Tokens.{TokenIssuer, issue, register_session}
use secure_orchestration_mes.Scheduler.{
  TaskScheduler, AgentRecord, Outcome, returned, waiting, register,
}
use secure_orchestration_mes.Websocket.{
  WebsocketAuthContext, WebsocketServer, Environment, Ended, done, failed, blocked, Connection,
  refused, opened, prefix, run,
}

module _ (env : Environment) where
  -- The registration of `_handle_connection`, up to the start of the handler.
  abbrev pub agent_id_of : AgentRegistrationRequest → String
  agent_id_of registration =
      if str_eq registration.agent_id "" then env.uuid else registration.agent_id

  unfoldable pub open_token :
      AgentRegistrationRequest
      → String
      → CryptoSession
      → Option TokenIssuer
      → (String × String) × Option TokenIssuer
  open_token registration agent_id crypto none = (("", ""), none)
  open_token registration agent_id crypto (some issuer) =
      let issuer' = register_session issuer agent_id crypto in
      (
        issue env.jose env.iso8601 env.jti env.now issuer' agent_id env.task_id
            registration.capabilities,
        some issuer',
      )

  abbrev pub response : String → CryptoSession → String × String → AgentRegistrationResponse
  response agent_id crypto (token, expires) = record {
    agent_id = agent_id;
    orchestrator_public_key = env.primitives.public_bytes_raw crypto.agent_public;
    nonce = crypto.nonce_base;
    access_token = token;
    token_expires_at = expires;
    stream_lease_seconds = 300;
  }

  -- `if self._scheduler: await self._scheduler.register(registration)`, then the handler.
  abbrev pub registered_by :
      String
      → Connection
      → WebsocketAuthContext
      → WebsocketServer
      → Outcome AgentRecord × TaskScheduler
      → Ended Connection × WebsocketServer
  registered_by agent_id connection auth s (returned agent, scheduler) = (
    done connection,
    record s { scheduler = some scheduler; handlers = put s.handlers agent_id auth },
  )
  registered_by agent_id connection auth s (waiting, scheduler) =
      (blocked, record s { scheduler = some scheduler })

  unfoldable pub open_handler :
      AgentRegistrationRequest
      → String
      → CryptoSession
      → String × String
      → WebsocketServer
      → Ended Connection × WebsocketServer
  open_handler registration agent_id crypto (token, expires) s =
      let auth : WebsocketAuthContext = record {
        agent_id = agent_id;
        session = crypto;
        access_token = token;
        connected_at = env.now;
      } in
      let connection = opened (response agent_id crypto (token, expires)) auth in
      elim s.scheduler [
        | none ↦ (done connection, record s { handlers = put s.handlers agent_id auth })
        | some scheduler ↦
            registered_by agent_id connection auth s (register env.now registration scheduler)
      ]

  unfoldable pub open_connection :
      AgentRegistrationRequest → WebsocketServer → Ended Connection × WebsocketServer
  open_connection registration s =
      let agent_id = agent_id_of registration in
      elim (init_for_orchestrator env.primitives env.hkdf_info env.orch_private env.nonce_base
        agent_id registration.public_key) [
          | none ↦ (failed, s)
          | some crypto ↦
              let (token, issuer) = open_token registration agent_id crypto s.token_issuer in
              open_handler registration agent_id crypto token (record s { token_issuer = issuer })
        ]

  unfoldable pub handle_connection : Bytes → WebsocketServer → Ended Connection × WebsocketServer
  handle_connection raw s = elim (env.parse_registration raw) [
    | none ↦ (done refused, s)
    | some registration ↦ open_connection registration s
  ]

  -- What follows the handler's end, unless an exception ended it.
  unfoldable pub close_connection : WebsocketAuthContext → WebsocketServer → WebsocketServer
  close_connection auth s = record s { handlers = pop s.handlers auth.agent_id }

  -- A handler's whole life: the frames of its connection, and then its end.
  abbrev pub ended_by :
      WebsocketAuthContext → Ended Unit × WebsocketServer → Ended Unit × WebsocketServer
  ended_by auth (done u, s) = (done tt, close_connection auth s)
  ended_by auth (failed, s) = (failed, s)
  ended_by auth (blocked, s) = (blocked, s)

  unfoldable pub serve :
      WebsocketAuthContext → List Bytes → WebsocketServer → Ended Unit × WebsocketServer
  serve auth frames s = ended_by auth (run env auth frames s)

  -- The frame of a packet: its length in four bytes, and its bytes.
  unfoldable pub framed : Bytes → Option Bytes
  framed frame = elim (prefix (length frame)) [ none ↦ none | some header ↦ some (header ++ frame) ]

  abbrev pub packet_of : CryptoSession → Bytes → SignedPacket
  packet_of session ciphertext = record {
    payload = ciphertext;
    hmac_signature = sign env.primitives session ciphertext;
    sequence_number = session.sequence_counter;
  }

  abbrev pub sent : Bool → Option Bytes → Ended (Option Bytes)
  sent is_open none = failed
  sent is_open (some frame) = done (if is_open then some frame else none)

  -- `send_task`, where the connection is open or closed: the answer is what was sent, if anything.
  unfoldable pub send_task :
      Bool → WebsocketAuthContext → TaskRequest → Ended (Option Bytes) × WebsocketAuthContext
  send_task is_open auth task =
      let (ciphertext, session) =
        encrypt env.primitives auth.session (env.serialize_task_request task) in
      let auth' : WebsocketAuthContext = record auth { session = session } in
      elim ciphertext [
        | none ↦ (failed, auth')
        | some c ↦ (sent is_open (framed (env.serialize_signed (packet_of session c))), auth')
      ]

  unfoldable pub dispatch :
      Bool → String → TaskRequest → WebsocketServer → Ended (Option Bytes) × WebsocketServer
  dispatch is_open agent_id task s = elim (get s.handlers agent_id) [
    | none ↦ (done none, s)
    | some auth ↦
        let (ended, auth') = send_task is_open auth task in
        (ended, record s { handlers = put s.handlers agent_id auth' })
  ]
