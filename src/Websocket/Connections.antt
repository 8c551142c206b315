-- ===== src/Websocket/Connections.antt =====
-- Which agents the server of orchestrator/websocket_fallback.py reaches, and what it sends them.
use secure_orchestration_mes.Prelude.{
  String, ◌≡◌, refl, ◌∙◌, ◌<◌, ◌+◌, ◌^◌, ◌++◌, eq_iff, none, some, inl, inr, true, Bool, arith,
  Option-cases, length, lt→ltb,
}
use secure_orchestration_mes.Dict.{Dict, get, put, pop, get-put_self, get-pop}
use secure_orchestration_mes.Messages.{
  Bytes, SignedPacket, TaskRequest, AgentRegistrationRequest, AgentRegistrationResponse,
}
use secure_orchestration_mes.Crypto.{
  Laws, CryptoSession, init_for_orchestrator, encrypt, verify, decrypt, big_endian,
}
use secure_orchestration_mes.Crypto.Session.{decrypt-encrypt, verify-sign}
use secure_orchestration_mes.Scheduler.{
  TaskScheduler, AgentRecord, Outcome, returned, waiting, register,
}
use secure_orchestration_mes.Websocket.{
  WebsocketAuthContext, WebsocketServer, Environment, Ended, done, Connection, opened, prefix,
}
use secure_orchestration_mes.Websocket.Connect.{
  open_handler, open_connection, handle_connection, response, agent_id_of, registered_by,
  close_connection, framed, packet_of, send_task, dispatch,
}

module _ (env : Environment) where
  -- The handler of the connection stands under the agent's id.
  abbrev Reaches : WebsocketAuthContext → Ended Connection × WebsocketServer → Type 0
  Reaches auth end =
      (response : AgentRegistrationResponse)
      → end.0 ≡ done (opened response auth)
      → get end.1.handlers auth.agent_id ≡ some auth

  opened-auth :
      (r r' : AgentRegistrationResponse) (a a' : WebsocketAuthContext)
      → ◌≡◌ {A = Ended Connection} (done (opened r a)) (done (opened r' a'))
      → a ≡ a'
  opened-auth r r' a a' h = cc

  stored :
      (handlers : Dict WebsocketAuthContext) (a auth : WebsocketAuthContext)
      → a ≡ auth
      → get (put handlers a.agent_id a) auth.agent_id ≡ some auth
  stored handlers a auth e = rw⁻¹ e (get-put_self handlers a.agent_id a)

  registered_by-Reaches :
      (response : AgentRegistrationResponse) (a : WebsocketAuthContext) (s : WebsocketServer)
      (answer : Outcome AgentRecord × TaskScheduler) (auth : WebsocketAuthContext)
      → Reaches auth (registered_by env a.agent_id (opened response a) a s answer)
  registered_by-Reaches response a s (returned agent, scheduler) auth r h =
      stored s.handlers a auth (opened-auth response r a auth h)
  registered_by-Reaches response a s (waiting, scheduler) auth r h = absurd (cc)

  open_handler-Reaches :
      (registration : AgentRegistrationRequest) (agent_id : String) (crypto : CryptoSession)
      (token : String × String) (s : WebsocketServer) (auth : WebsocketAuthContext)
      → Reaches auth (open_handler env registration agent_id crypto token s)
  unfolding open_handler
  open_handler-Reaches registration agent_id crypto token s auth =
      let a : WebsocketAuthContext = record {
        agent_id = agent_id;
        session = crypto;
        access_token = token.0;
        connected_at = env.now;
      } in
      elim (Option-cases s.scheduler) [
        | inl e ↦ rw (e, open_handler) (λ r h. stored s.handlers a auth (opened-auth _ r a auth h))
        | inr (scheduler, e) ↦
            rw (e, open_handler)
              (registered_by-Reaches (response env agent_id crypto token) a s
                (register env.now registration scheduler) auth)
      ]

  open_connection-Reaches :
      (registration : AgentRegistrationRequest) (s : WebsocketServer) (auth : WebsocketAuthContext)
      → Reaches auth (open_connection env registration s)
  unfolding open_connection
  open_connection-Reaches registration s auth =
      elim (Option-cases (
        init_for_orchestrator env.primitives env.hkdf_info env.orch_private env.nonce_base
          (agent_id_of env registration) registration.public_key)) [
            | inl e ↦ rw (e, open_connection) (λ r h. absurd (cc))
            | inr (crypto, e) ↦
                rw (e, open_connection)
                  (open_handler-Reaches registration (agent_id_of env registration) crypto _ _ auth)
          ]

  handle_connection-Reaches :
      (raw : Bytes) (s : WebsocketServer) (auth : WebsocketAuthContext)
      → Reaches auth (handle_connection env raw s)
  unfolding handle_connection
  handle_connection-Reaches raw s auth = elim (Option-cases (env.parse_registration raw)) [
    | inl e ↦ rw (e, handle_connection) (λ r h. absurd (cc))
    | inr (registration, e) ↦
        rw (e, handle_connection) (open_connection-Reaches registration s auth)
  ]

  -- A task can be sent to an agent over the connection that it opened last; but once an earlier
  -- connection of the agent ends, no task can, although the last one is open.
  pub dispatch-reconnected :
      (raw : Bytes) (s : WebsocketServer) (response : AgentRegistrationResponse)
      (earlier auth : WebsocketAuthContext) (is_open : Bool) (task : TaskRequest)
      → (handle_connection env raw s).0 ≡ done (opened response auth)
      → earlier.agent_id ≡ auth.agent_id
      → let s' = (handle_connection env raw s).1 in
        ((dispatch env is_open auth.agent_id task s').0 ≡ (send_task env is_open auth task).0)
        × ((dispatch env is_open auth.agent_id task (close_connection env earlier s')).0
            ≡ done none)
  unfolding dispatch close_connection
  dispatch-reconnected raw s response earlier auth is_open task h same =
      let found = handle_connection-Reaches raw s auth response h in
      let handlers = (handle_connection env raw s).1.handlers in
      let gone : get (pop handlers earlier.agent_id) auth.agent_id ≡ none =
        get-pop handlers earlier.agent_id auth.agent_id
        ∙ (ground (arith, eq_iff earlier.agent_id auth.agent_id)) in
      (rw (found, dispatch) refl, rw (gone, dispatch) refl)

-- Where frames are shorter than 4 GB and the counter of the session has 64 bits, an open connection
-- is sent the length of a packet in four bytes and then the packet, which the other end, with the same key
-- and nonce base, verifies and decrypts to the task.
pub send_task-delivers :
    (env : Environment) (laws : Laws env.primitives) (auth : WebsocketAuthContext)
    (peer : CryptoSession) (task : TaskRequest)
    → auth.session.session_key ≡ peer.session_key
    → auth.session.nonce_base ≡ peer.nonce_base
    → auth.session.sequence_counter + 1 < 2 ^ 64
    → ((packet : SignedPacket) → length (env.serialize_signed packet) < 2 ^ 32)
    → (packet : SignedPacket) × ((send_task env true auth task).0
        ≡ done (
            some
              (big_endian 4 (length (env.serialize_signed packet)) ++ env.serialize_signed packet)))
      × (verify env.primitives peer packet.payload packet.hmac_signature ≡ true)
      × (decrypt env.primitives peer packet.payload packet.sequence_number
          ≡ some (env.serialize_task_request task))
unfolding send_task framed prefix
send_task-delivers env laws auth peer task same_key same_base fits short =
    let m = env.serialize_task_request task in
    let (c, e, v, d) =
      decrypt-encrypt env.primitives laws auth.session peer same_key same_base m fits in
    let packet = packet_of env (encrypt env.primitives auth.session m).1 c in
    (
      packet,
      rw
          (
            send_task,
            e,
            framed,
            prefix,
            lt→ltb (length (env.serialize_signed packet)) (2 ^ 32) (short packet),
          )
          refl,
      verify-sign env.primitives (encrypt env.primitives auth.session m).1 peer c
          (unfold encrypt in same_key),
      d,
    )
