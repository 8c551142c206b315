-- ===== src/Websocket/Frames.antt =====
-- What the server of orchestrator/websocket_fallback.py does with the frames that agents send.
use secure_orchestration_mes.Prelude.{
  ◌≡◌, ◌≢◌, refl, some, List, [], ◌∷◌, inl, inr, false, Option-cases,
}
use secure_orchestration_mes.Messages.{Bytes, TaskResult, SignedPacket}
use secure_orchestration_mes.Crypto.{CryptoSession, verify, verify_hmac, compute_hmac, bytes_eq}
use secure_orchestration_mes.Tokens.{TokenIssuer}
use secure_orchestration_mes.Guardrail.{
  GuardrailLayer, passed, reject, reject_hmac_mismatch, validate_inbound,
}
use secure_orchestration_mes.Websocket.{
  WebsocketAuthContext, WebsocketServer, Environment, done, call_decrypt, handle_frame, run,
  on_task_complete,
}
use secure_orchestration_mes.Websocket.Connect.{serve, close_connection}

module _ (env : Environment) where
  handle_frame-drops :
      (auth : WebsocketAuthContext) (raw : Bytes) (s : WebsocketServer)
      → handle_frame env auth raw s ≡ (done tt, s)
  unfolding handle_frame call_decrypt
  handle_frame-drops auth raw s = elim (Option-cases (env.parse_signed raw)) [
    | inl e ↦ rw (e, handle_frame) refl
    | inr (signed, e) ↦ rw (e, handle_frame) refl
  ]

  run-drops :
      (auth : WebsocketAuthContext) (frames : List Bytes) (s : WebsocketServer)
      → run env auth frames s ≡ (done tt, s)
  unfolding run
  run-drops auth [] s = refl
  run-drops auth (raw ∷ frames) s = rw (handle_frame-drops auth raw s) (run-drops auth frames s)

  -- Whatever frames an agent sends over its connection, the server does nothing until it closes,
  -- and then forgets the handler: no result of a task is ever processed.
  pub serve-drops :
      (auth : WebsocketAuthContext) (frames : List Bytes) (s : WebsocketServer)
      → serve env auth frames s ≡ (done tt, close_connection env auth s)
  unfolding serve
  serve-drops auth frames s = rw (run-drops auth frames s) refl

  unsigned : (digest : Bytes) → digest ≢ [] → bytes_eq digest [] ≡ false
  unfolding bytes_eq
  unsigned [] h = absurd (h refl)
  unsigned (b ∷ bs) h = refl

  verify-unsigned :
      (session : CryptoSession) (message : Bytes)
      → ((key message : Bytes) → env.primitives.hmac_digest key message ≢ [])
      → verify env.primitives session message [] ≡ false
  unfolding verify verify_hmac compute_hmac
  verify-unsigned session message h = unsigned _ (h session.session_key message)

  abbrev unsigned_packet : Bytes → SignedPacket
  unsigned_packet payload = record { payload = payload; hmac_signature = []; sequence_number = 0 }

  validate_inbound-unsigned :
      (auth : WebsocketAuthContext) (payload : Bytes) (issuer : TokenIssuer)
      (guardrail : GuardrailLayer)
      → ((key message : Bytes) → env.primitives.hmac_digest key message ≢ [])
      → validate_inbound env.timestamp env.latency_us env.parse_task_result env.primitives env.jose
          env.now issuer guardrail
          (unsigned_packet payload)
          auth.session
          auth.access_token
        ≡ (reject reject_hmac_mismatch, guardrail)
  unfolding validate_inbound
  validate_inbound-unsigned auth payload issuer guardrail h =
      rw (verify-unsigned auth.session payload h) refl

  -- Where an HMAC is never empty, the guardrail rejects every result that `on_task_complete` hands
  -- it, since the packet that it is given has no signature: nothing of the server changes, and no task
  -- is completed.
  pub on_task_complete-rejects :
      (auth : WebsocketAuthContext) (r : TaskResult) (s : WebsocketServer) (issuer : TokenIssuer)
      (guardrail : GuardrailLayer)
      → ((key message : Bytes) → env.primitives.hmac_digest key message ≢ [])
      → s.guardrail ≡ some (issuer, guardrail)
      → on_task_complete env auth r s ≡ (done tt, s)
  unfolding on_task_complete passed
  on_task_complete-rejects auth r s issuer guardrail h g =
      rw (g, validate_inbound-unsigned auth (env.serialize_task_result r) issuer guardrail h) refl
