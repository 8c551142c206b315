-- ===== src/Client/Handshake.antt =====
-- The keys of the two ends after the handshake.
use secure_orchestration_mes.Prelude.{
  ◌≡◌, refl, sym, ap, ◌∙◌, String, Option, none, some, true, arith,
}
use secure_orchestration_mes.Messages.{Bytes, AgentRegistrationRequest, AgentRegistrationResponse}
use secure_orchestration_mes.Crypto.{
  Primitives, Laws, CryptoSession, init_for_agent, init_for_orchestrator, derive_session_key,
}
use secure_orchestration_mes.Client.{
  MeshAgent, Environment, answer, registration, accept_response, connect,
}

abbrev public_of : Bytes → Option CryptoSession → Bytes
public_of b none = b
public_of b (some o) = o.agent_public

abbrev base_of : Bytes → Option CryptoSession → Bytes
base_of b none = b
base_of b (some o) = o.nonce_base

abbrev key_of : Bytes → Option CryptoSession → Bytes
key_of b none = b
key_of b (some o) = o.session_key

-- The orchestrator's session with an agent whose public key it reads as `peer`: its own public key,
-- its nonce, and the key that HKDF derives with the nonce as salt.
orchestrator_session :
    (p : Primitives) (info orch_private nonce : Bytes) (agent_id : String)
    (public_bytes peer : Bytes) (o : CryptoSession)
    → p.from_public_bytes public_bytes ≡ some peer
    → init_for_orchestrator p info orch_private nonce agent_id public_bytes ≡ some o
    → (o.agent_public ≡ p.public_key orch_private)
      × (o.nonce_base ≡ nonce)
      × (o.session_key ≡ p.hkdf nonce info (p.exchange orch_private peer))
unfolding init_for_orchestrator derive_session_key
orchestrator_session p info orch_private nonce agent_id public_bytes peer o good e =
    let made : some (record {
      agent_private = orch_private;
      agent_public = p.public_key orch_private;
      orchestrator_public = peer;
      session_key = p.hkdf nonce info (p.exchange orch_private peer);
      nonce_base = nonce;
      session_id = agent_id;
      sequence_counter = 0;
    })
        ≡ some o =
      rw (init_for_orchestrator, good) at e in
    (ap (public_of nonce) (sym made), ap (base_of nonce) (sym made), ap (key_of nonce) (sym made))

module _ (env : Environment) (laws : Laws env.primitives) where
  -- The orchestrator's end of a handshake: the session that it makes of the request, and the
  -- response of its key and nonce.
  pub record IsAnswered (orch_private nonce : Bytes) (request : AgentRegistrationRequest)
      (o : CryptoSession) (response : AgentRegistrationResponse) : Type 0 where
    pub opened :
        init_for_orchestrator env.primitives env.hkdf_info orch_private nonce request.agent_id
          request.public_key
        ≡ some o
    pub same_key : response.orchestrator_public_key ≡ env.primitives.public_bytes_raw o.agent_public
    pub same_nonce : response.nonce ≡ o.nonce_base

  -- The agent's session with an orchestrator of that key, with the nonce of the response.
  abbrev agent_session : MeshAgent → AgentRegistrationResponse → (peer : Bytes) → CryptoSession
  agent_session self response peer = record {
    agent_private = env.session_private;
    agent_public = env.primitives.public_key env.session_private;
    orchestrator_public = peer;
    session_key =
        env.primitives.hkdf env.session_nonce env.hkdf_info
          (env.primitives.exchange env.session_private peer);
    nonce_base = response.nonce;
    session_id = self.config.agent_id;
    sequence_counter = 0;
  }

  connect-response :
      (self : MeshAgent) (response : AgentRegistrationResponse)
      (register : AgentRegistrationRequest → Option AgentRegistrationResponse)
      → register (registration env self) ≡ some response
      → connect env register self ≡ accept_response env self response
  unfolding connect
  connect-response self response register e = rw (connect, e) refl

  accept_response-key :
      (self : MeshAgent) (response : AgentRegistrationResponse) (peer : Bytes)
      → env.primitives.from_public_bytes response.orchestrator_public_key ≡ some peer
      → ((accept_response env self response).0 ≡ answer true)
        × ((accept_response env self response).1.crypto ≡ some (agent_session self response peer))
  unfolding accept_response init_for_agent derive_session_key
  accept_response-key self response peer e = (ground (arith, e), ground (arith, e))

  -- After a handshake with an orchestrator that answers with its key and nonce, the agent is
  -- connected and has the orchestrator's nonce. The agent's session key is derived from its second
  -- private key, with its own nonce as salt; the orchestrator's from the agent's first private key,
  -- whose public key stood in the request, with the orchestrator's nonce as salt.
  pub connect-session_keys :
      (self : MeshAgent) (orch_private nonce : Bytes) (o : CryptoSession)
      (response : AgentRegistrationResponse)
      (register : AgentRegistrationRequest → Option AgentRegistrationResponse)
      → IsAnswered orch_private nonce (registration env self) o response
      → register (registration env self) ≡ some response
      → (a : CryptoSession) × ((connect env register self).0 ≡ answer true)
        × ((connect env register self).1.crypto ≡ some a)
        × (a.nonce_base ≡ o.nonce_base)
        × (a.session_key
            ≡ env.primitives.hkdf env.session_nonce env.hkdf_info (
                env.primitives.exchange env.session_private
                  (env.primitives.public_key orch_private)))
        × (o.session_key
            ≡ env.primitives.hkdf nonce env.hkdf_info (
                env.primitives.exchange env.ephemeral_private
                  (env.primitives.public_key orch_private)))
  unfolding registration
  connect-session_keys self orch_private nonce o response register answered e =
      let p = env.primitives in
      let (own, base, key) =
        orchestrator_session p env.hkdf_info orch_private nonce self.config.agent_id
          (registration env self).public_key (p.public_key env.ephemeral_private) o
          (laws.from-raw env.ephemeral_private) answered.opened in
      let raw : response.orchestrator_public_key ≡ p.public_bytes_raw (p.public_key orch_private) =
        answered.same_key ∙ ap p.public_bytes_raw own in
      let e' = connect-response self response register e in
      let peer = p.public_key orch_private in
      let (answered_true, made) =
        accept_response-key self response peer
          (ap p.from_public_bytes raw ∙ laws.from-raw orch_private) in
      (
        agent_session self response peer,
        ap (λ c. c.0) e' ∙ answered_true,
        ap (λ c. c.1.crypto) e' ∙ made,
        answered.same_nonce,
        refl,
        key
            ∙ ap (p.hkdf nonce env.hkdf_info)
                (laws.exchange_comm orch_private env.ephemeral_private),
      )
