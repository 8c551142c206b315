-- ===== src/Crypto/Session.antt =====
-- What a session guarantees to its peer.
use secure_orchestration_mes.Prelude.{
  ℕ, String, ◌+◌, ◌<◌, ◌^◌, ◌≡◌, refl, true, some, [], ◌∷◌, arith, lt→ltb, take, ◌++◌, ◌↔◌, ap, sym,
}
use secure_orchestration_mes.Messages.{Bytes}
use secure_orchestration_mes.Crypto.{
  Primitives, Laws, CryptoSession, bytes_eq, big_endian, derive_session_key, derive_nonce,
  encrypt_payload, decrypt_payload, encrypt, decrypt, sign, verify, init_for_agent,
  init_for_orchestrator,
}

pub bytes_eq_iff : (a b : Bytes) → (bytes_eq a b ≡ true) ↔ (a ≡ b)
unfolding bytes_eq
bytes_eq_iff [] [] = (λ h. refl, λ h. refl)
bytes_eq_iff [] (b ∷ r) = (λ h. cc, λ h. cc)
bytes_eq_iff (a ∷ l) [] = (λ h. cc, λ h. cc)
bytes_eq_iff (a ∷ l) (b ∷ r) =
    let (to, back) = bytes_eq_iff l r in
    (λ h. ground (arith, to (ground arith)), λ h. ground (arith, back (ground arith)))

derive_nonce_fits :
    (p : Primitives) (base : Bytes) (counter : ℕ)
    → counter < 2 ^ 64
    → (nonce : Bytes) × (derive_nonce p base counter ≡ some nonce)
unfolding derive_nonce
derive_nonce_fits p base counter fits =
    (take 12 (p.sha256 (base ++ big_endian 8 counter)), rw (lt→ltb counter (2 ^ 64) fits))

pub verify-sign :
    (p : Primitives) (a b : CryptoSession) (c : Bytes)
    → a.session_key ≡ b.session_key
    → verify p b c (sign p a c) ≡ true
unfolding verify sign
verify-sign p a b c same = (bytes_eq_iff _ _).1 (ap (λ k. p.hmac_digest k c) (sym same))

module _ (p : Primitives) (laws : Laws p) (a b : CryptoSession)
    (same_key : a.session_key ≡ b.session_key) (same_base : a.nonce_base ≡ b.nonce_base) where
  -- What one end of a session encrypts and signs, while its counter has 64 bits, the other end, with
  -- the same key and nonce base, verifies, and decrypts with the counter of the sender.
  pub decrypt-encrypt :
      (m : Bytes)
      → a.sequence_counter + 1 < 2 ^ 64
      → (c : Bytes) × ((encrypt p a m).0 ≡ some c)
        × (verify p b c (sign p a c) ≡ true)
        × (decrypt p b c (encrypt p a m).1.sequence_counter ≡ some m)
  unfolding encrypt decrypt encrypt_payload decrypt_payload
  decrypt-encrypt m fits =
      let (nonce, derived) = derive_nonce_fits p a.nonce_base (a.sequence_counter + 1) fits in
      let c = p.aesgcm_encrypt a.session_key nonce m in
      (
        c,
        ground (arith, derived),
        verify-sign p a b c same_key,
        ground (arith, derived, same_key, same_base, laws.decrypt-encrypt a.session_key nonce m),
      )

-- A signature is accepted exactly when it is the HMAC of the message under the session's key.
pub verify_iff :
    (p : Primitives) (s : CryptoSession) (message signature : Bytes)
    → (verify p s message signature ≡ true) ↔ (sign p s message ≡ signature)
unfolding verify sign
verify_iff p s message signature = bytes_eq_iff _ signature

-- The sessions of the two ends, each made from the public bytes of the other's private key, have
-- the same key if they are made with the same nonce base.
pub session_keys_agree :
    (p : Primitives) (laws : Laws p) (info agent_private orch_private nonce_base : Bytes)
    (agent_id : String)
    → (a o : CryptoSession) × (init_for_agent p info agent_private nonce_base agent_id
          (p.public_bytes_raw (p.public_key orch_private))
        ≡ some a)
      × (init_for_orchestrator p info orch_private nonce_base agent_id
            (p.public_bytes_raw (p.public_key agent_private))
          ≡ some o)
      × (a.session_key ≡ o.session_key)
      × (a.nonce_base ≡ o.nonce_base)
unfolding init_for_agent init_for_orchestrator
session_keys_agree p laws info agent_private orch_private nonce_base agent_id = (
  record {
    agent_private = agent_private;
    agent_public = p.public_key agent_private;
    orchestrator_public = p.public_key orch_private;
    session_key = derive_session_key p info agent_private (p.public_key orch_private) nonce_base;
    nonce_base = nonce_base;
    session_id = agent_id;
    sequence_counter = 0;
  },
  record {
    agent_private = orch_private;
    agent_public = p.public_key orch_private;
    orchestrator_public = p.public_key agent_private;
    session_key = derive_session_key p info orch_private (p.public_key agent_private) nonce_base;
    nonce_base = nonce_base;
    session_id = agent_id;
    sequence_counter = 0;
  },
  ground (arith, laws.from-raw orch_private),
  ground (arith, laws.from-raw agent_private),
  ap (p.hkdf nonce_base info) (laws.exchange_comm agent_private orch_private),
  refl,
)
