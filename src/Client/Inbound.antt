-- ===== src/Client/Inbound.antt =====
-- What an agent answers to a packet.
use secure_orchestration_mes.Prelude.{◌+◌, ◌^◌, ◌<◌, ◌≡◌, some, true, arith}
use secure_orchestration_mes.Messages.{Bytes, SignedPacket}
use secure_orchestration_mes.Crypto.{Laws, CryptoSession, encrypt, decrypt, sign, verify}
use secure_orchestration_mes.Crypto.Session.{decrypt-encrypt}
use secure_orchestration_mes.Client.{Environment, sign_and_encrypt}

module _ (env : Environment) (laws : Laws env.primitives) where
  -- What is encrypted with the raised counter, the other end verifies and decrypts.
  pub sign_and_encrypt-decrypts :
      (session peer : CryptoSession) (raw : Bytes)
      → session.sequence_counter + 2 < 2 ^ 64
      → session.session_key ≡ peer.session_key
      → session.nonce_base ≡ peer.nonce_base
      → (reply : SignedPacket) × ((sign_and_encrypt env session raw).0 ≡ some reply)
        × (verify env.primitives peer reply.payload reply.hmac_signature ≡ true)
        × (decrypt env.primitives peer reply.payload reply.sequence_number ≡ some raw)
  unfolding sign_and_encrypt encrypt sign
  sign_and_encrypt-decrypts session peer raw fits key base =
      let raised_session = record session { sequence_counter = session.sequence_counter + 1 } in
      let (c, made, authentic, decrypted) =
        decrypt-encrypt env.primitives laws raised_session peer key base raw (omega arith) in
      (
        record {
          payload = c;
          hmac_signature = sign env.primitives raised_session c;
          sequence_number = session.sequence_counter + 1 + 1;
        },
        ground (arith, made),
        authentic,
        decrypted,
      )
