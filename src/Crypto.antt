-- ===== src/Crypto.antt =====
-- agent_sdk/crypto.py: key derivation, encryption and integrity of one session.
--
-- The primitives of the package `cryptography`, of hashlib, hmac and os.urandom are a parameter. A
-- key object is the bytes that it stands for; `none` is a raised exception.
pub mod Session
pub mod Tests
use secure_orchestration_mes.Prelude.{
  ℕ, zero, suc, String, ◌+◌, ◌*◌, ◌/◌, ◌%◌, ◌^◌, ◌≡◌, Bool, true, false, ◌&&◌, Option, none, some,
  List, [], ◌∷◌, ◌++◌, ltb, ◌==◌, if◌then◌else◌, take,
}
use secure_orchestration_mes.Messages.{Bytes}

pub record Primitives : Type 0 where
  -- X25519PrivateKey.public_key, .exchange; X25519PublicKey.from_public_bytes, .public_bytes_raw
  pub public_key : Bytes → Bytes
  pub exchange : Bytes → Bytes → Bytes
  pub from_public_bytes : Bytes → Option Bytes
  pub public_bytes_raw : Bytes → Bytes
  -- HKDF(SHA256, length 32, salt, info).derive(secret)
  pub hkdf : (salt info secret : Bytes) → Bytes
  pub sha256 : Bytes → Bytes
  -- hmac.digest(key, message, "sha256")
  pub hmac_digest : (key message : Bytes) → Bytes
  -- AESGCM(key).encrypt(nonce, plaintext, None), and decrypt, which raises InvalidTag. The key of a
  -- session is 32 bytes from HKDF; the ValueError for keys of other lengths has no case here.
  pub aesgcm_encrypt : (key nonce plaintext : Bytes) → Bytes
  pub aesgcm_decrypt : (key nonce ciphertext : Bytes) → Option Bytes

-- What the documentation of the primitives states: decryption inverts encryption, both sides of an
-- exchange get one secret, and a key survives its raw bytes.
pub record Laws (p : Primitives) : Type 0 where
  pub decrypt-encrypt :
      (key nonce m : Bytes) → p.aesgcm_decrypt key nonce (p.aesgcm_encrypt key nonce m) ≡ some m
  pub exchange_comm : (a b : Bytes) → p.exchange a (p.public_key b) ≡ p.exchange b (p.public_key a)
  pub from-raw :
      (k : Bytes)
      → p.from_public_bytes (p.public_bytes_raw (p.public_key k)) ≡ some (p.public_key k)

-- `==` on bytes, which is what hmac.compare_digest answers.
unfoldable pub bytes_eq : Bytes → Bytes → Bool
bytes_eq [] [] = true
bytes_eq (a ∷ l) (b ∷ r) = a == b && bytes_eq l r
bytes_eq _ _ = false

-- The lowest `n` bytes of a number, the highest first.
unfoldable pub big_endian : ℕ → ℕ → Bytes
big_endian zero value = []
big_endian (suc n) value = big_endian n (value / 256) ++ (value % 256) ∷ []

abbrev pub aes_gcm_nonce_length : ℕ
aes_gcm_nonce_length = 12

module _ (p : Primitives) (info : Bytes) where
  unfoldable pub derive_session_key : (own_private peer_public shared_nonce : Bytes) → Bytes
  derive_session_key own_private peer_public shared_nonce =
      let shared_secret = p.exchange own_private peer_public in
      p.hkdf shared_nonce info shared_secret

module _ (p : Primitives) where
  unfoldable pub compute_hmac : (key message : Bytes) → Bytes
  compute_hmac key message = p.hmac_digest key message

  unfoldable pub verify_hmac : (key message signature : Bytes) → Bool
  unfolding compute_hmac
  verify_hmac key message signature = bytes_eq (compute_hmac key message) signature

  -- struct.pack(">Q", counter) raises for a counter of more than 64 bits.
  unfoldable pub derive_nonce : (nonce_base : Bytes) (counter : ℕ) → Option Bytes
  derive_nonce nonce_base counter =
      if ltb counter (2 ^ 64)
      then some (take aes_gcm_nonce_length (p.sha256 (nonce_base ++ big_endian 8 counter)))
      else none

  unfoldable pub encrypt_payload :
      (session_key nonce_base plaintext : Bytes) (sequence_number : ℕ) → Option Bytes
  encrypt_payload session_key nonce_base plaintext sequence_number =
      elim (derive_nonce nonce_base sequence_number) [
        | none ↦ none
        | some nonce ↦ some (p.aesgcm_encrypt session_key nonce plaintext)
      ]

  unfoldable pub decrypt_payload :
      (session_key nonce_base ciphertext : Bytes) (sequence_number : ℕ) → Option Bytes
  decrypt_payload session_key nonce_base ciphertext sequence_number =
      elim (derive_nonce nonce_base sequence_number) [
        | none ↦ none
        | some nonce ↦ p.aesgcm_decrypt session_key nonce ciphertext
      ]

pub record CryptoSession : Type 0 where
  pub agent_private : Bytes
  pub agent_public : Bytes
  pub orchestrator_public : Bytes
  pub session_key : Bytes
  pub nonce_base : Bytes
  pub session_id : String
  pub sequence_counter : ℕ

module _ (p : Primitives) (info : Bytes) where
  -- `agent_private` and `nonce_base` are what X25519PrivateKey.generate and os.urandom returned.
  unfoldable pub init_for_agent :
      (agent_private nonce_base : Bytes) (session_id : String) (orchestrator_public_bytes : Bytes)
      → Option CryptoSession
  unfolding derive_session_key
  init_for_agent agent_private nonce_base session_id orchestrator_public_bytes =
      elim (p.from_public_bytes orchestrator_public_bytes) [
        | none ↦ none
        | some orchestrator_public ↦ some (record {
          agent_private = agent_private;
          agent_public = p.public_key agent_private;
          orchestrator_public = orchestrator_public;
          session_key = derive_session_key p info agent_private orchestrator_public nonce_base;
          nonce_base = nonce_base;
          session_id = session_id;
          sequence_counter = 0;
        })
      ]

  -- The orchestrator's own pair stands in the fields named for the agent's.
  unfoldable pub init_for_orchestrator :
      (orch_private nonce_base : Bytes) (session_id : String) (agent_public_bytes : Bytes)
      → Option CryptoSession
  unfolding derive_session_key
  init_for_orchestrator orch_private nonce_base session_id agent_public_bytes =
      elim (p.from_public_bytes agent_public_bytes) [
        | none ↦ none
        | some agent_public ↦ some (record {
          agent_private = orch_private;
          agent_public = p.public_key orch_private;
          orchestrator_public = agent_public;
          session_key = derive_session_key p info orch_private agent_public nonce_base;
          nonce_base = nonce_base;
          session_id = session_id;
          sequence_counter = 0;
        })
      ]

module _ (p : Primitives) where
  -- The counter is raised before the call that may raise an exception.
  unfoldable pub encrypt : CryptoSession → Bytes → Option Bytes × CryptoSession
  encrypt session plaintext =
      let counter = session.sequence_counter + 1 in
      (
        encrypt_payload p session.session_key session.nonce_base plaintext counter,
        record session { sequence_counter = counter },
      )

  unfoldable pub decrypt : CryptoSession → Bytes → ℕ → Option Bytes
  decrypt session ciphertext sequence_number =
      decrypt_payload p session.session_key session.nonce_base ciphertext sequence_number

  unfoldable pub sign : CryptoSession → Bytes → Bytes
  unfolding compute_hmac
  sign session message = compute_hmac p session.session_key message

  unfoldable pub verify : CryptoSession → Bytes → Bytes → Bool
  unfolding verify_hmac
  verify session message signature = verify_hmac p session.session_key message signature
