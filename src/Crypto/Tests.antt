-- ===== src/Crypto/Tests.antt =====
-- A toy set of primitives that keeps the documented laws, and sessions over it.
use secure_orchestration_mes.Prelude.{ℕ, ◌+◌, ◌≡◌, refl, true, none, some, [], ◌∷◌, ◌++◌, arith}
use native.Mathlib.Nat.{add_comm}
use secure_orchestration_mes.Messages.{Bytes}
use secure_orchestration_mes.Crypto.{
  Primitives, Laws, CryptoSession, encrypt, decrypt, sign, verify,
}
use secure_orchestration_mes.Crypto.Session.{decrypt-encrypt}

abbrev pub sum : Bytes → ℕ
sum [] = 0
sum (b ∷ bs) = b + sum bs

-- The secret of an exchange is the sum of the keys; a cipher text is the nonce's length and the text.
abbrev pub toy_primitives : Primitives
toy_primitives = record {
  public_key = λ k. k;
  exchange = λ a b. (sum a + sum b) ∷ [];
  from_public_bytes = λ b. some b;
  public_bytes_raw = λ k. k;
  hkdf = λ salt info secret. salt ++ secret;
  sha256 = λ m. m;
  hmac_digest = λ key m. key ++ m;
  aesgcm_encrypt = λ key nonce m. 7 ∷ m;
  aesgcm_decrypt = λ key nonce c. elim c [ [] ↦ none | t ∷ m ↦ some m ];
}

pub toy_primitives-Laws : Laws toy_primitives
toy_primitives-Laws = record {
  decrypt-encrypt = λ key nonce m. refl;
  exchange_comm = λ a b. rw (add_comm (sum a) (sum b));
  from-raw = λ k. refl;
}

abbrev session : ℕ → CryptoSession
session counter = record {
  agent_private = 1 ∷ [];
  agent_public = 1 ∷ [];
  orchestrator_public = 2 ∷ [];
  session_key = 3 ∷ [];
  nonce_base = 4 ∷ [];
  session_id = "a";
  sequence_counter = counter;
}

decrypt-encrypt_example :
    (c : Bytes) × ((encrypt toy_primitives (session 5) (8 ∷ 9 ∷ [])).0 ≡ some c)
    × (verify toy_primitives (session 0) c (sign toy_primitives (session 5) c) ≡ true)
    × (decrypt toy_primitives
          (session 0)
          c
          (encrypt toy_primitives (session 5) (8 ∷ 9 ∷ [])).1.sequence_counter
        ≡ some (8 ∷ 9 ∷ []))
decrypt-encrypt_example =
    decrypt-encrypt toy_primitives toy_primitives-Laws (session 5) (session 0) refl refl
      (8 ∷ 9 ∷ []) (omega arith)
