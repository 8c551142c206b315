-- ===== src/Tokens/Tests.antt =====
-- A toy `jose` that keeps the documented laws, and an issuer over it.
use secure_orchestration_mes.Prelude.{
  ◌≡◌, refl, none, some, [], ◌∷◌, arith, leb, le→leb, str_eq, ◌*◌, if◌then◌else◌,
}
use secure_orchestration_mes.Crypto.{CryptoSession}
use secure_orchestration_mes.Tokens.{
  second, Claims, Jose, Laws, TokenIssuer, sorted, accepted, issue, verify, granted,
}
use secure_orchestration_mes.Tokens.Issue.{verify-issue}

-- The one token of the toy is "t".
abbrev pub claims : Claims
claims = granted "u" second 60 "a" "t1" ("write" ∷ "read" ∷ [])

abbrev pub toy_jose : Jose
toy_jose = record {
  encode = λ key c. "t";
  decode = λ key now token.
      if leb now 61 then (if str_eq token "t" then some claims else none) else none;
}

abbrev pub sample_issuer : TokenIssuer
sample_issuer = record { private_key = []; public_key = []; ttl_seconds = 60; session_keys = [] }

pub toy_jose-Laws : Laws toy_jose [] [] claims 61
toy_jose-Laws = record {
  decode-encode = λ now h. rw (le→leb now 61 h);
  decode_expired = λ now h. ground arith;
}

sorted_permissions : sorted ("write" ∷ "read" ∷ []) ≡ "read" ∷ "write" ∷ []
unfolding sorted
sorted_permissions = refl

verify-issue_example :
    verify toy_jose
      (61 * second)
      sample_issuer
      (issue toy_jose (λ t. "") "u" second sample_issuer "a" "t1" ("write" ∷ "read" ∷ [])).0
    ≡ accepted (record {
      agent_id = "a";
      task_id = "t1";
      permissions = sorted ("write" ∷ "read" ∷ []);
      expires_at = 61;
    })
verify-issue_example =
    verify-issue toy_jose sample_issuer (λ t. "") "u" second (61 * second) "a" "t1"
      ("write" ∷ "read" ∷ []) toy_jose-Laws

session : CryptoSession
session = record {
  agent_private = [];
  agent_public = [];
  orchestrator_public = [];
  session_key = [];
  nonce_base = [];
  session_id = "a";
  sequence_counter = 0;
}
