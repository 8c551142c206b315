-- ===== src/Tokens.antt =====
-- orchestrator/token_issuer.py: the tokens of agent sessions and the sessions themselves.
--
-- The package python-jose is a parameter. A set of permissions is a list, of which only membership
-- matters. Reading, generating and writing the PEM files is not modelled: the keys are given.
mod Issue
pub mod Tests
use Prim.Native.String.{compare}
use Prim.Native.Nat.{Ordering}
use secure_orchestration_mes.Prelude.{
  ℕ, String, ◌+◌, ◌*◌, ◌/◌, ◌<◌, ◌≤◌, ◌≡◌, Bool, true, false, Option, none, some, List, [], ◌∷◌,
  ltb, if◌then◌else◌,
}
use secure_orchestration_mes.Dict
use secure_orchestration_mes.Dict.{Dict}
use secure_orchestration_mes.Messages.{Bytes}
use secure_orchestration_mes.Crypto.{CryptoSession}

-- A time is a number of ticks of 2 ^ -22 seconds, the spacing of the doubles that time.time()
-- returns.
abbrev pub second : ℕ
second = 4194304

pub record TokenPayload : Type 0 where
  pub agent_id : String
  pub task_id : String
  pub permissions : List String
  pub expires_at : ℕ

-- `expires_at` is in whole seconds.
unfoldable pub is_expired : ℕ → TokenPayload → Bool
is_expired now payload = ltb (payload.expires_at * second) now

-- The claims of a token. One that a token lacks is `none`.
pub record Claims : Type 0 where
  pub iss : Option String
  pub sub : Option String
  pub task_id : Option String
  pub permissions : Option (List String)
  pub iat : Option ℕ
  pub exp : Option ℕ
  pub jti : Option String

-- jose.jwt: `encode`, and `decode` at a time in whole seconds, where `none` is a JWTError.
pub record Jose : Type 0 where
  pub encode : (private_key : Bytes) → Claims → String
  pub decode : (public_key : Bytes) → (now : ℕ) → String → Option Claims

-- What the documentation of jose.jwt states for a key pair and claims that expire at `exp`: they
-- come back until their expiry, and not after.
pub record Laws (jose : Jose) (private_key public_key : Bytes) (claims : Claims) (exp : ℕ)
    : Type 0 where
  pub decode-encode :
      (now : ℕ)
      → now ≤ exp
      → jose.decode public_key now (jose.encode private_key claims) ≡ some claims
  pub decode_expired :
      (now : ℕ) → exp < now → jose.decode public_key now (jose.encode private_key claims) ≡ none

pub record TokenIssuer : Type 0 where
  pub private_key : Bytes
  pub public_key : Bytes
  pub ttl_seconds : ℕ
  pub session_keys : Dict CryptoSession

abbrev pub issuer : String
issuer = "secure-orchestration-mesh"

-- `sorted` on texts, which compares their code points.
insert_sorted : String → List String → List String
insert_sorted k [] = k ∷ []
insert_sorted k (j ∷ js) =
    let rest = insert_sorted k js in elim (compare k j) [ Ordering.gt ↦ j ∷ rest | _ ↦ k ∷ j ∷ js ]

unfoldable pub sorted : List String → List String
unfolding insert_sorted
sorted [] = []
sorted (k ∷ ks) = insert_sorted k (sorted ks)

-- What `verify` does: it returns a payload, returns None, or raises KeyError.
pub data Verified : Type 0 where
  accepted : TokenPayload → Verified
  rejected : Verified
  key_error : Verified

abbrev get_or {ℓ} : {A : Type ℓ} → A → Option A → A
get_or d none = d
get_or d (some a) = a

-- The claims of a token; `jti` is the fresh UUID.
abbrev pub granted :
    (jti : String) (now ttl_seconds : ℕ) (agent_id task_id : String) (permissions : List String)
    → Claims
granted jti now ttl_seconds agent_id task_id permissions = record {
  iss = some issuer;
  sub = some agent_id;
  task_id = some task_id;
  permissions = some (sorted permissions);
  iat = some (now / second);
  exp = some ((now + ttl_seconds * second) / second);
  jti = some jti;
}

module _ (jose : Jose) where
  -- `iso8601` is time.strftime on a time.
  unfoldable pub issue :
      (iso8601 : ℕ → String) (jti : String) (now : ℕ)
      → TokenIssuer
      → (agent_id task_id : String) (permissions : List String) → String × String
  issue iso8601 jti now self agent_id task_id permissions = (
    jose.encode self.private_key (granted jti now self.ttl_seconds agent_id task_id permissions),
    iso8601 (now + self.ttl_seconds * second),
  )

  payload_of : Claims → Verified
  payload_of claims = elim claims.sub [
    | none ↦ key_error
    | some sub ↦ elim claims.exp [
      | none ↦ key_error
      | some exp ↦ accepted (record {
        agent_id = sub;
        task_id = get_or "" claims.task_id;
        permissions = get_or [] claims.permissions;
        expires_at = exp;
      })
    ]
  ]

  unfoldable pub verify : (now : ℕ) → TokenIssuer → String → Verified
  unfolding payload_of
  verify now self token = elim (jose.decode self.public_key (now / second) token) [
    | none ↦ rejected
    | some claims ↦ payload_of claims
  ]

unfoldable pub register_session : TokenIssuer → String → CryptoSession → TokenIssuer
register_session self agent_id session = record self {
  session_keys = Dict.put self.session_keys agent_id session;
}

unfoldable pub get_session : TokenIssuer → String → Option CryptoSession
get_session self agent_id = Dict.get self.session_keys agent_id

unfoldable pub revoke_session : TokenIssuer → String → TokenIssuer
revoke_session self agent_id = record self { session_keys = Dict.pop self.session_keys agent_id }
