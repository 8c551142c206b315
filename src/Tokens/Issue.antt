-- ===== src/Tokens/Issue.antt =====
-- A token, from its issue to its expiry, and the sessions of an issuer.
use secure_orchestration_mes.Prelude.{
  ℕ, String, ◌+◌, ◌*◌, ◌/◌, ◌≡◌, refl, ◌||◌, none, some, List, [], ◌∷◌, arith, contains, leb,
  leb→le, str_eq, if◌then◌else◌, Bool-cases, inl, inr,
}
use secure_orchestration_mes.Dict.{get-put, get-pop}
use secure_orchestration_mes.Crypto.{CryptoSession}
use secure_orchestration_mes.Tokens.{
  second, granted, Jose, Laws, TokenIssuer, insert_sorted, sorted, accepted, rejected, issue,
  verify, register_session, get_session, revoke_session,
}

contains-insert_sorted :
    (k j : String) (js : List String)
    → contains k (insert_sorted j js) ≡ (str_eq j k || contains k js)
unfolding insert_sorted
contains-insert_sorted k j [] = refl
contains-insert_sorted k j (i ∷ js) = ground (arith, contains-insert_sorted k j js)

pub contains-sorted : (k : String) (ks : List String) → contains k (sorted ks) ≡ contains k ks
unfolding sorted
contains-sorted k [] = refl
contains-sorted k (j ∷ ks) =
    ground (arith, contains-insert_sorted k j (sorted ks), contains-sorted k ks)

expiry : (issued ttl : ℕ) → (issued + ttl * second) / second ≡ issued / second + ttl
expiry issued ttl = omega arith

-- A token that an issuer signed verifies until `ttl_seconds` after its issue, counted in whole
-- seconds, with the agent, the task and the permissions of its issue; after that it is rejected.
pub verify-issue :
    (jose : Jose) (self : TokenIssuer) (iso8601 : ℕ → String) (jti : String) (issued now : ℕ)
    (agent_id task_id : String) (permissions : List String)
    → Laws jose self.private_key self.public_key
        (granted jti issued self.ttl_seconds agent_id task_id permissions)
        (issued / second + self.ttl_seconds)
    → verify jose now self (issue jose iso8601 jti issued self agent_id task_id permissions).0 ≡ (
        if leb (now / second) (issued / second + self.ttl_seconds)
        then accepted (record {
          agent_id = agent_id;
          task_id = task_id;
          permissions = sorted permissions;
          expires_at = issued / second + self.ttl_seconds;
        })
        else rejected)
unfolding verify issue
verify-issue jose self iso8601 jti issued now agent_id task_id permissions laws =
    elim (Bool-cases (leb (now / second) (issued / second + self.ttl_seconds))) [
      | inl fresh ↦
          rw (fresh, verify, laws.decode-encode (now / second) (leb→le _ _ fresh))
            (rw (expiry issued self.ttl_seconds))
      | inr late ↦ rw (late, verify, laws.decode_expired (now / second) (ground arith))
    ]

-- `get_session` finds the session that was registered last for the agent, and none once it is
-- revoked; neither touches the sessions of others.
pub get_session_lem :
    (self : TokenIssuer) (agent_id k : String) (session : CryptoSession)
    → (get_session (register_session self agent_id session) k
        ≡ (if str_eq agent_id k then some session else get_session self k))
      × (get_session (revoke_session self agent_id) k
          ≡ (if str_eq agent_id k then none else get_session self k))
unfolding get_session register_session revoke_session
get_session_lem self agent_id k session =
    (get-put self.session_keys agent_id k session, get-pop self.session_keys agent_id k)
