-- ===== src/Client/Accepted.antt =====
-- The results that an agent sends, before the guardrail of the orchestrator.
use secure_orchestration_mes.Prelude.{
  ℕ, String, ◌+◌, ◌*◌, ◌^◌, ◌≤◌, ◌<◌, ◌≡◌, ◌≢◌, refl, sym, subst, ◌∙◌, ap, inr, true, false, Option,
  none, some, List, [], ◌∷◌, map, length, All, arith, Option-cases, eq_refl, if◌then◌else◌,
  Bool-cases, inl, ltb, leb,
}
use mathlib.Core.Option.{none-ne-some, some-injective}
use secure_orchestration_mes.Messages.{Bytes, SignedPacket, TaskResult}
use secure_orchestration_mes.Crypto.{
  Laws, CryptoSession, encrypt, sign, encrypt_payload, derive_nonce,
}
use secure_orchestration_mes.Tokens.{Jose, TokenIssuer, TokenPayload, accepted}
use secure_orchestration_mes.Tokens
use secure_orchestration_mes.Guardrail.{
  GuardrailLayer, Validation, result, pass, max_window_drift, check_window, check_replay, has,
  prune, record_metric,
}
use secure_orchestration_mes.Guardrail.Replay.{
  seen_of, high_of, seen-check_replay, high-check_replay, fresh-check_replay, max-check_replay,
}
use secure_orchestration_mes.Guardrail.Validate.{validate, IsClean, validate-IsClean}
use secure_orchestration_mes.Client.{Environment, sign_and_encrypt}
use secure_orchestration_mes.Client.Inbound.{sign_and_encrypt-decrypts}

abbrev UpTo : ℕ → List ℕ → Type 0
UpTo n = All (λ s. s ≤ n)

UpTo-more : (n m : ℕ) (seen : List ℕ) → n ≤ m → UpTo n seen → UpTo m seen
UpTo-more n m [] le h = tt
UpTo-more n m (s ∷ seen) le h = (omega (arith, h.0), UpTo-more n m seen le h.1)

prune-UpTo : (n seq : ℕ) (seen : List ℕ) → UpTo n seen → UpTo n (prune seq seen)
unfolding prune
prune-UpTo n seq [] h = tt
prune-UpTo n seq (s ∷ seen) h = elim (Bool-cases (ltb seq (s + 5000))) [
  | inl young ↦ rw young (h.0, prune-UpTo n seq seen h.1)
  | inr old ↦ rw old (prune-UpTo n seq seen h.1)
]

not-has : (n seq : ℕ) (seen : List ℕ) → n < seq → UpTo n seen → has seen seq ≡ false
unfolding has
not-has n seq [] lt h = refl
not-has n seq (s ∷ seen) lt h = ground (arith, h.0, not-has n seq seen lt h.1)

kept-UpTo :
    (n seq : ℕ) (seen : List ℕ)
    → UpTo n seen
    → UpTo n (if ltb 10000 (length seen) then prune seq seen else seen)
kept-UpTo n seq seen h = elim (Bool-cases (ltb 10000 (length seen))) [
  | inl full ↦ rw full (prune-UpTo n seq seen h)
  | inr room ↦ rw room h
]

-- A number above all that were seen is accepted, and is then the highest.
check_window-next :
    (seen : List ℕ) (high n seq : ℕ)
    → high ≤ n
    → UpTo n seen
    → n < seq
    → ((check_window seen high seq).0 ≡ true)
      × UpTo seq (check_window seen high seq).1
      × ((check_window seen high seq).2 ≤ seq)
unfolding check_window
check_window-next seen high n seq le h lt =
    let new = not-has n seq seen lt h in
    let near : leb (seq + max_window_drift) high ≡ false = ground arith in
    let kept = kept-UpTo seq seq seen (UpTo-more n seq seen (omega arith) h) in
    rw (check_window, near, new) (refl, (omega arith, kept), omega arith)

-- No number above `n` has been seen of the session.
pub record IsBehind (n : ℕ) (k : String) (g : GuardrailLayer) : Type 0 where
  pub high : high_of g k ≤ n
  pub seen : UpTo n (seen_of g k)

check_replay-next :
    (g : GuardrailLayer) (k : String) (n seq : ℕ)
    → IsBehind n k g
    → n < seq
    → ((check_replay g k seq).0 ≡ true) × IsBehind seq k (check_replay g k seq).1
check_replay-next g k n seq behind lt =
    let (fresh, seen, high) =
      check_window-next (seen_of g k) (high_of g k) n seq behind.high behind.seen lt in
    (
      fresh-check_replay g k seq ∙ fresh,
      record {
        high = rw (high-check_replay g k seq) high;
        seen = rw (seen-check_replay g k k seq, eq_refl k) seen;
      },
    )

module _ (env : Environment) (laws : Laws env.primitives)
    (overhead : (key nonce m : Bytes)
      → length (env.primitives.aesgcm_encrypt key nonce m) ≡ length m + 16) where
  -- A packet's number and length, and the session after it.
  sign_and_encrypt-shape :
      (session : CryptoSession) (raw : Bytes) (packet : SignedPacket)
      → (sign_and_encrypt env session raw).0 ≡ some packet
      → (packet.sequence_number ≡ session.sequence_counter + 1 + 1)
        × (length packet.payload ≡ length raw + 16)
        × ((sign_and_encrypt env session raw).1
            ≡ record session { sequence_counter = session.sequence_counter + 1 + 1 })
  unfolding sign_and_encrypt encrypt sign encrypt_payload
  sign_and_encrypt-shape session raw packet made =
      let p = env.primitives in
      let counter = session.sequence_counter + 1 + 1 in
      elim (Option-cases (derive_nonce p session.nonce_base counter)) [
        | inl bad ↦
            absurd (none-ne-some packet (rw (sign_and_encrypt, encrypt_payload, bad) at made))
        | inr (nonce, good) ↦
            let c = p.aesgcm_encrypt session.session_key nonce raw in
            let built : some (record {
              payload = c;
              hmac_signature = sign p (record session { sequence_counter = counter }) c;
              sequence_number = counter;
            })
                ≡ some packet =
              rw (sign_and_encrypt, encrypt_payload, good) at made in
            let same = some-injective _ packet built in
            (
              sym (ap (λ x. x.sequence_number) same),
              ap (λ x. length x.payload) (sym same) ∙ overhead session.session_key nonce raw,
              rw (sign_and_encrypt, encrypt_payload, good) refl,
            )
      ]

-- An agent encrypts and signs results in order, and the guardrail validates each packet as it
-- comes: the answers, up to an exception of the agent.
unfoldable pub exchange :
    (env : Environment)
    (validate_packet : GuardrailLayer → SignedPacket → Validation × GuardrailLayer)
    → List TaskResult
    → CryptoSession
    → GuardrailLayer
    → List (Option Validation)
exchange env validate_packet [] session g = []
exchange env validate_packet (r ∷ results) session g =
    elim (sign_and_encrypt env session (env.serialize_task_result r)).0 [
      | none ↦ none ∷ []
      | some packet ↦
          some (validate_packet g packet).0
          ∷ exchange env validate_packet results
              (sign_and_encrypt env session (env.serialize_task_result r)).1
              (validate_packet g packet).1
    ]

exchange-step :
    (env : Environment)
    (validate_packet : GuardrailLayer → SignedPacket → Validation × GuardrailLayer) (r : TaskResult)
    (results : List TaskResult) (session session' : CryptoSession) (g : GuardrailLayer)
    (packet : SignedPacket) (answer : Validation × GuardrailLayer)
    → (sign_and_encrypt env session (env.serialize_task_result r)).0 ≡ some packet
    → (sign_and_encrypt env session (env.serialize_task_result r)).1 ≡ session'
    → validate_packet g packet ≡ answer
    → exchange env validate_packet (r ∷ results) session g
      ≡ some answer.0 ∷ exchange env validate_packet results session' answer.1
unfolding exchange
exchange-step env validate_packet r results session session' g packet answer made after valid =
    rw (exchange, made)
      (ap
          (λ t.
            some (validate_packet g packet).0
            ∷ exchange env validate_packet results t (validate_packet g packet).1)
          after
        ∙ ap (λ x. some x.0 ∷ exchange env validate_packet results session' x.1) valid)

-- The size that a result is sent with.
abbrev pub Fits : Environment → ℕ → List TaskResult → Type 0
Fits env limit = All (λ r. length (env.serialize_task_result r) + 16 ≤ limit)

abbrev pub passing : TokenPayload → TaskResult → Option Validation
passing token r =
    some (result (record { outcome = pass; task_id = r.task_id; agent_id = token.agent_id }))

record_metric-IsBehind :
    (n : ℕ) (k agent_id task_id timestamp : String) (latency_us size : ℕ) (g : GuardrailLayer)
    → IsBehind n k g
    → IsBehind n k (record_metric g agent_id task_id timestamp latency_us size)
unfolding record_metric
record_metric-IsBehind n k agent_id task_id timestamp latency_us size g h = record {
  high = h.high;
  seen = h.seen;
}

record_metric-max :
    (agent_id task_id timestamp : String) (latency_us size : ℕ) (g : GuardrailLayer)
    → (record_metric g agent_id task_id timestamp latency_us size).max_payload_bytes
      ≡ g.max_payload_bytes
unfolding record_metric
record_metric-max agent_id task_id timestamp latency_us size g = refl

module _ (env : Environment) (laws : Laws env.primitives)
    (overhead : (key nonce m : Bytes)
      → length (env.primitives.aesgcm_encrypt key nonce m) ≡ length m + 16)
    (parse_task_result : Bytes → Option TaskResult) (timestamp : String) (latency_us : ℕ)
    (jose : Jose) (now : ℕ) (issuer : TokenIssuer) (access_token : String) (token : TokenPayload)
    (signed : Tokens.verify jose now issuer access_token ≡ accepted token)
    (allowed : token.permissions ≢ []) where
  abbrev validate_from : CryptoSession → GuardrailLayer → SignedPacket → Validation × GuardrailLayer
  validate_from peer g packet =
      validate timestamp latency_us parse_task_result env.primitives jose now issuer g packet peer
        access_token

  -- Whatever results an agent sends in order, the guardrail passes each one, with the task of the
  -- result and the agent of the token: none is taken for a replay or a forgery, and none is lost.
  -- The two ends have the same key and nonce base, the guardrail has seen no number of the session
  -- above the agent's counter, the counter keeps 64 bits, each packet is within the size limit, and
  -- the token verifies at the time of the checks and has a permission. AES-GCM adds 16 bytes to a
  -- text, and each result is parsed from its bytes again.
  pub exchange-passes :
      (results : List TaskResult) (session peer : CryptoSession) (g : GuardrailLayer)
      → session.session_key ≡ peer.session_key
      → session.nonce_base ≡ peer.nonce_base
      → IsBehind session.sequence_counter peer.session_id g
      → session.sequence_counter + length results * 2 < 2 ^ 64
      → Fits env g.max_payload_bytes results
      → All (λ r. parse_task_result (env.serialize_task_result r) ≡ some r) results
      → exchange env (validate_from peer) results session g ≡ map (passing token) results
  unfolding exchange
  exchange-passes [] session peer g key base behind counter fits parsed = refl
  exchange-passes (r ∷ results) session peer g key base behind counter fits parsed =
      let raw = env.serialize_task_result r in
      let (packet, made, authentic, readable) =
        sign_and_encrypt-decrypts env laws session peer raw (omega arith) key base in
      let (number, size, after) =
        sign_and_encrypt-shape env laws overhead session raw packet made in
      let (fresh, behind') =
        check_replay-next g peer.session_id session.sequence_counter packet.sequence_number behind
          (omega arith) in
      let clean : IsClean timestamp latency_us parse_task_result env.primitives jose now issuer g
          packet peer access_token =
        record {
          authentic = authentic;
          fresh = fresh;
          plaintext = raw;
          decrypted = readable;
          fits = omega (arith, size, fits.0);
          token = token;
          signed = signed;
          task_result = r;
          parsed = parsed.0;
          permitted = inr allowed;
        } in
      let valid =
        validate-IsClean timestamp latency_us parse_task_result env.primitives jose now issuer g
          packet peer access_token clean in
      let g' = (check_replay g peer.session_id packet.sequence_number).1 in
      let metered =
        record_metric g' token.agent_id r.task_id timestamp latency_us (length packet.payload) in
      let session' = record session { sequence_counter = session.sequence_counter + 1 + 1 } in
      let rest =
        exchange-passes results session' peer metered key base
          (subst (λ n. IsBehind n peer.session_id metered) number
            (record_metric-IsBehind packet.sequence_number peer.session_id token.agent_id r.task_id
              timestamp latency_us (length packet.payload) g' behind'))
          (omega arith)
          (subst (λ limit. Fits env limit results)
            (sym (
              record_metric-max token.agent_id r.task_id timestamp latency_us
                (length packet.payload) g'
              ∙ max-check_replay g peer.session_id packet.sequence_number))
            fits.1)
          parsed.1 in
      exchange-step env (validate_from peer) r results session session' g packet _ made after valid
      ∙ ap (λ answers. passing token r ∷ answers) rest
