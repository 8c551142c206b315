-- ===== src/Adapters/Own.antt =====
-- The consumer of an adapter reads the queue that its own requests are put into, in
-- orchestrator/crewai_adapter.py and orchestrator/langgraph_adapter.py.
use secure_orchestration_mes.Prelude.{
  String, ◌≡◌, ◌≢◌, refl, sym, ap, ◌∙◌, ◌+◌, ◌<◌, ◌^◌, if◌then◌else◌, Bool, true, false, Option,
  none, some, [], ◌∷◌, ◌++◌, arith, inl, inr, Option-cases, leb, length,
}
use secure_orchestration_mes.Dict.{Dict, get, put, get-put_self, get-put_ne}
use secure_orchestration_mes.Messages.{
  SignedPacket, TaskRequest, TaskResult, AgentRegistrationRequest, AgentRegistrationResponse, Bytes,
}
use secure_orchestration_mes.Crypto.{Laws, CryptoSession, encrypt, decrypt, verify}
use secure_orchestration_mes.Client
use secure_orchestration_mes.Client.{MeshAgent, sign_and_encrypt, pending_limit}
use secure_orchestration_mes.Client.Inbound.{sign_and_encrypt-decrypts}
use secure_orchestration_mes.Adapters.{
  Answer, Future, awaited, resolved, abandoned, Adapter, Environment, Task, submitted, raised,
  waits, on_agent, state_name, submit, consume, finish, resolve, settle, enqueue, send_request,
  submit_connected, ensure_connected, taken, handle_plaintext, handle_response, answer_at,
  timed_out, request_of, token_or_empty,
}

if_true {ℓ} : {A : Type ℓ} (b : Bool) (x y : A) → b ≡ true → (if b then x else y) ≡ x
if_true true x y h = refl
if_true false x y h = absurd (cc)

-- Signing and encrypting keeps the keys of a session.
sign_and_encrypt-keys :
    (client : Client.Environment) (session : CryptoSession) (m : Bytes)
    → (session.session_key ≡ (sign_and_encrypt client session m).1.session_key)
      × (session.nonce_base ≡ (sign_and_encrypt client session m).1.nonce_base)
unfolding sign_and_encrypt encrypt
sign_and_encrypt-keys client session m =
    elim (Option-cases
      (encrypt client.primitives
        (record session { sequence_counter = session.sequence_counter + 1 }) m).0) [
          | inl e ↦ ground (arith, e)
          | inr (c, e) ↦ ground (arith, e)
        ]

module _ (env : Environment)
    (register : AgentRegistrationRequest → Option AgentRegistrationResponse)
    (answer_of : TaskResult → String → Answer) (self : Adapter) (task : Task)
    (session : CryptoSession) (is_connected : self.connected ≡ true)
    (has_session : self.agent.crypto ≡ some session)
    (queue_empty : self.agent.pending_results ≡ []) where
  raw : Bytes
  raw = env.serialize_task_request (request_of env register self.agent session task)

  -- The adapter with the request in its queue.
  abbrev queued : SignedPacket → CryptoSession → Adapter
  queued packet session' = record {
    agent = record self.agent { crypto = some session'; pending_results = packet ∷ [] };
    connected = self.connected;
    futures = put self.futures task.task_id awaited;
  }

  submit-queued :
      (packet : SignedPacket) (session' : CryptoSession)
      → sign_and_encrypt env.client session raw ≡ (some packet, session')
      → submit env register self task ≡ (submitted, queued packet session')
  unfolding submit ensure_connected send_request raw
  submit-queued packet session' made =
      let s : Adapter = record self { futures = put self.futures task.task_id awaited } in
      ap
        (λ (e : Bool × Adapter).
          if e.0 then submit_connected env register e.1 task else (raised, e.1))
        (if_true self.connected (true, self) _ is_connected)
      ∙ ap (send_request env register s task) has_session
      ∙ ap (enqueue env register s) made
      ∙ ap
          (λ q.
            if leb pending_limit (length q)
            then (waits, on_agent s (record self.agent { crypto = some session' }))
            else (
              submitted,
              on_agent s (record self.agent {
                crypto = some session';
                pending_results = q ++ (packet ∷ []);
              }),
            ))
          queue_empty

  -- A result for another task leaves the future as it is.
  settle-other :
      (futures : Dict Future) (r : TaskResult) (o : Option Future)
      → r.task_id ≢ task.task_id
      → get (settle env register answer_of futures r o) task.task_id ≡ get futures task.task_id
  settle-other futures r (some awaited) other =
      get-put_ne futures r.task_id task.task_id
        (resolve env register answer_of r (state_name r.state)) other
  settle-other futures r (some (resolved a)) other = refl
  settle-other futures r (some abandoned) other = refl
  settle-other futures r none other = refl

  handle_plaintext-other :
      (futures : Dict Future) (o : Option TaskResult)
      → ((r : TaskResult) → o ≡ some r → r.task_id ≢ task.task_id)
      → get (handle_plaintext env register answer_of futures o) task.task_id
        ≡ get futures task.task_id
  unfolding handle_plaintext
  handle_plaintext-other futures none other = refl
  handle_plaintext-other futures (some r) other =
      settle-other futures r (get futures r.task_id) (other r refl)

  handle_response-other :
      (futures : Dict Future) (session' : CryptoSession) (packet : SignedPacket) (plaintext : Bytes)
      → verify env.client.primitives session' packet.payload packet.hmac_signature ≡ true
      → decrypt env.client.primitives session' packet.payload packet.sequence_number
        ≡ some plaintext
      → ((r : TaskResult) → env.parse_task_result plaintext ≡ some r → r.task_id ≢ task.task_id)
      → get (handle_response env register answer_of futures (some session') packet) task.task_id
        ≡ get futures task.task_id
  unfolding handle_response
  handle_response-other futures session' packet plaintext v d other =
      rw (d, v) (handle_plaintext-other futures (env.parse_task_result plaintext) other)

  consume-queued :
      (packet : SignedPacket) (session' : CryptoSession)
      → consume env register answer_of (queued packet session')
        ≡ taken env register answer_of (queued packet session') (packet ∷ [])
  unfolding consume
  consume-queued packet session' = if_true self.connected _ _ is_connected

  -- An adapter that is connected, with nothing in its queue, takes the next request that it queues for a
  -- response: the request is gone from the queue and the call ends with its deadline. This is where
  -- the counter has 64 bits, the token is not the id of the task, and a request that is read as a result has
  -- its token, the first field of both messages, for the id of the task.
  pub submit-eaten :
      Laws env.client.primitives
      → session.sequence_counter + 2 < 2 ^ 64
      → token_or_empty env register self.agent.access_token ≢ task.task_id
      → ((q : TaskRequest) (r : TaskResult)
          → env.parse_task_result (env.serialize_task_request q) ≡ some r
          → r.task_id ≡ q.access_token)
      → let after = submit env register self task in
        let later = consume env register answer_of after.1 in
        (after.0 ≡ submitted)
        × (later.agent.pending_results ≡ [])
        × ((finish env later task.task_id).0 ≡ timed_out env task.task_id)
  unfolding finish raw request_of
  submit-eaten laws fits other wire =
      let session' = (sign_and_encrypt env.client session raw).1 in
      let (key, base) = sign_and_encrypt-keys env.client session raw in
      let (packet, made, authentic, decrypted) =
        sign_and_encrypt-decrypts env.client laws session session' raw fits key base in
      let futures = put self.futures task.task_id awaited in
      let found : get (handle_response env register answer_of futures (some session') packet)
            task.task_id
          ≡ some awaited =
        handle_response-other futures session' packet raw authentic decrypted
          (λ r e h. other (sym (wire (request_of env register self.agent session task) r e) ∙ h))
        ∙ get-put_self self.futures task.task_id awaited in
      rw
        (
          submit-queued packet session' (ap (λ o. (o, session')) made),
          consume-queued packet session',
        )
        (refl, refl, ap (answer_at env task.task_id) found)
