-- ===== src/Adapters/Steps.antt =====
-- The calls of an adapter and the rounds of its consumer, in any order.
use secure_orchestration_mes.Prelude.{
  String, ◌≡◌, refl, sym, str_eq, if◌then◌else◌, Bool, true, false, Option, none, some, List, [],
  ◌∷◌, inl, inr, Bool-cases, subst, leb, length,
}
use secure_orchestration_mes.Dict.{
  Dict, get, AllEntries, put-AllEntries, pop-AllEntries, get-AllEntries,
}
use secure_orchestration_mes.Messages.{
  SignedPacket, TaskResult, TaskState, task_unspecified, pending, dispatched, in_progress,
  completed, failed, cancelled, task_quarantined, task_unknown, AgentRegistrationRequest,
  AgentRegistrationResponse, Bytes,
}
use secure_orchestration_mes.Crypto.{CryptoSession, decrypt, verify}
use secure_orchestration_mes.Client.{MeshAgent, Connected, answer, bad_key, connect, pending_limit}
use secure_orchestration_mes.Adapters.{
  Answer, Future, awaited, resolved, abandoned, Adapter, Environment, Task, state_name, submit,
  consume, finish, tool_result, resolve, settle, enqueue, send_request, submit_connected,
  after_connect, ensure_connected, taken, handle_plaintext, handle_decrypted, handle_response,
  answer_at,
}

pub data Step : Type 0 where
  starts : Task → Step
  consumes : Step
  ends : String → Step

module _ (env : Environment)
    (register : AgentRegistrationRequest → Option AgentRegistrationResponse)
    (answer_of : TaskResult → String → Answer) where
  unfoldable pub step : Adapter → Step → Adapter
  step self (starts task) = (submit env register self task).1
  step self consumes = consume env register answer_of self
  step self (ends task_id) = (finish env self task_id).1

  unfoldable pub run : Adapter → List Step → Adapter
  run self [] = self
  run self (s ∷ steps) = run (step self s) steps

-- A future has no result that counts as completed.
abbrev IsUncompleted : Future → Type 0
IsUncompleted awaited = Unit
IsUncompleted abandoned = Unit
IsUncompleted (resolved a) = str_eq a.state "COMPLETED" ≡ false

abbrev pub AllUncompleted : Adapter → Type 0
AllUncompleted self = AllEntries (λ task_id. IsUncompleted) self.futures

abbrev IsForeign : Option String → Type 0
IsForeign none = Unit
IsForeign (some name) = str_eq name "COMPLETED" ≡ false

state_name-IsForeign : (s : TaskState) → IsForeign (state_name s)
unfolding state_name
state_name-IsForeign task_unspecified = refl
state_name-IsForeign pending = refl
state_name-IsForeign dispatched = refl
state_name-IsForeign in_progress = refl
state_name-IsForeign completed = refl
state_name-IsForeign failed = refl
state_name-IsForeign cancelled = refl
state_name-IsForeign task_quarantined = refl
state_name-IsForeign (task_unknown n) = tt

-- The answers of an adapter carry the name of the state.
abbrev pub Names : (TaskResult → String → Answer) → Type 0
Names answer_of = (r : TaskResult) (state : String) → (answer_of r state).state ≡ state

module _ (env : Environment)
    (register : AgentRegistrationRequest → Option AgentRegistrationResponse)
    (answer_of : TaskResult → String → Answer) (names : Names answer_of) where
  resolve-IsUncompleted :
      (r : TaskResult) (name : Option String)
      → IsForeign name
      → IsUncompleted (resolve env register answer_of r name)
  resolve-IsUncompleted r none h = tt
  resolve-IsUncompleted r (some state) h = rw (names r state) h

  abbrev AllIn : Dict Future → Type 0
  AllIn = AllEntries (λ task_id. IsUncompleted)

  settle-AllIn :
      (futures : Dict Future) (r : TaskResult) (o : Option Future)
      → AllIn futures
      → AllIn (settle env register answer_of futures r o)
  settle-AllIn futures r (some awaited) h =
      put-AllEntries (λ task_id. IsUncompleted) futures r.task_id _ h
        (resolve-IsUncompleted r (state_name r.state) (state_name-IsForeign r.state))
  settle-AllIn futures r (some (resolved a)) h = h
  settle-AllIn futures r (some abandoned) h = h
  settle-AllIn futures r none h = h

  handle_plaintext-AllIn :
      (futures : Dict Future) (o : Option TaskResult)
      → AllIn futures
      → AllIn (handle_plaintext env register answer_of futures o)
  unfolding handle_plaintext
  handle_plaintext-AllIn futures none h = h
  handle_plaintext-AllIn futures (some r) h = settle-AllIn futures r (get futures r.task_id) h

  handle_decrypted-AllIn :
      (futures : Dict Future) (session : CryptoSession) (signed : SignedPacket) (o : Option Bytes)
      → AllIn futures
      → AllIn (handle_decrypted env register answer_of futures session signed o)
  handle_decrypted-AllIn futures session signed none h = h
  handle_decrypted-AllIn futures session signed (some plaintext) h =
      elim (Bool-cases
        (verify env.client.primitives session signed.payload signed.hmac_signature)) [
          | inl e ↦ rw e (handle_plaintext-AllIn futures (env.parse_task_result plaintext) h)
          | inr e ↦ rw e h
        ]

  handle_response-AllIn :
      (futures : Dict Future) (session : Option CryptoSession) (signed : SignedPacket)
      → AllIn futures
      → AllIn (handle_response env register answer_of futures session signed)
  unfolding handle_response
  handle_response-AllIn futures none signed h = h
  handle_response-AllIn futures (some session) signed h =
      handle_decrypted-AllIn futures session signed
        (decrypt env.client.primitives session signed.payload signed.sequence_number) h

  enqueue-futures :
      (self : Adapter) (made : Option SignedPacket × CryptoSession)
      → (enqueue env register self made).1.futures ≡ self.futures
  enqueue-futures self (none, session) = refl
  enqueue-futures self (some packet, session) =
      elim (Bool-cases (leb pending_limit (length self.agent.pending_results))) [
        | inl full ↦ rw full refl
        | inr room ↦ rw room refl
      ]

  send_request-futures :
      (self : Adapter) (task : Task) (session : Option CryptoSession)
      → (send_request env register self task session).1.futures ≡ self.futures
  unfolding send_request
  send_request-futures self task none = refl
  send_request-futures self task (some session) = enqueue-futures self _

  after_connect-futures :
      (self : Adapter) (made : Connected × MeshAgent)
      → (after_connect self made).1.futures ≡ self.futures
  after_connect-futures self (answer true, agent) = refl
  after_connect-futures self (answer false, agent) = refl
  after_connect-futures self (bad_key, agent) = refl

  ensure_connected-futures :
      (self : Adapter) → (ensure_connected env register self).1.futures ≡ self.futures
  unfolding ensure_connected
  ensure_connected-futures self =
      either self.connected (true, self)
        (after_connect self (connect env.client register self.agent)) refl
        (after_connect-futures self (connect env.client register self.agent))
    where
      either :
          (b : Bool) (x y : Bool × Adapter)
          → x.1.futures ≡ self.futures
          → y.1.futures ≡ self.futures
          → (if b then x else y).1.futures ≡ self.futures
      either true x y h k = h
      either false x y h k = k

  submit_connected-AllIn :
      (self : Adapter) (task : Task)
      → AllIn self.futures
      → AllIn (submit_connected env register self task).1.futures
  submit_connected-AllIn self task h =
      subst AllIn (sym (send_request-futures _ task self.agent.crypto))
        (put-AllEntries (λ task_id. IsUncompleted) self.futures task.task_id awaited h tt)

  submit-AllIn :
      (self : Adapter) (task : Task)
      → AllIn self.futures
      → AllIn (submit env register self task).1.futures
  unfolding submit
  submit-AllIn self task h =
      let kept = subst AllIn (sym (ensure_connected-futures self)) h in
      elim (Bool-cases (ensure_connected env register self).0) [
        | inl back ↦
            rw back (submit_connected-AllIn (ensure_connected env register self).1 task kept)
        | inr thrown ↦ rw thrown kept
      ]

  taken-AllIn :
      (self : Adapter) (packets : List SignedPacket)
      → AllIn self.futures
      → AllIn (taken env register answer_of self packets).futures
  taken-AllIn self [] h = h
  taken-AllIn self (signed ∷ packets) h =
      handle_response-AllIn self.futures self.agent.crypto signed h

  step-AllIn :
      (self : Adapter) (s : Step)
      → AllIn self.futures
      → AllIn (step env register answer_of self s).futures
  unfolding step consume finish
  step-AllIn self (starts task) h = submit-AllIn self task h
  step-AllIn self consumes h =
      either self.connected _ (taken-AllIn self self.agent.pending_results h)
    where
      either : (b : Bool) (x : Adapter) → AllIn x.futures → AllIn (if b then x else self).futures
      either true x k = k
      either false x k = h
  step-AllIn self (ends task_id) h =
      pop-AllEntries (λ task_id. IsUncompleted) self.futures task_id h

  run-AllIn :
      (self : Adapter) (steps : List Step)
      → AllIn self.futures
      → AllIn (run env register answer_of self steps).futures
  unfolding run
  run-AllIn self [] h = h
  run-AllIn self (s ∷ steps) h =
      run-AllIn (step env register answer_of self s) steps (step-AllIn self s h)

  answer_at-foreign :
      (futures : Dict Future) (task_id : String)
      → AllIn futures
      → str_eq (answer_at env task_id (get futures task_id)).state "COMPLETED" ≡ false
  answer_at-foreign futures task_id h = go (get futures task_id) refl
    where
      go :
          (o : Option Future)
          → get futures task_id ≡ o
          → str_eq (answer_at env task_id o).state "COMPLETED" ≡ false
      go none e = refl
      go (some awaited) e = refl
      go (some abandoned) e = refl
      go (some (resolved a)) e =
          get-AllEntries (λ task_id. IsUncompleted) futures task_id (resolved a) h e

  pub finish-foreign :
      (self : Adapter) (steps : List Step) (task_id : String)
      → self.futures ≡ []
      → str_eq (finish env (run env register answer_of self steps) task_id).0.state "COMPLETED"
        ≡ false
  unfolding finish
  finish-foreign self steps task_id fresh =
      answer_at-foreign (run env register answer_of self steps).futures task_id
        (run-AllIn self steps (subst AllIn (sym fresh) tt))

  -- A tool that is wrapped by an adapter without open calls never returns a payload, whatever calls are
  -- made, whatever packets come and whatever they say, where the answers of the adapter carry the name of
  -- the state.
  pub tool_result-never :
      (self : Adapter) (steps : List Step) (task_id : String)
      → self.futures ≡ []
      → tool_result (finish env (run env register answer_of self steps) task_id).0 ≡ none
  unfolding tool_result
  tool_result-never self steps task_id fresh = rw (finish-foreign self steps task_id fresh) refl
