-- ===== src/Websocket/Tests.antt =====
-- An agent that connects twice over toy packages, and its frames.
use secure_orchestration_mes.Prelude.{
  ◌≡◌, ◌≢◌, refl, true, false, none, some, [], ◌∷◌, ◌++◌, ◌+◌, ◌<◌, ◌^◌, arith, length,
}
use secure_orchestration_mes.Dict.{put}
use secure_orchestration_mes.Messages.{
  Bytes, SignedPacket, TaskResult, TaskRequest, AgentRegistrationRequest, AgentRegistrationResponse,
  completed,
}
use secure_orchestration_mes.Crypto.{
  Primitives, Laws, CryptoSession, init_for_orchestrator, derive_session_key, verify, decrypt,
  big_endian,
}
use secure_orchestration_mes.Crypto.Tests.{toy_primitives, toy_primitives-Laws}
use secure_orchestration_mes.Tokens.{issue, register_session}
use secure_orchestration_mes.Tokens.Tests.{toy_jose, sample_issuer}
use secure_orchestration_mes.Scheduler.{register}
use secure_orchestration_mes.Guardrail.{GuardrailLayer}
use secure_orchestration_mes.Websocket.{
  WebsocketAuthContext, WebsocketServer, Environment, done, opened,
}
use secure_orchestration_mes.Websocket.Connect.{
  handle_connection, open_connection, open_handler, open_token, close_connection, serve, send_task,
  dispatch, response,
}
use secure_orchestration_mes.Websocket.Frames.{serve-drops}
use secure_orchestration_mes.Websocket.Connections.{dispatch-reconnected, send_task-delivers}

abbrev tagged : Primitives
tagged = record toy_primitives { hmac_digest = λ key m. 1 ∷ (key ++ m) }

tagged-Laws : Laws tagged
tagged-Laws = record {
  decrypt-encrypt = λ key nonce m. refl;
  exchange_comm = toy_primitives-Laws.exchange_comm;
  from-raw = λ k. refl;
}

abbrev registration : AgentRegistrationRequest
registration = record {
  agent_id = "a";
  agent_label = "";
  capabilities = "search" ∷ [];
  sdk_version = "";
  public_key = 2 ∷ [];
}

abbrev request : TaskRequest
request = record {
  access_token = "t";
  task = record {
    task_id = "t1";
    parent_task_id = "";
    description = "";
    payload = [];
    task_type = "search";
    created_at = "";
    deadline_at = "";
    priority = 1;
  };
  permission_scope = record {
    allowed_actions = [];
    max_payload_bytes = 10;
    max_execution_ms = 10;
    resource_allowlist = [];
  };
  sequence_number = 0;
}

abbrev task_result : TaskResult
task_result = record {
  task_id = "t1";
  state = completed;
  payload = [];
  error_message = "";
  completed_at = "";
  sequence_number = 0;
  metrics = record {
    execution_time_ms = 0;
    result_payload_bytes = 0;
    external_call_count = 0;
    error_count = 0;
    peak_memory_bytes = 0;
  };
}

abbrev env : Environment
env = record {
  primitives = tagged;
  hkdf_info = [];
  jose = toy_jose;
  parse_registration = λ b. some registration;
  parse_signed = λ b. some (record { payload = b; hmac_signature = b; sequence_number = 1 });
  parse_task_result = λ b. some task_result;
  serialize_signed = λ packet. 5 ∷ 6 ∷ [];
  serialize_task_result = λ r. [];
  serialize_task_request = λ r. 8 ∷ 9 ∷ [];
  iso8601 = λ t. "";
  timestamp = "now";
  latency_us = 0;
  now = 3;
  orch_private = 1 ∷ [];
  nonce_base = 4 ∷ [];
  uuid = "u";
  task_id = "t0";
  jti = "j";
}

abbrev guardrail : GuardrailLayer
guardrail = record {
  max_payload_bytes = 10;
  seen_sequences = [];
  sequence_high_water = [];
  metrics_buffer = [];
}

abbrev server : WebsocketServer
server = record {
  token_issuer = some sample_issuer;
  guardrail = some (sample_issuer, guardrail);
  scheduler = some (record { agents = []; locked = false; heartbeat_timeout = 15 });
  handlers = [];
}

abbrev session : CryptoSession
session = record {
  agent_private = 1 ∷ [];
  agent_public = 1 ∷ [];
  orchestrator_public = 2 ∷ [];
  session_key = derive_session_key tagged [] (1 ∷ []) (2 ∷ []) (4 ∷ []);
  nonce_base = 4 ∷ [];
  session_id = "a";
  sequence_counter = 0;
}

abbrev auth : WebsocketAuthContext
auth = record { agent_id = "a"; session = session; access_token = "t"; connected_at = 3 }

abbrev reply : AgentRegistrationResponse
reply = response env "a" session ("t", "")

connects : (handle_connection env [] server).0 ≡ done (opened reply auth)
unfolding handle_connection open_connection open_handler open_token issue register_session put
    init_for_orchestrator register
connects = refl

serve-drops_example :
    serve env auth ((1 ∷ []) ∷ (2 ∷ []) ∷ []) server ≡ (done tt, close_connection env auth server)
serve-drops_example = serve-drops env auth ((1 ∷ []) ∷ (2 ∷ []) ∷ []) server

never_empty : (key message : Bytes) → tagged.hmac_digest key message ≢ []
never_empty key message h = cc

dispatch-reconnected_example :
    let s' = (handle_connection env [] server).1 in
    ((dispatch env true "a" request s').0 ≡ (send_task env true auth request).0)
    × ((dispatch env true "a" request (close_connection env auth s')).0 ≡ done none)
dispatch-reconnected_example =
    dispatch-reconnected env [] server reply auth auth true request connects refl

short_frames : (packet : SignedPacket) → length (env.serialize_signed packet) < 2 ^ 32
short_frames packet = omega arith

first_number : session.sequence_counter + 1 < 2 ^ 64
first_number = omega arith

send_task-delivers_example :
    (packet : SignedPacket) × ((send_task env true auth request).0
      ≡ done (
          some
            (big_endian 4 (length (env.serialize_signed packet)) ++ env.serialize_signed packet)))
    × (verify env.primitives session packet.payload packet.hmac_signature ≡ true)
    × (decrypt env.primitives session packet.payload packet.sequence_number
        ≡ some (env.serialize_task_request request))
send_task-delivers_example =
    send_task-delivers env tagged-Laws auth session request refl refl first_number short_frames
