-- ===== src/Messages.antt =====
-- proto/mesh.proto: the messages that the modelled code reads and builds, with the fields that it
-- reads or sets. Enumerations of proto3 are open: a number with no name is a value too.
use secure_orchestration_mes.Prelude.{ℕ, String, List}

-- A Python `bytes`, as the numbers of its bytes.
abbrev pub Bytes : Type 0
Bytes = List ℕ

pub data TaskState : Type 0 where
  task_unspecified pending dispatched in_progress completed failed cancelled : TaskState
  task_quarantined : TaskState
  task_unknown : ℕ → TaskState

pub data AgentStatus : Type 0 where
  status_unspecified status_idle status_busy status_error : AgentStatus
  status_quarantined status_offline : AgentStatus
  status_unknown : ℕ → AgentStatus

pub record PermissionScope : Type 0 where
  pub allowed_actions : List String
  pub max_payload_bytes : ℕ
  pub max_execution_ms : ℕ
  pub resource_allowlist : List String

pub record TaskContext : Type 0 where
  pub task_id : String
  pub parent_task_id : String
  pub description : String
  pub payload : Bytes
  pub task_type : String
  pub created_at : String
  pub deadline_at : String
  pub priority : ℕ

pub record SignedPacket : Type 0 where
  pub payload : Bytes
  pub hmac_signature : Bytes
  pub sequence_number : ℕ

pub record AgentRegistrationRequest : Type 0 where
  pub agent_id : String
  pub agent_label : String
  pub capabilities : List String
  pub sdk_version : String
  pub public_key : Bytes

pub record AgentRegistrationResponse : Type 0 where
  pub agent_id : String
  pub orchestrator_public_key : Bytes
  pub nonce : Bytes
  pub access_token : String
  pub token_expires_at : String
  pub stream_lease_seconds : ℕ

pub record ExecutionMetrics : Type 0 where
  pub execution_time_ms : ℕ
  pub result_payload_bytes : ℕ
  pub external_call_count : ℕ
  pub error_count : ℕ
  pub peak_memory_bytes : ℕ

pub record TaskResult : Type 0 where
  pub task_id : String
  pub state : TaskState
  pub payload : Bytes
  pub error_message : String
  pub completed_at : String
  pub sequence_number : ℕ
  pub metrics : ExecutionMetrics

pub record TaskRequest : Type 0 where
  pub access_token : String
  pub task : TaskContext
  pub permission_scope : PermissionScope
  pub sequence_number : ℕ
