-- ===== src/Audit.antt =====
-- orchestrator/audit_trail.py: the log of events in a table of SQLite, each row with the hash of its
-- text and of the hash before it, the check of that chain, and the Merkle root of the hashes.
mod Merkle
mod Chain
mod Fields
pub mod Fresh
pub mod Tests
use secure_orchestration_mes.Prelude.{
  ℕ, zero, suc, ◌+◌, ◌%◌, String, ◌==◌, leb, ltb, Bool, true, false, not, if◌then◌else◌, str_eq,
  Option, none, some, List, [], ◌∷◌, ◌++◌, map, length, take, drop, any, contains,
}
use Prim.Native.String.{◌++◌ as ◌+++◌}
use mathlib.Core.List.{reverse}
use secure_orchestration_mes.Messages.{Bytes}

pub record AuditEntry : Type 0 where
  pub entry_id : String
  pub timestamp : String
  pub event_type : String
  pub agent_id : String
  pub task_id : String
  pub detail : String
  pub previous_hash : String
  pub entry_hash : String

-- hashlib and the hexadecimal of bytes. `hexdigest` is the digest, in hexadecimal, of a text in
-- UTF-8. `bare_column` is what SQLite answers to `SELECT entry_hash, COUNT(*) FROM audit_log ORDER BY
-- id DESC LIMIT 1` for its first column, given the hashes of the table: an aggregate query has one
-- row also for an empty table, and its bare column is then NULL.
pub record Hashes : Type 0 where
  pub sha256 : Bytes → Bytes
  pub hexdigest : String → String
  pub from_hex : String → Option Bytes
  pub to_hex : Bytes → String
  pub bare_column : List String → Option String

-- The rows of `audit_log` in the order of their ids, those of `merkle_roots`, and the object.
-- `_last_hash` is None after it was read from an empty table.
pub record AuditTrail : Type 0 where
  pub audit_log : List AuditEntry
  pub merkle_roots : List (String × ℕ)
  pub merkle_branching : ℕ
  pub last_hash : Option String
  pub entry_count : ℕ
  pub initialized : Bool

-- `__init__`, on a database that holds `rows` and `roots`.
unfoldable pub open_trail : List AuditEntry → List (String × ℕ) → ℕ → AuditTrail
open_trail rows roots merkle_branching = record {
  audit_log = rows;
  merkle_roots = roots;
  merkle_branching = merkle_branching;
  last_hash = some "";
  entry_count = 0;
  initialized = false;
}

abbrev pub event_types : List String
event_types =
    "AGENT_REGISTERED" ∷ "AGENT_DEREGISTERED" ∷ "TASK_DISPATCHED" ∷ "TASK_COMPLETED" ∷ "TASK_FAILED"
    ∷ "AGENT_QUARANTINED" ∷ "AGENT_RELEASED" ∷ "ANOMALY_DETECTED" ∷ "PERMISSION_GRANTED"
    ∷ "PERMISSION_REVOKED" ∷ "GUARDRAIL_REJECTED" ∷ "JWT_EXPIRED" ∷ "KEY_EXCHANGE_COMPLETED" ∷ []

unfoldable pub is_known : String → Bool
is_known event_type = contains event_type event_types

-- The event of a call of `record`, with the UUID and the time that the call takes.
pub record Event : Type 0 where
  pub entry_id : String
  pub timestamp : String
  pub event_type : String
  pub agent_id : String
  pub task_id : String
  pub detail : String

-- `data_to_hash`
unfoldable pub hashed_text : Event → String → String
hashed_text e previous =
    e.entry_id +++ "|" +++ e.timestamp +++ "|" +++ e.event_type +++ "|" +++ e.agent_id +++ "|"
    +++ e.task_id +++ "|" +++ e.detail +++ "|" +++ previous

unfoldable pub event_of : AuditEntry → Event
event_of row = record {
  entry_id = row.entry_id;
  timestamp = row.timestamp;
  event_type = row.event_type;
  agent_id = row.agent_id;
  task_id = row.task_id;
  detail = row.detail;
}

abbrev pub hashes_of : List AuditEntry → List String
hashes_of = map (λ row. row.entry_hash)

-- A Merkle node or None.
pub data MerkleNode : Type 0 where
  missing : MerkleNode
  node : (left right : MerkleNode) (value : Bytes) → MerkleNode

abbrev zeros : ℕ → Bytes
zeros zero = []
zeros (suc n) = 0 ∷ zeros n

-- A tree that never comes to one node, when the branching is 1; `range` with step 0.
pub data Root : Type 0 where
  root : Bytes → Root
  range_error : Root
  endless : Root

-- How a call of `record` ends: with the entry, with an exception (the row is stored before the
-- snapshot of the Merkle root may raise one), or not at all.
pub data Recorded : Type 0 where
  recorded : AuditEntry → Recorded
  value_error integrity_error snapshot_error never_returns : Recorded

module _ (h : Hashes) where
  -- `MerkleNode.hash`, with 32 zeros for a child that is None.
  unfoldable pub node_hash : MerkleNode → Bytes
  node_hash missing = zeros 32
  node_hash (node left right []) = h.sha256 (node_hash left ++ node_hash right)
  node_hash (node left right (b ∷ value)) = b ∷ value

  -- `nodes[i:i + branching] for i in range(0, len(nodes), branching)`, on as much fuel as there are
  -- nodes.
  unfoldable pub groups : ℕ → ℕ → List MerkleNode → List (List MerkleNode)
  groups fuel branching [] = []
  groups zero branching (x ∷ nodes) = []
  groups (suc fuel) branching (x ∷ nodes) =
      take branching (x ∷ nodes) ∷ groups fuel branching (drop branching (x ∷ nodes))

  unfoldable pub combined : List MerkleNode → Bytes
  combined [] = []
  combined (x ∷ group) = node_hash x ++ combined group

  unfoldable pub next_level : ℕ → List MerkleNode → List MerkleNode
  unfolding groups
  next_level branching nodes =
      map (λ group. node missing missing (h.sha256 (combined group)))
        (groups (length nodes) branching nodes)

  -- The loop, on fuel. It ends with one node, whose hash is the answer.
  unfoldable pub reduce : ℕ → ℕ → List MerkleNode → Root
  reduce fuel branching [] = endless
  reduce fuel branching (x ∷ []) = root (node_hash x)
  reduce zero branching (x ∷ y ∷ nodes) = endless
  reduce (suc fuel) branching (x ∷ y ∷ nodes) =
      reduce fuel branching (next_level branching (x ∷ y ∷ nodes))

  unfoldable pub build_merkle_root : ℕ → List Bytes → Root
  build_merkle_root branching [] = root (zeros 32)
  build_merkle_root branching (leaf ∷ []) = root leaf
  build_merkle_root zero (leaf ∷ leaf' ∷ leaves) = range_error
  build_merkle_root (suc n) (leaf ∷ leaf' ∷ leaves) =
      reduce (length (leaf ∷ leaf' ∷ leaves)) (suc n)
        (map (node missing missing) (leaf ∷ leaf' ∷ leaves))

  -- `[bytes.fromhex(r[0]) for r in rows]`
  unfoldable pub leaves_of : List String → Option (List Bytes)
  leaves_of [] = some []
  leaves_of (hash ∷ hashes) = elim (h.from_hex hash) [
    | none ↦ none
    | some leaf ↦ elim (leaves_of hashes) [ none ↦ none | some leaves ↦ some (leaf ∷ leaves) ]
  ]

  -- What `_snapshot_merkle_root` does with the root of so many leaves.
  unfoldable pub store_root : AuditEntry → AuditTrail → ℕ → Root → Recorded × AuditTrail
  store_root entry self size range_error = (snapshot_error, self)
  store_root entry self size endless = (never_returns, self)
  store_root entry self size (root hash) = (
    recorded entry,
    record self { merkle_roots = self.merkle_roots ++ ((h.to_hex hash, size) ∷ []) },
  )

  -- `_snapshot_merkle_root`, for the entry whose recording it ends.
  unfoldable pub snapshot : AuditEntry → AuditTrail → Recorded × AuditTrail
  snapshot entry self = elim (leaves_of (hashes_of self.audit_log)) [
    | none ↦ (snapshot_error, self)
    | some leaves ↦
        store_root entry self (length leaves) (build_merkle_root self.merkle_branching leaves)
  ]

  unfoldable pub initialize : AuditTrail → AuditTrail
  initialize self = record self {
    last_hash = h.bare_column (hashes_of self.audit_log);
    entry_count = length self.audit_log;
    initialized = true;
  }

  -- `if not self._initialized: self.initialize()`
  unfoldable pub ensured : AuditTrail → AuditTrail
  ensured self = if self.initialized then self else initialize self

  abbrev pub entry_for : Event → String → AuditEntry
  entry_for e previous = record {
    entry_id = e.entry_id;
    timestamp = e.timestamp;
    event_type = e.event_type;
    agent_id = e.agent_id;
    task_id = e.task_id;
    detail = e.detail;
    previous_hash = previous;
    entry_hash = h.hexdigest (hashed_text e previous);
  }

  -- The INSERT of an entry, and what follows it.
  unfoldable pub insert : AuditEntry → AuditTrail → Recorded × AuditTrail
  insert entry self =
      if any (λ row. str_eq row.entry_id entry.entry_id) self.audit_log
      then (integrity_error, self)
      else (let stored = record self {
        audit_log = self.audit_log ++ (entry ∷ []);
        last_hash = some entry.entry_hash;
        entry_count = self.entry_count + 1;
      } in
          if stored.entry_count % 1000 == 0
          then snapshot entry stored
          else (recorded entry, stored))

  -- The columns entry_id and previous_hash are UNIQUE and NOT NULL.
  unfoldable pub append_event : Event → AuditTrail → Option String → Recorded × AuditTrail
  append_event e self none = (integrity_error, self)
  append_event e self (some previous) = insert (entry_for e previous) self

  -- `record`
  unfoldable pub record_event : Event → AuditTrail → Recorded × AuditTrail
  record_event e self =
      if is_known e.event_type
      then append_event e (ensured self) (ensured self).last_hash
      else (value_error, self)

  -- The loop of `verify_chain`: the id, the computed and the stored hash of the first entry whose
  -- hash is wrong, if there is one.
  unfoldable pub mismatch : String → List AuditEntry → Option (String × String × String)
  mismatch prev_hash [] = none
  mismatch prev_hash (row ∷ rows) =
      let rest = mismatch row.entry_hash rows in
      let computed = h.hexdigest (hashed_text (event_of row) prev_hash) in
      if str_eq computed row.entry_hash then rest else some (row.entry_id, computed, row.entry_hash)

  unfoldable pub verify_chain : AuditTrail → Option (String × String × String) × AuditTrail
  verify_chain self = (mismatch "" (ensured self).audit_log, ensured self)

  abbrev filter : (AuditEntry → Bool) → List AuditEntry → List AuditEntry
  filter p [] = []
  filter p (row ∷ rows) = let rest = filter p rows in if p row then row ∷ rest else rest

  unfoldable pub get_entries_for_agent : String → ℕ → AuditTrail → List AuditEntry × AuditTrail
  get_entries_for_agent agent_id limit self = (
    take limit (reverse (filter (λ row. str_eq row.agent_id agent_id) self.audit_log)),
    ensured self,
  )

  unfoldable pub get_entries_for_task : String → AuditTrail → List AuditEntry × AuditTrail
  get_entries_for_task task_id self =
      (filter (λ row. str_eq row.task_id task_id) self.audit_log, ensured self)

  unfoldable pub get_recent_entries : ℕ → AuditTrail → List AuditEntry × AuditTrail
  get_recent_entries limit self = (take limit (reverse self.audit_log), ensured self)
