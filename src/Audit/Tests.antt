-- ===== src/Audit/Tests.antt =====
-- A trail whose hash of a text is the text itself.
use Prim.Native.Char.{code}
use secure_orchestration_mes.Prelude.{
  Bool, map, ◌==◌, ◌||◌, ℕ, ◌≡◌, ◌⊎◌, refl, inl, true, false, Option, none, some, String, List, [],
  ◌∷◌, All, arith,
}
use secure_orchestration_mes.Messages.{Bytes}
use secure_orchestration_mes.Audit.{
  AuditEntry, Hashes, AuditTrail, Event, open_trail, hashed_text, event_of, is_known, node_hash,
  groups, combined, next_level, reduce, build_merkle_root, root, MerkleNode, node, missing,
  recorded, value_error, integrity_error, ensured, initialize, insert, append_event, record_event,
  mismatch, verify_chain, get_recent_entries,
}
use secure_orchestration_mes.Audit.Merkle.{build_merkle_root-total}
use secure_orchestration_mes.Audit.Chain.{IsChained, Grows, record_event-IsChained}
use secure_orchestration_mes.Audit.Fields.{IsPlain, HasPlainFields, Collides, same_hashes-events}
use secure_orchestration_mes.Audit.Fresh.{IsUnstarted, record_events, empty_never_records}

abbrev pub first_of : List String → Option String
first_of [] = none
first_of (hash ∷ hashes) = some hash

abbrev pub toy : Hashes
toy = record {
  sha256 = λ b. b;
  hexdigest = λ text. text;
  from_hex = λ text. none;
  to_hex = λ b. "";
  bare_column = first_of;
}

abbrev event : String → Event
event kind = record {
  entry_id = "e";
  timestamp = "t";
  event_type = kind;
  agent_id = "a";
  task_id = "";
  detail = "";
}

abbrev first_entry : AuditEntry
first_entry = record {
  entry_id = "d";
  timestamp = "t";
  event_type = "JWT_EXPIRED";
  agent_id = "a";
  task_id = "";
  detail = "";
  previous_hash = "";
  entry_hash = "d|t|JWT_EXPIRED|a|||";
}

abbrev reopened : AuditTrail
reopened = record {
  audit_log = first_entry ∷ [];
  merkle_roots = [];
  merkle_branching = 2;
  last_hash = some "d|t|JWT_EXPIRED|a|||";
  entry_count = 1;
  initialized = true;
}

opened : ensured toy (open_trail (first_entry ∷ []) [] 2) ≡ reopened
unfolding ensured open_trail initialize
opened = refl

abbrev second_entry : AuditEntry
second_entry = record {
  entry_id = "e";
  timestamp = "t";
  event_type = "TASK_FAILED";
  agent_id = "a";
  task_id = "";
  detail = "";
  previous_hash = "d|t|JWT_EXPIRED|a|||";
  entry_hash = "e|t|TASK_FAILED|a|||d|t|JWT_EXPIRED|a|||";
}

stored : (record_event toy (event "TASK_FAILED") reopened).0 ≡ recorded second_entry
unfolding record_event append_event insert ensured is_known hashed_text
stored = refl

unknown_kind : (record_event toy (event "REBOOT") reopened).0 ≡ value_error
unfolding record_event is_known
unknown_kind = refl

verified : (verify_chain toy reopened).0 ≡ none
unfolding verify_chain ensured mismatch event_of hashed_text
verified = refl

recent : (get_recent_entries toy 5 reopened).0 ≡ first_entry ∷ []
unfolding get_recent_entries
recent = refl

reopened-IsChained : IsChained toy reopened
unfolding mismatch event_of hashed_text
reopened-IsChained = record { started = refl; linked = refl; sound = refl }

record_event-IsChained_example :
    IsChained toy (record_event toy (event "TASK_FAILED") reopened).1
    × Grows toy (event "TASK_FAILED") reopened (record_event toy (event "TASK_FAILED") reopened).1
record_event-IsChained_example =
    record_event-IsChained toy (event "TASK_FAILED") reopened reopened-IsChained

has_bar : String → Bool
has_bar String.[] = false
has_bar (String.◌∷◌ c s) = code c == 124 || has_bar s

no_bar : (s : String) → has_bar s ≡ false → IsPlain s
unfolding has_bar
no_bar String.[] e = tt
no_bar (String.◌∷◌ c s) e = (λ bar. absurd (ground arith), no_bar s (ground arith))

event-HasPlainFields :
    (kind : String) → has_bar kind ≡ false → HasPlainFields (record (event kind) { entry_id = "d" })
unfolding has_bar
event-HasPlainFields kind e = record {
  entry_id = no_bar "d" refl;
  timestamp = no_bar "t" refl;
  event_type = no_bar kind e;
  agent_id = no_bar "a" refl;
  task_id = tt;
}

first_entry-HasPlainFields : HasPlainFields (event_of first_entry)
unfolding has_bar event_of
first_entry-HasPlainFields = event-HasPlainFields "JWT_EXPIRED" refl

same_hashes-events_example :
    (map event_of (first_entry ∷ []) ≡ map event_of (first_entry ∷ []))
    ⊎ Collides toy "" (first_entry ∷ []) (first_entry ∷ [])
same_hashes-events_example =
    same_hashes-events toy "" (first_entry ∷ []) (first_entry ∷ []) refl reopened-IsChained.sound
      reopened-IsChained.sound (first_entry-HasPlainFields, tt) (first_entry-HasPlainFields, tt)

-- Fields with bars can give two events one text.
ambiguous :
    hashed_text (record (event "TASK_FAILED") { agent_id = "a|b"; task_id = "c" }) ""
    ≡ hashed_text (record (event "TASK_FAILED") { agent_id = "a"; task_id = "b|c" }) ""
unfolding hashed_text
ambiguous = refl

abbrev fresh : AuditTrail
fresh = record {
  audit_log = [];
  merkle_roots = [];
  merkle_branching = 2;
  last_hash = some "";
  entry_count = 0;
  initialized = false;
}

empty_never_records_example :
    All
      (λ r. (r ≡ value_error) ⊎ (r ≡ integrity_error))
      (record_events toy refl (event "TASK_FAILED" ∷ event "REBOOT" ∷ []) fresh).0
    × IsUnstarted (record_events toy refl (event "TASK_FAILED" ∷ event "REBOOT" ∷ []) fresh).1
empty_never_records_example =
    empty_never_records toy refl (event "TASK_FAILED" ∷ event "REBOOT" ∷ []) fresh
      (record { empty = refl; unlinked = inl refl })

three : build_merkle_root toy 2 ((1 ∷ []) ∷ (2 ∷ []) ∷ (3 ∷ []) ∷ []) ≡ root (1 ∷ 2 ∷ 3 ∷ [])
unfolding build_merkle_root reduce next_level groups combined node_hash
three = refl

build_merkle_root-total_example :
    (hash : Bytes) × (build_merkle_root toy 2 ((1 ∷ []) ∷ (2 ∷ []) ∷ (3 ∷ []) ∷ []) ≡ root hash)
build_merkle_root-total_example =
    build_merkle_root-total toy 2 ((1 ∷ []) ∷ (2 ∷ []) ∷ (3 ∷ []) ∷ []) (omega arith)

abbrev leaf : ℕ → MerkleNode
leaf n = node missing missing (n ∷ [])
