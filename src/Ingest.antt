-- ===== src/Ingest.antt =====
-- raw_rounds.py: RawRoundIngestHandler, which stores a captured round and queues it for the Core in
-- one transaction. `ledgermind_protocol` (the request's digest, its source key), the JSON of the
-- request and SHA-256 are a parameter; a clock reading and a uuid4 of each call are arguments.
pub mod Rows
pub mod Captured
pub mod Repeat
use Prim.Native.String.{len, ◌++◌ as ◌+++◌}
use ledgermind_local.Prelude.{
  ℕ, ◌+◌, ◌*◌, max, ◌≡◌, Bool, true, false, not, ◌&&◌, Option, none, some, List, [], ◌∷◌, String,
  ltb, leb, if◌then◌else◌, text_eq,
}
use ledgermind_local.Rounds.{
  Db, RawRoundRecord, CoreCommandRecord, CoreRawRoundDeliveryRecord, TransportStatus, queued,
}
use ledgermind_local.Rounds.Session.{
  Result, ok, err, index_error, raw_round_error, raw_round_conflict, raw_round_digest_mismatch,
  raw_round_too_large, Error, Body, run, commit, transaction, ◌>>>=◌, pure, raise,
}
use ledgermind_local.Rounds.RawRounds.{get_by_capture_identity, ensure_memory_space, insert}
use ledgermind_local.Rounds.Commands.{NewCommand, create_core_command}
use ledgermind_local.Rounds.Deliveries.{NewDelivery, create_core_raw_round_delivery}

pub record Source : Type 0 where
  pub system : String
  pub instance_id : String
  pub profile_id : String
  pub session_id : String
  pub round_id : String
  pub source_schema_version : ℕ
  pub adapter_version : String
  pub event_ids : List String
  pub first_event_id : Option String
  pub final_event_id : Option String

-- The parts of a RawRoundRequest that the handler reads; `events` are the events' ids.
pub record RawRoundRequest : Type 0 where
  pub memory_space_id : String
  pub source : Source
  pub events : List String
  pub started_at : ℕ
  pub completed_at : ℕ
  pub payload_digest : String

-- What is not under src/: the protocol package, `json` and `hashlib`. A command's payload is the
-- JSON object {"raw_round_id": ...}, which the delivery worker reads back.
pub record Protocol : Type 0 where
  pub calculate_payload_digest : RawRoundRequest → String
  pub calculate_source_round_key : Source → String
  pub payload_json : RawRoundRequest → String
  pub command_payload : ℕ → String
  pub sha256_hexdigest : String → String

-- The uuids and the clock's readings of one call, in the order of the code.
pub record Inputs : Type 0 where
  pub new_round_id : ℕ
  pub new_command_id : ℕ
  pub space_at : ℕ
  pub retention_at : ℕ
  pub received_at : ℕ
  pub command_at : ℕ
  pub delivery_at : ℕ

pub record RawRoundIngestResult : Type 0 where
  pub raw_round_id : ℕ
  pub duplicate : Bool
  pub status : TransportStatus  -- `queued` is reported as "queued_for_core"
  pub core_command_id : ℕ
  pub core_raw_round_id : Option String

pub record Handler : Type 0 where
  pub max_raw_round_bytes : ℕ
  pub retention_days : ℕ

-- `__init__`
unfoldable pub new_handler : (max_bytes retention_days : ℕ) → Handler
new_handler bytes days = record { max_raw_round_bytes = max bytes 1; retention_days = max days 1 }

abbrev pub same_ids : List String → List String → Bool
same_ids [] [] = true
same_ids [] (y ∷ ys) = false
same_ids (x ∷ xs) [] = false
same_ids (x ∷ xs) (y ∷ ys) = text_eq x y && same_ids xs ys

-- `declared not in (None, actual)`
abbrev pub disagrees : Option String → String → Bool
disagrees none actual = false
disagrees (some declared) actual = not (text_eq declared actual)

abbrev pub last_id : String → List String → String
last_id x [] = x
last_id x (y ∷ ys) = last_id y ys

-- The checks on the events; `event_ids[0]` of an empty list is an IndexError.
unfoldable pub check_events : RawRoundRequest → List String → Option Error
check_events r [] = some index_error
check_events r (x ∷ xs) =
    if disagrees r.source.first_event_id x
    then some raw_round_error
    else if disagrees r.source.final_event_id (last_id x xs)
    then some raw_round_error
    else if ltb r.completed_at r.started_at
    then some raw_round_error
    else none

module _ (p : Protocol) where
  -- The checks that `handle` makes before it opens the transaction.
  unfoldable pub validate : Handler → RawRoundRequest → Option Error
  unfolding check_events
  validate h r =
      if not (text_eq (p.calculate_payload_digest r) r.payload_digest)
      then some raw_round_digest_mismatch
      else if not (same_ids r.events r.source.event_ids)
      then some raw_round_error
      else elim (check_events r r.events) [
        | some e ↦ some e
        | none ↦
            if ltb h.max_raw_round_bytes (len (p.payload_json r))
            then some raw_round_too_large
            else none
      ]

  unfoldable pub raw_round_command : ℕ → RawRoundRequest → ℕ → NewCommand
  raw_round_command command_id r raw_round_id = record {
    command_id = command_id;
    command_type = "ingest_raw_round";
    memory_space_id = r.memory_space_id;
    idempotency_key = r.payload_digest;
    payload_json = p.command_payload raw_round_id;
    payload_digest = "sha256:" +++ p.sha256_hexdigest (p.command_payload raw_round_id);
    available_at = none;
  }

  abbrev pub raw_round_delivery : RawRoundRequest → ℕ → ℕ → NewDelivery
  raw_round_delivery r raw_round_id command_id = record {
    raw_round_id = raw_round_id;
    memory_space_id = r.memory_space_id;
    command_id = command_id;
    idempotency_key = r.payload_digest;
  }

  abbrev pub ingest_result :
      ℕ → Bool → CoreCommandRecord → CoreRawRoundDeliveryRecord → RawRoundIngestResult
  ingest_result raw_round_id duplicate command delivery = record {
    raw_round_id = raw_round_id;
    duplicate = duplicate;
    status = delivery.transport_status;
    core_command_id = command.command_id;
    core_raw_round_id = delivery.core_raw_round_id;
  }

  unfoldable pub queue_core_delivery :
      Inputs → RawRoundRequest → ℕ → Bool → Body RawRoundIngestResult
  queue_core_delivery i r raw_round_id duplicate =
      run (create_core_command i.command_at (raw_round_command i.new_command_id r raw_round_id))
      >>>= λ command.
          run (
            create_core_raw_round_delivery i.delivery_at
              (raw_round_delivery r raw_round_id command.command_id))
          >>>= λ delivery.
              commit >>>= λ _. pure (ingest_result raw_round_id duplicate command delivery)

  unfoldable pub new_round : Handler → Inputs → RawRoundRequest → RawRoundRecord
  new_round h i r = record {
    raw_round_id = i.new_round_id;
    memory_space_id = r.memory_space_id;
    source_system = r.source.system;
    source_instance_id = r.source.instance_id;
    source_profile_id = r.source.profile_id;
    source_session_id = r.source.session_id;
    source_round_id = r.source.round_id;
    source_round_key = p.calculate_source_round_key r.source;
    capture_schema_version = r.source.source_schema_version;
    adapter_version = r.source.adapter_version;
    payload_json = p.payload_json r;
    payload_digest = r.payload_digest;
    started_at = r.started_at;
    completed_at = r.completed_at;
    received_at = i.received_at;
    retention_expires_at = some (i.retention_at + h.retention_days * 86400);
  }

  unfoldable pub find_existing : RawRoundRequest → Db → Option RawRoundRecord
  find_existing r =
      get_by_capture_identity r.memory_space_id (p.calculate_source_round_key r.source)
        r.source.source_schema_version

  -- The round was captured before.
  unfoldable pub ingest_known :
      Inputs → RawRoundRequest → RawRoundRecord → Body RawRoundIngestResult
  ingest_known i r existing =
      if text_eq existing.payload_digest r.payload_digest
      then queue_core_delivery i r existing.raw_round_id true
      else raise raw_round_conflict

  unfoldable pub ingest_new : Handler → Inputs → RawRoundRequest → Body RawRoundIngestResult
  ingest_new h i r =
      run (λ db. ok (tt, ensure_memory_space i.space_at r.memory_space_id db)) >>>= λ _.
      run (insert (new_round h i r)) >>>= λ stored.
      queue_core_delivery i r stored.raw_round_id false

  -- The body of the `with` block.
  unfoldable pub ingest : Handler → Inputs → RawRoundRequest → Body RawRoundIngestResult
  unfolding ingest_known ingest_new queue_core_delivery
  ingest h i r = run (λ db. ok (find_existing r db, db)) >>>= λ existing. elim existing [
    | none ↦ ingest_new h i r
    | some e ↦ ingest_known i r e
  ]

  -- `handle`: the result, or the exception, and the database afterwards.
  unfoldable pub handle : Handler → Inputs → RawRoundRequest → Db → Result RawRoundIngestResult × Db
  unfolding validate ingest
  handle h i r db = elim (validate h r) [
    | some e ↦ (err e, db)
    | none ↦ transaction (ingest h i r) db
  ]
