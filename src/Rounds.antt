-- ===== src/Rounds.antt =====
-- rounds.db, the store that Local owns: its tables (persistence/rounds_migrations/0001_initial.sql and
-- 0006_object_facet_core_delivery.sql) and the record types of persistence/raw_round_repository.py.
-- The children model the repository's methods and the unit of work.
-- Ids that the code makes with uuid4 are numbers (a uuid's text has a fixed width, so that its
-- order is the number's), and a timestamp is a number: those that SQL compares are written in UTC at
-- whole seconds and in one format, so that the comparison of the texts is that of the numbers.
pub mod Session
pub mod RawRounds
pub mod Commands
pub mod Deliveries
use ledgermind_local.Prelude.{ℕ, Bool, true, false, Option, List, String}

pub record MemorySpaceRow : Type 0 where
  pub memory_space_id : String
  pub source_client : String
  pub display_name : Option String
  pub created_at : ℕ
  pub updated_at : ℕ

pub record RawRoundRecord : Type 0 where
  pub raw_round_id : ℕ
  pub memory_space_id : String
  pub source_system : String
  pub source_instance_id : String
  pub source_profile_id : String
  pub source_session_id : String
  pub source_round_id : String
  pub source_round_key : String
  pub capture_schema_version : ℕ
  pub adapter_version : String
  pub payload_json : String
  pub payload_digest : String
  pub started_at : ℕ
  pub completed_at : ℕ
  pub received_at : ℕ
  pub retention_expires_at : Option ℕ

-- The table raw_round_payloads: the body of a round, apart from its metadata.
pub record PayloadRow : Type 0 where
  pub raw_round_id : ℕ
  pub payload_json : String
  pub payload_bytes : ℕ
  pub retention_expires_at : Option ℕ
  pub deleted_at : Option ℕ

pub data CommandStatus : Type 0 where
  pending delivering retry_wait completed rejected failed : CommandStatus

pub record CoreCommandRecord : Type 0 where
  pub command_id : ℕ
  pub command_type : String
  pub memory_space_id : String
  pub idempotency_key : String
  pub payload_json : String
  pub payload_digest : String
  pub status : CommandStatus
  pub attempts : ℕ
  pub available_at : ℕ
  pub lease_expires_at : Option ℕ
  pub claimed_by : Option ℕ
  pub completed_at : Option ℕ
  pub result_json : Option String
  pub last_error_code : Option String
  pub last_error_detail : Option String
  pub created_at : ℕ

pub data TransportStatus : Type 0 where
  queued accepted rejected retry_wait : TransportStatus

pub record CoreRawRoundDeliveryRecord : Type 0 where
  pub raw_round_id : ℕ
  pub memory_space_id : String
  pub command_id : ℕ
  pub idempotency_key : String
  pub transport_status : TransportStatus
  pub core_raw_round_id : Option String
  pub last_error_code : Option String
  pub created_at : ℕ
  pub updated_at : ℕ

pub record Db : Type 0 where
  pub memory_spaces : List MemorySpaceRow
  pub raw_rounds : List RawRoundRecord
  pub payloads : List PayloadRow
  pub commands : List CoreCommandRecord
  pub deliveries : List CoreRawRoundDeliveryRecord

-- A database just after its migrations.
abbrev pub empty_db : Db
empty_db = record {
  memory_spaces = List.[];
  raw_rounds = List.[];
  payloads = List.[];
  commands = List.[];
  deliveries = List.[];
}
