-- ===== src/Delivery.antt =====
-- scheduler/core_command_worker.py: the worker that claims a command, hands its round to the Core
-- outside any transaction, and reports the outcome. The gateway, `json`, the regular expressions that
-- redact an error's text and the embedding profile's factory are a parameter.
pub mod Sending
pub mod Passing
pub mod Outcomes
pub mod Custody
pub mod Settled
use ledgermind_local.Prelude.{ℕ, max, Bool, true, false, Option, none, some, String, text_eq}
use ledgermind_local.Rounds.{
  CommandStatus, TransportStatus, CoreCommandRecord, completed, failed, rejected, accepted,
}

pub record IngestRawRoundCommand : Type 0 where
  pub command_id : ℕ
  pub idempotency_key : String
  pub memory_space_id : String
  pub raw_round_id : ℕ
  pub raw_round : String  -- the JSON object of the round
  pub resolution_context : Option String
  pub embedding_profile : Option String

pub record IngestRawRoundResult : Type 0 where
  pub is_accepted : Bool
  pub is_duplicate : Bool
  pub core_raw_round_id : Option String
  pub result_json : Option String

-- The exceptions that `process_once` tells apart.
pub data Failure : Type 0 where
  domain_rejected : (code detail : String) → Failure
  transient : String → Failure  -- TransientCoreError, ValueError
  unexpected : String → Failure  -- any other Exception

pub data Attempt (A : Type 0) : Type 0 where
  returned : A → Attempt A
  raised : Failure → Attempt A

pub data JsonShape : Type 0 where
  invalid not_object object : JsonShape

-- What is outside the worker.
pub record Environment : Type 0 where
  pub ingest_raw_round : IngestRawRoundCommand → Attempt IngestRawRoundResult
  -- json.loads(payload_json)["raw_round_id"]; `none` if it raises
  pub decode_round_id : String → Option ℕ
  pub round_id_text : ℕ → String
  pub shape : String → JsonShape
  pub resolution_context : String → Option String
  pub embedding_profile : Option (String → Attempt String)
  -- the JSON that stands in where the Core sent none
  pub result_text : IngestRawRoundResult → String
  -- str(json.loads(result_json)["raw_round_id"]), where there is one
  pub core_id : String → Option String
  pub redact_text : String → String

pub record Worker : Type 0 where
  pub worker_id : ℕ
  pub max_attempts : ℕ
  pub retry_delay_seconds : ℕ
  pub lease_seconds : ℕ
  pub stopping : Bool

-- `__init__`, in whole seconds
unfoldable pub new_worker : (worker_id max_attempts retry_delay lease : ℕ) → Worker
new_worker id attempts delay seconds = record {
  worker_id = id;
  max_attempts = max attempts 1;
  retry_delay_seconds = delay;
  lease_seconds = max seconds 1;
  stopping = false;
}

unfoldable pub request_stop : Worker → Worker
request_stop w = record w { stopping = true }

abbrev pub is_raw_round : CoreCommandRecord → Bool
is_raw_round c = text_eq c.command_type "ingest_raw_round"

abbrev pub transport_status : CommandStatus → TransportStatus
transport_status completed = accepted
transport_status rejected = TransportStatus.rejected
transport_status failed = TransportStatus.rejected
transport_status _ = TransportStatus.retry_wait

pub data Outcome : Type 0 where
  missing lease_lost : Outcome
  finished : CommandStatus → Outcome

abbrev pub is_completed : CommandStatus → Bool
is_completed completed = true
is_completed _ = false

-- The clock's readings of one pass.
pub record Readings : Type 0 where
  pub claimed_at : ℕ
  pub finished_at : ℕ
  pub updated_at : ℕ
  pub cleared_at : ℕ
