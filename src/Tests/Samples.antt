-- ===== src/Tests/Samples.antt =====
-- Sample data: a protocol, a request, a Core and a worker.
use Prim.Native.String.{len, ◌++◌ as ◌+++◌}
use ledgermind_local.Prelude.{ℕ, zero, suc, ◌+◌, true, false, none, some, List, [], ◌∷◌, String}
use ledgermind_local.Rounds.{Db, queued, empty_db, CoreCommandRecord, RawRoundRecord, retry_wait}
use ledgermind_local.Rounds.Commands.{NewCommand, pending_command, Report}
use ledgermind_local.Delivery.{
  Environment, Worker, Readings, Attempt, returned, raised, transient, object, IngestRawRoundResult,
}
use ledgermind_local.Ingest.{
  Protocol, RawRoundRequest, Inputs, Handler, RawRoundIngestResult, new_round, raw_round_command,
  raw_round_delivery,
}
use ledgermind_local.Rounds.RawRounds.{new_payload}
use ledgermind_local.Rounds.Deliveries.{queued_delivery}

-- k, written with k strokes.
abbrev pub strokes : ℕ → String
strokes zero = ""
strokes (suc k) = "x" +++ strokes k

abbrev pub sample_protocol : Protocol
sample_protocol = record {
  calculate_payload_digest = λ r. "sha256:" +++ (r.source.round_id +++ r.source.adapter_version);
  calculate_source_round_key = λ s. s.session_id +++ s.round_id;
  payload_json = λ r. "[" +++ r.source.round_id +++ "]";
  command_payload = strokes;
  sha256_hexdigest = λ s. s;
}

abbrev pub request_of : (round version digest : String) → List String → RawRoundRequest
request_of round version digest ids = record {
  memory_space_id = "space";
  source = record {
    system = "hermes";
    instance_id = "i";
    profile_id = "p";
    session_id = "s";
    round_id = round;
    source_schema_version = 1;
    adapter_version = version;
    event_ids = ids;
    first_event_id = none;
    final_event_id = none;
  };
  events = ids;
  started_at = 10;
  completed_at = 20;
  payload_digest = digest;
}

abbrev pub sample_request : RawRoundRequest
sample_request = request_of "a" "1" "sha256:a1" ("e1" ∷ "e2" ∷ [])

abbrev pub sample_inputs : ℕ → Inputs
sample_inputs k = record {
  new_round_id = k + 1;
  new_command_id = k + 2;
  space_at = k + 10;
  retention_at = k + 10;
  received_at = k + 10;
  command_at = k + 10;
  delivery_at = k + 10;
}

abbrev pub sample_handler : Handler
sample_handler = record { max_raw_round_bytes = 100; retention_days = 30 }

abbrev pub first_result : RawRoundIngestResult
first_result = record {
  raw_round_id = 1;
  duplicate = false;
  status = queued;
  core_command_id = 2;
  core_raw_round_id = none;
}

abbrev pub new_command : (command_id : ℕ) → (key : String) → (round_id : ℕ) → NewCommand
new_command k key round_id = record {
  command_id = k;
  command_type = "ingest_raw_round";
  memory_space_id = "space";
  idempotency_key = key;
  payload_json = strokes round_id;
  payload_digest = "sha256:1";
  available_at = none;
}

abbrev pub waiting : ℕ → String → CoreCommandRecord
waiting k key = pending_command 10 (new_command k key 1)

-- Two commands that wait, the first of them in both orders.
abbrev pub outbox_db : Db
outbox_db = record empty_db { commands = waiting 3 "b" ∷ waiting 2 "a" ∷ [] }

abbrev pub retry_report : Report
retry_report = record {
  status = retry_wait;
  result_json = none;
  error_code = some "e";
  error_detail = none;
  retry_delay_seconds = 5;
}

abbrev pub sample_worker : Worker
sample_worker = record {
  worker_id = 7;
  max_attempts = 3;
  retry_delay_seconds = 5;
  lease_seconds = 60;
  stopping = false;
}

abbrev pub sample_readings : Readings
sample_readings = record { claimed_at = 20; finished_at = 21; updated_at = 22; cleared_at = 23 }

-- A Core that answers every round in the same way.
abbrev pub core_that : Attempt IngestRawRoundResult → Environment
core_that answer = record {
  ingest_raw_round = λ c. answer;
  decode_round_id = λ s. some (len s);
  round_id_text = strokes;
  shape = λ s. object;
  resolution_context = λ s. none;
  embedding_profile = none;
  result_text = λ r. "{}";
  core_id = λ s. none;
  redact_text = λ s. s;
}

abbrev pub accepting_core : Environment
accepting_core = core_that (
    returned (record {
      is_accepted = true;
      is_duplicate = false;
      core_raw_round_id = some "c";
      result_json = some "{}";
    }))

abbrev pub failing_core : Environment
failing_core = core_that (raised (transient "timeout"))

abbrev pub first_round : RawRoundRecord
first_round = new_round sample_protocol sample_handler (sample_inputs 0) sample_request

-- The database after the first submission.
abbrev pub first_db : Db
first_db = record {
  memory_spaces =
      (record {
        memory_space_id = "space";
        source_client = "ledgermind-integrations";
        display_name = none;
        created_at = 10;
        updated_at = 10;
      })
      ∷ [];
  raw_rounds = record first_round { payload_json = "{}" } ∷ [];
  payloads = new_payload first_round ∷ [];
  commands = pending_command 10 (raw_round_command sample_protocol 2 sample_request 1) ∷ [];
  deliveries = queued_delivery 10 (raw_round_delivery sample_protocol sample_request 1 2) ∷ [];
}
