-- ===== src/Delivery/Sending.antt =====
-- scheduler/core_command_worker.py: `_deliver_raw_round` and the handlers of `process_once`, from a
-- claimed command to its report.
use ledgermind_local.Prelude.{ℕ, Option, none, some, String, leb, if◌then◌else◌}
use ledgermind_local.Prelude.Text.{take_chars, is_empty}
use ledgermind_local.Rounds.{
  Db, CommandStatus, RawRoundRecord, CoreCommandRecord, completed, failed, rejected,
}
use ledgermind_local.Rounds.RawRounds.{get}
use ledgermind_local.Rounds.Commands.{Report}
use ledgermind_local.Delivery.{
  Environment, Worker, IngestRawRoundCommand, IngestRawRoundResult, Attempt, returned, raised,
  domain_rejected, transient, unexpected, invalid, not_object, object, is_raw_round,
}

module _ (env : Environment) where
  -- The call of the gateway, after the profile's factory where there is one.
  unfoldable pub send_round : CoreCommandRecord → ℕ → String → Attempt IngestRawRoundResult
  send_round c round_id body =
      let command = λ (profile : Option String).
        (let r : IngestRawRoundCommand = record {
          command_id = c.command_id;
          idempotency_key = c.idempotency_key;
          memory_space_id = c.memory_space_id;
          raw_round_id = round_id;
          raw_round = body;
          resolution_context = env.resolution_context body;
          embedding_profile = profile;
        } in
          r) in
      elim env.embedding_profile [
        | none ↦ env.ingest_raw_round (command none)
        | some factory ↦ elim (factory c.memory_space_id) [
          | returned profile ↦ env.ingest_raw_round (command (some profile))
          | raised f ↦ raised f
        ]
      ]

  unfoldable pub send_stored : CoreCommandRecord → ℕ → RawRoundRecord → Attempt IngestRawRoundResult
  unfolding send_round
  send_stored c round_id stored = elim (env.shape stored.payload_json) [
    | invalid ↦
        raised (domain_rejected "invalid_raw_round_payload" "RawRound payload is not valid JSON")
    | not_object ↦
        raised (domain_rejected "invalid_raw_round_payload" "RawRound payload must be an object")
    | object ↦ send_round c round_id stored.payload_json
  ]

  -- `_deliver_raw_round`
  unfoldable pub deliver_raw_round : CoreCommandRecord → Db → Attempt IngestRawRoundResult
  unfolding send_stored
  deliver_raw_round c db = elim (env.decode_round_id c.payload_json) [
    | none ↦
        raised (domain_rejected "invalid_raw_round_command" "RawRound command metadata is invalid")
    | some round_id ↦ elim (get round_id db) [
      | none ↦ raised (domain_rejected "raw_round_not_found" (env.round_id_text round_id))
      | some stored ↦ send_stored c round_id stored
    ]
  ]

  unfoldable pub error_detail : String → String
  error_detail text = take_chars 2000 (env.redact_text text)

  unfoldable pub rejection : Worker → (code detail : String) → Report
  rejection w code detail = record {
    status = rejected;
    result_json = none;
    error_code = some code;
    error_detail = some (error_detail detail);
    retry_delay_seconds = w.retry_delay_seconds;
  }

  -- `_finish_retry_or_failure`
  unfoldable pub retry_or_failure : Worker → CoreCommandRecord → (code text : String) → Report
  retry_or_failure w c code text = record {
    status = if leb w.max_attempts c.attempts then failed else CommandStatus.retry_wait;
    result_json = none;
    error_code = some code;
    error_detail = some (error_detail text);
    retry_delay_seconds = w.retry_delay_seconds;
  }

  unfoldable pub completion : Worker → IngestRawRoundResult → Report
  completion w r = record {
    status = completed;
    result_json = some (elim r.result_json [
      | none ↦ env.result_text r
      | some text ↦ if is_empty text then env.result_text r else text
    ]);
    error_code = none;
    error_detail = none;
    retry_delay_seconds = w.retry_delay_seconds;
  }

  -- The `try` of `process_once` and its handlers: what the worker will report.
  unfoldable pub report_of : Worker → CoreCommandRecord → Attempt IngestRawRoundResult → Report
  unfolding rejection retry_or_failure completion
  report_of w c (returned r) =
      if r.is_accepted
      then completion w r
      else rejection w "core_rejected" "Core did not accept RawRound"
  report_of w c (raised (domain_rejected code detail)) = rejection w code detail
  report_of w c (raised (transient text)) = retry_or_failure w c "core_delivery_error" text
  report_of w c (raised (unexpected text)) = retry_or_failure w c "core_gateway_error" text

  unfoldable pub attempt_report : Worker → CoreCommandRecord → Db → Report
  unfolding report_of deliver_raw_round
  attempt_report w c db =
      if is_raw_round c
      then report_of w c (deliver_raw_round c db)
      else rejection w "unsupported_command_type" c.command_type
