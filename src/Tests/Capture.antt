-- ===== src/Tests/Capture.antt =====
-- Submissions of rounds.
use Prim.Native.String.{len}
use ledgermind_local.Prelude.{
  ◌≡◌, ◌≢◌, ◌≤◌, refl, sym, ap, true, false, none, some, [], ◌∷◌, text_eq,
}
use ledgermind_local.Prelude.Text.{is_blank, is_space}
use ledgermind_local.Prelude.Tables.{find, any, update_where, insert_unique}
use ledgermind_local.Rounds.{empty_db, Db}
use ledgermind_local.Rounds.Session.{
  ok, err, enter, exit, run, commit, rollback, transaction, ◌>>>=◌, pure, raise,
  raw_round_digest_mismatch, settle,
}
use ledgermind_local.Rounds.RawRounds.{
  get, join_payload, insert, insert_rows, new_payload, get_by_capture_identity, ensure_memory_space,
}
use ledgermind_local.Rounds.RawRounds.Inserting.{get-insert}
use ledgermind_local.Rounds.Commands.{
  create_core_command, insert_command, get_core_command, get_core_command_by_idempotency,
  same_payload, pending_command,
}
use ledgermind_local.Rounds.Deliveries.{
  create_core_raw_round_delivery, upsert_delivery, get_core_raw_round_delivery, queued_delivery,
}
use ledgermind_local.Ingest.{
  handle, validate, check_events, ingest, ingest_new, ingest_known, queue_core_delivery,
  find_existing, new_round, raw_round_command, RawRoundRequest, same_ids,
}
use ledgermind_local.Ingest.Rows.{ingest_rows, handle-eq-settle}
use ledgermind_local.Ingest.Captured.{touched_db, IsCapture, handle-IsCaptured}
use ledgermind_local.Ingest.Repeat.{handle_idempotent, handle_error_unchanged, handle_checked}
use ledgermind_local.Tests.Samples.{
  sample_protocol, sample_handler, sample_inputs, sample_request, first_result, first_db,
  first_round, request_of,
}

first_submission :
    handle sample_protocol sample_handler (sample_inputs 0) sample_request empty_db
    ≡ (ok first_result, first_db)
unfolding handle validate check_events transaction enter exit run commit rollback ◌>>>=◌ pure raise
    ingest ingest_new ingest_known queue_core_delivery find_existing new_round raw_round_command
    get_by_capture_identity join_payload ensure_memory_space insert insert_rows get
    create_core_command insert_command get_core_command get_core_command_by_idempotency same_payload
    pending_command create_core_raw_round_delivery upsert_delivery get_core_raw_round_delivery
    queued_delivery find any update_where insert_unique is_blank is_space text_eq
first_submission = refl

handle_idempotent_example :
    handle sample_protocol sample_handler (sample_inputs 50) sample_request first_db ≡ (
      ok (record first_result { duplicate = true }),
      touched_db sample_protocol sample_request 60 1 first_db,
    )
handle_idempotent_example =
    handle_idempotent sample_protocol sample_handler (sample_inputs 0) sample_request empty_db
      (sample_inputs 50) first_result first_db first_submission

handle-IsCaptured_example : IsCapture sample_protocol sample_request first_db first_result
handle-IsCaptured_example =
    handle-IsCaptured sample_protocol sample_request sample_handler (sample_inputs 0) empty_db
      first_result first_db first_submission

handle_checked_example :
    (sample_protocol.calculate_payload_digest sample_request ≡ sample_request.payload_digest)
    × (same_ids ("e1" ∷ "e2" ∷ []) ("e1" ∷ "e2" ∷ []) ≡ true)
    × (sample_request.events ≢ [])
    × (10 ≤ 20)
    × (len "[a]" ≤ 100)
handle_checked_example =
    handle_checked sample_protocol sample_handler (sample_inputs 0) sample_request empty_db
      first_result first_db first_submission

-- Another digest than the round's.
abbrev wrong_digest : RawRoundRequest
wrong_digest = request_of "a" "1" "sha256:b" ("e1" ∷ [])

wrong_digest_refused :
    handle sample_protocol sample_handler (sample_inputs 50) wrong_digest first_db
    ≡ (err raw_round_digest_mismatch, first_db)
unfolding handle validate text_eq
wrong_digest_refused = refl

handle_error_unchanged_example : first_db ≡ first_db
handle_error_unchanged_example =
    handle_error_unchanged sample_protocol sample_handler (sample_inputs 50) wrong_digest first_db
      raw_round_digest_mismatch first_db wrong_digest_refused

handle-eq-settle_example :
    handle sample_protocol sample_handler (sample_inputs 0) sample_request empty_db
    ≡ elim (validate sample_protocol sample_handler sample_request) [
      | some e ↦ (err e, empty_db)
      | none ↦
          settle empty_db
            (ingest_rows sample_protocol sample_handler (sample_inputs 0) sample_request empty_db)
    ]
handle-eq-settle_example =
    handle-eq-settle sample_protocol sample_handler (sample_inputs 0) sample_request empty_db

abbrev no_events : RawRoundRequest
no_events = request_of "n" "1" "sha256:n1" []

-- Another body under the identity of the first round.
abbrev other_body : RawRoundRequest
other_body = request_of "a" "2" "sha256:a2" ("e1" ∷ [])

other_body_valid : validate sample_protocol sample_handler other_body ≡ none
unfolding validate check_events text_eq
other_body_valid = refl

first_round_found : find_existing sample_protocol other_body first_db ≡ some first_round
unfolding find_existing get_by_capture_identity join_payload find new_round text_eq
first_round_found = refl

bodies_differ : first_round.payload_digest ≢ other_body.payload_digest
unfolding new_round text_eq
bodies_differ e = let t : false ≡ true = ap (λ s. text_eq s "sha256:a1") (sym e) in absurd (cc t)

abbrev space_db : Db
space_db = ensure_memory_space 10 "space" empty_db

inserted :
    insert first_round space_db
    ≡ ok (
      first_round,
      record space_db {
        raw_rounds = record first_round { payload_json = "{}" } ∷ [];
        payloads = new_payload first_round ∷ [];
      },
    )
unfolding new_round insert insert_rows get join_payload ensure_memory_space find any insert_unique
    text_eq
inserted = refl

get-insert_example :
    (first_round ≡ first_round)
    × (get 1 (record space_db {
      raw_rounds = record first_round { payload_json = "{}" } ∷ [];
      payloads = new_payload first_round ∷ [];
    })
        ≡ some first_round)
unfolding new_round
get-insert_example = get-insert first_round space_db first_round _ inserted
