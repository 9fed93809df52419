-- ===== src/Tests/Passes.antt =====
-- Passes of the delivery worker.
use ledgermind_local.Prelude.{◌≡◌, ◌⊎◌, ◌≤◌, ◌<◌, refl, some, [], ◌∷◌, text_eq, arith}
use ledgermind_local.Prelude.Tables.{find}
use ledgermind_local.Rounds.{CommandStatus, failed, completed, Db, CoreCommandRecord}
use ledgermind_local.Rounds.Session.{ok}
use ledgermind_local.Rounds.RawRounds.{get, join_payload, new_payload}
use ledgermind_local.Rounds.Commands.{Report, lease, pending_command, get_core_command}
use ledgermind_local.Rounds.Commands.Finishing.{finished_db}
use ledgermind_local.Ingest.{new_round, raw_round_command, raw_round_delivery}
use ledgermind_local.Delivery.{finished, raised, transient}
use ledgermind_local.Delivery.Sending.{attempt_report, deliver_raw_round, send_stored, send_round}
use ledgermind_local.Delivery.Passing.{
  settle_round, finish_transaction, process_claimed, process_once,
}
use ledgermind_local.Delivery.Settled.{Settles, finish_transaction-Settles}
use ledgermind_local.Rounds.Deliveries.{queued_delivery, get_core_raw_round_delivery}
use ledgermind_local.Delivery.Custody.{CoreAccepted, body_kept, retry_bound, process_once_finishes}
use ledgermind_local.Tests.Samples.{
  waiting, outbox_db, retry_report, sample_worker, sample_readings, accepting_core, failing_core,
  first_db, first_round, sample_protocol, sample_request,
}
use ledgermind_local.Tests.Outbox.{outbox-Distinct, claimed_outbox, held, first_due}

body_kept_example :
    ((process_claimed failing_core sample_worker sample_readings
        (λ d. d)
        (λ d. d)
        held
        first_db).1.payloads
      ≡ first_db.payloads)
    ⊎ CoreAccepted failing_core sample_worker held first_db
body_kept_example =
    body_kept failing_core sample_worker sample_readings (λ d. d) (λ d. d) held first_db

round_in_transit : deliver_raw_round failing_core held first_db ≡ raised (transient "timeout")
unfolding deliver_raw_round send_stored send_round get join_payload find new_round lease
    pending_command
round_in_transit = refl

retry_bound_example :
    ((attempt_report failing_core sample_worker held first_db).status ≡ CommandStatus.retry_wait)
      × (held.attempts < 3)
    ⊎ ((attempt_report failing_core sample_worker held first_db).status ≡ failed)
      × (3 ≤ held.attempts)
unfolding lease pending_command text_eq
retry_bound_example =
    retry_bound failing_core sample_worker held first_db (transient "timeout") refl round_in_transit
      refl

-- The first submission under worker 7's lease, and a report that completes it.
abbrev sent : CoreCommandRecord
sent = lease 7 80 (pending_command 10 (raw_round_command sample_protocol 2 sample_request 1))

abbrev sent_db : Db
sent_db = record first_db { commands = sent ∷ [] }

abbrev completed_report : Report
completed_report = record retry_report { status = completed; result_json = some "{}" }

finish_transaction-Settles_example :
    Settles accepting_core sample_readings completed_report 2 1 5 sent
      (queued_delivery 10 (raw_round_delivery sample_protocol sample_request 1 2))
      (new_payload first_round)
      sent_db
      (finish_transaction accepting_core sample_worker sample_readings 2 completed_report sent_db)
unfolding lease pending_command queued_delivery get_core_command get_core_raw_round_delivery find
    text_eq raw_round_command new_round
finish_transaction-Settles_example =
    finish_transaction-Settles accepting_core sample_worker sample_readings completed_report 2 1 5
      sent (queued_delivery 10 (raw_round_delivery sample_protocol sample_request 1 2))
      (new_payload first_round) sent_db (tt, tt) refl refl refl refl refl refl refl refl refl
      (λ e. omega arith)

process_once_finishes_example :
    process_once accepting_core sample_worker sample_readings (λ d. d) (λ d. d) outbox_db ≡ (
      some (
        2,
        ok (finished (attempt_report accepting_core sample_worker held claimed_outbox).status),
      ),
      settle_round accepting_core sample_readings held
          (attempt_report accepting_core sample_worker held claimed_outbox)
          (finished_db claimed_outbox 2 7 21
            (attempt_report accepting_core sample_worker held claimed_outbox)),
    )
unfolding pending_command
process_once_finishes_example =
    process_once_finishes accepting_core sample_worker sample_readings outbox_db (waiting 2 "a")
      refl outbox-Distinct first_due
