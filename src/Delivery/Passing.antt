-- ===== src/Delivery/Passing.antt =====
-- scheduler/core_command_worker.py: one pass of the worker, `process_once`, which claims, sends and
-- reports. `between` and `during` are what other connections do to the database while the worker holds
-- no transaction.
use ledgermind_local.Prelude.{ℕ, Option, none, some, String, if◌then◌else◌}
use ledgermind_local.Prelude.Text.{is_empty}
use ledgermind_local.Rounds.{Db, CoreCommandRecord}
use ledgermind_local.Rounds.Session.{
  Result, ok, err, Body, run, commit, rollback, transaction, ◌>>>=◌, pure,
}
use ledgermind_local.Rounds.RawRounds.{clear_raw_round_payload}
use ledgermind_local.Rounds.Commands.{
  Report, claim_core_command, get_core_command, finish_core_command,
}
use ledgermind_local.Rounds.Deliveries.{update_core_raw_round_delivery}
use ledgermind_local.Delivery.{
  Environment, Worker, Readings, Outcome, missing, lease_lost, finished, is_raw_round, is_completed,
  transport_status,
}
use ledgermind_local.Delivery.Sending.{attempt_report}

-- `_claim`: its own transaction, committed if a command was claimed.
unfoldable pub claim_body : Worker → (now : ℕ) → Body (Option CoreCommandRecord)
claim_body w now =
    run (λ db. ok (claim_core_command w.worker_id w.lease_seconds now db)) >>>= λ claimed.
    elim claimed [ none ↦ pure none | some c ↦ commit >>>= λ _. pure (some c) ]

-- `uow.rollback()` and the early return.
unfoldable pub abandon : Body Outcome
abandon s = (ok lease_lost, rollback s)

module _ (env : Environment) where
  abbrev pub core_id_of : Option String → Option String
  core_id_of none = none
  core_id_of (some text) = if is_empty text then none else env.core_id text

  -- The rows of the round that the command is for.
  unfoldable pub settle_round : Readings → CoreCommandRecord → Report → Db → Db
  settle_round t c r db =
      if is_raw_round c
      then elim (env.decode_round_id c.payload_json) [
        | none ↦ db
        | some round_id ↦
            let db' =
              (update_core_raw_round_delivery t.updated_at round_id (transport_status r.status)
                (core_id_of r.result_json) r.error_code db).1 in
            if is_completed r.status
            then (clear_raw_round_payload t.cleared_at round_id db').1
            else db'
      ]
      else db

  unfoldable pub settle_body : Readings → CoreCommandRecord → Report → Body Outcome
  unfolding settle_round
  settle_body t c r =
      run (λ db. ok (tt, settle_round t c r db)) >>>= λ _. commit >>>= λ _. pure (finished r.status)

  -- `_finish`; its block ends without a commit where the command is missing or its lease is lost.
  unfoldable pub finish_body : Worker → Readings → ℕ → Report → Body Outcome
  unfolding settle_body abandon
  finish_body w t command_id r = run (λ db. ok (get_core_command command_id db, db)) >>>= λ command.
      elim command [
        | none ↦ pure missing
        | some c ↦ run (finish_core_command command_id w.worker_id t.finished_at r) >>>= λ updated.
            if updated then settle_body t c r else abandon
      ]

  unfoldable pub finish_transaction : Worker → Readings → ℕ → Report → Db → Result Outcome × Db
  unfolding finish_body
  finish_transaction w t command_id r = transaction (finish_body w t command_id r)

  -- A claimed command: read and send its round, then report.
  unfoldable pub process_claimed :
      Worker → Readings → (between during : Db → Db) → CoreCommandRecord → Db → Result Outcome × Db
  unfolding attempt_report finish_transaction
  process_claimed w t between during c db =
      let read = between db in
      finish_transaction w t c.command_id (attempt_report env w c read) (during read)

  -- What follows the claim; a claim that raises ends the pass.
  unfoldable pub after_claim :
      Worker
      → Readings
      → (between during : Db → Db) → Result (Option CoreCommandRecord) × Db
      → Option (ℕ × Result Outcome) × Db
  unfolding process_claimed
  after_claim w t between during (err e, db) = (none, db)
  after_claim w t between during (ok none, db) = (none, db)
  after_claim w t between during (ok (some c), db) =
      let (outcome, db') = process_claimed w t between during c db in
      (some (c.command_id, outcome), db')

  -- `process_once`: nothing, or the claimed command with its outcome.
  unfoldable pub process_once :
      Worker → Readings → (between during : Db → Db) → Db → Option (ℕ × Result Outcome) × Db
  unfolding claim_body after_claim
  process_once w t between during db =
      if w.stopping
      then (none, db)
      else after_claim w t between during (transaction (claim_body w t.claimed_at) db)
