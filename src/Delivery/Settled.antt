-- ===== src/Delivery/Settled.antt =====
-- scheduler/core_command_worker.py, `_finish`: the rows of the command and of its round after a report.
use ledgermind_local.Prelude.{
  ◌≡◌, ◌≢◌, refl, sym, ap, ◌∙◌, subst, ℕ, Bool, true, false, none, some, ◌⊎◌, inl, inr, arith,
  if◌then◌else◌,
}
use ledgermind_local.Prelude.Tables.{
  find, Distinct, find_sound, find-updated, find-update_where_other,
}
use ledgermind_local.Rounds.{
  Db, CommandStatus, TransportStatus, CoreCommandRecord, CoreRawRoundDeliveryRecord, PayloadRow,
  completed, failed, accepted,
}
use ledgermind_local.Rounds.Session.{Result, ok}
use ledgermind_local.Rounds.RawRounds.{
  payload_has_id, is_kept, clear, clear_test, clear_raw_round_payload,
}
use ledgermind_local.Rounds.Commands.{
  Report, same_command, is_finish_status, is_delivering, get_core_command, coalesce, finish,
}
use ledgermind_local.Rounds.Commands.Finishing.{finish_held, finished_db}
use ledgermind_local.Rounds.Deliveries.{
  has_round, get_core_raw_round_delivery, report_delivery, update_core_raw_round_delivery,
}
use ledgermind_local.Delivery.{
  Environment, Worker, Readings, Outcome, finished, is_raw_round, is_completed, transport_status,
}
use ledgermind_local.Delivery.Passing.{core_id_of, settle_round, finish_transaction}
use ledgermind_local.Delivery.Outcomes.{finish_transaction_held}

-- What a command's status means for the delivery of its round.
pub data Transports : CommandStatus → TransportStatus → Type 0 where
  on_completed : Transports completed accepted
  on_rejected : Transports CommandStatus.rejected TransportStatus.rejected
  on_failed : Transports failed TransportStatus.rejected
  on_retry : Transports CommandStatus.retry_wait TransportStatus.retry_wait

Transports-transport_status :
    (s : CommandStatus) → is_finish_status s ≡ true → Transports s (transport_status s)
Transports-transport_status completed h = on_completed
Transports-transport_status CommandStatus.rejected h = on_rejected
Transports-transport_status failed h = on_failed
Transports-transport_status CommandStatus.retry_wait h = on_retry
Transports-transport_status CommandStatus.pending h = absurd (cc h)
Transports-transport_status CommandStatus.delivering h = absurd (cc h)

completes : (s : CommandStatus) → is_completed s ≡ true → s ≡ completed
completes completed h = refl
completes CommandStatus.rejected h = absurd (cc h)
completes failed h = absurd (cc h)
completes CommandStatus.retry_wait h = absurd (cc h)
completes CommandStatus.pending h = absurd (cc h)
completes CommandStatus.delivering h = absurd (cc h)

-- The command, the delivery row and the body of the round `n`, by what they were, and the rows of the
-- round `other`.
pub record Settles (env : Environment) (t : Readings) (r : Report) (k n other : ℕ)
    (c : CoreCommandRecord) (d : CoreRawRoundDeliveryRecord) (p : PayloadRow) (db : Db)
    (x : Result Outcome × Db) : Type 0 where
  pub outcome : x.0 ≡ ok (finished r.status)
  pub command :
      (c' : CoreCommandRecord) × (get_core_command k x.1 ≡ some c')
      × (c'.status ≡ r.status)
      × (c'.claimed_by ≡ none)
      × (c'.lease_expires_at ≡ none)
      × (c'.attempts ≡ c.attempts)
      × (c'.last_error_code ≡ r.error_code)
  pub delivery :
      (s : TransportStatus) × Transports r.status s
      × (get_core_raw_round_delivery n x.1
          ≡ some (record d {
            transport_status = s;
            core_raw_round_id = coalesce (core_id_of env r.result_json) d.core_raw_round_id;
            last_error_code = r.error_code;
            updated_at = t.updated_at;
          }))
  pub body :
      ((r.status ≡ completed)
        × (find (payload_has_id n) x.1.payloads
            ≡ some (record p {
              payload_json = "{}";
              payload_bytes = 0;
              deleted_at = some t.cleared_at;
            })))
      ⊎ ((r.status ≢ completed) × (x.1.payloads ≡ db.payloads))
  pub other_delivery : get_core_raw_round_delivery other x.1 ≡ get_core_raw_round_delivery other db
  pub other_body :
      find (payload_has_id other) x.1.payloads ≡ find (payload_has_id other) db.payloads
  pub rounds_kept : x.1.raw_rounds ≡ db.raw_rounds

-- The database after the update of the delivery row of round `n`.
abbrev reported : Environment → Readings → Report → ℕ → Db → Db
reported env t r n db =
    (update_core_raw_round_delivery t.updated_at n (transport_status r.status)
      (core_id_of env r.result_json) r.error_code db).1

settle_round_lem :
    (env : Environment) (t : Readings) (r : Report) (n : ℕ) (c : CoreCommandRecord) (db : Db)
    → is_raw_round c ≡ true
    → env.decode_round_id c.payload_json ≡ some n
    → settle_round env t c r db ≡ (
        if is_completed r.status
        then (clear_raw_round_payload t.cleared_at n (reported env t r n db)).1
        else reported env t r n db)
unfolding settle_round
settle_round_lem env t r n c db raw decoded = ground (arith, raw, decoded)

module _ (env : Environment) (t : Readings) (r : Report) (n : ℕ) (db : Db) where
  delivery_found :
      (d : CoreRawRoundDeliveryRecord)
      → get_core_raw_round_delivery n db ≡ some d
      → get_core_raw_round_delivery n (reported env t r n db)
        ≡ some (
            report_delivery t.updated_at
              (transport_status r.status)
              (core_id_of env r.result_json)
              r.error_code
              d)
  unfolding get_core_raw_round_delivery update_core_raw_round_delivery
  delivery_found d found =
      find-updated (has_round n) (has_round n)
        (report_delivery t.updated_at (transport_status r.status) (core_id_of env r.result_json)
          r.error_code)
        db.deliveries (λ a. refl) found (find_sound (has_round n) db.deliveries found)

  delivery_other :
      (other : ℕ)
      → other ≢ n
      → get_core_raw_round_delivery other (reported env t r n db)
        ≡ get_core_raw_round_delivery other db
  unfolding get_core_raw_round_delivery update_core_raw_round_delivery
  delivery_other other differs =
      find-update_where_other (has_round other) (has_round n)
        (report_delivery t.updated_at (transport_status r.status) (core_id_of env r.result_json)
          r.error_code)
        db.deliveries (λ a. refl) (λ a h. ground arith)

body_found :
    (now n : ℕ) (db : Db) (p : PayloadRow)
    → find (payload_has_id n) db.payloads ≡ some p
    → is_kept p ≡ true
    → find (payload_has_id n) (clear_raw_round_payload now n db).1.payloads ≡ some (clear now p)
unfolding clear_raw_round_payload
body_found now n db p found kept =
    find-updated (payload_has_id n) (clear_test n) (clear now) db.payloads (λ a. refl) found
      (ground (arith, find_sound (payload_has_id n) db.payloads {a = p} found))

body_other :
    (now n : ℕ) (db : Db) (other : ℕ)
    → other ≢ n
    → find (payload_has_id other) (clear_raw_round_payload now n db).1.payloads
      ≡ find (payload_has_id other) db.payloads
unfolding clear_raw_round_payload
body_other now n db other differs =
    find-update_where_other (payload_has_id other) (clear_test n) (clear now) db.payloads
      (λ a. refl) (λ a h. ground arith)

module _ (env : Environment) (w : Worker) (t : Readings) (r : Report) (k n other : ℕ)
    (c : CoreCommandRecord) (d : CoreRawRoundDeliveryRecord) (p : PayloadRow) (db : Db) where
  abbrev Ends : Db → Type 0
  Ends db' = Settles env t r k n other c d p db (ok (finished r.status), db')

  abbrev finished_rows : Db
  finished_rows = finished_db db k w.worker_id t.finished_at r

  abbrev reported_rows : Db
  reported_rows = reported env t r n finished_rows

  -- The hypotheses of the theorem on the rows.
  rows-Ends :
      (b : Bool)
      → is_completed r.status ≡ b
      → is_finish_status r.status ≡ true
      → get_core_command k finished_rows ≡ some (finish t.finished_at r c)
      → get_core_raw_round_delivery n db ≡ some d
      → find (payload_has_id n) db.payloads ≡ some p
      → is_kept p ≡ true
      → other ≢ n
      → Ends (if b then (clear_raw_round_payload t.cleared_at n reported_rows).1 else reported_rows)
  unfolding get_core_command get_core_raw_round_delivery update_core_raw_round_delivery
      clear_raw_round_payload finish
  rows-Ends true e known command delivery body kept differs = record {
    outcome = refl;
    command = (finish t.finished_at r c, command, refl, refl, refl, refl, refl);
    delivery = (
      transport_status r.status,
      Transports-transport_status r.status known,
      delivery_found env t r n finished_rows d delivery,
    );
    body = inl (completes r.status e, body_found t.cleared_at n reported_rows p body kept);
    other_delivery = delivery_other env t r n finished_rows other differs;
    other_body = body_other t.cleared_at n reported_rows other differs;
    rounds_kept = refl;
  }
  rows-Ends false e known command delivery body kept differs = record {
    outcome = refl;
    command = (finish t.finished_at r c, command, refl, refl, refl, refl, refl);
    delivery = (
      transport_status r.status,
      Transports-transport_status r.status known,
      delivery_found env t r n finished_rows d delivery,
    );
    body = inr (λ same. cc (ap is_completed same, e), refl);
    other_delivery = delivery_other env t r n finished_rows other differs;
    other_body = refl;
    rounds_kept = refl;
  }

-- Where the rows have distinct keys, the report, with a finishing status, of the worker that holds the
-- claim of a command `k` for the round `n`, which has a delivery row and a body that is kept, leaves
-- this: the command has the reported status and error, no claim, no lease and as many attempts; the
-- round's delivery row is accepted after a completed command, rejected after a rejected or failed one
-- and to be retried after a retry, with the Core's id if the report has one, the error and the time;
-- the round's kept body is emptied and marked as deleted if the command is completed, and otherwise no
-- body changes. The delivery row and the body of any other round stay, as do the rounds' metadata.
pub finish_transaction-Settles :
    (env : Environment) (w : Worker) (t : Readings) (r : Report) (k n other : ℕ)
    (c : CoreCommandRecord) (d : CoreRawRoundDeliveryRecord) (p : PayloadRow) (db : Db)
    → Distinct same_command db.commands
    → is_finish_status r.status ≡ true
    → get_core_command k db ≡ some c
    → is_delivering c.status ≡ true
    → c.claimed_by ≡ some w.worker_id
    → is_raw_round c ≡ true
    → env.decode_round_id c.payload_json ≡ some n
    → get_core_raw_round_delivery n db ≡ some d
    → find (payload_has_id n) db.payloads ≡ some p
    → is_kept p ≡ true
    → other ≢ n
    → Settles env t r k n other c d p db (finish_transaction env w t k r db)
finish_transaction-Settles env w t r k n other c d p db distinct known found runs held raw decoded
      delivery body kept differs =
    let fdb : Db = finished_db db k w.worker_id t.finished_at r in
    let left = (finish_held db k w.worker_id t.finished_at r known c distinct found runs held).1 in
    subst (Settles env t r k n other c d p db)
      (sym (
        finish_transaction_held env w t k r db c distinct known found runs held
        ∙ ap (λ (x : Db). (ok (finished r.status), x))
            (settle_round_lem env t r n c fdb raw decoded)))
      (rows-Ends env w t r k n other c d p db (is_completed r.status) refl known left delivery body
        kept differs)
