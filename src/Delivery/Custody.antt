-- ===== src/Delivery/Custody.antt =====
-- scheduler/core_command_worker.py: the body of a round and the claimed command over a whole pass.
use ledgermind_local.Prelude.{
  ℕ, ◌≡◌, ◌⊎◌, ◌≤◌, ◌<◌, ◌+◌, max, refl, ap, ◌∙◌, Bool, true, false, Option, some, inl, inr, arith,
  Bool-cases, if_false, String, leb, leb→le,
}
use ledgermind_local.Prelude.Tables.{Distinct}
use ledgermind_local.Rounds.{Db, CoreCommandRecord, CommandStatus, failed}
use ledgermind_local.Rounds.Session.{
  Result, ok, enter, exit, run, commit, transaction, ◌>>>=◌, pure,
}
use ledgermind_local.Rounds.Commands.{
  same_command, is_finish_status, next_claimable, lease, claim_core_command,
}
use ledgermind_local.Rounds.Commands.Claims.{claim_some, claimed_db, Distinct-claimed, get-claimed}
use ledgermind_local.Rounds.Commands.Finishing.{finished_db}
use ledgermind_local.Delivery.{
  Environment, Worker, Readings, Outcome, finished, is_completed, IngestRawRoundResult, Attempt,
  returned, raised, Failure, domain_rejected, transient, unexpected, is_raw_round,
}
use ledgermind_local.Delivery.Sending.{
  deliver_raw_round, attempt_report, report_of, rejection, retry_or_failure,
}
use ledgermind_local.Delivery.Passing.{
  settle_round, process_claimed, after_claim, process_once, claim_body,
}
use ledgermind_local.Delivery.Outcomes.{finish_transaction-payloads, finish_transaction_held}

abbrev pub is_rejection : Failure → Bool
is_rejection (domain_rejected code detail) = true
is_rejection _ = false

module _ (env : Environment) (w : Worker) where
  -- The gateway took the round.
  abbrev pub CoreAccepted : CoreCommandRecord → Db → Type 0
  CoreAccepted c db =
      (r : IngestRawRoundResult) × (deliver_raw_round env c db ≡ returned r)
      × (r.is_accepted ≡ true)

  report_of-accepted :
      (c : CoreCommandRecord) (a : Attempt IngestRawRoundResult)
      → (is_completed (report_of env w c a).status ≡ false)
        ⊎ ((r : IngestRawRoundResult) × (a ≡ returned r) × (r.is_accepted ≡ true))
  unfolding report_of
  report_of-accepted c (returned r) = elim (Bool-cases r.is_accepted) [
    | inl y ↦ inr (r, refl, y)
    | inr n ↦ inl (rw n)
  ]
  report_of-accepted c (raised (domain_rejected code detail)) = inl refl
  report_of-accepted c (raised (transient text)) = inl (ground arith)
  report_of-accepted c (raised (unexpected text)) = inl (ground arith)

  attempt_report-accepted :
      (c : CoreCommandRecord) (db : Db)
      → (is_completed (attempt_report env w c db).status ≡ false) ⊎ CoreAccepted c db
  unfolding attempt_report
  attempt_report-accepted c db = elim (Bool-cases (is_raw_round c)) [
    | inl y ↦ rw y (report_of-accepted c (deliver_raw_round env c db))
    | inr n ↦ inl (unfold rejection in rw n)
  ]

  report_of-known :
      (c : CoreCommandRecord) (a : Attempt IngestRawRoundResult)
      → is_finish_status (report_of env w c a).status ≡ true
  unfolding report_of
  report_of-known c (returned r) = ground arith
  report_of-known c (raised (domain_rejected code detail)) = refl
  report_of-known c (raised (transient text)) = ground arith
  report_of-known c (raised (unexpected text)) = ground arith

  -- Whatever the gateway does, the report has a status that the outbox takes.
  pub attempt_report-known :
      (c : CoreCommandRecord) (db : Db) → is_finish_status (attempt_report env w c db).status ≡ true
  unfolding attempt_report
  attempt_report-known c db = elim (Bool-cases (is_raw_round c)) [
    | inl y ↦ rw y (report_of-known c (deliver_raw_round env c db))
    | inr n ↦ unfold rejection in rw n
  ]

  retry_or_failure_lem :
      (c : CoreCommandRecord) (code text : String)
      → ((retry_or_failure env w c code text).status ≡ CommandStatus.retry_wait)
          × (c.attempts < w.max_attempts)
        ⊎ ((retry_or_failure env w c code text).status ≡ failed) × (w.max_attempts ≤ c.attempts)
  unfolding retry_or_failure
  retry_or_failure_lem c code text = elim (Bool-cases (leb w.max_attempts c.attempts)) [
    | inl y ↦ inr (rw y, leb→le w.max_attempts c.attempts y)
    | inr n ↦ inl (rw n, ground (arith, n))
  ]

  -- A delivery of a round that fails for a reason other than a rejection is reported for a retry while
  -- the command has had fewer attempts than the worker allows, and as failed from then on.
  pub retry_bound :
      (c : CoreCommandRecord) (db : Db) (f : Failure)
      → is_raw_round c ≡ true
      → deliver_raw_round env c db ≡ raised f
      → is_rejection f ≡ false
      → ((attempt_report env w c db).status ≡ CommandStatus.retry_wait)
          × (c.attempts < w.max_attempts)
        ⊎ ((attempt_report env w c db).status ≡ failed) × (w.max_attempts ≤ c.attempts)
  unfolding attempt_report report_of
  retry_bound c db (domain_rejected code detail) raw e other = absurd (cc other)
  retry_bound c db (transient text) raw e other =
      rw (raw, attempt_report)
        (rw (e, report_of) (retry_or_failure_lem c "core_delivery_error" text))
  retry_bound c db (unexpected text) raw e other =
      rw (raw, attempt_report)
        (rw (e, report_of) (retry_or_failure_lem c "core_gateway_error" text))

  -- After a pass over a claimed command, whatever others did meanwhile, either all bodies are as they
  -- were before its report, or the Core accepted the round that the worker read.
  pub body_kept :
      (t : Readings) (between during : Db → Db) (c : CoreCommandRecord) (db : Db)
      → ((process_claimed env w t between during c db).1.payloads ≡ (during (between db)).payloads)
        ⊎ CoreAccepted c (between db)
  unfolding process_claimed
  body_kept t between during c db = elim (attempt_report-accepted c (between db)) [
    | inl open_still ↦ inl (
        finish_transaction-payloads env w t c.command_id (attempt_report env w c (between db))
          (during (between db)) open_still)
    | inr taken ↦ inr taken
  ]

  -- The transaction of the claim stores what the claim says.
  claim_transaction :
      (now : ℕ) (db : Db) (c : CoreCommandRecord) (db' : Db)
      → claim_core_command w.worker_id w.lease_seconds now db ≡ (some c, db')
      → transaction (claim_body w now) db ≡ (ok (some c), db')
  unfolding claim_body transaction enter exit run commit pure ◌>>>=◌
  claim_transaction now db c db' e = ground (arith, e)

  -- Where the rows have distinct keys and a command is due, a pass of a worker that is not stopping,
  -- with no other connection at work, claims the first one that is due and finishes it with the report
  -- of its delivery, whatever the gateway answered.
  pub process_once_finishes :
      (t : Readings) (db : Db) (row : CoreCommandRecord)
      → w.stopping ≡ false
      → Distinct same_command db.commands
      → next_claimable t.claimed_at db ≡ some row
      → let c = lease w.worker_id (t.claimed_at + max w.lease_seconds 1) row in
        let db' = claimed_db db w.worker_id w.lease_seconds t.claimed_at row in
        let r = attempt_report env w c db' in
        process_once env w t (λ d. d) (λ d. d) db ≡ (
          some (row.command_id, ok (finished r.status)),
          settle_round env t c r (finished_db db' row.command_id w.worker_id t.finished_at r),
        )
  unfolding process_once process_claimed
  process_once_finishes t db row going distinct due =
      let c = lease w.worker_id (t.claimed_at + max w.lease_seconds 1) row in
      let db' = claimed_db db w.worker_id w.lease_seconds t.claimed_at row in
      let r = attempt_report env w c db' in
      let claim =
        claim_transaction t.claimed_at db c db'
          (claim_some db distinct w.worker_id w.lease_seconds t.claimed_at row due) in
      let finish =
        finish_transaction_held env w t row.command_id r db' c
          (Distinct-claimed db distinct w.worker_id w.lease_seconds t.claimed_at row)
          (attempt_report-known c db')
          (get-claimed db distinct w.worker_id w.lease_seconds t.claimed_at row due)
          (unfold lease in refl) (unfold lease in refl) in
      if_false w.stopping _ _ going
      ∙ ap (after_claim env w t (λ d. d) (λ d. d)) claim
      ∙ unfold lease in
        ap
          (λ (y : Result Outcome × Db).
            let z : Option (ℕ × Result Outcome) × Db = (some (row.command_id, y.0), y.1) in z)
          finish
