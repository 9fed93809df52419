-- ===== src/Delivery/Outcomes.antt =====
-- scheduler/core_command_worker.py: the three ways in which the transaction of a report ends.
use ledgermind_local.Prelude.{
  ◌≡◌, ℕ, true, false, none, some, inl, inr, arith, Bool-cases, Option-cases,
}
use ledgermind_local.Prelude.Tables.{Distinct}
use ledgermind_local.Rounds.{Db, CoreCommandRecord}
use ledgermind_local.Rounds.Session.{
  ok, enter, exit, run, commit, rollback, transaction, ◌>>>=◌, pure,
}
use ledgermind_local.Rounds.Commands.{
  Report, same_command, is_finish_status, is_delivering, finish_core_command, get_core_command,
  finish_test,
}
use ledgermind_local.Rounds.Commands.Finishing.{finish_held, finish_not_held, finished_db}
use ledgermind_local.Delivery.{
  Environment, Worker, Readings, missing, lease_lost, finished, is_completed,
}
use ledgermind_local.Rounds.Deliveries.{update_core_raw_round_delivery}
use ledgermind_local.Delivery.Passing.{settle_round, finish_transaction}

module _ (env : Environment) (w : Worker) (t : Readings) (k : ℕ) (r : Report) (db : Db) where
  finish-missing :
      get_core_command k db ≡ none → finish_transaction env w t k r db ≡ (ok missing, db)
  unfolding finish_transaction transaction enter exit run ◌>>>=◌ pure rollback
  finish-missing e = ground (arith, e)

  finish-refused :
      (c : CoreCommandRecord) (db' : Db)
      → get_core_command k db ≡ some c
      → finish_core_command k w.worker_id t.finished_at r db ≡ ok (false, db')
      → finish_transaction env w t k r db ≡ (ok lease_lost, db)
  unfolding finish_transaction transaction enter exit run ◌>>>=◌ pure rollback
  finish-refused c db' e f = ground (arith, e, f)

  finish-done :
      (c : CoreCommandRecord) (db' : Db)
      → get_core_command k db ≡ some c
      → finish_core_command k w.worker_id t.finished_at r db ≡ ok (true, db')
      → finish_transaction env w t k r db ≡ (ok (finished r.status), settle_round env t c r db')
  unfolding finish_transaction transaction enter exit run ◌>>>=◌ pure rollback commit
  finish-done c db' e f = ground (arith, e, f)

  -- Where the rows have distinct keys, the report of the worker that holds the command's claim changes
  -- the command, its delivery row and, for a completed command, the round's body, together.
  pub finish_transaction_held :
      (c : CoreCommandRecord)
      → Distinct same_command db.commands
      → is_finish_status r.status ≡ true
      → get_core_command k db ≡ some c
      → is_delivering c.status ≡ true
      → c.claimed_by ≡ some w.worker_id
      → finish_transaction env w t k r db ≡ (
        ok (finished r.status),
        settle_round env t c r (finished_db db k w.worker_id t.finished_at r),
      )
  finish_transaction_held c distinct known found running held =
      finish-done c (finished_db db k w.worker_id t.finished_at r) found
        (finish_held db k w.worker_id t.finished_at r known c distinct found running held).0

  -- Where the rows have distinct keys and the command is not under the worker's claim, the report ends
  -- as a lost lease and the database stays as it was.
  pub finish_transaction_lost :
      (c : CoreCommandRecord)
      → Distinct same_command db.commands
      → is_finish_status r.status ≡ true
      → get_core_command k db ≡ some c
      → finish_test k w.worker_id c ≡ false
      → finish_transaction env w t k r db ≡ (ok lease_lost, db)
  finish_transaction_lost c distinct known found other =
      finish-refused c (finished_db db k w.worker_id t.finished_at r) found
        (finish_not_held db k w.worker_id t.finished_at r known c distinct found other)

  -- A report that does not complete the command leaves every body where it is.
  settle_round-payloads :
      (c : CoreCommandRecord) (d : Db)
      → is_completed r.status ≡ false
      → (settle_round env t c r d).payloads ≡ d.payloads
  unfolding settle_round update_core_raw_round_delivery
  settle_round-payloads c d open_still = ground (arith, open_still)

  pub finish_transaction-payloads :
      is_completed r.status ≡ false → (finish_transaction env w t k r db).1.payloads ≡ db.payloads
  unfolding finish_transaction transaction enter exit run ◌>>>=◌ pure rollback commit
      finish_core_command
  finish_transaction-payloads open_still = elim (Option-cases (get_core_command k db)) [
    | inl e ↦ ground (arith, e)
    | inr (c, e) ↦ elim (Bool-cases (is_finish_status r.status)) [
      | inl known ↦ ground (
        arith,
        e,
        known,
        settle_round-payloads c (finished_db db k w.worker_id t.finished_at r) open_still,
      )
      | inr other ↦ ground (arith, e, other)
    ]
  ]
