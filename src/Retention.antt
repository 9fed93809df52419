-- ===== src/Retention.antt =====
-- scheduler/retention_worker.py: one transaction that clears the bodies whose time is over.
pub mod Purged
use ledgermind_local.Prelude.{ℕ, ltb, if◌then◌else◌}
use ledgermind_local.Rounds.{Db}
use ledgermind_local.Rounds.Session.{
  Result, ok, err, value_error, Body, run, commit, transaction, ◌>>>=◌, pure,
}
use ledgermind_local.Rounds.RawRounds.{purge_expired}

-- The body of the `with` block.
unfoldable pub purge_body : (cutoff limit : ℕ) → Body ℕ
purge_body cutoff limit =
    run (λ db. ok (purge_expired cutoff limit db)) >>>= λ purged. commit >>>= λ _. pure purged

-- `process_once`; `cutoff` is `now`, or the clock's reading.
unfoldable pub purge_once : (cutoff limit : ℕ) → Db → Result ℕ × Db
unfolding purge_body
purge_once cutoff limit db =
    if ltb limit 1 then (err value_error, db) else transaction (purge_body cutoff limit) db
