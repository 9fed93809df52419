-- ===== src/Rounds/Commands/Creating.antt =====
-- persistence/raw_round_repository.py: `create_core_command`, and another call with the same contents.
use text.Mathlib.Text.{starts_with}
use ledgermind_local.Prelude.{
  ℕ, ◌≡◌, refl, sym, ap, ◌∙◌, true, false, Option, none, some, List, inl, inr, arith, Option-cases,
  text_eq_refl, ==_refl,
}
use ledgermind_local.Prelude.Text.{is_blank}
use ledgermind_local.Prelude.Tables.{
  find, insert_unique, find-insert_unique, find-insert_unique_none,
}
use ledgermind_local.Rounds.{CoreCommandRecord, Db}
use ledgermind_local.Rounds.Session.{ok, Result}
use ledgermind_local.Rounds.Commands.{
  NewCommand, has_command_id, has_idempotency, same_command, same_payload, pending_command,
  insert_command, create_core_command, get_core_command, get_core_command_by_idempotency,
}

-- The command stands in the outbox under its key, with the contents of `n`.
pub record Holds (n : NewCommand) (db : Db) (c : CoreCommandRecord) : Type 0 where
  pub found : get_core_command_by_idempotency n.memory_space_id n.idempotency_key db ≡ some c
  pub same : same_payload n c ≡ true

module _ (now : ℕ) (n : NewCommand) where
  same_payload-pending : same_payload n (pending_command now n) ≡ true
  unfolding same_payload pending_command
  same_payload-pending =
      rw (text_eq_refl n.command_type, text_eq_refl n.payload_json, text_eq_refl n.payload_digest)

  has_idempotency-pending :
      has_idempotency n.memory_space_id n.idempotency_key (pending_command now n) ≡ true
  unfolding pending_command
  has_idempotency-pending = rw (text_eq_refl n.memory_space_id, text_eq_refl n.idempotency_key)

  -- The row that the INSERT is followed by is the inserted one.
  insert-Holds :
      (db : Db) (c : CoreCommandRecord) (db' : Db)
      → get_core_command_by_idempotency n.memory_space_id n.idempotency_key db ≡ none
      → insert_command now n db ≡ ok (c, db')
      → Holds n db' c × (c ≡ pending_command now n) × (db' ≡ record db { commands = db'.commands })
  unfolding insert_command get_core_command_by_idempotency get_core_command
  insert-Holds db c db' fresh h =
      go (insert_unique same_command (pending_command now n) db.commands) refl
    where
      go :
          (o : Option (List CoreCommandRecord))
          → insert_unique same_command (pending_command now n) db.commands ≡ o
          → Holds n db' c
            × (c ≡ pending_command now n)
            × (db' ≡ record db { commands = db'.commands })
      go none e = absurd (ground (arith, e, h))
      go (some rows) e =
          let read : find (has_command_id n.command_id) rows ≡ some (pending_command now n) =
            find-insert_unique same_command (pending_command now n) db.commands e
              (has_command_id n.command_id) (λ x k. unfold pending_command in ground arith)
              (unfold pending_command in ==_refl n.command_id) in
          let keyed : find (has_idempotency n.memory_space_id n.idempotency_key) rows
              ≡ some (pending_command now n) =
            find-insert_unique_none same_command (pending_command now n) db.commands e
              (has_idempotency n.memory_space_id n.idempotency_key) fresh has_idempotency-pending in
          let result : Path (Result (CoreCommandRecord × Db))
              (ok (pending_command now n, record db { commands = rows })) (ok (c, db')) =
            ground (arith, e, read, h) in
          let c_eq : pending_command now n ≡ c = cc result in
          let db_eq : record db { commands = rows } ≡ db' = cc result in
          (
            record {
              found = rw (← db_eq) (keyed ∙ ap some c_eq);
              same = rw (← c_eq) same_payload-pending;
            },
            sym c_eq,
            rw (← db_eq),
          )

  create_known :
      (db : Db) (existing c : CoreCommandRecord) (db' : Db)
      → get_core_command_by_idempotency n.memory_space_id n.idempotency_key db ≡ some existing
      → create_core_command now n db ≡ ok (c, db')
      → (same_payload n existing ≡ true) × (c ≡ existing) × (db' ≡ db)
  unfolding create_core_command
  create_known db existing c db' e h = ground (arith, e, h)

  create_fresh :
      (db : Db) (c : CoreCommandRecord) (db' : Db)
      → get_core_command_by_idempotency n.memory_space_id n.idempotency_key db ≡ none
      → create_core_command now n db ≡ ok (c, db')
      → insert_command now n db ≡ ok (c, db')
  unfolding create_core_command
  create_fresh db c db' e h = ground (arith, e, h)

  -- After the call the returned command holds the key, and no other table has changed.
  pub create-Holds :
      (db : Db) (c : CoreCommandRecord) (db' : Db)
      → create_core_command now n db ≡ ok (c, db')
      → Holds n db' c × (db' ≡ record db { commands = db'.commands })
  create-Holds db c db' h =
      elim (Option-cases (get_core_command_by_idempotency n.memory_space_id n.idempotency_key db)) [
        | inl fresh ↦
            let (holds, _, rest) = insert-Holds db c db' fresh (create_fresh db c db' fresh h) in
            (holds, rest)
        | inr (e, found) ↦
            let (same, c_eq, db_eq) = create_known db e c db' found h in
            (record { found = rw db_eq (cc (found, c_eq)); same = rw c_eq same }, rw db_eq refl)
      ]

  pub create_again :
      (db : Db) (c : CoreCommandRecord)
      → is_blank n.command_type ≡ false
      → starts_with n.payload_digest "sha256:" ≡ true
      → Holds n db c
      → create_core_command now n db ≡ ok (c, db)
  unfolding create_core_command
  create_again db c typed digest holds = ground (arith, typed, digest, holds.found, holds.same)
