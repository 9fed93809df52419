-- ===== src/Rounds/RawRounds/Inserting.antt =====
-- persistence/raw_round_repository.py: `insert` and the reads of the round after it.
use ledgermind_local.Prelude.{
  ℕ, ◌≡◌, refl, ap, true, Option, none, some, arith, ==_refl, text_eq_refl, text_eq_sym,
}
use ledgermind_local.Prelude.Tables.{insert_unique, find-insert_unique}
use ledgermind_local.Rounds.{RawRoundRecord, Db}
use ledgermind_local.Rounds.Session.{ok}
use ledgermind_local.Rounds.Commands.{coalesce}
use ledgermind_local.Rounds.RawRounds.{
  round_has_id, payload_has_id, has_capture_identity, same_round, same_payload_id, join_payload,
  get, get_by_capture_identity, new_payload, insert_rows, insert,
}

abbrev pub metadata_row : RawRoundRecord → RawRoundRecord
metadata_row r = record r { payload_json = "{}" }

pub record Inserted (r : RawRoundRecord) (db db' : Db) : Type 0 where
  pub rounds : insert_unique same_round (metadata_row r) db.raw_rounds ≡ some db'.raw_rounds
  pub payloads : insert_unique same_payload_id (new_payload r) db.payloads ≡ some db'.payloads
  pub rest : db' ≡ record db { raw_rounds = db'.raw_rounds; payloads = db'.payloads }

module _ (r : RawRoundRecord) (db : Db) where
  insert-inv :
      (s : RawRoundRecord) (db' : Db)
      → insert r db ≡ ok (s, db')
      → (insert_rows r db ≡ some db') × (get r.raw_round_id db' ≡ some s)
  unfolding insert
  insert-inv s db' h = ground (arith, h)

  insert_rows-Inserted : (db' : Db) → insert_rows r db ≡ some db' → Inserted r db db'
  unfolding insert_rows
  insert_rows-Inserted db' h = record {
    rounds = ground (arith, h);
    payloads = ground (arith, h);
    rest = ground (arith, h);
  }

  coalesce_self : (o : Option ℕ) → coalesce o o ≡ o
  coalesce_self none = refl
  coalesce_self (some t) = refl

  joined-back : (db' : Db) → Inserted r db db' → join_payload db' (metadata_row r) ≡ r
  unfolding join_payload
  joined-back db' i =
      let found =
        find-insert_unique same_payload_id (new_payload r) db.payloads i.payloads
          (payload_has_id r.raw_round_id) (λ x k. ground arith) (==_refl r.raw_round_id) in
      ground (arith, found, coalesce_self r.retention_expires_at)

  -- A round is read back by its id as it was inserted, body and all.
  pub get-insert :
      (s : RawRoundRecord) (db' : Db)
      → insert r db ≡ ok (s, db')
      → (s ≡ r) × (get r.raw_round_id db' ≡ some r)
  unfolding get
  get-insert s db' h =
      let (made, read) = insert-inv s db' h in
      let i = insert_rows-Inserted db' made in
      let found =
        find-insert_unique same_round (metadata_row r) db.raw_rounds i.rounds
          (round_has_id r.raw_round_id) (λ x k. ground arith) (==_refl r.raw_round_id) in
      let whole : get r.raw_round_id db' ≡ some r = rw found (ap some (joined-back db' i)) in
      (cc (read, whole), whole)

  identity_collides :
      (x : RawRoundRecord)
      → has_capture_identity r.memory_space_id r.source_round_key r.capture_schema_version x ≡ true
      → same_round (metadata_row r) x ≡ true
  identity_collides x k = ground (
    arith,
    text_eq_sym r.memory_space_id x.memory_space_id,
    text_eq_sym r.source_round_key x.source_round_key,
    k,
  )

  -- And by the identity of its capture.
  pub get_by_capture_identity-insert :
      (s : RawRoundRecord) (db' : Db)
      → insert r db ≡ ok (s, db')
      → get_by_capture_identity r.memory_space_id r.source_round_key r.capture_schema_version db'
        ≡ some r
  unfolding get_by_capture_identity
  get_by_capture_identity-insert s db' h =
      let i = insert_rows-Inserted db' (insert-inv s db' h).0 in
      let found =
        find-insert_unique same_round (metadata_row r) db.raw_rounds i.rounds
          (has_capture_identity r.memory_space_id r.source_round_key r.capture_schema_version)
          identity_collides
          (rw (text_eq_refl r.memory_space_id, text_eq_refl r.source_round_key)
            (==_refl r.capture_schema_version)) in
      rw found (ap some (joined-back db' i))

  pub insert_rest :
      (s : RawRoundRecord) (db' : Db)
      → insert r db ≡ ok (s, db')
      → db' ≡ record db { raw_rounds = db'.raw_rounds; payloads = db'.payloads }
  insert_rest s db' h = (insert_rows-Inserted db' (insert-inv s db' h).0).rest
