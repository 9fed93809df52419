-- ===== src/Ingest/Repeat.antt =====
-- raw_rounds.py: repeated, conflicting, refused and accepted submissions of a round.
use Prim.Native.String.{len}
use ledgermind_local.Prelude.{
  ◌≡◌, ◌≢◌, ◌≤◌, refl, sym, ap, ◌∙◌, true, Option, none, some, [], List, ◌∷◌, String, inl, inr,
  arith, text_eq, text_eq_iff, Bool-cases,
}
use ledgermind_local.Rounds.{Db, RawRoundRecord}
use ledgermind_local.Rounds.Session.{Result, ok, err, Error, raw_round_conflict, index_error}
use ledgermind_local.Ingest.{
  Protocol, Handler, Inputs, RawRoundRequest, RawRoundIngestResult, validate, find_existing,
  same_ids, check_events, handle,
}
use ledgermind_local.Ingest.Rows.{ingest_rows, known_rows, handle-eq-settle}
use ledgermind_local.Ingest.Captured.{touched_db, handle_again, handle-IsCaptured, handle-ok}

check_events-none :
    (r : RawRoundRequest) (xs : List String)
    → check_events r xs ≡ none
    → (xs ≢ []) × (r.started_at ≤ r.completed_at)
unfolding check_events
check_events-none r [] e = absurd (cc e)
check_events-none r (x ∷ xs) e = (λ h. cc h, ground (arith, e))

validate-none :
    (p : Protocol) (h : Handler) (r : RawRoundRequest)
    → validate p h r ≡ none
    → (p.calculate_payload_digest r ≡ r.payload_digest)
      × (same_ids r.events r.source.event_ids ≡ true)
      × (check_events r r.events ≡ none)
      × (len (p.payload_json r) ≤ h.max_raw_round_bytes)
unfolding validate
validate-none p h r v =
    let same = text_eq_iff (p.calculate_payload_digest r) r.payload_digest in
    (same.0 (ground (arith, v)), ground (arith, v), ground (arith, v), ground (arith, v))

module _ (p : Protocol) (h : Handler) (i : Inputs) (r : RawRoundRequest) (db : Db) where
  -- After a submission that returned, the same request on the database that it left returns the same
  -- round, command and delivery status as a duplicate, and changes only the time of the round's
  -- delivery row.
  pub handle_idempotent :
      (i' : Inputs) (res : RawRoundIngestResult) (db' : Db)
      → handle p h i r db ≡ (ok res, db')
      → handle p h i' r db'
        ≡ (ok (record res { duplicate = true }), touched_db p r i'.delivery_at res.raw_round_id db')
  handle_idempotent i' res db' e =
      let (round, c, d, captured, result) = handle-IsCaptured p r h i db res db' e in
      let id_eq : round.raw_round_id ≡ res.raw_round_id = sym (ap (λ x. x.raw_round_id) result) in
      handle_again p r h i' db' round c d (handle-ok p r h i db res db' e).0 captured
      ∙ ap
          (λ (x : RawRoundIngestResult).
            let y : Result RawRoundIngestResult × Db = (
              ok (record x { duplicate = true }),
              touched_db p r i'.delivery_at x.raw_round_id db',
            ) in
            y)
          (sym result)

  -- A submission that raises, for whatever reason and at whatever step, leaves the database as it was.
  pub handle_error_unchanged : (e : Error) (db' : Db) → handle p h i r db ≡ (err e, db') → db' ≡ db
  handle_error_unchanged e db' k = go (validate p h r) refl (ingest_rows p h i r db) refl
    where
      go :
          (v : Option Error)
          → validate p h r ≡ v
          → (x : Result (RawRoundIngestResult × Db)) → ingest_rows p h i r db ≡ x
          → db' ≡ db
      go (some y) v x w = ap (λ y. y.1) (sym k ∙ rw v at (handle-eq-settle p h i r db))
      go none v (err y) w = ap (λ y. y.1) (sym k ∙ rw (v, w) at (handle-eq-settle p h i r db))
      go none v (ok y) w =
          absurd (cc (ap (λ y. y.0) (sym k ∙ rw (v, w) at (handle-eq-settle p h i r db))))

  -- A valid request with another digest than the round that is stored under its identity is refused as
  -- a conflict, and the database stays as it was.
  pub handle_conflict :
      (round : RawRoundRecord)
      → validate p h r ≡ none
      → find_existing p r db ≡ some round
      → round.payload_digest ≢ r.payload_digest
      → handle p h i r db ≡ (err raw_round_conflict, db)
  unfolding ingest_rows known_rows
  handle_conflict round valid stored differs =
      elim (Bool-cases (text_eq round.payload_digest r.payload_digest)) [
        | inl same ↦ absurd (differs ((text_eq_iff round.payload_digest r.payload_digest).0 same))
        | inr other ↦ handle-eq-settle p h i r db ∙ rw valid (rw (stored, ingest_rows) (rw other))
      ]

  -- A request whose submission returned has the digest of its contents, the events that its source
  -- names, at least one event, an end that is not before its start, and JSON within the limit.
  pub handle_checked :
      (res : RawRoundIngestResult) (db' : Db)
      → handle p h i r db ≡ (ok res, db')
      → (p.calculate_payload_digest r ≡ r.payload_digest)
        × (same_ids r.events r.source.event_ids ≡ true)
        × (r.events ≢ [])
        × (r.started_at ≤ r.completed_at)
        × (len (p.payload_json r) ≤ h.max_raw_round_bytes)
  handle_checked res db' e =
      let (valid, _) = handle-ok p r h i db res db' e in
      let (digest, ids, events, size) = validate-none p h r valid in
      let (nonempty, ordered) = check_events-none r r.events events in
      (digest, ids, nonempty, ordered, size)

  -- A request with the right digest and no events, in its round and in its source, raises an
  -- IndexError, which is none of the handler's own errors.
  pub handle_no_events :
      p.calculate_payload_digest r ≡ r.payload_digest
      → r.events ≡ []
      → r.source.event_ids ≡ []
      → handle p h i r db ≡ (err index_error, db)
  unfolding validate check_events
  handle_no_events digest none_here none_there =
      handle-eq-settle p h i r db
      ∙ ground (
        arith,
        (text_eq_iff (p.calculate_payload_digest r) r.payload_digest).1 digest,
        none_here,
        none_there,
      )
