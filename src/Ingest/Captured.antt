-- ===== src/Ingest/Captured.antt =====
-- raw_rounds.py: what a captured round is, and the submission of one.
use text.Mathlib.TextPositions.{starts_with-append}
use ledgermind_local.Prelude.{
  ℕ, ◌≡◌, refl, sym, ap, ◌∙◌, Bool, true, false, none, some, inl, inr, arith, text_eq, text_eq_iff,
  Option-cases, Bool-cases,
}
use ledgermind_local.Prelude.Text.{is_blank}
use ledgermind_local.Prelude.Tables.{update_where}
use ledgermind_local.Rounds.{Db, RawRoundRecord, CoreCommandRecord, CoreRawRoundDeliveryRecord}
use ledgermind_local.Rounds.Session.{ok, settle-ok, >>=-eq-ok}
use ledgermind_local.Rounds.RawRounds.{
  join_payload, get_by_capture_identity, ensure_memory_space, insert,
}
use ledgermind_local.Rounds.RawRounds.Inserting.{get-insert, get_by_capture_identity-insert}
use ledgermind_local.Rounds.Commands.{
  same_payload, create_core_command, get_core_command_by_idempotency,
}
use ledgermind_local.Rounds.Commands.Creating.{Holds, create-Holds, create_again}
use ledgermind_local.Rounds.Deliveries.{
  create_core_raw_round_delivery, get_core_raw_round_delivery, has_round, touch,
}
use ledgermind_local.Rounds.Deliveries.Queueing.{create_delivery_lem, create_delivery_again}
use ledgermind_local.Ingest.{
  Protocol, Handler, Inputs, RawRoundRequest, RawRoundIngestResult, validate, raw_round_command,
  raw_round_delivery, ingest_result, new_round, find_existing, handle,
}
use ledgermind_local.Ingest.Rows.{queue_rows, new_rows, known_rows, ingest_rows, handle-eq-settle}

module _ (p : Protocol) (r : RawRoundRequest) where
  -- The round is stored, its command stands in the outbox, and its delivery is tracked.
  pub record IsCaptured (db : Db) (round : RawRoundRecord) (command : CoreCommandRecord)
      (delivery : CoreRawRoundDeliveryRecord) : Type 0 where
    pub stored : find_existing p r db ≡ some round
    pub digest : round.payload_digest ≡ r.payload_digest
    pub queued : Holds (raw_round_command p command.command_id r round.raw_round_id) db command
    pub tracked : get_core_raw_round_delivery round.raw_round_id db ≡ some delivery

  -- The same with the result that names the three.
  abbrev pub IsCapture : Db → RawRoundIngestResult → Type 0
  IsCapture db res =
      (round : RawRoundRecord) × (c : CoreCommandRecord) × (d : CoreRawRoundDeliveryRecord)
      × (IsCaptured db round c d)
      × (res ≡ ingest_result p round.raw_round_id res.duplicate c d)

  -- What a repeated submission changes: the time of the delivery row.
  abbrev pub touched_db : ℕ → ℕ → Db → Db
  touched_db now round_id db = record db {
    deliveries = update_where (has_round round_id) (touch now) db.deliveries;
  }

  Holds-renamed :
      (j k round_id : ℕ) (db : Db) (c : CoreCommandRecord)
      → Holds (raw_round_command p j r round_id) db c
      → Holds (raw_round_command p k r round_id) db c
  unfolding raw_round_command same_payload
  Holds-renamed j k round_id db c h = record { found = h.found; same = h.same }

  command_again :
      (now k round_id : ℕ) (db : Db) (c : CoreCommandRecord)
      → Holds (raw_round_command p c.command_id r round_id) db c
      → create_core_command now (raw_round_command p k r round_id) db ≡ ok (c, db)
  unfolding raw_round_command is_blank
  command_again now k round_id db c h =
      create_again now (raw_round_command p k r round_id) db c refl
        (starts_with-append "sha256:" (p.sha256_hexdigest (p.command_payload round_id)))
        (Holds-renamed c.command_id k round_id db c h)

  queue_again :
      (i : Inputs) (db : Db) (round : RawRoundRecord) (c : CoreCommandRecord)
      (d : CoreRawRoundDeliveryRecord)
      → IsCaptured db round c d
      → queue_rows p i r round.raw_round_id true db
        ≡ ok (
          ingest_result p round.raw_round_id true c (touch i.delivery_at d),
          touched_db i.delivery_at round.raw_round_id db,
        )
  unfolding queue_rows
  queue_again i db round c d captured =
      rw (command_again i.command_at i.new_command_id round.raw_round_id db c captured.queued) (
        rw (
          create_delivery_again i.delivery_at
            (raw_round_delivery p r round.raw_round_id c.command_id) db d captured.tracked))

  -- A captured round that is submitted again, valid as before, comes back as a duplicate with its
  -- own id, command and delivery status; of the database only the time of its delivery row changes.
  pub handle_again :
      (h : Handler) (i : Inputs) (db : Db) (round : RawRoundRecord) (c : CoreCommandRecord)
      (d : CoreRawRoundDeliveryRecord)
      → validate p h r ≡ none
      → IsCaptured db round c d
      → handle p h i r db ≡ (
        ok (ingest_result p round.raw_round_id true c d),
        touched_db i.delivery_at round.raw_round_id db,
      )
  unfolding ingest_rows known_rows
  handle_again h i db round c d valid captured =
      let same : text_eq round.payload_digest r.payload_digest ≡ true =
        (text_eq_iff round.payload_digest r.payload_digest).1 captured.digest in
      handle-eq-settle p h i r db
      ∙ rw valid
          (rw (captured.stored, ingest_rows) (rw same (rw (queue_again i db round c d captured))))

  find_existing_of :
      (db db' : Db)
      → db'.raw_rounds ≡ db.raw_rounds
      → db'.payloads ≡ db.payloads
      → find_existing p r db' ≡ find_existing p r db
  unfolding find_existing get_by_capture_identity join_payload
  find_existing_of db db' e f =
      λ i. find_existing p r (record db { raw_rounds = e i; payloads = f i })

  Holds-of_db :
      (k round_id : ℕ) (c : CoreCommandRecord) (db db' : Db)
      → db'.commands ≡ db.commands
      → Holds (raw_round_command p k r round_id) db c
      → Holds (raw_round_command p k r round_id) db' c
  unfolding get_core_command_by_idempotency
  Holds-of_db k round_id c db db' e h = record { found = rw e h.found; same = h.same }

  module _ (i : Inputs) (duplicate : Bool) where
    queue-parts :
        (db : Db) (k : ℕ) (res : RawRoundIngestResult) (db' : Db)
        → queue_rows p i r k duplicate db ≡ ok (res, db')
        → (c : CoreCommandRecord) × (d : CoreRawRoundDeliveryRecord) × (db1 : Db)
          × (create_core_command i.command_at (raw_round_command p i.new_command_id r k) db
              ≡ ok (c, db1))
          × (create_core_raw_round_delivery i.delivery_at
                (raw_round_delivery p r k c.command_id)
                db1
              ≡ ok (d, db'))
          × (res ≡ ingest_result p k duplicate c d)
    unfolding queue_rows
    queue-parts db k res db' h =
        let n = raw_round_command p i.new_command_id r k in
        let ((c, db1), made, h1) = >>=-eq-ok (create_core_command i.command_at n db) _ h in
        let ((d, db2), tracked, h2) =
          >>=-eq-ok
            (create_core_raw_round_delivery i.delivery_at (raw_round_delivery p r k c.command_id)
              db1)
            _ h1 in
        (c, d, db1, made, cc (tracked, h2), cc h2)

    queue-IsCaptured :
        (db : Db) (round : RawRoundRecord) (res : RawRoundIngestResult) (db' : Db)
        → find_existing p r db ≡ some round
        → round.payload_digest ≡ r.payload_digest
        → queue_rows p i r round.raw_round_id duplicate db ≡ ok (res, db')
        → (c : CoreCommandRecord) × (d : CoreRawRoundDeliveryRecord) × (IsCaptured db' round c d)
          × (res ≡ ingest_result p round.raw_round_id duplicate c d)
    queue-IsCaptured db round res db' stored digest h =
        let k = round.raw_round_id in
        let (c, d, db1, made, tracked, result) = queue-parts db k res db' h in
        let n = raw_round_command p i.new_command_id r k in
        let (holds, rest1) = create-Holds i.command_at n db c db1 made in
        let (found, rest2) =
          create_delivery_lem i.delivery_at (raw_round_delivery p r k c.command_id) db1 d db'
            tracked in
        let rounds : db'.raw_rounds ≡ db.raw_rounds =
          cc (ap (λ x. x.raw_rounds) rest1, ap (λ x. x.raw_rounds) rest2) in
        let payloads : db'.payloads ≡ db.payloads =
          cc (ap (λ x. x.payloads) rest1, ap (λ x. x.payloads) rest2) in
        (
          c,
          d,
          record {
            stored = find_existing_of db db' rounds payloads ∙ stored;
            digest = digest;
            queued =
                Holds-renamed i.new_command_id c.command_id k db' c
                  (Holds-of_db i.new_command_id k c db1 db' (ap (λ x. x.commands) rest2) holds);
            tracked = found;
          },
          result,
        )

  known-IsCaptured :
      (i : Inputs) (db : Db) (round : RawRoundRecord) (res : RawRoundIngestResult) (db' : Db)
      → find_existing p r db ≡ some round
      → known_rows p i r round db ≡ ok (res, db')
      → IsCapture db' res
  unfolding known_rows
  known-IsCaptured i db round res db' stored h =
      elim (Bool-cases (text_eq round.payload_digest r.payload_digest)) [
        | inl same ↦
            let digest = (text_eq_iff round.payload_digest r.payload_digest).0 same in
            let (c, d, captured, result) =
              queue-IsCaptured i true db round res db' stored digest (rw same at h) in
            (
              round,
              c,
              d,
              captured,
              result
                  ∙ ap (λ b. ingest_result p round.raw_round_id b c d)
                      (sym (ap (λ x. x.duplicate) result)),
            )
        | inr other ↦ absurd (ground (arith, other, h))
      ]

  new-IsCaptured :
      (h : Handler) (i : Inputs) (db : Db) (res : RawRoundIngestResult) (db' : Db)
      → new_rows p h i r db ≡ ok (res, db')
      → IsCapture db' res
  unfolding new_rows
  new-IsCaptured h i db res db' e =
      let start = ensure_memory_space i.space_at r.memory_space_id db in
      let ((stored, db1), inserted, rest) = >>=-eq-ok (insert (new_round p h i r) start) _ e in
      let (back, _) = get-insert (new_round p h i r) start stored db1 inserted in
      let found : find_existing p r db1 ≡ some stored =
        unfold find_existing new_round in
        get_by_capture_identity-insert (new_round p h i r) start stored db1 inserted
        ∙ ap some (sym back) in
      let digest : stored.payload_digest ≡ r.payload_digest =
        unfold new_round in ap (λ x. x.payload_digest) back in
      let (c, d, captured, result) =
        queue-IsCaptured i false db1 stored res db' found digest rest in
      (
        stored,
        c,
        d,
        captured,
        result
            ∙ ap (λ b. ingest_result p stored.raw_round_id b c d)
                (sym (ap (λ x. x.duplicate) result)),
      )

  pub handle-ok :
      (h : Handler) (i : Inputs) (db : Db) (res : RawRoundIngestResult) (db' : Db)
      → handle p h i r db ≡ (ok res, db')
      → (validate p h r ≡ none) × (ingest_rows p h i r db ≡ ok (res, db'))
  handle-ok h i db res db' e = elim (Option-cases (validate p h r)) [
    | inl valid ↦ (
      valid,
      settle-ok db (ingest_rows p h i r db) (sym (rw valid at (handle-eq-settle p h i r db)) ∙ e),
    )
    | inr (x, bad) ↦ absurd (cc (ap (λ y. y.0) (sym (rw bad at (handle-eq-settle p h i r db)) ∙ e)))
  ]

  -- A submission that returns leaves the round captured: stored under its identity with its digest,
  -- its delivery command in the outbox, its delivery tracked, and the result names all three.
  pub handle-IsCaptured :
      (h : Handler) (i : Inputs) (db : Db) (res : RawRoundIngestResult) (db' : Db)
      → handle p h i r db ≡ (ok res, db')
      → IsCapture db' res
  unfolding ingest_rows
  handle-IsCaptured h i db res db' e = elim (Option-cases (find_existing p r db)) [
    | inl fresh ↦
        new-IsCaptured h i db res db' (rw (fresh, ingest_rows) at (handle-ok h i db res db' e).1)
    | inr (round, stored) ↦
        known-IsCaptured i db round res db' stored
          (rw (stored, ingest_rows) at (handle-ok h i db res db' e).1)
  ]
