-- ===== src/Ingest/Rows.antt =====
-- raw_rounds.py: the ingest as a function on the rows, without its transaction.
use ledgermind_local.Prelude.{
  ◌≡◌, refl, Bool, true, false, Option, none, some, inl, inr, if◌then◌else◌, text_eq, ℕ,
  Option-cases,
}
use ledgermind_local.Rounds.{Db, RawRoundRecord}
use ledgermind_local.Rounds.Session.{
  Result, ok, err, raw_round_conflict, ◌>>=◌, enter, transaction, settle, Settles, Settles-raise,
  Settles-commit, Settles-run, Settles-if,
}
use ledgermind_local.Rounds.RawRounds.{ensure_memory_space, insert}
use ledgermind_local.Rounds.Commands.{create_core_command}
use ledgermind_local.Rounds.Deliveries.{create_core_raw_round_delivery}
use ledgermind_local.Ingest.{
  Protocol, Handler, Inputs, RawRoundRequest, RawRoundIngestResult, validate, raw_round_command,
  raw_round_delivery, ingest_result, queue_core_delivery, new_round, find_existing, ingest_known,
  ingest_new, ingest, handle,
}

module _ (p : Protocol) where
  unfoldable pub queue_rows :
      Inputs → RawRoundRequest → ℕ → Bool → Db → Result (RawRoundIngestResult × Db)
  queue_rows i r raw_round_id duplicate db = do
    (command, db') ←
        create_core_command i.command_at (raw_round_command p i.new_command_id r raw_round_id) db
    (delivery, db'') ←
        create_core_raw_round_delivery i.delivery_at
          (raw_round_delivery p r raw_round_id command.command_id) db'
    ok (ingest_result p raw_round_id duplicate command delivery, db'')

  unfoldable pub new_rows :
      Handler → Inputs → RawRoundRequest → Db → Result (RawRoundIngestResult × Db)
  new_rows h i r db = do
    (stored, db') ← insert (new_round p h i r) (ensure_memory_space i.space_at r.memory_space_id db)
    queue_rows i r stored.raw_round_id false db'

  unfoldable pub known_rows :
      Inputs → RawRoundRequest → RawRoundRecord → Db → Result (RawRoundIngestResult × Db)
  known_rows i r existing db =
      if text_eq existing.payload_digest r.payload_digest
      then queue_rows i r existing.raw_round_id true db
      else err raw_round_conflict

  unfoldable pub ingest_rows :
      Handler → Inputs → RawRoundRequest → Db → Result (RawRoundIngestResult × Db)
  ingest_rows h i r db = elim (find_existing p r db) [
    | none ↦ new_rows h i r db
    | some e ↦ known_rows i r e db
  ]

  Settles-queue :
      (i : Inputs) (r : RawRoundRequest) (k : ℕ) (d : Bool)
      → Settles (queue_core_delivery p i r k d) (queue_rows i r k d)
  unfolding queue_core_delivery queue_rows
  Settles-queue i r k d = Settles-run _ _ (λ c. Settles-run _ _ (λ x. Settles-commit _) _) _

  Settles-new :
      (h : Handler) (i : Inputs) (r : RawRoundRequest)
      → Settles (ingest_new p h i r) (new_rows h i r)
  unfolding ingest_new new_rows
  Settles-new h i r =
      Settles-run _ _ (λ _. Settles-run _ _ (λ c. Settles-queue i r c.raw_round_id false) _) _

  Settles-known :
      (i : Inputs) (r : RawRoundRequest) (e : RawRoundRecord)
      → Settles (ingest_known p i r e) (known_rows i r e)
  unfolding ingest_known known_rows
  Settles-known i r e =
      Settles-if (text_eq e.payload_digest r.payload_digest) (Settles-queue i r e.raw_round_id true)
        (Settles-raise raw_round_conflict)

  Settles-found :
      (h : Handler) (i : Inputs) (r : RawRoundRequest) (o : Option RawRoundRecord)
      → Settles
          (elim o [ none ↦ ingest_new p h i r | some e ↦ ingest_known p i r e ])
          (λ db. elim o [ none ↦ new_rows h i r db | some e ↦ known_rows i r e db ])
  Settles-found h i r none = Settles-new h i r
  Settles-found h i r (some e) = Settles-known i r e

  Settles-ingest :
      (h : Handler) (i : Inputs) (r : RawRoundRequest)
      → Settles (ingest p h i r) (ingest_rows h i r)
  unfolding ingest ingest_rows
  Settles-ingest h i r = Settles-run _ _ (Settles-found h i r) _

  -- `handle` makes its checks and then stores all rows of the capture, or none: where it raises, the
  -- database is as it was.
  pub handle-eq-settle :
      (h : Handler) (i : Inputs) (r : RawRoundRequest) (db : Db)
      → handle p h i r db
        ≡ elim (validate p h r) [ some e ↦ (err e, db) | none ↦ settle db (ingest_rows h i r db) ]
  unfolding handle transaction enter
  handle-eq-settle h i r db = elim (Option-cases (validate p h r)) [
    | inl e ↦ rw (e, handle) ((Settles-ingest h i r).at (enter db) refl)
    | inr (x, e) ↦ rw (e, handle)
  ]
