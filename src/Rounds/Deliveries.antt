-- ===== src/Rounds/Deliveries.antt =====
-- persistence/raw_round_repository.py: the delivery state of each raw round, the table
-- raw_round_core_deliveries.
pub mod Queueing
use ledgermind_local.Prelude.{ℕ, Bool, ◌||◌, Option, none, some, String, ◌==◌, if◌then◌else◌}
use ledgermind_local.Prelude.Tables.{find, any, update_where, rowcount, insert_unique}
use ledgermind_local.Rounds.{
  CoreRawRoundDeliveryRecord, RawRoundRecord, TransportStatus, Db, queued,
}
use ledgermind_local.Rounds.Session.{Result, ok, err, integrity_error, runtime_error}
use ledgermind_local.Rounds.Commands.{coalesce}

abbrev pub has_round : ℕ → CoreRawRoundDeliveryRecord → Bool
has_round k d = d.raw_round_id == k

-- PRIMARY KEY raw_round_id, UNIQUE command_id
abbrev pub same_delivery : CoreRawRoundDeliveryRecord → CoreRawRoundDeliveryRecord → Bool
same_delivery a b = (a.raw_round_id == b.raw_round_id) || (a.command_id == b.command_id)

unfoldable pub get_core_raw_round_delivery : ℕ → Db → Option CoreRawRoundDeliveryRecord
get_core_raw_round_delivery k db = find (has_round k) db.deliveries

pub record NewDelivery : Type 0 where
  pub raw_round_id : ℕ
  pub memory_space_id : String
  pub command_id : ℕ
  pub idempotency_key : String

unfoldable pub queued_delivery : ℕ → NewDelivery → CoreRawRoundDeliveryRecord
queued_delivery now n = record {
  raw_round_id = n.raw_round_id;
  memory_space_id = n.memory_space_id;
  command_id = n.command_id;
  idempotency_key = n.idempotency_key;
  transport_status = queued;
  core_raw_round_id = none;
  last_error_code = none;
  created_at = now;
  updated_at = now;
}

abbrev pub touch : ℕ → CoreRawRoundDeliveryRecord → CoreRawRoundDeliveryRecord
touch now d = record d { updated_at = now }

-- INSERT ... ON CONFLICT(raw_round_id) DO UPDATE SET updated_at, with the table's other constraints:
-- the foreign key to raw_rounds and the unique command_id.
unfoldable pub upsert_delivery : ℕ → NewDelivery → Db → Option Db
upsert_delivery now n db =
    if any (has_round n.raw_round_id) db.deliveries
    then some (record db {
      deliveries = update_where (has_round n.raw_round_id) (touch now) db.deliveries;
    })
    else if any (λ (r : RawRoundRecord). r.raw_round_id == n.raw_round_id) db.raw_rounds
    then elim (insert_unique same_delivery (queued_delivery now n) db.deliveries) [
      | none ↦ none
      | some deliveries ↦ some (record db { deliveries = deliveries })
    ]
    else none

unfoldable pub create_core_raw_round_delivery :
    ℕ → NewDelivery → Db → Result (CoreRawRoundDeliveryRecord × Db)
create_core_raw_round_delivery now n db = elim (upsert_delivery now n db) [
  | none ↦ err integrity_error
  | some db' ↦ elim (get_core_raw_round_delivery n.raw_round_id db') [
    | none ↦ err runtime_error
    | some d ↦ ok (d, db')
  ]
]

abbrev pub report_delivery :
    ℕ
    → TransportStatus
    → Option String
    → Option String
    → CoreRawRoundDeliveryRecord
    → CoreRawRoundDeliveryRecord
report_delivery now status core_id code d = record d {
  transport_status = status;
  core_raw_round_id = coalesce core_id d.core_raw_round_id;
  last_error_code = code;
  updated_at = now;
}

-- The check of `transport_status` is the type's.
unfoldable pub update_core_raw_round_delivery :
    (now k : ℕ) → TransportStatus → Option String → Option String → Db → Bool × Db
update_core_raw_round_delivery now k status core_id code db = (
  rowcount (has_round k) db.deliveries == 1,
  record db {
    deliveries = update_where (has_round k) (report_delivery now status core_id code) db.deliveries;
  },
)
