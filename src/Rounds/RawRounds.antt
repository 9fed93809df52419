-- ===== src/Rounds/RawRounds.antt =====
-- persistence/raw_round_repository.py: the tables memory_spaces, raw_rounds and raw_round_payloads.
pub mod Inserting
use Prim.Native.String.{len}
use text.Mathlib.Text.{starts_with}
use ledgermind_local.Prelude.{
  ℕ, ◌+◌, max, Bool, true, false, not, ◌&&◌, ◌||◌, Option, none, some, List, [], ◌∷◌, ◌++◌, String,
  ltb, leb, ◌==◌, if◌then◌else◌, text_eq, take,
}
use ledgermind_local.Prelude.Text.{text_length}
use ledgermind_local.Prelude.Tables.{
  find, any, select, update_where, rowcount, insert_unique, order_by,
}
use ledgermind_local.Rounds.{MemorySpaceRow, RawRoundRecord, PayloadRow, Db}
use ledgermind_local.Rounds.Session.{Result, ok, err, integrity_error, runtime_error}
use ledgermind_local.Rounds.Commands.{coalesce, is_past}

abbrev pub round_has_id : ℕ → RawRoundRecord → Bool
round_has_id k r = r.raw_round_id == k

abbrev pub payload_has_id : ℕ → PayloadRow → Bool
payload_has_id k p = p.raw_round_id == k

abbrev pub has_capture_identity : String → String → ℕ → RawRoundRecord → Bool
has_capture_identity space key version r =
    text_eq r.memory_space_id space
    && text_eq r.source_round_key key
    && (r.capture_schema_version == version)

-- PRIMARY KEY raw_round_id, UNIQUE (memory_space_id, source_round_key, capture_schema_version)
abbrev pub same_round : RawRoundRecord → RawRoundRecord → Bool
same_round a b =
    (a.raw_round_id == b.raw_round_id)
    || has_capture_identity b.memory_space_id b.source_round_key b.capture_schema_version a

abbrev pub same_payload_id : PayloadRow → PayloadRow → Bool
same_payload_id a b = a.raw_round_id == b.raw_round_id

-- The LEFT JOIN with raw_round_payloads and its two COALESCE.
unfoldable pub join_payload : Db → RawRoundRecord → RawRoundRecord
join_payload db r = elim (find (payload_has_id r.raw_round_id) db.payloads) [
  | none ↦ r
  | some p ↦ record r {
    payload_json = p.payload_json;
    retention_expires_at = coalesce p.retention_expires_at r.retention_expires_at;
  }
]

abbrev joined : Db → Option RawRoundRecord → Option RawRoundRecord
joined db none = none
joined db (some r) = some (join_payload db r)

unfoldable pub get_by_capture_identity : String → String → ℕ → Db → Option RawRoundRecord
get_by_capture_identity space key version db =
    joined db (find (has_capture_identity space key version) db.raw_rounds)

unfoldable pub get : ℕ → Db → Option RawRoundRecord
get k db = joined db (find (round_has_id k) db.raw_rounds)

-- CHECK (length(memory_space_id) BETWEEN 1 AND 200), on an id without a NUL, where SQLite stops counting.
unfoldable pub space_fits : String → Bool
unfolding text_length
space_fits space = leb 1 (text_length space) && leb (text_length space) 200

-- INSERT OR IGNORE INTO memory_spaces: a row that is there, or fails the check, is not inserted.
unfoldable pub ensure_memory_space : ℕ → String → Db → Db
unfolding space_fits
ensure_memory_space now space db =
    if any (λ (m : MemorySpaceRow). text_eq m.memory_space_id space) db.memory_spaces
      || not (space_fits space)
    then db
    else record db {
      memory_spaces =
          db.memory_spaces
          ++ (record {
            memory_space_id = space;
            source_client = "ledgermind-integrations";
            display_name = none;
            created_at = now;
            updated_at = now;
          })
            ∷ [];
    }

abbrev pub new_payload : RawRoundRecord → PayloadRow
new_payload r = record {
  raw_round_id = r.raw_round_id;
  payload_json = r.payload_json;
  payload_bytes = len r.payload_json;
  retention_expires_at = r.retention_expires_at;
  deleted_at = none;
}

-- The foreign key of raw_rounds and the checks of its version and its digest.
abbrev pub round_checks : RawRoundRecord → Db → Bool
round_checks r db =
    any (λ (m : MemorySpaceRow). text_eq m.memory_space_id r.memory_space_id) db.memory_spaces
    && leb 1 r.capture_schema_version
    && starts_with r.payload_digest "sha256:"

-- The two INSERTs: the body of the round goes into raw_round_payloads alone.
unfoldable pub insert_rows : RawRoundRecord → Db → Option Db
insert_rows r db =
    if round_checks r db
    then elim (insert_unique same_round (record r { payload_json = "{}" }) db.raw_rounds) [
      | none ↦ none
      | some rounds ↦ elim (insert_unique same_payload_id (new_payload r) db.payloads) [
        | none ↦ none
        | some payloads ↦ some (record db { raw_rounds = rounds; payloads = payloads })
      ]
    ]
    else none

-- `insert`; the record's `received_at` is the clock's reading.
unfoldable pub insert : RawRoundRecord → Db → Result (RawRoundRecord × Db)
insert r db = elim (insert_rows r db) [
  | none ↦ err integrity_error
  | some db' ↦ elim (get r.raw_round_id db') [ none ↦ err runtime_error | some s ↦ ok (s, db') ]
]

abbrev pub is_kept : PayloadRow → Bool
is_kept p = elim p.deleted_at [ none ↦ true | some t ↦ false ]

abbrev pub clear : ℕ → PayloadRow → PayloadRow
clear now p = record p { payload_json = "{}"; payload_bytes = 0; deleted_at = some now }

abbrev pub clear_test : ℕ → PayloadRow → Bool
clear_test k p = payload_has_id k p && is_kept p

unfoldable pub clear_raw_round_payload : (now k : ℕ) → Db → Bool × Db
clear_raw_round_payload now k db = (
  rowcount (clear_test k) db.payloads == 1,
  record db { payloads = update_where (clear_test k) (clear now) db.payloads },
)

abbrev pub is_expired : ℕ → PayloadRow → Bool
is_expired cutoff p = is_kept p && is_past p.retention_expires_at cutoff

-- ORDER BY retention_expires_at ASC; SQL orders a NULL first, and the WHERE clause has dropped it.
unfoldable pub expires_before : PayloadRow → PayloadRow → Bool
expires_before a b = elim a.retention_expires_at [
  | none ↦ elim b.retention_expires_at [ none ↦ false | some t ↦ true ]
  | some s ↦ elim b.retention_expires_at [ none ↦ false | some t ↦ ltb s t ]
]

unfoldable pub purge_rows : (cutoff : ℕ) → List PayloadRow → List PayloadRow → ℕ × List PayloadRow
purge_rows cutoff [] payloads = (0, payloads)
purge_rows cutoff (row ∷ rows) payloads =
    let test = clear_test row.raw_round_id in
    let (deleted, rest) = purge_rows cutoff rows (update_where test (clear cutoff) payloads) in
    (rowcount test payloads + deleted, rest)

unfoldable pub purge_expired : (cutoff limit : ℕ) → Db → ℕ × Db
unfolding purge_rows
purge_expired cutoff limit db =
    let rows =
      take (max limit 1) (order_by expires_before (select (is_expired cutoff) db.payloads)) in
    let (deleted, payloads) = purge_rows cutoff rows db.payloads in
    (deleted, record db { payloads = payloads })
