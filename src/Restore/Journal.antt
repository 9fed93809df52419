-- ===== src/Restore/Journal.antt =====
-- The restore journal as JSON: `to_payload` and `from_payload` of RestoreJournal, the checks that they use,
-- and `_validate_journal_paths`, in maintenance/coordinated_restore.py. Every refusal is the error
-- restore_journal_corrupt, `none` here. What `pathlib` does is a parameter.
pub mod Checks
pub mod Kept
use Prim.Native.Char.{code}
use Prim.Native.String.{[] as str_nil, ◌∷◌ as ◌str_cons◌}
use text.Mathlib.Text.{starts_with}
use ledgermind_local.Prelude.{
  ℕ, zero, suc, Bool, true, false, not, ◌&&◌, ◌||◌, Option, none, some, List, [], ◌∷◌, String, leb,
  ◌==◌, text_eq, if◌then◌else◌,
}
use ledgermind_local.Prelude.Text.{is_blank, text_length}
use ledgermind_local.Restore.Journal.Checks.{
  Payload, Value, all_in, allowed_fields, boolean, compound, has_char, has_dots, int, is_dots,
  is_in, is_incoming, is_plain, is_version, natural, negative_int, null, optional_identifier,
  optional_text, payload_get, positive, real, required_text, safe_identifier, str, when, ◌>>=◌,
}

pub record Paths : Type 1 where
  pub PurePath : Type 0
  pub parse : String → PurePath
  pub show : PurePath → String
  pub expanduser : PurePath → PurePath
  pub is_absolute : PurePath → Bool
  pub parts : PurePath → List String
  pub resolve : PurePath → PurePath
  pub join : PurePath → List String → PurePath
  pub is_relative_to : PurePath → PurePath → Bool
  pub is_same : PurePath → PurePath → Bool

module _ (P : Paths) where
  pub record JournalRecord : Type 0 where
    pub restore_id : String
    pub state : String
    pub backup_id : String
    pub rounds_rollback_path : P.PurePath
    pub core_restore_token : String
    pub core_restore_transaction_id : Option String
    pub core_relative_path : String
    pub core_sha256 : String
    pub core_size_bytes : ℕ
    pub core_schema_version : ℕ
    pub rounds_snapshot_path : P.PurePath
    pub core_exchange_path : P.PurePath
    pub staging_dir : P.PurePath

  abbrev pub is_exchange_path : String → Bool
  is_exchange_path s =
      not (has_char 92 s)
      && not (starts_with s "/")
      && not (has_dots (P.parts (P.parse s)))
      && is_incoming (P.parts (P.parse s))

  -- `_safe_exchange_path`
  unfoldable pub safe_exchange_path : Value → Option String
  unfolding has_char has_dots is_blank
  safe_exchange_path v = do s ← required_text v; when (is_exchange_path s) s

  -- `_journal_path`
  unfoldable pub journal_path : Value → Option P.PurePath
  unfolding is_blank
  journal_path v = do
    s ← required_text v
    let path = P.expanduser (P.parse s)
    when (P.is_absolute path) path

  unfoldable pub to_payload : JournalRecord → Payload
  to_payload j =
      ("journal_version", int 1)
      ∷ ("restore_id", str j.restore_id)
      ∷ ("state", str j.state)
      ∷ ("backup_id", str j.backup_id)
      ∷ ("rounds_rollback_path", str (P.show j.rounds_rollback_path))
      ∷ ("core_restore_token", str j.core_restore_token)
      ∷ ("core_restore_transaction_id", optional_text j.core_restore_transaction_id)
      ∷ ("core_relative_path", str j.core_relative_path)
      ∷ ("core_sha256", str j.core_sha256)
      ∷ ("core_size_bytes", int j.core_size_bytes)
      ∷ ("core_schema_version", int j.core_schema_version)
      ∷ ("rounds_snapshot_path", str (P.show j.rounds_snapshot_path))
      ∷ ("core_exchange_path", str (P.show j.core_exchange_path))
      ∷ ("staging_dir", str (P.show j.staging_dir))
      ∷ []

  -- `from_payload`, after the tests of the fields' names and of the version.
  unfoldable pub read_fields : Payload → Option JournalRecord
  unfolding payload_get safe_identifier optional_identifier safe_exchange_path journal_path is_blank
  read_fields p = do
    restore_id ← safe_identifier (payload_get "restore_id" p)
    state ← required_text (payload_get "state" p)
    backup_id ← safe_identifier (payload_get "backup_id" p)
    token ← safe_identifier (payload_get "core_restore_token" p)
    transaction_id ← optional_identifier (payload_get "core_restore_transaction_id" p)
    relative_path ← safe_exchange_path (payload_get "core_relative_path" p)
    core_sha256 ← required_text (payload_get "core_sha256" p)
    size_bytes ← natural (payload_get "core_size_bytes" p)
    schema_version ← positive (payload_get "core_schema_version" p)
    rollback ← journal_path (payload_get "rounds_rollback_path" p)
    snapshot ← journal_path (payload_get "rounds_snapshot_path" p)
    exchange ← journal_path (payload_get "core_exchange_path" p)
    staging ← journal_path (payload_get "staging_dir" p)
    some (record {
      restore_id = restore_id;
      state = state;
      backup_id = backup_id;
      rounds_rollback_path = rollback;
      core_restore_token = token;
      core_restore_transaction_id = transaction_id;
      core_relative_path = relative_path;
      core_sha256 = core_sha256;
      core_size_bytes = size_bytes;
      core_schema_version = schema_version;
      rounds_snapshot_path = snapshot;
      core_exchange_path = exchange;
      staging_dir = staging;
    })

  unfoldable pub from_payload : Payload → Option JournalRecord
  unfolding all_in payload_get read_fields
  from_payload p =
      if all_in allowed_fields p && is_version (payload_get "journal_version" p)
      then read_fields p
      else none

  abbrev pub within : P.PurePath → P.PurePath → Bool
  within path root = P.is_relative_to (P.resolve path) root

  -- `_validate_journal_paths`, with the roots that the service resolves.
  unfoldable pub validate_journal_paths :
      (core_root rollback_root : P.PurePath) → JournalRecord → Bool
  unfolding text_length
  validate_journal_paths core_root rollback_root j =
      within j.rounds_rollback_path rollback_root
      && within j.staging_dir core_root
      && within j.rounds_snapshot_path core_root
      && within j.core_exchange_path (P.join core_root ("exchange" ∷ "incoming" ∷ []))
      && P.is_same (P.resolve (P.join core_root (P.parts (P.parse j.core_relative_path))))
          (P.resolve j.core_exchange_path)
      && starts_with j.core_sha256 "sha256:"
      && text_length j.core_sha256 == 71

  -- `_read_journal`, after the file is loaded as a JSON object.
  unfoldable pub read_journal_payload :
      (core_root rollback_root : P.PurePath) → Payload → Option JournalRecord
  unfolding from_payload validate_journal_paths
  read_journal_payload core_root rollback_root p = do
    j ← from_payload p
    when (validate_journal_paths core_root rollback_root j) j
