-- ===== src/Tests/Journals.antt =====
-- A restore journal of maintenance/coordinated_restore.py, read from its JSON.
use ledgermind_local.Prelude.{
  true, false, Bool, none, some, [], ◌∷◌, String, ◌≡◌, refl, text_eq, if◌then◌else◌,
}
use ledgermind_local.Prelude.Text.{text_length, is_blank, is_space}
use ledgermind_local.Restore.Journal.{
  Paths, JournalRecord, to_payload, from_payload, read_fields, safe_exchange_path, journal_path,
  validate_journal_paths, read_journal_payload,
}
use ledgermind_local.Restore.Journal.Checks.{
  int, str, boolean, Payload, payload_get, all_in, is_in, safe_identifier, optional_identifier,
  has_char, has_dots,
}
use ledgermind_local.Restore.Journal.Kept.{IsLawful, IsSafe, read_journal_payload-to_payload}

-- One absolute path, and all others.
data Spot : Type 0 where
  directory elsewhere : Spot

abbrev show : Spot → String
show directory = "/d"
show elsewhere = "x"

abbrev is_directory : Spot → Bool
is_directory directory = true
is_directory elsewhere = false

abbrev spots : Paths
spots = record {
  PurePath = Spot;
  parse = λ s. if text_eq s "/d" then directory else elsewhere;
  show = show;
  expanduser = λ p. p;
  is_absolute = is_directory;
  parts = λ p. "exchange" ∷ "incoming" ∷ "core.db" ∷ [];
  resolve = λ p. p;
  join = λ p ps. directory;
  is_relative_to = λ p q. true;
  is_same = λ p q. true;
}

show-is_blank : (p : Spot) → is_directory p ≡ true → is_blank (show p) ≡ false
unfolding is_blank is_space
show-is_blank directory h = refl
show-is_blank elsewhere h = refl

parse-show :
    (p : Spot)
    → is_directory p ≡ true
    → (if text_eq (show p) "/d" then directory else elsewhere) ≡ p
unfolding text_eq
parse-show directory h = refl
parse-show elsewhere h = refl

lawful : IsLawful spots
lawful = record { show-IsText = show-is_blank; expanduser-parse-show = parse-show }

abbrev journal : JournalRecord spots
journal = record {
  restore_id = "a1";
  state = "prepared";
  backup_id = "b";
  rounds_rollback_path = directory;
  core_restore_token = "t";
  core_restore_transaction_id = none;
  core_relative_path = "exchange/incoming/core.db";
  core_sha256 = "sha256:0123456789abcdef0123456789abcdef0123456789abcdef0123456789abcdef";
  core_size_bytes = 12;
  core_schema_version = 3;
  rounds_snapshot_path = directory;
  core_exchange_path = directory;
  staging_dir = directory;
}

-- The version is True, which Python takes for 1.
abbrev payload : Payload
payload =
    ("journal_version", boolean true)
    ∷ ("restore_id", str "a1")
    ∷ ("state", str "prepared")
    ∷ ("backup_id", str "b")
    ∷ ("rounds_rollback_path", str "/d")
    ∷ ("core_restore_token", str "t")
    ∷ ("core_relative_path", str "exchange/incoming/core.db")
    ∷ ("core_sha256", str "sha256:0123456789abcdef0123456789abcdef0123456789abcdef0123456789abcdef")
    ∷ ("core_size_bytes", int 12)
    ∷ ("core_schema_version", int 3)
    ∷ ("rounds_snapshot_path", str "/d")
    ∷ ("core_exchange_path", str "/d")
    ∷ ("staging_dir", str "/d")
    ∷ []

accepted : read_journal_payload spots directory directory payload ≡ some journal
unfolding read_journal_payload validate_journal_paths from_payload all_in is_in text_eq payload_get
    read_fields safe_identifier is_blank is_space text_length has_char optional_identifier
    safe_exchange_path has_dots journal_path
accepted = refl

slashed : from_payload spots (("restore_id", str "a/1") ∷ payload) ≡ none
unfolding from_payload all_in is_in text_eq payload_get read_fields safe_identifier is_blank
    is_space text_length has_char
slashed = refl

read_journal_payload-to_payload_example :
    IsSafe spots journal
    × (validate_journal_paths spots directory directory journal ≡ true)
    × (read_journal_payload spots directory directory (to_payload spots journal) ≡ some journal)
read_journal_payload-to_payload_example =
    read_journal_payload-to_payload spots lawful directory directory payload journal accepted
