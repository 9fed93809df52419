-- ===== src/Rounds/Commands.antt =====
-- persistence/raw_round_repository.py: the durable outbox core_commands, with create, claim and finish.
pub mod Claims
pub mod Due
pub mod Creating
pub mod Finishing
pub mod Outbox
pub mod History
use text.Mathlib.Text.{starts_with}
use ledgermind_local.Prelude.{
  ℕ, ◌+◌, max, Bool, true, false, not, ◌&&◌, ◌||◌, Option, none, some, [], ◌∷◌, String, ltb, leb,
  ◌==◌, if◌then◌else◌, text_eq,
}
use ledgermind_local.Prelude.Text.{is_blank}
use ledgermind_local.Prelude.Tables.{
  find, select, update_where, rowcount, insert_unique, order_by, fetchone,
}
use ledgermind_local.Rounds.{
  CommandStatus, CoreCommandRecord, Db, pending, delivering, retry_wait, completed, rejected,
  failed,
}
use ledgermind_local.Rounds.Session.{Result, ok, err, value_error, integrity_error, runtime_error}

-- WHERE memory_space_id = ? AND idempotency_key = ?
abbrev pub has_idempotency : String → String → CoreCommandRecord → Bool
has_idempotency space key c = text_eq c.memory_space_id space && text_eq c.idempotency_key key

abbrev pub has_command_id : ℕ → CoreCommandRecord → Bool
has_command_id k c = c.command_id == k

-- PRIMARY KEY command_id, UNIQUE(memory_space_id, idempotency_key)
abbrev pub same_command : CoreCommandRecord → CoreCommandRecord → Bool
same_command a b =
    (a.command_id == b.command_id)
    || (text_eq a.memory_space_id b.memory_space_id && text_eq a.idempotency_key b.idempotency_key)

unfoldable pub get_core_command_by_idempotency : String → String → Db → Option CoreCommandRecord
get_core_command_by_idempotency space key db = find (has_idempotency space key) db.commands

unfoldable pub get_core_command : ℕ → Db → Option CoreCommandRecord
get_core_command k db = find (has_command_id k) db.commands

-- What a caller hands to `create_core_command`.
pub record NewCommand : Type 0 where
  pub command_id : ℕ
  pub command_type : String
  pub memory_space_id : String
  pub idempotency_key : String
  pub payload_json : String
  pub payload_digest : String
  pub available_at : Option ℕ

unfoldable pub same_payload : NewCommand → CoreCommandRecord → Bool
same_payload n c =
    text_eq c.command_type n.command_type
    && text_eq c.payload_json n.payload_json
    && text_eq c.payload_digest n.payload_digest

unfoldable pub pending_command : ℕ → NewCommand → CoreCommandRecord
pending_command now n = record {
  command_id = n.command_id;
  command_type = n.command_type;
  memory_space_id = n.memory_space_id;
  idempotency_key = n.idempotency_key;
  payload_json = n.payload_json;
  payload_digest = n.payload_digest;
  status = pending;
  attempts = 0;
  available_at = elim n.available_at [ none ↦ now | some t ↦ t ];
  lease_expires_at = none;
  claimed_by = none;
  completed_at = none;
  result_json = none;
  last_error_code = none;
  last_error_detail = none;
  created_at = now;
}

-- The INSERT and the SELECT that reads the row back.
unfoldable pub insert_command : ℕ → NewCommand → Db → Result (CoreCommandRecord × Db)
insert_command now n db = elim (insert_unique same_command (pending_command now n) db.commands) [
  | none ↦ err integrity_error
  | some commands ↦
      let db' = record db { commands = commands } in
      elim (get_core_command n.command_id db') [ none ↦ err runtime_error | some c ↦ ok (c, db') ]
]

unfoldable pub create_core_command : ℕ → NewCommand → Db → Result (CoreCommandRecord × Db)
create_core_command now n db =
    if is_blank n.command_type
    then err value_error
    else if not (starts_with n.payload_digest "sha256:")
    then err value_error
    else elim (get_core_command_by_idempotency n.memory_space_id n.idempotency_key db) [
      | some existing ↦ if same_payload n existing then ok (existing, db) else err value_error
      | none ↦ insert_command now n db
    ]

abbrev pub is_waiting : CommandStatus → Bool
is_waiting pending = true
is_waiting retry_wait = true
is_waiting _ = false

abbrev pub is_delivering : CommandStatus → Bool
is_delivering delivering = true
is_delivering _ = false

abbrev pub is_past : Option ℕ → ℕ → Bool
is_past none now = false
is_past (some t) now = leb t now

-- The WHERE clause of the claim: due for delivery, or under a lease that has run out.
unfoldable pub is_claimable : ℕ → CoreCommandRecord → Bool
is_claimable now c =
    (is_waiting c.status && leb c.available_at now)
    || (is_delivering c.status && is_past c.lease_expires_at now)

-- ORDER BY available_at, command_id
unfoldable pub claim_before : CoreCommandRecord → CoreCommandRecord → Bool
claim_before a b =
    ltb a.available_at b.available_at
    || ((a.available_at == b.available_at) && ltb a.command_id b.command_id)

unfoldable pub next_claimable : ℕ → Db → Option CoreCommandRecord
next_claimable now db = fetchone (order_by claim_before (select (is_claimable now) db.commands))

unfoldable pub lease : (worker expires : ℕ) → CoreCommandRecord → CoreCommandRecord
lease worker expires c = record c {
  status = delivering;
  attempts = c.attempts + 1;
  lease_expires_at = some expires;
  claimed_by = some worker;
  completed_at = none;
}

abbrev pub claim_test : ℕ → ℕ → CoreCommandRecord → Bool
claim_test now k c = has_command_id k c && is_claimable now c

unfoldable pub claim_core_command :
    (worker lease_seconds now : ℕ) → Db → Option CoreCommandRecord × Db
unfolding lease
claim_core_command worker lease_seconds now db = elim (next_claimable now db) [
  | none ↦ (none, db)
  | some row ↦
      let test = claim_test now row.command_id in
      let expires = now + max lease_seconds 1 in
      let db' = record db { commands = update_where test (lease worker expires) db.commands } in
      if rowcount test db.commands == 1
      then (get_core_command row.command_id db', db')
      else (none, db')
]

abbrev pub is_finish_status : CommandStatus → Bool
is_finish_status completed = true
is_finish_status retry_wait = true
is_finish_status rejected = true
is_finish_status failed = true
is_finish_status _ = false

abbrev pub is_retry : CommandStatus → Bool
is_retry retry_wait = true
is_retry _ = false

abbrev pub coalesce {ℓ} : {A : Type ℓ} → Option A → Option A → Option A
coalesce none b = b
coalesce (some a) b = some a

abbrev pub is_claimed_by : ℕ → Option ℕ → Bool
is_claimed_by worker none = false
is_claimed_by worker (some w) = w == worker

-- What a worker reports of a command that it delivered.
pub record Report : Type 0 where
  pub status : CommandStatus
  pub result_json : Option String
  pub error_code : Option String
  pub error_detail : Option String
  pub retry_delay_seconds : ℕ

unfoldable pub finish : ℕ → Report → CoreCommandRecord → CoreCommandRecord
finish now r c = record c {
  status = r.status;
  available_at = if is_retry r.status then now + r.retry_delay_seconds else c.available_at;
  lease_expires_at = none;
  claimed_by = none;
  completed_at = if is_retry r.status then none else some now;
  result_json = coalesce r.result_json c.result_json;
  last_error_code = r.error_code;
  last_error_detail = r.error_detail;
}

-- WHERE command_id = ? AND status = 'delivering' AND claimed_by = ?
abbrev pub finish_test : ℕ → ℕ → CoreCommandRecord → Bool
finish_test k worker c =
    has_command_id k c && is_delivering c.status && is_claimed_by worker c.claimed_by

unfoldable pub finish_core_command : (k worker now : ℕ) → Report → Db → Result (Bool × Db)
unfolding finish
finish_core_command k worker now r db =
    if is_finish_status r.status
    then ok (
      rowcount (finish_test k worker) db.commands == 1,
      record db { commands = update_where (finish_test k worker) (finish now r) db.commands },
    )
    else err value_error
