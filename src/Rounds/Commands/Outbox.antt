-- ===== src/Rounds/Commands/Outbox.antt =====
-- persistence/raw_round_repository.py: what each call does to the rows of the outbox, and an invariant.
use ledgermind_local.Prelude.{
  ℕ, ◌+◌, max, ◌≡◌, refl, Bool, true, false, Option, none, some, List, [], ◌∷◌, inl, inr, ◌⊎◌,
  arith, All, Bool-cases, ◌==◌, text_eq_sym,
}
use ledgermind_local.Prelude.Tables.{
  update_where, insert_unique, Distinct, Distinct-update_where, Distinct-insert_unique,
  All-update_where, All-insert_unique,
}
use ledgermind_local.Rounds.{
  CommandStatus, CoreCommandRecord, Db, pending, completed, rejected, failed,
}
use ledgermind_local.Rounds.Session.{Result, ok, err}
use ledgermind_local.Rounds.Commands.{
  NewCommand, Report, same_command, is_delivering, is_finish_status, lease, claim_test, finish,
  finish_test, pending_command, next_claimable, create_core_command, insert_command,
  claim_core_command, finish_core_command,
}

-- One call of the repository.
pub data Operation : Type 0 where
  create : (now : ℕ) → NewCommand → Operation
  claim : (worker lease_seconds now : ℕ) → Operation
  report : (command_id worker now : ℕ) → Report → Operation

abbrev pub kept {ℓ} : {A : Type ℓ} → Db → Result (A × Db) → Db
kept db (ok (a, db')) = db'
kept db (err e) = db

-- The database after the call; a call that raises is rolled back.
unfoldable pub apply : Operation → Db → Db
apply (create now n) db = kept db (create_core_command now n db)
apply (claim worker seconds now) db = (claim_core_command worker seconds now db).1
apply (report k worker now r) db = kept db (finish_core_command k worker now r db)

unfoldable pub apply_all : List Operation → Db → Db
apply_all [] db = db
apply_all (op ∷ ops) db = apply_all ops (apply op db)

-- What a call does to the rows of core_commands.
pub data Change (rows rows' : List CoreCommandRecord) : Type 0 where
  unchanged : rows' ≡ rows → Change rows rows'
  inserted :
      (now : ℕ) (n : NewCommand)
      → insert_unique same_command (pending_command now n) rows ≡ some rows'
      → Change rows rows'
  leased :
      (now k worker expires : ℕ)
      → rows' ≡ update_where (claim_test now k) (lease worker expires) rows
      → Change rows rows'
  finished :
      (k worker now : ℕ) (r : Report)
      → is_finish_status r.status ≡ true
      → rows' ≡ update_where (finish_test k worker) (finish now r) rows
      → Change rows rows'

module _ (now : ℕ) (n : NewCommand) (db : Db) where
  insert_cases :
      let rows = (kept db (insert_command now n db)).commands in
      (rows ≡ db.commands)
      ⊎ (insert_unique same_command (pending_command now n) db.commands ≡ some rows)
  unfolding insert_command
  insert_cases = ground arith

  create_cases :
      let rows = (kept db (create_core_command now n db)).commands in
      (rows ≡ db.commands)
      ⊎ (insert_unique same_command (pending_command now n) db.commands ≡ some rows)
  unfolding create_core_command
  create_cases = ground (arith, insert_cases)

claim_cases :
    (worker seconds now : ℕ) (db : Db)
    → Change db.commands (claim_core_command worker seconds now db).1.commands
unfolding claim_core_command
claim_cases worker seconds now db = go (next_claimable now db) refl
  where
    go :
        (row : Option CoreCommandRecord)
        → next_claimable now db ≡ row
        → Change db.commands (claim_core_command worker seconds now db).1.commands
    go none e = unchanged (ground (arith, e))
    go (some c) e = leased now c.command_id worker (now + max seconds 1) (ground (arith, e))

finish_cases :
    (k worker now : ℕ) (r : Report) (db : Db)
    → Change db.commands (kept db (finish_core_command k worker now r db)).commands
unfolding finish_core_command
finish_cases k worker now r db = elim (Bool-cases (is_finish_status r.status)) [
  | inl known ↦ finished k worker now r known (rw known)
  | inr other ↦ unchanged (rw other)
]

-- Every call changes the rows in one of the four ways.
pub apply-Change : (op : Operation) (db : Db) → Change db.commands (apply op db).commands
unfolding apply
apply-Change (create now n) db = elim (create_cases now n db) [
  | inl e ↦ unchanged e
  | inr e ↦ inserted now n e
]
apply-Change (claim worker seconds now) db = claim_cases worker seconds now db
apply-Change (report k worker now r) db = finish_cases k worker now r db

abbrev is_some {ℓ} : {A : Type ℓ} → Option A → Bool
is_some none = false
is_some (some a) = true

abbrev pub is_terminal : CommandStatus → Bool
is_terminal completed = true
is_terminal rejected = true
is_terminal failed = true
is_terminal _ = false

abbrev is_pending : CommandStatus → Bool
is_pending pending = true
is_pending _ = false

-- The columns of a row agree with its status.
pub record RowIsValid (c : CoreCommandRecord) : Type 0 where
  pub leased : is_some c.lease_expires_at ≡ is_delivering c.status
  pub claimed : is_some c.claimed_by ≡ is_delivering c.status
  pub completed : is_some c.completed_at ≡ is_terminal c.status
  pub attempted : (c.attempts == 0) ≡ is_pending c.status

pub record OutboxIsValid (rows : List CoreCommandRecord) : Type 0 where
  pub distinct : Distinct same_command rows
  pub valid : All RowIsValid rows

pending-RowIsValid : (now : ℕ) (n : NewCommand) → RowIsValid (pending_command now n)
unfolding pending_command
pending-RowIsValid now n = ground arith

lease-RowIsValid :
    (worker expires : ℕ) (c : CoreCommandRecord) → RowIsValid (lease worker expires c)
unfolding lease
lease-RowIsValid worker expires c = ground arith

finish-RowIsValid :
    (k worker now : ℕ) (r : Report) (c : CoreCommandRecord)
    → is_finish_status r.status ≡ true
    → finish_test k worker c ≡ true
    → RowIsValid c
    → RowIsValid (finish now r c)
unfolding finish
finish-RowIsValid k worker now r c known t v = ground arith

pub same_command_symmetric : (a b : CoreCommandRecord) → same_command a b ≡ same_command b a
same_command_symmetric a b = ground (
  arith,
  text_eq_sym a.memory_space_id b.memory_space_id,
  text_eq_sym a.idempotency_key b.idempotency_key,
)

pub Change-IsValid :
    {rows rows' : List CoreCommandRecord}
    → Change rows rows'
    → OutboxIsValid rows
    → OutboxIsValid rows'
Change-IsValid {rows} {rows'} (unchanged e) v = rw e v
Change-IsValid {rows} {rows'} (inserted now n e) v = record {
  distinct =
      Distinct-insert_unique same_command same_command_symmetric (pending_command now n) rows
        v.distinct e;
  valid =
      All-insert_unique RowIsValid same_command (pending_command now n) rows
        (pending-RowIsValid now n) v.valid e;
}
Change-IsValid {rows} {rows'} (leased now k worker expires e) v = rw e (record {
  distinct =
      Distinct-update_where same_command (claim_test now k) (lease worker expires)
        (λ a b. unfold lease in (refl, refl)) rows v.distinct;
  valid =
      All-update_where RowIsValid RowIsValid (claim_test now k) (lease worker expires) rows
        (λ c _ _. lease-RowIsValid worker expires c) (λ c _ w. w) v.valid;
})
Change-IsValid {rows} {rows'} (finished k worker now r known e) v = rw e (record {
  distinct =
      Distinct-update_where same_command (finish_test k worker) (finish now r)
        (λ a b. unfold finish in (refl, refl)) rows v.distinct;
  valid =
      All-update_where RowIsValid RowIsValid (finish_test k worker) (finish now r) rows
        (λ c t w. finish-RowIsValid k worker now r c known t w) (λ c _ w. w) v.valid;
})

-- From an outbox whose rows have distinct keys and columns that agree with their status, any calls
-- of the repository, failing or not, lead to such an outbox.
pub apply_all-IsValid :
    (ops : List Operation) (db : Db)
    → OutboxIsValid db.commands
    → OutboxIsValid (apply_all ops db).commands
unfolding apply_all
apply_all-IsValid [] db v = v
apply_all-IsValid (op ∷ ops) db v =
    apply_all-IsValid ops (apply op db) (Change-IsValid (apply-Change op db) v)
