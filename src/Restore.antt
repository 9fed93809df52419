-- ===== src/Restore.antt =====
-- maintenance/coordinated_restore.py: the journaled restore of Local's rounds database and the Core's.
-- What a database holds is a number. Every call that leaves the process (a file's write, a start or
-- stop of the Core, a request to its gateway) meets the next of the fates that a run is given: it
-- succeeds, it raises before or after its effect, or the process dies before or after it. The paths of
-- a journal are left out: the files that they name are fields of the state.
pub mod Steps
pub mod Saga
pub mod Journal
pub mod Rules
pub mod Safe
pub mod Compensated
pub mod Applied
pub mod Ended
pub mod Recovered
pub mod Succeeded
use ledgermind_local.Prelude.{ℕ, Bool, Option, some, List, [], ◌∷◌}

pub data JournalState : Type 0 where
  prepared begin_pending applied_pending_commit rounds_applied_pending_commit : JournalState
  healthy_pending_commit committed rolled_back restore_inconsistent : JournalState

pub record RestoreJournal : Type 0 where
  pub restore_id : ℕ
  pub state : JournalState
  pub backup_id : ℕ
  pub core_restore_transaction_id : Option ℕ
  pub core_relative_path : ℕ
  pub core_sha256 : ℕ
  pub core_size_bytes : ℕ
  pub core_schema_version : ℕ

-- `with_state` without a transaction, and with one.
abbrev pub with_state : JournalState → RestoreJournal → RestoreJournal
with_state state j = record j { state = state }

abbrev pub with_transaction : JournalState → ℕ → RestoreJournal → RestoreJournal
with_transaction state k j = record j { state = state; core_restore_transaction_id = some k }

pub data Code : Type 0 where
  inconsistent_code manifest_mismatch rounds_failed rounds_corrupt health_failed : Code
  commit_failed rollback_failed apply_failed id_mismatch journal_corrupt prepare_failed : Code

-- A CoordinatedRestoreError with its flags, or any other exception.
pub data Fault : Type 0 where
  restore_error : Code → (inconsistent compensated : Bool) → Fault
  other_error : Fault

pub data Fate : Type 0 where
  succeeds fails_before fails_after dies_before dies_after : Fate

pub data CoreCall : Type 0 where
  begin_call commit_call rollback_call : CoreCall

-- What `begin_restore` answers; the Core's begin is idempotent for a token.
pub record BeginRestoreResult : Type 0 where
  pub restore_transaction_id : ℕ
  pub relative_path : ℕ
  pub sha256 : ℕ
  pub size_bytes : ℕ
  pub schema_version : ℕ

-- What `commit_restore` answers, before its class has checked it. A state that is none of the words of
-- JournalState is refused as any state but `committed` is.
pub record CommitRestoreResult : Type 0 where
  pub restore_transaction_id : ℕ
  pub is_committed : Bool
  pub state : JournalState

pub record CoordinatedRestoreResult : Type 0 where
  pub restore_id : ℕ
  pub state : JournalState
  pub core_restore_transaction_id : Option ℕ

-- The durable state, the Core's calls that took effect (the last one first), what the Core answers to a
-- commit, the service's cache, and the local variables of `apply_restore`.
pub record Session : Type 0 where
  pub fates : List Fate
  pub rounds : ℕ
  pub rollback_file : Option ℕ
  pub snapshot_file : Option ℕ
  pub journal_file : Option RestoreJournal
  pub core_running : Bool
  pub core_calls : List CoreCall
  pub commit_answer : CommitRestoreResult
  pub completed_results : List CoordinatedRestoreResult
  pub journal : RestoreJournal
  pub stopped : Bool
  pub began : Bool

pub data Outcome (A : Type 0) : Type 0 where
  returned : A → Outcome A
  raised : Fault → Outcome A
  died : Outcome A

abbrev pub M : Type 0 → Type 0
M A = Session → Outcome A × Session

abbrev pub follow : {A B : Type 0} → Outcome A × Session → (A → M B) → Outcome B × Session
follow (returned a, s) next = next a s
follow (raised e, s) next = (raised e, s)
follow (died, s) next = (died, s)

infixl 5 ◌>>=◌ ◌>>◌
abbrev pub ◌>>=◌ : {A B : Type 0} → M A → (A → M B) → M B
◌>>=◌ m next s = follow (m s) next

abbrev pub ◌>>◌ : {A B : Type 0} → M A → M B → M B
m >> k = m >>= λ _. k

abbrev pub pure : {A : Type 0} → A → M A
pure a s = (returned a, s)

abbrev pub throw : {A : Type 0} → Fault → M A
throw e s = (raised e, s)

abbrev pub modify : (Session → Session) → M (Unit {0})
modify f s = (returned tt, f s)

abbrev pub handle_with : {A : Type 0} → Outcome A × Session → (Fault → M A) → Outcome A × Session
handle_with (returned a, s) handler = (returned a, s)
handle_with (raised e, s) handler = handler e s
handle_with (died, s) handler = (died, s)

-- `try: ... except`; nothing runs in a process that has died.
abbrev pub try_with : {A : Type 0} → M A → (Fault → M A) → M A
try_with m handler s = handle_with (m s) handler

abbrev pub meet : Fate → Fault → (Session → Session) → M (Unit {0})
meet succeeds e f s = (returned tt, f s)
meet fails_before e f s = (raised e, s)
meet fails_after e f s = (raised e, f s)
meet dies_before e f s = (died, s)
meet dies_after e f s = (died, f s)

abbrev pub next_fate : List Fate → Fate
next_fate [] = succeeds
next_fate (x ∷ xs) = x

abbrev pub later_fates : List Fate → List Fate
later_fates [] = []
later_fates (x ∷ xs) = xs

-- A call that leaves the process, with its effect and the exception that its failure becomes.
unfoldable pub call : Fault → (Session → Session) → M (Unit {0})
call e f s = meet (next_fate s.fates) e f (record s { fates = later_fates s.fates })
