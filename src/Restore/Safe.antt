-- ===== src/Restore/Safe.antt =====
-- Safety of maintenance/coordinated_restore.py: where a run of the saga may end.
use ledgermind_local.Prelude.{
  ℕ, Bool, true, false, Option, none, some, List, [], ◌∷◌, ◌≡◌, ◌⊎◌, inl, inr, if◌then◌else◌,
}
use ledgermind_local.Restore.{
  RestoreJournal, Fault, other_error, CoreCall, begin_call, commit_call, rollback_call, Session,
  Outcome, M, ◌>>=◌, call, later_fates, health_failed, rounds_corrupt, rounds_failed,
}
use ledgermind_local.Restore.Rules.{Durable, durable, Ends, Ends-follow, Ends-call}
use ledgermind_local.Restore.Steps.{
  restore_fault, write_journal, stop_core, start_core, require_healthy, verify_sqlite, copy_rounds,
}
use ledgermind_local.Restore.Saga.{knows}

abbrev pub is_commit : CoreCall → Bool
is_commit begin_call = false
is_commit commit_call = true
is_commit rollback_call = false

abbrev pub has_commit : List CoreCall → Bool
has_commit [] = false
has_commit (c ∷ cs) = let rest = has_commit cs in if is_commit c then true else rest

abbrev pub file_knows : Option RestoreJournal → Bool
file_knows none = false
file_knows (some j) = knows j.core_restore_transaction_id

module _ (original target : ℕ) where
  -- The rounds are those from before, or those of a restore that the Core was told to commit.
  abbrev pub Settled : Durable → Type 0
  Settled v = (v.rounds ≡ original) ⊎ ((v.rounds ≡ target) × (has_commit v.core_calls ≡ true))

  -- The rounds from before are kept, and the journal on the disk knows the Core's transaction.
  abbrev pub Recoverable : Durable → Type 0
  Recoverable v = (v.rollback_file ≡ some original) × (file_knows v.journal_file ≡ true)

  abbrev pub Safe : Durable → Type 0
  Safe v = Settled v ⊎ Recoverable v

  abbrev pub JournalOk : RestoreJournal → Durable → Type 0
  JournalOk j v = (knows j.core_restore_transaction_id ≡ true) ⊎ Settled v

  -- The variable `journal` knows the transaction and `began` is set, or there is nothing to undo.
  abbrev pub HeldOk : Durable → Type 0
  HeldOk v = ((knows v.journal.core_restore_transaction_id ≡ true) × (v.began ≡ true)) ⊎ Settled v

  abbrev pub RollbackOk : Durable → Type 0
  RollbackOk v = (v.rollback_file ≡ none) ⊎ (v.rollback_file ≡ some original)

  abbrev pub Inv : Durable → Type 0
  Inv v = Safe v × RollbackOk v × HeldOk v

  pub Inv-Safe : (v : Durable) → Inv v → Safe v
  Inv-Safe v h = h.0

  abbrev pub EndsIn : {A : Type 0} → (A → Session → Type 0) → Outcome A × Session → Type 0
  EndsIn Q x = Ends Inv Safe Q x

  pub Inv-write :
      (j : RestoreJournal) (v : Durable)
      → Inv v
      → JournalOk j v
      → Inv (record v { journal_file = some j })
  Inv-write j v (inl s, r, k) h = (inl s, r, k)
  Inv-write j v (inr p, r, k) (inl h) = (inr (p.0, h), r, k)
  Inv-write j v (inr p, r, k) (inr s) = (inl s, r, k)

  -- The conditions on a result that speak of the durable part only.
  abbrev pub Then : {A : Type 0} → (Durable → Type 0) → A → Session → Type 0
  Then K a t = K (durable t)

  pub call-Ends :
      (K : Durable → Type 0) (e : Fault) (f : Session → Session) (s : Session)
      → let t : Session = record s { fates = later_fates s.fates } in
        Inv (durable s) → Inv (durable (f t)) → K (durable (f t)) → EndsIn (Then K) (call e f s)
  call-Ends K e f s h i q = Ends-call Inv Safe Inv-Safe (Then K) e f s h i q

  pub write_journal-Ends :
      (K : Durable → Type 0) (j : RestoreJournal) (s : Session)
      → Inv (durable s)
      → JournalOk j (durable s)
      → K (record (durable s) { journal_file = some j })
      → EndsIn (Then K) (write_journal j s)
  unfolding write_journal
  write_journal-Ends K j s h k q =
      call-Ends K other_error (λ t. record t { journal_file = some j }) s h
        (Inv-write j (durable s) h k) q

  pub stop_core-Ends :
      (K : Durable → Type 0) (s : Session)
      → Inv (durable s)
      → K (durable s)
      → EndsIn (Then K) (stop_core s)
  unfolding stop_core
  stop_core-Ends K s h q = call-Ends K other_error (λ t. record t { core_running = false }) s h h q

  pub start_core-Ends :
      (K : Durable → Type 0) (s : Session)
      → Inv (durable s)
      → K (durable s)
      → EndsIn (Then K) (start_core s)
  unfolding start_core
  start_core-Ends K s h q = call-Ends K other_error (λ t. record t { core_running = true }) s h h q

  pub require_healthy-Ends :
      (K : Durable → Type 0) (s : Session)
      → Inv (durable s)
      → K (durable s)
      → EndsIn (Then K) (require_healthy s)
  unfolding require_healthy
  require_healthy-Ends K s h q = call-Ends K (restore_fault health_failed) (λ t. t) s h h q

  pub verify_sqlite-Ends :
      (K : Durable → Type 0) (s : Session)
      → Inv (durable s)
      → K (durable s)
      → EndsIn (Then K) (verify_sqlite s)
  unfolding verify_sqlite
  verify_sqlite-Ends K s h q = call-Ends K (restore_fault rounds_corrupt) (λ t. t) s h h q

  pub >>-Ends :
      {A B : Type 0} (R : A → Session → Type 0) (Q : B → Session → Type 0) (m : M A) (k : A → M B)
      (s : Session)
      → EndsIn R (m s)
      → ((a : A) (t : Session) → R a t → EndsIn Q (k a t))
      → EndsIn Q ((m >>= k) s)
  >>-Ends R Q m k s h f = Ends-follow Inv Safe R Q (m s) k h f

  -- A copy over the rounds database, where both contents satisfy what an exit asks.
  pub copy_rounds-Ends :
      (K : Durable → Type 0) (n : ℕ) (s : Session)
      → Inv (durable s)
      → Inv (record (durable s) { rounds = n })
      → K (record (durable s) { rounds = n })
      → EndsIn (Then K) (copy_rounds n s)
  unfolding copy_rounds
  copy_rounds-Ends K n s h i q =
      >>-Ends (Then λ v. Inv v × K v) (Then K)
        (call (restore_fault rounds_failed) (λ t. record t { rounds = n }))
        (λ u. call (restore_fault rounds_failed) (λ t. t)) s
        (call-Ends (λ v. Inv v × K v) (restore_fault rounds_failed) (λ t. record t { rounds = n }) s
          h i (i, q))
        (λ u t x. call-Ends K (restore_fault rounds_failed) (λ y. y) t x.0 x.0 x.1)
