-- ===== src/Restore/Applied.antt =====
-- `apply_restore` of maintenance/coordinated_restore.py, whatever fails and wherever the process dies.
use ledgermind_local.Prelude.{
  ℕ, Bool, true, false, Option, none, some, ◌≡◌, refl, sym, ap, ◌⊎◌, inl, inr, if◌then◌else◌,
  Bool-cases, arith,
}
use ledgermind_local.Restore.{
  RestoreJournal, JournalState, other_error, BeginRestoreResult, CommitRestoreResult, begin_call,
  commit_call, Session, committed, prepared, rounds_applied_pending_commit, healthy_pending_commit,
  rolled_back, restore_inconsistent, M, ◌>>◌, pure, throw, modify, call, with_state,
  with_transaction, begin_pending, applied_pending_commit, commit_failed, manifest_mismatch,
}
use ledgermind_local.Restore.Rules.{Durable, durable, Ends-weaken}
use ledgermind_local.Restore.Steps.{
  restore_fault, write_journal, stop_core, verify_sqlite, copy_rounds, replace_from,
  replace_rounds_database, commit_of, says_committed, is_valid_commit, begin, log_call,
}
use ledgermind_local.Restore.Saga.{
  knows, compensate, is_manifest, begin_now, begin_by, begin_if_needed, begin_step, set_journal,
  advance,
}
use ledgermind_local.Restore.Safe.{
  file_knows, has_commit, Settled, Safe, Inv, EndsIn, Then, Inv-write, call-Ends,
  write_journal-Ends, stop_core-Ends, verify_sqlite-Ends, copy_rounds-Ends, >>-Ends,
}
use ledgermind_local.Restore.Compensated.{compensate-Ends}

module _ (original target : ℕ) where
  abbrev pub In : Durable → Type 0
  In v = Inv original target v

  -- The files that a restore needs are there, and the begin may have been sent.
  abbrev pub Files : Durable → Type 0
  Files v = (v.rollback_file ≡ some original) × (v.snapshot_file ≡ some target) × (v.began ≡ true)

  -- The journal on the disk knows the transaction.
  abbrev pub Begun : Durable → Type 0
  Begun v = Files v × (file_knows v.journal_file ≡ true)

  abbrev pub Held : Durable → Type 0
  Held v = Begun v × (knows v.journal.core_restore_transaction_id ≡ true)

  pub Held-In : (v : Durable) → Held v → In v
  Held-In v h = (inr (h.0.0.0, h.0.1), inr h.0.0.0, inl (h.1, h.0.0.2))

  abbrev pub Applied : Durable → Type 0
  Applied v = Held v × (v.rounds ≡ target)

  abbrev pub Done : Durable → Type 0
  Done v = Applied v × (has_commit v.core_calls ≡ true)

  replace_from-Ends :
      (o : Option ℕ) (s : Session)
      → o ≡ some target
      → Held (durable s)
      → EndsIn original target (Then original target Applied) (replace_from o s)
  replace_from-Ends none s e h = absurd (cc e)
  replace_from-Ends (some n) s e h =
      let same : n ≡ target = cc e in
      >>-Ends original target (Then original target Applied) (Then original target Applied)
        (verify_sqlite >> copy_rounds n) (λ u. verify_sqlite) s
        (>>-Ends original target (Then original target Held) (Then original target Applied)
          verify_sqlite (λ u. copy_rounds n) s
          (verify_sqlite-Ends original target Held s (Held-In (durable s) h) h)
          (λ u t i.
            copy_rounds-Ends original target Applied n t (Held-In (durable t) i)
              (Held-In (record (durable t) { rounds = n }) i) (i, same)))
        (λ u t i. verify_sqlite-Ends original target Applied t (Held-In (durable t) i.0) i)

  pub replace-Ends :
      (s : Session)
      → Held (durable s)
      → EndsIn original target (Then original target Applied) (replace_rounds_database s)
  unfolding replace_rounds_database
  replace-Ends s h = replace_from-Ends s.snapshot_file s h.0.0.1 h

  -- Before the begin of a journal without a transaction, and after the begin.
  abbrev Idle : Durable → Type 0
  Idle v = In v × Files v × Settled original target v

  -- The begin has answered, and the variable `journal` is still the old one.
  abbrev Answered : Durable → Type 0
  Answered v = In v × Begun v × Settled original target v

  Idle-Answered :
      (r : RestoreJournal) (v : Durable)
      → Idle v
      → knows r.core_restore_transaction_id ≡ true
      → Answered (record v { journal_file = some r })
  Idle-Answered r v h k = (Inv-write original target r v h.0 (inl k), (h.1, k), h.2)

  checked-Ends :
      (b : Bool) (r : RestoreJournal) (s : Session)
      → Answered (durable s)
      → knows r.core_restore_transaction_id ≡ true
      → EndsIn original target
          (Then original target Answered)
          ((if b then pure tt else compensate r manifest_mismatch true) s)
  checked-Ends true r s h k = h
  checked-Ends false r s h k =
      compensate-Ends original target r manifest_mismatch true (Then original target Answered) s h.0
        (inl k)

  begin_now-Ends :
      (answer : BeginRestoreResult) (j : RestoreJournal) (s : Session)
      → Idle (durable s)
      → EndsIn original target
          (λ r t. Answered (durable t) × (knows r.core_restore_transaction_id ≡ true))
          (begin_now answer j s)
  unfolding begin_now begin
  begin_now-Ends answer j s h =
      let Q : RestoreJournal → Session → Type 0 =
        λ r t. Answered (durable t) × (knows r.core_restore_transaction_id ≡ true) in
      let updated : BeginRestoreResult → RestoreJournal =
        λ r. with_transaction applied_pending_commit r.restore_transaction_id j in
      >>-Ends original target (Then original target Idle) Q
        (write_journal (with_state begin_pending j) >> begin answer)
        (λ r.
          write_journal (updated r)
          >> (if is_manifest j r then pure tt else compensate (updated r) manifest_mismatch true)
          >> pure (updated r))
        s
        (>>-Ends original target (Then original target Idle) (Then original target Idle)
          (write_journal (with_state begin_pending j)) (λ u. begin answer) s
          (write_journal-Ends original target Idle (with_state begin_pending j) s h.0 (inr h.2) (
            Inv-write original target (with_state begin_pending j) (durable s) h.0 (inr h.2),
            h.1,
            h.2,
          ))
          (λ u t i.
            >>-Ends original target (Then original target Idle) (Then original target Idle)
              (call other_error (log_call begin_call)) (λ u. pure answer) t
              (call-Ends original target Idle other_error (log_call begin_call) t i.0 i.0 i)
              (λ u t i. i)))
        (λ r t i.
          >>-Ends original target (Then original target Answered) Q
            (write_journal (updated r)
              >> (if is_manifest j r
                  then pure tt
                  else compensate (updated r) manifest_mismatch true))
            (λ u. pure (updated r)) t
            (>>-Ends original target (Then original target Answered) (Then original target Answered)
              (write_journal (updated r))
              (λ u.
                if is_manifest j r then pure tt else compensate (updated r) manifest_mismatch true)
              t
              (write_journal-Ends original target Answered (updated r) t i.0 (inl refl)
                (Idle-Answered (updated r) (durable t) i refl))
              (λ u t i. checked-Ends (is_manifest j r) (updated r) t i refl))
            (λ u t i. (i, refl)))

  begin_by-Ends :
      (o : Option ℕ) (answer : BeginRestoreResult) (j : RestoreJournal) (s : Session)
      → o ≡ j.core_restore_transaction_id
      → ((knows o ≡ true) × Held (durable s)) ⊎ ((knows o ≡ false) × Idle (durable s))
      → EndsIn original target
          (λ r t. In (durable t) × Begun (durable t) × (knows r.core_restore_transaction_id ≡ true))
          (begin_by o answer j s)
  begin_by-Ends none answer j s e (inl h) = absurd (cc (h.0))
  begin_by-Ends none answer j s e (inr h) =
      Ends-weaken In (Safe original target)
        (λ r t. Answered (durable t) × (knows r.core_restore_transaction_id ≡ true))
        (λ r t. In (durable t) × Begun (durable t) × (knows r.core_restore_transaction_id ≡ true))
        (begin_now answer j s) (begin_now-Ends answer j s h.1) (λ r t x. (x.0.0, x.0.1, x.1))
  begin_by-Ends (some k) answer j s e (inl h) = (Held-In (durable s) h.1, h.1.0, sym (ap knows e))
  begin_by-Ends (some k) answer j s e (inr h) = absurd (cc (h.0))

  -- What `apply_restore` needs: a fresh restore, or one whose transaction the disk knows.
  abbrev pub Choice : Durable → Type 0
  Choice v =
      ((knows v.journal.core_restore_transaction_id ≡ true)
        × (file_knows v.journal_file ≡ true)
        × (v.began ≡ true))
      ⊎ ((knows v.journal.core_restore_transaction_id ≡ false) × (v.rounds ≡ original))

  abbrev pub Start : Durable → Type 0
  Start v = (v.rollback_file ≡ some original) × (v.snapshot_file ≡ some target) × Choice v

  pub Start-In : (v : Durable) → Start v → In v
  Start-In v (r, f, inl k) = (inr (r, k.1), inr r, inl (k.0, k.2))
  Start-In v (r, f, inr k) = (inl (inl k.1), inr r, inr (inl k.1))

  ready :
      (v : Durable)
      → Start v
      → v.began ≡ true
      → ((knows v.journal.core_restore_transaction_id ≡ true) × Held v)
        ⊎ ((knows v.journal.core_restore_transaction_id ≡ false) × Idle v)
  ready v (r, f, inl k) b = inl (k.0, (((r, f, b), k.1), k.0))
  ready v (r, f, inr k) b = inr (k.0, (Start-In v (r, f, inr k), (r, f, b), inl k.1))

  set_began : (v : Durable) → Start v → Start (record v { began = true })
  set_began v (r, f, inl k) = (r, f, inl (k.0, k.1, refl))
  set_began v (r, f, inr k) = (r, f, inr k)

  begun-Ends :
      (answer : BeginRestoreResult) (s : Session)
      → Start (durable s)
      → s.began ≡ true
      → EndsIn original target (Then original target Held) (begin_step answer s)
  unfolding begin_if_needed
  begun-Ends answer s h b =
      >>-Ends original target
        (λ r t. In (durable t) × Begun (durable t) × (knows r.core_restore_transaction_id ≡ true))
        (Then original target Held) (λ t. begin_if_needed answer t.journal t) set_journal s
        (begin_by-Ends s.journal.core_restore_transaction_id answer s.journal s refl
          (ready (durable s) h b))
        (λ r t i. (i.1, i.2))

  -- `journal` and the file move on together.
  pub advance-Ends :
      (K : Durable → Type 0) (state : JournalState) (s : Session)
      → ((v : Durable) → K v → Held v)
      → K (durable s)
      → K (record (durable s) {
        journal = with_state state s.journal;
        journal_file = some (with_state state s.journal);
      })
      → EndsIn original target (Then original target K) (advance state s)
  unfolding write_journal
  advance-Ends K state s f h q =
      let held : Held (durable s) = f (durable s) h in
      write_journal-Ends original target K (with_state state s.journal)
        (record s { journal = with_state state s.journal })
        (Held-In (durable (record s { journal = with_state state s.journal })) held) (inl held.1) q

  pub >>-Then :
      {A B : Type 0} (K L : Durable → Type 0) (m : M A) (k : M B) (s : Session)
      → EndsIn original target (Then original target K) (m s)
      → ((t : Session) → K (durable t) → EndsIn original target (Then original target L) (k t))
      → EndsIn original target (Then original target L) ((m >> k) s)
  >>-Then K L m k s h f =
      >>-Ends original target (Then original target K) (Then original target L) m (λ u. k) s h
        (λ u t i. f t i)

  pub manifest-Ends :
      (K : Durable → Type 0) (b : Bool) (s : Session)
      → In (durable s)
      → K (durable s)
      → EndsIn original target
          (Then original target K)
          ((if b then pure tt else throw (restore_fault manifest_mismatch)) s)
  manifest-Ends K true s h k = k
  manifest-Ends K false s h k = h

  -- A commit that was sent, with an answer that its class has checked.
  abbrev pub Answer : CommitRestoreResult → Session → Type 0
  Answer r t = Done (durable t) × (r.state ≡ committed)

  says_committed_lem : (state : JournalState) → says_committed state ≡ true → state ≡ committed
  says_committed_lem committed e = refl
  says_committed_lem prepared e = absurd (cc e)
  says_committed_lem begin_pending e = absurd (cc e)
  says_committed_lem applied_pending_commit e = absurd (cc e)
  says_committed_lem rounds_applied_pending_commit e = absurd (cc e)
  says_committed_lem healthy_pending_commit e = absurd (cc e)
  says_committed_lem rolled_back e = absurd (cc e)
  says_committed_lem restore_inconsistent e = absurd (cc e)

  answered-Ends :
      (r : CommitRestoreResult) (s : Session)
      → Done (durable s)
      → EndsIn original target Answer
          ((if is_valid_commit r then pure r else throw (restore_fault commit_failed)) s)
  answered-Ends r s h = elim (Bool-cases (is_valid_commit r)) [
    | inl y ↦ rw y (h, says_committed_lem r.state (ground (arith, y)))
    | inr n ↦ rw n (Held-In (durable s) h.0.0)
  ]

  pub commit_of-Ends :
      (o : Option ℕ) (s : Session)
      → knows o ≡ true
      → Applied (durable s)
      → EndsIn original target Answer (commit_of o s)
  commit_of-Ends none s e h = absurd (cc e)
  commit_of-Ends (some k) s e h =
      >>-Ends original target (Then original target Done) Answer
        (call (restore_fault commit_failed) (log_call commit_call))
        (λ u t.
          (if is_valid_commit t.commit_answer
              then pure t.commit_answer
              else throw (restore_fault commit_failed))
            t)
        s
        (call-Ends original target Done (restore_fault commit_failed) (log_call commit_call) s
          (Held-In (durable s) h.0) (Held-In (durable (log_call commit_call s)) h.0) (h, refl))
        (λ u t i. answered-Ends t.commit_answer t i)

  pub Applied-Held : (v : Durable) → Applied v → Held v
  Applied-Held v h = h.0

  pub Applied-In : (v : Durable) → Applied v → In v
  Applied-In v h = Held-In v h.0

  pub began-Ends :
      (answer : BeginRestoreResult) (s : Session)
      → Start (durable s)
      → EndsIn original target (Then original target Held) (
          (stop_core
              >> modify (λ t. record t { stopped = true; began = true })
              >> begin_step answer)
            s)
  began-Ends answer s h =
      let Began : Durable → Type 0 = λ v. Start v × (v.began ≡ true) in
      >>-Then Began Held (stop_core >> modify (λ t. record t { stopped = true; began = true }))
        (begin_step answer) s
        (>>-Then Start Began stop_core (modify (λ t. record t { stopped = true; began = true })) s
          (stop_core-Ends original target Start s (Start-In (durable s) h) h)
          (λ t i. (set_began (durable t) i, refl)))
        (λ t i. begun-Ends answer t i.0 i.1)
