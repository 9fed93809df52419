-- ===== src/Restore/Compensated.antt =====
-- The compensation of maintenance/coordinated_restore.py, from any state that a failure may leave.
use ledgermind_local.Prelude.{
  ℕ, Bool, true, false, ◌&&◌, Option, none, some, ◌≡◌, refl, sym, ◌∙◌, ap, ◌⊎◌, inl, inr,
  if◌then◌else◌, List,
}
use ledgermind_local.Restore.{
  RestoreJournal, Code, restore_error, other_error, CoreCall, rollback_call, Session, M, ◌>>=◌,
  ◌>>◌, pure, throw, modify, try_with, call, with_state, follow, begin_pending, rolled_back,
  restore_inconsistent,
}
use ledgermind_local.Restore.Rules.{
  Durable, durable, Ends, Ends-follow, Ends-catch, Ends-call, Ends-weaken,
}
use ledgermind_local.Restore.Steps.{
  write_journal, stop_core, start_core, require_healthy, verify_sqlite, copy_rounds, restore_from,
  restore_rounds_database, rollback_of, rollback_core, mark_inconsistent, cleanup, log_call,
}
use ledgermind_local.Restore.Saga.{
  attempt, inconsistent, compensate_unknown, finish_compensation, compensate_known, compensate_by,
  compensate, knows,
}
use ledgermind_local.Restore.Safe.{
  Settled, Safe, JournalOk, RollbackOk, Inv, EndsIn, Then, Inv-write, call-Ends, write_journal-Ends,
  stop_core-Ends, start_core-Ends, require_healthy-Ends, verify_sqlite-Ends, copy_rounds-Ends,
  >>-Ends,
}

module _ (original target : ℕ) where
  abbrev In : Durable → Type 0
  In v = Inv original target v

  -- The rounds from before are back.
  abbrev Back : Durable → Type 0
  Back v = In v × (v.rounds ≡ original)

  Inv-back : (v : Durable) → RollbackOk original target v → In (record v { rounds = original })
  Inv-back v r = (inl (inl refl), r, inr (inl refl))

  restore_from-Ends :
      (o : Option ℕ) (s : Session)
      → (o ≡ none) ⊎ (o ≡ some original)
      → In (durable s)
      → EndsIn original target (Then original target Back) (restore_from o s)
  restore_from-Ends none s r h = h
  restore_from-Ends (some n) s (inl e) h = absurd (cc e)
  restore_from-Ends (some n) s (inr e) h =
      let same : n ≡ original = cc e in
      >>-Ends original target (Then original target In) (Then original target Back) verify_sqlite
        (λ u. copy_rounds n) s (verify_sqlite-Ends original target In s h h)
        (λ u t i.
          copy_rounds-Ends original target Back n t i (inl (inl same), i.1, inr (inl same))
            ((inl (inl same), i.1, inr (inl same)), same))

  attempt-Ends :
      (L : Bool → Durable → Type 0) (m : M (Unit {0})) (s : Session)
      → EndsIn original target (Then original target (L true)) (m s)
      → ((v : Durable) → In v → L false v)
      → EndsIn original target (λ b t. L b (durable t)) (attempt m s)
  unfolding attempt
  attempt-Ends L m s h f =
      Ends-catch In (Safe original target) In (λ b t. L b (durable t))
        (follow (m s) (λ u. pure true)) (λ e. pure false)
        (Ends-follow In (Safe original target) (Then original target (L true))
          (λ b t. L b (durable t)) (m s) (λ u. pure true) h (λ a t x. x))
        (λ e t i. f (durable t) i)

  restored-Ends :
      (s : Session)
      → In (durable s)
      → EndsIn original target
          (Then original target Back)
          ((restore_rounds_database >> verify_sqlite) s)
  unfolding restore_rounds_database
  restored-Ends s h =
      >>-Ends original target (Then original target Back) (Then original target Back)
        restore_rounds_database (λ u. verify_sqlite) s (restore_from-Ends s.rollback_file s h.1 h)
        (λ u t i. verify_sqlite-Ends original target Back t i.0 i)

  rollback_of-Ends :
      (o : Option ℕ) (s : Session)
      → In (durable s)
      → EndsIn original target (Then original target In) (rollback_of o s)
  rollback_of-Ends none s h = h
  rollback_of-Ends (some k) s h =
      call-Ends original target In other_error (log_call rollback_call) s h h h

  rollback_core-Ends :
      (j : RestoreJournal) (s : Session)
      → In (durable s)
      → EndsIn original target (Then original target In) (rollback_core j s)
  unfolding rollback_core
  rollback_core-Ends j s h = rollback_of-Ends j.core_restore_transaction_id s h

  started-Ends :
      (K : Durable → Type 0) (s : Session)
      → In (durable s)
      → K (durable s)
      → ((v : Durable) → K v → In v)
      → EndsIn original target (Then original target K) ((start_core >> require_healthy) s)
  started-Ends K s h k f =
      >>-Ends original target (Then original target K) (Then original target K) start_core
        (λ u. require_healthy) s (start_core-Ends original target K s h k)
        (λ u t i. require_healthy-Ends original target K t (f (durable t) i) i)

  -- A settled state stays settled while the files are removed.
  pub cleanup-Ends :
      (n : ℕ) (cs : List CoreCall) (s : Session)
      → RollbackOk original target (durable s)
      → Settled original target (durable s)
      → s.rounds ≡ n
      → s.core_calls ≡ cs
      → EndsIn original target
          (Then original target λ v. In v × (v.rounds ≡ n) × (v.core_calls ≡ cs))
          (cleanup s)
  unfolding cleanup
  cleanup-Ends n cs s r h e c =
      let K : Durable → Type 0 = λ v.
        (v.rollback_file ≡ none)
        × Settled original target v
        × (v.rounds ≡ n)
        × (v.core_calls ≡ cs) in
      let L : Durable → Type 0 = λ v. In v × (v.rounds ≡ n) × (v.core_calls ≡ cs) in
      >>-Ends original target (Then original target K) (Then original target L)
        (call other_error (λ t. record t { rollback_file = none })
          >> call other_error (λ t. t)
          >> modify (λ t. record t { snapshot_file = none }))
        (λ u. call other_error (λ t. record t { journal_file = none })) s
        (>>-Ends original target (Then original target K) (Then original target K)
          (call other_error (λ t. record t { rollback_file = none }) >> call other_error (λ t. t))
          (λ u. modify (λ t. record t { snapshot_file = none })) s
          (>>-Ends original target (Then original target K) (Then original target K)
            (call other_error (λ t. record t { rollback_file = none }))
            (λ u. call other_error (λ t. t)) s
            (call-Ends original target K other_error (λ t. record t { rollback_file = none }) s
              (inl h, r, inr h) (inl h, inl refl, inr h) (refl, h, e, c))
            (λ u t i.
              call-Ends original target K other_error (λ y. y) t (inl i.1, inl i.0, inr i.1)
                (inl i.1, inl i.0, inr i.1) i))
          (λ u t i. i))
        (λ u t i.
          call-Ends original target L other_error (λ y. record y { journal_file = none }) t
            (inl i.1, inl i.0, inr i.1) (inl i.1, inl i.0, inr i.1)
            ((inl i.1, inl i.0, inr i.1), i.2, i.3))

  pub mark_inconsistent-Ends :
      (j : RestoreJournal) (s : Session)
      → In (durable s)
      → JournalOk original target j (durable s)
      → EndsIn original target (Then original target In) (mark_inconsistent j s)
  unfolding mark_inconsistent
  mark_inconsistent-Ends j s h k =
      Ends-catch In (Safe original target) In (Then original target In)
        (write_journal (with_state restore_inconsistent j) s) (λ e. pure tt)
        (write_journal-Ends original target In (with_state restore_inconsistent j) s h k
          (Inv-write original target (with_state restore_inconsistent j) (durable s) h k))
        (λ e t i. i)

  given_up-Ends :
      (j : RestoreJournal) (Q : Unit {0} → Session → Type 0) (s : Session)
      → In (durable s)
      → JournalOk original target j (durable s)
      → EndsIn original target Q ((mark_inconsistent j >> throw inconsistent) s)
  given_up-Ends j Q s h k =
      >>-Ends original target (Then original target In) Q (mark_inconsistent j)
        (λ u. throw inconsistent) s (mark_inconsistent-Ends j s h k) (λ u t i. i)

  pending-Ends :
      (j : RestoreJournal) (s : Session)
      → In (durable s)
      → Settled original target (durable s)
      → Ends
          (λ v. In v × Settled original target v)
          (Safe original target)
          (Then original target In)
          (write_journal (with_state begin_pending j) s)
  unfolding write_journal
  pending-Ends j s h k =
      let after : In (record (durable s) { journal_file = some (with_state begin_pending j) }) =
        Inv-write original target (with_state begin_pending j) (durable s) h (inr k) in
      Ends-call (λ v. In v × Settled original target v) (Safe original target) (λ v i. inl i.1)
        (Then original target In) other_error
        (λ t. record t { journal_file = some (with_state begin_pending j) }) s (h, k) (after, k)
        after

  unknown-Ends :
      (j : RestoreJournal) (code : Code) (Q : Unit {0} → Session → Type 0) (s : Session)
      → In (durable s)
      → Settled original target (durable s)
      → EndsIn original target Q (compensate_unknown j code s)
  unfolding compensate_unknown
  unknown-Ends j code Q s h k =
      >>-Ends original target (Then original target In) Q
        (try_with (write_journal (with_state begin_pending j))
          (λ e. mark_inconsistent j >> throw inconsistent))
        (λ u. throw (restore_error code false true)) s
        (Ends-catch (λ v. In v × Settled original target v) (Safe original target) In
          (Then original target In) (write_journal (with_state begin_pending j) s)
          (λ e. mark_inconsistent j >> throw inconsistent) (pending-Ends j s h k)
          (λ e t i. given_up-Ends j (Then original target In) t i.0 (inr i.1)))
        (λ u t i. i)

  cleaned-Ends :
      (t : Session)
      → In (durable t)
      → t.rounds ≡ original
      → EndsIn original target (Then original target In) (cleanup t)
  cleaned-Ends t i r =
      Ends-weaken In (Safe original target)
        (Then original target λ v. In v × (v.rounds ≡ t.rounds) × (v.core_calls ≡ t.core_calls))
        (Then original target In) (cleanup t)
        (cleanup-Ends t.rounds t.core_calls t i.1 (inl r) refl refl) (λ u x y. y.0)

  finish-Ends :
      (j : RestoreJournal) (code : Code) (b : Bool) (Q : Unit {0} → Session → Type 0) (s : Session)
      → In (durable s)
      → knows j.core_restore_transaction_id ≡ true
      → (b ≡ true → s.rounds ≡ original)
      → EndsIn original target Q (finish_compensation j code b s)
  finish-Ends j code false Q s h k r = given_up-Ends j Q s h (inl k)
  finish-Ends j code true Q s h k r =
      >>-Ends original target (Then original target In) Q
        (write_journal (with_state rolled_back j) >> cleanup)
        (λ u. throw (restore_error code false true)) s
        (>>-Ends original target (Then original target Back) (Then original target In)
          (write_journal (with_state rolled_back j)) (λ u. cleanup) s
          (write_journal-Ends original target Back (with_state rolled_back j) s h (inl k)
            (Inv-write original target (with_state rolled_back j) (durable s) h (inl k), r refl))
          (λ u t i. cleaned-Ends t i.0 i.1))
        (λ u t i. i)

  stop_if-Ends :
      (stopped : Bool) (s : Session)
      → In (durable s)
      → EndsIn original target
          (Then original target In)
          ((if stopped then pure true else attempt stop_core) s)
  stop_if-Ends true s h = h
  stop_if-Ends false s h =
      attempt-Ends (λ b. In) stop_core s (stop_core-Ends original target In s h h) (λ v i. i)

  -- Whether the rounds are back, by what the third step says.
  abbrev Told : Bool → Durable → Type 0
  Told b v = In v × (b ≡ true → v.rounds ≡ original)

  abbrev ToldAll : Bool → Bool → Durable → Type 0
  ToldAll c d v = In v × (c ≡ true → d ≡ true → v.rounds ≡ original)

  started-Told :
      (c : Bool) (s : Session)
      → Told c (durable s)
      → EndsIn original target
          (λ d x. ToldAll c d (durable x))
          (attempt (start_core >> require_healthy) s)
  started-Told c s h =
      attempt-Ends (ToldAll c) (start_core >> require_healthy) s
        (Ends-weaken In (Safe original target) (Then original target (Told c))
          (Then original target (ToldAll c true)) ((start_core >> require_healthy) s)
          (started-Ends (Told c) s h.0 h (λ v i. i.0)) (λ u t i. (i.0, λ x y. i.1 x)))
        (λ v i. (i, λ x y. absurd (cc y)))

  all-last : (a b c d : Bool) → (a && b && c && d) ≡ true → (c ≡ true) × (d ≡ true)
  all-last true true true d e = (refl, e)
  all-last true true false d e = absurd (cc e)
  all-last true false c d e = absurd (cc e)
  all-last false b c d e = absurd (cc e)

  known-Ends :
      (j : RestoreJournal) (code : Code) (stopped : Bool) (Q : Unit {0} → Session → Type 0)
      (s : Session)
      → In (durable s)
      → knows j.core_restore_transaction_id ≡ true
      → EndsIn original target Q (compensate_known j code stopped s)
  unfolding compensate_known
  known-Ends j code stopped Q s h k =
      let last : Bool → Bool → Bool → M (Unit {0}) = λ a b c.
        attempt (start_core >> require_healthy) >>= λ d.
        finish_compensation j code (a && b && c && d) in
      let third : Bool → Bool → M (Unit {0}) =
        λ a b. attempt (restore_rounds_database >> verify_sqlite) >>= last a b in
      let second : Bool → M (Unit {0}) = λ a. attempt (rollback_core j) >>= third a in
      >>-Ends original target (Then original target In) Q
        (if stopped then pure true else attempt stop_core) second s (stop_if-Ends stopped s h)
        (λ a t i.
          >>-Ends original target (Then original target In) Q (attempt (rollback_core j)) (third a)
            t (attempt-Ends (λ x. In) (rollback_core j) t (rollback_core-Ends j t i) (λ v y. y))
            (λ b t i.
              >>-Ends original target (λ c x. Told c (durable x)) Q
                (attempt (restore_rounds_database >> verify_sqlite)) (last a b) t
                (attempt-Ends Told (restore_rounds_database >> verify_sqlite) t
                  (Ends-weaken In (Safe original target) (Then original target Back)
                    (Then original target (Told true))
                    ((restore_rounds_database >> verify_sqlite) t) (restored-Ends t i)
                    (λ u x y. (y.0, λ z. y.1)))
                  (λ v y. (y, λ z. absurd (cc z))))
                (λ c t i.
                  >>-Ends original target (λ d x. ToldAll c d (durable x)) Q
                    (attempt (start_core >> require_healthy))
                    (λ d. finish_compensation j code (a && b && c && d)) t (started-Told c t i)
                    (λ d t i.
                      finish-Ends j code (a && b && c && d) Q t i.0 k
                        (λ e. i.1 (all-last a b c d e).0 (all-last a b c d e).1)))))

  compensate_by-Ends :
      (o : Option ℕ) (j : RestoreJournal) (code : Code) (stopped : Bool)
      (Q : Unit {0} → Session → Type 0) (s : Session)
      → o ≡ j.core_restore_transaction_id
      → In (durable s)
      → JournalOk original target j (durable s)
      → EndsIn original target Q (compensate_by o j code stopped s)
  compensate_by-Ends none j code stopped Q s e h (inl k) = absurd (cc (ap knows e ∙ k))
  compensate_by-Ends none j code stopped Q s e h (inr k) = unknown-Ends j code Q s h k
  compensate_by-Ends (some n) j code stopped Q s e h k =
      known-Ends j code stopped Q s h (sym (ap knows e))

  pub compensate-Ends :
      (j : RestoreJournal) (code : Code) (stopped : Bool) (Q : Unit {0} → Session → Type 0)
      (s : Session)
      → In (durable s)
      → JournalOk original target j (durable s)
      → EndsIn original target Q (compensate j code stopped s)
  unfolding compensate
  compensate-Ends j code stopped Q s h k =
      compensate_by-Ends j.core_restore_transaction_id j code stopped Q s refl h k
