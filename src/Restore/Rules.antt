-- ===== src/Restore/Rules.antt =====
-- Rules for what a run of maintenance/coordinated_restore.py ends in: an exit invariant for a run that
-- raises, a weaker one for a process that dies, and a condition of the result for a run that returns.
use ledgermind_local.Prelude.{ℕ, Bool, Option, List}
use ledgermind_local.Restore.{
  RestoreJournal, Fault, Fate, succeeds, fails_before, fails_after, dies_before, dies_after,
  CoreCall, Session, Outcome, returned, raised, died, M, call, meet, next_fate, later_fates,
  handle_with, follow,
}

-- What outlives a process, and two local variables of `apply_restore`.
pub record Durable : Type 0 where
  pub rounds : ℕ
  pub rollback_file : Option ℕ
  pub snapshot_file : Option ℕ
  pub journal_file : Option RestoreJournal
  pub core_calls : List CoreCall
  pub journal : RestoreJournal
  pub began : Bool

abbrev pub durable : Session → Durable
durable s = record {
  rounds = s.rounds;
  rollback_file = s.rollback_file;
  snapshot_file = s.snapshot_file;
  journal_file = s.journal_file;
  core_calls = s.core_calls;
  journal = s.journal;
  began = s.began;
}

module _ (I : Durable → Type 0) (D : Durable → Type 0) where
  abbrev pub Ends : {A : Type 0} → (A → Session → Type 0) → Outcome A × Session → Type 0
  Ends Q (returned a, s) = Q a s
  Ends Q (raised e, s) = I (durable s)
  Ends Q (died, s) = D (durable s)

  -- What a handler's run ends in.
  abbrev pub Caught :
      {A : Type 0} → (Durable → Type 0) → (A → Session → Type 0) → Outcome A × Session → Type 0
  Caught J Q (returned a, s) = Q a s
  Caught J Q (raised e, s) = J (durable s)
  Caught J Q (died, s) = D (durable s)

  pub Ends-follow :
      {A B : Type 0} (R : A → Session → Type 0) (Q : B → Session → Type 0) (x : Outcome A × Session)
      (k : A → M B)
      → Ends R x
      → ((a : A) (t : Session) → R a t → Ends Q (k a t))
      → Ends Q (follow x k)
  Ends-follow R Q (returned a, s) k h f = f a s h
  Ends-follow R Q (raised e, s) k h f = h
  Ends-follow R Q (died, s) k h f = h

  pub Ends-weaken :
      {A : Type 0} (R Q : A → Session → Type 0) (x : Outcome A × Session)
      → Ends R x
      → ((a : A) (t : Session) → R a t → Q a t)
      → Ends Q x
  Ends-weaken R Q (returned a, s) h f = f a s h
  Ends-weaken R Q (raised e, s) h f = h
  Ends-weaken R Q (died, s) h f = h

  pub Ends-catch :
      {A : Type 0} (J : Durable → Type 0) (Q : A → Session → Type 0) (x : Outcome A × Session)
      (k : Fault → M A)
      → Ends Q x
      → ((e : Fault) (t : Session) → I (durable t) → Caught J Q (k e t))
      → Caught J Q (handle_with x k)
  Ends-catch J Q (returned a, s) k h f = h
  Ends-catch J Q (raised e, s) k h f = f e s h
  Ends-catch J Q (died, s) k h f = h

  pub Ends-meet :
      (D-I : (v : Durable) → I v → D v) (Q : Unit {0} → Session → Type 0) (x : Fate) (e : Fault)
      (f : Session → Session) (s : Session)
      → I (durable s)
      → I (durable (f s))
      → Q tt (f s)
      → Ends Q (meet x e f s)
  Ends-meet D-I Q succeeds e f s h i q = q
  Ends-meet D-I Q fails_before e f s h i q = h
  Ends-meet D-I Q fails_after e f s h i q = i
  Ends-meet D-I Q dies_before e f s h i q = D-I (durable s) h
  Ends-meet D-I Q dies_after e f s h i q = D-I (durable (f s)) i

  pub Ends-call :
      (D-I : (v : Durable) → I v → D v) (Q : Unit {0} → Session → Type 0) (e : Fault)
      (f : Session → Session) (s : Session)
      → let t : Session = record s { fates = later_fates s.fates } in
        I (durable s) → I (durable (f t)) → Q tt (f t) → Ends Q (call e f s)
  unfolding call
  Ends-call D-I Q e f s h i q =
      Ends-meet D-I Q (next_fate s.fates) e f (record s { fates = later_fates s.fates }) h i q
