-- ===== src/Restore/Ended.antt =====
-- What `apply_restore` of maintenance/coordinated_restore.py ends in: its `try`, its handlers, the whole.
use ledgermind_local.Prelude.{
  ℕ, Bool, true, false, ◌&&◌, some, ◌≡◌, refl, sym, ◌∙◌, ap, inl, inr, if◌then◌else◌, Bool-cases,
  ltb, ◌==◌,
}
use ledgermind_local.Restore.{
  RestoreJournal, Code, Fault, other_error, BeginRestoreResult, CommitRestoreResult,
  CoordinatedRestoreResult, Session, M, ◌>>=◌, ◌>>◌, pure, throw, modify,
  rounds_applied_pending_commit, healthy_pending_commit, committed,
}
use ledgermind_local.Restore.Rules.{Durable, durable, Ends-catch, Ends-call, Ends-weaken}
use ledgermind_local.Restore.Steps.{
  restore_fault, stop_core, start_core, require_healthy, replace_rounds_database, commit,
  safe_start_after_failure, cleanup, verify_core_manifest,
}
use ledgermind_local.Restore.Saga.{
  knows, compensate, begin_step, apply_rounds, set_stopped, advance, committed_result, remember,
  apply_up_to_commit, conclude, code_of, is_settled, before_begin, after_failure, has_transaction,
  run_saga,
}
use ledgermind_local.Restore.Safe.{
  has_commit, Settled, Safe, JournalOk, HeldOk, EndsIn, Then, start_core-Ends, require_healthy-Ends,
  >>-Ends,
}
use ledgermind_local.Restore.Compensated.{cleanup-Ends, compensate-Ends}
use ledgermind_local.Restore.Applied.{
  Start, Held, Applied, Done, Answer, In, Applied-In, Applied-Held, began-Ends, replace-Ends,
  advance-Ends, >>-Then, manifest-Ends, commit_of-Ends,
}

module _ (original target : ℕ) where
  abbrev Ending : (K : Durable → Type 0) → M (Unit {0}) → Session → Type 0
  Ending K m s = EndsIn original target (Then original target K) (m s)

  moved :
      (v : Durable)
      → Applied original target v
      → ((((v.rollback_file ≡ some original) × (v.snapshot_file ≡ some target) × (v.began ≡ true))
            × (knows v.journal.core_restore_transaction_id ≡ true))
          × (knows v.journal.core_restore_transaction_id ≡ true))
        × (v.rounds ≡ target)
  moved v h = (((h.0.0.0, h.0.1), h.0.1), h.1)

  rounds-Ends :
      (answer : BeginRestoreResult) (s : Session)
      → Start original target (durable s)
      → Ending (Applied original target) (apply_rounds answer) s
  unfolding apply_rounds
  rounds-Ends answer s h =
      let A : Durable → Type 0 = Applied original target in
      let begun : M (Unit {0}) =
        stop_core >> modify (λ t. record t { stopped = true; began = true }) >> begin_step answer in
      >>-Then original target A A (begun >> replace_rounds_database)
        (advance rounds_applied_pending_commit) s
        (>>-Then original target (Held original target) A begun replace_rounds_database s
          (began-Ends original target answer s h) (λ t i. replace-Ends original target t i))
        (λ t i.
          advance-Ends original target A rounds_applied_pending_commit t
            (Applied-Held original target) i (moved (durable t) i))

  applied-Ends :
      (answer : BeginRestoreResult) (s : Session)
      → Start original target (durable s)
      → EndsIn original target (Answer original target) (apply_up_to_commit answer s)
  unfolding apply_up_to_commit verify_core_manifest commit
  applied-Ends answer s h =
      let A : Durable → Type 0 = Applied original target in
      let m1 : M (Unit {0}) = apply_rounds answer >> set_stopped false in
      let m2 : M (Unit {0}) = m1 >> start_core in
      let m3 : M (Unit {0}) = m2 >> require_healthy in
      let m4 : M (Unit {0}) = m3 >> (λ t. verify_core_manifest t.journal t) in
      let m5 : M (Unit {0}) = m4 >> advance healthy_pending_commit in
      let e1 : Ending A m1 s =
        >>-Then original target A A (apply_rounds answer) (set_stopped false) s
          (rounds-Ends answer s h) (λ t i. i) in
      let e2 : Ending A m2 s =
        >>-Then original target A A m1 start_core s e1 (λ t i.
          start_core-Ends original target A t (Applied-In original target (durable t) i) i) in
      let e3 : Ending A m3 s = >>-Then original target A A m2 require_healthy s e2 (λ t i.
        require_healthy-Ends original target A t (Applied-In original target (durable t) i) i) in
      let e4 : Ending A m4 s =
        >>-Then original target A A m3 (λ t. verify_core_manifest t.journal t) s e3
          (λ t i.
            manifest-Ends original target A
              ((t.journal.backup_id == t.journal.core_sha256)
                && ltb 0 t.journal.core_schema_version)
              t (Applied-In original target (durable t) i) i) in
      let e5 : Ending A m5 s =
        >>-Then original target A A m4 (advance healthy_pending_commit) s e4 (λ t i.
          advance-Ends original target A healthy_pending_commit t (Applied-Held original target) i
            (moved (durable t) i)) in
      >>-Ends original target (Then original target A) (Answer original target) m5
        (λ u t. commit t.journal t) s e5
        (λ u t i. commit_of-Ends original target t.journal.core_restore_transaction_id t i.0.1 i)

  -- What a result says.
  abbrev pub Committed : CoordinatedRestoreResult → Session → Type 0
  Committed r t = (t.rounds ≡ target) × (has_commit t.core_calls ≡ true) × (r.state ≡ committed)

  conclude-Ends :
      (r : CommitRestoreResult) (s : Session)
      → Answer original target r s
      → EndsIn original target Committed (conclude r s)
  unfolding conclude
  conclude-Ends r s (h, says) =
      let D : Durable → Type 0 = Done original target in
      let finish : M CoordinatedRestoreResult =
        λ t. (cleanup >> pure (committed_result r t.journal)) t in
      >>-Ends original target (Then original target D) Committed
        (advance committed >> (λ t. remember (committed_result r t.journal) t)) (λ u. finish) s
        (>>-Then original target D D (advance committed)
          (λ t. remember (committed_result r t.journal) t) s
          (advance-Ends original target D committed s (λ v i. i.0.0) h (moved (durable s) h.0, h.1))
          (λ t i. i))
        (λ u t i.
          >>-Ends original target
            (Then original target
              λ v. In original target v × (v.rounds ≡ target) × (v.core_calls ≡ t.core_calls))
            Committed cleanup (λ w. pure (committed_result r t.journal)) t
            (cleanup-Ends original target target t.core_calls t (inr i.0.0.0.0.0) (inr (i.0.1, i.1))
              i.0.1 refl)
            (λ w x y. (y.1, ap has_commit y.2 ∙ i.1, says)))

  safe_start-Ends :
      (b : Bool) (s : Session)
      → In original target (durable s) × Settled original target (durable s)
      → Ending
          (λ v. In original target v × Settled original target v)
          (if b then safe_start_after_failure else pure tt)
          s
  unfolding safe_start_after_failure start_core
  safe_start-Ends false s h = h
  safe_start-Ends true s h =
      Ends-catch (λ v. In original target v × Settled original target v) (Safe original target)
        (In original target)
        (Then original target λ v. In original target v × Settled original target v) (start_core s)
        (λ e. pure tt)
        (Ends-call (λ v. In original target v × Settled original target v) (Safe original target)
          (λ v i. inl i.1)
          (Then original target λ v. In original target v × Settled original target v) other_error
          (λ t. record t { core_running = true }) s h h h)
        (λ e t i. i)

  before_begin-Ends :
      (s : Session)
      → In original target (durable s)
      → Settled original target (durable s)
      → Ending (In original target) before_begin s
  unfolding before_begin
  before_begin-Ends s h k =
      >>-Then original target (λ v. In original target v × Settled original target v)
        (In original target) (if s.stopped then safe_start_after_failure else pure tt) cleanup s
        (safe_start-Ends s.stopped s (h, k))
        (λ t i.
          Ends-weaken (In original target) (Safe original target)
            (Then original target
              λ v. In original target v × (v.rounds ≡ t.rounds) × (v.core_calls ≡ t.core_calls))
            (Then original target (In original target)) (cleanup t)
            (cleanup-Ends original target t.rounds t.core_calls t i.0.1 i.1 refl refl)
            (λ u x y. y.0))

  known : (v : Durable) → HeldOk original target v → JournalOk original target v.journal v
  known v (inl h) = inl h.0
  known v (inr s) = inr s

  idle : (v : Durable) → v.began ≡ false → HeldOk original target v → Settled original target v
  idle v e (inl h) = absurd (cc (sym e ∙ h.1))
  idle v e (inr s) = s

  failed-Ends :
      (b : Bool) (code : Code) (s : Session)
      → In original target (durable s)
      → s.began ≡ b
      → Ending
          (In original target)
          (if b then compensate s.journal code s.stopped else before_begin)
          s
  failed-Ends true code s h e =
      compensate-Ends original target s.journal code s.stopped
        (Then original target (In original target)) s h (known (durable s) h.2)
  failed-Ends false code s h e = before_begin-Ends s h (idle (durable s) e h.2)

  handled-Ends :
      (e : Fault) (s : Session)
      → In original target (durable s)
      → EndsIn original target Committed (after_failure e s)
  unfolding after_failure
  handled-Ends e s h = elim (Bool-cases (is_settled e)) [
    | inl y ↦ rw y h
    | inr n ↦ rw n (
        >>-Ends original target (Then original target (In original target)) Committed
          (if s.began then compensate s.journal (code_of e) s.stopped else before_begin)
          (λ u. throw (restore_fault (code_of e))) s (failed-Ends s.began (code_of e) s h refl)
          (λ u t i. i))
  ]

  pub run_saga-Ends :
      (answer : BeginRestoreResult) (j : RestoreJournal) (s : Session)
      → Start original target (durable (record s { journal = j; began = has_transaction j }))
      → EndsIn original target Committed (run_saga answer j s)
  unfolding run_saga
  run_saga-Ends answer j s h =
      let t : Session = record s { journal = j; stopped = false; began = has_transaction j } in
      Ends-catch (In original target) (Safe original target) (In original target) Committed
        ((apply_up_to_commit answer >>= conclude) t) after_failure
        (>>-Ends original target (Answer original target) Committed (apply_up_to_commit answer)
          conclude t (applied-Ends answer t h) (λ u x i. conclude-Ends u x i))
        (λ e x i. handled-Ends e x i)
