-- ===== src/Tasks/Bounded.antt =====
-- How often scheduler/core_execution_task_worker.py generates a task again.
use ledgermind_local.Prelude.{
  ℕ, Bool, true, false, ◌||◌, not, [], ◌∷◌, ◌≡◌, refl, inl, inr, if◌then◌else◌, if-both, Bool-cases,
}
use ledgermind_local.Tasks.{
  Exn, ExecutionResult, GenericExecutionTask, Run, State, M, ◌>>◌, pure, first_of, rest_of, code_is,
}
use ledgermind_local.Tasks.Rules.{Ends, Ends-follow, Ends-rescue, Ends-weaken, Ends-answer}
use ledgermind_local.Tasks.Worker.{
  execute, plain_result, record_egress_audit, deliver_result, is_structured, generate_again,
  is_final, retry_rejected, deliver_or_retry, is_malformed, deliver_second, deliver_first,
  deliver_result_with_structured_retry, is_completed, is_rejection,
}
use ledgermind_local.Prelude.{length, ◌≤◌, ◌+◌, suc, arith}
use ledgermind_local.Tasks.Kept.{Steady, audit-Keeps, deliver_result-Keeps}

module _ (n : ℕ) where
  -- At most this many executions so far.
  abbrev pub Within : ℕ → State → Type 0
  Within k s = length s.executed ≤ k + n

  Within-Steady : (k : ℕ) → Steady (Within k)
  Within-Steady k = record {
    by_batch = λ s i. i;
    by_submission = λ s i. i;
    by_failure_report = λ s i. i;
    by_connection = λ s i. i;
    by_settling = λ r s i. i;
    by_opening = λ s i. i;
  }

  -- From at most `k` executions to at most `j`, whether the run returns or raises.
  abbrev Grows : {A : Type 0} → ℕ → ℕ → M A → Type 0
  Grows {A} k j m = (s : State) → Within k s → Ends (λ (a : A) t. Within j t) (Within j) (m s)

  Grows-weaken : {A : Type 0} (k j i : ℕ) (m : M A) → j ≤ i → Grows k j m → Grows k i m
  Grows-weaken k j i m le h s r =
      Ends-weaken (λ a t. Within j t) (λ a t. Within i t) (Within j) (Within i) (m s) (h s r)
        (λ a t x. omega (arith, le, x)) (λ t x. omega (arith, le, x))

  generate_again-Grows :
      (k : ℕ) (task : GenericExecutionTask) → Grows k (suc k) (generate_again task)
  unfolding generate_again execute
  generate_again-Grows k task s r =
      let more : Within (suc k)
          (record s { executions = rest_of s.executions; executed = task.task_id ∷ s.executed }) =
        omega (arith, r) in
      Ends-follow (λ x t. Within (suc k) t) (λ x t. Within (suc k) t) (Within (suc k))
        (execute task s) (λ x. record_egress_audit x >> pure x)
        (Ends-answer (λ x t. Within (suc k) t) (Within (suc k)) (first_of plain_result s.executions)
          _ (λ x. more) more)
        (λ x t i.
          Ends-follow (λ u y. Within (suc k) y) (λ u y. Within (suc k) y) (Within (suc k))
            (record_egress_audit x t) (λ u. pure x)
            (audit-Keeps (Within (suc k)) (Within-Steady (suc k)) x t i) (λ u y j. j))

  deliver_result-Grows :
      (k : ℕ) (task : GenericExecutionTask) (x : ExecutionResult)
      → Grows k k (deliver_result task x)
  deliver_result-Grows k task x = deliver_result-Keeps (Within k) (Within-Steady k) task x

  retry_rejected-Grows :
      (k : ℕ) (task : GenericExecutionTask) (e : Exn) → Grows k (suc k) (retry_rejected task e)
  unfolding retry_rejected
  retry_rejected-Grows k task e s r = elim (Bool-cases (is_final task e)) [
    | inl y ↦ rw y (omega (arith, r))
    | inr n ↦ rw n (
        Ends-follow (λ x t. Within (suc k) t) (λ u t. Within (suc k) t) (Within (suc k))
          (generate_again task s) (λ x. deliver_result task x) (generate_again-Grows k task s r)
          (λ x t i. deliver_result-Grows (suc k) task x t i))
  ]

  deliver_or_retry-Grows :
      (k : ℕ) (task : GenericExecutionTask) (x : ExecutionResult)
      → Grows k (suc k) (deliver_or_retry task x)
  unfolding deliver_or_retry
  deliver_or_retry-Grows k task x s r =
      Ends-rescue (λ u t. Within (suc k) t) (Within k) (Within (suc k)) (deliver_result task x s)
        (retry_rejected task)
        (Ends-weaken (λ u t. Within k t) (λ u t. Within (suc k) t) (Within k) (Within k)
          (deliver_result task x s) (deliver_result-Grows k task x s r) (λ u t i. omega (arith, i))
          (λ t i. i))
        (λ e t i. retry_rejected-Grows k task e t i)

  deliver_second-Grows :
      (k : ℕ) (task : GenericExecutionTask) (x : ExecutionResult)
      → Grows k (suc k) (deliver_second task x)
  unfolding deliver_second
  deliver_second-Grows k task x s r =
      if-both (λ (z : Run (Unit {0}) × State). Ends (λ u t. Within (suc k) t) (Within (suc k)) z)
        (is_completed x.status)
        (Grows-weaken k k (suc k) (deliver_result task x) (omega arith)
          (deliver_result-Grows k task x) s r)
        (deliver_or_retry-Grows k task x s r)

  deliver_first-Grows :
      (task : GenericExecutionTask) (x : ExecutionResult) → Grows 0 2 (deliver_first task x)
  unfolding deliver_first
  deliver_first-Grows task x s r = elim (Bool-cases (is_malformed task x)) [
    | inl y ↦ rw y (
        Ends-follow (λ u t. Within 1 t) (λ u t. Within 2 t) (Within 2) (generate_again task s)
          (deliver_second task)
          (Ends-weaken (λ u t. Within 1 t) (λ u t. Within 1 t) (Within 1) (Within 2)
            (generate_again task s) (generate_again-Grows 0 task s r) (λ u t i. i)
            (λ t i. omega (arith, i)))
          (λ u t i. deliver_second-Grows 1 task u t i))
    | inr n ↦ rw n (
        Grows-weaken 0 1 2 (deliver_or_retry task x) (omega arith) (deliver_or_retry-Grows 0 task x)
          s r)
  ]

  -- A task that is not structured is not generated again.
  module _ (task : GenericExecutionTask) (plain : is_structured task ≡ false) where
    or_true : (b c : Bool) → (b || (not false || c)) ≡ true
    or_true true c = refl
    or_true false c = refl

    final : (e : Exn) → is_final task e ≡ true
    unfolding is_final
    final e =
        rw plain
          (or_true (not (is_rejection e.class)) (code_is ("invalid_execution_result" ∷ []) e.code))

    retry_rejected-plain : (e : Exn) → Grows 0 0 (retry_rejected task e)
    unfolding retry_rejected
    retry_rejected-plain e s r = rw (final e) r

    deliver_or_retry-plain : (x : ExecutionResult) → Grows 0 0 (deliver_or_retry task x)
    unfolding deliver_or_retry
    deliver_or_retry-plain x s r =
        Ends-rescue (λ u t. Within 0 t) (Within 0) (Within 0) (deliver_result task x s)
          (retry_rejected task) (deliver_result-Grows 0 task x s r)
          (λ e t i. retry_rejected-plain e t i)

    deliver_first-plain : (x : ExecutionResult) → Grows 0 0 (deliver_first task x)
    unfolding deliver_first is_malformed
    deliver_first-plain x s r = rw plain (deliver_or_retry-plain x s r)

  bound-Grows :
      (b : Bool) (task : GenericExecutionTask) (x : ExecutionResult)
      → is_structured task ≡ b
      → Grows 0 (if b then 2 else 0) (deliver_first task x)
  bound-Grows true task x e = deliver_first-Grows task x
  bound-Grows false task x e = deliver_first-plain task e x

-- Delivering a result, whether it returns or raises, executes a structured task at most twice more, and
-- any other task not once.
pub deliver_result_with_structured_retry-Within :
    (task : GenericExecutionTask) (x : ExecutionResult) (s : State)
    → let bound : ℕ = if is_structured task then 2 else 0 in
      Ends
        (λ u t. Within (length s.executed) bound t)
        (Within (length s.executed) bound)
        (deliver_result_with_structured_retry task x s)
unfolding deliver_result_with_structured_retry
deliver_result_with_structured_retry-Within task x s =
    let n : ℕ = length s.executed in
    let bound : ℕ = if is_structured task then 2 else 0 in
    Ends-follow (λ u t. Within n 0 t) (λ u t. Within n bound t) (Within n bound)
      (record_egress_audit x s) (λ u. deliver_first task x)
      (Ends-weaken (λ u t. Within n 0 t) (λ u t. Within n 0 t) (Within n 0) (Within n bound)
        (record_egress_audit x s) (audit-Keeps (Within n 0) (Within-Steady n 0) x s (omega arith))
        (λ u t i. i) (λ t i. omega (arith, i)))
      (λ u t i. bound-Grows n (is_structured task) task x refl t i)
