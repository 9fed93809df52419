-- ===== src/Tasks/Settled.antt =====
-- Every task that a pass of scheduler/core_execution_task_worker.py took is told to the Core.
use ledgermind_local.Prelude.{
  Bool, true, false, Option, none, some, List, [], ◌∷◌, String, text_eq, ◌≡◌, refl, sym, ◌∙◌, inl,
  inr, if◌then◌else◌, if-both, if_false, Bool-cases,
}
use ledgermind_local.Tasks.{
  Exn, ExecutionFailureClassification, ExecutionResult, GenericExecutionTask, Run, returned, raised,
  Submission, accepted, refused, submission_raises, Report, submitted, failed_task, State, M, ◌>>=◌,
  try_except, first_of, rest_of,
}
use ledgermind_local.Tasks.Policy.{classify_execution_error}
use ledgermind_local.Tasks.Rules.{Ends, Ends-follow, Ends-rescue, Ends-weaken}
use ledgermind_local.Tasks.Worker.{
  execute_batch, open_provider_circuit_on_failure, settle_submission, submit_execution_result,
  settle_failure, fail_execution_task, record_egress_audit, failure_of, deliver_result,
  generate_again, is_final, retry_rejected, deliver_or_retry, is_malformed, deliver_second,
  deliver_first, deliver_result_with_structured_retry, fail_task, fail_all, deliver_one,
  deliver_all, after_batch, process_converted, is_completed,
}
use ledgermind_local.Tasks.Kept.{Stable, Keeps, fail_all-Keeps, deliver_all-Keeps}

abbrev pub task_of : Report → String
task_of (submitted id) = id
task_of (failed_task id c) = id

-- Whether the Core took a result or a failure of the task.
unfoldable pub is_reported : String → List Report → Bool
is_reported k [] = false
is_reported k (r ∷ log) =
    let rest = is_reported k log in if text_eq (task_of r) k then true else rest

module _ (k : String) where
  abbrev pub Reported : State → Type 0
  Reported s = is_reported k s.settled ≡ true

  pub Reported-Stable : Stable Reported
  unfolding is_reported
  Reported-Stable = record {
    steady = record {
      by_batch = λ s i. i;
      by_submission = λ s i. i;
      by_failure_report = λ s i. i;
      by_connection = λ s i. i;
      by_settling = λ r s i. if-both (λ b. b ≡ true) (text_eq (task_of r) k) refl i;
      by_opening = λ s i. i;
    };
    by_execution = λ id s i. i;
  }

  -- Reported where the run returns.
  abbrev pub Reports : {A : Type 0} → M A → Type 0
  Reports {A} m = (s : State) → Ends (λ (a : A) t. Reported t) (λ t. Unit {0}) (m s)

  -- A condition of a run that returns.
  abbrev pub Any : State → Type 0
  Any t = Unit {0}

  pub Keeps-Reports :
      {A : Type 0} (m : M A) (s : State)
      → Keeps Reported m
      → Reported s
      → Ends (λ (a : A) t. Reported t) Any (m s)
  Keeps-Reports m s h r =
      Ends-weaken (λ a t. Reported t) (λ a t. Reported t) Reported Any (m s) (h s r) (λ a t i. i)
        (λ t i. tt)

  -- What is reported first stays so.
  pub Reports-first :
      {A B : Type 0} (m : M A) (f : A → M B)
      → Reports m
      → ((a : A) → Keeps Reported (f a))
      → Reports (m >>= f)
  Reports-first m f h g s =
      Ends-follow (λ a t. Reported t) (λ b t. Reported t) Any (m s) f (h s)
        (λ a t i. Keeps-Reports (f a) t (g a) i)

  pub Reports-last :
      {A B : Type 0} (m : M A) (f : A → M B) → ((a : A) → Reports (f a)) → Reports (m >>= f)
  Reports-last m f h s =
      Ends-follow (λ a t. Unit {0}) (λ b t. Reported t) Any (m s) f (ends (m s)) (λ a t i. h a t)
    where
      ends : {A : Type 0} (x : Run A × State) → Ends (λ (a : A) t. Unit {0}) Any x
      ends (raised e, s) = tt
      ends (returned a, s) = tt

  Reports-try :
      {A : Type 0} (m : M A) (f : Exn → M A)
      → Reports m
      → ((e : Exn) → Reports (f e))
      → Reports (try_except m f)
  Reports-try m f h g s = Ends-rescue (λ a t. Reported t) Any Any (m s) f (h s) (λ e t i. g e t)

  Reports-if :
      {A : Type 0} (b : Bool) (m n : M A)
      → Reports m
      → Reports n
      → Reports (λ s. if b then m s else n s)
  Reports-if true m n h g = h
  Reports-if false m n h g = g

  module _ (id : String) (same : text_eq id k ≡ true) where
    settle_submission-Reports : (x : Submission) → Reports (settle_submission id x)
    unfolding is_reported
    settle_submission-Reports accepted s = rw same refl
    settle_submission-Reports refused s = tt
    settle_submission-Reports (submission_raises e) s = tt

    submit-Reports : Reports (submit_execution_result id)
    unfolding submit_execution_result
    submit-Reports s =
        settle_submission-Reports (first_of accepted s.submissions)
          (record s { submissions = rest_of s.submissions })

    settle_failure-Reports :
        (c : ExecutionFailureClassification) (x : Option Exn) → Reports (settle_failure id c x)
    unfolding is_reported
    settle_failure-Reports c none s = rw same refl
    settle_failure-Reports c (some e) s = tt

    fail_execution_task-Reports :
        (c : ExecutionFailureClassification) → Reports (fail_execution_task id c)
    unfolding fail_execution_task
    fail_execution_task-Reports c s =
        settle_failure-Reports c (first_of none s.failure_reports)
          (record s { failure_reports = rest_of s.failure_reports })

  module _ (task : GenericExecutionTask) (same : text_eq task.task_id k ≡ true) where
    deliver_result-Reports : (x : ExecutionResult) → Reports (deliver_result task x)
    unfolding deliver_result
    deliver_result-Reports x =
        Reports-if (is_completed x.status) (submit_execution_result task.task_id)
          (fail_execution_task task.task_id (failure_of x)) (submit-Reports task.task_id same)
          (fail_execution_task-Reports task.task_id same (failure_of x))

    retry_rejected-Reports : (e : Exn) → Reports (retry_rejected task e)
    unfolding retry_rejected
    retry_rejected-Reports e =
        Reports-if (is_final task e) (λ s. (raised e, s))
          (generate_again task >>= λ x. deliver_result task x) (λ s. tt)
          (Reports-last (generate_again task) (λ x. deliver_result task x)
            (λ x. deliver_result-Reports x))

    deliver_or_retry-Reports : (x : ExecutionResult) → Reports (deliver_or_retry task x)
    unfolding deliver_or_retry
    deliver_or_retry-Reports x =
        Reports-try (deliver_result task x) (retry_rejected task) (deliver_result-Reports x)
          (λ e. retry_rejected-Reports e)

    deliver_second-Reports : (x : ExecutionResult) → Reports (deliver_second task x)
    unfolding deliver_second
    deliver_second-Reports x =
        Reports-if (is_completed x.status) (deliver_result task x) (deliver_or_retry task x)
          (deliver_result-Reports x) (deliver_or_retry-Reports x)

    deliver_first-Reports : (x : ExecutionResult) → Reports (deliver_first task x)
    unfolding deliver_first
    deliver_first-Reports x =
        Reports-if (is_malformed task x) (generate_again task >>= deliver_second task)
          (deliver_or_retry task x)
          (Reports-last (generate_again task) (deliver_second task) (λ y. deliver_second-Reports y))
          (deliver_or_retry-Reports x)

    deliver-Reports : (x : ExecutionResult) → Reports (deliver_result_with_structured_retry task x)
    unfolding deliver_result_with_structured_retry
    deliver-Reports x =
        Reports-last (record_egress_audit x) (λ u. deliver_first task x)
          (λ u. deliver_first-Reports x)

  module _ (lower : String → String) where
    pub fail_task-Reports :
        (id : String) (e : Exn) → text_eq id k ≡ true → Reports (fail_task lower id e)
    unfolding fail_task
    fail_task-Reports id e same =
        fail_execution_task-Reports id same (classify_execution_error lower e)

    deliver_one-Reports :
        (task : GenericExecutionTask) (x : ExecutionResult)
        → text_eq task.task_id k ≡ true
        → Reports (deliver_one lower task x)
    unfolding deliver_one
    deliver_one-Reports task x same =
        Reports-last (open_provider_circuit_on_failure x)
          (λ u.
            try_except (deliver_result_with_structured_retry task x) (fail_task lower task.task_id))
          (λ u.
            Reports-try (deliver_result_with_structured_retry task x) (fail_task lower task.task_id)
              (deliver-Reports task same x) (λ e. fail_task-Reports task.task_id e same))

    abbrev pub has_task : List GenericExecutionTask → Bool
    has_task [] = false
    has_task (task ∷ tasks) =
        let rest = has_task tasks in if text_eq task.task_id k then true else rest

    pub later :
        (id : String) (rest : Bool)
        → text_eq id k ≡ false
        → (if text_eq id k then true else rest) ≡ true
        → rest ≡ true
    later id rest n h = sym (if_false (text_eq id k) true rest n) ∙ h

    fail_all-Reports :
        (tasks : List GenericExecutionTask) (e : Exn)
        → has_task tasks ≡ true
        → Reports (fail_all lower tasks e)
    unfolding fail_all
    fail_all-Reports [] e h = absurd (cc h)
    fail_all-Reports (task ∷ tasks) e h = elim (Bool-cases (text_eq task.task_id k)) [
      | inl y ↦
          Reports-first (fail_task lower task.task_id e) (λ u. fail_all lower tasks e)
            (fail_task-Reports task.task_id e y)
            (λ u. fail_all-Keeps Reported Reported-Stable lower tasks e)
      | inr n ↦
          Reports-last (fail_task lower task.task_id e) (λ u. fail_all lower tasks e)
            (λ u. fail_all-Reports tasks e (later task.task_id (has_task tasks) n h))
    ]

    deliver_all-Reports :
        (tasks : List GenericExecutionTask) (xs : List ExecutionResult)
        → has_task tasks ≡ true
        → Reports (deliver_all lower tasks xs)
    unfolding deliver_all
    deliver_all-Reports [] xs h = absurd (cc h)
    deliver_all-Reports (task ∷ tasks) [] h = λ s. tt
    deliver_all-Reports (task ∷ tasks) (x ∷ xs) h = elim (Bool-cases (text_eq task.task_id k)) [
      | inl y ↦
          Reports-first (deliver_one lower task x) (λ u. deliver_all lower tasks xs)
            (deliver_one-Reports task x y)
            (λ u. deliver_all-Keeps Reported Reported-Stable lower tasks xs)
      | inr n ↦
          Reports-last (deliver_one lower task x) (λ u. deliver_all lower tasks xs)
            (λ u. deliver_all-Reports tasks xs (later task.task_id (has_task tasks) n h))
    ]

    after_batch-Reports :
        (tasks : List GenericExecutionTask) (x : Run (List ExecutionResult)) (s : State)
        → has_task tasks ≡ true
        → Ends (λ u t. Reported t) Any (after_batch lower tasks (x, s))
    after_batch-Reports tasks (raised e) s h = fail_all-Reports tasks e h s
    after_batch-Reports tasks (returned xs) s h = deliver_all-Reports tasks xs h s

    pub process_converted-Reports :
        (tasks : List GenericExecutionTask)
        → has_task tasks ≡ true
        → Reports (process_converted lower tasks)
    unfolding process_converted execute_batch
    process_converted-Reports [] h = absurd (cc h)
    process_converted-Reports (task ∷ tasks) h = λ s.
        after_batch-Reports (task ∷ tasks) (first_of (returned []) s.batches)
          (record s { batches = rest_of s.batches }) h
