-- ===== src/Tasks/Kept.antt =====
-- What every step of scheduler/core_execution_task_worker.py keeps, the whole of it keeps.
use ledgermind_local.Prelude.{
  Bool, true, false, Option, none, some, List, [], ◌∷◌, String, if◌then◌else◌,
}
use ledgermind_local.Tasks.{
  Exn, ExecutionFailureClassification, ExecutionResult, GenericExecutionTask, RawTask, Run,
  returned, raised, Submission, accepted, refused, submission_raises, Report, submitted,
  failed_task, State, M, ◌>>=◌, ◌>>◌, pure, try_except, first_of, rest_of,
}
use ledgermind_local.Tasks.Policy.{classify_execution_error}
use ledgermind_local.Tasks.Rules.{Ends, Ends-follow, Ends-rescue, Ends-answer}
use ledgermind_local.Tasks.Worker.{
  execute, plain_result, execute_batch, opens_circuit, open_provider_circuit_on_failure,
  settle_submission, submit_execution_result, settle_failure, fail_execution_task, raise_if,
  record_egress_audit, failure_of, deliver_result, generate_again, is_final, retry_rejected,
  deliver_or_retry, is_malformed, deliver_second, deliver_first,
  deliver_result_with_structured_retry, fail_task, converted, convert_one, convert_tasks, fail_all,
  deliver_one, deliver_all, after_batch, process_converted, process_tasks, is_completed,
}

-- What no step takes away: the steps are the calls of the worker, whatever they answer.
pub record Steady (I : State → Type 0) : Type 0 where
  pub by_batch : (s : State) → I s → I (record s { batches = rest_of s.batches })
  pub by_submission : (s : State) → I s → I (record s { submissions = rest_of s.submissions })
  pub by_failure_report :
      (s : State) → I s → I (record s { failure_reports = rest_of s.failure_reports })
  pub by_connection : (s : State) → I s → I (record s { connections = rest_of s.connections })
  pub by_settling : (r : Report) (s : State) → I s → I (record s { settled = r ∷ s.settled })
  pub by_opening : (s : State) → I s → I (record s { provider_circuit_open = true })

-- The executions as well.
pub record Stable (I : State → Type 0) : Type 0 where
  pub steady : Steady I
  pub by_execution :
      (id : String) (s : State)
      → I s
      → I (record s { executions = rest_of s.executions; executed = id ∷ s.executed })

module _ (I : State → Type 0) where
  -- Not to be lost, whether the run returns or raises.
  abbrev pub Keeps : {A : Type 0} → M A → Type 0
  Keeps {A} m = (s : State) → I s → Ends (λ (a : A) t. I t) I (m s)

  pub Keeps->>= :
      {A B : Type 0} (m : M A) (f : A → M B) → Keeps m → ((a : A) → Keeps (f a)) → Keeps (m >>= f)
  Keeps->>= m f h g s r = Ends-follow (λ a t. I t) (λ b t. I t) I (m s) f (h s r) (λ a t i. g a t i)

  pub Keeps-try :
      {A : Type 0} (m : M A) (f : Exn → M A)
      → Keeps m
      → ((e : Exn) → Keeps (f e))
      → Keeps (try_except m f)
  Keeps-try m f h g s r = Ends-rescue (λ a t. I t) I I (m s) f (h s r) (λ e t i. g e t i)

  pub Keeps-if :
      {A : Type 0} (b : Bool) (m n : M A) → Keeps m → Keeps n → Keeps (λ s. if b then m s else n s)
  Keeps-if true m n h g = h
  Keeps-if false m n h g = g

module _ (I : State → Type 0) (steady : Steady I) where
  pub settle_submission-Keeps : (id : String) (x : Submission) → Keeps I (settle_submission id x)
  settle_submission-Keeps id accepted s r = steady.by_settling (submitted id) s r
  settle_submission-Keeps id refused s r = r
  settle_submission-Keeps id (submission_raises e) s r = r

  pub submit-Keeps : (id : String) → Keeps I (submit_execution_result id)
  unfolding submit_execution_result
  submit-Keeps id s r =
      settle_submission-Keeps id (first_of accepted s.submissions)
        (record s { submissions = rest_of s.submissions }) (steady.by_submission s r)

  pub settle_failure-Keeps :
      (id : String) (c : ExecutionFailureClassification) (x : Option Exn)
      → Keeps I (settle_failure id c x)
  settle_failure-Keeps id c none s r = steady.by_settling (failed_task id c) s r
  settle_failure-Keeps id c (some e) s r = r

  pub fail_execution_task-Keeps :
      (id : String) (c : ExecutionFailureClassification) → Keeps I (fail_execution_task id c)
  unfolding fail_execution_task
  fail_execution_task-Keeps id c s r =
      settle_failure-Keeps id c (first_of none s.failure_reports)
        (record s { failure_reports = rest_of s.failure_reports }) (steady.by_failure_report s r)

  pub raise_if-Keeps : (x : Option Exn) → Keeps I (raise_if x)
  raise_if-Keeps none s r = r
  raise_if-Keeps (some e) s r = r

  pub audit-Keeps : (x : ExecutionResult) → Keeps I (record_egress_audit x)
  unfolding record_egress_audit
  audit-Keeps x =
      Keeps-if I x.egress_audit
        (λ s.
          raise_if (first_of none s.connections) (record s { connections = rest_of s.connections }))
        (λ s. (returned tt, s))
        (λ s r.
          raise_if-Keeps (first_of none s.connections)
            (record s { connections = rest_of s.connections }) (steady.by_connection s r))
        (λ s r. r)

  pub deliver_result-Keeps :
      (task : GenericExecutionTask) (x : ExecutionResult) → Keeps I (deliver_result task x)
  unfolding deliver_result
  deliver_result-Keeps task x =
      Keeps-if I (is_completed x.status) (submit_execution_result task.task_id)
        (fail_execution_task task.task_id (failure_of x)) (submit-Keeps task.task_id)
        (fail_execution_task-Keeps task.task_id (failure_of x))

  pub open_circuit-Keeps : (x : ExecutionResult) → Keeps I (open_provider_circuit_on_failure x)
  unfolding open_provider_circuit_on_failure
  open_circuit-Keeps x =
      Keeps-if I (opens_circuit x) (λ s. (returned tt, record s { provider_circuit_open = true }))
        (λ s. (returned tt, s)) (λ s r. steady.by_opening s r) (λ s r. r)

module _ (I : State → Type 0) (stable : Stable I) where
  pub execute-Keeps : (task : GenericExecutionTask) → Keeps I (execute task)
  unfolding execute
  execute-Keeps task s r =
      let i : I
          (record s { executions = rest_of s.executions; executed = task.task_id ∷ s.executed }) =
        stable.by_execution task.task_id s r in
      Ends-answer (λ a t. I t) I (first_of plain_result s.executions) _ (λ a. i) i

  pub generate_again-Keeps : (task : GenericExecutionTask) → Keeps I (generate_again task)
  unfolding generate_again
  generate_again-Keeps task =
      Keeps->>= I (execute task) (λ x. record_egress_audit x >> pure x) (execute-Keeps task)
        (λ x.
          Keeps->>= I (record_egress_audit x) (λ u. pure x) (audit-Keeps I stable.steady x)
            (λ u s r. r))

  pub retry_rejected-Keeps :
      (task : GenericExecutionTask) (e : Exn) → Keeps I (retry_rejected task e)
  unfolding retry_rejected
  retry_rejected-Keeps task e =
      Keeps-if I (is_final task e) (λ s. (raised e, s))
        (generate_again task >>= λ x. deliver_result task x) (λ s r. r)
        (Keeps->>= I (generate_again task) (λ x. deliver_result task x) (generate_again-Keeps task)
          (λ x. deliver_result-Keeps I stable.steady task x))

  pub deliver_or_retry-Keeps :
      (task : GenericExecutionTask) (x : ExecutionResult) → Keeps I (deliver_or_retry task x)
  unfolding deliver_or_retry
  deliver_or_retry-Keeps task x =
      Keeps-try I (deliver_result task x) (retry_rejected task)
        (deliver_result-Keeps I stable.steady task x) (λ e. retry_rejected-Keeps task e)

  pub deliver_second-Keeps :
      (task : GenericExecutionTask) (x : ExecutionResult) → Keeps I (deliver_second task x)
  unfolding deliver_second
  deliver_second-Keeps task x =
      Keeps-if I (is_completed x.status) (deliver_result task x) (deliver_or_retry task x)
        (deliver_result-Keeps I stable.steady task x) (deliver_or_retry-Keeps task x)

  pub deliver_first-Keeps :
      (task : GenericExecutionTask) (x : ExecutionResult) → Keeps I (deliver_first task x)
  unfolding deliver_first
  deliver_first-Keeps task x =
      Keeps-if I (is_malformed task x) (generate_again task >>= deliver_second task)
        (deliver_or_retry task x)
        (Keeps->>= I (generate_again task) (deliver_second task) (generate_again-Keeps task)
          (λ y. deliver_second-Keeps task y))
        (deliver_or_retry-Keeps task x)

  pub deliver-Keeps :
      (task : GenericExecutionTask) (x : ExecutionResult)
      → Keeps I (deliver_result_with_structured_retry task x)
  unfolding deliver_result_with_structured_retry
  deliver-Keeps task x =
      Keeps->>= I (record_egress_audit x) (λ u. deliver_first task x)
        (audit-Keeps I stable.steady x) (λ u. deliver_first-Keeps task x)

  module _ (lower : String → String) where
    pub fail_task-Keeps : (id : String) (e : Exn) → Keeps I (fail_task lower id e)
    unfolding fail_task
    fail_task-Keeps id e =
        fail_execution_task-Keeps I stable.steady id (classify_execution_error lower e)

    pub deliver_one-Keeps :
        (task : GenericExecutionTask) (x : ExecutionResult) → Keeps I (deliver_one lower task x)
    unfolding deliver_one
    deliver_one-Keeps task x =
        Keeps->>= I (open_provider_circuit_on_failure x)
          (λ u.
            try_except (deliver_result_with_structured_retry task x) (fail_task lower task.task_id))
          (open_circuit-Keeps I stable.steady x)
          (λ u.
            Keeps-try I (deliver_result_with_structured_retry task x) (fail_task lower task.task_id)
              (deliver-Keeps task x) (λ e. fail_task-Keeps task.task_id e))

    pub fail_all-Keeps :
        (tasks : List GenericExecutionTask) (e : Exn) → Keeps I (fail_all lower tasks e)
    unfolding fail_all
    fail_all-Keeps [] e = λ s r. r
    fail_all-Keeps (task ∷ tasks) e =
        Keeps->>= I (fail_task lower task.task_id e) (λ u. fail_all lower tasks e)
          (fail_task-Keeps task.task_id e) (λ u. fail_all-Keeps tasks e)

    pub deliver_all-Keeps :
        (tasks : List GenericExecutionTask) (xs : List ExecutionResult)
        → Keeps I (deliver_all lower tasks xs)
    unfolding deliver_all
    deliver_all-Keeps [] [] = λ s r. r
    deliver_all-Keeps [] (x ∷ xs) = λ s r. r
    deliver_all-Keeps (task ∷ tasks) [] = λ s r. r
    deliver_all-Keeps (task ∷ tasks) (x ∷ xs) =
        Keeps->>= I (deliver_one lower task x) (λ u. deliver_all lower tasks xs)
          (deliver_one-Keeps task x) (λ u. deliver_all-Keeps tasks xs)

    pub after_batch-Keeps :
        (tasks : List GenericExecutionTask) (x : Run (List ExecutionResult)) (s : State)
        → I s
        → Ends (λ u t. I t) I (after_batch lower tasks (x, s))
    after_batch-Keeps tasks (raised e) s r = fail_all-Keeps tasks e s r
    after_batch-Keeps tasks (returned xs) s r = deliver_all-Keeps tasks xs s r

    pub process_converted-Keeps :
        (tasks : List GenericExecutionTask) → Keeps I (process_converted lower tasks)
    unfolding process_converted execute_batch
    process_converted-Keeps [] s r = r
    process_converted-Keeps (task ∷ tasks) s r =
        after_batch-Keeps (task ∷ tasks) (first_of (returned []) s.batches)
          (record s { batches = rest_of s.batches }) (stable.steady.by_batch s r)

    pub convert_one-Keeps :
        (rest : M (List GenericExecutionTask)) (raw : RawTask) (o : Option Exn)
        → Keeps I rest
        → Keeps I (convert_one lower rest raw o)
    unfolding convert_one
    convert_one-Keeps rest raw none h =
        Keeps->>= I rest (λ ts. pure (converted lower raw ∷ ts)) h (λ ts s r. r)
    convert_one-Keeps rest raw (some e) h =
        Keeps->>= I (fail_task lower raw.task_id e) (λ u. rest) (fail_task-Keeps raw.task_id e)
          (λ u. h)

    pub convert_tasks-Keeps : (raws : List RawTask) → Keeps I (convert_tasks lower raws)
    unfolding convert_tasks
    convert_tasks-Keeps [] = λ s r. r
    convert_tasks-Keeps (raw ∷ raws) =
        convert_one-Keeps (convert_tasks lower raws) raw raw.problem (convert_tasks-Keeps raws)

    pub process_tasks-Keeps : (raws : List RawTask) → Keeps I (process_tasks lower raws)
    unfolding process_tasks
    process_tasks-Keeps raws =
        Keeps->>= I (convert_tasks lower raws) (process_converted lower) (convert_tasks-Keeps raws)
          (λ ts. process_converted-Keeps ts)
