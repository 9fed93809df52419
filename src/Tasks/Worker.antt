-- ===== src/Tasks/Worker.antt =====
-- scheduler/core_execution_task_worker.py: `CoreExecutionTaskWorker`.
use ledgermind_local.Prelude.{
  ℕ, ◌+◌, Bool, true, false, not, ◌&&◌, ◌||◌, Option, none, some, List, [], ◌∷◌, length, String,
  if◌then◌else◌,
}
use ledgermind_local.Tasks.{
  ErrorClass, Exn, ExecutionFailureClassification, Status, ExecutionResult, GenericExecutionTask,
  RawTask, Run, returned, raised, Submission, accepted, refused, submission_raises, submitted,
  failed_task, State, M, ◌>>=◌, ◌>>◌, pure, throw, answer, try_except, first_of, rest_of, is_one_of,
  code_is, completed, failed, timeout, cancelled, value_or_type_error, transient_core_error,
  domain_rejected_error, runtime_error,
}
use ledgermind_local.Tasks.Policy.{
  classify_execution_error, safe_error_code, is_retryable, status_text,
}
use ledgermind_local.Tasks.Policy.Codes.{circuit_codes, shape_codes, structured_kinds}

abbrev pub plain_error : ErrorClass → String → Exn
plain_error k text = record {
  class = k;
  code = none;
  detail = "";
  status_code = none;
  message = text;
}

abbrev pub is_completed : Status → Bool
is_completed completed = true
is_completed failed = false
is_completed timeout = false
is_completed cancelled = false

abbrev pub is_failed : Status → Bool
is_failed completed = false
is_failed failed = true
is_failed timeout = false
is_failed cancelled = false

abbrev pub is_rejection : ErrorClass → Bool
is_rejection domain_rejected_error = true
is_rejection _ = false

-- `self._executor.execute`; a script that has ended answers with a completed result.
abbrev pub plain_result : Run ExecutionResult
plain_result = returned (record { status = completed; error_code = none; egress_audit = false })

unfoldable pub execute : GenericExecutionTask → M ExecutionResult
execute task s =
    answer (first_of plain_result s.executions)
      (record s { executions = rest_of s.executions; executed = task.task_id ∷ s.executed })

-- `self._executor.execute_batch`
unfoldable pub execute_batch : List GenericExecutionTask → M (List ExecutionResult)
execute_batch tasks s =
    answer (first_of (returned []) s.batches) (record s { batches = rest_of s.batches })

unfoldable pub opens_circuit : ExecutionResult → Bool
unfolding is_one_of
opens_circuit r = is_failed r.status && code_is circuit_codes r.error_code

-- `_open_provider_circuit_on_failure`
unfoldable pub open_provider_circuit_on_failure : ExecutionResult → M (Unit {0})
unfolding opens_circuit
open_provider_circuit_on_failure r s =
    if opens_circuit r
    then (returned tt, record s { provider_circuit_open = true })
    else (returned tt, s)

abbrev pub settle_submission : String → Submission → M (Unit {0})
settle_submission task_id accepted s =
    (returned tt, record s { settled = submitted task_id ∷ s.settled })
settle_submission task_id refused s =
    (raised (plain_error transient_core_error "Core did not accept execution result"), s)
settle_submission task_id (submission_raises e) s = (raised e, s)

-- `self._gateway.submit_execution_result`, and the test of its answer
unfoldable pub submit_execution_result : String → M (Unit {0})
submit_execution_result task_id s =
    settle_submission task_id (first_of accepted s.submissions)
      (record s { submissions = rest_of s.submissions })

abbrev pub settle_failure : String → ExecutionFailureClassification → Option Exn → M (Unit {0})
settle_failure task_id c none s =
    (returned tt, record s { settled = failed_task task_id c ∷ s.settled })
settle_failure task_id c (some e) s = (raised e, s)

-- `self._gateway.fail_execution_task`
unfoldable pub fail_execution_task : String → ExecutionFailureClassification → M (Unit {0})
fail_execution_task task_id c s =
    settle_failure task_id c (first_of none s.failure_reports)
      (record s { failure_reports = rest_of s.failure_reports })

abbrev pub raise_if : Option Exn → M (Unit {0})
raise_if none s = (returned tt, s)
raise_if (some e) s = (raised e, s)

-- `_record_egress_audit`: only the opening of its connection can raise.
unfoldable pub record_egress_audit : ExecutionResult → M (Unit {0})
record_egress_audit r s =
    if r.egress_audit
    then raise_if (first_of none s.connections) (record s { connections = rest_of s.connections })
    else (returned tt, s)

abbrev pub failure_of : ExecutionResult → ExecutionFailureClassification
failure_of r = record {
  error_code = safe_error_code r.error_code (status_text r.status);
  retryable = is_retryable r;
  retry_after_seconds = if is_retryable r then 60 else 0;
}

-- `_deliver_result`
unfoldable pub deliver_result : GenericExecutionTask → ExecutionResult → M (Unit {0})
unfolding submit_execution_result fail_execution_task
deliver_result task r s =
    if is_completed r.status
    then submit_execution_result task.task_id s
    else fail_execution_task task.task_id (failure_of r) s

unfoldable pub is_structured : GenericExecutionTask → Bool
unfolding is_one_of
is_structured task = is_one_of structured_kinds task.task_kind

-- `self._executor.execute(task, force_provider_fallback=True)`, and its audit
unfoldable pub generate_again : GenericExecutionTask → M ExecutionResult
unfolding execute record_egress_audit
generate_again task = execute task >>= λ r. record_egress_audit r >> pure r

unfoldable pub is_final : GenericExecutionTask → Exn → Bool
unfolding is_structured is_one_of
is_final task e =
    not (is_rejection e.class)
    || (not (is_structured task) || code_is ("invalid_execution_result" ∷ []) e.code)

unfoldable pub retry_rejected : GenericExecutionTask → Exn → M (Unit {0})
unfolding is_final generate_again deliver_result
retry_rejected task e s =
    if is_final task e
    then (raised e, s)
    else (generate_again task >>= λ r. deliver_result task r) s

unfoldable pub deliver_or_retry : GenericExecutionTask → ExecutionResult → M (Unit {0})
unfolding deliver_result retry_rejected
deliver_or_retry task r = try_except (deliver_result task r) (retry_rejected task)

unfoldable pub is_malformed : GenericExecutionTask → ExecutionResult → Bool
unfolding is_structured is_one_of
is_malformed task r = is_structured task && (is_failed r.status && code_is shape_codes r.error_code)

unfoldable pub deliver_second : GenericExecutionTask → ExecutionResult → M (Unit {0})
unfolding deliver_result deliver_or_retry
deliver_second task r s =
    if is_completed r.status then deliver_result task r s else deliver_or_retry task r s

-- `_deliver_result_with_structured_retry`
unfoldable pub deliver_first : GenericExecutionTask → ExecutionResult → M (Unit {0})
unfolding is_malformed generate_again deliver_second deliver_or_retry
deliver_first task r s =
    if is_malformed task r
    then (generate_again task >>= deliver_second task) s
    else deliver_or_retry task r s

unfoldable pub deliver_result_with_structured_retry :
    GenericExecutionTask → ExecutionResult → M (Unit {0})
unfolding record_egress_audit deliver_first
deliver_result_with_structured_retry task r = record_egress_audit r >> deliver_first task r

module _ (lower : String → String) where
  -- `_fail_task`
  unfoldable pub fail_task : String → Exn → M (Unit {0})
  unfolding fail_execution_task
  fail_task task_id e = fail_execution_task task_id (classify_execution_error lower e)

  abbrev pub converted : RawTask → GenericExecutionTask
  converted raw = record { task_id = raw.task_id; task_kind = raw.task_kind }

  -- `execution_task_from_wire`, for what the worker reads of its result
  abbrev pub task_from_wire : RawTask → Run GenericExecutionTask
  task_from_wire raw = elim raw.problem [ none ↦ returned (converted raw) | some e ↦ raised e ]

  -- `_process_task`
  unfoldable pub process_task : RawTask → M (Unit {0})
  unfolding fail_task execute open_provider_circuit_on_failure deliver_result_with_structured_retry
  process_task raw =
      try_except
        (answer (task_from_wire raw) >>= λ task. execute task >>= λ r.
          open_provider_circuit_on_failure r >> deliver_result_with_structured_retry task r)
        (fail_task raw.task_id)

  unfoldable pub convert_one :
      M (List GenericExecutionTask) → RawTask → Option Exn → M (List GenericExecutionTask)
  unfolding fail_task
  convert_one rest raw none = rest >>= λ tasks. pure (converted raw ∷ tasks)
  convert_one rest raw (some e) = fail_task raw.task_id e >> rest

  -- The conversions of `_process_tasks`.
  unfoldable pub convert_tasks : List RawTask → M (List GenericExecutionTask)
  unfolding convert_one
  convert_tasks [] = pure []
  convert_tasks (raw ∷ raws) = convert_one (convert_tasks raws) raw raw.problem

  unfoldable pub fail_all : List GenericExecutionTask → Exn → M (Unit {0})
  unfolding fail_task
  fail_all [] e = pure tt
  fail_all (task ∷ tasks) e = fail_task task.task_id e >> fail_all tasks e

  unfoldable pub deliver_one : GenericExecutionTask → ExecutionResult → M (Unit {0})
  unfolding open_provider_circuit_on_failure deliver_result_with_structured_retry fail_task
  deliver_one task r =
      open_provider_circuit_on_failure r
      >> try_except (deliver_result_with_structured_retry task r) (fail_task task.task_id)

  -- `zip(..., strict=True)`
  unfoldable pub deliver_all : List GenericExecutionTask → List ExecutionResult → M (Unit {0})
  unfolding deliver_one
  deliver_all [] [] = pure tt
  deliver_all [] (r ∷ results) =
      throw (plain_error value_or_type_error "zip() argument 2 is longer than argument 1")
  deliver_all (task ∷ tasks) [] =
      throw (plain_error value_or_type_error "zip() argument 2 is shorter than argument 1")
  deliver_all (task ∷ tasks) (r ∷ results) = deliver_one task r >> deliver_all tasks results

  abbrev pub after_batch :
      List GenericExecutionTask → Run (List ExecutionResult) × State → Run (Unit {0}) × State
  after_batch tasks (raised e, s) = fail_all tasks e s
  after_batch tasks (returned results, s) = deliver_all tasks results s

  unfoldable pub process_converted : List GenericExecutionTask → M (Unit {0})
  unfolding execute_batch fail_all deliver_all
  process_converted [] s = (returned tt, s)
  process_converted (task ∷ tasks) s = after_batch (task ∷ tasks) (execute_batch (task ∷ tasks) s)

  -- `_process_tasks`
  unfoldable pub process_tasks : List RawTask → M (Unit {0})
  unfolding convert_tasks process_converted
  process_tasks raws = convert_tasks raws >>= process_converted

  -- `self._gateway.poll_execution_tasks`; a script that has ended answers without tasks.
  unfoldable pub poll_execution_tasks : String → M (List RawTask)
  poll_execution_tasks space s =
      answer (first_of (returned []) s.polls)
        (record s { polls = rest_of s.polls; polled = space ∷ s.polled })

  abbrev pub unless_open : M ℕ → ℕ → M ℕ
  unless_open rest n s = if s.provider_circuit_open then (returned n, s) else rest s

  unfoldable pub after_poll : (ℕ → M ℕ) → ℕ → Run (List RawTask) × State → Run ℕ × State
  unfolding process_tasks
  after_poll rest n (raised e, s) = rest n s
  after_poll rest n (returned raws, s) =
      (process_tasks raws >> unless_open (rest (n + length raws)) (n + length raws)) s

  -- The loop of `process_once` over the memory spaces.
  unfoldable pub process_spaces : List String → ℕ → M ℕ
  unfolding poll_execution_tasks after_poll
  process_spaces [] processed s = (returned processed, s)
  process_spaces (space ∷ spaces) processed s =
      after_poll (process_spaces spaces) processed (poll_execution_tasks space s)

  unfoldable pub process_once : (closed : Bool) → (spaces : List String) → M ℕ
  unfolding process_spaces
  process_once closed spaces s =
      if closed
      then (raised (plain_error runtime_error "Core execution task worker is closed"), s)
      else (if s.provider_circuit_open then (returned 0, s) else process_spaces spaces 0 s)
