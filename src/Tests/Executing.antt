-- ===== src/Tests/Executing.antt =====
-- Runs of scheduler/core_execution_task_worker.py on concrete scripts.
use ledgermind_local.Prelude.{
  ℕ, false, none, some, List, [], ◌∷◌, String, ◌≡◌, refl, if◌then◌else◌, text_eq, length,
}
use ledgermind_local.Prelude.Text.{is_empty}
use ledgermind_local.Tasks.{
  Exn, ExecutionResult, GenericExecutionTask, RawTask, returned, State, submitted, failed_task,
  completed, failed, is_one_of, domain_rejected_error, value_or_type_error, accepted,
  submission_raises,
}
use ledgermind_local.Tasks.Policy.{
  classify_execution_error, classify_by_class, core_rejection_error_code, core_code, find_reason,
  safe_error_code, is_retryable,
}
use ledgermind_local.Tasks.Policy.Texts.{starts_with, is_within, sub_gaps, strip_last}
use ledgermind_local.Tasks.Policy.Safe.{IsSound, classify_execution_error-IsSound}
use ledgermind_local.Tasks.Rules.{Ends}
use ledgermind_local.Tasks.Worker.{
  execute, execute_batch, opens_circuit, open_provider_circuit_on_failure, submit_execution_result,
  fail_execution_task, record_egress_audit, deliver_result, is_structured, generate_again, is_final,
  retry_rejected, deliver_or_retry, is_malformed, deliver_second, deliver_first,
  deliver_result_with_structured_retry, fail_task, convert_one, convert_tasks, deliver_one,
  deliver_all, process_converted, process_tasks, poll_execution_tasks, after_poll, process_spaces,
  process_once,
}
use ledgermind_local.Tasks.Bounded.{Within, deliver_result_with_structured_retry-Within}
use ledgermind_local.Tasks.Answered.{count_converted}
use ledgermind_local.Tasks.Polled.{Covered, push_all, process_once-Covered}

-- A `str.lower` for texts without capitals.
abbrev same : String → String
same s = s

abbrev rejection : Exn
rejection = record {
  class = domain_rejected_error;
  code = some "invalid request";
  detail = "round claim content is too long";
  status_code = none;
  message = "";
}

rejected : classify_execution_error same rejection ≡ record {
  error_code = "core_rejected_round_semantic_claim_content_invalid";
  retryable = false;
  retry_after_seconds = 0;
}
unfolding classify_execution_error classify_by_class core_rejection_error_code core_code sub_gaps
    strip_last find_reason is_within starts_with is_one_of text_eq is_empty
rejected = refl

classify_execution_error-IsSound_example : IsSound (classify_execution_error same rejection)
classify_execution_error-IsSound_example = classify_execution_error-IsSound same rejection

abbrev good : ExecutionResult
good = record { status = completed; error_code = none; egress_audit = false }

abbrev bad : ExecutionResult
bad = record { status = failed; error_code = some "length_truncation"; egress_audit = false }

abbrev raw : String → RawTask
raw id = record { task_id = id; task_kind = "generate_json"; problem = none }

abbrev broken : String → RawTask
broken id = record {
  task_id = id;
  task_kind = "embed_texts";
  problem = some (record {
    class = value_or_type_error;
    code = none;
    detail = "";
    status_code = none;
    message = "no kind";
  });
}

-- One poll with three tasks, of which the second is malformed; the third one's result has a wrong shape
-- twice.
abbrev script : State
script = record {
  polls = returned (raw "a" ∷ broken "b" ∷ raw "c" ∷ []) ∷ [];
  executions = returned bad ∷ returned good ∷ [];
  batches = returned (good ∷ bad ∷ []) ∷ [];
  submissions = accepted ∷ submission_raises rejection ∷ [];
  failure_reports = [];
  connections = [];
  polled = [];
  executed = [];
  settled = [];
  provider_circuit_open = false;
}

abbrev tasks : List RawTask
tasks = raw "a" ∷ broken "b" ∷ raw "c" ∷ []

pass :
    (process_tasks same tasks script).1.settled
    ≡ failed_task "c"
        (record { error_code = "length_truncation"; retryable = false; retry_after_seconds = 0 })
      ∷ submitted "a"
      ∷ failed_task "b" (record {
        error_code = "invalid_model_output";
        retryable = false;
        retry_after_seconds = 0;
      })
      ∷ []
unfolding process_tasks convert_tasks convert_one fail_task fail_execution_task process_converted
    execute_batch deliver_all deliver_one open_provider_circuit_on_failure opens_circuit
    deliver_result_with_structured_retry record_egress_audit deliver_first is_malformed
    is_structured is_one_of text_eq generate_again execute deliver_second deliver_or_retry
    deliver_result submit_execution_result retry_rejected is_final safe_error_code is_retryable
    classify_execution_error classify_by_class
pass = refl

fits : length (good ∷ bad ∷ []) ≡ count_converted same tasks
unfolding count_converted
fits = refl

abbrev task : GenericExecutionTask
task = record { task_id = "c"; task_kind = "generate_json" }

deliver_result_with_structured_retry-Within_example :
    let bound : ℕ = if is_structured task then 2 else 0 in
    Ends
      (λ u t. Within 0 bound t)
      (Within 0 bound)
      (deliver_result_with_structured_retry task bad script)
deliver_result_with_structured_retry-Within_example =
    deliver_result_with_structured_retry-Within task bad script

-- A provider failure opens the circuit, and the second space is not polled.
abbrev locked_out : State
locked_out = record script {
  batches =
      returned (
        good
        ∷ record { status = failed; error_code = some "secret_missing"; egress_audit = false }
        ∷ [])
      ∷ [];
}

paused : (process_once same false ("x" ∷ "y" ∷ []) locked_out).1.polled ≡ "x" ∷ []
unfolding process_once process_spaces poll_execution_tasks after_poll process_tasks convert_tasks
    convert_one fail_task fail_execution_task process_converted execute_batch deliver_all
    deliver_one open_provider_circuit_on_failure opens_circuit deliver_result_with_structured_retry
    record_egress_audit deliver_first is_malformed is_structured is_one_of text_eq generate_again
    execute deliver_second deliver_or_retry deliver_result submit_execution_result retry_rejected
    is_final safe_error_code is_retryable classify_execution_error classify_by_class
paused = refl

-- A report that the Core does not answer ends the pass: the tasks that were converted are not executed.
unanswered :
    (process_tasks same tasks (record script { failure_reports = some rejection ∷ [] })).1.batches
    ≡ returned (good ∷ bad ∷ []) ∷ []
unfolding process_tasks convert_tasks convert_one fail_task fail_execution_task process_converted
    execute_batch
unanswered = refl

process_once-Covered_example :
    Ends
      (Covered same (push_all ("x" ∷ "y" ∷ []) []))
      (λ t. Unit {0})
      (process_once same false ("x" ∷ "y" ∷ []) script)
process_once-Covered_example = process_once-Covered same ("x" ∷ "y" ∷ []) script
