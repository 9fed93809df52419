-- ===== src/Tests/Providing.antt =====
-- Runs of inference/core_task_executor.py with small providers.
use ledgermind_local.Prelude.{
  ℕ, ◌+◌, true, false, none, some, List, [], ◌∷◌, String, ◌≡◌, refl, All, text_eq, if◌then◌else◌,
}
use ledgermind_local.Prelude.Text.{is_empty}
use ledgermind_local.Tasks.{
  is_one_of, ExecutionResult, RawTask, State, value_or_type_error, completed, failed,
}
use ledgermind_local.Tasks.Settled.{is_reported}
use ledgermind_local.Tasks.Rules.{Ends}
use ledgermind_local.Tasks.Worker.{process_tasks}
use ledgermind_local.Tasks.Answered.{Never, count_converted}
use ledgermind_local.Executor.{
  Exn, returned, raised, plain, other_exception, GenericExecutionTask, InferenceProfile,
  EmbeddingRequestSpec, EmbeddingBatchRequest, EmbeddingBatch, Work, wait_loop, waiting,
  run_bounded,
}
use ledgermind_local.Executor.Results.{
  GenericExecutionResult, failed_result, failure_result, error_category, texts_bytes, text_bytes,
}
use ledgermind_local.Executor.Single.{Services, memory_space_id}
use ledgermind_local.Executor.Batch.{
  specs_of, all_embed, fail_pairs, resolve_profiles, embed_resolved, execute_embed_texts_batch,
  execute_batch, value_error,
}
use ledgermind_local.Executor.Waiting.{Bounded, run_bounded-Bounded}
use ledgermind_local.Executor.Zipped.{Answers}
use ledgermind_local.Executor.Batched.{breaks, one_lacks_profile, stops_late, execute_batch-Answers}
use ledgermind_local.Executor.Worked.{answer_of, process_tasks-execute_batch}

abbrev spec : EmbeddingRequestSpec
spec = record {
  texts = "abc" ∷ [];
  purpose = "value";
  dimensions = some 2;
  profile_fingerprint = none;
  config_fingerprint = none;
  privacy_class = "default";
  cache_namespace = "";
  cache_keys = none;
  deadline = none;
  role = none;
  renderer_version = none;
}

abbrev task : String → String → GenericExecutionTask
task id space = record {
  task_id = id;
  task_kind = "embed_texts";
  operation = none;
  profile_slot = "embedding";
  model_request = none;
  embedding_request = some spec;
  lease_memory_space_id = some space;
  operation_input = none;
  attempt_kind = none;
}

abbrev local_profile : InferenceProfile
local_profile = record { profile_id = "p"; model = "m"; base_url = ""; provider_kind = "local" }

abbrev prompt : {A : Type 0} → A → Work A
prompt a = record { outcome = returned a; done_at = some 5; cancelled_at = none; lag = λ n. 0 }

abbrev batch_of : List EmbeddingBatchRequest → List EmbeddingBatch
batch_of [] = []
batch_of (r ∷ rs) = record { vectors = "v" ∷ []; dimensions = 2; model = "m" } ∷ batch_of rs

-- Only the memory space "here" has a profile.
abbrev services : Services
services = record {
  generate_json = λ t spec force. record {
    outcome = raised (plain other_exception);
    done_at = none;
    cancelled_at = none;
    lag = λ n. 0;
  };
  embed_many = λ rs. prompt (batch_of rs);
  resolve_profile = λ space slot.
      if text_eq space "here" then returned local_profile else raised (plain other_exception);
  model_request_bytes = λ m. 10;
  generate_json_timeout = 30;
  embed_texts_timeout = 30;
}

abbrev two : List GenericExecutionTask
two = task "a" "here" ∷ task "b" "here" ∷ []

abbrev astray : List GenericExecutionTask
astray = task "a" "here" ∷ task "b" "elsewhere" ∷ []

-- The second task's profile is missing: the whole batch is lost in a ValueError.
late : execute_batch services none astray ≡ (raised value_error, none)
unfolding execute_batch all_embed specs_of execute_embed_texts_batch resolve_profiles
    memory_space_id embed_resolved fail_pairs failure_result failed_result text_eq texts_bytes
    text_bytes error_category is_one_of is_empty
late = refl

execute_batch-Answers_example :
    Answers (breaks services two) two (execute_batch services (some false) two).0
execute_batch-Answers_example = execute_batch-Answers services (some false) two

-- The batch of two that `execute_batch-Answers_example` is about does not break.
whole : breaks services two ≡ false
unfolding breaks all_embed specs_of stops_late one_lacks_profile memory_space_id text_eq
whole = refl

abbrev stuck : Work ℕ
stuck = record { outcome = returned 1; done_at = none; cancelled_at = some 0; lag = λ n. n + 3 }

run_bounded-Bounded_example :
    ((wait_loop 31 none stuck 30 0 ≡ waiting) → ⊥)
    × Bounded none stuck 30 (run_bounded 30 none stuck)
run_bounded-Bounded_example = run_bounded-Bounded 30 none stuck (λ now. refl)

abbrev raw : String → RawTask
raw id = record { task_id = id; task_kind = "embed_texts"; problem = none }

abbrev view : GenericExecutionResult → ExecutionResult
view r = record {
  status = if is_empty r.task_id then failed else completed;
  error_code = r.error_code;
  egress_audit = true;
}

abbrev blame : Exn → ledgermind_local.Tasks.Exn
blame e = record {
  class = value_or_type_error;
  code = e.code;
  detail = "";
  status_code = none;
  message = "";
}

-- The poll's tasks, and the executor's answer to those of `astray`.
abbrev script : State
script = record {
  polls = [];
  executions = [];
  batches = answer_of view blame (execute_batch services none astray).0 ∷ [];
  submissions = [];
  failure_reports = [];
  connections = [];
  polled = [];
  executed = [];
  settled = [];
  provider_circuit_open = false;
}

counted : 2 ≡ count_converted (λ s. s) (raw "a" ∷ raw "b" ∷ [])
unfolding count_converted
counted = refl

process_tasks-execute_batch_example :
    Ends
      (λ u t.
        All (λ (x : RawTask). is_reported x.task_id t.settled ≡ true) (raw "a" ∷ raw "b" ∷ []))
      Never
      (process_tasks (λ s. s) (raw "a" ∷ raw "b" ∷ []) script)
process_tasks-execute_batch_example =
    process_tasks-execute_batch view blame (λ s. s) services none astray (raw "a" ∷ raw "b" ∷ [])
      script refl counted refl
