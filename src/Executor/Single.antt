-- ===== src/Executor/Single.antt =====
-- `execute` of inference/core_task_executor.py for a single task. The providers, the profile resolver and
-- the JSON of a model request are parameters.
use ledgermind_local.Prelude.{
  ℕ, Bool, true, false, ◌||◌, not, Option, none, some, List, [], ◌∷◌, String, text_eq, ◌==◌,
  if◌then◌else◌,
}
use ledgermind_local.Prelude.Text.{is_empty}
use ledgermind_local.Tasks.{is_one_of}
use ledgermind_local.Executor.{
  Attempt, returned, raised, plain, other_exception, ModelRequestSpec, EmbeddingRequestSpec,
  GenericExecutionTask, InferenceProfile, EmbeddingBatchRequest, EmbeddingBatch,
  StructuredJsonResult, Work, Token, run_bounded,
}
use ledgermind_local.Executor.Results.{
  completed, failed, GenericExecutionResult, failed_result, failure_result, resolved_profile_id,
  unknown_kind_result, embedding_bytes, texts_bytes,
}

-- What the executor is built with. `generate_json` is given whether a fallback of the provider is forced.
pub record Services : Type 0 where
  pub generate_json : GenericExecutionTask → ModelRequestSpec → Bool → Work StructuredJsonResult
  pub embed_many : List EmbeddingBatchRequest → Work (List EmbeddingBatch)
  pub resolve_profile : (memory_space_id slot : String) → Attempt InferenceProfile
  pub model_request_bytes : ModelRequestSpec → ℕ
  pub generate_json_timeout : ℕ
  pub embed_texts_timeout : ℕ

-- `_memory_space_id`
unfoldable pub memory_space_id : GenericExecutionTask → String
memory_space_id task = elim task.lease_memory_space_id [ none ↦ "" | some s ↦ s ]

-- `str(None)` aside, the kind of the attempt that the structured generation names.
abbrev pub is_empty_recheck : Option String → Bool
is_empty_recheck none = false
is_empty_recheck (some kind) = text_eq kind "empty_recheck"

unfoldable pub generated : GenericExecutionTask → ℕ → StructuredJsonResult → GenericExecutionResult
generated task input_bytes r = record {
  task_id = task.task_id;
  task_kind = task.task_kind;
  operation = task.operation;
  operation_input = task.operation_input;
  status = completed;
  output = some r.data_json;
  embedding_result = none;
  egress_audit = record {
    task_id = task.task_id;
    task_kind = task.task_kind;
    profile_id = some r.profile_id;
    provider = some r.provider;
    model = some r.model;
    input_bytes = input_bytes;
    output_bytes = r.response_bytes;
    status = completed;
    input_tokens = r.input_tokens;
    output_tokens = r.output_tokens;
    total_tokens = r.total_tokens;
    usage_unknown = r.usage_unknown;
  };
  error_code = none;
  raw_model_text = some r.raw_text;
  structured_output_mode = some r.structured_output_mode;
  contract_digest = r.contract_digest;
  tool_name = r.tool_name;
  error_category = none;
}

unfoldable pub after_generate :
    GenericExecutionTask → ℕ → Attempt StructuredJsonResult × Token → GenericExecutionResult × Token
unfolding generated failure_result resolved_profile_id
after_generate task n (returned r, token) = (generated task n r, token)
after_generate task n (raised e, token) =
    (failure_result task e n (resolved_profile_id e none), token)

-- The request that the provider is asked for, from a task's spec and its profile.
unfoldable pub batch_request : EmbeddingRequestSpec → InferenceProfile → EmbeddingBatchRequest
unfolding is_empty
batch_request spec profile = record {
  texts = spec.texts;
  profile = profile;
  purpose = spec.purpose;
  dimensions = spec.dimensions;
  cache_keys = spec.cache_keys;
  cache_namespace =
      if is_empty spec.cache_namespace then spec.privacy_class else spec.cache_namespace;
  profile_fingerprint = spec.profile_fingerprint;
  config_fingerprint = spec.config_fingerprint;
  privacy_class = spec.privacy_class;
  deadline = spec.deadline;
  role = spec.role;
  renderer_version = spec.renderer_version;
}

abbrev pub dimensions_differ : Option ℕ → ℕ → Bool
dimensions_differ none n = false
dimensions_differ (some d) n = not (n == d)

-- A batch of the provider, as the result of the task it was made for.
unfoldable pub embedded :
    GenericExecutionTask
    → EmbeddingRequestSpec
    → InferenceProfile
    → EmbeddingBatch
    → GenericExecutionResult
unfolding failed_result texts_bytes embedding_bytes
embedded task spec profile batch =
    if dimensions_differ spec.dimensions batch.dimensions
    then failed_result task "embedding_dimension_mismatch" (texts_bytes spec.texts)
        (some profile.profile_id) failed
    else record {
      task_id = task.task_id;
      task_kind = task.task_kind;
      operation = task.operation;
      operation_input = task.operation_input;
      status = completed;
      output = none;
      embedding_result = some batch;
      egress_audit = record {
        task_id = task.task_id;
        task_kind = task.task_kind;
        profile_id = some profile.profile_id;
        provider = some "local";
        model = some batch.model;
        input_bytes = texts_bytes spec.texts;
        output_bytes = embedding_bytes batch;
        status = completed;
        input_tokens = none;
        output_tokens = none;
        total_tokens = none;
        usage_unknown = true;
      };
      error_code = none;
      raw_model_text = none;
      structured_output_mode = none;
      contract_digest = none;
      tool_name = none;
      error_category = none;
    }

-- `[0]` of an empty tuple is an IndexError, which has no code.
unfoldable pub after_embed :
    GenericExecutionTask
    → EmbeddingRequestSpec
    → InferenceProfile
    → Attempt (List EmbeddingBatch) × Token
    → GenericExecutionResult × Token
unfolding embedded failure_result resolved_profile_id
after_embed task spec profile (raised e, token) = (
  failure_result task e (texts_bytes spec.texts) (resolved_profile_id e (some profile.profile_id)),
  token,
)
after_embed task spec profile (returned [], token) = (
  failure_result task (plain other_exception) (texts_bytes spec.texts) (some profile.profile_id),
  token,
)
after_embed task spec profile (returned (b ∷ bs), token) = (embedded task spec profile b, token)

module _ (s : Services) where
  -- `_execute_generate_json`
  unfoldable pub execute_generate_json :
      Token → Bool → GenericExecutionTask → Option ModelRequestSpec → GenericExecutionResult × Token
  unfolding failed_result after_generate run_bounded
  execute_generate_json token force task none =
      (failed_result task "invalid_request" 0 none failed, token)
  execute_generate_json token force task (some spec) =
      after_generate task (s.model_request_bytes spec) (
        run_bounded s.generate_json_timeout token
          (s.generate_json task spec (is_empty_recheck task.attempt_kind || force)))

  -- The tail of `_execute_embed_texts`, after `resolve_profile`.
  unfoldable pub embed_with :
      Token
      → GenericExecutionTask
      → EmbeddingRequestSpec
      → Attempt InferenceProfile
      → GenericExecutionResult × Token
  unfolding failure_result resolved_profile_id after_embed run_bounded batch_request
  embed_with token task spec (raised e) =
      (failure_result task e (texts_bytes spec.texts) (resolved_profile_id e none), token)
  embed_with token task spec (returned profile) =
      after_embed task spec profile
        (run_bounded s.embed_texts_timeout token (s.embed_many (batch_request spec profile ∷ [])))

  -- `_execute_embed_texts`
  unfoldable pub execute_embed_texts :
      Token → GenericExecutionTask → Option EmbeddingRequestSpec → GenericExecutionResult × Token
  unfolding failed_result embed_with memory_space_id
  execute_embed_texts token task none = (failed_result task "invalid_request" 0 none failed, token)
  execute_embed_texts token task (some spec) =
      embed_with token task spec (s.resolve_profile (memory_space_id task) task.profile_slot)

  -- `execute`
  unfoldable pub execute : Token → Bool → GenericExecutionTask → GenericExecutionResult × Token
  unfolding execute_generate_json execute_embed_texts unknown_kind_result
  execute token force task =
      if is_one_of ("generate_json" ∷ "object_resolution" ∷ []) task.task_kind
      then execute_generate_json token force task task.model_request
      else if text_eq task.task_kind "embed_texts"
      then execute_embed_texts token task task.embedding_request
      else (unknown_kind_result task, token)
