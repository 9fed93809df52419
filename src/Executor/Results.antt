-- ===== src/Executor/Results.antt =====
-- The results and the egress audits of inference/core_task_executor.py: `_failed_result`,
-- `_failure_result`, and the measures that an audit records.
use Prim.Native.Char.{code}
use Prim.Native.String.{[] as str_nil, ◌∷◌ as ◌str_cons◌}
use text.Mathlib.Text.{starts_with}
use ledgermind_local.Prelude.{
  ℕ, ◌+◌, ◌*◌, Bool, true, Option, none, some, List, [], ◌∷◌, String, ltb, length, if◌then◌else◌,
}
use ledgermind_local.Prelude.Text.{is_empty}
use ledgermind_local.Tasks.{is_one_of}
use ledgermind_local.Executor.{
  ExceptionKind, Exn, execution_timeout, provider_timeout, execution_cancelled, provider_cancelled,
  other_exception, EmbeddingBatch, GenericExecutionTask,
}

pub data ExecutionStatus : Type 0 where
  completed failed unknown_task_kind cancelled timeout : ExecutionStatus

pub record EgressAuditRecord : Type 0 where
  pub task_id : String
  pub task_kind : String
  pub profile_id : Option String
  pub provider : Option String
  pub model : Option String
  pub input_bytes : ℕ
  pub output_bytes : ℕ
  pub status : ExecutionStatus
  pub input_tokens : Option ℕ
  pub output_tokens : Option ℕ
  pub total_tokens : Option ℕ
  pub usage_unknown : Bool

pub record GenericExecutionResult : Type 0 where
  pub task_id : String
  pub task_kind : String
  pub operation : Option String
  pub operation_input : Option String
  pub status : ExecutionStatus
  pub output : Option String
  pub embedding_result : Option EmbeddingBatch
  pub egress_audit : EgressAuditRecord
  pub error_code : Option String
  pub raw_model_text : Option String
  pub structured_output_mode : Option String
  pub contract_digest : Option String
  pub tool_name : Option String
  pub error_category : Option String  -- of the metadata

-- `_error_category`
unfoldable pub error_category : String → String
unfolding is_one_of
error_category c =
    if is_one_of
      ("provider_timeout" ∷ "provider_transport_error" ∷ "provider_unavailable" ∷ "transport_error"
        ∷ "transient_provider_error" ∷ "timeout" ∷ [])
      c
    then "transport_failure"
    else if is_one_of ("invalid_json_response" ∷ "invalid_provider_response" ∷ []) c
    then "json_parse_failure"
    else if is_one_of ("length_truncation" ∷ []) c
    then "json_parse_failure"
    else if is_one_of ("invalid_model_output" ∷ "schema_shape_failure" ∷ []) c
    then "schema_shape_failure"
    else if is_one_of
        ("semantic_validation_failure" ∷ "semantic_output_invalid" ∷ "semantic_repair_rejected"
          ∷ [])
        c
    then "semantic_validation_failure"
    else if is_one_of ("language_fidelity_failure" ∷ "language_mismatch" ∷ []) c
    then "language_fidelity_failure"
    else if is_one_of
        ("grounding_failure" ∷ "claim_grounding_failure" ∷ "unknown_anchor_ref"
          ∷ "unknown_candidate_id" ∷ [])
        c
    then "grounding_failure"
    else if is_one_of
        ("authentication_error" ∷ "configuration_error" ∷ "provider_capability_unverified"
          ∷ "secret_missing" ∷ [])
        c
    then "transport_failure"
    else if starts_with c "provider_"
    then "transport_failure"
    else "schema_shape_failure"

-- `_failed_result`
unfoldable pub failed_result :
    GenericExecutionTask → String → ℕ → Option String → ExecutionStatus → GenericExecutionResult
failed_result task error_code input_bytes profile_id status = record {
  task_id = task.task_id;
  task_kind = task.task_kind;
  operation = task.operation;
  operation_input = task.operation_input;
  status = status;
  output = none;
  embedding_result = none;
  egress_audit = record {
    task_id = task.task_id;
    task_kind = task.task_kind;
    profile_id = profile_id;
    provider = none;
    model = none;
    input_bytes = input_bytes;
    output_bytes = 0;
    status = status;
    input_tokens = none;
    output_tokens = none;
    total_tokens = none;
    usage_unknown = true;
  };
  error_code = some error_code;
  raw_model_text = none;
  structured_output_mode = none;
  contract_digest = none;
  tool_name = none;
  error_category = some (error_category error_code);
}

-- The text, unless it is missing or empty.
abbrev pub nonempty_or {ℓ} : {A : Type ℓ} → Option String → A → (String → A) → A
nonempty_or none d f = d
nonempty_or (some s) d f = if is_empty s then d else f s

-- The class of an exception decides the status, and its `code` the error code of the other classes.
abbrev pub status_of : ExceptionKind → ExecutionStatus
status_of execution_timeout = timeout
status_of provider_timeout = timeout
status_of execution_cancelled = cancelled
status_of provider_cancelled = cancelled
status_of other_exception = failed

abbrev pub code_of : ExceptionKind → Option String → String
code_of execution_timeout c = "timeout"
code_of provider_timeout c = "timeout"
code_of execution_cancelled c = "cancelled"
code_of provider_cancelled c = "cancelled"
code_of other_exception c = nonempty_or c "execution_failed" (λ s. s)

-- `_failure_result`
unfoldable pub failure_result :
    GenericExecutionTask → Exn → ℕ → Option String → GenericExecutionResult
unfolding failed_result is_empty
failure_result task e input_bytes profile_id =
    failed_result task (code_of e.kind e.code) input_bytes profile_id (status_of e.kind)

-- `_resolved_profile_id`, or else the profile that had been resolved.
unfoldable pub resolved_profile_id : Exn → Option String → Option String
unfolding is_empty
resolved_profile_id e fallback = nonempty_or e.profile_id fallback (λ s. some s)

-- `_unknown_kind_result`
unfoldable pub unknown_kind_result : GenericExecutionTask → GenericExecutionResult
unknown_kind_result task = failed_result task "unknown_task_kind" 0 none unknown_task_kind

-- `_embedding_bytes`
unfoldable pub embedding_bytes : EmbeddingBatch → ℕ
embedding_bytes b = length b.vectors * b.dimensions * 4

-- How many bytes a character takes in UTF-8.
abbrev char_bytes : ℕ → ℕ
char_bytes c = if ltb c 128 then 1 else if ltb c 2048 then 2 else if ltb c 65536 then 3 else 4

unfoldable pub text_bytes : String → ℕ
text_bytes str_nil = 0
text_bytes (c str_cons s) = char_bytes (code c) + text_bytes s

-- `sum(len(text.encode("utf-8")) for text in spec.texts)`
unfoldable pub texts_bytes : List String → ℕ
unfolding text_bytes
texts_bytes [] = 0
texts_bytes (t ∷ ts) = text_bytes t + texts_bytes ts
