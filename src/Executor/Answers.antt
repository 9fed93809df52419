-- ===== src/Executor/Answers.antt =====
-- What `execute_batch` of inference/core_task_executor.py gives back: a result for each task.
use ledgermind_local.Prelude.{
  ℕ, Bool, Option, none, some, List, [], ◌∷◌, ◌≡◌, ◌≢◌, refl, String, text_eq, if-both,
}
use ledgermind_local.Tasks.{is_one_of}
use ledgermind_local.Executor.{
  Exn, ExceptionKind, execution_timeout, provider_timeout, execution_cancelled, provider_cancelled,
  Attempt, returned, raised, plain, other_exception, EmbeddingRequestSpec, ModelRequestSpec,
  GenericExecutionTask, InferenceProfile, EmbeddingBatch, StructuredJsonResult, Token,
}
use ledgermind_local.Executor.Results.{
  ExecutionStatus, GenericExecutionResult, completed, failed, unknown_task_kind, cancelled, timeout,
  status_of, code_of, resolved_profile_id, texts_bytes, failed_result, failure_result,
  unknown_kind_result,
}
use ledgermind_local.Executor.Single.{
  Services, dimensions_differ, generated, after_generate, embedded, after_embed, embed_with,
  execute_generate_json, execute_embed_texts, execute,
}

-- A completed result has no error code; any other has one, and nothing came out.
abbrev pub Honest : ExecutionStatus → Option String → ℕ → Type 0
Honest completed c n = c ≡ none
Honest _ c n = (c ≢ none) × (n ≡ 0)

-- The result is that of the task, and so is its audit, with the same status.
pub record IsFor (task : GenericExecutionTask) (r : GenericExecutionResult) : Type 0 where
  pub same_id : r.task_id ≡ task.task_id
  pub same_kind : r.task_kind ≡ task.task_kind
  pub same_operation : r.operation ≡ task.operation
  pub audited_id : r.egress_audit.task_id ≡ task.task_id
  pub audited_status : r.egress_audit.status ≡ r.status
  pub honest : Honest r.status r.error_code r.egress_audit.output_bytes

-- The two lists go together, one by one and in order.
abbrev pub Paired : {A B : Type 0} → (A → B → Type 0) → List A → List B → Type 0
Paired R [] [] = Unit {0}
Paired R (x ∷ xs) (y ∷ ys) = R x y × Paired R xs ys
Paired R _ _ = ⊥

failure-Honest : (c : String) (x : ExecutionStatus) → x ≢ completed → Honest x (some c) 0
failure-Honest c completed h = absurd (h refl)
failure-Honest c failed h = (λ e. cc e, refl)
failure-Honest c unknown_task_kind h = (λ e. cc e, refl)
failure-Honest c cancelled h = (λ e. cc e, refl)
failure-Honest c timeout h = (λ e. cc e, refl)

pub failed_result-IsFor :
    (task : GenericExecutionTask) (c : String) (n : ℕ) (p : Option String) (x : ExecutionStatus)
    → x ≢ completed
    → IsFor task (failed_result task c n p x)
unfolding failed_result
failed_result-IsFor task c n p x h = record {
  same_id = refl;
  same_kind = refl;
  same_operation = refl;
  audited_id = refl;
  audited_status = refl;
  honest = failure-Honest c x h;
}

status_of-ne : (k : ExceptionKind) → status_of k ≢ completed
status_of-ne execution_timeout e = cc e
status_of-ne provider_timeout e = cc e
status_of-ne execution_cancelled e = cc e
status_of-ne provider_cancelled e = cc e
status_of-ne other_exception e = cc e

pub failure_result-IsFor :
    (task : GenericExecutionTask) (e : Exn) (n : ℕ) (p : Option String)
    → IsFor task (failure_result task e n p)
unfolding failure_result
failure_result-IsFor task e n p =
    failed_result-IsFor task (code_of e.kind e.code) n p (status_of e.kind) (status_of-ne e.kind)

-- A result of a call that no check turns into a failure.
module _ (task : GenericExecutionTask) where
  after_generate-IsFor :
      (n : ℕ) (x : Attempt StructuredJsonResult × Token) → IsFor task (after_generate task n x).0
  unfolding after_generate generated
  after_generate-IsFor n (raised e, token) =
      failure_result-IsFor task e n (resolved_profile_id e none)
  after_generate-IsFor n (returned r, token) = record {
    same_id = refl;
    same_kind = refl;
    same_operation = refl;
    audited_id = refl;
    audited_status = refl;
    honest = refl;
  }

  pub embedded-IsFor :
      (spec : EmbeddingRequestSpec) (p : InferenceProfile) (b : EmbeddingBatch)
      → IsFor task (embedded task spec p b)
  unfolding embedded
  embedded-IsFor spec p b =
      if-both (IsFor task) (dimensions_differ spec.dimensions b.dimensions)
        (failed_result-IsFor task "embedding_dimension_mismatch" (texts_bytes spec.texts)
          (some p.profile_id) failed (λ e. cc e))
        (record {
          same_id = refl;
          same_kind = refl;
          same_operation = refl;
          audited_id = refl;
          audited_status = refl;
          honest = refl;
        })

  after_embed-IsFor :
      (spec : EmbeddingRequestSpec) (p : InferenceProfile)
      (x : Attempt (List EmbeddingBatch) × Token)
      → IsFor task (after_embed task spec p x).0
  unfolding after_embed
  after_embed-IsFor spec p (raised e, token) =
      failure_result-IsFor task e (texts_bytes spec.texts)
        (resolved_profile_id e (some p.profile_id))
  after_embed-IsFor spec p (returned [], token) =
      failure_result-IsFor task (plain other_exception) (texts_bytes spec.texts) (some p.profile_id)
  after_embed-IsFor spec p (returned (b ∷ bs), token) = embedded-IsFor spec p b

module _ (s : Services) where
  embed_with-IsFor :
      (token : Token) (task : GenericExecutionTask) (spec : EmbeddingRequestSpec)
      (a : Attempt InferenceProfile)
      → IsFor task (embed_with s token task spec a).0
  unfolding embed_with
  embed_with-IsFor token task spec (raised e) =
      failure_result-IsFor task e (texts_bytes spec.texts) (resolved_profile_id e none)
  embed_with-IsFor token task spec (returned p) = after_embed-IsFor task spec p _

  generate-IsFor :
      (token : Token) (force : Bool) (task : GenericExecutionTask) (o : Option ModelRequestSpec)
      → IsFor task (execute_generate_json s token force task o).0
  unfolding execute_generate_json
  generate-IsFor token force task none =
      failed_result-IsFor task "invalid_request" 0 none failed (λ e. cc e)
  generate-IsFor token force task (some spec) =
      after_generate-IsFor task (s.model_request_bytes spec) _

  embed-IsFor :
      (token : Token) (task : GenericExecutionTask) (o : Option EmbeddingRequestSpec)
      → IsFor task (execute_embed_texts s token task o).0
  unfolding execute_embed_texts
  embed-IsFor token task none = failed_result-IsFor task "invalid_request" 0 none failed (λ e. cc e)
  embed-IsFor token task (some spec) = embed_with-IsFor token task spec _

  -- `execute` gives a result of the task, whatever the kind.
  pub execute-IsFor :
      (token : Token) (force : Bool) (task : GenericExecutionTask)
      → IsFor task (execute s token force task).0
  unfolding execute unknown_kind_result
  execute-IsFor token force task =
      if-both (λ (z : GenericExecutionResult × Token). IsFor task z.0)
        (is_one_of ("generate_json" ∷ "object_resolution" ∷ []) task.task_kind)
        (generate-IsFor token force task task.model_request)
        (if-both (λ (z : GenericExecutionResult × Token). IsFor task z.0)
          (text_eq task.task_kind "embed_texts") (embed-IsFor token task task.embedding_request)
          (failed_result-IsFor task "unknown_task_kind" 0 none unknown_task_kind (λ e. cc e)))
