-- ===== src/Executor/Batch.antt =====
-- `execute_batch` of inference/core_task_executor.py, with `_execute_embed_texts_batch`.
use ledgermind_local.Prelude.{
  ℕ, Bool, true, false, ◌&&◌, Option, none, some, List, [], ◌∷◌, map, String, text_eq, ◌==◌,
  if◌then◌else◌,
}
use ledgermind_local.Executor.{
  Exn, Attempt, returned, raised, plain, other_exception, EmbeddingRequestSpec,
  GenericExecutionTask, InferenceProfile, EmbeddingBatchRequest, EmbeddingBatch, Token, run_bounded,
}
use ledgermind_local.Executor.Results.{
  GenericExecutionResult, failed, failed_result, failure_result, texts_bytes,
}
use ledgermind_local.Executor.Single.{Services, memory_space_id, batch_request, embedded, execute}

abbrev pub Pair : Type 0
Pair = GenericExecutionTask × EmbeddingRequestSpec

abbrev pub with_spec :
    GenericExecutionTask → Option EmbeddingRequestSpec → Option (List Pair) → Option (List Pair)
with_spec task none rest = none
with_spec task (some spec) none = none
with_spec task (some spec) (some pairs) = some ((task, spec) ∷ pairs)

-- The tasks with their specs, unless one has none.
unfoldable pub specs_of : List GenericExecutionTask → Option (List Pair)
specs_of [] = some []
specs_of (task ∷ tasks) = with_spec task task.embedding_request (specs_of tasks)

unfoldable pub all_embed : List GenericExecutionTask → Bool
all_embed [] = true
all_embed (task ∷ tasks) = text_eq task.task_kind "embed_texts" && all_embed tasks

-- The loop that fills `profiles`: the exception that ends it, if one does, and the list so far.
abbrev pub keep_profile :
    Attempt InferenceProfile
    → Option Exn × List InferenceProfile
    → Option Exn × List InferenceProfile
keep_profile (raised e) rest = (some e, [])
keep_profile (returned p) (o, ps) = (o, p ∷ ps)

-- `profiles or [None] * len(tasks)`
abbrev pub profiles_or_none :
    {A : Type 0} → List A → List InferenceProfile → List (Option InferenceProfile)
profiles_or_none tasks [] = map (λ x. none) tasks
profiles_or_none tasks (p ∷ ps) = some p ∷ map (λ q. some q) ps

abbrev pub id_of : Option InferenceProfile → Option String
id_of none = none
id_of (some p) = some p.profile_id

abbrev pub cons_attempt : {A : Type 0} → A → Attempt (List A) → Attempt (List A)
cons_attempt x (raised e) = raised e
cons_attempt x (returned xs) = returned (x ∷ xs)

-- The ValueError of a `zip(..., strict=True)` over lists of different lengths.
abbrev pub value_error : Exn
value_error = plain other_exception

-- The handler: a failure for each task.
unfoldable pub fail_pairs :
    Exn → List Pair → List (Option InferenceProfile) → Attempt (List GenericExecutionResult)
unfolding failure_result texts_bytes
fail_pairs e [] [] = returned []
fail_pairs e [] (p ∷ ps) = raised value_error
fail_pairs e (x ∷ xs) [] = raised value_error
fail_pairs e ((task, spec) ∷ xs) (p ∷ ps) =
    cons_attempt (failure_result task e (texts_bytes spec.texts) (id_of p)) (fail_pairs e xs ps)

-- The results of the batches that came back.
unfoldable pub embed_pairs :
    List Pair → List InferenceProfile → List EmbeddingBatch → Attempt (List GenericExecutionResult)
unfolding embedded
embed_pairs [] [] [] = returned []
embed_pairs ((task, spec) ∷ xs) (p ∷ ps) (b ∷ bs) =
    cons_attempt (embedded task spec p b) (embed_pairs xs ps bs)
embed_pairs _ _ _ = raised value_error

abbrev pub text_option_eq : Option String → Option String → Bool
text_option_eq none none = true
text_option_eq (some a) (some b) = text_eq a b
text_option_eq _ _ = false

abbrev pub number_option_eq : Option ℕ → Option ℕ → Bool
number_option_eq none none = true
number_option_eq (some a) (some b) = a == b
number_option_eq _ _ = false

-- The comparison of the tuples of a task and of the first one.
unfoldable pub is_compatible :
    InferenceProfile → EmbeddingRequestSpec → InferenceProfile → EmbeddingRequestSpec → Bool
is_compatible p spec q first =
    text_eq p.profile_id q.profile_id
    && text_eq p.model q.model
    && text_eq p.base_url q.base_url
    && text_eq p.provider_kind q.provider_kind
    && text_option_eq spec.profile_fingerprint first.profile_fingerprint
    && text_option_eq spec.config_fingerprint first.config_fingerprint
    && number_option_eq spec.dimensions first.dimensions
    && text_eq spec.privacy_class first.privacy_class
    && text_eq spec.cache_namespace first.cache_namespace
    && text_option_eq spec.deadline first.deadline
    && text_option_eq spec.role first.role
    && text_option_eq spec.renderer_version first.renderer_version

unfoldable pub all_compatible :
    InferenceProfile → EmbeddingRequestSpec → List Pair → List InferenceProfile → Bool
unfolding is_compatible
all_compatible q first ((task, spec) ∷ xs) (p ∷ ps) =
    is_compatible p spec q first && all_compatible q first xs ps
all_compatible q first _ _ = true

-- `profiles[0]` is there: the tasks are not empty, and each one's profile has been resolved.
unfoldable pub compatible : List Pair → List InferenceProfile → Bool
unfolding all_compatible
compatible ((task, spec) ∷ xs) (p ∷ ps) = all_compatible p spec xs ps
compatible _ _ = true

unfoldable pub requests_of : List Pair → List InferenceProfile → List EmbeddingBatchRequest
unfolding batch_request
requests_of ((task, spec) ∷ xs) (p ∷ ps) = batch_request spec p ∷ requests_of xs ps
requests_of _ _ = []

-- The try statement: an exception of its body goes to the handler.
abbrev pub or_fail :
    List Pair
    → List InferenceProfile
    → Attempt (List GenericExecutionResult)
    → Attempt (List GenericExecutionResult)
or_fail xs ps (returned rs) = returned rs
or_fail xs ps (raised e) = fail_pairs e xs (profiles_or_none xs ps)

unfoldable pub after_embed_many :
    List Pair
    → List InferenceProfile
    → Attempt (List EmbeddingBatch) × Token
    → Attempt (List GenericExecutionResult) × Token
unfolding embed_pairs fail_pairs
after_embed_many xs ps (raised e, token) = (or_fail xs ps (raised e), token)
after_embed_many xs ps (returned bs, token) = (or_fail xs ps (embed_pairs xs ps bs), token)

abbrev pub push_result :
    GenericExecutionResult
    → List GenericExecutionResult × Token
    → List GenericExecutionResult × Token
push_result r (rs, token) = (r ∷ rs, token)

module _ (s : Services) where
  unfoldable pub resolve_profiles : List Pair → Option Exn × List InferenceProfile
  unfolding memory_space_id
  resolve_profiles [] = (none, [])
  resolve_profiles ((task, spec) ∷ xs) =
      keep_profile (s.resolve_profile (memory_space_id task) task.profile_slot)
        (resolve_profiles xs)

  -- `tuple(self.execute(task, token) for task in tasks)`: they share the token.
  unfoldable pub execute_each :
      Token → List GenericExecutionTask → List GenericExecutionResult × Token
  unfolding execute
  execute_each token [] = ([], token)
  execute_each token (task ∷ tasks) =
      let (r, token') = execute s token false task in push_result r (execute_each token' tasks)

  abbrev pub each :
      Token → List GenericExecutionTask → Attempt (List GenericExecutionResult) × Token
  each token tasks = let (rs, token') = execute_each token tasks in (returned rs, token')

  unfoldable pub embed_resolved :
      Token
      → List GenericExecutionTask
      → List Pair
      → Option Exn × List InferenceProfile
      → Attempt (List GenericExecutionResult) × Token
  unfolding fail_pairs compatible execute_each after_embed_many requests_of run_bounded
  embed_resolved token tasks xs (some e, ps) = (or_fail xs ps (raised e), token)
  embed_resolved token tasks xs (none, ps) =
      if compatible xs ps
      then after_embed_many xs ps
          (run_bounded s.embed_texts_timeout token (s.embed_many (requests_of xs ps)))
      else each token tasks

  -- `_execute_embed_texts_batch`
  unfoldable pub execute_embed_texts_batch :
      Token
      → List GenericExecutionTask
      → Option (List Pair)
      → Attempt (List GenericExecutionResult) × Token
  unfolding failed_result embed_resolved resolve_profiles
  execute_embed_texts_batch token tasks none =
      (returned (map (λ task. failed_result task "invalid_request" 0 none failed) tasks), token)
  execute_embed_texts_batch token tasks (some xs) =
      embed_resolved token tasks xs (resolve_profiles xs)

  -- `execute_batch`
  unfoldable pub execute_batch :
      Token → List GenericExecutionTask → Attempt (List GenericExecutionResult) × Token
  unfolding all_embed specs_of execute_embed_texts_batch execute_each
  execute_batch token [] = (returned [], token)
  execute_batch token (task ∷ tasks) =
      if all_embed (task ∷ tasks)
      then execute_embed_texts_batch token (task ∷ tasks) (specs_of (task ∷ tasks))
      else each token (task ∷ tasks)
