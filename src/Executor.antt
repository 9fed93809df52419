-- ===== src/Executor.antt =====
-- inference/core_task_executor.py: the data of the executor of Core tasks, and `_run_bounded`, which lets
-- a piece of work run for a bounded time. A piece of work is given by what it comes to and by the
-- milliseconds after which it is done and after which somebody cancels the token. What the
-- work raises is an Exception: the few exceptions that are none, such as SystemExit, count as one.
pub mod Results
pub mod Single
pub mod Batch
pub mod Waiting
pub mod Answers
pub mod Zipped
pub mod Batched
pub mod Worked
use ledgermind_local.Prelude.{
  ℕ, zero, suc, ◌+◌, Bool, true, false, Option, none, some, List, String, leb, if◌then◌else◌,
}

-- The exceptions that `_failure_result` tells apart, and the rest.
pub data ExceptionKind : Type 0 where
  execution_timeout provider_timeout execution_cancelled provider_cancelled other_exception :
      ExceptionKind

pub record Exn : Type 0 where
  pub kind : ExceptionKind
  pub code : Option String
  pub profile_id : Option String

pub data Attempt (A : Type 0) : Type 0 where
  returned : A → Attempt A
  raised : Exn → Attempt A

abbrev pub plain : ExceptionKind → Exn
plain k = record { kind = k; code = none; profile_id = none }

pub record ModelRequestSpec : Type 0 where
  pub messages : List (String × String)
  pub max_output_tokens : ℕ
  pub output_contract : Option String
  pub mode : String
  pub tool_name : Option String

pub record EmbeddingRequestSpec : Type 0 where
  pub texts : List String
  pub purpose : String
  pub dimensions : Option ℕ
  pub profile_fingerprint : Option String
  pub config_fingerprint : Option String
  pub privacy_class : String
  pub cache_namespace : String
  pub cache_keys : Option (List String)
  pub deadline : Option String
  pub role : Option String
  pub renderer_version : Option String

-- The lease's `memory_space_id`, the operation's input and the structured generation's `attempt_kind`
-- stand for the dictionaries they are read from.
pub record GenericExecutionTask : Type 0 where
  pub task_id : String
  pub task_kind : String
  pub operation : Option String
  pub profile_slot : String
  pub model_request : Option ModelRequestSpec
  pub embedding_request : Option EmbeddingRequestSpec
  pub lease_memory_space_id : Option String
  pub operation_input : Option String
  pub attempt_kind : Option String

pub record InferenceProfile : Type 0 where
  pub profile_id : String
  pub model : String
  pub base_url : String
  pub provider_kind : String

pub record EmbeddingBatchRequest : Type 0 where
  pub texts : List String
  pub profile : InferenceProfile
  pub purpose : String
  pub dimensions : Option ℕ
  pub cache_keys : Option (List String)
  pub cache_namespace : String
  pub profile_fingerprint : Option String
  pub config_fingerprint : Option String
  pub privacy_class : String
  pub deadline : Option String
  pub role : Option String
  pub renderer_version : Option String

pub record EmbeddingBatch : Type 0 where
  pub vectors : List String
  pub dimensions : ℕ
  pub model : String

pub record StructuredJsonResult : Type 0 where
  pub data_json : String
  pub raw_text : String
  pub profile_id : String
  pub provider : String
  pub model : String
  pub response_bytes : ℕ
  pub structured_output_mode : String
  pub contract_digest : Option String
  pub tool_name : Option String
  pub input_tokens : Option ℕ
  pub output_tokens : Option ℕ
  pub total_tokens : Option ℕ
  pub usage_unknown : Bool

pub record Work (A : Type 0) : Type 0 where
  pub outcome : Attempt A
  pub done_at : Option ℕ
  pub cancelled_at : Option ℕ
  pub lag : ℕ → ℕ  -- how much longer than 10 ms the sleep takes that starts at this time

abbrev pub by : Option ℕ → ℕ → Bool
by none now = false
by (some t) now = leb t now

-- The token that the caller passes, if it passes one, and whether it is cancelled already. Without it
-- `_run_bounded` makes its own, which nobody else can cancel.
abbrev pub Token : Type 0
Token = Option Bool

abbrev pub is_cancelled : Token → Option ℕ → ℕ → Bool
is_cancelled none cancelled_at now = false
is_cancelled (some true) cancelled_at now = true
is_cancelled (some false) cancelled_at now = by cancelled_at now

abbrev pub cancel : Token → Token
cancel none = none
cancel (some b) = some true

pub data Waited : Type 0 where
  finished was_cancelled timed_out waiting : Waited

-- The loop of `_run_bounded`. On fuel: `Waiting.wait_loop-ends` says how much is enough.
unfoldable pub wait_loop : {A : Type 0} → ℕ → Token → Work A → (deadline now : ℕ) → Waited
wait_loop zero token w deadline now = waiting
wait_loop (suc n) token w deadline now =
    let rest = wait_loop n token w deadline (now + 10 + w.lag now) in
    if by w.done_at now
    then finished
    else if is_cancelled token w.cancelled_at now
    then was_cancelled
    else if leb deadline now
    then timed_out
    else rest

unfoldable pub after_wait : {A : Type 0} → Token → Work A → Waited → Attempt A × Token
after_wait token w finished = (w.outcome, token)
after_wait token w was_cancelled = (raised (plain execution_cancelled), cancel token)
after_wait token w timed_out = (raised (plain execution_timeout), cancel token)
after_wait token w waiting = (raised (plain execution_cancelled), token)

unfoldable pub run_bounded : {A : Type 0} → ℕ → Token → Work A → Attempt A × Token
unfolding after_wait
run_bounded timeout token w =
    if is_cancelled token w.cancelled_at 0
    then (raised (plain provider_cancelled), cancel token)
    else after_wait token w (wait_loop (suc timeout) token w timeout 0)
