-- ===== src/Tasks.antt =====
-- scheduler/core_execution_task_worker.py: the worker that polls the Core for tasks, lets the executor
-- run them and reports what came out. A run is given scripts: what the next polls, executions, reports
-- and connections answer. A task's conversion from the wire is given with it.
pub mod Policy
pub mod Worker
pub mod Rules
pub mod Kept
pub mod Settled
pub mod Returned
pub mod Answered
pub mod Bounded
pub mod Polled
use ledgermind_local.Prelude.{
  ℕ, Bool, true, false, Option, none, some, List, [], ◌∷◌, String, text_eq, if◌then◌else◌,
}

-- The classes that `classify_execution_error` tells apart, in the order of its tests.
pub data ErrorClass : Type 0 where
  timeout_error transport_error transient_provider_error profile_not_found profile_disabled :
      ErrorClass
  input_too_large response_validation provider_configuration secret_not_found value_or_type_error :
      ErrorClass
  transient_core_error domain_rejected_error provider_error runtime_error other_error : ErrorClass

-- An exception: its class, `code`, `detail` and `status_code` where it has them, and its text.
pub record Exn : Type 0 where
  pub class : ErrorClass
  pub code : Option String
  pub detail : String
  pub status_code : Option ℕ
  pub message : String

pub record ExecutionFailureClassification : Type 0 where
  pub error_code : String
  pub retryable : Bool
  pub retry_after_seconds : ℕ

pub data Status : Type 0 where
  completed failed timeout cancelled : Status

pub record ExecutionResult : Type 0 where
  pub status : Status
  pub error_code : Option String
  pub egress_audit : Bool

pub record GenericExecutionTask : Type 0 where
  pub task_id : String
  pub task_kind : String

-- A task of the wire, with the exception that its conversion raises, if it does.
pub record RawTask : Type 0 where
  pub task_id : String
  pub task_kind : String
  pub problem : Option Exn

pub data Run (A : Type 0) : Type 0 where
  returned : A → Run A
  raised : Exn → Run A

-- What the Core answers to a result: accepted or not, or an exception; and to a report of a failure.
pub data Submission : Type 0 where
  accepted refused : Submission
  submission_raises : Exn → Submission

pub data Report : Type 0 where
  submitted : String → Report
  failed_task : String → ExecutionFailureClassification → Report

-- The scripts, what was done so far (the last one first), and the worker's own state.
pub record State : Type 0 where
  pub polls : List (Run (List RawTask))
  pub executions : List (Run ExecutionResult)
  pub batches : List (Run (List ExecutionResult))
  pub submissions : List Submission
  pub failure_reports : List (Option Exn)
  pub connections : List (Option Exn)
  pub polled : List String
  pub executed : List String
  pub settled : List Report  -- the reports that the Core took
  pub provider_circuit_open : Bool

abbrev pub M : Type 0 → Type 0
M A = State → Run A × State

abbrev pub follow : {A B : Type 0} → Run A × State → (A → M B) → Run B × State
follow (raised e, s) next = (raised e, s)
follow (returned a, s) next = next a s

infixl 5 ◌>>=◌ ◌>>◌
abbrev pub ◌>>=◌ : {A B : Type 0} → M A → (A → M B) → M B
◌>>=◌ m next s = follow (m s) next

abbrev pub ◌>>◌ : {A B : Type 0} → M A → M B → M B
m >> k = m >>= λ x. k

abbrev pub pure : {A : Type 0} → A → M A
pure a s = (returned a, s)

abbrev pub throw : {A : Type 0} → Exn → M A
throw e s = (raised e, s)

abbrev pub answer : {A : Type 0} → Run A → M A
answer r s = (r, s)

abbrev pub rescue : {A : Type 0} → Run A × State → (Exn → M A) → Run A × State
rescue (raised e, s) handler = handler e s
rescue (returned a, s) handler = (returned a, s)

abbrev pub try_except : {A : Type 0} → M A → (Exn → M A) → M A
try_except m handler s = rescue (m s) handler

abbrev pub first_of {ℓ} : {A : Type ℓ} → A → List A → A
first_of d [] = d
first_of d (x ∷ xs) = x

abbrev pub rest_of {ℓ} : {A : Type ℓ} → List A → List A
rest_of [] = []
rest_of (x ∷ xs) = xs

unfoldable pub is_one_of : List String → String → Bool
is_one_of [] s = false
is_one_of (x ∷ xs) s = let rest = is_one_of xs s in if text_eq x s then true else rest

-- Whether an optional text is there and one of these.
abbrev pub code_is : List String → Option String → Bool
code_is xs none = false
code_is xs (some s) = is_one_of xs s
