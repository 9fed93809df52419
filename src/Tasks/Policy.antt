-- ===== src/Tasks/Policy.antt =====
-- The error codes and the retry policy of scheduler/core_execution_task_worker.py. `str.lower` is a
-- parameter; the regular expression over the Core's code is written out.
pub mod Codes
pub mod Texts
pub mod Safe
use Prim.Native.String.{◌++◌}
use ledgermind_local.Prelude.{
  ℕ, Bool, true, false, ◌&&◌, ◌||◌, not, Option, none, some, List, [], ◌∷◌, String, leb, ◌==◌,
  if◌then◌else◌, text_eq,
}
use ledgermind_local.Prelude.Text.{is_empty, is_blank}
use ledgermind_local.Tasks.{
  ErrorClass, Exn, ExecutionFailureClassification, ExecutionResult, Status, is_one_of, code_is,
  timeout_error, transport_error, transient_provider_error, profile_not_found, profile_disabled,
  input_too_large, response_validation, provider_configuration, secret_not_found,
  value_or_type_error, transient_core_error, domain_rejected_error, provider_error, runtime_error,
  other_error, completed, failed, timeout, cancelled,
}
use ledgermind_local.Tasks.Policy.Texts.{is_within, sub_gaps, strip_first, strip_last}
use ledgermind_local.Tasks.Policy.Codes.{
  safe_error_codes, reason_markers, permanent_codes, retryable_codes,
}

abbrev pub domain_code : Exn → String
domain_code e = elim e.code [ none ↦ "" | some c ↦ c ]

-- The Core's code in the words of Local.
unfoldable pub core_code : (String → String) → Exn → String
unfolding sub_gaps strip_last
core_code lower e = strip_last (strip_first (sub_gaps false (lower (domain_code e))))

unfoldable pub find_reason : List (String × String) → String → Option String
unfolding is_within
find_reason [] detail = none
find_reason ((marker, reason) ∷ xs) detail =
    let rest = find_reason xs detail in if is_within marker detail then some reason else rest

-- `_safe_error_code`
abbrev pub safe_or : Option String → String → String
safe_or none fallback = fallback
safe_or (some c) fallback = if is_one_of safe_error_codes c then c else fallback

unfoldable pub safe_error_code : Option String → String → String
unfolding is_one_of
safe_error_code value fallback = safe_or value fallback

abbrev pub plain_rejection : String → String
plain_rejection c =
    safe_or (some ("core_rejected_" ++ (if is_empty c then "command" else c)))
      "core_rejected_command"

abbrev pub reason_or : Option String → String → String
reason_or (some reason) c = reason
reason_or none c = plain_rejection c

-- `_core_rejection_error_code`
unfoldable pub core_rejection_error_code : (String → String) → Exn → String
unfolding core_code find_reason is_one_of
core_rejection_error_code lower e =
    let c = core_code lower e in
    if text_eq c "invalid_request"
    then reason_or (find_reason reason_markers (lower e.detail)) c
    else plain_rejection c

abbrev pub permanent : String → ExecutionFailureClassification
permanent c = record { error_code = c; retryable = false; retry_after_seconds = 0 }

abbrev pub transient : String → ExecutionFailureClassification
transient c = record { error_code = c; retryable = true; retry_after_seconds = 60 }

-- The checks of `ExecutionFailureClassification.__init__`: `none` where it raises.
unfoldable pub new_classification : String → Bool → ℕ → Option ExecutionFailureClassification
new_classification error_code retryable seconds =
    if is_blank error_code || not (leb seconds 86400) || (not retryable && not (seconds == 0))
    then none
    else some
        (record { error_code = error_code; retryable = retryable; retry_after_seconds = seconds })

abbrev pub is_overload : Option ℕ → Bool
is_overload none = false
is_overload (some n) = (n == 429) || (leb 500 n && leb n 599)

abbrev pub is_unavailable : String → Bool
is_unavailable m =
    is_within "429" m
    || is_within "temporar" m
    || is_within "unavailable" m
    || is_within "connection" m

abbrev pub is_timeout : String → Bool
is_timeout m = is_within "timeout" m || is_within "timed out" m

-- The tests after those of the classes.
unfoldable pub classify_by_text :
    (String → String) → Exn → (code : String) → ExecutionFailureClassification
unfolding is_within
classify_by_text lower e code =
    if is_overload e.status_code
    then transient "provider_unavailable"
    else (if is_unavailable (lower e.message)
        then transient "provider_unavailable"
        else (if is_timeout (lower e.message)
            then transient "provider_timeout"
            else permanent code))

unfoldable pub classify_by_class :
    (String → String) → Exn → ErrorClass → ExecutionFailureClassification
unfolding core_rejection_error_code classify_by_text
classify_by_class lower e timeout_error = transient "provider_timeout"
classify_by_class lower e transport_error = transient "provider_transport_error"
classify_by_class lower e transient_provider_error = transient "provider_unavailable"
classify_by_class lower e profile_not_found = permanent "profile_not_found"
classify_by_class lower e profile_disabled = permanent "profile_disabled"
classify_by_class lower e input_too_large = permanent "input_too_large"
classify_by_class lower e response_validation = permanent "invalid_model_output"
classify_by_class lower e provider_configuration = permanent "provider_configuration_error"
classify_by_class lower e secret_not_found = permanent "provider_secret_missing"
classify_by_class lower e value_or_type_error = permanent "invalid_model_output"
classify_by_class lower e transient_core_error = transient "core_unavailable"
classify_by_class lower e domain_rejected_error = permanent (core_rejection_error_code lower e)
classify_by_class lower e provider_error = permanent "provider_error"
classify_by_class lower e runtime_error = classify_by_text lower e "provider_error"
classify_by_class lower e other_error = classify_by_text lower e "execution_error"

abbrev pub classify_by_code :
    (String → String) → Exn → Option String → ExecutionFailureClassification
classify_by_code lower e none = classify_by_class lower e e.class
classify_by_code lower e (some c) =
    if text_eq c "input_budget_exceeded"
    then permanent "input_budget_exceeded"
    else (if is_one_of permanent_codes c then permanent c else classify_by_class lower e e.class)

unfoldable pub classify_execution_error : (String → String) → Exn → ExecutionFailureClassification
unfolding classify_by_class is_one_of
classify_execution_error lower e = classify_by_code lower e e.code

abbrev pub is_interrupted : Status → Bool
is_interrupted completed = false
is_interrupted failed = false
is_interrupted timeout = true
is_interrupted cancelled = true

-- `execution_result_is_retryable`
unfoldable pub is_retryable : ExecutionResult → Bool
unfolding is_one_of
is_retryable r = is_interrupted r.status || code_is retryable_codes r.error_code

abbrev pub status_text : Status → String
status_text completed = "completed"
status_text failed = "failed"
status_text timeout = "timeout"
status_text cancelled = "cancelled"
