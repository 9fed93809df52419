-- ===== src/Tasks/Policy/Safe.antt =====
-- What scheduler/core_execution_task_worker.py tells the Core of an exception.
use ledgermind_local.Prelude.{
  Bool, true, false, Option, none, some, List, [], ◌∷◌, map, String, ◌≡◌, refl, sym, ◌∙◌, ap, subst,
  ◌⊎◌, inl, inr, if◌then◌else◌, text_eq, text_eq_iff, Bool-cases, All, All-map, if_false, not,
  if-both,
}
use ledgermind_local.Prelude.Text.{is_blank, is_space}
use ledgermind_local.Tasks.{
  Exn, ErrorClass, ExecutionFailureClassification, is_one_of, timeout_error, transport_error,
  transient_provider_error, profile_not_found, profile_disabled, input_too_large,
  response_validation, provider_configuration, secret_not_found, value_or_type_error,
  transient_core_error, domain_rejected_error, provider_error, runtime_error, other_error,
}
use ledgermind_local.Tasks.Policy.{
  safe_or, reason_or, find_reason, is_overload, is_unavailable, is_timeout, core_code,
  core_rejection_error_code, is_within, classify_by_class, classify_by_text, classify_by_code,
  classify_execution_error, permanent, transient, new_classification,
}
use ledgermind_local.Tasks.Policy.Codes.{safe_error_codes, reason_markers, permanent_codes}

-- A code of the table of safe codes.
unfoldable pub IsSafe : String → Type 0
unfolding is_one_of
IsSafe c = is_one_of safe_error_codes c ≡ true

one_of-All :
    (P : String → Type 0) (xs : List String) (c : String) → All P xs → is_one_of xs c ≡ true → P c
unfolding is_one_of
one_of-All P [] c ps e = absurd (cc e)
one_of-All P (x ∷ xs) c (p, ps) e = elim (Bool-cases (text_eq x c)) [
  | inl y ↦ subst P ((text_eq_iff x c).0 y) p
  | inr n ↦ one_of-All P xs c ps (sym (if_false (text_eq x c) true (is_one_of xs c) n) ∙ e)
]

abbrev all_of : (String → Bool) → List String → Bool
all_of p [] = true
all_of p (x ∷ xs) = let rest = all_of p xs in if p x then rest else false

all_of-All : (p : String → Bool) (xs : List String) → all_of p xs ≡ true → All (λ x. p x ≡ true) xs
all_of-All p [] e = tt
all_of-All p (x ∷ xs) e = elim (Bool-cases (p x)) [
  | inl y ↦ (y, all_of-All p xs (ap (λ b. if b then all_of p xs else false) (sym y) ∙ e))
  | inr n ↦ absurd (cc (sym (if_false (p x) (all_of p xs) false n) ∙ e))
]

permanent-IsSafe : All IsSafe permanent_codes
unfolding IsSafe is_one_of text_eq
permanent-IsSafe = all_of-All (λ c. is_one_of safe_error_codes c) permanent_codes refl

-- A safe code, with no delay for what is permanent and sixty seconds for the rest.
unfoldable pub IsSound : ExecutionFailureClassification → Type 0
unfolding IsSafe
IsSound c =
    IsSafe c.error_code
    × (((c.retryable ≡ false) × (c.retry_after_seconds ≡ 0))
        ⊎ ((c.retryable ≡ true) × (c.retry_after_seconds ≡ 60)))

permanent-IsSound : (c : String) → IsSafe c → IsSound (permanent c)
unfolding IsSound
permanent-IsSound c h = (h, inl (refl, refl))

transient-IsSound : (c : String) → IsSafe c → IsSound (transient c)
unfolding IsSound
transient-IsSound c h = (h, inr (refl, refl))

unavailable-IsSafe : IsSafe "provider_unavailable"
unfolding IsSafe is_one_of text_eq
unavailable-IsSafe = refl

timeout-IsSafe : IsSafe "provider_timeout"
unfolding IsSafe is_one_of text_eq
timeout-IsSafe = refl

budget-IsSafe : IsSafe "input_budget_exceeded"
unfolding IsSafe is_one_of text_eq
budget-IsSafe = refl

rejected-IsSafe : IsSafe "core_rejected_command"
unfolding IsSafe is_one_of text_eq
rejected-IsSafe = refl

safe_or-IsSafe : (c fallback : String) → IsSafe fallback → IsSafe (safe_or (some c) fallback)
unfolding IsSafe
safe_or-IsSafe c fallback h = elim (Bool-cases (is_one_of safe_error_codes c)) [
  | inl y ↦ rw y y
  | inr n ↦ rw n h
]

reasons-IsSafe : All IsSafe (map (λ (m : String × String). m.1) reason_markers)
unfolding IsSafe is_one_of text_eq
reasons-IsSafe =
    all_of-All (λ c. is_one_of safe_error_codes c)
      (map (λ (m : String × String). m.1) reason_markers) refl

reason_or-IsSafe :
    (xs : List (String × String)) (detail c : String)
    → All IsSafe (map (λ (m : String × String). m.1) xs)
    → IsSafe (reason_or (find_reason xs detail) c)
unfolding find_reason
reason_or-IsSafe [] detail c h = safe_or-IsSafe _ "core_rejected_command" rejected-IsSafe
reason_or-IsSafe ((marker, reason) ∷ xs) detail c h =
    if-both (λ o. IsSafe (reason_or o c)) (is_within marker detail) h.0
      (reason_or-IsSafe xs detail c h.1)

core_rejection-IsSafe :
    (lower : String → String) (e : Exn) → IsSafe (core_rejection_error_code lower e)
unfolding core_rejection_error_code
core_rejection-IsSafe lower e =
    if-both IsSafe (text_eq (core_code lower e) "invalid_request")
      (reason_or-IsSafe reason_markers (lower e.detail) (core_code lower e) reasons-IsSafe)
      (safe_or-IsSafe _ "core_rejected_command" rejected-IsSafe)

by_text-IsSound :
    (lower : String → String) (e : Exn) (c : String)
    → IsSafe c
    → IsSound (classify_by_text lower e c)
unfolding classify_by_text
by_text-IsSound lower e c h =
    if-both IsSound (is_overload e.status_code) (transient-IsSound _ unavailable-IsSafe) (
      if-both IsSound (is_unavailable (lower e.message)) (transient-IsSound _ unavailable-IsSafe) (
        if-both IsSound (is_timeout (lower e.message)) (transient-IsSound _ timeout-IsSafe)
          (permanent-IsSound c h)))

by_class-IsSound :
    (lower : String → String) (e : Exn) (k : ErrorClass) → IsSound (classify_by_class lower e k)
unfolding classify_by_class IsSound IsSafe is_one_of text_eq
by_class-IsSound lower e timeout_error = (refl, inr (refl, refl))
by_class-IsSound lower e transport_error = (refl, inr (refl, refl))
by_class-IsSound lower e transient_provider_error = (refl, inr (refl, refl))
by_class-IsSound lower e profile_not_found = (refl, inl (refl, refl))
by_class-IsSound lower e profile_disabled = (refl, inl (refl, refl))
by_class-IsSound lower e input_too_large = (refl, inl (refl, refl))
by_class-IsSound lower e response_validation = (refl, inl (refl, refl))
by_class-IsSound lower e provider_configuration = (refl, inl (refl, refl))
by_class-IsSound lower e secret_not_found = (refl, inl (refl, refl))
by_class-IsSound lower e value_or_type_error = (refl, inl (refl, refl))
by_class-IsSound lower e transient_core_error = (refl, inr (refl, refl))
by_class-IsSound lower e domain_rejected_error =
    permanent-IsSound (core_rejection_error_code lower e) (core_rejection-IsSafe lower e)
by_class-IsSound lower e provider_error = (refl, inl (refl, refl))
by_class-IsSound lower e runtime_error = by_text-IsSound lower e "provider_error" refl
by_class-IsSound lower e other_error = by_text-IsSound lower e "execution_error" refl

by_code-IsSound :
    (lower : String → String) (e : Exn) (o : Option String) → IsSound (classify_by_code lower e o)
by_code-IsSound lower e none = by_class-IsSound lower e e.class
by_code-IsSound lower e (some c) =
    if-both IsSound (text_eq c "input_budget_exceeded") (permanent-IsSound _ budget-IsSafe)
      (elim (Bool-cases (is_one_of permanent_codes c)) [
        | inl y ↦
            rw y (permanent-IsSound c (one_of-All IsSafe permanent_codes c permanent-IsSafe y))
        | inr n ↦ rw n (by_class-IsSound lower e e.class)
      ])

-- Whatever the exception, the classification's code is of the table of safe codes, a permanent failure
-- asks for no delay and any other for sixty seconds.
pub classify_execution_error-IsSound :
    (lower : String → String) (e : Exn) → IsSound (classify_execution_error lower e)
unfolding classify_execution_error
classify_execution_error-IsSound lower e = by_code-IsSound lower e e.code

not-true : (b : Bool) → not b ≡ true → b ≡ false
not-true true e = absurd (cc e)
not-true false e = refl

safe-not_blank : All (λ c. is_blank c ≡ false) safe_error_codes
unfolding is_blank is_space
safe-not_blank =
    All-map (λ c e. not-true (is_blank c) e) safe_error_codes
      (all_of-All (λ c. not (is_blank c)) safe_error_codes refl)

new_classification_lem :
    (c : ExecutionFailureClassification)
    → IsSound c
    → new_classification c.error_code c.retryable c.retry_after_seconds ≡ some c
unfolding new_classification IsSound IsSafe
new_classification_lem c (safe, inl h) =
    rw
      (
        one_of-All (λ x. is_blank x ≡ false) safe_error_codes c.error_code safe-not_blank safe,
        h.0,
        h.1,
      )
      refl
new_classification_lem c (safe, inr h) =
    rw
      (
        one_of-All (λ x. is_blank x ≡ false) safe_error_codes c.error_code safe-not_blank safe,
        h.0,
        h.1,
      )
      refl

-- The checks of the classification's constructor hold for every classification that is computed, so
-- that `classify_execution_error` does not raise.
pub new_classification-classify_execution_error :
    (lower : String → String) (e : Exn)
    → let c : ExecutionFailureClassification = classify_execution_error lower e in
      new_classification c.error_code c.retryable c.retry_after_seconds ≡ some c
new_classification-classify_execution_error lower e =
    new_classification_lem (classify_execution_error lower e)
      (classify_execution_error-IsSound lower e)
