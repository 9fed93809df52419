-- ===== src/Tasks/Policy/Codes.antt =====
-- The tables of scheduler/core_execution_task_worker.py: `_SAFE_ERROR_CODES`, the markers of the Core's
-- texts, and the sets of codes in its tests.
use ledgermind_local.Prelude.{List, [], ◌∷◌, String}

abbrev pub safe_error_codes : List String
safe_error_codes =
    "execution_error" ∷ "provider_timeout" ∷ "provider_transport_error" ∷ "provider_unavailable"
    ∷ "provider_configuration_error" ∷ "provider_secret_missing" ∷ "provider_error"
    ∷ "invalid_model_output" ∷ "invalid_provider_response" ∷ "invalid_json_response"
    ∷ "length_truncation" ∷ "schema_shape_failure" ∷ "semantic_validation_failure"
    ∷ "language_fidelity_failure" ∷ "grounding_failure" ∷ "invalid_request"
    ∷ "provider_capability_unverified" ∷ "secret_missing" ∷ "input_budget_exceeded"
    ∷ "output_budget_exceeded" ∷ "authentication_error" ∷ "configuration_error" ∷ "cancelled"
    ∷ "timeout" ∷ "transport_error" ∷ "transient_provider_error" ∷ "profile_not_found"
    ∷ "profile_disabled" ∷ "input_too_large" ∷ "embedding_provider_error"
    ∷ "embedding_request_error" ∷ "embedding_batch_too_large" ∷ "embedding_text_too_large"
    ∷ "embedding_non_finite" ∷ "embedding_dimension_mismatch" ∷ "embedding_model_error"
    ∷ "embedding_cache_schema_error" ∷ "profile_missing" ∷ "core_unavailable" ∷ "core_poll_error"
    ∷ "core_delivery_error" ∷ "core_rejected_command" ∷ "core_rejected_stale_execution_task"
    ∷ "core_rejected_version_conflict" ∷ "core_rejected_invalid_request" ∷ "core_rejected_not_found"
    ∷ "core_rejected_idempotency_conflict" ∷ "core_rejected_integrity_violation"
    ∷ "core_rejected_invalid_object_facet_result" ∷ "core_rejected_unknown_object_candidate"
    ∷ "core_rejected_unknown_facet" ∷ "core_rejected_raw_round_conflict"
    ∷ "core_rejected_value_consolidation_conflict" ∷ "core_rejected_embedding_version_mismatch"
    ∷ "core_rejected_object_identity_ambiguous" ∷ "core_rejected_object_scope_mismatch"
    ∷ "core_rejected_object_alias_not_in_source" ∷ "core_rejected_object_candidate_not_offered"
    ∷ "core_rejected_contour_job_stale" ∷ "core_rejected_round_semantic_output_shape_invalid"
    ∷ "core_rejected_round_semantic_user_provenance_invalid"
    ∷ "core_rejected_round_semantic_execution_provenance_invalid"
    ∷ "core_rejected_round_semantic_outcome_inconsistent"
    ∷ "core_rejected_round_semantic_cardinality_exceeded"
    ∷ "core_rejected_round_semantic_object_ref_invalid"
    ∷ "core_rejected_round_semantic_object_refs_duplicate"
    ∷ "core_rejected_round_semantic_object_label_invalid"
    ∷ "core_rejected_round_semantic_object_description_invalid"
    ∷ "core_rejected_round_semantic_object_grounding_missing"
    ∷ "core_rejected_round_semantic_technical_anchors_invalid"
    ∷ "core_rejected_round_semantic_claim_refs_duplicate"
    ∷ "core_rejected_round_semantic_claim_object_ref_invalid"
    ∷ "core_rejected_round_semantic_claim_object_unknown"
    ∷ "core_rejected_round_semantic_claim_content_invalid"
    ∷ "core_rejected_round_semantic_claim_evidence_missing"
    ∷ "core_rejected_round_semantic_claim_refs_invalid"
    ∷ "core_rejected_structured_contract_digest_missing"
    ∷ "core_rejected_structured_contract_digest_mismatch"
    ∷ "core_rejected_structured_contract_missing" ∷ "core_rejected_structured_contract_invalid"
    ∷ "core_rejected_structured_contract_mismatch" ∷ "core_rejected_semantic_task_input_missing"
    ∷ "core_rejected_semantic_task_input_invalid" ∷ "core_rejected_semantic_reference_map_missing"
    ∷ "core_rejected_semantic_reference_map_invalid" ∷ "core_rejected_structured_attempt_invalid"
    ∷ "retry_exhausted" ∷ "expired" ∷ "permanent_failure" ∷ []

abbrev pub reason_markers : List (String × String)
reason_markers =
    (
      "round_semantic_user_provenance_invalid:",
      "core_rejected_round_semantic_user_provenance_invalid",
    )
    ∷ (
      "round_semantic_execution_provenance_invalid:",
      "core_rejected_round_semantic_execution_provenance_invalid",
    )
    ∷ (
      "round semantic output shape is invalid:",
      "core_rejected_round_semantic_output_shape_invalid",
    )
    ∷ (
      "round semantic outcome, abstention reason, and candidate arrays are inconsistent",
      "core_rejected_round_semantic_outcome_inconsistent",
    )
    ∷ (
      "round semantic result exceeds its bounded cardinality",
      "core_rejected_round_semantic_cardinality_exceeded",
    )
    ∷ (
      "round semantic object refs must be unique",
      "core_rejected_round_semantic_object_refs_duplicate",
    )
    ∷ ("round semantic object ref", "core_rejected_round_semantic_object_ref_invalid")
    ∷ ("round object label", "core_rejected_round_semantic_object_label_invalid")
    ∷ ("round object description", "core_rejected_round_semantic_object_description_invalid")
    ∷ ("object_missing_grounding_refs:", "core_rejected_round_semantic_object_grounding_missing")
    ∷ ("round technical_anchors", "core_rejected_round_semantic_technical_anchors_invalid")
    ∷ ("round claim refs must be unique", "core_rejected_round_semantic_claim_refs_duplicate")
    ∷ (
      "round claim references unknown object ", "core_rejected_round_semantic_claim_object_unknown",
    )
    ∷ ("round claim object ref", "core_rejected_round_semantic_claim_object_ref_invalid")
    ∷ ("round claim content", "core_rejected_round_semantic_claim_content_invalid")
    ∷ (
      "round claim requires user or execution evidence",
      "core_rejected_round_semantic_claim_evidence_missing",
    )
    ∷ ("user_refs", "core_rejected_round_semantic_claim_refs_invalid")
    ∷ ("execution_refs", "core_rejected_round_semantic_claim_refs_invalid")
    ∷ ("user_condition_refs", "core_rejected_round_semantic_claim_refs_invalid")
    ∷ ("execution_condition_refs", "core_rejected_round_semantic_claim_refs_invalid")
    ∷ (
      "structured result must return the task contract digest",
      "core_rejected_structured_contract_digest_missing",
    )
    ∷ ("returned contract digest ", "core_rejected_structured_contract_digest_mismatch")
    ∷ ("structured task is missing output_contract", "core_rejected_structured_contract_missing")
    ∷ ("structured task contract cannot be decoded:", "core_rejected_structured_contract_invalid")
    ∷ ("structured task contract is invalid:", "core_rejected_structured_contract_invalid")
    ∷ ("task has unexpected contract ", "core_rejected_structured_contract_mismatch")
    ∷ (" task is missing model input", "core_rejected_semantic_task_input_missing")
    ∷ (" input is invalid:", "core_rejected_semantic_task_input_invalid")
    ∷ (" task is missing reference map", "core_rejected_semantic_reference_map_missing")
    ∷ (" reference map is invalid:", "core_rejected_semantic_reference_map_invalid")
    ∷ ("structured generation attempt ", "core_rejected_structured_attempt_invalid")
    ∷ []

-- The codes that `classify_execution_error` passes on.
abbrev pub permanent_codes : List String
permanent_codes =
    "invalid_json_response" ∷ "invalid_request" ∷ "provider_capability_unverified"
    ∷ "secret_missing" ∷ "schema_shape_failure" ∷ "semantic_validation_failure"
    ∷ "language_fidelity_failure" ∷ "grounding_failure" ∷ []

abbrev pub circuit_codes : List String
circuit_codes =
    "authentication_failed" ∷ "provider_configuration_error" ∷ "provider_secret_missing"
    ∷ "secret_missing" ∷ []

abbrev pub shape_codes : List String
shape_codes =
    "invalid_provider_response" ∷ "invalid_json_response" ∷ "invalid_model_output"
    ∷ "length_truncation" ∷ "schema_shape_failure" ∷ []

abbrev pub retryable_codes : List String
retryable_codes =
    "provider_timeout" ∷ "provider_transport_error" ∷ "provider_unavailable" ∷ "transport_error"
    ∷ "transient_provider_error" ∷ "timeout" ∷ []

abbrev pub structured_kinds : List String
structured_kinds = "generate_json" ∷ "object_resolution" ∷ []
