-- ===== src/Context/Examples.antt =====
-- The theorems on prompts and checkpoints at concrete inputs.
use mathlib.Core.Path.{subst}
use eino_local_assistant.Prelude.{
  ℕ, ◌+◌, ◌*◌, ◌/◌, ◌≤◌, ◌<◌, arith, Text, map, All, length, none, some, pos_part, some_inj, ◌≡◌,
  refl, text_eq, is_space, trim_left, trim_space, is_empty, add_int, ◌+ℤ◌, mul_int, List, [], ◌∷◌,
  codes, ok, pos,
}
use eino_local_assistant.Context.Tokens.{
  estimate_text, estimate_calls, estimate_message, estimate_from, estimate_messages, clone_msgs,
}
use eino_local_assistant.Context.Policy.{
  AdmissionPolicy, check_request_admission, estimate_request_tokens, enabled, ceiling_tokens,
  add_framing, add_guard, max_response_tokens, percent_tokens, normalize,
  auto_compact_trigger_tokens, request_admission_ceiling_tokens, post_compact_target_tokens,
  validate_config,
}
use eino_local_assistant.Context.Refs.{
  contains, unique_after, unique_non_empty, valid_confidence, labelled, artifact_prompt_text,
  validate_artifact, validate_artifacts, is_nil, effective_source_event_ids, check_messages,
  in_group, validate_group, validate_groups, artifact_message, artifact_estimated_tokens,
  add_artifacts, group_estimated_tokens, prompt_messages,
}
use eino_local_assistant.Context.Checkpoints.{
  max_checkpoint_evidence_refs, same_strings, is_hex, is_sha256, source_ref_set, event_allowed,
  is_parent, check_kind, ref_key, check_refs, validate_references,
}
use eino_local_assistant.Context.Claims.{
  as_item, check_items, check_section, validate_items, validate_decisions, validate_attempts,
  validate_files, validate_claims,
}
use eino_local_assistant.Context.Provenance.{
  validate_for_source_with_claim_scope, checkpoint_provenance_for_source, make_provenance,
  checkpoint_evidence_refs, canonical_direct_source_event_ids, map_err, same_provenance,
  same_parent, check_manifest, all_refs, first, last, parent_valid, claim_source_scope, is_version,
  hash_checkpoint_lineage, validate_provenance, validate_shape, validate_checkpoint,
}
use eino_local_assistant.Context.Planner.{
  PromptPlan, rewrap, admit, include_artifact, note_fallback, fits, add_checkpoint,
  add_required_artifacts, omit_group, select_group, select_groups, add_optional_artifacts,
  add_group_messages, add_groups, mandatory, start_draft,
}
use eino_local_assistant.Context.Plan.{
  checkpoint_prompt_text, check_checkpoint, checkpoint_message, checkpoint_estimated_tokens,
  original_tokens, group_draft, omitted_fallback, finish, build, plan,
}
use eino_local_assistant.Context.Plans.{PlanLayout, plan-Layout}
use eino_local_assistant.Context.Charges.{ModestMessage}
use eino_local_assistant.Context.Ceiling.{IsModest, plan-below-ceiling}
use eino_local_assistant.Context.Degrading.{plan_succeeds}
use eino_local_assistant.Context.Accepted.{IsCited, validate_for_source-IsCited}
use eino_local_assistant.Context.Admission.{thresholds_ordered, admitted_fits_window}
use eino_local_assistant.Context.Anchors.{checkpoint_evidence_refs_bounded}
use eino_local_assistant.Context.Samples.{
  checkpoint, provenance, plain, short_json, constant_hash, small_window, input, planned,
}

planned_ok : plan plain short_json constant_hash small_window input ≡ ok planned
unfolding planned estimate_text estimate_calls estimate_message estimate_from estimate_messages
    clone_msgs percent_tokens normalize auto_compact_trigger_tokens request_admission_ceiling_tokens
    post_compact_target_tokens validate_config contains unique_after unique_non_empty
    valid_confidence labelled artifact_prompt_text validate_artifact validate_artifacts is_nil
    effective_source_event_ids check_messages in_group validate_group validate_groups
    artifact_message artifact_estimated_tokens add_artifacts group_estimated_tokens prompt_messages
    is_hex is_sha256 source_ref_set event_allowed is_parent check_kind ref_key check_refs
    validate_references as_item check_items check_section validate_items validate_decisions
    validate_attempts validate_files validate_claims first last parent_valid claim_source_scope
    is_version hash_checkpoint_lineage validate_provenance validate_shape validate_checkpoint rewrap
    admit include_artifact note_fallback fits add_checkpoint add_required_artifacts omit_group
    select_group select_groups add_optional_artifacts add_group_messages add_groups mandatory
    start_draft checkpoint_prompt_text check_checkpoint checkpoint_message
    checkpoint_estimated_tokens original_tokens group_draft omitted_fallback finish build plan
    text_eq is_space trim_left trim_space is_empty add_int ◌+ℤ◌ mul_int
planned_ok = refl

plan-Layout_example : PlanLayout plain short_json input planned
plan-Layout_example =
    plan-Layout plain short_json small_window input constant_hash planned planned_ok

input-IsModest : IsModest plain short_json input
unfolding mandatory clone_msgs estimate_text is_empty checkpoint_message checkpoint_prompt_text
    artifact_message artifact_prompt_text labelled prompt_messages
input-IsModest = record {
  mandatory_part = omega arith;
  checkpoint_part = λ m e. subst (ModestMessage plain) (some_inj e) (omega arith);
  artifact_parts = (omega arith, tt);
  group_parts = (omega arith, (omega arith, tt));
}

plan-below-ceiling_example : (n : ℕ) × (planned.result_tokens ≡ pos n) × (n ≤ 100 * 95 / 100)
unfolding normalize
plan-below-ceiling_example =
    plan-below-ceiling plain short_json small_window input planned constant_hash 100 refl
      (omega arith) input-IsModest planned_ok

plan_succeeds_example :
    (p : PromptPlan Text) × (plan plain short_json constant_hash small_window input ≡ ok p)
unfolding estimate_text estimate_calls estimate_message estimate_from estimate_messages clone_msgs
    percent_tokens normalize auto_compact_trigger_tokens request_admission_ceiling_tokens
    post_compact_target_tokens validate_config contains unique_after unique_non_empty
    valid_confidence labelled artifact_prompt_text validate_artifact validate_artifacts is_nil
    effective_source_event_ids check_messages in_group validate_group validate_groups
    artifact_message artifact_estimated_tokens add_artifacts group_estimated_tokens prompt_messages
    is_hex is_sha256 source_ref_set event_allowed is_parent check_kind ref_key check_refs
    validate_references as_item check_items check_section validate_items validate_decisions
    validate_attempts validate_files validate_claims first last parent_valid claim_source_scope
    is_version hash_checkpoint_lineage validate_provenance validate_shape validate_checkpoint rewrap
    admit include_artifact note_fallback fits add_checkpoint add_required_artifacts omit_group
    select_group select_groups add_optional_artifacts add_group_messages add_groups mandatory
    start_draft checkpoint_prompt_text check_checkpoint checkpoint_message
    checkpoint_estimated_tokens original_tokens group_draft omitted_fallback finish build plan
    text_eq is_space trim_left trim_space is_empty add_int ◌+ℤ◌ mul_int
plan_succeeds_example =
    plan_succeeds plain short_json constant_hash small_window input refl refl refl refl refl
      (record { groups = (refl, (refl, tt)); artifacts = (refl, tt) })

validate_for_source-IsCited_example :
    (checkpoint.provenance ≡ provenance)
    × All (IsCited (codes "e1" ∷ codes "e2" ∷ []) (codes "e1" ∷ []) none) (all_refs checkpoint)
unfolding validate_for_source_with_claim_scope checkpoint_provenance_for_source make_provenance
    checkpoint_evidence_refs canonical_direct_source_event_ids map_err same_provenance same_parent
    same_strings check_manifest estimate_text estimate_calls estimate_message estimate_from
    estimate_messages clone_msgs percent_tokens normalize auto_compact_trigger_tokens
    request_admission_ceiling_tokens post_compact_target_tokens validate_config contains
    unique_after unique_non_empty valid_confidence labelled artifact_prompt_text validate_artifact
    validate_artifacts is_nil effective_source_event_ids check_messages in_group validate_group
    validate_groups artifact_message artifact_estimated_tokens add_artifacts group_estimated_tokens
    prompt_messages is_hex is_sha256 source_ref_set event_allowed is_parent check_kind ref_key
    check_refs validate_references as_item check_items check_section validate_items
    validate_decisions validate_attempts validate_files validate_claims first last parent_valid
    claim_source_scope is_version hash_checkpoint_lineage validate_provenance validate_shape
    validate_checkpoint rewrap admit include_artifact note_fallback fits add_checkpoint
    add_required_artifacts omit_group select_group select_groups add_optional_artifacts
    add_group_messages add_groups mandatory start_draft checkpoint_prompt_text check_checkpoint
    checkpoint_message checkpoint_estimated_tokens original_tokens group_draft omitted_fallback
    finish build plan text_eq is_space trim_left trim_space is_empty add_int ◌+ℤ◌ mul_int
validate_for_source-IsCited_example =
    validate_for_source-IsCited constant_hash checkpoint provenance (codes "e1" ∷ codes "e2" ∷ [])
      (codes "e1" ∷ []) refl

thresholds_ordered_example :
    (t : ℕ) × (a : ℕ) × (r : ℕ) × (post_compact_target_tokens small_window ≡ pos t)
    × (auto_compact_trigger_tokens small_window ≡ pos a)
    × (request_admission_ceiling_tokens small_window ≡ pos r)
    × (1 ≤ t)
    × (t ≤ a)
    × (a ≤ r)
    × (r < pos_part (normalize small_window).window_tokens)
unfolding validate_config normalize
thresholds_ordered_example = thresholds_ordered small_window refl (omega arith)

abbrev policy : AdmissionPolicy
policy = record { window_tokens = pos 200; tool_schema_tokens = pos 20 }

admitted_fits_window_example :
    (n : ℕ) × (m : ℕ) × (estimate_request_tokens plain policy (some (codes "hello") ∷ []) ≡ pos n)
    × (max_response_tokens plain policy (some (codes "hello") ∷ []) ≡ pos m)
    × (1 ≤ m)
    × (n + m ≤ 200)
unfolding check_request_admission estimate_request_tokens enabled ceiling_tokens add_framing
    add_guard percent_tokens mul_int estimate_messages estimate_from estimate_message estimate_calls
    estimate_text is_empty add_int ◌+ℤ◌
admitted_fits_window_example =
    admitted_fits_window plain policy 200 20 refl refl (some (codes "hello") ∷ []) (omega arith)
      (omega arith) (omega arith) refl

-- Forty event IDs, of one letter each.
abbrev forty : List Text
forty =
    map (λ c. c ∷ [])
      (65 ∷ 66 ∷ 67 ∷ 68 ∷ 69 ∷ 70 ∷ 71 ∷ 72 ∷ 73 ∷ 74 ∷ 75 ∷ 76 ∷ 77 ∷ 78 ∷ 79 ∷ 80 ∷ 81 ∷ 82 ∷ 83
        ∷ 84 ∷ 85 ∷ 86 ∷ 87 ∷ 88 ∷ 89 ∷ 90 ∷ 91 ∷ 92 ∷ 93 ∷ 94 ∷ 95 ∷ 96 ∷ 97 ∷ 98 ∷ 99 ∷ 100 ∷ 101
        ∷ 102 ∷ 103 ∷ 104 ∷ [])

checkpoint_evidence_refs_bounded_example :
    (length (checkpoint_evidence_refs forty) ≤ max_checkpoint_evidence_refs)
    × (first (checkpoint_evidence_refs forty) ≡ first (unique_non_empty forty))
    × (last (checkpoint_evidence_refs forty) ≡ last (unique_non_empty forty))
checkpoint_evidence_refs_bounded_example = checkpoint_evidence_refs_bounded forty
