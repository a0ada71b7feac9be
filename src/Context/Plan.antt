-- ===== src/Context/Plan.antt =====
-- internal/contextbuild/planner.go: `Plan` as a whole.
use eino_local_assistant.Prelude.{
  not, ◌&&◌, ◌||◌, Option, none, some, List, [], ◌∷◌, ◌++◌, reverse, if◌then◌else◌, Text, codes, ℤ,
  leb_ℤ, ltb_ℤ, add_int, Result, ok, ◌>>=◌, ◌>>◌, fail_if,
}
use eino_local_assistant.Context.Tokens.{Schema, estimate_messages, clone_msgs}
use eino_local_assistant.Context.Policy.{
  Config, validate_config, auto_compact_trigger_tokens, request_admission_ceiling_tokens,
  post_compact_target_tokens,
}
use eino_local_assistant.Context.Refs.{is_nil, validate_artifacts, validate_groups, add_artifacts}
use eino_local_assistant.Context.Checkpoints.{Checkpoint}
use eino_local_assistant.Context.Provenance.{validate_checkpoint}
use eino_local_assistant.Context.Planner.{
  PlanFallback, complete_groups_omitted, PlanError, invalid_config, invalid_source,
  invalid_checkpoint, immutable_over_budget, rewrap, PlannerInput, PromptPlan, Draft, Selection,
  add_checkpoint, add_required_artifacts, select_groups, add_group_messages, add_optional_artifacts,
  add_groups, group_ids, mandatory, start_draft, no_selection,
}

-- `marshal` is json.Marshal, which may fail.
unfoldable pub checkpoint_prompt_text : (Checkpoint → Option Text) → Checkpoint → Text
checkpoint_prompt_text marshal c = elim (marshal c) [
  | none ↦ codes "[invalid structured checkpoint]"
  | some encoded ↦
      codes "Structured checkpoint (derived from source events; re-read sources when uncertain):\n"
      ++ encoded
]

unfoldable pub check_checkpoint : (Text → Text) → Option Checkpoint → Result PlanError (Unit {0})
check_checkpoint sha256_hex none = ok tt
check_checkpoint sha256_hex (some c) = rewrap invalid_checkpoint (validate_checkpoint sha256_hex c)

module _ {Message : Type 0} (schema : Schema Message) (marshal : Checkpoint → Option Text) where
  unfoldable pub checkpoint_message : Option Checkpoint → Option Message
  unfolding checkpoint_prompt_text
  checkpoint_message none = none
  checkpoint_message (some c) = some (schema.system_message (checkpoint_prompt_text marshal c))

  unfoldable pub checkpoint_estimated_tokens : Option Message → ℤ → ℤ
  checkpoint_estimated_tokens none total = total
  checkpoint_estimated_tokens (some m) total =
      add_int total (estimate_messages schema (some m ∷ []))

  -- The size of all candidates.
  unfoldable pub original_tokens : PlannerInput Message → ℤ → ℤ
  unfolding checkpoint_estimated_tokens checkpoint_message
  original_tokens input immutable =
      let checked = checkpoint_estimated_tokens (checkpoint_message input.checkpoint) immutable in
      add_groups schema (add_artifacts schema checked input.artifacts) input.turn_groups

  -- The draft with the selected groups, which are turned round to the order of the source.
  unfoldable pub group_draft : Draft Message → Selection Message → Draft Message
  group_draft d s = record d {
    messages = add_group_messages schema d.messages (reverse s.selected);
    used = s.used;
  }

  unfoldable pub omitted_fallback : List Text → List PlanFallback
  omitted_fallback ids = if is_nil ids then [] else complete_groups_omitted ids ∷ []

  unfoldable pub finish :
      Config → PlannerInput Message → ℤ → Selection Message → Draft Message → PromptPlan Message
  unfolding omitted_fallback
  finish cfg input immutable s d =
      let messages = clone_msgs (d.messages ++ clone_msgs input.current_messages) in
      let original = original_tokens input immutable in
      let omitted = reverse s.omitted in
      record {
        messages = messages;
        ceiling_tokens = request_admission_ceiling_tokens cfg;
        trigger_tokens = auto_compact_trigger_tokens cfg;
        target_tokens = post_compact_target_tokens cfg;
        original_tokens = original;
        result_tokens = estimate_messages schema messages;
        should_compact =
            leb_ℤ (auto_compact_trigger_tokens cfg) original
            && (not (is_nil omitted) || ltb_ℤ (post_compact_target_tokens cfg) original);
        included_group_ids = group_ids (reverse s.selected);
        omitted_group_ids = omitted;
        included_artifacts = d.included_artifacts;
        fallbacks = d.fallbacks ++ omitted_fallback omitted;
      }

  -- Everything after the checks of the input.
  unfoldable pub build : Config → PlannerInput Message → Result PlanError (PromptPlan Message)
  unfolding finish group_draft checkpoint_message
  build cfg input = do
    let ceiling = request_admission_ceiling_tokens cfg
    let immutable = estimate_messages schema (mandatory input)
    fail_if (ltb_ℤ ceiling immutable) (immutable_over_budget immutable ceiling)
    let checked =
        add_checkpoint schema ceiling (start_draft input immutable)
          (checkpoint_message input.checkpoint)
    required ← add_required_artifacts schema ceiling checked input.artifacts
    s ← select_groups schema ceiling (reverse input.turn_groups) (no_selection required.used)
    let full = add_optional_artifacts schema ceiling (group_draft required s) input.artifacts
    ok (finish cfg input immutable s full)

  unfoldable pub plan :
      (Text → Text) → Config → PlannerInput Message → Result PlanError (PromptPlan Message)
  unfolding check_checkpoint build
  plan sha256_hex cfg input = do
    rewrap invalid_config (validate_config cfg)
    rewrap invalid_source (validate_groups input.turn_groups)
    rewrap invalid_source (validate_artifacts input.artifacts)
    check_checkpoint sha256_hex input.checkpoint
    build cfg input
