-- ===== src/Context/Stages.antt =====
-- The stages of a plan that was made, and what they put into it.
use eino_local_assistant.Prelude.{
  ◌≡◌, sym, false, Option, reverse, Text, ℤ, ltb_ℤ, ok, fail_if, >>=-eq-ok, fail_if-eq-ok, ok_inj,
}
use eino_local_assistant.Context.Tokens.{Schema, estimate_messages}
use eino_local_assistant.Context.Policy.{Config, request_admission_ceiling_tokens}
use eino_local_assistant.Context.Checkpoints.{Checkpoint}
use eino_local_assistant.Context.Planner.{
  PlannerInput, PromptPlan, Draft, Selection, add_checkpoint, add_required_artifacts, select_groups,
  add_optional_artifacts, mandatory, start_draft, no_selection,
}
use eino_local_assistant.Context.Plan.{checkpoint_message, group_draft, finish, build}

module _ {Message : Type 0} (schema : Schema Message) where
  module _ (marshal : Checkpoint → Option Text) (cfg : Config) (input : PlannerInput Message) where
    abbrev pub immutable_tokens : ℤ
    immutable_tokens = estimate_messages schema (mandatory input)

    abbrev pub budget : ℤ
    budget = request_admission_ceiling_tokens cfg

    -- The draft before the artifacts.
    abbrev pub checked_draft : Draft Message
    checked_draft =
        add_checkpoint schema budget (start_draft input immutable_tokens)
          (checkpoint_message schema marshal input.checkpoint)

    -- The stages that a plan went through.
    pub record Built (p : PromptPlan Message) : Type 0 where
      pub within : ltb_ℤ budget immutable_tokens ≡ false
      pub required : Draft Message
      pub selection : Selection Message
      pub artifacts_done :
          add_required_artifacts schema budget checked_draft input.artifacts ≡ ok required
      pub groups_done :
          select_groups schema budget (reverse input.turn_groups) (no_selection required.used)
          ≡ ok selection
      pub finished :
          p
          ≡ finish schema marshal cfg input immutable_tokens selection (
              add_optional_artifacts schema budget
                (group_draft schema marshal required selection)
                input.artifacts)

    pub build-Built : (p : PromptPlan Message) → build schema marshal cfg input ≡ ok p → Built p
    unfolding build
    build-Built p h =
        let test = ltb_ℤ budget immutable_tokens in
        let (_, within, h₁) = >>=-eq-ok (fail_if test _) _ h in
        let (required, artifacts_done, h₂) =
          >>=-eq-ok (add_required_artifacts schema budget checked_draft input.artifacts) _ h₁ in
        let (s, groups_done, h₃) =
          >>=-eq-ok
            (select_groups schema budget (reverse input.turn_groups) (no_selection required.used)) _
            h₂ in
        record {
          within = fail_if-eq-ok _ test within;
          required = required;
          selection = s;
          artifacts_done = artifacts_done;
          groups_done = groups_done;
          finished = ok_inj (sym h₃);
        }
