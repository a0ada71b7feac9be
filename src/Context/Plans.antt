-- ===== src/Context/Plans.antt =====
-- What a finished plan holds.
use eino_local_assistant.Prelude.{
  All-reverse, ◌≡◌, refl, sym, ap, ◌∙◌, false, Option, List, [], ◌∷◌, ◌++◌, reverse, All, Text, ok,
  >>=-eq-ok,
}
use mathlib.Core.List.{reverse-append, reverse-reverse, reverse-cons, map-append}
use eino_local_assistant.Context.Tokens.{Schema, clone_msgs}
use eino_local_assistant.Context.Policy.{Config, validate_config}
use eino_local_assistant.Context.Refs.{ArtifactRef, TurnGroup, validate_groups, validate_artifacts}
use eino_local_assistant.Context.Checkpoints.{Checkpoint}
use eino_local_assistant.Context.Planner.{
  invalid_config, invalid_source, rewrap, PlannerInput, PromptPlan, group_ids, start_draft,
  no_selection,
}
use eino_local_assistant.Context.Plan.{
  check_checkpoint, checkpoint_message, group_draft, finish, plan,
}
use eino_local_assistant.Context.Selection.{Optional, select_groups-Splits}
use eino_local_assistant.Context.Layout.{
  required_of, artifact_messages, groups_messages, add_group_messages-append,
  add_required_artifacts-Extends, add_optional_artifacts-Extends, Admits, add_checkpoint-Admits,
}
use eino_local_assistant.Context.Stages.{
  immutable_tokens, budget, checked_draft, Built, build-Built,
}

module _ {Message : Type 0} where
  group_ids-reverse :
      (gs : List (TurnGroup Message)) → group_ids (reverse gs) ≡ reverse (group_ids gs)
  group_ids-reverse [] = refl
  group_ids-reverse (g ∷ gs) =
      ap group_ids (reverse-cons g gs)
      ∙ map-append (λ h. h.id) (reverse gs) (g ∷ [])
      ∙ ap (λ l. l ++ g.id ∷ []) (group_ids-reverse gs)
      ∙ sym (reverse-cons g.id (group_ids gs))

module _ {Message : Type 0} (schema : Schema Message) (marshal : Checkpoint → Option Text) where
  -- The plan keeps the groups of `newer`, leaves out those of `older`, and has its messages in the
  -- order: immutable, active, the checkpoint if it was admitted, the required artifacts, the groups,
  -- the optional artifacts that were chosen, current.
  pub record PlanLayout (input : PlannerInput Message) (p : PromptPlan Message) : Type 0 where
    pub older : List (TurnGroup Message)
    pub newer : List (TurnGroup Message)
    pub whole : input.turn_groups ≡ older ++ newer
    pub included : p.included_group_ids ≡ group_ids newer
    pub omitted : p.omitted_group_ids ≡ group_ids older
    pub optional : All Optional older
    pub added : List (Option Message)
    pub checkpoint : Admits schema (checkpoint_message schema marshal input.checkpoint) added
    pub chosen : List ArtifactRef
    pub chosen_optional : All (λ a. a.required ≡ false) chosen
    pub artifacts : p.included_artifacts ≡ required_of input.artifacts ++ chosen
    pub messages :
        p.messages
        ≡ clone_msgs (
            clone_msgs input.immutable_messages
            ++ clone_msgs input.active_messages
            ++ added
            ++ artifact_messages schema (required_of input.artifacts)
            ++ groups_messages schema newer
            ++ artifact_messages schema chosen
            ++ clone_msgs input.current_messages)

  module _ (cfg : Config) (input : PlannerInput Message) where
    Built-Layout : (p : PromptPlan Message) → Built schema marshal cfg input p → PlanLayout input p
    unfolding finish start_draft group_draft
    Built-Layout p b =
        let ceiling = budget schema marshal cfg input in
        let start = start_draft input (immutable_tokens schema marshal cfg input) in
        let s = b.selection in
        let grouped = group_draft schema marshal b.required s in
        let m =
          select_groups-Splits schema ceiling (reverse input.turn_groups)
            (no_selection b.required.used) s refl b.groups_done in
        let (added, checkpoint, put, none_yet) =
          add_checkpoint-Admits schema ceiling start
            (checkpoint_message schema marshal input.checkpoint) in
        let (put_required, listed) =
          add_required_artifacts-Extends schema ceiling input.artifacts
            (checked_draft schema marshal cfg input) b.required b.artifacts_done in
        let (chosen, (put_chosen, listed_chosen), chosen_optional) =
          add_optional_artifacts-Extends schema ceiling input.artifacts grouped in
        let newer = reverse m.newer in
        let req = artifact_messages schema (required_of input.artifacts) in
        let picked = artifact_messages schema chosen in
        let turned : reverse s.selected ≡ newer = ap reverse m.kept in
        let required_messages = put_required ∙ ap (λ l. l ++ req) put in
        let grouped_messages =
          add_group_messages-append schema (reverse s.selected) b.required.messages
          ∙ ap (λ l. b.required.messages ++ groups_messages schema l) turned
          ∙ ap (λ l. l ++ groups_messages schema newer) required_messages in
        let full = put_chosen ∙ ap (λ l. l ++ picked) grouped_messages in
        record {
          older = reverse m.older;
          newer = newer;
          whole =
              sym (reverse-reverse input.turn_groups)
              ∙ ap reverse m.whole
              ∙ reverse-append m.newer m.older;
          included = ap (λ q. q.included_group_ids) b.finished ∙ ap group_ids turned;
          omitted =
              ap (λ q. q.omitted_group_ids) b.finished
              ∙ ap reverse m.left_out
              ∙ sym (group_ids-reverse m.older);
          optional = All-reverse Optional m.older m.optional;
          added = added;
          checkpoint = checkpoint;
          chosen = chosen;
          chosen_optional = chosen_optional;
          artifacts =
              ap (λ q. q.included_artifacts) b.finished
              ∙ listed_chosen
              ∙ ap (λ l. l ++ chosen)
                  (listed ∙ ap (λ l. l ++ required_of input.artifacts) none_yet);
          messages =
              ap (λ q. q.messages) b.finished
              ∙ ap (λ l. clone_msgs (l ++ clone_msgs input.current_messages)) full;
        }

    -- A plan that was made went through every stage.
    pub plan-Built :
        (sha256_hex : Text → Text) (p : PromptPlan Message)
        → plan schema marshal sha256_hex cfg input ≡ ok p
        → Built schema marshal cfg input p
    unfolding plan
    plan-Built sha256_hex p h =
        let (_, _, h₁) = >>=-eq-ok (rewrap invalid_config (validate_config cfg)) _ h in
        let (_, _, h₂) =
          >>=-eq-ok (rewrap invalid_source (validate_groups input.turn_groups)) _ h₁ in
        let (_, _, h₃) =
          >>=-eq-ok (rewrap invalid_source (validate_artifacts input.artifacts)) _ h₂ in
        let (_, _, h₄) = >>=-eq-ok (check_checkpoint sha256_hex input.checkpoint) _ h₃ in
        build-Built schema marshal cfg input p h₄

    -- A plan keeps the newest groups, in the order of the source, leaves out only older groups that
    -- are optional, takes in every required artifact, and puts the current messages last.
    pub plan-Layout :
        (sha256_hex : Text → Text) (p : PromptPlan Message)
        → plan schema marshal sha256_hex cfg input ≡ ok p
        → PlanLayout input p
    plan-Layout sha256_hex p h = Built-Layout p (plan-Built sha256_hex p h)
