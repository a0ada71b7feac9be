-- ===== src/Context/Degrading.antt =====
-- A plan of optional content is never refused: what does not fit is left out.
use eino_local_assistant.Prelude.{
  All-reverse, ◌≡◌, refl, ap, ◌∙◌, true, false, ◌||◌, List, [], ◌∷◌, ◌++◌, reverse, arith, All,
  Text, ℤ, ltb_ℤ, Option, ok, err, ◌>>=◌, not, >>=-eq, fail_if-eq, add_int, if-holds, if◌then◌else◌,
}
use eino_local_assistant.Context.Tokens.{Schema, estimate_messages}
use eino_local_assistant.Context.Policy.{Config, validate_config, request_admission_ceiling_tokens}
use eino_local_assistant.Context.Refs.{
  ArtifactRef, TurnGroup, validate_groups, validate_artifacts, group_estimated_tokens,
}
use eino_local_assistant.Context.Checkpoints.{Checkpoint}
use eino_local_assistant.Context.Planner.{
  required_group_over_budget, invalid_config, invalid_source, rewrap, PlannerInput, PromptPlan,
  Draft, Selection, fits, omit_group, select_group, select_groups, add_checkpoint,
  add_required_artifacts, mandatory, start_draft, no_selection,
}
use eino_local_assistant.Context.Plan.{check_checkpoint, checkpoint_message, build, plan}
use eino_local_assistant.Context.Selection.{Optional}

-- Nothing of the candidates is marked as required.
pub record IsOptional {Message : Type 0} (input : PlannerInput Message) : Type 0 where
  pub groups : All Optional input.turn_groups
  pub artifacts : All (λ a. a.required ≡ false) input.artifacts

module _ {Message : Type 0} (schema : Schema Message) (ceiling : ℤ) where
  add_required_artifacts-none :
      (d : Draft Message) (artifacts : List ArtifactRef)
      → All (λ a. a.required ≡ false) artifacts
      → add_required_artifacts schema ceiling d artifacts ≡ ok d
  unfolding add_required_artifacts
  add_required_artifacts-none d [] h = refl
  add_required_artifacts-none d (a ∷ rest) (o, os) =
      ground (arith, add_required_artifacts-none d rest os)

  select_group_succeeds :
      (g : TurnGroup Message) (s : Selection Message)
      → Optional g
      → (s' : Selection Message) × (select_group schema ceiling g s ≡ ok s')
  unfolding select_group omit_group
  select_group_succeeds g s o =
      let tokens = group_estimated_tokens schema g in
      let left_out : Selection Message = record s {
        omitted = s.omitted ++ g.id ∷ [];
        cut = true;
      } in
      if-holds (λ r. (s' : Selection Message) × (r ≡ ok s'))
        (s.cut || not (fits ceiling s.used tokens)) (omit_group schema ceiling g s)
        (ok (record s { selected = s.selected ++ g ∷ []; used = add_int s.used tokens }))
        (λ _.
          (left_out, ap (λ b. if b then err (required_group_over_budget g.id) else ok left_out) o))
        (λ _. (_, refl))

  select_groups_succeed :
      (gs : List (TurnGroup Message)) (s : Selection Message)
      → All Optional gs
      → (s' : Selection Message) × (select_groups schema ceiling gs s ≡ ok s')
  unfolding select_groups
  select_groups_succeed [] s h = (s, refl)
  select_groups_succeed (g ∷ gs) s (o, os) =
      let (t, e) = select_group_succeeds g s o in
      let (s', e') = select_groups_succeed gs t os in
      (s', ap (λ r. r >>= λ t. select_groups schema ceiling gs t) e ∙ e')

module _ {Message : Type 0} (schema : Schema Message) (marshal : Checkpoint → Option Text) where
  build_succeeds :
      (cfg : Config) (input : PlannerInput Message)
      → ltb_ℤ (request_admission_ceiling_tokens cfg) (estimate_messages schema (mandatory input))
        ≡ false
      → IsOptional input
      → (p : PromptPlan Message) × (build schema marshal cfg input ≡ ok p)
  unfolding build
  build_succeeds cfg input within o =
      let z = request_admission_ceiling_tokens cfg in
      let d =
        add_checkpoint schema z (start_draft input (estimate_messages schema (mandatory input)))
          (checkpoint_message schema marshal input.checkpoint) in
      let (s, chosen) =
        select_groups_succeed schema z (reverse input.turn_groups) (no_selection d.used)
          (All-reverse Optional input.turn_groups o.groups) in
      (
        _,
        >>=-eq _ _ (fail_if-eq _ _ within) (
            >>=-eq _ _ (add_required_artifacts-none schema z d input.artifacts o.artifacts) (
              >>=-eq (select_groups schema z (reverse input.turn_groups) (no_selection d.used)) _
                chosen refl)),
      )

  -- Valid input with no required group and no required artifact gets a plan whenever the immutable,
  -- active and current messages are within the ceiling.
  pub plan_succeeds :
      (sha256_hex : Text → Text) (cfg : Config) (input : PlannerInput Message)
      → validate_config cfg ≡ ok tt
      → validate_groups input.turn_groups ≡ ok tt
      → validate_artifacts input.artifacts ≡ ok tt
      → check_checkpoint sha256_hex input.checkpoint ≡ ok tt
      → ltb_ℤ (request_admission_ceiling_tokens cfg) (estimate_messages schema (mandatory input))
        ≡ false
      → IsOptional input
      → (p : PromptPlan Message) × (plan schema marshal sha256_hex cfg input ≡ ok p)
  unfolding plan rewrap
  plan_succeeds sha256_hex cfg input c g a k within o =
      let (p, made) = build_succeeds cfg input within o in
      (
        p,
        >>=-eq _ _ (ap (rewrap invalid_config) c) (
            >>=-eq _ _ (ap (rewrap invalid_source) g)
              (>>=-eq _ _ (ap (rewrap invalid_source) a) (>>=-eq _ _ k made))),
      )
