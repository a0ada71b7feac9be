-- ===== src/Context/Ceiling.antt =====
-- The prompt of a plan stays below the ceiling of the window.
use mathlib.Core.Path.{subst}
use eino_local_assistant.Prelude.{
  All-reverse, ℕ, ◌+◌, ◌*◌, ◌/◌, ◌≤◌, ◌<◌, ◌≡◌, sym, ap, ◌∙◌, false, Option, some, ◌++◌, reverse,
  arith, All, Text, ℤ, pos, ltb_ℤ, ok,
}
use eino_local_assistant.Context.Tokens.{Schema, estimate_messages, clone_msgs}
use eino_local_assistant.Context.Policy.{
  Config, normalize, request_admission_ceiling_tokens, percent_tokens,
}
use eino_local_assistant.Context.Checkpoints.{Checkpoint}
use eino_local_assistant.Context.Planner.{
  PlannerInput, PromptPlan, Draft, Selection, add_checkpoint, add_required_artifacts, select_groups,
  add_optional_artifacts, mandatory, start_draft, no_selection,
}
use eino_local_assistant.Context.Plan.{checkpoint_message, group_draft, finish, plan}
use eino_local_assistant.Context.Exact.{
  prompt_size, prompt_size-append, prompt_size-clone_msgs, estimate_messages_exact,
}
use eino_local_assistant.Context.Admission.{max_window, ceiling_exact}
use eino_local_assistant.Context.Layout.{groups_messages, add_group_messages-append}
use eino_local_assistant.Context.Plans.{plan-Built}
use eino_local_assistant.Context.Stages.{Built}
use eino_local_assistant.Context.Charges.{
  modest_size, ModestMessage, ModestArtifact, ModestGroup, groups_size-reverse,
  prompt_size-groups_messages,
}
use eino_local_assistant.Context.Budget.{
  Within, Chosen, add_checkpoint-Within, add_required_artifacts-Within, select_groups-Chosen,
  add_optional_artifacts-Within,
}

module _ {Message : Type 0} (schema : Schema Message) (marshal : Checkpoint → Option Text) where
  -- No single candidate, and not the mandatory part, is of 2 ^ 62 tokens or more.
  pub record IsModest (input : PlannerInput Message) : Type 0 where
    pub mandatory_part : prompt_size schema (mandatory input) < modest_size
    pub checkpoint_part :
        (m : Message)
        → checkpoint_message schema marshal input.checkpoint ≡ some m
        → ModestMessage schema m
    pub artifact_parts : All (ModestArtifact schema) input.artifacts
    pub group_parts : All (ModestGroup schema) input.turn_groups

  module _ (cfg : Config) (input : PlannerInput Message) (p : PromptPlan Message) where
    -- The stages of `p` under the ceiling `z`.
    abbrev pub Stages : ℤ → Type 0
    Stages z =
        let immutable = estimate_messages schema (mandatory input) in
        let start = start_draft input immutable in
        let cp = checkpoint_message schema marshal input.checkpoint in
        (required : Draft Message) × (s : Selection Message) × (ltb_ℤ z immutable ≡ false)
        × (add_required_artifacts schema z (add_checkpoint schema z start cp) input.artifacts
            ≡ ok required)
        × (select_groups schema z (reverse input.turn_groups) (no_selection required.used) ≡ ok s)
        × (p.messages
            ≡ clone_msgs (
                (add_optional_artifacts schema z (group_draft schema marshal required s)
                  input.artifacts).messages
                ++ clone_msgs input.current_messages))

    Built-Stages : Built schema marshal cfg input p → Stages (request_admission_ceiling_tokens cfg)
    unfolding finish
    Built-Stages b = (
      b.required,
      b.selection,
      b.within,
      b.artifacts_done,
      b.groups_done,
      ap (λ q. q.messages) b.finished,
    )

    start-Within :
        (r : ℕ) (small : r < modest_size)
        → IsModest input
        → ltb_ℤ (pos r) (estimate_messages schema (mandatory input)) ≡ false
        → Within schema r
            (prompt_size schema (clone_msgs input.current_messages))
            small
            (start_draft input (estimate_messages schema (mandatory input)))
    unfolding mandatory start_draft
    start-Within r small modest h =
        let n = prompt_size schema (mandatory input) in
        let e =
          estimate_messages_exact schema (mandatory input) (omega (arith, modest.mandatory_part)) in
        let plain = sym (ap (ltb_ℤ (pos r)) e) ∙ h in
        record {
          n = n;
          charged = e;
          room = omega (
            arith,
            prompt_size-append schema
                (clone_msgs input.immutable_messages ++ clone_msgs input.active_messages)
                (clone_msgs input.current_messages),
          );
          below = ground arith;
        }

    module _ (r : ℕ) (small : r < modest_size) (modest : IsModest input) where
      abbrev pub current_size : ℕ
      current_size = prompt_size schema (clone_msgs input.current_messages)

      required-Within :
          (required : Draft Message)
          → ltb_ℤ (pos r) (estimate_messages schema (mandatory input)) ≡ false
          → add_required_artifacts schema
              (pos r)
              (add_checkpoint schema
                (pos r)
                (start_draft input (estimate_messages schema (mandatory input)))
                (checkpoint_message schema marshal input.checkpoint))
              input.artifacts
            ≡ ok required
          → Within schema r current_size small required
      required-Within required within done =
          let start = start_draft input (estimate_messages schema (mandatory input)) in
          let cp = checkpoint_message schema marshal input.checkpoint in
          let checked =
            add_checkpoint-Within schema r current_size small start cp
              (start-Within r small modest within) modest.checkpoint_part in
          add_required_artifacts-Within schema r current_size small input.artifacts
            (add_checkpoint schema (pos r) start cp) required checked modest.artifact_parts done

      selection-Chosen :
          (required : Draft Message) (s : Selection Message)
          → Within schema r current_size small required
          → select_groups schema (pos r) (reverse input.turn_groups) (no_selection required.used)
            ≡ ok s
          → Chosen schema r current_size small
              (prompt_size schema required.messages + current_size)
              s
      selection-Chosen required s i done =
          select_groups-Chosen schema r current_size small
            (prompt_size schema required.messages + current_size) (reverse input.turn_groups)
            (no_selection required.used) s
            (record { n = i.n; charged = i.charged; room = omega (arith, i.room); below = i.below })
            (All-reverse (ModestGroup schema) input.turn_groups modest.group_parts) done

      group_draft-Within :
          (required : Draft Message) (s : Selection Message)
          → Chosen schema r current_size small
              (prompt_size schema required.messages + current_size)
              s
          → Within schema r current_size small (group_draft schema marshal required s)
      unfolding group_draft
      group_draft-Within required s i =
          let groups = reverse s.selected in
          let size =
            ap (prompt_size schema) (add_group_messages-append schema groups required.messages)
            ∙ prompt_size-append schema required.messages (groups_messages schema groups) in
          record {
            n = i.n;
            charged = i.charged;
            room = omega (
              arith,
              size,
              prompt_size-groups_messages schema groups,
              groups_size-reverse schema s.selected,
              i.room,
            );
            below = i.below;
          }

      Stages-below : Stages (pos r) → prompt_size schema p.messages ≤ r
      Stages-below (required, s, within, artifacts_done, groups_done, made) =
          let first = required-Within required within artifacts_done in
          let chosen = selection-Chosen required s first groups_done in
          let grouped = group_draft schema marshal required s in
          let last =
            add_optional_artifacts-Within schema r current_size small input.artifacts grouped
              (group_draft-Within required s chosen) modest.artifact_parts in
          let full = add_optional_artifacts schema (pos r) grouped input.artifacts in
          let tail = clone_msgs input.current_messages in
          omega (
            arith,
            ap (prompt_size schema) made,
            prompt_size-clone_msgs schema (full.messages ++ tail),
            prompt_size-append schema full.messages tail,
            last.room,
            last.below,
          )

    -- When the window is at most 2 ^ 56 tokens and no candidate is of 2 ^ 62 tokens or more, the
    -- prompt of a plan, as its `ResultTokens` says it, is at most 95 percent of the window.
    pub plan-below-ceiling :
        (sha256_hex : Text → Text) (w : ℕ)
        → (normalize cfg).window_tokens ≡ pos w
        → w ≤ max_window
        → IsModest input
        → plan schema marshal sha256_hex cfg input ≡ ok p
        → (n : ℕ) × (p.result_tokens ≡ pos n) × (n ≤ w * 95 / 100)
    unfolding request_admission_ceiling_tokens finish
    plan-below-ceiling sha256_hex w window small modest h =
        let built = plan-Built schema marshal cfg input sha256_hex p h in
        let r = w * 95 / 100 in
        let e = ap (λ x. percent_tokens x 95) window ∙ ceiling_exact w small in
        let within = Stages-below (r) (omega arith) modest (subst Stages e (Built-Stages built)) in
        let measured =
          ap (λ q. q.result_tokens) built.finished
          ∙ sym (ap (λ q. estimate_messages schema q.messages) built.finished) in
        (
          prompt_size schema p.messages,
          measured ∙ estimate_messages_exact schema p.messages (omega (arith, within)),
          within,
        )
