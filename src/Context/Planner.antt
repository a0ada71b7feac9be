-- ===== src/Context/Planner.antt =====
-- internal/contextbuild/planner.go: `Plan`, as its stages in the order of the code. `marshal` is
-- json.Marshal of a checkpoint, `sha256_hex` its hash.
use eino_local_assistant.Prelude.{
  Bool, true, false, not, ◌||◌, Option, none, some, List, [], ◌∷◌, ◌++◌, map, if◌then◌else◌, Text,
  ℤ, leb_ℤ, add_int, Result, err, ok, ◌>>=◌,
}
use eino_local_assistant.Context.Tokens.{Schema, estimate_messages, clone_msgs}
use eino_local_assistant.Context.Policy.{ConfigError}
use eino_local_assistant.Context.Refs.{
  ArtifactRef, TurnGroup, GroupError, artifact_message, group_estimated_tokens, prompt_messages,
}
use eino_local_assistant.Context.Checkpoints.{Checkpoint, CheckpointError}

pub data PlanFallback : Type 0 where
  checkpoint_omitted : PlanFallback
  artifact_omitted : Text → PlanFallback
  complete_groups_omitted : List Text → PlanFallback

pub data PlanError : Type 0 where
  invalid_config : ConfigError → PlanError
  invalid_source : GroupError → PlanError
  invalid_checkpoint : CheckpointError → PlanError
  immutable_over_budget : ℤ → ℤ → PlanError
  required_artifact_over_budget : Text → PlanError
  required_group_over_budget : Text → PlanError

unfoldable pub rewrap : {E A : Type 0} → (E → PlanError) → Result E A → Result PlanError A
rewrap f (err e) = err (f e)
rewrap f (ok a) = ok a

pub record PlannerInput (Message : Type 0) : Type 0 where
  pub immutable_messages : List (Option Message)
  pub active_messages : List (Option Message)
  pub current_messages : List (Option Message)
  pub checkpoint : Option Checkpoint
  pub turn_groups : List (TurnGroup Message)
  pub artifacts : List ArtifactRef

pub record PromptPlan (Message : Type 0) : Type 0 where
  pub messages : List (Option Message)
  pub ceiling_tokens : ℤ
  pub trigger_tokens : ℤ
  pub target_tokens : ℤ
  pub original_tokens : ℤ
  pub result_tokens : ℤ
  pub should_compact : Bool
  pub included_group_ids : List Text
  pub omitted_group_ids : List Text
  pub included_artifacts : List ArtifactRef
  pub fallbacks : List PlanFallback

-- What has been admitted so far: the messages and the tokens that they are charged.
pub record Draft (Message : Type 0) : Type 0 where
  pub messages : List (Option Message)
  pub used : ℤ
  pub included_artifacts : List ArtifactRef
  pub fallbacks : List PlanFallback

-- The groups that the newest-first loop has chosen and left out, each list newest first.
pub record Selection (Message : Type 0) : Type 0 where
  pub selected : List (TurnGroup Message)
  pub omitted : List Text
  pub used : ℤ
  pub cut : Bool

-- A message joins the draft at a price.
unfoldable pub admit : {Message : Type 0} → Draft Message → Message → ℤ → Draft Message
admit d m tokens = record d { messages = d.messages ++ some m ∷ []; used = add_int d.used tokens }

unfoldable pub include_artifact : {Message : Type 0} → Draft Message → ArtifactRef → Draft Message
include_artifact d a = record d { included_artifacts = d.included_artifacts ++ a ∷ [] }

unfoldable pub note_fallback : {Message : Type 0} → Draft Message → PlanFallback → Draft Message
note_fallback d f = record d { fallbacks = d.fallbacks ++ f ∷ [] }

unfoldable pub fits : ℤ → ℤ → ℤ → Bool
fits ceiling used tokens = leb_ℤ (add_int used tokens) ceiling

module _ {Message : Type 0} (schema : Schema Message) (ceiling : ℤ) where
  abbrev pub message_tokens : Message → ℤ
  message_tokens m = estimate_messages schema (some m ∷ [])

  unfoldable pub add_checkpoint : Draft Message → Option Message → Draft Message
  unfolding admit note_fallback fits
  add_checkpoint d none = d
  add_checkpoint d (some m) =
      if fits ceiling d.used (message_tokens m)
      then admit d m (message_tokens m)
      else note_fallback d checkpoint_omitted

  unfoldable pub add_required_artifacts :
      Draft Message → List ArtifactRef → Result PlanError (Draft Message)
  unfolding admit include_artifact fits artifact_message
  add_required_artifacts d [] = ok d
  add_required_artifacts d (a ∷ rest) =
      let m = artifact_message schema a in
      let next = add_required_artifacts (include_artifact (admit d m (message_tokens m)) a) rest in
      let skip = add_required_artifacts d rest in
      if not a.required
      then skip
      else if not (fits ceiling d.used (message_tokens m))
      then err (required_artifact_over_budget a.id)
      else next

  unfoldable pub omit_group :
      TurnGroup Message → Selection Message → Result PlanError (Selection Message)
  omit_group g s =
      if g.required
      then err (required_group_over_budget g.id)
      else ok (record s { omitted = s.omitted ++ g.id ∷ []; cut = true })

  unfoldable pub select_group :
      TurnGroup Message → Selection Message → Result PlanError (Selection Message)
  unfolding fits omit_group
  select_group g s =
      let tokens = group_estimated_tokens schema g in
      if s.cut || not (fits ceiling s.used tokens)
      then omit_group g s
      else ok (record s { selected = s.selected ++ g ∷ []; used = add_int s.used tokens })

  -- The groups in the order of the loop: the newest first.
  unfoldable pub select_groups :
      List (TurnGroup Message) → Selection Message → Result PlanError (Selection Message)
  unfolding select_group
  select_groups [] s = ok s
  select_groups (g ∷ gs) s = do next ← select_group g s; select_groups gs next

  unfoldable pub add_optional_artifacts : Draft Message → List ArtifactRef → Draft Message
  unfolding admit include_artifact note_fallback fits artifact_message
  add_optional_artifacts d [] = d
  add_optional_artifacts d (a ∷ rest) =
      let m = artifact_message schema a in
      let skip = add_optional_artifacts d rest in
      let without = add_optional_artifacts (note_fallback d (artifact_omitted a.id)) rest in
      let next = add_optional_artifacts (include_artifact (admit d m (message_tokens m)) a) rest in
      if a.required
      then skip
      else if not (fits ceiling d.used (message_tokens m))
      then without
      else next

module _ {Message : Type 0} (schema : Schema Message) where
  unfoldable pub add_group_messages :
      List (Option Message) → List (TurnGroup Message) → List (Option Message)
  add_group_messages messages [] = messages
  add_group_messages messages (g ∷ gs) =
      add_group_messages (messages ++ prompt_messages schema g) gs

  unfoldable pub add_groups : ℤ → List (TurnGroup Message) → ℤ
  add_groups tokens [] = tokens
  add_groups tokens (g ∷ gs) = add_groups (add_int tokens (group_estimated_tokens schema g)) gs

-- The IDs of groups.
abbrev pub group_ids : {Message : Type 0} → List (TurnGroup Message) → List Text
group_ids gs = map (λ g. g.id) gs

unfoldable pub mandatory : {Message : Type 0} → PlannerInput Message → List (Option Message)
mandatory input =
    (clone_msgs input.immutable_messages ++ clone_msgs input.active_messages)
    ++ clone_msgs input.current_messages

unfoldable pub start_draft : {Message : Type 0} → PlannerInput Message → ℤ → Draft Message
start_draft input tokens = record {
  messages = clone_msgs input.immutable_messages ++ clone_msgs input.active_messages;
  used = tokens;
  included_artifacts = [];
  fallbacks = [];
}

abbrev pub no_selection : {Message : Type 0} → ℤ → Selection Message
no_selection used = record { selected = []; omitted = []; used = used; cut = false }
