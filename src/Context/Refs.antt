-- ===== src/Context/Refs.antt =====
-- internal/contextbuild/types.go: artifact references and turn groups, with their checks and sizes.
use eino_local_assistant.Prelude.{
  ℕ, suc, Bool, true, false, not, ◌&&◌, ◌||◌, Option, none, some, List, [], ◌∷◌, ◌++◌, map,
  if◌then◌else◌, Text, codes, text_eq, trim_space, is_empty, ℤ, pos, ltb_ℤ, max_int, add_int,
  Result, err, ok, ◌>>◌, fail_if,
}
use eino_local_assistant.Context.Tokens.{Schema, estimate_messages, clone_msgs}

unfoldable pub contains : Text → List Text → Bool
contains id [] = false
contains id (j ∷ ids) = text_eq j id || contains id ids

-- `seen` holds the values that were kept before.
unfoldable pub unique_after : List Text → List Text → List Text
unfolding contains
unique_after seen [] = []
unique_after seen (raw ∷ rest) =
    let value = trim_space raw in
    let skipped = unique_after seen rest in
    let kept = unique_after (value ∷ seen) rest in
    if is_empty value then skipped else if contains value seen then skipped else value ∷ kept

unfoldable pub unique_non_empty : List Text → List Text
unfolding unique_after
unique_non_empty values = unique_after [] values

-- A confidence is a text that a caller or a model wrote.
unfoldable pub valid_confidence : Text → Bool
valid_confidence c =
    text_eq c (codes "observed") || text_eq c (codes "inferred") || text_eq c (codes "unknown")

pub record ArtifactRef : Type 0 where
  pub id : Text
  pub uri : Text
  pub digest : Text
  pub content_hash : Text
  pub source_event_ids : List Text
  pub confidence : Text
  pub token_estimate : ℤ
  pub required : Bool

-- A part of the reference that is left out when it is empty.
unfoldable pub labelled : Text → Text → Text
labelled label value = if is_empty value then [] else label ++ value

unfoldable pub artifact_prompt_text : ArtifactRef → Text
unfolding labelled
artifact_prompt_text a =
    codes "[artifact"
    ++ labelled (codes " id=") a.id
    ++ labelled (codes " uri=") a.uri
    ++ labelled (codes " hash=") a.content_hash
    ++ codes "]"
    ++ labelled (b'\n' ∷ []) a.digest

pub data GroupError : Type 0 where
  artifact_id_required : GroupError
  artifact_negative_estimate : Text → GroupError
  artifact_invalid_confidence : Text → Text → GroupError
  group_id_required : GroupError
  group_negative_estimate : Text → GroupError
  group_empty : Text → GroupError
  group_nil_message : Text → ℕ → GroupError
  group_artifact : Text → GroupError → GroupError
  group_no_source : Text → GroupError

unfoldable pub validate_artifact : ArtifactRef → Result GroupError (Unit {0})
validate_artifact a = do
  fail_if (is_empty (trim_space a.id)) artifact_id_required
  fail_if (ltb_ℤ a.token_estimate (pos 0)) (artifact_negative_estimate a.id)
  fail_if (not (is_empty a.confidence) && not (valid_confidence a.confidence))
      (artifact_invalid_confidence a.id a.confidence)

-- The first error of a list of checks.
unfoldable pub validate_artifacts : List ArtifactRef → Result GroupError (Unit {0})
validate_artifacts [] = ok tt
validate_artifacts (a ∷ rest) = validate_artifact a >> validate_artifacts rest

pub record TurnGroup (Message : Type 0) : Type 0 where
  pub id : Text
  pub start_sequence : ℕ
  pub source_event_ids : List Text
  pub messages : List (Option Message)
  pub artifacts : List ArtifactRef
  pub token_estimate : ℤ
  pub required : Bool
  pub derived_checkpoint : Bool
  pub visible_checkpoint_event_ids : List Text

unfoldable pub is_nil {ℓ} : {A : Type ℓ} → List A → Bool
is_nil [] = true
is_nil (x ∷ xs) = false

unfoldable pub effective_source_event_ids : {Message : Type 0} → TurnGroup Message → List Text
unfolding is_nil
effective_source_event_ids g =
    if not (is_nil g.source_event_ids)
    then unique_non_empty g.source_event_ids
    else if is_empty (trim_space g.id)
    then []
    else g.id ∷ []

unfoldable pub check_messages :
    {Message : Type 0} → Text → ℕ → List (Option Message) → Result GroupError (Unit {0})
check_messages id i [] = ok tt
check_messages id i (none ∷ ms) = err (group_nil_message id i)
check_messages id i (some m ∷ ms) = check_messages id (suc i) ms

unfoldable pub in_group : Text → Result GroupError (Unit {0}) → Result GroupError (Unit {0})
in_group id (ok _) = ok tt
in_group id (err e) = err (group_artifact id e)

unfoldable pub validate_group :
    {Message : Type 0} → TurnGroup Message → Result GroupError (Unit {0})
unfolding is_nil effective_source_event_ids
validate_group g = do
  fail_if (is_empty (trim_space g.id)) group_id_required
  fail_if (ltb_ℤ g.token_estimate (pos 0)) (group_negative_estimate g.id)
  fail_if (is_nil g.messages && is_nil g.artifacts) (group_empty g.id)
  check_messages g.id 0 g.messages
  in_group g.id (validate_artifacts g.artifacts)
  fail_if (is_nil (effective_source_event_ids g)) (group_no_source g.id)

unfoldable pub validate_groups :
    {Message : Type 0} → List (TurnGroup Message) → Result GroupError (Unit {0})
validate_groups [] = ok tt
validate_groups (g ∷ rest) = validate_group g >> validate_groups rest

module _ {Message : Type 0} (schema : Schema Message) where
  unfoldable pub artifact_message : ArtifactRef → Message
  artifact_message a = schema.user_message (artifact_prompt_text a)

  unfoldable pub artifact_estimated_tokens : ArtifactRef → ℤ
  unfolding artifact_message
  artifact_estimated_tokens a =
      max_int a.token_estimate (estimate_messages schema (some (artifact_message a) ∷ []))

  unfoldable pub add_artifacts : ℤ → List ArtifactRef → ℤ
  unfolding artifact_estimated_tokens
  add_artifacts tokens [] = tokens
  add_artifacts tokens (a ∷ rest) =
      add_artifacts (add_int tokens (artifact_estimated_tokens a)) rest

  unfoldable pub group_estimated_tokens : TurnGroup Message → ℤ
  unfolding add_artifacts
  group_estimated_tokens g =
      max_int g.token_estimate (add_artifacts (estimate_messages schema g.messages) g.artifacts)

  unfoldable pub prompt_messages : TurnGroup Message → List (Option Message)
  unfolding artifact_message
  prompt_messages g = clone_msgs g.messages ++ map (λ a. some (artifact_message a)) g.artifacts
