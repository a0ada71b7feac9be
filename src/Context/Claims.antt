-- ===== src/Context/Claims.antt =====
-- internal/contextbuild/checkpoint.go: the checks of a checkpoint's sections, of X
use eino_local_assistant.Prelude.{
  ℕ, suc, Bool, ◌||◌, Option, List, [], ◌∷◌, Text, codes, trim_space, is_empty, Result, err, ok,
  ◌>>◌, fail_if,
}
use eino_local_assistant.Context.Refs.{is_nil}
use eino_local_assistant.Context.Checkpoints.{
  SourceRef, ParentCheckpointRef, CheckpointItem, CheckpointDecision, CheckpointAttempt,
  CheckpointFileArtifact, Checkpoint, CheckpointError, section_required, item_text_required,
  in_item, validate_references,
}

unfoldable pub as_item :
    Text → ℕ → Result CheckpointError (Unit {0}) → Result CheckpointError (Unit {0})
as_item name i (ok _) = ok tt
as_item name i (err e) = err (in_item name i e)

-- The loop that the four section checks share: `missing` is the test of the item's own texts.
module _ {Item : Type 0} (missing : Item → Bool) (refs : Item → List SourceRef)
    (confidence : Item → Text) (allowed : Option (List Text)) (parent : Option ParentCheckpointRef)
    (name : Text) where
  unfoldable pub check_items : ℕ → List Item → Result CheckpointError (Unit {0})
  unfolding as_item
  check_items i [] = ok tt
  check_items i (item ∷ rest) = do
    fail_if (missing item) (item_text_required name i)
    as_item name i (validate_references (refs item) (confidence item) allowed parent)
    check_items (suc i) rest

  unfoldable pub check_section : List Item → Result CheckpointError (Unit {0})
  unfolding check_items
  check_section items = fail_if (is_nil items) (section_required name) >> check_items 0 items

module _ (allowed : Option (List Text)) (parent : Option ParentCheckpointRef) where
  unfoldable pub validate_items : Text → List CheckpointItem → Result CheckpointError (Unit {0})
  validate_items =
      check_section (λ item. is_empty (trim_space item.text)) (λ item. item.source_refs)
        (λ item. item.confidence) allowed parent

  unfoldable pub validate_decisions : List CheckpointDecision → Result CheckpointError (Unit {0})
  validate_decisions =
      check_section
        (λ item. is_empty (trim_space item.decision) || is_empty (trim_space item.reason))
        (λ item. item.source_refs) (λ item. item.confidence) allowed parent (codes "decisions")

  unfoldable pub validate_attempts : List CheckpointAttempt → Result CheckpointError (Unit {0})
  validate_attempts =
      check_section (λ item. is_empty (trim_space item.text) || is_empty (trim_space item.result))
        (λ item. item.source_refs) (λ item. item.confidence) allowed parent
        (codes "attempts_and_results")

  unfoldable pub validate_files : List CheckpointFileArtifact → Result CheckpointError (Unit {0})
  validate_files =
      check_section
        (λ item. is_empty (trim_space item.ref) || is_empty (trim_space item.description))
        (λ item. item.source_refs) (λ item. item.confidence) allowed parent
        (codes "files_or_artifacts")

  unfoldable pub validate_claims : Checkpoint → Result CheckpointError (Unit {0})
  unfolding validate_items validate_decisions validate_attempts validate_files
  validate_claims c = do
    validate_items (codes "constraints") c.constraints
    validate_items (codes "confirmed_facts") c.confirmed_facts
    validate_decisions c.decisions
    validate_attempts c.attempts_and_results
    validate_files c.files_or_artifacts
    validate_items (codes "open_questions") c.open_questions
    validate_items (codes "next_actions") c.next_actions
