-- ===== src/Context/Checkpoints.antt =====
-- internal/contextbuild/checkpoint.go: the structured checkpoint, its provenance, and the checks that
-- tie every claim to a source. `sha256_hex` is crypto/sha256 with encoding/hex.
use eino_local_assistant.Prelude.{
  ℕ, Bool, true, false, not, ◌&&◌, ◌||◌, Option, none, some, List, [], ◌∷◌, ◌++◌, if◌then◌else◌,
  leb, ◌==◌, length, all, Text, codes, text_eq, trim_space, is_empty, ℤ, Result, err, ok, ◌>>◌,
  fail_if,
}
use eino_local_assistant.Context.Refs.{contains, unique_non_empty, valid_confidence, is_nil}

abbrev pub checkpoint_schema_version : ℕ
checkpoint_schema_version = 2

abbrev pub max_checkpoint_evidence_refs : ℕ
max_checkpoint_evidence_refs = 32

pub record SourceRef : Type 0 where
  pub kind : Text
  pub id : Text

pub record DirectSourceRange : Type 0 where
  pub from : Text
  pub to : Text
  pub content_hash : Text
  pub event_ids : List Text

pub record ParentCheckpointRef : Type 0 where
  pub id : Text
  pub hash : Text
  pub lineage_hash : Text

pub record CheckpointProvenance : Type 0 where
  pub direct_source : DirectSourceRange
  pub parent : Option ParentCheckpointRef
  pub lineage_hash : Text

pub record CheckpointItem : Type 0 where
  pub text : Text
  pub source_refs : List SourceRef
  pub confidence : Text

pub record CheckpointDecision : Type 0 where
  pub decision : Text
  pub reason : Text
  pub source_refs : List SourceRef
  pub confidence : Text

pub record CheckpointAttempt : Type 0 where
  pub text : Text
  pub result : Text
  pub source_refs : List SourceRef
  pub confidence : Text

pub record CheckpointFileArtifact : Type 0 where
  pub ref : Text
  pub description : Text
  pub source_refs : List SourceRef
  pub confidence : Text

pub record Checkpoint : Type 0 where
  pub schema_version : ℤ
  pub id : Text
  pub storage_hash : Text
  pub trigger : Text
  pub focus : Text
  pub provenance : CheckpointProvenance
  pub task_goal : Text
  pub constraints : List CheckpointItem
  pub confirmed_facts : List CheckpointItem
  pub decisions : List CheckpointDecision
  pub attempts_and_results : List CheckpointAttempt
  pub files_or_artifacts : List CheckpointFileArtifact
  pub open_questions : List CheckpointItem
  pub next_actions : List CheckpointItem
  pub direct_source_scope : List Text

pub data CheckpointError : Type 0 where
  unsupported_version : ℤ → CheckpointError
  task_goal_required : CheckpointError
  event_ids_not_unique : CheckpointError
  boundaries_required : CheckpointError
  content_hash_invalid : CheckpointError
  boundaries_mismatch : CheckpointError
  parent_incomplete : CheckpointError
  lineage_hash_invalid : CheckpointError
  lineage_hash_mismatch : CheckpointError
  section_required : Text → CheckpointError
  item_text_required : Text → ℕ → CheckpointError
  in_item : Text → ℕ → CheckpointError → CheckpointError
  source_refs_required : CheckpointError
  invalid_confidence : Text → CheckpointError
  ref_id_required : CheckpointError
  duplicate_ref : Text → CheckpointError
  unknown_event : Text → CheckpointError
  unknown_parent : Text → CheckpointError
  invalid_ref_kind : Text → CheckpointError
  expected_invalid : CheckpointError → CheckpointError
  expected_mismatch : CheckpointError
  provenance_mismatch : CheckpointError
  claim_sources_required : CheckpointError
  claim_outside_manifest : Text → CheckpointError

unfoldable pub is_hex : ℕ → Bool
is_hex c = (leb b'0' c && leb c b'9') || (leb b'a' c && leb c b'f') || (leb b'A' c && leb c b'F')

-- The length in bytes is that of the code points wherever all of them are digits.
unfoldable pub is_sha256 : Text → Bool
unfolding is_hex
is_sha256 value = length value == 64 && all is_hex value

unfoldable pub same_strings : List Text → List Text → Bool
same_strings [] [] = true
same_strings [] (y ∷ ys) = false
same_strings (x ∷ xs) [] = false
same_strings (x ∷ xs) (y ∷ ys) = text_eq x y && same_strings xs ys

-- The map of allowed event IDs; a nil map, which allows every ID, is `none`.
unfoldable pub source_ref_set : List Text → Option (List Text)
source_ref_set event_ids = some (unique_non_empty event_ids)

unfoldable pub event_allowed : Option (List Text) → Text → Bool
event_allowed none id = true
event_allowed (some ids) id = contains id ids

unfoldable pub is_parent : Option ParentCheckpointRef → Text → Bool
is_parent none id = false
is_parent (some parent) id = text_eq id parent.id

unfoldable pub check_kind :
    Option (List Text)
    → Option ParentCheckpointRef
    → Text
    → Text
    → Result CheckpointError (Unit {0})
unfolding event_allowed is_parent
check_kind allowed parent kind id =
    if text_eq kind (codes "event")
    then fail_if (not (event_allowed allowed id)) (unknown_event id)
    else if text_eq kind (codes "checkpoint")
    then fail_if (not (is_parent parent id)) (unknown_parent id)
    else err (invalid_ref_kind kind)

unfoldable pub ref_key : SourceRef → Text
ref_key r = trim_space r.kind ++ codes ":" ++ trim_space r.id

unfoldable pub check_refs :
    Option (List Text)
    → Option ParentCheckpointRef
    → List Text
    → List SourceRef
    → Result CheckpointError (Unit {0})
unfolding check_kind ref_key
check_refs allowed parent seen [] = ok tt
check_refs allowed parent seen (r ∷ rest) = do
  fail_if (is_empty (trim_space r.id)) ref_id_required
  fail_if (contains (ref_key r) seen) (duplicate_ref (ref_key r))
  check_kind allowed parent (trim_space r.kind) (trim_space r.id)
  check_refs allowed parent (ref_key r ∷ seen) rest

unfoldable pub validate_references :
    List SourceRef
    → Text
    → Option (List Text)
    → Option ParentCheckpointRef
    → Result CheckpointError (Unit {0})
validate_references refs confidence allowed parent = do
  fail_if (is_nil refs) source_refs_required
  fail_if (not (valid_confidence confidence)) (invalid_confidence confidence)
  check_refs allowed parent [] refs
