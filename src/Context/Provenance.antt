-- ===== src/Context/Provenance.antt =====
-- internal/contextbuild/checkpoint.go: the checks of a checkpoint's provenance and of the whole, alone
-- and against the source that was compacted; compactor.go: the bounded anchors.
use eino_local_assistant.Prelude.{
  ◌-◌, ◌/◌, Bool, true, false, not, ◌&&◌, ◌||◌, Option, none, some, List, [], ◌∷◌, ◌++◌,
  if◌then◌else◌, leb, ◌==◌, length, take, drop, Text, codes, text_eq, trim_space, is_empty, ℤ, pos,
  negsuc, Result, err, ok, ◌>>=◌, ◌>>◌, fail_if,
}
use eino_local_assistant.Context.Refs.{contains, unique_non_empty, is_nil}
use eino_local_assistant.Context.Checkpoints.{
  checkpoint_schema_version, max_checkpoint_evidence_refs, SourceRef, ParentCheckpointRef,
  CheckpointProvenance, Checkpoint, CheckpointError, unsupported_version, task_goal_required,
  event_ids_not_unique, boundaries_required, content_hash_invalid, boundaries_mismatch,
  parent_incomplete, lineage_hash_invalid, lineage_hash_mismatch, expected_invalid,
  expected_mismatch, provenance_mismatch, claim_sources_required, claim_outside_manifest, is_sha256,
  same_strings, source_ref_set,
}
use eino_local_assistant.Context.Claims.{validate_claims}

unfoldable pub checkpoint_evidence_refs : List Text → List Text
checkpoint_evidence_refs event_ids =
    let ids = unique_non_empty event_ids in
    let head = max_checkpoint_evidence_refs / 2 in
    let tail = max_checkpoint_evidence_refs - head in
    if leb (length ids) max_checkpoint_evidence_refs
    then ids
    else take head ids ++ drop (length ids - tail) ids

unfoldable pub canonical_direct_source_event_ids : List Text → Result CheckpointError (List Text)
canonical_direct_source_event_ids event_ids =
    let ids = unique_non_empty event_ids in
    if is_nil ids || not (length ids == length event_ids) then err event_ids_not_unique else ok ids

-- The ends of a list that the code has checked to be not empty.
unfoldable pub first : List Text → Text
first [] = []
first (x ∷ xs) = x

unfoldable pub last : List Text → Text
last [] = []
last (x ∷ []) = x
last (x ∷ y ∷ ys) = last (y ∷ ys)

unfoldable pub parent_valid : Option ParentCheckpointRef → Bool
parent_valid none = true
parent_valid (some p) =
    not (is_empty (trim_space p.id) || not (is_sha256 p.hash) || not (is_sha256 p.lineage_hash))

unfoldable pub same_parent : Option ParentCheckpointRef → Option ParentCheckpointRef → Bool
same_parent none none = true
same_parent none (some q) = false
same_parent (some p) none = false
same_parent (some p) (some q) =
    text_eq p.id q.id && text_eq p.hash q.hash && text_eq p.lineage_hash q.lineage_hash

unfoldable pub same_provenance : CheckpointProvenance → CheckpointProvenance → Bool
unfolding same_parent same_strings
same_provenance a b =
    text_eq a.direct_source.from b.direct_source.from
    && text_eq a.direct_source.to b.direct_source.to
    && text_eq a.direct_source.content_hash b.direct_source.content_hash
    && same_strings a.direct_source.event_ids b.direct_source.event_ids
    && text_eq a.lineage_hash b.lineage_hash
    && same_parent a.parent b.parent

unfoldable pub claim_source_scope : Checkpoint → List Text
claim_source_scope c =
    if is_nil c.direct_source_scope
    then c.provenance.direct_source.event_ids
    else c.direct_source_scope

unfoldable pub with_direct_source_scope : Checkpoint → List Text → Checkpoint
with_direct_source_scope c ids = record c { direct_source_scope = unique_non_empty ids }

unfoldable pub event_ids : List SourceRef → List Text
event_ids [] = []
event_ids (r ∷ rs) = if text_eq r.kind (codes "event") then r.id ∷ event_ids rs else event_ids rs

-- The references of every section, in the order of the sections.
unfoldable pub refs_of : {Item : Type 0} → (Item → List SourceRef) → List Item → List SourceRef
refs_of refs [] = []
refs_of refs (item ∷ rest) = refs item ++ refs_of refs rest

unfoldable pub all_refs : Checkpoint → List SourceRef
unfolding refs_of
all_refs c =
    refs_of (λ item. item.source_refs) c.constraints
    ++ refs_of (λ item. item.source_refs) c.confirmed_facts
    ++ refs_of (λ item. item.source_refs) c.decisions
    ++ refs_of (λ item. item.source_refs) c.attempts_and_results
    ++ refs_of (λ item. item.source_refs) c.files_or_artifacts
    ++ refs_of (λ item. item.source_refs) c.open_questions
    ++ refs_of (λ item. item.source_refs) c.next_actions

unfoldable pub model_visible_direct_event_ids : Checkpoint → List Text
unfolding all_refs event_ids
model_visible_direct_event_ids c =
    unique_non_empty (c.provenance.direct_source.event_ids ++ event_ids (all_refs c))

unfoldable pub is_version : ℤ → Bool
is_version (pos n) = n == checkpoint_schema_version
is_version (negsuc n) = false

-- The first claim ID that the manifest does not have.
unfoldable pub check_manifest : List Text → List Text → Result CheckpointError (Unit {0})
check_manifest manifest [] = ok tt
check_manifest manifest (id ∷ ids) =
    if contains id manifest then check_manifest manifest ids else err (claim_outside_manifest id)

unfoldable pub map_err :
    {A : Type 0}
    → (CheckpointError → CheckpointError)
    → Result CheckpointError A
    → Result CheckpointError A
map_err f (err e) = err (f e)
map_err f (ok a) = ok a

module _ (sha256_hex : Text → Text) where
  unfoldable pub hash_checkpoint_lineage : Option ParentCheckpointRef → Text → Text
  hash_checkpoint_lineage none direct = sha256_hex direct
  hash_checkpoint_lineage (some p) direct =
      sha256_hex
        (p.id ++ codes "\n" ++ p.hash ++ codes "\n" ++ p.lineage_hash ++ codes "\n" ++ direct)

  unfoldable pub validate_provenance : CheckpointProvenance → Result CheckpointError (Unit {0})
  unfolding parent_valid hash_checkpoint_lineage
  validate_provenance p = do
    let source = p.direct_source
    let ids = unique_non_empty source.event_ids
    fail_if (is_nil ids || not (length ids == length source.event_ids)) event_ids_not_unique
    fail_if (is_empty (trim_space source.from) || is_empty (trim_space source.to))
        boundaries_required
    fail_if (not (is_sha256 source.content_hash)) content_hash_invalid
    fail_if (not (text_eq source.from (first ids)) || not (text_eq source.to (last ids)))
        boundaries_mismatch
    fail_if (not (parent_valid p.parent)) parent_incomplete
    fail_if (not (is_sha256 p.lineage_hash)) lineage_hash_invalid
    fail_if (not (text_eq p.lineage_hash (hash_checkpoint_lineage p.parent source.content_hash)))
        lineage_hash_mismatch

  unfoldable pub validate_shape : Checkpoint → Result CheckpointError (Unit {0})
  unfolding validate_provenance
  validate_shape c = do
    fail_if (not (is_version c.schema_version)) (unsupported_version c.schema_version)
    fail_if (is_empty (trim_space c.task_goal)) task_goal_required
    validate_provenance c.provenance
    validate_claims none c.provenance.parent c

  unfoldable pub validate_checkpoint : Checkpoint → Result CheckpointError (Unit {0})
  unfolding validate_shape claim_source_scope
  validate_checkpoint c = do
    validate_shape c
    validate_claims (source_ref_set (claim_source_scope c)) c.provenance.parent c

  -- The provenance that a manifest, a hash and a parent make.
  unfoldable pub make_provenance :
      List Text → Text → Option ParentCheckpointRef → CheckpointProvenance
  make_provenance ids hash parent =
      let anchors = checkpoint_evidence_refs ids in
      record {
        direct_source = record {
          from = first anchors;
          to = last anchors;
          content_hash = hash;
          event_ids = anchors;
        };
        parent = parent;
        lineage_hash = hash_checkpoint_lineage parent hash;
      }

  unfoldable pub checkpoint_provenance_for_source :
      List Text → Text → Option ParentCheckpointRef → Result CheckpointError CheckpointProvenance
  unfolding make_provenance
  checkpoint_provenance_for_source event_ids hash parent = do
    ids ← canonical_direct_source_event_ids event_ids
    fail_if (not (is_sha256 (trim_space hash))) content_hash_invalid
    let made = make_provenance ids (trim_space hash) parent
    validate_provenance made
    ok made

  unfoldable pub validate_for_source_with_claim_scope :
      Checkpoint → CheckpointProvenance → List Text → List Text → Result CheckpointError (Unit {0})
  unfolding checkpoint_provenance_for_source validate_shape
  validate_for_source_with_claim_scope c expected direct claims = do
    validate_shape c
    canonical ← map_err expected_invalid (
        checkpoint_provenance_for_source direct expected.direct_source.content_hash expected.parent)
    fail_if (not (same_provenance expected canonical)) expected_mismatch
    fail_if (not (same_provenance c.provenance expected)) provenance_mismatch
    fail_if (is_nil (unique_non_empty claims)) claim_sources_required
    check_manifest (unique_non_empty direct) (unique_non_empty claims)
    validate_claims (source_ref_set (unique_non_empty claims)) expected.parent c
