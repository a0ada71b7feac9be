-- ===== src/Context/Accepted.antt =====
-- A checkpoint that was accepted for a source: its provenance is the one of the source, and every claim
-- cites an event of the manifest or the parent checkpoint.
use eino_local_assistant.Prelude.{
  ◌≡◌, refl, sym, ap, ◌∙◌, ◌⊎◌, inl, inr, true, not, Option, none, some, List, [], ◌∷◌, arith, All,
  Text, codes, text_eq_iff, trim_space, ok, fail_if, >>=-eq-ok, fail_if-eq-ok,
}
use eino_local_assistant.Context.Refs.{contains, unique_non_empty, is_nil}
use eino_local_assistant.Context.Checkpoints.{
  SourceRef, ParentCheckpointRef, CheckpointProvenance, Checkpoint, same_strings, event_allowed,
  is_parent, source_ref_set, expected_invalid,
}
use eino_local_assistant.Context.Provenance.{
  all_refs, same_parent, same_provenance, check_manifest, map_err, checkpoint_provenance_for_source,
  validate_shape, validate_for_source_with_claim_scope,
}
use eino_local_assistant.Context.Sourcing.{IsSourced, validate_claims-IsSourced}
use eino_local_assistant.Context.Unique.{unique_non_empty_idem}

same_strings-eq : (a b : List Text) → same_strings a b ≡ true → a ≡ b
unfolding same_strings
same_strings-eq [] [] h = refl
same_strings-eq [] (y ∷ ys) h = absurd (cc)
same_strings-eq (x ∷ xs) [] h = absurd (cc)
same_strings-eq (x ∷ xs) (y ∷ ys) h = ground (arith, text_eq_iff x y, same_strings-eq xs ys)

same_parent-eq : (p q : Option ParentCheckpointRef) → same_parent p q ≡ true → p ≡ q
unfolding same_parent
same_parent-eq none none h = refl
same_parent-eq none (some q) h = absurd (cc)
same_parent-eq (some p) none h = absurd (cc)
same_parent-eq (some p) (some q) h = ground (
  arith,
  text_eq_iff p.id q.id,
  text_eq_iff p.hash q.hash,
  text_eq_iff p.lineage_hash q.lineage_hash,
)

-- The comparison of provenances is equality.
pub same_provenance-eq : (a b : CheckpointProvenance) → same_provenance a b ≡ true → a ≡ b
unfolding same_provenance
same_provenance-eq a b h = ground (
  arith,
  text_eq_iff a.direct_source.from b.direct_source.from,
  text_eq_iff a.direct_source.to b.direct_source.to,
  text_eq_iff a.direct_source.content_hash b.direct_source.content_hash,
  same_strings-eq a.direct_source.event_ids b.direct_source.event_ids,
  text_eq_iff a.lineage_hash b.lineage_hash,
  same_parent-eq a.parent b.parent,
)

check_manifest-contains :
    (manifest ids : List Text) (done : Unit {0}) (id : Text)
    → check_manifest manifest ids ≡ ok done
    → contains id ids ≡ true
    → contains id manifest ≡ true
unfolding check_manifest contains
check_manifest-contains manifest [] done id h k = absurd (cc)
check_manifest-contains manifest (j ∷ ids) done id h k =
    ground (arith, text_eq_iff j id, check_manifest-contains manifest ids done id)

-- The reference names an event that is in the manifest and among the claim IDs, or the parent.
abbrev pub IsCited : List Text → List Text → Option ParentCheckpointRef → SourceRef → Type 0
IsCited direct claims parent r =
    ((trim_space r.kind ≡ codes "event")
      × (contains (trim_space r.id) (unique_non_empty claims) ≡ true)
      × (contains (trim_space r.id) (unique_non_empty direct) ≡ true))
    ⊎ ((trim_space r.kind ≡ codes "checkpoint") × (is_parent parent (trim_space r.id) ≡ true))

module _ (direct claims : List Text) (parent : Option ParentCheckpointRef) (done : Unit {0})
    (inside : check_manifest (unique_non_empty direct) (unique_non_empty claims) ≡ ok done) where
  IsSourced→IsCited :
      (r : SourceRef)
      → IsSourced (source_ref_set (unique_non_empty claims)) parent r
      → IsCited direct claims parent r
  unfolding source_ref_set event_allowed
  IsSourced→IsCited r (inr s) = inr s
  IsSourced→IsCited r (inl (k, e)) =
      let id = trim_space r.id in
      let claimed = sym (ap (contains id) (unique_non_empty_idem claims)) ∙ e in
      inl (k, claimed, check_manifest-contains _ _ done id inside claimed)

  All-IsCited :
      (refs : List SourceRef)
      → All (IsSourced (source_ref_set (unique_non_empty claims)) parent) refs
      → All (IsCited direct claims parent) refs
  All-IsCited [] h = tt
  All-IsCited (r ∷ rs) (one, rest) = (IsSourced→IsCited r one, All-IsCited rs rest)

-- A checkpoint that is accepted for a source has exactly the expected provenance, and each of its
-- references cites the parent checkpoint or an event that is in the claim scope and in the direct
-- source manifest.
pub validate_for_source-IsCited :
    (sha256_hex : Text → Text) (c : Checkpoint) (expected : CheckpointProvenance)
    (direct claims : List Text)
    → validate_for_source_with_claim_scope sha256_hex c expected direct claims ≡ ok tt
    → (c.provenance ≡ expected) × All (IsCited direct claims expected.parent) (all_refs c)
unfolding validate_for_source_with_claim_scope
validate_for_source-IsCited sha256_hex c expected direct claims h =
    let (_, _, h₁) = >>=-eq-ok (validate_shape sha256_hex c) _ h in
    let canonical =
      checkpoint_provenance_for_source sha256_hex direct expected.direct_source.content_hash
        expected.parent in
    let (made, _, h₂) = >>=-eq-ok (map_err expected_invalid canonical) _ h₁ in
    let (_, _, h₃) = >>=-eq-ok (fail_if (not (same_provenance expected made)) _) _ h₂ in
    let same = same_provenance c.provenance expected in
    let (_, agreed, h₄) = >>=-eq-ok (fail_if (not same) _) _ h₃ in
    let (_, _, h₅) = >>=-eq-ok (fail_if (is_nil (unique_non_empty claims)) _) _ h₄ in
    let (u, inside, cited) =
      >>=-eq-ok (check_manifest (unique_non_empty direct) (unique_non_empty claims)) _ h₅ in
    let holds = fail_if-eq-ok _ (not same) agreed in
    (
      same_provenance-eq c.provenance expected (ground arith),
      All-IsCited direct claims expected.parent u inside (all_refs c) (
          validate_claims-IsSourced (source_ref_set (unique_non_empty claims)) expected.parent c tt
            cited),
    )
