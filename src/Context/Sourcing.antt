-- ===== src/Context/Sourcing.antt =====
-- What the checks of a checkpoint establish of its claims.
use eino_local_assistant.Prelude.{
  All-append, ℕ, suc, ◌≡◌, refl, ◌⊎◌, inl, inr, Bool, true, not, Option, List, [], ◌∷◌, arith, All,
  Bool-cases, Text, codes, text_eq, text_eq_iff, trim_space, is_empty, Result, ok, err, fail_if,
  >>=-eq-ok,
}
use eino_local_assistant.Context.Refs.{contains, valid_confidence, is_nil}
use eino_local_assistant.Context.Checkpoints.{
  SourceRef, ParentCheckpointRef, Checkpoint, CheckpointError, event_allowed, is_parent, check_kind,
  ref_key, check_refs, validate_references,
}
use eino_local_assistant.Context.Claims.{
  as_item, check_items, check_section, validate_items, validate_decisions, validate_attempts,
  validate_files, validate_claims,
}
use eino_local_assistant.Context.Provenance.{refs_of, all_refs}

-- The reference names an allowed event or the parent.
abbrev pub IsSourced : Option (List Text) → Option ParentCheckpointRef → SourceRef → Type 0
IsSourced allowed parent r =
    ((trim_space r.kind ≡ codes "event") × (event_allowed allowed (trim_space r.id) ≡ true))
    ⊎ ((trim_space r.kind ≡ codes "checkpoint") × (is_parent parent (trim_space r.id) ≡ true))

module _ (allowed : Option (List Text)) (parent : Option ParentCheckpointRef) where
  check_kind-IsSourced :
      (r : SourceRef) (done : Unit {0})
      → check_kind allowed parent (trim_space r.kind) (trim_space r.id) ≡ ok done
      → IsSourced allowed parent r
  unfolding check_kind
  check_kind-IsSourced r done h = elim (Bool-cases (text_eq (trim_space r.kind) (codes "event"))) [
    | inl e ↦ inl ((text_eq_iff (trim_space r.kind) (codes "event")).0 e, ground arith)
    | inr e ↦ elim (Bool-cases (text_eq (trim_space r.kind) (codes "checkpoint"))) [
      | inl f ↦ inr ((text_eq_iff (trim_space r.kind) (codes "checkpoint")).0 f, ground arith)
      | inr f ↦ absurd (ground arith)
    ]
  ]

  check_refs-IsSourced :
      (seen : List Text) (refs : List SourceRef) (done : Unit {0})
      → check_refs allowed parent seen refs ≡ ok done
      → All (IsSourced allowed parent) refs
  unfolding check_refs
  check_refs-IsSourced seen [] done h = tt
  check_refs-IsSourced seen (r ∷ rest) done h =
      let (_, _, h₁) = >>=-eq-ok (fail_if (is_empty (trim_space r.id)) _) _ h in
      let (_, _, h₂) = >>=-eq-ok (fail_if (contains (ref_key r) seen) _) _ h₁ in
      let (u, k, h₃) =
        >>=-eq-ok (check_kind allowed parent (trim_space r.kind) (trim_space r.id)) _ h₂ in
      (check_kind-IsSourced r u k, check_refs-IsSourced (ref_key r ∷ seen) rest done h₃)

  validate_references-IsSourced :
      (refs : List SourceRef) (confidence : Text) (done : Unit {0})
      → validate_references refs confidence allowed parent ≡ ok done
      → All (IsSourced allowed parent) refs
  unfolding validate_references
  validate_references-IsSourced refs confidence done h =
      let (_, _, h₁) = >>=-eq-ok (fail_if (is_nil refs) _) _ h in
      let (_, _, h₂) = >>=-eq-ok (fail_if (not (valid_confidence confidence)) _) _ h₁ in
      check_refs-IsSourced [] refs done h₂

  as_item-eq-ok :
      (name : Text) (i : ℕ) (r : Result CheckpointError (Unit {0})) (done : Unit {0})
      → as_item name i r ≡ ok done
      → (u : Unit {0}) × (r ≡ ok u)
  unfolding as_item
  as_item-eq-ok name i (ok u) done h = (u, refl)
  as_item-eq-ok name i (err e) done h = absurd (cc)

  module _ {Item : Type 0} (missing : Item → Bool) (refs : Item → List SourceRef)
      (confidence : Item → Text) (name : Text) where
    check_items-IsSourced :
        (i : ℕ) (items : List Item) (done : Unit {0})
        → check_items missing refs confidence allowed parent name i items ≡ ok done
        → All (IsSourced allowed parent) (refs_of refs items)
    unfolding check_items refs_of
    check_items-IsSourced i [] done h = tt
    check_items-IsSourced i (item ∷ rest) done h =
        let step = validate_references (refs item) (confidence item) allowed parent in
        let (_, _, h₁) = >>=-eq-ok (fail_if (missing item) _) _ h in
        let (v, one, h₂) = >>=-eq-ok (as_item name i step) _ h₁ in
        let (u, through) = as_item-eq-ok name i step v one in
        All-append (IsSourced allowed parent) (refs item) (refs_of refs rest)
          (validate_references-IsSourced (refs item) (confidence item) u through)
          (check_items-IsSourced (suc i) rest done h₂)

    check_section-IsSourced :
        (items : List Item) (done : Unit {0})
        → check_section missing refs confidence allowed parent name items ≡ ok done
        → All (IsSourced allowed parent) (refs_of refs items)
    unfolding check_section
    check_section-IsSourced items done h =
        let (_, _, h₁) = >>=-eq-ok (fail_if (is_nil items) _) _ h in
        check_items-IsSourced 0 items done h₁

  pub validate_claims-IsSourced :
      (c : Checkpoint) (done : Unit {0})
      → validate_claims allowed parent c ≡ ok done
      → All (IsSourced allowed parent) (all_refs c)
  unfolding validate_claims validate_items validate_decisions validate_attempts validate_files
      all_refs
  validate_claims-IsSourced c done h =
      let both = All-append (IsSourced allowed parent) in
      let (_, s₁, h₁) =
        >>=-eq-ok (validate_items allowed parent (codes "constraints") c.constraints) _ h in
      let (_, s₂, h₂) =
        >>=-eq-ok (validate_items allowed parent (codes "confirmed_facts") c.confirmed_facts) _
          h₁ in
      let (_, s₃, h₃) = >>=-eq-ok (validate_decisions allowed parent c.decisions) _ h₂ in
      let (_, s₄, h₄) = >>=-eq-ok (validate_attempts allowed parent c.attempts_and_results) _ h₃ in
      let (_, s₅, h₅) = >>=-eq-ok (validate_files allowed parent c.files_or_artifacts) _ h₄ in
      let (_, s₆, s₇) =
        >>=-eq-ok (validate_items allowed parent (codes "open_questions") c.open_questions) _ h₅ in
      both _ _
        (both _ _
          (both _ _
            (both _ _
              (both _ _
                (both _ _ (check_section-IsSourced _ _ _ _ c.constraints _ s₁)
                  (check_section-IsSourced _ _ _ _ c.confirmed_facts _ s₂))
                (check_section-IsSourced _ _ _ _ c.decisions _ s₃))
              (check_section-IsSourced _ _ _ _ c.attempts_and_results _ s₄))
            (check_section-IsSourced _ _ _ _ c.files_or_artifacts _ s₅))
          (check_section-IsSourced _ _ _ _ c.open_questions _ s₆))
        (check_section-IsSourced _ _ _ _ c.next_actions _ s₇)
