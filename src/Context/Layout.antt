-- ===== src/Context/Layout.antt =====
-- What stands in a plan, and in which order.
use eino_local_assistant.Prelude.{
  ◌≡◌, refl, sym, ◌∙◌, ◌⊎◌, false, not, Option, none, some, List, [], ◌∷◌, ◌++◌, map, arith, All,
  if◌then◌else◌, if-holds, inl, inr, ℤ, ok,
}
use mathlib.Core.List.{append-nil, append_assoc}
use eino_local_assistant.Context.Tokens.{Schema}
use eino_local_assistant.Context.Refs.{ArtifactRef, TurnGroup, artifact_message, prompt_messages}
use eino_local_assistant.Context.Planner.{
  Draft, admit, include_artifact, note_fallback, fits, message_tokens, add_checkpoint,
  add_required_artifacts, add_group_messages, add_optional_artifacts, checkpoint_omitted,
}

-- The artifacts that are marked as required.
abbrev pub required_of : List ArtifactRef → List ArtifactRef
required_of [] = []
required_of (a ∷ rest) = if a.required then a ∷ required_of rest else required_of rest

module _ {Message : Type 0} (schema : Schema Message) where
  abbrev pub artifact_messages : List ArtifactRef → List (Option Message)
  artifact_messages artifacts = map (λ a. some (artifact_message schema a)) artifacts

  abbrev pub groups_messages : List (TurnGroup Message) → List (Option Message)
  groups_messages [] = []
  groups_messages (g ∷ gs) = prompt_messages schema g ++ groups_messages gs

  -- `d'` is `d` with these artifacts behind.
  abbrev pub Extends : Draft Message → Draft Message → List ArtifactRef → Type 0
  Extends d d' artifacts =
      (d'.messages ≡ d.messages ++ artifact_messages artifacts)
      × (d'.included_artifacts ≡ d.included_artifacts ++ artifacts)

  pub add_group_messages-append :
      (gs : List (TurnGroup Message)) (ms : List (Option Message))
      → add_group_messages schema ms gs ≡ ms ++ groups_messages gs
  unfolding add_group_messages
  add_group_messages-append [] ms = sym (append-nil ms)
  add_group_messages-append (g ∷ gs) ms =
      add_group_messages-append gs (ms ++ prompt_messages schema g)
      ∙ append_assoc ms (prompt_messages schema g) (groups_messages gs)

  Extends-cons :
      (d d' : Draft Message) (a : ArtifactRef) (tokens : ℤ) (rest : List ArtifactRef)
      → Extends (include_artifact (admit d (artifact_message schema a) tokens) a) d' rest
      → Extends d d' (a ∷ rest)
  unfolding include_artifact admit
  Extends-cons d d' a tokens rest (m, i) = (
    m ∙ append_assoc d.messages (some (artifact_message schema a) ∷ []) (artifact_messages rest),
    i ∙ append_assoc d.included_artifacts (a ∷ []) rest,
  )

  Extends-nil : (d : Draft Message) → Extends d d []
  Extends-nil d = (sym (append-nil d.messages), sym (append-nil d.included_artifacts))

  module _ (ceiling : ℤ) where
    -- Every required artifact goes in, in the order of the source.
    pub add_required_artifacts-Extends :
        (artifacts : List ArtifactRef) (d d' : Draft Message)
        → add_required_artifacts schema ceiling d artifacts ≡ ok d'
        → Extends d d' (required_of artifacts)
    unfolding add_required_artifacts
    add_required_artifacts-Extends [] d d' h =
        (ground (arith, append-nil d.messages), ground (arith, append-nil d.included_artifacts))
    add_required_artifacts-Extends (a ∷ rest) d d' h =
        let m = artifact_message schema a in
        let next = include_artifact (admit d m (message_tokens schema ceiling m)) a in
        if-holds (Extends d d') a.required (a ∷ required_of rest) (required_of rest)
          (λ r.
            Extends-cons d d' a (message_tokens schema ceiling m) (required_of rest)
              (add_required_artifacts-Extends rest next d' (ground arith)))
          (λ r. add_required_artifacts-Extends rest d d' (ground arith))

    pub add_optional_artifacts-Extends :
        (artifacts : List ArtifactRef) (d : Draft Message)
        → (chosen : List ArtifactRef) × Extends d
            (add_optional_artifacts schema ceiling d artifacts)
            chosen
          × All (λ a. a.required ≡ false) chosen
    unfolding add_optional_artifacts
    add_optional_artifacts-Extends [] d = ([], Extends-nil d, tt)
    add_optional_artifacts-Extends (a ∷ rest) d =
        let m = artifact_message schema a in
        let next = include_artifact (admit d m (message_tokens schema ceiling m)) a in
        let P : Draft Message → Type 0 = λ d'.
          (chosen : List ArtifactRef) × Extends d d' chosen
          × All (λ b. b.required ≡ false) chosen in
        if-holds P a.required _ _ (λ r. add_optional_artifacts-Extends rest d)
          (λ r.
            if-holds P (not (fits ceiling d.used (message_tokens schema ceiling m))) _ _
              (λ f. add_optional_artifacts-Extends rest (note_fallback d _))
              (λ f.
                let (chosen, e, os) = add_optional_artifacts-Extends rest next in
                (
                  a ∷ chosen,
                  Extends-cons d (add_optional_artifacts schema ceiling next rest) a
                      (message_tokens schema ceiling m) chosen e,
                  (r, os),
                )))

  -- The checkpoint's message goes in as a whole or not at all.
  abbrev pub Admits : Option Message → List (Option Message) → Type 0
  Admits m ms = (ms ≡ []) ⊎ ((c : Message) × (m ≡ some c) × (ms ≡ some c ∷ []))

  pub add_checkpoint-Admits :
      (ceiling : ℤ) (d : Draft Message) (m : Option Message)
      → (added : List (Option Message)) × Admits m added
        × ((add_checkpoint schema ceiling d m).messages ≡ d.messages ++ added)
        × ((add_checkpoint schema ceiling d m).included_artifacts ≡ d.included_artifacts)
  unfolding add_checkpoint
  add_checkpoint-Admits ceiling d none = ([], inl refl, sym (append-nil d.messages), refl)
  add_checkpoint-Admits ceiling d (some m) =
      if-holds
        (λ d'.
          (added : List (Option Message)) × Admits (some m) added
          × (d'.messages ≡ d.messages ++ added)
          × (d'.included_artifacts ≡ d.included_artifacts))
        (fits ceiling d.used (message_tokens schema ceiling m))
        (admit d m (message_tokens schema ceiling m)) (note_fallback d checkpoint_omitted)
        (λ f. (some m ∷ [], inr (m, refl, refl), refl, refl))
        (λ f. ([], inl refl, sym (append-nil d.messages), refl))
