-- ===== src/Context/Charges.antt =====
-- What the planner charges for a message, an artifact or a group is at least what it renders.
use eino_local_assistant.Prelude.{
  ℕ, ◌+◌, ◌≤◌, ◌<◌, ◌≡◌, refl, sym, ap, ◌∙◌, true, some, List, [], ◌∷◌, ◌++◌, reverse, arith,
  if◌then◌else◌, ltb, ℤ, pos, negsuc, pos_part, leb_ℤ, max_int, add_int, add_int_exact,
}
use mathlib.Core.List.{reverse-cons}
use eino_local_assistant.Context.Tokens.{Schema, estimate_messages, clone_msgs}
use eino_local_assistant.Context.Refs.{
  ArtifactRef, TurnGroup, artifact_message, artifact_estimated_tokens, add_artifacts,
  group_estimated_tokens, prompt_messages,
}
use eino_local_assistant.Context.Planner.{fits}
use eino_local_assistant.Context.Exact.{
  max_int_size, message_size, prompt_size, prompt_size-append, prompt_size-clone_msgs,
  estimate_messages_exact,
}
use eino_local_assistant.Context.Layout.{artifact_messages, groups_messages}

abbrev pub max_nat : ℕ → ℕ → ℕ
max_nat a b = if ltb a b then b else a

max_int_exact : (z : ℤ) (b : ℕ) → max_int z (pos b) ≡ pos (max_nat (pos_part z) b)
max_int_exact (pos a) b = ground arith
max_int_exact (negsuc a) b = ground arith

-- A size that two of can be added to without wrapping around.
abbrev pub modest_size : ℕ
modest_size = 4_611_686_018_427_387_904

-- An addition that fits under a ceiling.
pub fits_exact :
    (r n t : ℕ)
    → n ≤ r
    → r < modest_size
    → t < modest_size
    → fits (pos r) (pos n) (pos t) ≡ true
    → n + t ≤ r
unfolding fits
fits_exact r n t h k l f =
    let e = add_int_exact n t (omega arith) in
    let g : leb_ℤ (pos (n + t)) (pos r) ≡ true = sym (ap (λ x. leb_ℤ x (pos r)) e) ∙ f in
    ground arith

module _ {Message : Type 0} (schema : Schema Message) where
  abbrev pub artifact_charge : ArtifactRef → ℕ
  artifact_charge a =
      max_nat (pos_part a.token_estimate) (message_size schema (artifact_message schema a))

  abbrev pub artifacts_charge : List ArtifactRef → ℕ
  artifacts_charge [] = 0
  artifacts_charge (a ∷ rest) = artifact_charge a + artifacts_charge rest

  abbrev pub group_charge : TurnGroup Message → ℕ
  group_charge g =
      max_nat (pos_part g.token_estimate)
        (prompt_size schema g.messages + artifacts_charge g.artifacts)

  abbrev pub ModestMessage : Message → Type 0
  ModestMessage m = message_size schema m < modest_size

  abbrev pub ModestArtifact : ArtifactRef → Type 0
  ModestArtifact a = ModestMessage (artifact_message schema a)

  abbrev pub ModestGroup : TurnGroup Message → Type 0
  ModestGroup g = group_charge g < modest_size

  pub message_tokens_exact :
      (m : Message)
      → message_size schema m < max_int_size
      → estimate_messages schema (some m ∷ []) ≡ pos (message_size schema m)
  message_tokens_exact m h =
      estimate_messages_exact schema (some m ∷ []) (omega arith) ∙ ap pos (omega arith)

  artifact_estimated_tokens_exact :
      (a : ArtifactRef)
      → artifact_charge a < max_int_size
      → artifact_estimated_tokens schema a ≡ pos (artifact_charge a)
  unfolding artifact_estimated_tokens
  artifact_estimated_tokens_exact a h =
      let size = message_size schema (artifact_message schema a) in
      let small : size < max_int_size = ground arith in
      ap (max_int a.token_estimate) (message_tokens_exact (artifact_message schema a) small)
      ∙ max_int_exact a.token_estimate size

  add_artifacts_exact :
      (n : ℕ) (artifacts : List ArtifactRef)
      → n + artifacts_charge artifacts < max_int_size
      → add_artifacts schema (pos n) artifacts ≡ pos (n + artifacts_charge artifacts)
  unfolding add_artifacts
  add_artifacts_exact n [] h = ap pos (omega arith)
  add_artifacts_exact n (a ∷ rest) h =
      ap (λ t. add_artifacts schema t rest)
        (ap (add_int (pos n)) (artifact_estimated_tokens_exact a (omega arith))
          ∙ add_int_exact n (artifact_charge a) (omega arith))
      ∙ add_artifacts_exact (n + artifact_charge a) rest (omega arith)
      ∙ ap pos (omega arith)

  pub group_estimated_tokens_exact :
      (g : TurnGroup Message)
      → group_charge g < max_int_size
      → group_estimated_tokens schema g ≡ pos (group_charge g)
  unfolding group_estimated_tokens
  group_estimated_tokens_exact g h =
      let n = prompt_size schema g.messages in
      let small : n + artifacts_charge g.artifacts < max_int_size = ground arith in
      ap (max_int g.token_estimate) (
        ap (λ t. add_artifacts schema t g.artifacts)
          (estimate_messages_exact schema g.messages (omega (arith, small)))
        ∙ add_artifacts_exact n g.artifacts small)
      ∙ max_int_exact g.token_estimate (n + artifacts_charge g.artifacts)

  artifact_messages-le-charge :
      (artifacts : List ArtifactRef)
      → prompt_size schema (artifact_messages schema artifacts) ≤ artifacts_charge artifacts
  artifact_messages-le-charge [] = omega arith
  artifact_messages-le-charge (a ∷ rest) = ground (arith, artifact_messages-le-charge rest)

  pub prompt_messages-le-charge :
      (g : TurnGroup Message) → prompt_size schema (prompt_messages schema g) ≤ group_charge g
  unfolding prompt_messages
  prompt_messages-le-charge g = ground (
    arith,
    prompt_size-append schema (clone_msgs g.messages) (artifact_messages schema g.artifacts),
    prompt_size-clone_msgs schema g.messages,
    artifact_messages-le-charge g.artifacts,
  )

  -- The size of groups does not depend on their order.
  abbrev pub groups_size : List (TurnGroup Message) → ℕ
  groups_size [] = 0
  groups_size (g ∷ gs) = prompt_size schema (prompt_messages schema g) + groups_size gs

  pub groups_size-append :
      (gs hs : List (TurnGroup Message)) → groups_size (gs ++ hs) ≡ groups_size gs + groups_size hs
  groups_size-append [] hs = omega arith
  groups_size-append (g ∷ gs) hs = omega (arith, groups_size-append gs hs)

  pub groups_size-reverse :
      (gs : List (TurnGroup Message)) → groups_size (reverse gs) ≡ groups_size gs
  groups_size-reverse [] = refl
  groups_size-reverse (g ∷ gs) =
      ap groups_size (reverse-cons g gs)
      ∙ groups_size-append (reverse gs) (g ∷ [])
      ∙ omega (arith, groups_size-reverse gs)

  pub prompt_size-groups_messages :
      (gs : List (TurnGroup Message))
      → prompt_size schema (groups_messages schema gs) ≡ groups_size gs
  prompt_size-groups_messages [] = refl
  prompt_size-groups_messages (g ∷ gs) =
      prompt_size-append schema (prompt_messages schema g) (groups_messages schema gs)
      ∙ omega (arith, prompt_size-groups_messages gs)
