-- ===== src/Context/Budget.antt =====
-- The stages of the planner keep the size of the prompt below the ceiling.
use eino_local_assistant.Prelude.{
  ℕ, ◌+◌, ◌≤◌, ◌<◌, ◌≡◌, refl, sym, ap, ◌∙◌, inl, inr, true, not, Option, none, some, List, [], ◌∷◌,
  arith, All, if-holds, Bool-cases, ℤ, pos, add_int, add_int_exact, ok, >>=-eq-ok, ok_inj,
}
use mathlib.Core.Path.{subst}
use eino_local_assistant.Context.Tokens.{Schema}
use eino_local_assistant.Context.Refs.{ArtifactRef, TurnGroup, artifact_message}
use eino_local_assistant.Context.Planner.{
  PlanFallback, Draft, Selection, checkpoint_omitted, admit, include_artifact, note_fallback, fits,
  message_tokens, add_checkpoint, add_required_artifacts, select_group, select_groups,
  add_optional_artifacts,
}
use eino_local_assistant.Context.Exact.{message_size, prompt_size, prompt_size-append}
use eino_local_assistant.Context.Charges.{
  modest_size, ModestMessage, ModestArtifact, ModestGroup, fits_exact, message_tokens_exact,
  group_charge, group_estimated_tokens_exact, prompt_messages-le-charge, groups_size,
  groups_size-append,
}
use eino_local_assistant.Context.Selection.{select_group-cut, select_group-open}

-- A price is charged and still stays below the ceiling.
charge_exact :
    (r n t : ℕ) (used tokens : ℤ)
    → used ≡ pos n
    → tokens ≡ pos t
    → n ≤ r
    → r < modest_size
    → t < modest_size
    → fits (pos r) used tokens ≡ true
    → (n + t ≤ r) × (add_int used tokens ≡ pos (n + t))
charge_exact r n t used tokens e k below small modest f =
    let plain = ap (fits (pos r) (pos n)) (sym k) ∙ ap (λ u. fits (pos r) u tokens) (sym e) ∙ f in
    let within = fits_exact r n t below small modest plain in
    (
      within,
      ap (λ u. add_int u tokens) e ∙ ap (add_int (pos n)) k ∙ add_int_exact n t (omega arith),
    )

module _ {Message : Type 0} (schema : Schema Message) (r c : ℕ) (small : r < modest_size) where
  -- The draft with the current messages, of size `c`, is charged `n`, which is under the ceiling `r`.
  pub record Within (d : Draft Message) : Type 0 where
    pub n : ℕ
    pub charged : d.used ≡ pos n
    pub room : prompt_size schema d.messages + c ≤ n
    pub below : n ≤ r

  admit-Within :
      (d : Draft Message) (m : Message)
      → Within d
      → ModestMessage schema m
      → fits (pos r) d.used (message_tokens schema (pos r) m) ≡ true
      → Within (admit d m (message_tokens schema (pos r) m))
  unfolding admit
  admit-Within d m i modest f =
      let t = message_size schema m in
      let price = message_tokens_exact schema m (omega (arith, modest)) in
      let (within, exact) = charge_exact r i.n t d.used _ i.charged price i.below small modest f in
      record {
        n = i.n + t;
        charged = exact;
        room = omega (arith, prompt_size-append schema d.messages (some m ∷ []), i.room);
        below = within;
      }

  pub add_checkpoint-Within :
      (d : Draft Message) (m : Option Message)
      → Within d
      → ((x : Message) → m ≡ some x → ModestMessage schema x)
      → Within (add_checkpoint schema (pos r) d m)
  unfolding add_checkpoint
  add_checkpoint-Within d none i modest = i
  add_checkpoint-Within d (some m) i modest =
      if-holds Within (fits (pos r) d.used (message_tokens schema (pos r) m))
        (admit d m (message_tokens schema (pos r) m)) (note_fallback d checkpoint_omitted)
        (λ f. admit-Within d m i (modest m refl) f)
        (λ f. record { n = i.n; charged = i.charged; room = i.room; below = i.below })

  include-Within : (d : Draft Message) (a : ArtifactRef) → Within d → Within (include_artifact d a)
  unfolding include_artifact
  include-Within d a i = record { n = i.n; charged = i.charged; room = i.room; below = i.below }

  note-Within : (d : Draft Message) (f : PlanFallback) → Within d → Within (note_fallback d f)
  unfolding note_fallback
  note-Within d f i = record { n = i.n; charged = i.charged; room = i.room; below = i.below }

  pub add_required_artifacts-Within :
      (artifacts : List ArtifactRef) (d d' : Draft Message)
      → Within d
      → All (ModestArtifact schema) artifacts
      → add_required_artifacts schema (pos r) d artifacts ≡ ok d'
      → Within d'
  unfolding add_required_artifacts
  add_required_artifacts-Within [] d d' i modest h = subst Within (ok_inj h) i
  add_required_artifacts-Within (a ∷ rest) d d' i (small_one, modest) h =
      let m = artifact_message schema a in
      let t = message_tokens schema (pos r) m in
      elim (Bool-cases a.required) [
        | inr q ↦ add_required_artifacts-Within rest d d' i modest (ground arith)
        | inl q ↦ elim (Bool-cases (fits (pos r) d.used t)) [
          | inr f ↦ absurd (ground arith)
          | inl f ↦
              add_required_artifacts-Within rest (include_artifact (admit d m t) a) d'
                (include-Within (admit d m t) a (admit-Within d m i small_one f)) modest
                (ground arith)
        ]
      ]

  pub add_optional_artifacts-Within :
      (artifacts : List ArtifactRef) (d : Draft Message)
      → Within d
      → All (ModestArtifact schema) artifacts
      → Within (add_optional_artifacts schema (pos r) d artifacts)
  unfolding add_optional_artifacts
  add_optional_artifacts-Within [] d i modest = i
  add_optional_artifacts-Within (a ∷ rest) d i (small_one, modest) =
      let m = artifact_message schema a in
      let t = message_tokens schema (pos r) m in
      if-holds Within a.required _ _ (λ q. add_optional_artifacts-Within rest d i modest)
        (λ q.
          if-holds Within (not (fits (pos r) d.used t)) _ _
            (λ f. add_optional_artifacts-Within rest _ (note-Within d _ i) modest)
            (λ f.
              add_optional_artifacts-Within rest _
                (include-Within (admit d m t) a (admit-Within d m i small_one (ground arith)))
                modest))

  -- The selection over a draft of size `base`.
  pub record Chosen (base : ℕ) (s : Selection Message) : Type 0 where
    pub n : ℕ
    pub charged : s.used ≡ pos n
    pub room : base + groups_size schema s.selected ≤ n
    pub below : n ≤ r

  module _ (base : ℕ) where
    same-Chosen :
        (s s' : Selection Message)
        → s'.used ≡ s.used
        → s'.selected ≡ s.selected
        → Chosen base s
        → Chosen base s'
    same-Chosen s s' u e i = record {
      n = i.n;
      charged = u ∙ i.charged;
      room = omega (arith, i.room, ap (groups_size schema) e);
      below = i.below;
    }

    select_group-Chosen :
        (g : TurnGroup Message) (s s' : Selection Message)
        → Chosen base s
        → ModestGroup schema g
        → select_group schema (pos r) g s ≡ ok s'
        → Chosen base s'
    select_group-Chosen g s s' i modest h = elim (Bool-cases s.cut) [
      | inl k ↦
          let (_, e, _, u, _) = select_group-cut schema (pos r) g s s' k h in same-Chosen s s' u e i
      | inr k ↦ elim (select_group-open schema (pos r) g s s' k h) [
        | inr (_, e, _, u, _, _) ↦ same-Chosen s s' u e i
        | inl (e, _, u, f, _) ↦
            let price = group_estimated_tokens_exact schema g (omega (arith, modest)) in
            let (within, exact) =
              charge_exact r i.n (group_charge schema g) s.used _ i.charged price i.below small
                modest f in
            record {
              n = i.n + group_charge schema g;
              charged = u ∙ exact;
              room = omega (
                arith,
                i.room,
                ap (groups_size schema) e,
                groups_size-append schema s.selected (g ∷ []),
                prompt_messages-le-charge schema g,
              );
              below = within;
            }
      ]
    ]

    pub select_groups-Chosen :
        (gs : List (TurnGroup Message)) (s s' : Selection Message)
        → Chosen base s
        → All (ModestGroup schema) gs
        → select_groups schema (pos r) gs s ≡ ok s'
        → Chosen base s'
    unfolding select_groups
    select_groups-Chosen [] s s' i modest h = subst (Chosen base) (ok_inj h) i
    select_groups-Chosen (g ∷ gs) s s' i (one, modest) h =
        let (t, first, rest) =
          >>=-eq-ok (select_group schema (pos r) g s) (λ t. select_groups schema (pos r) gs t) h in
        select_groups-Chosen gs t s' (select_group-Chosen g s t i one first) modest rest
