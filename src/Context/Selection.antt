-- ===== src/Context/Selection.antt =====
-- The newest-first loop of the planner: what it keeps is a run of the newest groups.
use eino_local_assistant.Prelude.{
  ◌≡◌, refl, sym, ap, ◌∙◌, ◌⊎◌, true, false, List, [], ◌∷◌, ◌++◌, arith, All, Bool-cases, inl, inr,
  ℤ, add_int, ok, >>=-eq-ok,
}
use mathlib.Core.List.{append-nil, append_assoc}
use eino_local_assistant.Context.Tokens.{Schema}
use eino_local_assistant.Context.Refs.{TurnGroup, group_estimated_tokens}
use eino_local_assistant.Context.Planner.{
  Selection, fits, omit_group, select_group, select_groups, group_ids,
}

abbrev pub Optional : {Message : Type 0} → TurnGroup Message → Type 0
Optional g = g.required ≡ false

module _ {Message : Type 0} (schema : Schema Message) (ceiling : ℤ) where
  -- The newest of the groups that were left out did not fit.
  abbrev pub Blocked : ℤ → List (TurnGroup Message) → Type 0
  Blocked used [] = Unit
  Blocked used (g ∷ gs) = fits ceiling used (group_estimated_tokens schema g) ≡ false

  -- `s'` keeps `newer` and leaves out `older`.
  pub record Splits (gs : List (TurnGroup Message)) (s s' : Selection Message) : Type 0 where
    pub newer : List (TurnGroup Message)
    pub older : List (TurnGroup Message)
    pub whole : gs ≡ newer ++ older
    pub kept : s'.selected ≡ s.selected ++ newer
    pub left_out : s'.omitted ≡ s.omitted ++ group_ids older
    pub optional : All Optional older
    pub blocked : Blocked s'.used older

  pub omit_group-eq-ok :
      (g : TurnGroup Message) (s s' : Selection Message)
      → omit_group schema ceiling g s ≡ ok s'
      → Optional g
        × (s'.selected ≡ s.selected)
        × (s'.omitted ≡ s.omitted ++ g.id ∷ [])
        × (s'.used ≡ s.used)
        × (s'.cut ≡ true)
  unfolding omit_group
  omit_group-eq-ok g s s' h = ground arith

  pub select_group-cut :
      (g : TurnGroup Message) (s s' : Selection Message)
      → s.cut ≡ true
      → select_group schema ceiling g s ≡ ok s'
      → Optional g
        × (s'.selected ≡ s.selected)
        × (s'.omitted ≡ s.omitted ++ g.id ∷ [])
        × (s'.used ≡ s.used)
        × (s'.cut ≡ true)
  unfolding select_group
  select_group-cut g s s' c h = omit_group-eq-ok g s s' (ground (arith, c))

  -- Before the cut a group is kept when it fits, and ends the run when it does not.
  pub select_group-open :
      (g : TurnGroup Message) (s s' : Selection Message)
      → s.cut ≡ false
      → select_group schema ceiling g s ≡ ok s'
      → ((s'.selected ≡ s.selected ++ g ∷ [])
          × (s'.omitted ≡ s.omitted)
          × (s'.used ≡ add_int s.used (group_estimated_tokens schema g))
          × (fits ceiling s.used (group_estimated_tokens schema g) ≡ true)
          × (s'.cut ≡ false))
        ⊎ (Optional g
            × (s'.selected ≡ s.selected)
            × (s'.omitted ≡ s.omitted ++ g.id ∷ [])
            × (s'.used ≡ s.used)
            × (fits ceiling s.used (group_estimated_tokens schema g) ≡ false)
            × (s'.cut ≡ true))
  unfolding select_group
  select_group-open g s s' c h =
      elim (Bool-cases (fits ceiling s.used (group_estimated_tokens schema g))) [
        | inl f ↦ inl (ground arith)
        | inr f ↦
            let (o, a, b, u, t) = omit_group-eq-ok g s s' (ground (arith, c, f)) in
            inr (o, a, b, u, f, t)
      ]

  select_groups-cut :
      (gs : List (TurnGroup Message)) (s s' : Selection Message)
      → s.cut ≡ true
      → select_groups schema ceiling gs s ≡ ok s'
      → (s'.selected ≡ s.selected)
        × (s'.omitted ≡ s.omitted ++ group_ids gs)
        × (s'.used ≡ s.used)
        × All Optional gs
  unfolding select_groups
  select_groups-cut [] s s' c h =
      (ground arith, ground (arith, append-nil s.omitted), ground arith, tt)
  select_groups-cut (g ∷ gs) s s' c h =
      let (t, first, rest) =
        >>=-eq-ok (select_group schema ceiling g s) (λ t. select_groups schema ceiling gs t) h in
      let (o, a, b, u, k) = select_group-cut g s t c first in
      let (a', b', u', os) = select_groups-cut gs t s' k rest in
      (
        a' ∙ a,
        b' ∙ ap (λ l. l ++ group_ids gs) b ∙ append_assoc s.omitted (g.id ∷ []) (group_ids gs),
        u' ∙ u,
        (o, os),
      )

  -- The whole loop: a run of the newest groups is kept, and only optional groups are left out.
  pub select_groups-Splits :
      (gs : List (TurnGroup Message)) (s s' : Selection Message)
      → s.cut ≡ false
      → select_groups schema ceiling gs s ≡ ok s'
      → Splits gs s s'
  unfolding select_groups
  select_groups-Splits [] s s' c h = record {
    newer = [];
    older = [];
    whole = refl;
    kept = ground (arith, append-nil s.selected);
    left_out = ground (arith, append-nil s.omitted);
    optional = tt;
    blocked = tt;
  }
  select_groups-Splits (g ∷ gs) s s' c h =
      let (t, first, rest) =
        >>=-eq-ok (select_group schema ceiling g s) (λ t. select_groups schema ceiling gs t) h in
      elim (select_group-open g s t c first) [
        | inl (a, b, u, f, k) ↦
            let m = select_groups-Splits gs t s' k rest in
            record {
              newer = g ∷ m.newer;
              older = m.older;
              whole = ap (λ l. g ∷ l) m.whole;
              kept = m.kept ∙ ap (λ l. l ++ m.newer) a ∙ append_assoc s.selected (g ∷ []) m.newer;
              left_out = m.left_out ∙ ap (λ l. l ++ group_ids m.older) b;
              optional = m.optional;
              blocked = m.blocked;
            }
        | inr (o, a, b, u, f, k) ↦
            let (a', b', u', os) = select_groups-cut gs t s' k rest in
            record {
              newer = [];
              older = g ∷ gs;
              whole = refl;
              kept = a' ∙ a ∙ sym (append-nil s.selected);
              left_out =
                  b'
                  ∙ ap (λ l. l ++ group_ids gs) b
                  ∙ append_assoc s.omitted (g.id ∷ []) (group_ids gs);
              optional = (o, os);
              blocked = ap (λ v. fits ceiling v (group_estimated_tokens schema g)) (u' ∙ u) ∙ f;
            }
      ]
