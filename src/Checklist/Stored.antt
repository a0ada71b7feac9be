-- ===== src/Checklist/Stored.antt =====
-- A checklist that is restored is well formed, and storing one and restoring it gives it back.
use mathlib.Core.Path.{subst}
use mathlib.Core.List.{append-nil, append_assoc}
use eino_local_assistant.Prelude.{
  ℕ, suc, ltb, ◌≡◌, refl, sym, ap, ◌∙◌, Bool, true, false, not, some, List, [], ◌∷◌, ◌++◌, arith,
  All, All-append, if◌then◌else◌, if-holds, Bool-cases, inl, inr, count_if, Text, text_eq,
  text_eq_iff, trim_space, trim_space_idem, trim_left, is_space, to_lower, lower_rune, is_empty,
  Result, err, ok, fail_if, or_fail, >>=-eq-ok, >>=-eq, fail_if-eq-ok, fail_if_passes, ok_inj,
}
use eino_local_assistant.Checklist.Fields.{one_line, one_line_idem}
use eino_local_assistant.Checklist.Plan.{
  plan_status_pending, plan_status_in_progress, plan_status_completed, PlanItem, PlanRun,
  ChecklistError, empty_step, bad_status, bad_snapshot, bad_state, many_in_progress, no_steps,
  is_in_progress, known_status, no_items, plan_run_active,
}
use eino_local_assistant.Checklist.Snapshot.{
  PlanSnapshot, SnapshotCodec, snapshot_of, encode_plan_snapshot, is_snapshot_version, restore_item,
  restore_items, restore_state, known_state, restore, plan_run_from_snapshot,
}
use eino_local_assistant.Checklist.Validity.{IsClean, IsValid, no_items-append, active-trimmed}

first_item : (item : PlanItem) (rest : List PlanItem) → no_items (item ∷ rest) ≡ false
unfolding no_items
first_item item rest = refl

not-false : (b : Bool) → not b ≡ false → b ≡ true
not-false b h = ground arith

restore_item-IsClean : (i : ℕ) (raw item : PlanItem) → restore_item i raw ≡ ok item → IsClean item
unfolding restore_item
restore_item-IsClean i raw item =
    let s = to_lower (trim_space raw.status) in
    let P : Result ChecklistError PlanItem → Type 0 = λ r. r ≡ ok item → IsClean item in
    if-holds P (is_empty (one_line raw.step)) (err (empty_step i)) _ (λ _ e. absurd (cc))
      (λ v.
        if-holds P (not (known_status s)) (err (bad_status i))
          (ok (record { step = one_line raw.step; status = s })) (λ _ e. absurd (cc))
          (λ k e.
            subst IsClean (ok_inj e)
              (record { one = one_line_idem raw.step; visible = v; known = not-false _ k })))

restore_items-IsClean :
    (i : ℕ) (items raws result : List PlanItem)
    → All IsClean items
    → restore_items i items raws ≡ ok result
    → All IsClean result
unfolding restore_items
restore_items-IsClean i items [] result c h = subst (All IsClean) (ok_inj h) c
restore_items-IsClean i items (raw ∷ rest) result c h =
    let (item, one, h₁) = >>=-eq-ok (restore_item i raw) _ h in
    restore_items-IsClean (suc i) (items ++ item ∷ []) rest result
      (All-append IsClean items (item ∷ []) c (restore_item-IsClean i raw item one, tt)) h₁

restore_items-some :
    (i : ℕ) (items raws result : List PlanItem)
    → no_items (items ++ raws) ≡ false
    → restore_items i items raws ≡ ok result
    → no_items result ≡ false
unfolding restore_items
restore_items-some i items [] result n h =
    subst (λ l. no_items l ≡ false) (append-nil items ∙ ok_inj h) n
restore_items-some i items (raw ∷ rest) result n h =
    let (item, _, h₁) = >>=-eq-ok (restore_item i raw) _ h in
    restore_items-some (suc i) (items ++ item ∷ []) rest result
      (ap no_items (append_assoc items (item ∷ []) rest)
        ∙ no_items-append items (item ∷ rest) (first_item item rest))
      h₁

restore_state_trimmed : (raw : Text) → trim_space (restore_state raw) ≡ restore_state raw
unfolding restore_state
restore_state_trimmed raw =
    if-holds (λ s. trim_space s ≡ s) (is_empty (trim_space raw)) plan_run_active (trim_space raw)
      (λ _. active-trimmed) (λ _. trim_space_idem raw)

pub restore-IsValid : (s : PlanSnapshot) (run : PlanRun) → restore s ≡ ok run → IsValid run
unfolding restore
restore-IsValid s run h =
    let (_, _, h₁) = >>=-eq-ok (fail_if (not (is_snapshot_version s.version)) _) _ h in
    let (_, given, h₂) = >>=-eq-ok (fail_if (no_items s.items) _) _ h₁ in
    let unknown = not (known_state (restore_state s.state)) in
    let (_, state, h₃) = >>=-eq-ok (fail_if unknown _) _ h₂ in
    let (items, loop, h₄) = >>=-eq-ok (restore_items 0 [] s.items) _ h₃ in
    let (_, few, h₅) = >>=-eq-ok (fail_if (ltb 1 (count_if is_in_progress items)) _) _ h₄ in
    let fine = fail_if-eq-ok _ unknown state in
    subst IsValid (ok_inj h₅) (record {
      some_items =
          restore_items-some 0 [] s.items items (fail_if-eq-ok _ (no_items s.items) given) loop;
      items = restore_items-IsClean 0 [] s.items items tt loop;
      one_active = fail_if-eq-ok _ (ltb 1 (count_if is_in_progress items)) few;
      state = not-false _ fine;
      trimmed = trim_space_idem s.explanation;
      trimmed_state = restore_state_trimmed s.state;
    })

fixed_at :
    (s constant : Text)
    → text_eq s constant ≡ true
    → to_lower (trim_space constant) ≡ constant
    → to_lower (trim_space s) ≡ s
fixed_at s constant e h =
    subst (λ t. to_lower (trim_space t) ≡ t) (sym ((text_eq_iff s constant).0 e)) h

-- One of the three statuses is read as itself.
known_status_fixed : (s : Text) → known_status s ≡ true → to_lower (trim_space s) ≡ s
unfolding known_status
known_status_fixed s k = elim (Bool-cases (text_eq s plan_status_pending)) [
  | inl e ↦
      fixed_at s plan_status_pending e
        (unfold to_lower trim_space trim_left is_space lower_rune in refl)
  | inr n ↦ elim (Bool-cases (text_eq s plan_status_in_progress)) [
    | inl e ↦
        fixed_at s plan_status_in_progress e
          (unfold to_lower trim_space trim_left is_space lower_rune in refl)
    | inr m ↦
        fixed_at s plan_status_completed (ground (arith, k, n, m))
          (unfold to_lower trim_space trim_left is_space lower_rune in refl)
  ]
]

restore_item_clean : (i : ℕ) (item : PlanItem) → IsClean item → restore_item i item ≡ ok item
unfolding restore_item
restore_item_clean i item c =
    let status = to_lower (trim_space item.status) in
    let same = known_status_fixed item.status c.known in
    let visible : is_empty (one_line item.step) ≡ false = ap is_empty c.one ∙ c.visible in
    let known : not (known_status status) ≡ false =
      ap (λ s. not (known_status s)) same ∙ ap not c.known in
    let made : Result ChecklistError PlanItem =
      ok (record { step = one_line item.step; status = status }) in
    ap
      (λ b.
        if b
        then err (empty_step i)
        else if not (known_status status)
        then err (bad_status i)
        else made)
      visible
    ∙ ap (λ b. if b then err (bad_status i) else made) known
    ∙ ap (λ s. ok (record { step = s; status = status })) c.one
    ∙ ap (λ s. ok (record { step = item.step; status = s })) same

restore_items_clean :
    (i : ℕ) (items raws : List PlanItem)
    → All IsClean raws
    → restore_items i items raws ≡ ok (items ++ raws)
unfolding restore_items
restore_items_clean i items [] c = ap ok (sym (append-nil items))
restore_items_clean i items (raw ∷ rest) (c, cs) =
    >>=-eq (restore_item i raw) _ (restore_item_clean i raw c) (
      restore_items_clean (suc i) (items ++ raw ∷ []) rest cs
      ∙ ap ok (append_assoc items (raw ∷ []) rest))

known_state-visible : (s : Text) → known_state s ≡ true → is_empty s ≡ false
unfolding known_state text_eq is_empty
known_state-visible [] k = absurd (cc)
known_state-visible (c ∷ cs) k = refl

restore_state_fixed : (s : Text) → known_state s ≡ true → trim_space s ≡ s → restore_state s ≡ s
unfolding restore_state
restore_state_fixed s k t =
    ap (λ v. if is_empty v then plan_run_active else v) t
    ∙ ap (λ b. if b then plan_run_active else s) (known_state-visible s k)

restore-snapshot_of : (run : PlanRun) → IsValid run → restore (snapshot_of run) ≡ ok run
unfolding restore snapshot_of is_snapshot_version
restore-snapshot_of run v =
    let state = restore_state_fixed run.state v.state v.trimmed_state in
    let restored = restore_state run.state in
    let known : not (known_state restored) ≡ false =
      ap (λ s. not (known_state s)) state ∙ ap not v.state in
    let few = ltb 1 (count_if is_in_progress run.items) in
    let same =
      ap (λ e. ok (record { explanation = e; state = restored; items = run.items })) v.trimmed
      ∙ ap (λ s. ok (record { explanation = run.explanation; state = s; items = run.items }))
          state in
    fail_if_passes no_steps (no_items run.items) _ _ v.some_items (
      fail_if_passes (bad_state restored) (not (known_state restored)) _ _ known (
        >>=-eq (restore_items 0 [] run.items) _ (restore_items_clean 0 [] run.items v.items)
          (fail_if_passes many_in_progress few _ _ v.one_active same)))

-- When the codec gives back the snapshot that it encoded, a well-formed checklist is restored as it
-- was stored.
pub plan_run_from_snapshot-encode :
    (codec : SnapshotCodec) (run : PlanRun) (raw : Text)
    → IsValid run
    → encode_plan_snapshot codec run ≡ some raw
    → ((s : PlanSnapshot) (t : Text) → codec.encode s ≡ some t → codec.decode t ≡ some s)
    → plan_run_from_snapshot codec raw ≡ ok run
unfolding encode_plan_snapshot plan_run_from_snapshot
plan_run_from_snapshot-encode codec run raw v e codec_inverse =
    >>=-eq _ _ (ap (λ o. or_fail o bad_snapshot) (codec_inverse (snapshot_of run) raw e))
      (restore-snapshot_of run v)
