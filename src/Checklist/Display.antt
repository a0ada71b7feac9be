-- ===== src/Checklist/Display.antt =====
-- What is shown of a checklist agrees with it.
use eino_local_assistant.Prelude.{
  ℕ, suc, ◌+◌, ◌≤◌, ◌≡◌, refl, sym, ap, ◌∙◌, Bool, true, List, [], ◌∷◌, ◌++◌, map, arith,
  if◌then◌else◌, some, length, length-append, count_if, count_if-le-length, Text, text_eq,
}
use mathlib.Core.List.{append-nil, append_assoc, map-append}
use eino_local_assistant.Checklist.Plan.{
  plan_status_completed, PlanItem, PlanRun, is_in_progress, TaskRunStatus, no_status, step_id,
  show_item, show_items, plan_status,
}
use eino_local_assistant.Checklist.Validity.{IsValid}

abbrev pub is_completed : PlanItem → Bool
is_completed item = text_eq item.status plan_status_completed

module _ (itoa : ℕ → Text) where
  -- What the loop adds to the counts.
  record Counts (raws : List PlanItem) (s t : TaskRunStatus) : Type 0 where
    done : t.done_tasks ≡ s.done_tasks + count_if is_completed raws
    active : length t.active_tasks ≡ length s.active_tasks + count_if is_in_progress raws
    goals : map (λ x. x.goal) t.items ≡ map (λ x. x.goal) s.items ++ map (λ x. x.step) raws
    same_tasks : t.tasks ≡ s.tasks

  show_item-active :
      (i : ℕ) (item : PlanItem) (s : TaskRunStatus)
      → length (show_item itoa i item s).active_tasks
        ≡ length s.active_tasks + (if is_in_progress item then 1 else 0)
  unfolding show_item is_in_progress
  show_item-active i item s = ground (arith, length-append s.active_tasks (step_id itoa i ∷ []))

  show_items-Counts :
      (i : ℕ) (raws : List PlanItem) (s : TaskRunStatus) → Counts raws s (show_items itoa i raws s)
  unfolding show_items show_item is_in_progress
  show_items-Counts i [] s = record {
    done = omega arith;
    active = omega arith;
    goals = sym (append-nil (map (λ x. x.goal) s.items));
    same_tasks = refl;
  }
  show_items-Counts i (item ∷ rest) s =
      let next = show_item itoa i item s in
      let c = show_items-Counts (suc i) rest next in
      record {
        done = c.done ∙ omega arith;
        active = omega (arith, c.active, show_item-active i item s);
        goals =
            c.goals
            ∙ ap (λ l. l ++ map (λ x. x.step) rest) (map-append (λ x. x.goal) s.items (_ ∷ []))
            ∙ append_assoc (map (λ x. x.goal) s.items) (item.step ∷ []) (map (λ x. x.step) rest);
        same_tasks = c.same_tasks;
      }

  -- The status of a well-formed checklist lists its steps in order, counts all of them and the completed
  -- ones, so that no more are done than there are, and names at most one step as active.
  pub plan_status-Valid :
      (run : PlanRun)
      → IsValid run
      → ((plan_status itoa (some run)).tasks ≡ length run.items)
        × ((plan_status itoa (some run)).done_tasks ≡ count_if is_completed run.items)
        × ((plan_status itoa (some run)).done_tasks ≤ (plan_status itoa (some run)).tasks)
        × (length (plan_status itoa (some run)).active_tasks ≤ 1)
        × (map (λ x. x.goal) (plan_status itoa (some run)).items ≡ map (λ x. x.step) run.items)
  unfolding plan_status
  plan_status-Valid run v =
      let start : TaskRunStatus = record no_status {
        available = true;
        state = run.state;
        goal = run.explanation;
        tasks = length run.items;
      } in
      let c = show_items-Counts 0 run.items start in
      let shown : plan_status itoa (some run) ≡ show_items itoa 0 run.items start =
        ap (λ b. if b then no_status else show_items itoa 0 run.items start) v.some_items in
      let tasks = ap (λ s. s.tasks) shown ∙ c.same_tasks in
      let done = ap (λ s. s.done_tasks) shown ∙ c.done in
      let active = ap (λ s. length s.active_tasks) shown ∙ c.active in
      (
        tasks,
        done ∙ omega arith,
        omega (arith, tasks, done, count_if-le-length is_completed run.items),
        ground (arith, active, v.one_active),
        ap (λ s. map (λ x. x.goal) s.items) shown ∙ c.goals,
      )
