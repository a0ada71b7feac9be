-- ===== src/Checklist/Invariant.antt =====
-- Every checklist that the controller keeps is well formed, whatever it is told and whatever it finds
-- in the store.
use mathlib.Core.Path.{subst}
use eino_local_assistant.Prelude.{
  ℕ, ◌≡◌, refl, sym, ap, ◌∙◌, true, not, Option, none, some, List, [], ◌∷◌, if◌then◌else◌, if-holds,
  maybe-holds, Bool-cases, inl, inr, some_inj, Text, codes, text_eq, is_empty, trim_space,
  trim_left, is_space, lookup, lookup-insert, Result, err, ok, or_fail, >>=-eq-ok,
}
use eino_local_assistant.Checklist.Plan.{
  PlanRun, UpdatePlanInput, ChecklistError, no_status, plan_status, bad_snapshot,
  plan_run_from_input, plan_run_active, plan_run_interrupted,
}
use eino_local_assistant.Checklist.Snapshot.{SnapshotCodec, known_state, plan_run_from_snapshot}
use eino_local_assistant.Checklist.Controller.{
  TaskController, new_task_controller, CallContext, InterruptReceipt, is_loaded, mark_loaded,
  put_run, recover, load_snapshot, load_run_locked, replace_plan, update_loaded, update_in_thread,
  update_plan, task_execution_status, UpdateResult, interrupt_run, interrupt_loaded, interrupt_task,
  view, show_loaded,
}
use eino_local_assistant.Checklist.Validity.{IsValid, plan_run_from_input-IsValid}
use eino_local_assistant.Checklist.Stored.{restore-IsValid}

abbrev pub AllValid : TaskController → Type 0
AllValid c = (id : Text) (run : PlanRun) → lookup id c.runs ≡ some run → IsValid run

put_run-AllValid :
    (c : TaskController) (id : Text) (run : PlanRun)
    → AllValid c
    → IsValid run
    → AllValid (put_run c id run)
unfolding put_run
put_run-AllValid c id run all v j found h =
    let e = sym (lookup-insert id j run c.runs) ∙ h in
    elim (Bool-cases (text_eq id j)) [
      | inl t ↦
          subst IsValid (some_inj (sym (ap (λ b. if b then some run else lookup j c.runs) t) ∙ e)) v
      | inr f ↦ all j found (sym (ap (λ b. if b then some run else lookup j c.runs) f) ∙ e)
    ]

interrupted-IsValid :
    (run : PlanRun) → IsValid run → IsValid (record run { state = plan_run_interrupted })
unfolding known_state text_eq trim_space trim_left is_space
interrupted-IsValid run v = record {
  some_items = v.some_items;
  items = v.items;
  one_active = v.one_active;
  state = refl;
  trimmed = v.trimmed;
  trimmed_state = refl;
}

module _ (codec : SnapshotCodec) where
  plan_run_from_snapshot-IsValid :
      (raw : Text) (run : PlanRun) → plan_run_from_snapshot codec raw ≡ ok run → IsValid run
  unfolding plan_run_from_snapshot
  plan_run_from_snapshot-IsValid raw run h =
      let (s, _, h₁) = >>=-eq-ok (or_fail (codec.decode raw) bad_snapshot) _ h in
      restore-IsValid s run h₁

  recover-AllValid :
      (c : TaskController) (id : Text) (r : Result ChecklistError PlanRun)
      → AllValid c
      → ((run : PlanRun) → r ≡ ok run → IsValid run)
      → AllValid (recover c id r)
  unfolding recover mark_loaded
  recover-AllValid c id (err e) all v = all
  recover-AllValid c id (ok run) all v = put_run-AllValid c id run all (v run refl)

  load_snapshot-AllValid :
      (c : TaskController) (id : Text) (r : Result Text Text)
      → AllValid c
      → AllValid (load_snapshot codec c id r).0
  unfolding load_snapshot mark_loaded
  load_snapshot-AllValid c id (err e) all = all
  load_snapshot-AllValid c id (ok raw) all =
      if-holds {A = TaskController × Option Text} (λ x. AllValid x.0) (is_empty raw) _ _ (λ _. all)
        (λ _.
          recover-AllValid c id (plan_run_from_snapshot codec raw) all
            (plan_run_from_snapshot-IsValid raw))

  load_run_locked-AllValid :
      (c : TaskController) (id : Text) (ctx : CallContext)
      → AllValid c
      → AllValid (load_run_locked codec c id ctx).0
  unfolding load_run_locked
  load_run_locked-AllValid c id ctx all =
      if-holds {A = TaskController × Option Text} (λ x. AllValid x.0) (is_loaded id c.loaded) _ _
        (λ _. all) (λ _. load_snapshot-AllValid c id ctx.recovery all)

  replace_plan-AllValid :
      (c : TaskController) (id : Text) (ctx : CallContext) (r : Result ChecklistError PlanRun)
      → AllValid c
      → ((run : PlanRun) → r ≡ ok run → IsValid run)
      → AllValid (replace_plan codec c id ctx r).0
  unfolding replace_plan
  replace_plan-AllValid c id ctx (err e) all v = all
  replace_plan-AllValid c id ctx (ok run) all v = put_run-AllValid c id run all (v run refl)

  update_loaded-AllValid :
      (id : Text) (ctx : CallContext) (input : UpdatePlanInput) (x : TaskController × Option Text)
      → AllValid x.0
      → AllValid (update_loaded codec id ctx input x).0
  unfolding update_loaded
  update_loaded-AllValid id ctx input (c, some e) all = all
  update_loaded-AllValid id ctx input (c, none) all =
      replace_plan-AllValid c id ctx (plan_run_from_input input) all
        (plan_run_from_input-IsValid input)

  interrupt_run-AllValid :
      (c : TaskController) (id : Text) (ctx : CallContext) (o : Option PlanRun)
      → AllValid c
      → ((run : PlanRun) → o ≡ some run → IsValid run)
      → AllValid (interrupt_run codec c id ctx o).0
  unfolding interrupt_run
  interrupt_run-AllValid c id ctx none all v = all
  interrupt_run-AllValid c id ctx (some run) all v =
      if-holds {A = TaskController × InterruptReceipt} (λ x. AllValid x.0)
        (not (text_eq run.state plan_run_active)) _ _ (λ _. all)
        (λ _. put_run-AllValid c id _ all (interrupted-IsValid run (v run refl)))

  interrupt_loaded-AllValid :
      (id : Text) (ctx : CallContext) (x : TaskController × Option Text)
      → AllValid x.0
      → AllValid (interrupt_loaded codec id ctx x).0
  unfolding interrupt_loaded
  interrupt_loaded-AllValid id ctx (c, some e) all = all
  interrupt_loaded-AllValid id ctx (c, none) all =
      interrupt_run-AllValid c id ctx (lookup id c.runs) all (all id)

  show_loaded-AllValid :
      {A : Type 0} (missing unreadable : A) (show : Option PlanRun → A) (id : Text)
      (x : TaskController × Option Text)
      → AllValid x.0
      → AllValid (show_loaded missing unreadable show id x).0
  unfolding show_loaded
  show_loaded-AllValid missing unreadable show id (c, some e) all = all
  show_loaded-AllValid missing unreadable show id (c, none) all = all

  view-AllValid :
      {A : Type 0} (missing unreadable : A) (show : Option PlanRun → A) (c : TaskController)
      (ctx : CallContext)
      → AllValid c
      → AllValid (view missing unreadable show codec c ctx).0
  unfolding view
  view-AllValid {A = A} missing unreadable show c ctx all =
      maybe-holds {B = TaskController × A} (λ x. AllValid x.0) ctx.thread_id _ _ all
        (λ id.
          show_loaded-AllValid missing unreadable show id (load_run_locked codec c id ctx)
            (load_run_locked-AllValid c id ctx all))

-- A call of the controller; `look` is a call of either method that only reads.
pub data Request : Type 0 where
  update : CallContext → UpdatePlanInput → Request
  interrupt : CallContext → Request
  look : CallContext → Request

module _ (codec : SnapshotCodec) (itoa : ℕ → Text) where
  abbrev pub handle : Request → TaskController → TaskController
  handle (update ctx input) c = (update_plan codec c ctx input).0
  handle (interrupt ctx) c = (interrupt_task codec c ctx).0
  handle (look ctx) c = (task_execution_status itoa codec c ctx).0

  abbrev pub handle_all : List Request → TaskController → TaskController
  handle_all [] c = c
  handle_all (q ∷ qs) c = handle_all qs (handle q c)

  update_in_thread-AllValid :
      (c : TaskController) (ctx : CallContext) (input : UpdatePlanInput) (id : Text)
      (ended : Option Text)
      → AllValid c
      → AllValid (update_in_thread codec c ctx input id ended).0
  unfolding update_in_thread
  update_in_thread-AllValid c ctx input id (some e) all = all
  update_in_thread-AllValid c ctx input id none all =
      update_loaded-AllValid codec id ctx input _ (load_run_locked-AllValid codec c id ctx all)

  handle-AllValid : (q : Request) (c : TaskController) → AllValid c → AllValid (handle q c)
  unfolding update_plan interrupt_task task_execution_status
  handle-AllValid (update ctx input) c all =
      maybe-holds {B = TaskController × UpdateResult} (λ x. AllValid x.0) ctx.thread_id _ _ all
        (λ id. update_in_thread-AllValid c ctx input id ctx.ended all)
  handle-AllValid (interrupt ctx) c all =
      maybe-holds {B = TaskController × InterruptReceipt} (λ x. AllValid x.0) ctx.thread_id _ _ all
        (λ id.
          interrupt_loaded-AllValid codec id ctx _ (load_run_locked-AllValid codec c id ctx all))
  handle-AllValid (look ctx) c all =
      view-AllValid codec no_status
        (record no_status { available = true; state = codes "recovery_error" }) (plan_status itoa) c
        ctx all

  calls-AllValid :
      (qs : List Request) (c : TaskController) → AllValid c → AllValid (handle_all qs c)
  calls-AllValid [] c all = all
  calls-AllValid (q ∷ qs) c all = calls-AllValid qs (handle q c) (handle-AllValid q c all)

  -- After any calls, whatever input they got and whatever the store held, every checklist of the
  -- controller has at least one step, no blank step, only the three statuses, and at most one step in
  -- progress.
  pub handle_all-AllValid : (qs : List Request) → AllValid (handle_all qs new_task_controller)
  unfolding lookup
  handle_all-AllValid qs = calls-AllValid qs new_task_controller (λ id run h. absurd (cc))
