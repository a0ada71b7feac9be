-- ===== src/Checklist/Controller.antt =====
-- internal/agent/task_controller.go: the controller that keeps a checklist per thread. Its methods hold
-- the mutex; what they take from the context is in `CallContext`.
use eino_local_assistant.Prelude.{
  ℕ, Bool, true, false, not, ◌||◌, Option, none, some, List, [], ◌∷◌, if◌then◌else◌, maybe, Text,
  codes, text_eq, is_empty, Dict, lookup, insert, Result, err, ok,
}
use eino_local_assistant.Checklist.Plan.{
  PlanRun, UpdatePlanInput, ChecklistError, plan_run_from_input, plan_run_active,
  plan_run_interrupted, TaskRunStatus, no_status, plan_status, run_packet,
}
use eino_local_assistant.Checklist.Snapshot.{
  SnapshotCodec, encode_plan_snapshot, plan_run_from_snapshot,
}

pub record TaskController : Type 0 where
  pub runs : Dict PlanRun
  pub loaded : List Text

abbrev pub new_task_controller : TaskController
new_task_controller = record { runs = []; loaded = [] }

-- The thread of the session, if there is one; the error of the context; what chat.LoadTaskStateRecovery
-- gives; and whether chat.PersistTaskState fails.
pub record CallContext : Type 0 where
  pub thread_id : Option Text
  pub ended : Option Text
  pub recovery : Result Text Text
  pub persist : Text → Option Text

pub data TaskError : Type 0 where
  unavailable : TaskError
  context_ended : Text → TaskError
  load_failed : Text → TaskError
  encode_failed : TaskError
  persist_failed : Text → TaskError

unfoldable pub is_loaded : Text → List Text → Bool
is_loaded id [] = false
is_loaded id (j ∷ ids) = text_eq j id || is_loaded id ids

unfoldable pub mark_loaded : TaskController → Text → TaskController
mark_loaded c id = record c { loaded = id ∷ c.loaded }

unfoldable pub put_run : TaskController → Text → PlanRun → TaskController
put_run c id run = record c { runs = insert id run c.runs }

unfoldable pub recover : TaskController → Text → Result ChecklistError PlanRun → TaskController
unfolding mark_loaded put_run
recover c id (err _) = mark_loaded c id
recover c id (ok run) = mark_loaded (put_run c id run) id

unfoldable pub load_snapshot :
    SnapshotCodec → TaskController → Text → Result Text Text → TaskController × Option Text
unfolding recover
load_snapshot codec c id (err e) = (c, some e)
load_snapshot codec c id (ok raw) =
    if is_empty raw
    then (mark_loaded c id, none)
    else (recover c id (plan_run_from_snapshot codec raw), none)

unfoldable pub load_run_locked :
    SnapshotCodec → TaskController → Text → CallContext → TaskController × Option Text
unfolding load_snapshot is_loaded
load_run_locked codec c id ctx =
    if is_loaded id c.loaded then (c, none) else load_snapshot codec c id ctx.recovery

unfoldable pub persist_raw : CallContext → Option Text → Option TaskError
persist_raw ctx none = some encode_failed
persist_raw ctx (some raw) = elim (ctx.persist raw) [
  | none ↦ none
  | some e ↦ some (persist_failed e)
]

unfoldable pub persist_plan_locked : SnapshotCodec → CallContext → PlanRun → Option TaskError
unfolding persist_raw
persist_plan_locked codec ctx run = persist_raw ctx (encode_plan_snapshot codec run)

pub data UpdateResult : Type 0 where
  failed : TaskError → UpdateResult
  rejected : ChecklistError → UpdateResult
  updated : Text → UpdateResult

unfoldable pub update_outcome : PlanRun → Option TaskError → UpdateResult
update_outcome run none = updated run.state
update_outcome run (some e) = failed e

-- With the thread's run loaded.
unfoldable pub replace_plan :
    SnapshotCodec
    → TaskController
    → Text
    → CallContext
    → Result ChecklistError PlanRun
    → TaskController × UpdateResult
unfolding put_run update_outcome persist_plan_locked
replace_plan codec c id ctx (err e) = (c, rejected e)
replace_plan codec c id ctx (ok run) =
    (put_run c id run, update_outcome run (persist_plan_locked codec ctx run))

unfoldable pub update_loaded :
    SnapshotCodec
    → Text
    → CallContext
    → UpdatePlanInput
    → TaskController × Option Text
    → TaskController × UpdateResult
unfolding replace_plan
update_loaded codec id ctx input (c, some e) = (c, failed (load_failed e))
update_loaded codec id ctx input (c, none) = replace_plan codec c id ctx (plan_run_from_input input)

unfoldable pub update_in_thread :
    SnapshotCodec
    → TaskController
    → CallContext
    → UpdatePlanInput
    → Text
    → Option Text
    → TaskController × UpdateResult
unfolding update_loaded load_run_locked
update_in_thread codec c ctx input id (some e) = (c, failed (context_ended e))
update_in_thread codec c ctx input id none =
    update_loaded codec id ctx input (load_run_locked codec c id ctx)

unfoldable pub update_plan :
    SnapshotCodec → TaskController → CallContext → UpdatePlanInput → TaskController × UpdateResult
unfolding update_in_thread
update_plan codec c ctx input =
    maybe ctx.thread_id (c, failed unavailable)
      (λ id. update_in_thread codec c ctx input id ctx.ended)

pub data InterruptReceipt : Type 0 where
  no_runtime : InterruptReceipt
  cannot_recover : Text → InterruptReceipt
  no_active_plan : InterruptReceipt
  interrupted : Option TaskError → InterruptReceipt

-- A missing run is no active run.
unfoldable pub interrupt_run :
    SnapshotCodec
    → TaskController
    → Text
    → CallContext
    → Option PlanRun
    → TaskController × InterruptReceipt
unfolding put_run persist_plan_locked
interrupt_run codec c id ctx none = (c, no_active_plan)
interrupt_run codec c id ctx (some run) =
    if not (text_eq run.state plan_run_active)
    then (c, no_active_plan)
    else (let candidate : PlanRun = record run { state = plan_run_interrupted } in
        (put_run c id candidate, interrupted (persist_plan_locked codec ctx candidate)))

unfoldable pub interrupt_loaded :
    SnapshotCodec
    → Text
    → CallContext
    → TaskController × Option Text
    → TaskController × InterruptReceipt
unfolding interrupt_run
interrupt_loaded codec id ctx (c, some e) = (c, cannot_recover e)
interrupt_loaded codec id ctx (c, none) = interrupt_run codec c id ctx (lookup id c.runs)

unfoldable pub interrupt_task :
    SnapshotCodec → TaskController → CallContext → TaskController × InterruptReceipt
unfolding interrupt_loaded load_run_locked
interrupt_task codec c ctx =
    maybe ctx.thread_id (c, no_runtime)
      (λ id. interrupt_loaded codec id ctx (load_run_locked codec c id ctx))

module _ {A : Type 0} (missing : A) (unreadable : A) (show : Option PlanRun → A) where
  unfoldable pub show_loaded : Text → TaskController × Option Text → TaskController × A
  show_loaded id (c, some e) = (c, unreadable)
  show_loaded id (c, none) = (c, show (lookup id c.runs))

  -- What the two methods that only read share.
  unfoldable pub view : SnapshotCodec → TaskController → CallContext → TaskController × A
  unfolding show_loaded load_run_locked
  view codec c ctx =
      maybe ctx.thread_id (c, missing) (λ id. show_loaded id (load_run_locked codec c id ctx))

unfoldable pub task_execution_status :
    (ℕ → Text) → SnapshotCodec → TaskController → CallContext → TaskController × TaskRunStatus
unfolding view plan_status
task_execution_status itoa =
    view no_status (record no_status { available = true; state = codes "recovery_error" })
      (plan_status itoa)

unfoldable pub execution_packet :
    SnapshotCodec → TaskController → CallContext → TaskController × Text
unfolding view run_packet
execution_packet = view [] [] run_packet
