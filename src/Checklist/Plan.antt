-- ===== src/Checklist/Plan.antt =====
-- internal/agent/task_controller.go: a checklist, how one is made from the model's input, and what is
-- shown of it. `itoa` prints a number.
use eino_local_assistant.Prelude.{
  ℕ, suc, ◌+◌, ltb, Bool, true, false, ◌||◌, Option, none, some, List, [], ◌∷◌, ◌++◌, if◌then◌else◌,
  length, count_if, Text, codes, text_eq, trim_space, to_lower, is_empty, Result, err, ok, ◌>>=◌,
  ◌>>◌, fail_if,
}
use eino_local_assistant.Checklist.Fields.{one_line}

abbrev pub plan_status_pending : Text
plan_status_pending = codes "pending"

abbrev pub plan_status_in_progress : Text
plan_status_in_progress = codes "in_progress"

abbrev pub plan_status_completed : Text
plan_status_completed = codes "completed"

abbrev pub plan_run_active : Text
plan_run_active = codes "active"

abbrev pub plan_run_interrupted : Text
plan_run_interrupted = codes "interrupted"

pub record PlanItem : Type 0 where
  pub step : Text
  pub status : Text

pub record PlanRun : Type 0 where
  pub explanation : Text
  pub state : Text
  pub items : List PlanItem

-- An item of the input is a step and a status too.
pub record UpdatePlanInput : Type 0 where
  pub explanation : Text
  pub plan : List PlanItem

pub data ChecklistError : Type 0 where
  no_steps : ChecklistError
  empty_step : ℕ → ChecklistError
  bad_status : ℕ → ChecklistError
  many_in_progress : ChecklistError
  bad_snapshot : ChecklistError
  bad_version : ChecklistError
  bad_state : Text → ChecklistError

unfoldable pub is_in_progress : PlanItem → Bool
is_in_progress item = text_eq item.status plan_status_in_progress

unfoldable pub known_status : Text → Bool
known_status s =
    text_eq s plan_status_pending
    || text_eq s plan_status_in_progress
    || text_eq s plan_status_completed

-- The status as it is kept; an empty one is pending.
unfoldable pub read_status : ℕ → Text → Result ChecklistError Text
unfolding known_status
read_status i raw =
    let status = to_lower (trim_space raw) in
    if known_status status
    then ok status
    else if is_empty status
    then ok plan_status_pending
    else err (bad_status i)

unfoldable pub read_item : ℕ → PlanItem → Result ChecklistError PlanItem
unfolding read_status
read_item i raw = do
  fail_if (is_empty (one_line raw.step)) (empty_step i)
  status ← read_status i raw.status
  ok (record { step = one_line raw.step; status = status })

-- The loop: `i` is the index, `items` what has been read.
unfoldable pub read_items :
    ℕ → List PlanItem → List PlanItem → Result ChecklistError (List PlanItem)
unfolding read_item
read_items i items [] = ok items
read_items i items (raw ∷ rest) = do
  item ← read_item i raw
  read_items (suc i) (items ++ item ∷ []) rest

unfoldable pub no_items : List PlanItem → Bool
no_items [] = true
no_items (x ∷ xs) = false

unfoldable pub plan_run_from_input : UpdatePlanInput → Result ChecklistError PlanRun
unfolding read_items no_items is_in_progress
plan_run_from_input input = do
  fail_if (no_items input.plan) no_steps
  items ← read_items 0 [] input.plan
  fail_if (ltb 1 (count_if is_in_progress items)) many_in_progress
  ok (record { explanation = trim_space input.explanation; state = plan_run_active; items = items })

pub record TaskListItem : Type 0 where
  pub id : Text
  pub goal : Text
  pub state : Text

pub record TaskRunStatus : Type 0 where
  pub available : Bool
  pub state : Text
  pub goal : Text
  pub tasks : ℕ
  pub done_tasks : ℕ
  pub active_tasks : List Text
  pub items : List TaskListItem

abbrev pub no_status : TaskRunStatus
no_status = record {
  available = false;
  state = [];
  goal = [];
  tasks = 0;
  done_tasks = 0;
  active_tasks = [];
  items = [];
}

unfoldable pub map_plan_status_to_display : Text → Text
map_plan_status_to_display status =
    if text_eq status plan_status_completed
    then codes "done"
    else if text_eq status plan_status_in_progress
    then codes "working"
    else codes "pending"

module _ (itoa : ℕ → Text) where
  abbrev pub step_id : ℕ → Text
  step_id i = codes "step-" ++ itoa (i + 1)

  unfoldable pub show_item : ℕ → PlanItem → TaskRunStatus → TaskRunStatus
  unfolding map_plan_status_to_display
  show_item i item s = record s {
    done_tasks = s.done_tasks + (if text_eq item.status plan_status_completed then 1 else 0);
    active_tasks =
        if text_eq item.status plan_status_in_progress
        then s.active_tasks ++ step_id i ∷ []
        else s.active_tasks;
    items =
        s.items
        ++ record {
          id = step_id i;
          goal = item.step;
          state = map_plan_status_to_display item.status;
        }
          ∷ [];
  }

  unfoldable pub show_items : ℕ → List PlanItem → TaskRunStatus → TaskRunStatus
  unfolding show_item
  show_items i [] s = s
  show_items i (item ∷ rest) s = show_items (suc i) rest (show_item i item s)

  unfoldable pub plan_status : Option PlanRun → TaskRunStatus
  unfolding show_items no_items
  plan_status none = no_status
  plan_status (some run) =
      if no_items run.items
      then no_status
      else show_items 0 run.items (record no_status {
        available = true;
        state = run.state;
        goal = run.explanation;
        tasks = length run.items;
      })

unfoldable pub packet_lines : List PlanItem → Text
packet_lines [] = []
packet_lines (item ∷ rest) =
    codes "- [" ++ item.status ++ codes "] " ++ item.step ++ codes "\n" ++ packet_lines rest

-- The text of a run for the model.
unfoldable pub run_packet : Option PlanRun → Text
unfolding packet_lines no_items
run_packet none = []
run_packet (some run) =
    if no_items run.items
    then []
    else codes "# Current plan (checklist)\n\n"
      ++ codes
          "Progress checklist only. It does not gate delivery; keep permissions and sandbox in mind while editing.\n"
      ++ (if is_empty run.explanation then [] else codes "Note: " ++ run.explanation ++ codes "\n")
      ++ (if text_eq run.state plan_run_interrupted
          then codes
              "Prior work was interrupted; refresh the checklist with update_plan if scope changed.\n"
          else [])
      ++ codes "Steps:\n"
      ++ packet_lines run.items
