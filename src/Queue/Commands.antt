-- ===== src/Queue/Commands.antt =====
-- internal/tui/model.go and queue_pane.go: what the terminal interface does with the queue. `Model` is
-- the part of the interface's state that these functions read and write.
use eino_local_assistant.Prelude.{
  ℕ, ◌-◌, leb, ltb, Bool, true, false, not, List, [], ◌∷◌, if◌then◌else◌, length, Text, codes,
  text_eq, to_lower, Result, err, ok,
}
use eino_local_assistant.Checklist.Fields.{fields}
use eino_local_assistant.Queue.Slash.{
  SlashAction, slash_queue, slash_steer, slash_model, slash_plan, parse_slash, is_queueable_input,
  is_immediately_executable_while_busy,
}
use eino_local_assistant.Queue.FollowUps.{
  enqueue_follow_up, drop_queued_follow_up, edit_queued_follow_up, QueueError, usage, drop_range,
  edit_range, edit_admission, resume_busy, queue_empty, parse_queue_drop_index, parse_queue_edit,
}

pub data Mode : Type 0 where
  mode_idle mode_busy mode_compacting : Mode

-- The selection starts at 0 and is lowered only above 0, so it is never negative. `failed` says that
-- `m.err` is set.
pub record Model : Type 0 where
  pub queue : List Text
  pub queue_paused : Bool
  pub queue_pane_focused : Bool
  pub queue_pane_selected : ℕ
  pub mode : Mode
  pub failed : Bool
  pub quitting : Bool

unfoldable pub is_idle : Mode → Bool
is_idle mode_idle = true
is_idle _ = false

unfoldable pub none_queued : List Text → Bool
none_queued [] = true
none_queued (x ∷ xs) = false

unfoldable pub normalize_queue_pane_selection : Model → Model
unfolding none_queued
normalize_queue_pane_selection m =
    if none_queued m.queue
    then record m { queue_pane_focused = false; queue_pane_selected = 0 }
    else if leb (length m.queue) m.queue_pane_selected
    then record m { queue_pane_selected = length m.queue - 1 }
    else m

unfoldable pub with_queue : Model → List Text → Model
unfolding normalize_queue_pane_selection
with_queue m queue = normalize_queue_pane_selection (record m { queue = queue })

-- An empty queue is not paused.
unfoldable pub unpause_empty : Model → Model
unfolding none_queued
unpause_empty m = if none_queued m.queue then record m { queue_paused = false } else m

-- What is done with the queue by the command `/queue`; `resumed` asks for a drain.
pub data QueueReport : Type 0 where
  shown cleared dropped edited resumed : QueueReport
  refused : QueueError → QueueReport

unfoldable pub queue_clear : Model → Model × QueueReport
queue_clear m = (with_queue (record m { queue_paused = false }) [], cleared)

unfoldable pub queue_drop : Model → Result QueueError ℕ → Model × QueueReport
unfolding with_queue unpause_empty none_queued
queue_drop m (err e) = (m, refused e)
queue_drop m (ok index) =
    if none_queued m.queue
    then (m, refused queue_empty)
    else if ltb (length m.queue) index
    then (m, refused drop_range)
    else (
      normalize_queue_pane_selection
          (unpause_empty (record m { queue = (drop_queued_follow_up m.queue index).0 })),
      dropped,
    )

unfoldable pub queue_edit : Model → Result QueueError (ℕ × Text) → Model × QueueReport
unfolding with_queue none_queued
queue_edit m (err e) = (m, refused e)
queue_edit m (ok (index, new_text)) =
    if none_queued m.queue
    then (m, refused queue_empty)
    else if ltb (length m.queue) index
    then (m, refused edit_range)
    else if not (is_queueable_input new_text)
    then (m, refused edit_admission)
    else (with_queue m (edit_queued_follow_up m.queue index new_text).0, edited)

unfoldable pub queue_resume : Model → Model × QueueReport
unfolding none_queued is_idle
queue_resume m =
    let unpaused = record m { queue_paused = false } in
    if not (is_idle m.mode)
    then (m, refused resume_busy)
    else (unpaused, (if none_queued m.queue then shown else resumed))

unfoldable pub queue_words : Model → Text → List Text → Model × QueueReport
unfolding queue_clear queue_drop queue_edit queue_resume
queue_words m arg [] = (m, shown)
queue_words m arg (word ∷ more) =
    let command = to_lower word in
    if text_eq command (codes "clear")
    then (if none_queued more then queue_clear m else (m, refused usage))
    else if text_eq command (codes "drop")
    then queue_drop m (parse_queue_drop_index (word ∷ more))
    else if text_eq command (codes "resume")
    then (if none_queued more then queue_resume m else (m, refused usage))
    else if text_eq command (codes "edit")
    then queue_edit m (parse_queue_edit arg)
    else (m, refused usage)

unfoldable pub cmd_queue : Model → Text → Model × QueueReport
unfolding queue_words
cmd_queue m arg = queue_words m arg (fields arg)

-- What the code decides before the queue is asked: these actions never reach it.
unfoldable pub refused_while_busy : SlashAction → Bool
refused_while_busy slash_steer = true
refused_while_busy slash_model = true
refused_while_busy slash_plan = true
refused_while_busy _ = false

-- Of the commands that run at once only `/queue` touches the queue.
unfoldable pub is_queue_command : SlashAction → Bool
is_queue_command slash_queue = true
is_queue_command _ = false

unfoldable pub run_now : Model → SlashAction × Text → Model
unfolding is_queue_command cmd_queue
run_now m (action, arg) = if is_queue_command action then (cmd_queue m arg).0 else m

unfoldable pub queue_while_busy : Model → Text → Model
unfolding refused_while_busy run_now with_queue
queue_while_busy m input =
    let next = enqueue_follow_up m.queue input in
    if refused_while_busy (parse_slash input).0
    then m
    else if is_immediately_executable_while_busy input
    then run_now m (parse_slash input)
    else if not (is_queueable_input input)
    then m
    else if not next.1
    then m
    else with_queue m next.0
