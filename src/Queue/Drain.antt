-- ===== src/Queue/Drain.antt =====
-- internal/tui/queue_pane.go and model.go: the keys of the queue pane, the end of a turn, and the loop
-- that submits what was queued. `start` says whether `startTurn` gets a turn going for a text, and
-- `other` is `submit` of the commands that are not queued.
use eino_local_assistant.Prelude.{
  ℕ, zero, suc, ◌+◌, ◌-◌, ltb, Bool, true, false, not, Option, none, some, List, [], ◌∷◌,
  if◌then◌else◌, length, Text,
}
use eino_local_assistant.Queue.Slash.{SlashAction, slash_none, slash_unknown, parse_slash}
use eino_local_assistant.Queue.FollowUps.{drop_queued_follow_up, promote_queued_follow_up}
use eino_local_assistant.Queue.Commands.{
  Mode, mode_busy, mode_compacting, Model, is_idle, none_queued, normalize_queue_pane_selection,
  unpause_empty,
}

unfoldable pub open_queue_pane : Model → Model
unfolding normalize_queue_pane_selection none_queued
open_queue_pane m =
    if none_queued m.queue
    then m
    else normalize_queue_pane_selection (record m { queue_pane_focused = true })

unfoldable pub close_queue_pane : Model → Model
unfolding normalize_queue_pane_selection
close_queue_pane m = normalize_queue_pane_selection (record m { queue_pane_focused = false })

unfoldable pub select_up : Model → Model
select_up m =
    if ltb 0 m.queue_pane_selected
    then record m { queue_pane_selected = m.queue_pane_selected - 1 }
    else m

-- On an empty queue the limit is -1, and nothing is below it.
unfoldable pub select_down : Model → Model
select_down m =
    if ltb (m.queue_pane_selected + 1) (length m.queue)
    then record m { queue_pane_selected = m.queue_pane_selected + 1 }
    else m

unfoldable pub cancel_selected_queued_follow_up : Model → Model
unfolding normalize_queue_pane_selection unpause_empty none_queued
cancel_selected_queued_follow_up m =
    let n = normalize_queue_pane_selection m in
    if none_queued n.queue
    then n
    else normalize_queue_pane_selection (
        unpause_empty
          (record n { queue = (drop_queued_follow_up n.queue (n.queue_pane_selected + 1)).0 }))

-- The model, and whether the queue is drained at once: it is when nothing runs.
unfoldable pub promote_selected : Model → Model × Bool
unfolding close_queue_pane is_idle
promote_selected n =
    let promoted = (promote_queued_follow_up n.queue (n.queue_pane_selected + 1)).0 in
    let m = close_queue_pane (record n { queue = promoted; queue_paused = false }) in
    (m, is_idle m.mode)

unfoldable pub is_compacting : Mode → Bool
is_compacting mode_compacting = true
is_compacting _ = false

unfoldable pub send_selected_queued_follow_up : Model → Model × Bool
unfolding normalize_queue_pane_selection none_queued is_compacting promote_selected
send_selected_queued_follow_up m =
    let n = normalize_queue_pane_selection m in
    if none_queued n.queue
    then (n, false)
    else if is_compacting n.mode
    then (n, false)
    else promote_selected n

-- A turn that ended with an error other than a cancellation pauses the queue, if there is one.
unfoldable pub pause_after_error : Model → Model
unfolding none_queued
pause_after_error m = if none_queued m.queue then m else record m { queue_paused = true }

pub data Drained : Type 0 where
  -- Nothing is left, or the queue is paused.
  drained : Drained
  -- This input started an operation.
  running : Text → Drained
  -- This input could not be started and is at the head again.
  held : Text → Drained
  quit : Drained

module _ (start : Text → Bool) (other : SlashAction → Text → Model → Model) where
  unfoldable pub start_turn : Model → Text → Model
  start_turn m input =
      if start input
      then record m { mode = mode_busy; failed = false }
      else record m { failed = true }

  -- An unknown command is reported and nothing else.
  unfoldable pub submit_action : Model → Text → SlashAction × Text → Model
  unfolding start_turn
  submit_action m input (slash_none, arg) = start_turn m input
  submit_action m input (slash_unknown, arg) = m
  submit_action m input (action, arg) = other action arg m

  unfoldable pub submit : Model → Text → Model
  unfolding submit_action
  submit m input = submit_action m input (parse_slash input)

  -- What follows the submission of `next`; `again` is the rest of the loop.
  unfoldable pub after_submit : Text → Model → Option (Model × Drained) → Option (Model × Drained)
  unfolding is_idle
  after_submit next m again =
      if not (is_idle m.mode)
      then some (m, running next)
      else if m.failed
      then some (record m { queue = next ∷ m.queue; queue_paused = true }, held next)
      else if m.quitting
      then some (m, quit)
      else again

  unfoldable pub pop : Model → List Text → Model
  unfolding normalize_queue_pane_selection
  pop m rest = record (normalize_queue_pane_selection (record m { queue = rest })) {
    failed = false;
  }

  -- One round with the items of the queue; `again` is the rest of the loop.
  unfoldable pub drain_queued :
      (Model → Option (Model × Drained)) → Model → List Text → Option (Model × Drained)
  unfolding after_submit submit pop
  drain_queued again m [] = some (m, drained)
  drain_queued again m (next ∷ rest) =
      let popped = submit (pop m rest) next in after_submit next popped (again popped)

  unfoldable pub drain_loop : ℕ → Model → Option (Model × Drained)
  unfolding drain_queued
  drain_loop zero m = none
  drain_loop (suc fuel) m = drain_queued (drain_loop fuel) m m.queue

  unfoldable pub drain_queue : ℕ → Model → Option (Model × Drained)
  unfolding drain_loop
  drain_queue fuel m = if m.queue_paused then some (m, drained) else drain_loop fuel m
