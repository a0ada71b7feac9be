-- ===== src/Queue/Bounds.antt =====
-- The queue under everything that the user can do with it.
use eino_local_assistant.Prelude.{
  ℕ, ◌+◌, ◌-◌, ◌≤◌, ◌≡◌, refl, sym, ap, Bool, false, not, List, [], ◌∷◌, length, Text, codes,
  text_eq, to_lower, leb, ltb, if-holds, arith, Result, err, ok,
}
use mathlib.Core.Path.{subst}
use eino_local_assistant.Checklist.Fields.{fields}
use eino_local_assistant.Queue.Slash.{
  SlashAction, parse_slash, is_queueable_input, is_immediately_executable_while_busy,
}
use eino_local_assistant.Queue.FollowUps.{QueueError, drop_queued_follow_up, enqueue_follow_up}
use eino_local_assistant.Queue.Commands.{
  Model, QueueReport, none_queued, normalize_queue_pane_selection, with_queue, unpause_empty,
  queue_clear, queue_drop, queue_edit, queue_resume, queue_words, cmd_queue, refused_while_busy,
  is_queue_command, run_now, queue_while_busy, is_idle,
}
use eino_local_assistant.Queue.Drain.{
  open_queue_pane, close_queue_pane, select_up, select_down, cancel_selected_queued_follow_up,
  promote_selected, is_compacting, send_selected_queued_follow_up, pause_after_error,
}
use eino_local_assistant.Queue.Items.{queueable-IsItem}
use eino_local_assistant.Queue.Entries.{
  IsQueue, enqueue-IsQueue, drop-IsQueue, promote-IsQueue, edit-IsQueue,
}

-- At most 32 items, none of which needs a command to be carried out, with the selection on one of
-- them, or at 0 when there is none.
pub record IsAdmitted (m : Model) : Type 0 where
  pub queue : IsQueue m.queue
  pub selected : m.queue_pane_selected ≤ length m.queue - 1

normalize-IsAdmitted : (m : Model) → IsQueue m.queue → IsAdmitted (normalize_queue_pane_selection m)
unfolding normalize_queue_pane_selection none_queued
normalize-IsAdmitted m good =
    if-holds IsAdmitted (none_queued m.queue) _ _
      (λ h. record { queue = good; selected = ground arith })
      (λ k.
        if-holds IsAdmitted (leb (length m.queue) m.queue_pane_selected) _ _
          (λ h. record { queue = good; selected = ground arith })
          (λ h. record { queue = good; selected = ground arith }))

unpause_queue : (m : Model) → (unpause_empty m).queue ≡ m.queue
unfolding unpause_empty
unpause_queue m = ground arith

keep :
    (m n : Model)
    → n.queue ≡ m.queue
    → n.queue_pane_selected ≡ m.queue_pane_selected
    → IsAdmitted m
    → IsAdmitted n
keep m n e f good = record {
  queue = subst IsQueue (sym e) good.queue;
  selected = let k = good.selected in let l = ap length e in omega arith;
}

queue_drop-IsAdmitted :
    (m : Model) (parsed : Result QueueError ℕ) → IsAdmitted m → IsAdmitted (queue_drop m parsed).0
unfolding queue_drop
queue_drop-IsAdmitted m (err e) good = good
queue_drop-IsAdmitted m (ok index) good =
    if-holds (λ (r : Model × QueueReport). IsAdmitted r.0) (none_queued m.queue) _ _ (λ _. good)
      (λ _.
        if-holds (λ (r : Model × QueueReport). IsAdmitted r.0) (ltb (length m.queue) index) _ _
          (λ _. good)
          (λ _.
            let n = record m { queue = (drop_queued_follow_up m.queue index).0 } in
            normalize-IsAdmitted (unpause_empty n)
              (subst IsQueue (sym (unpause_queue n)) (drop-IsQueue m.queue index good.queue))))

queue_edit-IsAdmitted :
    (m : Model) (parsed : Result QueueError (ℕ × Text))
    → IsAdmitted m
    → IsAdmitted (queue_edit m parsed).0
unfolding queue_edit with_queue
queue_edit-IsAdmitted m (err e) good = good
queue_edit-IsAdmitted m (ok (index, new_text)) good =
    if-holds (λ (r : Model × QueueReport). IsAdmitted r.0) (none_queued m.queue) _ _ (λ _. good)
      (λ _.
        if-holds (λ (r : Model × QueueReport). IsAdmitted r.0) (ltb (length m.queue) index) _ _
          (λ _. good)
          (λ _.
            if-holds (λ (r : Model × QueueReport). IsAdmitted r.0)
              (not (is_queueable_input new_text)) _ _ (λ _. good)
              (λ h. normalize-IsAdmitted _ (
                edit-IsQueue m.queue index new_text (queueable-IsItem new_text (ground arith))
                  good.queue))))

queue_words-IsAdmitted :
    (m : Model) (arg : Text) (words : List Text)
    → IsAdmitted m
    → IsAdmitted (queue_words m arg words).0
unfolding queue_words queue_clear with_queue queue_resume
queue_words-IsAdmitted m arg [] good = good
queue_words-IsAdmitted m arg (word ∷ more) good =
    let P = λ (r : Model × QueueReport). IsAdmitted r.0 in
    let command = to_lower word in
    if-holds P (text_eq command (codes "clear")) _ _
      (λ _.
        if-holds P (none_queued more) _ _
          (λ _.
            normalize-IsAdmitted (record m { queue = []; queue_paused = false }) (omega arith, tt))
          (λ _. good))
      (λ _.
        if-holds P (text_eq command (codes "drop")) _ _ (λ _. queue_drop-IsAdmitted m _ good)
          (λ _.
            if-holds P (text_eq command (codes "resume")) _ _
              (λ _.
                if-holds P (none_queued more) _ _
                  (λ _.
                    if-holds P (not (is_idle m.mode)) _ _ (λ _. good)
                      (λ _. keep m (record m { queue_paused = false }) refl refl good))
                  (λ _. good))
              (λ _.
                if-holds P (text_eq command (codes "edit")) _ _
                  (λ _. queue_edit-IsAdmitted m _ good) (λ _. good))))

run_now-IsAdmitted :
    (m : Model) (action : SlashAction) (arg : Text)
    → IsAdmitted m
    → IsAdmitted (run_now m (action, arg))
unfolding run_now cmd_queue
run_now-IsAdmitted m action arg good =
    if-holds IsAdmitted (is_queue_command action) _ _
      (λ _. queue_words-IsAdmitted m arg (fields arg) good) (λ _. good)

pub queue_while_busy-IsAdmitted :
    (m : Model) (input : Text) → IsAdmitted m → IsAdmitted (queue_while_busy m input)
unfolding queue_while_busy with_queue
queue_while_busy-IsAdmitted m input good =
    let next = enqueue_follow_up m.queue input in
    if-holds IsAdmitted (refused_while_busy (parse_slash input).0) _ _ (λ _. good)
      (λ _.
        if-holds IsAdmitted (is_immediately_executable_while_busy input) _ _
          (λ _. run_now-IsAdmitted m (parse_slash input).0 (parse_slash input).1 good)
          (λ _.
            if-holds IsAdmitted (not (is_queueable_input input)) _ _ (λ _. good)
              (λ h.
                if-holds IsAdmitted (not next.1) _ _ (λ _. good)
                  (λ _. normalize-IsAdmitted _ (
                    enqueue-IsQueue m.queue input good.queue
                      (queueable-IsItem input (ground arith)))))))

cancel-IsAdmitted : (m : Model) → IsAdmitted m → IsAdmitted (cancel_selected_queued_follow_up m)
unfolding cancel_selected_queued_follow_up
cancel-IsAdmitted m good =
    let n = normalize_queue_pane_selection m in
    let better = normalize-IsAdmitted m good.queue in
    if-holds IsAdmitted (none_queued n.queue) _ _ (λ _. better)
      (λ _.
        let k = record n {
          queue = (drop_queued_follow_up n.queue (n.queue_pane_selected + 1)).0;
        } in
        normalize-IsAdmitted (unpause_empty k) (
          subst IsQueue (sym (unpause_queue k))
            (drop-IsQueue n.queue (n.queue_pane_selected + 1) better.queue)))

send-IsAdmitted : (m : Model) → IsAdmitted m → IsAdmitted (send_selected_queued_follow_up m).0
unfolding send_selected_queued_follow_up promote_selected close_queue_pane
send-IsAdmitted m good =
    let n = normalize_queue_pane_selection m in
    let better = normalize-IsAdmitted m good.queue in
    let P = λ (r : Model × Bool). IsAdmitted r.0 in
    if-holds P (none_queued n.queue) _ _ (λ _. better)
      (λ _.
        if-holds P (is_compacting n.mode) _ _ (λ _. better)
          (λ _.
            normalize-IsAdmitted _
              (promote-IsQueue n.queue (n.queue_pane_selected + 1) better.queue)))

select-IsAdmitted :
    (m : Model) → IsAdmitted m → IsAdmitted (select_up m) × IsAdmitted (select_down m)
unfolding select_up select_down
select-IsAdmitted m good =
    let below = good.selected in
    (
      if-holds IsAdmitted (ltb 0 m.queue_pane_selected) _ _
          (λ h. record { queue = good.queue; selected = omega arith }) (λ h. good),
      if-holds IsAdmitted (ltb (m.queue_pane_selected + 1) (length m.queue)) _ _
          (λ h. record { queue = good.queue; selected = ground arith }) (λ h. good),
    )

-- What the user can do while an operation runs.
pub data UserInput : Type 0 where
  submitted : Text → UserInput
  open_key close_key up_key down_key cancel_key send_key : UserInput
  -- The turn ends with an error.
  turn_error : UserInput

abbrev pub react : Model → UserInput → Model
react m (submitted input) = queue_while_busy m input
react m open_key = open_queue_pane m
react m close_key = close_queue_pane m
react m up_key = select_up m
react m down_key = select_down m
react m cancel_key = cancel_selected_queued_follow_up m
react m send_key = (send_selected_queued_follow_up m).0
react m turn_error = pause_after_error m

abbrev pub react_all : Model → List UserInput → Model
react_all m [] = m
react_all m (i ∷ is) = react_all (react m i) is

react-IsAdmitted : (m : Model) (i : UserInput) → IsAdmitted m → IsAdmitted (react m i)
unfolding open_queue_pane close_queue_pane pause_after_error
react-IsAdmitted m (submitted input) good = queue_while_busy-IsAdmitted m input good
react-IsAdmitted m open_key good =
    if-holds IsAdmitted (none_queued m.queue) _ _ (λ _. good)
      (λ _. normalize-IsAdmitted _ good.queue)
react-IsAdmitted m close_key good = normalize-IsAdmitted _ good.queue
react-IsAdmitted m up_key good = (select-IsAdmitted m good).0
react-IsAdmitted m down_key good = (select-IsAdmitted m good).1
react-IsAdmitted m cancel_key good = cancel-IsAdmitted m good
react-IsAdmitted m send_key good = send-IsAdmitted m good
react-IsAdmitted m turn_error good =
    if-holds IsAdmitted (none_queued m.queue) _ _ (λ _. good) (λ _. keep m _ refl refl good)

-- From a state where this holds, whatever the user submits, selects, moves, edits or removes, the
-- queue has at most 32 items, each of them is a text for the model or an unknown command, and the
-- selection of the pane is an item of the queue, or 0 when it is empty.
pub react_all-IsAdmitted :
    (m : Model) (is : List UserInput) → IsAdmitted m → IsAdmitted (react_all m is)
react_all-IsAdmitted m [] good = good
react_all-IsAdmitted m (i ∷ is) good =
    react_all-IsAdmitted (react m i) is (react-IsAdmitted m i good)
