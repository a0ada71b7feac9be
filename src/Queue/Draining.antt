-- ===== src/Queue/Draining.antt =====
-- The loop that drains the queue ends, and what it has done then.
use eino_local_assistant.Prelude.{
  ℕ, zero, suc, ◌≡◌, refl, ◌∙◌, ap, sym, inl, inr, ◌<◌, Bool, true, false, if◌then◌else◌, Option,
  none, some, List, [], ◌∷◌, length, All, Text, if-holds, arith,
}
use mathlib.Core.Path.{subst}
use eino_local_assistant.Queue.Slash.{SlashAction, slash_none, slash_unknown, parse_slash}
use eino_local_assistant.Queue.Commands.{Model, is_idle, normalize_queue_pane_selection}
use eino_local_assistant.Queue.Items.{is_local, IsItem, local-cases}
use eino_local_assistant.Queue.Drain.{
  submit_action, submit, start_turn, after_submit, pop, Drained, drained, running, held,
  drain_queued, drain_loop, drain_queue,
}

abbrev pub is_unknown : SlashAction → Bool
is_unknown slash_unknown = true
is_unknown _ = false

-- What is left of a queue without the unknown commands before the first text for the model.
abbrev pub skip_unknown : List Text → List Text
skip_unknown [] = []
skip_unknown (x ∷ xs) = if is_unknown (parse_slash x).0 then skip_unknown xs else x ∷ xs

-- What a drain comes to: the queue, whether it is paused, and what was started or held.
abbrev pub drained_as : (Text → Bool) → List Text → List Text × Bool × Drained
drained_as start [] = ([], false, drained)
drained_as start (x ∷ rest) = if start x then (rest, false, running x) else (x ∷ rest, true, held x)

abbrev pub outcome : Model × Drained → List Text × Bool × Drained
outcome (m, end) = (m.queue, m.queue_paused, end)

-- The interface is idle and its queue is not paused.
abbrev pub IsReady : Model → Type 0
IsReady m = (is_idle m.mode ≡ true) × (m.queue_paused ≡ false) × (m.quitting ≡ false)

normalize_keeps :
    (m : Model)
    → let n = normalize_queue_pane_selection m in
      (n.queue ≡ m.queue)
      × (n.queue_paused ≡ m.queue_paused)
      × (n.mode ≡ m.mode)
      × (n.quitting ≡ m.quitting)
unfolding normalize_queue_pane_selection
normalize_keeps m = ground arith

abbrev pub reached : Option (Model × Drained) → Option (List Text × Bool × Drained)
reached none = none
reached (some r) = some (outcome r)

module _ (start : Text → Bool) (other : SlashAction → Text → Model → Model) where
  -- One round on a text for the model, and one on an unknown command.
  text_round :
      (n : Model) (x : Text) (rest : List Text) (arg : Text)
      (again : Model → Option (Model × Drained))
      → IsReady n
      → n.queue ≡ rest
      → let popped = submit_action start other n x (slash_none, arg) in
        reached (after_submit start other x popped (again popped))
        ≡ some (drained_as start (x ∷ rest))
  unfolding submit_action after_submit start_turn is_idle
  text_round n x rest arg again (idle, unpaused, going) queue = ground arith

  unknown_round :
      (n : Model) (x : Text) (arg : Text) (again : Model → Option (Model × Drained))
      → IsReady n
      → n.failed ≡ false
      → let popped = submit_action start other n x (slash_unknown, arg) in
        reached (after_submit start other x popped (again popped)) ≡ reached (again n)
  unfolding submit_action after_submit
  unknown_round n x arg again (idle, unpaused, going) fine = ground arith

  -- What one round comes to, for the action of the input.
  abbrev RoundsTo :
      (Model → Option (Model × Drained))
      → List Text × Bool × Drained
      → Model
      → List Text
      → Text × Text
      → SlashAction
      → Type 0
  RoundsTo again target n rest (x, arg) action =
      let popped = submit_action start other n x (action, arg) in
      reached (after_submit start other x popped (again popped))
      ≡ some (if is_unknown action then target else drained_as start (x ∷ rest))

  round :
      (n : Model) (rest : List Text) (x arg : Text) (action : SlashAction)
      (again : Model → Option (Model × Drained)) (target : List Text × Bool × Drained)
      → IsReady n
      → n.failed ≡ false
      → n.queue ≡ rest
      → is_local action ≡ true
      → reached (again n) ≡ some target
      → RoundsTo again target n rest (x, arg) action
  round n rest x arg action again target ready fine queue local next =
      elim (local-cases action local) [
        | inl e ↦
            subst (RoundsTo again target n rest (x, arg)) (sym e)
              (text_round n x rest arg again ready queue)
        | inr e ↦
            subst (RoundsTo again target n rest (x, arg)) (sym e)
              (unknown_round n x arg again ready fine ∙ next)
      ]

  skip_step :
      (x : Text) (xs : List Text)
      → (if is_unknown (parse_slash x).0
          then drained_as start (skip_unknown xs)
          else drained_as start (x ∷ xs))
        ≡ drained_as start (skip_unknown (x ∷ xs))
  skip_step x xs =
      if-holds
        (λ (r : List Text).
          (if is_unknown (parse_slash x).0
            then drained_as start (skip_unknown xs)
            else drained_as start (x ∷ xs))
          ≡ drained_as start r)
        (is_unknown (parse_slash x).0) (skip_unknown xs) (x ∷ xs)
        (λ h.
          ap (λ b. if b then drained_as start (skip_unknown xs) else drained_as start (x ∷ xs)) h)
        (λ h.
          ap (λ b. if b then drained_as start (skip_unknown xs) else drained_as start (x ∷ xs)) h)

  pop-IsReady :
      (m : Model) (rest : List Text)
      → IsReady m
      → let n = pop start other m rest in IsReady n × (n.failed ≡ false) × (n.queue ≡ rest)
  unfolding pop
  pop-IsReady m rest (idle, unpaused, going) =
      let k = normalize_keeps (record m { queue = rest }) in
      ((ap is_idle k.2 ∙ idle, k.1 ∙ unpaused, k.3 ∙ going), refl, k.0)

  rounds :
      (xs : List Text) (fuel : ℕ) (m : Model)
      → IsReady m
      → m.queue ≡ xs
      → All IsItem xs
      → length xs < fuel
      → reached (drain_loop start other fuel m) ≡ some (drained_as start (skip_unknown xs))
  unfolding drain_loop drain_queued submit
  rounds xs zero m ready queue items enough = absurd (omega arith)
  rounds [] (suc fuel) m ready queue items enough =
      ap (λ q. reached (drain_queued start other (drain_loop start other fuel) m q)) queue
      ∙ ap some (cc)
  rounds (x ∷ xs) (suc fuel) m ready queue (item, items) enough =
      let p = pop-IsReady m xs ready in
      let n = pop start other m xs in
      ap (λ q. reached (drain_queued start other (drain_loop start other fuel) m q)) queue
      ∙ round n xs x (parse_slash x).1 (parse_slash x).0 (drain_loop start other fuel)
          (drained_as start (skip_unknown xs)) p.0 p.1 p.2 item
          (rounds xs fuel n p.0 p.2 items (omega arith))
      ∙ ap some (skip_step x xs)

  -- On an idle interface that is not quitting, with a queue that is not paused and whose items are all
  -- texts for the model or unknown commands, a drain with more fuel than there are items returns,
  -- however `startTurn` answers: the unknown commands at the head are gone; if nothing else was
  -- queued, the queue is empty; otherwise the first text is running and the rest waits in its order
  -- when its turn began, and the text is at the head of a paused queue when it did not.
  pub drain_queue_ends :
      (fuel : ℕ) (m : Model)
      → IsReady m
      → All IsItem m.queue
      → length m.queue < fuel
      → reached (drain_queue start other fuel m) ≡ some (drained_as start (skip_unknown m.queue))
  unfolding drain_queue
  drain_queue_ends fuel m (idle, unpaused, going) items enough =
      ap (λ b. reached (if b then some (m, drained) else drain_loop start other fuel m)) unpaused
      ∙ rounds m.queue fuel m (idle, unpaused, going) refl items enough
