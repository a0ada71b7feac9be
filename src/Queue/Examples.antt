-- ===== src/Queue/Examples.antt =====
-- The theorems on follow-ups at concrete inputs.
use eino_local_assistant.Prelude.{
  ◌≡◌, refl, true, false, some, List, [], ◌∷◌, Text, codes, trim_space, trim_left, is_space,
  to_lower, lower_rune, text_eq, lookup, is_empty, arith,
}
use eino_local_assistant.Checklist.Fields.{fields, fields_after}
use eino_local_assistant.Queue.Slash.{
  SlashAction, parse_slash, parse_trimmed, starts_with_slash, first_word, more_than_one,
  after_first,
}
use eino_local_assistant.Queue.Commands.{mode_idle, mode_busy, Model, is_idle}
use eino_local_assistant.Queue.Drain.{running, drain_queue}
use eino_local_assistant.Queue.Items.{IsItem}
use eino_local_assistant.Queue.Draining.{reached, drain_queue_ends}
use eino_local_assistant.Queue.Bounds.{
  IsAdmitted, UserInput, submitted, up_key, send_key, cancel_key, turn_error, react_all,
  react_all-IsAdmitted,
}

abbrev waiting : Model
waiting = record {
  queue = codes "/nope" ∷ codes "go on" ∷ codes "then" ∷ [];
  queue_paused = false;
  queue_pane_focused = false;
  queue_pane_selected = 0;
  mode = mode_idle;
  failed = false;
  quitting = false;
}

abbrev empty_model : Model
empty_model = record waiting { queue = []; mode = mode_busy }

abbrev ignore : SlashAction → Text → Model → Model
ignore action arg m = m

waiting-All : IsItem (codes "/nope") × IsItem (codes "go on") × IsItem (codes "then")
unfolding parse_slash parse_trimmed starts_with_slash first_word more_than_one after_first fields
    fields_after trim_space trim_left is_space to_lower lower_rune text_eq lookup is_empty
waiting-All = (refl, refl, refl)

drain_queue_ends_example :
    reached (drain_queue (λ input. true) ignore 33 waiting)
    ≡ some (codes "then" ∷ [], false, running (codes "go on"))
unfolding parse_slash parse_trimmed starts_with_slash first_word more_than_one after_first fields
    fields_after trim_space trim_left is_space to_lower lower_rune text_eq lookup is_empty is_idle
drain_queue_ends_example =
    drain_queue_ends (λ input. true) ignore 33 waiting (refl, refl, refl)
      (waiting-All.0, (waiting-All.1, (waiting-All.2, tt))) (omega arith)

abbrev busy_session : List UserInput
busy_session =
    submitted (codes "also test it")
    ∷ submitted (codes "/compact")
    ∷ submitted (codes " /nope ")
    ∷ turn_error
    ∷ up_key
    ∷ submitted (codes "/queue edit 1 go on")
    ∷ send_key
    ∷ cancel_key
    ∷ []

empty_model-IsAdmitted : IsAdmitted empty_model
empty_model-IsAdmitted = record { queue = (omega arith, tt); selected = omega arith }

react_all-IsAdmitted_example : IsAdmitted (react_all empty_model busy_session)
react_all-IsAdmitted_example = react_all-IsAdmitted empty_model busy_session empty_model-IsAdmitted
