-- ===== src/Checklist/Examples.antt =====
-- The theorems on checklists at concrete inputs.
use eino_local_assistant.Prelude.{
  ℕ, ◌+◌, ◌≤◌, ◌≡◌, refl, none, some, [], ◌∷◌, map, length, count_if, Text, codes, ok, text_eq,
  is_empty, trim_space, trim_left, is_space,
}
use eino_local_assistant.Checklist.Fields.{one_line, fields, fields_after, join}
use eino_local_assistant.Checklist.Plan.{
  UpdatePlanInput, known_status, is_in_progress, no_items, plan_status,
}
use eino_local_assistant.Checklist.Snapshot.{
  SnapshotCodec, encode_plan_snapshot, plan_run_from_snapshot, snapshot_of, known_state,
}
use eino_local_assistant.Checklist.Controller.{CallContext, new_task_controller}
use eino_local_assistant.Checklist.Validity.{IsValid}
use eino_local_assistant.Checklist.Stored.{plan_run_from_snapshot-encode}
use eino_local_assistant.Checklist.Invariant.{
  AllValid, update, interrupt, look, handle_all, handle_all-AllValid,
}
use eino_local_assistant.Checklist.Samples.{two_steps, same_snapshot, one_codec, one_codec_inverse}
use eino_local_assistant.Checklist.Display.{is_completed, plan_status-Valid}

two_steps-IsValid : IsValid two_steps
unfolding one_line fields fields_after join known_status is_in_progress no_items known_state text_eq
    is_empty trim_space trim_left is_space
two_steps-IsValid = record {
  some_items = refl;
  items = (
    record { one = refl; visible = refl; known = refl },
    (record { one = refl; visible = refl; known = refl }, tt),
  );
  one_active = refl;
  state = refl;
  trimmed = refl;
  trimmed_state = refl;
}

abbrev digits : ℕ → Text
digits n = (n + 48) ∷ []

abbrev context : CallContext
context = record {
  thread_id = some (codes "th");
  ended = none;
  recovery = ok [];
  persist = λ raw. none;
}

abbrev messy : UpdatePlanInput
messy = record {
  explanation = codes " why ";
  plan =
      record { step = codes " read  this "; status = [] }
      ∷ record { step = codes "write"; status = codes "IN_PROGRESS" }
      ∷ [];
}

-- A codec that stores nothing.
abbrev no_codec : SnapshotCodec
no_codec = record { encode = λ s. none; decode = λ t. none }

handle_all-AllValid_example : AllValid (
    handle_all no_codec digits
      (update context messy ∷ interrupt context ∷ look context ∷ [])
      new_task_controller)
handle_all-AllValid_example =
    handle_all-AllValid no_codec digits
      (update context messy ∷ interrupt context ∷ look context ∷ [])

plan_status-Valid_example :
    ((plan_status digits (some two_steps)).tasks ≡ length two_steps.items)
    × ((plan_status digits (some two_steps)).done_tasks ≡ count_if is_completed two_steps.items)
    × ((plan_status digits (some two_steps)).done_tasks
        ≤ (plan_status digits (some two_steps)).tasks)
    × (length (plan_status digits (some two_steps)).active_tasks ≤ 1)
    × (map (λ x. x.goal) (plan_status digits (some two_steps)).items
        ≡ map (λ x. x.step) two_steps.items)
plan_status-Valid_example = plan_status-Valid digits two_steps two_steps-IsValid

plan_run_from_snapshot-encode_example : plan_run_from_snapshot one_codec (codes "x") ≡ ok two_steps
unfolding encode_plan_snapshot snapshot_of same_snapshot text_eq
plan_run_from_snapshot-encode_example =
    plan_run_from_snapshot-encode one_codec two_steps (codes "x") two_steps-IsValid refl
      one_codec_inverse
