-- ===== src/Guard/Contexts.antt =====
-- The exported functions of internal/runtimeguard/turn.go: they find the budget in a context.
use eino_local_assistant.Prelude.{
  ℕ, ◌+◌, Bool, true, false, Option, none, some, List, [], map, ltb, if◌then◌else◌, pos_part,
}
use eino_local_assistant.Guard.Errors.{
  Error, is_error, turn_deadline, turn_deadline_exceeded, context_required,
  tool_call_budget_exceeded, model_step_budget_exceeded, final_response_budget_exceeded,
}
use eino_local_assistant.Guard.Options.{TurnOptions, Normalized, ok, err, normalize_turn_options}
use eino_local_assistant.Guard.Budget.{
  ToolCall, TurnBudget, Json, acquire_tool_call, acquire_model_step, acquire_final_response,
  mark_state_changed,
}
use eino_local_assistant.Guard.Admission.{
  Batch, admitted, refused, allow, admit_tool_batch, start_tool_call,
}

-- What these functions read of a context: `Err()`, context.Cause of it, `Deadline()` and the budget
-- that it carries.
pub record Context : Type 0 where
  pub err : Option Error
  pub cause : Option Error
  pub deadline : Option ℕ
  pub budget : Option TurnBudget

pub data Derived : Type 0 where
  turn : Context → Derived
  invalid : Error → Derived

-- context.WithDeadlineCause keeps an earlier deadline of the parent.
abbrev pub effective_deadline : Option ℕ → ℕ → ℕ
effective_deadline none d = d
effective_deadline (some p) d = if ltb p d then p else d

unfoldable pub new_budget : TurnOptions → ℕ → Option Error → TurnBudget
new_budget o deadline cause = record {
  max_model_steps = pos_part o.max_model_steps;
  model_steps = 0;
  final_response_acquired = false;
  max_tool_calls = pos_part o.max_tool_calls;
  tool_calls = 0;
  max_consecutive_equivalent_tool_calls = pos_part o.max_consecutive_equivalent_tool_calls;
  equivalent_tool_calls = [];
  admitted_tool_calls = [];
  has_batch_admissions = false;
  turn_context = record { deadline = deadline; cause = cause };
}

unfoldable pub derive_turn : Context → ℕ → Normalized → Derived
derive_turn parent now (err e) = invalid e
derive_turn parent now (ok o) =
    let deadline = effective_deadline parent.deadline (now + pos_part o.timeout) in
    turn (record {
      err = parent.err;
      cause = parent.cause;
      deadline = some deadline;
      budget = some (new_budget o deadline parent.cause);
    })

-- The clock is a number of nanoseconds; a missing parent is `none`.
unfoldable pub with_turn_context_at : Option Context → TurnOptions → ℕ → Derived
unfolding derive_turn
with_turn_context_at none opts now = invalid context_required
with_turn_context_at (some parent) opts now = derive_turn parent now (normalize_turn_options opts)

unfoldable pub deadline_exceeded : TurnBudget → Bool
unfolding is_error
deadline_exceeded b = elim b.turn_context.cause [ none ↦ false | some e ↦ is_error e turn_deadline ]

unfoldable pub context_error : TurnBudget → Context → Option Error
context_error b ctx = elim ctx.err [
  | none ↦ none
  | some e ↦ some (if deadline_exceeded b then turn_deadline_exceeded else e)
]

-- The steps that the exported functions share: no context is an error, no budget a success, an
-- ended context an error, and otherwise the budget's own operation decides.
unfoldable pub guarded {ℓ} :
    {A : Type ℓ}
    → (Error → A)
    → A
    → (TurnBudget → TurnBudget × A)
    → Option Context
    → Option Context × A
guarded failed unlimited op none = (none, failed context_required)
guarded failed unlimited op (some ctx) = elim ctx.budget [
  | none ↦ (some ctx, unlimited)
  | some b ↦ elim (context_error b ctx) [
    | some e ↦ (some ctx, failed e)
    | none ↦ let (b', r) = op b in (some (record ctx { budget = some b' }), r)
  ]
]

abbrev or_error : Error → TurnBudget × Bool → TurnBudget × Option Error
or_error e (b, true) = (b, none)
or_error e (b, false) = (b, some e)

unfoldable pub acquire_tool_call_in : Option Context → Option Context × Option Error
acquire_tool_call_in =
    guarded some none λ b. or_error tool_call_budget_exceeded (acquire_tool_call b)

unfoldable pub acquire_model_step_in : Option Context → Option Context × Option Error
acquire_model_step_in =
    guarded some none λ b. or_error model_step_budget_exceeded (acquire_model_step b)

unfoldable pub acquire_final_response_in : Option Context → Option Context × Option Error
acquire_final_response_in =
    guarded some none λ b. or_error final_response_budget_exceeded (acquire_final_response b)

unfoldable pub admit_tool_batch_in : Json → List ToolCall → Option Context → Option Context × Batch
admit_tool_batch_in json calls =
    guarded refused (admitted (map allow calls)) λ b. admit_tool_batch json b calls

unfoldable pub start_tool_call_in : Json → ToolCall → Option Context → Option Context × Option Error
start_tool_call_in json c = guarded some none λ b. start_tool_call json b c

unfoldable pub mark_state_changed_in : Option Context → Option Context
mark_state_changed_in none = none
mark_state_changed_in (some ctx) = elim ctx.budget [
  | none ↦ some ctx
  | some b ↦ some (record ctx { budget = some (mark_state_changed b) })
]
