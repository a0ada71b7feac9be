-- ===== src/Guard/Errors.antt =====
-- The errors of internal/runtimeguard/turn.go and the reasons that tool results carry.
use eino_local_assistant.Prelude.{ℕ, Bool, true, false, ◌||◌, if◌then◌else◌, Text, codes, text_eq}

-- The package's sentinel errors, the errors that a `context.Context` reports, and the two ways in
-- which `fmt.Errorf` wraps one of them with `%w`.
pub data Error : Type 0 where
  tool_call_budget_exceeded : Error
  model_step_budget_exceeded : Error
  final_response_budget_exceeded : Error
  equivalent_tool_call_limit_exceeded : Error
  tool_call_not_admitted : Error
  tool_call_admission_mismatch : Error
  tool_call_already_started : Error
  tool_call_already_admitted : Error
  tool_call_id_required : Error
  turn_deadline_exceeded : Error
  context_required : Error
  clock_required : Error
  invalid_options : Text → Error
  canceled : Error
  deadline_exceeded : Error
  at_index : ℕ → Error → Error
  for_id : Text → Error → Error

-- The sentinels that `DenialReason` and `DeadlineExceeded` look for.
pub data Sentinel : Type 0 where
  tool_call_budget equivalent_tool_calls not_admitted mismatch already_started turn_deadline :
      Sentinel

-- errors.Is, which looks through the wrappers.
unfoldable pub is_error : Error → Sentinel → Bool
is_error tool_call_budget_exceeded tool_call_budget = true
is_error equivalent_tool_call_limit_exceeded equivalent_tool_calls = true
is_error tool_call_not_admitted not_admitted = true
is_error tool_call_admission_mismatch mismatch = true
is_error tool_call_already_started already_started = true
is_error turn_deadline_exceeded turn_deadline = true
is_error (at_index _ e) s = is_error e s
is_error (for_id _ e) s = is_error e s
is_error _ _ = false

unfoldable pub denial_reason : Error → Text
unfolding is_error
denial_reason e =
    if is_error e tool_call_budget
    then codes "runtime_tool_budget_exceeded"
    else if is_error e equivalent_tool_calls
    then codes "runtime_equivalent_tool_call_limit"
    else if is_error e not_admitted || is_error e mismatch || is_error e already_started
    then codes "runtime_tool_call_not_admitted"
    else codes ""

unfoldable pub error_for_denial_reason : Text → Error
unfolding denial_reason text_eq
error_for_denial_reason reason =
    if text_eq reason (denial_reason tool_call_budget_exceeded)
    then tool_call_budget_exceeded
    else if text_eq reason (denial_reason equivalent_tool_call_limit_exceeded)
    then equivalent_tool_call_limit_exceeded
    else tool_call_not_admitted
