-- ===== src/Ledger/Usage.antt =====
-- The checks of a usage record and of a task-state snapshot (internal/store/thread_usage.go and
-- thread_task_state.go).
use eino_local_assistant.Prelude.{
  ℕ, ◌*◌, Bool, true, false, ◌&&◌, ◌||◌, not, ltb, if◌then◌else◌, Text, codes, text_eq, trim_space,
  is_empty, ℤ, pos, negsuc, add_int, Result, ok, ◌>>◌, fail_if,
}
use eino_local_assistant.Ledger.Events.{LedgerError, refused, ModelUsage, Codec}

abbrev pub max_task_state_bytes : ℕ
max_task_state_bytes = 512 * 1024

abbrev is_negative_count : ℤ → Bool
is_negative_count (pos _) = false
is_negative_count (negsuc _) = true

abbrev zero_count : ℤ → Bool
zero_count (pos Prim.Native.Nat.zero) = true
zero_count _ = false

abbrev pub M : Type 0 → Type 0
M = Result LedgerError

-- validateTaskStateUpdate.
unfoldable pub validate_task_state_update : Codec → Text → M (Unit {0})
validate_task_state_update codec snapshot = do
  fail_if (is_empty snapshot) (refused (codes "task state snapshot is required"))
  fail_if (ltb max_task_state_bytes (codec.byte_length snapshot))
      (refused (codes "task state snapshot exceeds the limit"))
  fail_if (not (codec.json_valid snapshot))
      (refused (codes "task state snapshot must be valid JSON"))

abbrev pub agent_operation : Text
agent_operation = codes "agent"

abbrev pub compaction_operation : Text
compaction_operation = codes "compaction"

unfoldable pub trim_usage : ModelUsage → ModelUsage
trim_usage u = record u {
  call_id = trim_space u.call_id;
  turn_id = trim_space u.turn_id;
  operation = trim_space u.operation;
  operation_id = trim_space u.operation_id;
}

unfoldable pub check_usage : Codec → ModelUsage → M (Unit {0})
check_usage codec u = do
  fail_if (is_empty u.call_id) (refused (codes "model usage call id is required"))
  fail_if
      (not (text_eq u.operation agent_operation) && not (text_eq u.operation compaction_operation))
      (refused (codes "invalid model usage operation"))
  fail_if (text_eq u.operation agent_operation && is_empty u.turn_id)
      (refused (codes "agent model usage turn id is required"))
  fail_if (not (text_eq u.operation compaction_operation) && not (is_empty u.operation_id))
      (refused (codes "model usage operation id is only valid for compaction"))
  fail_if
      (is_negative_count u.prompt_tokens
        || is_negative_count u.completion_tokens
        || is_negative_count u.total_tokens
        || is_negative_count u.cached_tokens
        || is_negative_count u.reasoning_tokens
        || is_negative_count u.context_window_tokens)
      (refused (codes "model usage token counts must not be negative"))
  fail_if (codec.float_negative u.cost_usd || not (codec.float_finite u.cost_usd))
      (refused (codes "model usage cost must be finite and non-negative"))

-- Without a provider's report nothing is counted; a missing total is the sum of its parts.
unfoldable pub settle_usage : ModelUsage → ModelUsage
settle_usage u =
    if u.has_provider_usage
    then (if zero_count u.total_tokens
        then record u { total_tokens = add_int u.prompt_tokens u.completion_tokens }
        else u)
    else record u {
      prompt_tokens = pos 0;
      completion_tokens = pos 0;
      total_tokens = pos 0;
      cached_tokens = pos 0;
      reasoning_tokens = pos 0;
      context_window_tokens = pos 0;
      cost_usd = 0;
    }

unfoldable pub normalize_model_usage : Codec → ModelUsage → M ModelUsage
normalize_model_usage codec input = do
  let u = trim_usage input
  check_usage codec u
  ok (settle_usage u)
