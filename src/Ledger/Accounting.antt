-- ===== src/Ledger/Accounting.antt =====
-- How a usage record changes the state (internal/store/thread_journal.go): each call is counted once.
use eino_local_assistant.Prelude.{
  Bool, false, not, ◌&&◌, Option, none, some, ◌==◌, if◌then◌else◌, codes, text_eq, is_empty, lookup,
  insert, ℤ, pos, negsuc, add_int, Result, ok, err, ◌>>=◌, ◌>>◌, fail_if,
}
use eino_local_assistant.Ledger.Events.{LedgerError, ModelUsage, ThreadEvent, ThreadMeta, Codec}
use eino_local_assistant.Ledger.State.{
  ThreadState, CompactionOperation, next_usage_status, S, corrupt, as_corrupt,
}
use eino_local_assistant.Ledger.Usage.{normalize_model_usage, agent_operation, compaction_operation}

abbrev pub same_flag : Bool → Bool → Bool
same_flag a b = if a then b else not b

abbrev pub same_count : ℤ → ℤ → Bool
same_count (pos a) (pos b) = a == b
same_count (negsuc a) (negsuc b) = a == b
same_count _ _ = false

-- Go's `==` on two usage records.
unfoldable pub same_usage : Codec → ModelUsage → ModelUsage → Bool
same_usage codec a b =
    text_eq a.call_id b.call_id
    && text_eq a.turn_id b.turn_id
    && text_eq a.operation b.operation
    && text_eq a.operation_id b.operation_id
    && same_flag a.has_provider_usage b.has_provider_usage
    && same_count a.prompt_tokens b.prompt_tokens
    && same_count a.completion_tokens b.completion_tokens
    && same_count a.total_tokens b.total_tokens
    && same_count a.cached_tokens b.cached_tokens
    && same_count a.reasoning_tokens b.reasoning_tokens
    && same_count a.context_window_tokens b.context_window_tokens
    && codec.float_eq a.cost_usd b.cost_usd

-- Usage of a compaction that names its operation must belong to the pending one.
unfoldable pub check_operation :
    Option CompactionOperation → ModelUsage → Result LedgerError (Unit {0})
check_operation pending u =
    if text_eq u.operation compaction_operation && not (is_empty u.operation_id)
    then (elim pending [
      | none ↦ err (corrupt (codes "compaction usage requires a pending compaction"))
      | some p ↦
          fail_if (not (text_eq u.operation_id p.operation_id))
            (corrupt (codes "compaction usage does not match pending operation"))
    ])
    else ok tt

unfoldable pub count_tokens : Codec → ThreadMeta → ModelUsage → ThreadMeta
count_tokens codec m u =
    if u.has_provider_usage
    then record m {
      prompt_tokens = add_int m.prompt_tokens u.prompt_tokens;
      completion_tokens = add_int m.completion_tokens u.completion_tokens;
      total_tokens = add_int m.total_tokens u.total_tokens;
      cached_tokens = add_int m.cached_tokens u.cached_tokens;
      reasoning_tokens = add_int m.reasoning_tokens u.reasoning_tokens;
      cost_usd = codec.float_add m.cost_usd u.cost_usd;
    }
    else m

-- An agent call measures the context, or makes the last measure untrustworthy.
unfoldable pub measure_context : ThreadMeta → ModelUsage → ThreadMeta
measure_context m u =
    if text_eq u.operation agent_operation
    then record m {
      last_context =
          if u.has_provider_usage
          then some
              (record { prompt_tokens = u.prompt_tokens; window_tokens = u.context_window_tokens })
          else none;
    }
    else m

unfoldable pub add_usage : Codec → ThreadState → ModelUsage → ThreadState
add_usage codec s u =
    let m = record s.meta {
      model_call_count = add_int s.meta.model_call_count (pos 1);
      usage_status = next_usage_status s.meta.usage_status u.has_provider_usage;
    } in
    record s {
      recorded_usage = insert u.call_id u s.recorded_usage;
      meta = measure_context (count_tokens codec m u) u;
    }

unfoldable pub record_usage : Codec → ThreadState → ModelUsage → Option ModelUsage → S
record_usage codec s u (some previous) =
    if same_usage codec previous u
    then ok s
    else err (corrupt (codes "duplicate usage call id differs"))
record_usage codec s u none = do check_operation s.pending_compaction u; ok (add_usage codec s u)

unfoldable pub apply_usage_recorded : Codec → ThreadState → ThreadEvent → ModelUsage → S
apply_usage_recorded codec s event payload = do
  u ← as_corrupt (normalize_model_usage codec payload) (codes "invalid usage.recorded")
  fail_if (not (text_eq u.turn_id event.turn_id))
      (corrupt (codes "usage record turn id does not match event"))
  record_usage codec s u (lookup u.call_id s.recorded_usage)
