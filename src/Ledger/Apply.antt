-- ===== src/Ledger/Apply.antt =====
-- `applyThreadEvent` of internal/store/thread_journal.go: how each event changes the state.
use eino_local_assistant.Prelude.{
  ℕ, not, none, some, ltb, ◌==◌, if◌then◌else◌, length, Text, codes, text_eq, trim_space, is_empty,
  add_int, pos, Result, ok, err, ◌>>=◌, ◌>>◌, fail_if,
}
use eino_local_assistant.Ledger.Events.{
  EventKind, thread_created, turn_started, tool_started, tool_completed, turn_committed,
  turn_cancelled, turn_failed, title_changed, model_changed, thread_archived, thread_unarchived,
  usage_recorded, task_state_updated, compaction_started, compacted, compaction_failed,
  checkpoint_reset, other, LedgerError, TurnCommit, ModelChange, ThreadEvent, ThreadMeta,
  UsageStatus, blank, unavailable, ThreadCreatedPayload, SystemPromptRef, Codec,
}
use eino_local_assistant.Ledger.State.{
  ThreadState, valid_usage_status, clear_usage_projection, S, corrupt, as_corrupt, decode,
  session_journal_format_version,
}
use eino_local_assistant.Ledger.Usage.{validate_task_state_update}
use eino_local_assistant.Ledger.Accounting.{apply_usage_recorded}
use eino_local_assistant.Ledger.Checkpoints.{
  apply_compaction_started, apply_compacted, apply_compaction_failed, apply_checkpoint_reset,
}

unfoldable pub validate_system_prompt_ref : Codec → SystemPromptRef → Result LedgerError (Unit {0})
validate_system_prompt_ref codec r = do
  fail_if (r.bytes == 0) (corrupt (codes "system prompt size must be positive"))
  fail_if (not (codec.byte_length r.sha256 == 64))
      (corrupt (codes "system prompt sha256 is required"))
  fail_if (not (codec.byte_length r.content == r.bytes))
      (corrupt (codes "system prompt size mismatch"))
  fail_if (not (text_eq (codec.sha256_hex r.content) r.sha256))
      (corrupt (codes "system prompt hash mismatch"))

-- A journal from before usage was recorded has no status.
unfoldable pub created_meta : ThreadMeta → ThreadEvent → ThreadMeta
created_meta m event =
    let status : UsageStatus = elim m.usage_status [
      | blank ↦ unavailable
      | other_status ↦ other_status
    ] in
    let stated = record m { usage_status = status } in
    let cleared : ThreadMeta = elim status [
      | unavailable ↦ clear_usage_projection stated
      | other_status ↦ stated
    ] in
    record cleared {
      created_at = if m.created_at == 0 then event.timestamp else m.created_at;
      message_count = pos 1;
    }

unfoldable pub apply_thread_created : Codec → ThreadState → ThreadEvent → ThreadCreatedPayload → S
apply_thread_created codec s event p = do
  fail_if (is_empty p.meta.id) (corrupt (codes "thread.created missing id"))
  let m = created_meta p.meta event
  fail_if (not (valid_usage_status m.usage_status)) (corrupt (codes "invalid usage status"))
  as_corrupt (validate_system_prompt_ref codec p.system_prompt)
      (codes "invalid system prompt reference")
  ok (record s { id = p.meta.id; meta = m; created_at = m.created_at })

unfoldable pub apply_turn_committed : ThreadState → TurnCommit → S
apply_turn_committed s p = ok (record s {
  meta = record s.meta { message_count = add_int s.meta.message_count (pos (length p.messages)) };
})

unfoldable pub apply_task_state : Codec → ThreadState → Text → S
apply_task_state codec s snapshot = do
  as_corrupt (validate_task_state_update codec snapshot) (codes "invalid task state update")
  ok (record s { task_state = snapshot })

unfoldable pub apply_model_changed : ThreadState → ModelChange → S
apply_model_changed s p = ok (record s {
  meta = record s.meta {
    model = trim_space p.model;
    reasoning_effort = trim_space p.reasoning_effort;
  };
})

unfoldable pub apply_archived : ThreadState → ℕ → S
apply_archived s at = do
  fail_if (at == 0) (corrupt (codes "archive timestamp is required"))
  ok (record s { meta = record s.meta { archived_at = some at } })

unfoldable pub apply_event_kind : Codec → EventKind → ThreadState → ThreadEvent → S
apply_event_kind codec thread_created s event = do
  p ← decode (codec.thread_created event.payload)
  apply_thread_created codec s event p
apply_event_kind codec turn_committed s event = do
  p ← decode (codec.turn_commit event.payload)
  apply_turn_committed s p
apply_event_kind codec usage_recorded s event = do
  p ← decode (codec.model_usage event.payload)
  apply_usage_recorded codec s event p
apply_event_kind codec task_state_updated s event = do
  p ← decode (codec.task_state event.payload)
  apply_task_state codec s p
apply_event_kind codec title_changed s event = do
  p ← decode (codec.title event.payload)
  ok (record s { meta = record s.meta { title = p } })
apply_event_kind codec model_changed s event = do
  p ← decode (codec.model_change event.payload)
  apply_model_changed s p
apply_event_kind codec thread_archived s event = do
  p ← decode (codec.archived_at event.payload)
  apply_archived s p
apply_event_kind codec thread_unarchived s event =
    ok (record s { meta = record s.meta { archived_at = none } })
apply_event_kind codec compaction_started s event = do
  p ← decode (codec.compaction_start event.payload)
  apply_compaction_started s event p
apply_event_kind codec compacted s event = do
  p ← decode (codec.checkpoint event.payload)
  apply_compacted codec s event p
apply_event_kind codec compaction_failed s event = do
  p ← decode (codec.compaction_failure event.payload)
  apply_compaction_failed s event p
apply_event_kind codec checkpoint_reset s event = do
  p ← decode (codec.checkpoint_reset event.payload)
  apply_checkpoint_reset s event p
apply_event_kind codec turn_started s event = ok s
apply_event_kind codec tool_started s event = ok s
apply_event_kind codec tool_completed s event = ok s
apply_event_kind codec turn_cancelled s event = ok s
apply_event_kind codec turn_failed s event = ok s
apply_event_kind codec (other k) s event = err (corrupt (codes "unknown event kind"))

-- What every accepted event writes: the head of the chain and the times, which never go back.
unfoldable pub advance : ThreadState → ThreadEvent → ThreadState
advance s event =
    let updated =
      if ltb event.timestamp s.meta.updated_at then s.meta.updated_at else event.timestamp in
    record s {
      format_version = session_journal_format_version;
      revision = event.sequence;
      head_sequence = event.sequence;
      last_hash = event.hash;
      updated_at = updated;
      meta = record s.meta {
        id = s.id;
        updated_at = updated;
        created_at = if s.meta.created_at == 0 then s.created_at else s.meta.created_at;
      };
    }

unfoldable pub apply_thread_event : Codec → ThreadState → ThreadEvent → S
apply_thread_event codec s event = do
  s' ← apply_event_kind codec event.kind s event
  ok (advance s' event)
