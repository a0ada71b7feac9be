-- ===== src/Ledger/Names.antt =====
-- The creation names a thread, and every other event keeps the name.
use eino_local_assistant.Prelude.{
  ◌≡◌, Bool, false, not, ◌&&◌, ◌||◌, Option, none, some, arith, ◌==◌, Text, text_eq, is_empty, ok,
  fail_if, >>=-eq-ok, trim_space, lookup,
}
use eino_local_assistant.Ledger.Events.{
  EventKind, thread_created, turn_committed, title_changed, model_changed, thread_archived,
  thread_unarchived, usage_recorded, task_state_updated, compaction_started, compacted,
  compaction_failed, checkpoint_reset, other, ThreadEvent, Codec, ModelUsage, CompactionStart,
  Checkpoint, CompactionFailure, CheckpointSchemaReset,
}
use eino_local_assistant.Ledger.Usage.{normalize_model_usage}
use eino_local_assistant.Ledger.State.{
  ThreadState, decode, as_corrupt, record_compaction_operation_id,
}
use eino_local_assistant.Ledger.Accounting.{apply_usage_recorded, record_usage, add_usage}
use eino_local_assistant.Ledger.Checkpoints.{
  apply_compaction_started, apply_compacted, apply_compaction_failed, apply_checkpoint_reset,
  begin_compaction, close_for_checkpoint, install_checkpoint, close_for_failure, note_failure,
  reset_checkpoint, check_replayed_pause, validate_checkpoint,
}
use eino_local_assistant.Ledger.Compaction.{
  trim_failure, allows_unpaused_automatic_compaction_failure,
}
use eino_local_assistant.Ledger.Apply.{
  apply_thread_created, apply_turn_committed, apply_task_state, apply_model_changed, apply_archived,
  apply_event_kind, created_meta,
}
use eino_local_assistant.Ledger.Chain.{is_created}

-- The thread keeps its name.
abbrev pub Keeps : ThreadState → ThreadState → Type 0
Keeps s s' = s'.id ≡ s.id

record_usage-Keeps :
    (codec : Codec) (s s' : ThreadState) (u : ModelUsage) (o : Option ModelUsage)
    → record_usage codec s u o ≡ ok s'
    → Keeps s s'
unfolding record_usage add_usage
record_usage-Keeps codec s s' u none h = ground arith
record_usage-Keeps codec s s' u (some p) h = ground arith

apply_usage_recorded-Keeps :
    (codec : Codec) (s s' : ThreadState) (e : ThreadEvent) (p : ModelUsage)
    → apply_usage_recorded codec s e p ≡ ok s'
    → Keeps s s'
unfolding apply_usage_recorded
apply_usage_recorded-Keeps codec s s' e p h =
    let (u, _, h₁) = >>=-eq-ok (as_corrupt (normalize_model_usage codec p) _) _ h in
    let (_, _, h₂) = >>=-eq-ok (fail_if (not (text_eq u.turn_id e.turn_id)) _) _ h₁ in
    record_usage-Keeps codec s s' u (lookup u.call_id s.recorded_usage) h₂

apply_compaction_started-Keeps :
    (s s' : ThreadState) (e : ThreadEvent) (p : CompactionStart)
    → apply_compaction_started s e p ≡ ok s'
    → Keeps s s'
unfolding apply_compaction_started begin_compaction record_compaction_operation_id
apply_compaction_started-Keeps s s' e p h = ground arith

close_for_checkpoint-Keeps :
    (s s' : ThreadState) (o : Text) (a : Bool) → close_for_checkpoint s o a ≡ ok s' → Keeps s s'
unfolding close_for_checkpoint
close_for_checkpoint-Keeps s s' o a h = ground arith

apply_compacted-Keeps :
    (codec : Codec) (s s' : ThreadState) (e : ThreadEvent) (p : Checkpoint)
    → apply_compacted codec s e p ≡ ok s'
    → Keeps s s'
unfolding apply_compacted install_checkpoint
apply_compacted-Keeps codec s s' e p h =
    let (_, _, h₁) = >>=-eq-ok (validate_checkpoint codec p s.id) _ h in
    let (_, _, h₂) =
      >>=-eq-ok (fail_if (not (p.revision == e.revision) || not (p.sequence == e.sequence)) _) _
        h₁ in
    let (c, closed, h₃) =
      >>=-eq-ok (close_for_checkpoint s (trim_space p.operation_id) p.automatic) _ h₂ in
    let kept = close_for_checkpoint-Keeps s c (trim_space p.operation_id) p.automatic closed in
    ground arith

close_for_failure-Keeps :
    (s s' : ThreadState) (p : CompactionFailure) → close_for_failure s p ≡ ok s' → Keeps s s'
unfolding close_for_failure record_compaction_operation_id
close_for_failure-Keeps s s' p h = ground arith

apply_compaction_failed-Keeps :
    (s s' : ThreadState) (e : ThreadEvent) (p : CompactionFailure)
    → apply_compaction_failed s e p ≡ ok s'
    → Keeps s s'
unfolding apply_compaction_failed note_failure
apply_compaction_failed-Keeps s s' e p h =
    let q = trim_failure p in
    let (_, _, h₁) = >>=-eq-ok (fail_if (not q.cancelled && is_empty q.reason) _) _ h in
    let (_, _, h₂) = >>=-eq-ok (check_replayed_pause q.auto_paused q.auto_pause_reason) _ h₁ in
    let (_, _, h₃) =
      >>=-eq-ok
        (fail_if
          (q.automatic && not q.auto_paused && not (allows_unpaused_automatic_compaction_failure q))
          _)
        _ h₂ in
    let (c, closed, h₄) = >>=-eq-ok (close_for_failure s q) _ h₃ in
    let kept = close_for_failure-Keeps s c q closed in ground arith

apply_checkpoint_reset-Keeps :
    (s s' : ThreadState) (e : ThreadEvent) (p : CheckpointSchemaReset)
    → apply_checkpoint_reset s e p ≡ ok s'
    → Keeps s s'
unfolding apply_checkpoint_reset reset_checkpoint check_replayed_pause
apply_checkpoint_reset-Keeps s s' e p h = ground arith

-- Every event but the creation leaves the name of the thread.
pub apply_event_kind-Keeps :
    (codec : Codec) (k : EventKind) (s s' : ThreadState) (e : ThreadEvent)
    → apply_event_kind codec k s e ≡ ok s'
    → is_created k ≡ false
    → Keeps s s'
unfolding apply_event_kind apply_turn_committed apply_task_state apply_model_changed apply_archived
apply_event_kind-Keeps codec thread_created s s' e h c = absurd (cc)
apply_event_kind-Keeps codec turn_committed s s' e h c = ground arith
apply_event_kind-Keeps codec usage_recorded s s' e h c =
    let (p, _, r) = >>=-eq-ok (decode (codec.model_usage e.payload)) _ h in
    apply_usage_recorded-Keeps codec s s' e p r
apply_event_kind-Keeps codec task_state_updated s s' e h c = ground arith
apply_event_kind-Keeps codec title_changed s s' e h c = ground arith
apply_event_kind-Keeps codec model_changed s s' e h c = ground arith
apply_event_kind-Keeps codec thread_archived s s' e h c = ground arith
apply_event_kind-Keeps codec thread_unarchived s s' e h c = ground arith
apply_event_kind-Keeps codec compaction_started s s' e h c =
    let (p, _, r) = >>=-eq-ok (decode (codec.compaction_start e.payload)) _ h in
    apply_compaction_started-Keeps s s' e p r
apply_event_kind-Keeps codec compacted s s' e h c =
    let (p, _, r) = >>=-eq-ok (decode (codec.checkpoint e.payload)) _ h in
    apply_compacted-Keeps codec s s' e p r
apply_event_kind-Keeps codec compaction_failed s s' e h c =
    let (p, _, r) = >>=-eq-ok (decode (codec.compaction_failure e.payload)) _ h in
    apply_compaction_failed-Keeps s s' e p r
apply_event_kind-Keeps codec checkpoint_reset s s' e h c =
    let (p, _, r) = >>=-eq-ok (decode (codec.checkpoint_reset e.payload)) _ h in
    apply_checkpoint_reset-Keeps s s' e p r
apply_event_kind-Keeps codec (other k) s s' e h c = absurd (cc)
apply_event_kind-Keeps codec _ s s' e h c = ground arith

-- The creation names the thread.
pub apply_thread_created-named :
    (codec : Codec) (s s' : ThreadState) (e : ThreadEvent)
    → apply_event_kind codec thread_created s e ≡ ok s'
    → is_empty s'.id ≡ false
unfolding apply_event_kind apply_thread_created
apply_thread_created-named codec s s' e h =
    let (p, _, h₁) = >>=-eq-ok (decode (codec.thread_created e.payload)) _ h in
    let (_, named, h₂) = >>=-eq-ok (fail_if (is_empty p.meta.id) _) _ h₁ in
    let m = created_meta p.meta e in ground arith
