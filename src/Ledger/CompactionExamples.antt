-- ===== src/Ledger/CompactionExamples.antt =====
-- The theorems on compactions at concrete inputs.
use mathlib.Core.Path.{subst}
use eino_local_assistant.Prelude.{
  ◌≡◌, refl, true, false, none, some, [], ◌∷◌, codes, text_eq, is_empty, trim_space, lookup, insert,
  ok, err, ok_inj,
}
use eino_local_assistant.Ledger.Events.{
  compaction_started, compaction_failed, Codec, ThreadEvent, CompactionFailure,
}
use eino_local_assistant.Ledger.Lifecycle.{new_lifecycle_tracker, apply, apply_kind}
use eino_local_assistant.Ledger.State.{
  ThreadState, has_recorded_compaction_operation_id, record_compaction_operation_id,
  valid_usage_status, clear_usage_projection,
}
use eino_local_assistant.Ledger.Apply.{
  apply_thread_event, apply_event_kind, advance, apply_thread_created, created_meta,
  validate_system_prompt_ref,
}
use eino_local_assistant.Ledger.Chain.{
  new_thread_event, thread_event_hash, replay, replay_events, validate_thread_event,
}
use eino_local_assistant.Ledger.Store.{Entry, append_locked}
use eino_local_assistant.Ledger.Pauses.{replay-IsExplained}
use eino_local_assistant.Ledger.Checkpoints.{
  apply_compaction_started, begin_compaction, matches_pending,
}
use eino_local_assistant.Ledger.Compaction.{
  normalize_compaction_failure_input, trim_failure, drop_pause, check_pause,
  apply_automatic_compaction_failure_policy, is_stale_compaction_failure,
  is_low_gain_compaction_failure, allows_unpaused_automatic_compaction_failure,
  materialize_compaction_failure,
}
use eino_local_assistant.Ledger.Compactor.{finish_compaction, check_pending_operation}
use eino_local_assistant.Ledger.Closing.{journaled, finish_compaction_closes}
use eino_local_assistant.Ledger.Samples.{plain, low_gain_input, low_gain_codec, creation, made}

-- A codec in which every compaction is automatic.
abbrev eager : Codec
eager = record plain {
  compaction_start = λ raw. some (record { operation_id = raw; automatic = true });
}

abbrev compaction : ThreadEvent
compaction =
    new_thread_event eager made compaction_started (codes "s") [] 1 (codes "x") (codes "f") 6

abbrev paused : ThreadState
paused = elim (apply_thread_event eager made compaction) [ ok s ↦ s | err e ↦ made ]

replay-paused :
    replay eager (codes "s") (creation ∷ compaction ∷ []) ≡ ok (paused, new_lifecycle_tracker)
unfolding replay replay_events validate_thread_event new_thread_event thread_event_hash apply
    apply_kind apply_thread_event apply_event_kind apply_thread_created validate_system_prompt_ref
    created_meta valid_usage_status clear_usage_projection advance text_eq is_empty
    apply_compaction_started begin_compaction has_recorded_compaction_operation_id
    record_compaction_operation_id lookup insert trim_space
replay-paused = refl

replay-IsExplained_example : is_empty paused.auto_compaction_pause_reason ≡ false
unfolding apply_thread_event apply_event_kind apply_compaction_started begin_compaction
    new_thread_event has_recorded_compaction_operation_id record_compaction_operation_id lookup
    trim_space is_empty apply_thread_created validate_system_prompt_ref created_meta
    valid_usage_status clear_usage_projection advance text_eq
replay-IsExplained_example =
    replay-IsExplained eager (codes "s") (creation ∷ compaction ∷ []) paused new_lifecycle_tracker
      replay-paused refl

-- A thread that waits for the end of an automatic compaction.
abbrev compacting : ThreadState
compacting = record made {
  pending_compaction = some (record { operation_id = codes "o"; automatic = true; started_at = 1 });
}

abbrev named_entry : CompactionFailure → Entry
named_entry p = record { raw = p.operation_id; id = codes "e"; now = 7 }

abbrev closing_event : ThreadEvent
closing_event =
    new_thread_event low_gain_codec compacting compaction_failed compacting.id []
      compacting.revision (codes "o") (codes "e") 7

finish_written :
    finish_compaction low_gain_codec compacting low_gain_input named_entry
    ≡ ok (closing_event, apply_thread_event low_gain_codec compacting closing_event)
unfolding finish_compaction check_pending_operation matches_pending append_locked
    normalize_compaction_failure_input trim_failure drop_pause check_pause
    materialize_compaction_failure apply_automatic_compaction_failure_policy
    is_stale_compaction_failure is_low_gain_compaction_failure
    allows_unpaused_automatic_compaction_failure text_eq is_empty trim_space apply_thread_event
    apply_event_kind apply_thread_created created_meta valid_usage_status clear_usage_projection
    advance new_thread_event validate_system_prompt_ref
finish_written = refl

finish_compaction_closes_example :
    (s' : ThreadState) × (apply_thread_event low_gain_codec compacting closing_event ≡ ok s')
    × (s'.pending_compaction ≡ none)
unfolding normalize_compaction_failure_input trim_failure drop_pause check_pause
    materialize_compaction_failure apply_automatic_compaction_failure_policy
    is_stale_compaction_failure is_low_gain_compaction_failure
    allows_unpaused_automatic_compaction_failure text_eq is_empty trim_space journaled
    apply_thread_event apply_event_kind apply_thread_created created_meta valid_usage_status
    clear_usage_projection advance validate_system_prompt_ref new_thread_event
finish_compaction_closes_example =
    finish_compaction_closes low_gain_codec compacting low_gain_input named_entry closing_event
      (apply_thread_event low_gain_codec compacting closing_event)
      (λ p h.
        subst (λ q. low_gain_codec.compaction_failure (named_entry q).raw ≡ some (journaled q))
          (ok_inj h) refl)
      finish_written
