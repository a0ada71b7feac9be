-- ===== src/Ledger/Compactor.antt =====
-- The writers of internal/store/thread_compaction.go. `entry_of` encodes a failure, whose pause is decided
-- only when the state is known.
use eino_local_assistant.Prelude.{
  ℕ, not, ◌&&◌, ◌||◌, none, some, [], is_some, codes, text_eq, trim_space, is_empty, Result, err,
  ◌>>=◌, ◌>>◌, fail_if,
}
use eino_local_assistant.Ledger.Events.{
  compaction_started, compaction_failed, checkpoint_reset, LedgerError, refused, archived,
  operation_not_pending, Codec, CompactionStart, CompactionFailure, CheckpointSchemaReset,
}
use eino_local_assistant.Ledger.State.{ThreadState, has_recorded_compaction_operation_id}
use eino_local_assistant.Ledger.Compaction.{
  normalize_compaction_failure_input, materialize_compaction_failure,
}
use eino_local_assistant.Ledger.Checkpoints.{matches_pending, trim_reset}
use eino_local_assistant.Ledger.Store.{Appended, Entry, append_locked, check_expected_revision}

unfoldable pub start_compaction : Codec → ThreadState → ℕ → CompactionStart → Entry → Appended
start_compaction codec s expected input x = do
  let operation_id = trim_space input.operation_id
  fail_if (is_empty operation_id) (refused (codes "compaction operation id is required"))
  check_expected_revision s expected
  fail_if (is_some s.meta.archived_at) archived
  fail_if (has_recorded_compaction_operation_id s operation_id)
      (refused (codes "compaction operation already exists in journal"))
  fail_if (is_some s.pending_compaction) (refused (codes "compaction operation is already pending"))
  append_locked codec s expected compaction_started [] x

-- A failure closes the pending operation, or names one that is not yet on record.
unfoldable pub check_failure_operation :
    ThreadState → CompactionFailure → Result LedgerError (Unit {0})
check_failure_operation s i = elim s.pending_compaction [
  | some q ↦
      fail_if (not (matches_pending q i.operation_id i.automatic))
        (refused (codes "compaction failure does not match pending operation"))
  | none ↦
      fail_if
        (not (is_empty i.operation_id) && has_recorded_compaction_operation_id s i.operation_id)
        (refused (codes "compaction operation already exists in journal"))
]

unfoldable pub record_compaction_failure :
    Codec → ThreadState → ℕ → CompactionFailure → (CompactionFailure → Entry) → Appended
record_compaction_failure codec s expected input entry_of = do
  i ← normalize_compaction_failure_input input
  check_expected_revision s expected
  check_failure_operation s i
  p ← materialize_compaction_failure codec s i
  append_locked codec s expected compaction_failed [] (entry_of p)

unfoldable pub check_pending_operation :
    ThreadState → CompactionFailure → Result LedgerError (Unit {0})
check_pending_operation s i = elim s.pending_compaction [
  | none ↦ err operation_not_pending
  | some q ↦ fail_if (not (matches_pending q i.operation_id i.automatic)) operation_not_pending
]

unfoldable pub finish_compaction :
    Codec → ThreadState → CompactionFailure → (CompactionFailure → Entry) → Appended
finish_compaction codec s input entry_of = do
  i ← normalize_compaction_failure_input input
  fail_if (is_empty i.operation_id) (refused (codes "compaction operation id is required"))
  check_pending_operation s i
  p ← materialize_compaction_failure codec s i
  append_locked codec s s.revision compaction_failed [] (entry_of p)

unfoldable pub reset_incompatible_checkpoint :
    Codec → ThreadState → ℕ → CheckpointSchemaReset → (CheckpointSchemaReset → Entry) → Appended
reset_incompatible_checkpoint codec s expected input entry_of = do
  let p = trim_reset input
  fail_if (is_empty p.checkpoint_id || is_empty p.reason)
      (refused (codes "checkpoint reset id and reason are required"))
  fail_if (p.auto_paused && is_empty p.auto_pause_reason)
      (refused (codes "auto pause reason is required"))
  fail_if (not p.auto_paused && not (is_empty p.auto_pause_reason))
      (refused (codes "auto pause reason requires auto pause"))
  check_expected_revision s expected
  fail_if (is_empty s.active_checkpoint_id || not (text_eq s.active_checkpoint_id p.checkpoint_id))
      (refused (codes "checkpoint reset target does not match active checkpoint"))
  append_locked codec s expected checkpoint_reset [] (entry_of p)
