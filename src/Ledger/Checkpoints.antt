-- ===== src/Ledger/Checkpoints.antt =====
-- How the compaction events change the state (internal/store/thread_journal.go, thread_checkpoint.go).
use eino_local_assistant.Prelude.{
  ℕ, inc64, Bool, true, false, not, ◌&&◌, ◌||◌, none, some, [], leb, ◌==◌, if◌then◌else◌, all,
  is_some, Text, codes, text_eq, trim_space, is_empty, lookup, insert, Result, ok, err, ◌>>=◌, ◌>>◌,
  fail_if,
}
use eino_local_assistant.Ledger.Events.{
  LedgerError, CompactionStart, CompactionFailure, CheckpointSchemaReset, Checkpoint, ThreadEvent,
  Codec,
}
use eino_local_assistant.Ledger.State.{
  ThreadState, CompactionOperation, succeeded, failed, cancelled, was_reset,
  has_recorded_compaction_operation_id, record_compaction_operation_id, S, corrupt,
}
use eino_local_assistant.Ledger.Compaction.{
  is_stale_compaction_failure, is_low_gain_compaction_failure,
  allows_unpaused_automatic_compaction_failure, trim_failure,
}

-- Letters, digits, `-` and `_`; the tests for separators that the source makes first add nothing.
abbrev is_id_rune : ℕ → Bool
is_id_rune c =
    (leb b'a' c && leb c b'z')
    || (leb b'A' c && leb c b'Z')
    || (leb b'0' c && leb c b'9')
    || c == b'-'
    || c == b'_'

unfoldable pub valid_thread_id : Text → Bool
valid_thread_id id = not (is_empty id) && all is_id_rune id

unfoldable pub checkpoint_hash : Codec → Checkpoint → Text
checkpoint_hash codec c = elim (codec.print_checkpoint (record c { hash = [] })) [
  | none ↦ []
  | some raw ↦ codec.sha256_hex raw
]

unfoldable pub validate_checkpoint : Codec → Checkpoint → Text → Result LedgerError (Unit {0})
validate_checkpoint codec c thread_id = do
  fail_if (is_empty c.id || not (text_eq c.thread_id thread_id))
      (corrupt (codes "checkpoint thread mismatch"))
  fail_if (not (is_empty c.parent_id) && not (valid_thread_id c.parent_id))
      (corrupt (codes "invalid checkpoint parent"))
  fail_if (is_empty c.hash || not (text_eq c.hash (checkpoint_hash codec c)))
      (corrupt (codes "checkpoint hash mismatch"))

abbrev pub in_progress : Text
in_progress = codes "automatic compaction is in progress"

abbrev pub legacy_pause : Text
legacy_pause = codes "automatic compaction paused by a legacy checkpoint"

abbrev same_flag : Bool → Bool → Bool
same_flag a b = if a then b else not b

unfoldable pub begin_compaction : ThreadState → ThreadEvent → Text → Bool → ThreadState
begin_compaction s event operation_id automatic =
    let r = record_compaction_operation_id s operation_id in
    let started = record r {
      pending_compaction = some (record {
        operation_id = operation_id;
        automatic = automatic;
        started_at = event.timestamp;
      });
    } in
    if automatic
    then record started {
      auto_compaction_paused = true;
      auto_compaction_pause_reason = in_progress;
    }
    else started

unfoldable pub apply_compaction_started : ThreadState → ThreadEvent → CompactionStart → S
apply_compaction_started s event p = do
  let operation_id = trim_space p.operation_id
  fail_if (is_empty operation_id) (corrupt (codes "compaction operation id is required"))
  fail_if (has_recorded_compaction_operation_id s operation_id)
      (corrupt (codes "duplicate compaction operation id"))
  fail_if (is_some s.pending_compaction) (corrupt (codes "compaction operation is already pending"))
  ok (begin_compaction s event operation_id p.automatic)

-- A result closes exactly the pending operation, of the same kind.
unfoldable pub matches_pending : CompactionOperation → Text → Bool → Bool
matches_pending p operation_id automatic =
    text_eq operation_id p.operation_id && same_flag automatic p.automatic

unfoldable pub close_for_checkpoint : ThreadState → Text → Bool → S
close_for_checkpoint s operation_id automatic = elim s.pending_compaction [
  | some p ↦
      if matches_pending p operation_id automatic
      then ok (record s { pending_compaction = none })
      else err (corrupt (codes "checkpoint does not match pending compaction operation"))
  | none ↦
      if is_empty operation_id
      then ok s
      else err (corrupt (codes "checkpoint requires a pending compaction"))
]

-- A checkpoint that paused before reasons existed gets one.
abbrev pub pause_reason : Checkpoint → Text
pause_reason c =
    let reason = trim_space c.auto_pause_reason in
    if c.auto_paused && is_empty reason then legacy_pause else reason

unfoldable pub install_checkpoint : ThreadState → ThreadEvent → Checkpoint → ThreadState
install_checkpoint s event c = record s {
  recorded_checkpoint_ids = insert c.id tt s.recorded_checkpoint_ids;
  active_checkpoint_id = c.id;
  low_gain_streak = 0;
  auto_compaction_paused = c.auto_paused;
  auto_compaction_pause_reason = pause_reason c;
  last_compaction = some (record {
    status = succeeded;
    operation_id = trim_space c.operation_id;
    checkpoint_id = c.id;
    automatic = c.automatic;
    reason = [];
    at = event.timestamp;
  });
  meta = record s.meta { last_context = none };
}

unfoldable pub apply_compacted : Codec → ThreadState → ThreadEvent → Checkpoint → S
apply_compacted codec s event c = do
  validate_checkpoint codec c s.id
  fail_if (not (c.revision == event.revision) || not (c.sequence == event.sequence))
      (corrupt (codes "checkpoint revision mismatch"))
  closed ← close_for_checkpoint s (trim_space c.operation_id) c.automatic
  fail_if (is_some (lookup c.id closed.recorded_checkpoint_ids))
      (corrupt (codes "duplicate checkpoint id"))
  ok (install_checkpoint closed event c)

-- The pause fields agree: a reason exactly when paused.
unfoldable pub check_replayed_pause : Bool → Text → Result LedgerError (Unit {0})
check_replayed_pause paused reason = do
  fail_if (paused && is_empty reason) (corrupt (codes "pause reason is required"))
  fail_if (not paused && not (is_empty reason)) (corrupt (codes "pause reason requires pause"))

unfoldable pub close_for_failure : ThreadState → CompactionFailure → S
close_for_failure s p = elim s.pending_compaction [
  | some q ↦
      if matches_pending q p.operation_id p.automatic
      then ok (record s { pending_compaction = none })
      else err (corrupt (codes "compaction failure does not match pending operation"))
  | none ↦
      if is_empty p.operation_id
      then ok s
      else if has_recorded_compaction_operation_id s p.operation_id
      then err (corrupt (codes "duplicate compaction operation id"))
      else ok (record_compaction_operation_id s p.operation_id)
]

-- The streak that the writer stamped, or for an old journal the one that the reason tells.
unfoldable pub streak_after : ℕ → CompactionFailure → ℕ
streak_after streak p = elim p.resulting_low_gain_streak [
  | some n ↦ n
  | none ↦
      if is_low_gain_compaction_failure p
      then inc64 streak
      else if p.automatic && not (is_stale_compaction_failure p)
      then 0
      else streak
]

unfoldable pub note_failure : ThreadState → ThreadEvent → CompactionFailure → ThreadState
note_failure s event p = record s {
  low_gain_streak = streak_after s.low_gain_streak p;
  auto_compaction_paused = p.auto_paused;
  auto_compaction_pause_reason = p.auto_pause_reason;
  last_compaction = some (record {
    status = if p.cancelled then cancelled else failed;
    operation_id = p.operation_id;
    checkpoint_id = [];
    automatic = p.automatic;
    reason = p.reason;
    at = event.timestamp;
  });
}

unfoldable pub apply_trimmed_failure : ThreadState → ThreadEvent → CompactionFailure → S
apply_trimmed_failure s event p = do
  fail_if (not p.cancelled && is_empty p.reason)
      (corrupt (codes "compaction failure reason is required"))
  check_replayed_pause p.auto_paused p.auto_pause_reason
  fail_if (p.automatic && not p.auto_paused && not (allows_unpaused_automatic_compaction_failure p))
      (corrupt (codes "automatic compaction failure must pause"))
  closed ← close_for_failure s p
  ok (note_failure closed event p)

unfoldable pub apply_compaction_failed : ThreadState → ThreadEvent → CompactionFailure → S
unfolding apply_trimmed_failure
apply_compaction_failed s event payload = apply_trimmed_failure s event (trim_failure payload)

unfoldable pub reset_checkpoint : ThreadState → ThreadEvent → CheckpointSchemaReset → ThreadState
reset_checkpoint s event p = record s {
  active_checkpoint_id = [];
  low_gain_streak = 0;
  auto_compaction_paused = p.auto_paused;
  auto_compaction_pause_reason = p.auto_pause_reason;
  last_compaction = some (record {
    status = was_reset;
    operation_id = p.operation_id;
    checkpoint_id = p.checkpoint_id;
    automatic = false;
    reason = p.reason;
    at = event.timestamp;
  });
  meta = record s.meta { last_context = none };
}

unfoldable pub trim_reset : CheckpointSchemaReset → CheckpointSchemaReset
trim_reset p = record p {
  operation_id = trim_space p.operation_id;
  checkpoint_id = trim_space p.checkpoint_id;
  reason = trim_space p.reason;
  auto_pause_reason = trim_space p.auto_pause_reason;
}

unfoldable pub apply_checkpoint_reset : ThreadState → ThreadEvent → CheckpointSchemaReset → S
apply_checkpoint_reset s event payload = do
  let p = trim_reset payload
  fail_if (is_empty p.checkpoint_id || is_empty p.reason)
      (corrupt (codes "checkpoint reset id and reason are required"))
  fail_if (not (text_eq p.checkpoint_id s.active_checkpoint_id))
      (corrupt (codes "checkpoint reset target does not match active checkpoint"))
  check_replayed_pause p.auto_paused p.auto_pause_reason
  ok (reset_checkpoint s event p)
