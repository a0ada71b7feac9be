-- ===== src/Ledger/Store.antt =====
-- The writing side of internal/store/thread.go and thread_compaction.go. A function is given the state
-- and the events that were loaded under the thread's lock, and gives the event that it appends with
-- the state after it. `raw` is the encoded payload, `id` the random event ID, `now` the clock.
use eino_local_assistant.Prelude.{
  ℕ, Bool, true, false, not, ◌&&◌, Option, none, some, List, [], ◌==◌, if◌then◌else◌, is_some, Text,
  codes, trim_space, is_empty, Result, ok, ◌>>=◌, ◌>>◌, fail_if,
}
use eino_local_assistant.Ledger.Events.{
  EventKind, turn_started, compaction_started, turn_failed, turn_cancelled, thread_archived,
  thread_unarchived, model_changed, LedgerError, revision_conflict, archived, already_archived,
  not_archived, active_turn, pending_compaction, refused, ThreadEvent, TurnFailure, Codec,
}
use eino_local_assistant.Ledger.Lifecycle.{
  LifecycleTracker, new_lifecycle_tracker, apply, lifecycle_from_events,
}
use eino_local_assistant.Ledger.State.{ThreadState}
use eino_local_assistant.Ledger.Apply.{apply_thread_event}
use eino_local_assistant.Ledger.Chain.{new_thread_event}

-- `err`: refused, and the journal is as it was. `ok`: the event that the journal now ends with, and the
-- state after it or the error of applying it.
abbrev pub Appended : Type 0
Appended = Result LedgerError (ThreadEvent × Result LedgerError ThreadState)

-- What one append takes from outside: the encoded payload, the random ID and the time.
pub record Entry : Type 0 where
  pub raw : Text
  pub id : Text
  pub now : ℕ

unfoldable pub check_expected_revision : ThreadState → ℕ → Result LedgerError (Unit {0})
check_expected_revision s expected = fail_if (not (expected == s.revision)) revision_conflict

unfoldable pub append_locked : Codec → ThreadState → ℕ → EventKind → Text → Entry → Appended
append_locked codec s expected kind turn_id x =
    let event = new_thread_event codec s kind s.id turn_id expected x.raw x.id x.now in
    ok (event, apply_thread_event codec s event)

-- The event that a lifecycle check looks at: only the kind, the turn and the payload are filled in.
abbrev pub probe : EventKind → Text → Text → ThreadEvent
probe kind turn_id raw = record {
  version = 0;
  sequence = 0;
  id = [];
  thread_id = [];
  timestamp = 0;
  kind = kind;
  turn_id = turn_id;
  correlation_id = [];
  expected_revision = 0;
  revision = 0;
  payload = raw;
  payload_hash = [];
  previous_hash = [];
  hash = [];
}

unfoldable pub validate_lifecycle_mutation :
    Codec → List ThreadEvent → EventKind → Text → Text → Result LedgerError LifecycleTracker
validate_lifecycle_mutation codec events kind turn_id raw = do
  t ← lifecycle_from_events codec new_lifecycle_tracker events
  apply codec t (probe kind turn_id raw)

abbrev pub starts_work : EventKind → Bool
starts_work turn_started = true
starts_work compaction_started = true
starts_work _ = false

unfoldable pub mutate :
    Codec → ThreadState → List ThreadEvent → ℕ → EventKind → Text → Entry → Appended
mutate codec s events expected kind turn_id x = do
  check_expected_revision s expected
  fail_if (starts_work kind && is_some s.meta.archived_at) archived
  _ ← validate_lifecycle_mutation codec events kind turn_id x.raw
  append_locked codec s expected kind turn_id x

-- An idle thread: no open turn, no pending compaction.
unfoldable pub check_idle : Codec → ThreadState → List ThreadEvent → Result LedgerError (Unit {0})
check_idle codec s events = do
  t ← lifecycle_from_events codec new_lifecycle_tracker events
  fail_if (not (is_empty t.active_turn_id)) active_turn
  fail_if (is_some s.pending_compaction) pending_compaction

unfoldable pub set_thread_archived :
    Codec → ThreadState → List ThreadEvent → ℕ → Bool → Entry → Appended
set_thread_archived codec s events expected to_archive x = do
  check_expected_revision s expected
  check_idle codec s events
  if to_archive
      then (do
        fail_if (is_some s.meta.archived_at) already_archived
        append_locked codec s expected thread_archived [] x)
      else (do
        fail_if (not (is_some s.meta.archived_at)) not_archived
        append_locked codec s expected thread_unarchived [] x)

-- The encoded payload is that of the model after `preserveEmptyModel` has been applied.
unfoldable pub set_thread_model_binding :
    Codec → ThreadState → List ThreadEvent → ℕ → Entry → Appended
set_thread_model_binding codec s events expected x = do
  check_expected_revision s expected
  check_idle codec s events
  append_locked codec s expected model_changed [] x

-- The failure that a recovery writes of the turn that was open.
unfoldable pub interruption : Text → Text → TurnFailure
interruption turn_id reason =
    let given = trim_space reason in
    record {
      turn_id = turn_id;
      error = if is_empty given then codes "interrupted before terminal turn event" else given;
    }

-- `none` says that no turn was open; otherwise the open turn is failed. `encode` is json.Marshal of
-- the failure.
unfoldable pub recover_interrupted_turn :
    Codec
    → (TurnFailure → Text)
    → ThreadState
    → List ThreadEvent
    → ℕ
    → Text
    → Text
    → ℕ
    → Result LedgerError (Option (ThreadEvent × Result LedgerError ThreadState))
unfolding interruption
recover_interrupted_turn codec encode s events expected reason id now = do
  check_expected_revision s expected
  t ← lifecycle_from_events codec new_lifecycle_tracker events
  let raw = encode (interruption t.active_turn_id reason)
  if is_empty t.active_turn_id then ok none else (do
    r ←
        append_locked codec s expected turn_failed t.active_turn_id
          (record { raw = raw; id = id; now = now })
    ok (some r))

-- FinishTurn closes the named turn at whatever revision the thread is.
unfoldable pub finish_turn :
    Codec → ThreadState → List ThreadEvent → Text → Bool → Text → Entry → Appended
finish_turn codec s events turn_id was_cancelled reason x = do
  let id = trim_space turn_id
  let kind = if was_cancelled then turn_cancelled else turn_failed
  fail_if (is_empty id) (refused (codes "turn id is required"))
  fail_if (not was_cancelled && is_empty (trim_space reason))
      (refused (codes "turn failure is required"))
  _ ← validate_lifecycle_mutation codec events kind id x.raw
  append_locked codec s s.revision kind id x
