-- ===== src/Ledger/Chain.antt =====
-- internal/store/thread_journal.go: the hash chain, and the replay of a journal.
use eino_local_assistant.Prelude.{
  ℕ, ◌-◌, Bool, true, false, not, ◌&&◌, ◌||◌, none, List, [], ◌∷◌, ◌++◌, ltb, ◌==◌, if◌then◌else◌,
  inc64, Text, codes, text_eq, is_empty, Result, ok, err, ◌>>=◌, ◌>>◌, fail_if, pos,
}
use eino_local_assistant.Ledger.Events.{
  EventKind, thread_created, other, blank, LedgerError, ThreadEvent, ThreadMeta, Codec,
}
use eino_local_assistant.Ledger.Lifecycle.{LifecycleTracker, new_lifecycle_tracker, apply}
use eino_local_assistant.Ledger.State.{ThreadState, corrupt, session_journal_format_version}
use eino_local_assistant.Ledger.Apply.{apply_thread_event}

-- strings.Join of the fields, each but the last followed by a line feed.
unfoldable pub thread_event_hash : Codec → ThreadEvent → Text
thread_event_hash codec e = codec.sha256_hex (
    codec.print_number e.version
    ++ 10
      ∷ (codec.print_number e.sequence
          ++ 10
            ∷ (e.id
                ++ 10
                  ∷ (e.thread_id
                      ++ 10
                        ∷ (codec.print_time e.timestamp
                            ++ 10
                              ∷ (codec.print_kind e.kind
                                  ++ 10
                                    ∷ (e.turn_id
                                        ++ 10
                                          ∷ (e.correlation_id
                                              ++ 10
                                                ∷ (codec.print_number e.expected_revision
                                                    ++ 10
                                                      ∷ (codec.print_number e.revision
                                                          ++ 10
                                                            ∷ (e.payload_hash
                                                            ++ 10 ∷ e.previous_hash)))))))))))

-- `raw` is the encoded payload, `id` the random event ID, `now` the clock.
unfoldable pub new_thread_event :
    Codec → ThreadState → EventKind → Text → Text → ℕ → Text → Text → ℕ → ThreadEvent
new_thread_event codec s kind thread_id turn_id expected_revision raw id now =
    let event : ThreadEvent = record {
      version = session_journal_format_version;
      sequence = inc64 s.head_sequence;
      id = id;
      thread_id = thread_id;
      timestamp = now;
      kind = kind;
      turn_id = turn_id;
      correlation_id = turn_id;
      expected_revision = expected_revision;
      revision = inc64 s.revision;
      payload = raw;
      payload_hash = codec.sha256_hex raw;
      previous_hash = s.last_hash;
      hash = [];
    } in
    record event { hash = thread_event_hash codec event }

abbrev pub is_created : EventKind → Bool
is_created thread_created = true
is_created _ = false

abbrev pub is_blank_kind : EventKind → Bool
is_blank_kind (other k) = is_empty k
is_blank_kind _ = false

unfoldable pub validate_thread_event :
    Codec → ThreadEvent → ThreadState → Result LedgerError (Unit {0})
validate_thread_event codec e s = do
  fail_if (not (e.version == session_journal_format_version))
      (corrupt (codes "unsupported event version"))
  fail_if (not (e.sequence == inc64 s.head_sequence)) (corrupt (codes "sequence"))
  fail_if (e.sequence == 1 && not (is_created e.kind))
      (corrupt (codes "first event must be thread.created"))
  fail_if (ltb 1 e.sequence && is_created e.kind) (corrupt (codes "duplicate thread.created"))
  fail_if (not (e.revision == inc64 s.revision) || not (e.revision == e.sequence))
      (corrupt (codes "revision"))
  fail_if (not (e.expected_revision == s.revision)) (corrupt (codes "expected revision"))
  fail_if (is_empty e.thread_id || (not (is_empty s.id) && not (text_eq e.thread_id s.id)))
      (corrupt (codes "invalid thread id"))
  fail_if (is_empty e.id || is_blank_kind e.kind || is_empty e.payload)
      (corrupt (codes "incomplete event"))
  fail_if (not (text_eq (codec.sha256_hex e.payload) e.payload_hash))
      (corrupt (codes "payload hash mismatch"))
  fail_if (not (text_eq e.previous_hash s.last_hash)) (corrupt (codes "previous hash mismatch"))
  fail_if (not (text_eq e.hash (thread_event_hash codec e))) (corrupt (codes "event hash mismatch"))

-- The fields that a journal line leaves out are derived from those that it has.
unfoldable pub derive_envelope : Codec → Text → ThreadEvent → ThreadEvent
derive_envelope codec thread_id e =
    let numbered =
      if e.sequence == 0
      then e
      else record e { revision = e.sequence; expected_revision = e.sequence - 1 } in
    record numbered {
      thread_id = thread_id;
      correlation_id = e.turn_id;
      payload_hash = codec.sha256_hex e.payload;
    }

abbrev pub blank_meta : ThreadMeta
blank_meta = record {
  id = [];
  title = [];
  created_at = 0;
  updated_at = 0;
  model = [];
  reasoning_effort = [];
  message_count = pos 0;
  parent_id = [];
  fork_boundary_turn_id = [];
  fork_source_hash = [];
  archived_at = none;
  prompt_tokens = pos 0;
  completion_tokens = pos 0;
  total_tokens = pos 0;
  cached_tokens = pos 0;
  reasoning_tokens = pos 0;
  model_call_count = pos 0;
  cost_usd = 0;
  usage_status = blank;
  last_context = none;
}

-- The state before the first event of a thread.
abbrev pub blank_state : Text → ThreadState
blank_state id = record {
  format_version = session_journal_format_version;
  id = id;
  revision = 0;
  head_sequence = 0;
  last_hash = [];
  active_checkpoint_id = [];
  system_prompt = [];
  auto_compaction_paused = false;
  auto_compaction_pause_reason = [];
  low_gain_streak = 0;
  pending_compaction = none;
  last_compaction = none;
  task_state = [];
  created_at = 0;
  updated_at = 0;
  meta = blank_meta;
  recorded_usage = [];
  recorded_checkpoint_ids = [];
  recorded_compaction_operation_ids = [];
}

-- The loop over the decoded events: each must continue the chain, obey the turn state machine and
-- fit the state.
unfoldable pub replay_events :
    Codec
    → ThreadState
    → LifecycleTracker
    → List ThreadEvent
    → Result LedgerError (ThreadState × LifecycleTracker)
replay_events codec s t [] = ok (s, t)
replay_events codec s t (e ∷ es) = do
  validate_thread_event codec e s
  t' ← apply codec t e
  s' ← apply_thread_event codec s e
  replay_events codec s' t' es

-- Replay of a decoded journal; a journal with no event is corrupt.
unfoldable pub replay :
    Codec → Text → List ThreadEvent → Result LedgerError (ThreadState × LifecycleTracker)
replay codec id [] = err (corrupt (codes "thread has no creation event"))
replay codec id (e ∷ es) = replay_events codec (blank_state id) new_lifecycle_tracker (e ∷ es)
