-- ===== src/Ledger/Examples.antt =====
-- The theorems on the ledger at concrete inputs.
use eino_local_assistant.Prelude.{
  ◌≡◌, refl, true, false, none, some, List, [], ◌∷◌, ◌++◌, arith, codes, text_eq, is_empty,
  trim_space, lookup, insert, add_int, Text, ok, err, is_some, ◌↔◌,
}
use eino_local_assistant.Ledger.Events.{
  EventKind, turn_started, tool_started, tool_completed, turn_committed, usage_recorded,
  title_changed, ThreadEvent,
}
use eino_local_assistant.Ledger.Lifecycle.{
  LifecycleTurn, LifecycleTracker, new_lifecycle_tracker, apply, apply_kind, lifecycle_from_events,
  open_turn, start_turn, start_tool, complete_tool, commit_turn, end_turn, track_usage, within_turn,
}
use eino_local_assistant.Ledger.Usage.{normalize_model_usage, check_usage, settle_usage, trim_usage}
use eino_local_assistant.Ledger.State.{ThreadState, valid_usage_status, clear_usage_projection}
use eino_local_assistant.Ledger.Turns.{Move, apply-Move}
use eino_local_assistant.Ledger.Ownership.{
  IsOwned, lifecycle_from_events-IsOwned, ended_turn_immutable,
}
use eino_local_assistant.Ledger.Accounting.{
  apply_usage_recorded, record_usage, add_usage, check_operation, same_usage,
}
use eino_local_assistant.Ledger.Apply.{
  apply_thread_event, apply_event_kind, advance, apply_thread_created, created_meta,
  validate_system_prompt_ref,
}
use eino_local_assistant.Ledger.Chain.{
  new_thread_event, thread_event_hash, replay, replay_events, validate_thread_event,
}
use eino_local_assistant.Ledger.Store.{
  recover_interrupted_turn, set_thread_archived, mutate, append_locked, probe,
  validate_lifecycle_mutation, check_expected_revision,
}
use eino_local_assistant.Ledger.Head.{HeadAt, replay-HeadAt}
use eino_local_assistant.Ledger.Metering.{usage_counted_once}
use eino_local_assistant.Ledger.Recovery.{recover_interrupted_turn_idle}
use eino_local_assistant.Ledger.Idle.{IsIdle, accepted, set_thread_archived_iff}
use eino_local_assistant.Ledger.Reload.{mutate-replay}
use eino_local_assistant.Ledger.Samples.{
  encode_failure, failing_codec, decode_failure-encode_failure, agent_usage, plain, entry, creation,
  made,
}

abbrev of_kind : EventKind → ThreadEvent
of_kind kind = probe kind (codes "t1") (codes "x")

abbrev whole_turn : List ThreadEvent
whole_turn =
    of_kind turn_started
    ∷ of_kind tool_started
    ∷ of_kind usage_recorded
    ∷ of_kind tool_completed
    ∷ of_kind turn_committed
    ∷ []

abbrev ended_turn : LifecycleTurn
ended_turn = record {
  started = true;
  terminal = some turn_committed;
  tools = (codes "k", record { name = codes "read"; started = true; completed = true }) ∷ [];
}

abbrev after_turn : LifecycleTracker
after_turn = record { turns = (codes "t1", ended_turn) ∷ []; active_turn_id = [] }

lifecycle_from_events-IsOwned_example : IsOwned after_turn
unfolding lifecycle_from_events apply apply_kind open_turn start_turn start_tool complete_tool
    commit_turn end_turn track_usage within_turn normalize_model_usage check_usage settle_usage
    trim_usage text_eq is_empty lookup insert trim_space
lifecycle_from_events-IsOwned_example =
    lifecycle_from_events-IsOwned plain after_turn whole_turn refl

abbrev started : LifecycleTracker
started = record {
  turns = (codes "t1", record { started = true; terminal = none; tools = [] }) ∷ [];
  active_turn_id = codes "t1";
}

abbrev after_empty : LifecycleTracker
after_empty = record {
  turns = (codes "t1", record { started = true; terminal = some turn_committed; tools = [] }) ∷ [];
  active_turn_id = [];
}

apply-Move_example : Move started after_empty
unfolding apply apply_kind open_turn commit_turn end_turn text_eq is_empty lookup insert
apply-Move_example = apply-Move plain started after_empty (of_kind turn_committed) refl

ended_turn_immutable_example : lookup (codes "t1") after_turn.turns ≡ some ended_turn
unfolding lifecycle_from_events apply apply_kind
ended_turn_immutable_example =
    ended_turn_immutable plain after_turn after_turn (of_kind title_changed ∷ []) (codes "t1")
      ended_turn turn_committed refl (unfold lookup text_eq in refl) refl

replay-creation : replay plain (codes "s") (creation ∷ []) ≡ ok (made, new_lifecycle_tracker)
unfolding replay replay_events validate_thread_event new_thread_event thread_event_hash apply
    apply_kind apply_thread_event apply_event_kind apply_thread_created validate_system_prompt_ref
    created_meta valid_usage_status clear_usage_projection advance text_eq is_empty
replay-creation = refl

abbrev appended : ThreadEvent × ThreadState
appended = elim (mutate plain made (creation ∷ []) 1 turn_started (codes "t1") entry) [
  | ok (e, ok s) ↦ (e, s)
  | _ ↦ (creation, made)
]

mutate_start :
    mutate plain made (creation ∷ []) 1 turn_started (codes "t1") entry
    ≡ ok (appended.0, ok appended.1)
unfolding mutate append_locked check_expected_revision validate_lifecycle_mutation
    lifecycle_from_events new_thread_event thread_event_hash apply apply_kind start_turn
    apply_thread_event apply_event_kind apply_thread_created validate_system_prompt_ref created_meta
    valid_usage_status clear_usage_projection advance text_eq is_empty lookup insert
mutate_start = refl

replay-HeadAt_example : HeadAt 1 made
replay-HeadAt_example =
    replay-HeadAt plain (codes "s") (creation ∷ []) made new_lifecycle_tracker (omega arith)
      replay-creation

mutate-replay_example :
    (t' : LifecycleTracker) × (replay plain (codes "s") (creation ∷ appended.0 ∷ [])
      ≡ ok (appended.1, t'))
mutate-replay_example =
    mutate-replay plain (codes "s") (creation ∷ []) made appended.1 new_lifecycle_tracker
      turn_started (codes "t1") 1 entry appended.0 replay-creation (omega arith) refl refl
      (unfold is_empty in refl) (unfold is_empty in refl) mutate_start

abbrev open_journal : List ThreadEvent
open_journal = creation ∷ appended.0 ∷ []

open_journal_tracked :
    lifecycle_from_events failing_codec new_lifecycle_tracker open_journal ≡ ok started
unfolding lifecycle_from_events apply apply_kind start_turn mutate append_locked
    check_expected_revision validate_lifecycle_mutation new_thread_event text_eq is_empty lookup
    insert apply_thread_event apply_event_kind apply_thread_created validate_system_prompt_ref
    created_meta valid_usage_status clear_usage_projection advance
open_journal_tracked = refl

recover_interrupted_turn_idle_example :
    (e : ThreadEvent) × (s' : ThreadState) × (t' : LifecycleTracker) × (recover_interrupted_turn
        failing_codec encode_failure appended.1 open_journal appended.1.revision
        (codes " ")
        (codes "r")
        8
      ≡ ok (some (e, ok s')))
    × (lifecycle_from_events failing_codec new_lifecycle_tracker (open_journal ++ e ∷ []) ≡ ok t')
    × (t'.active_turn_id ≡ [])
recover_interrupted_turn_idle_example =
    recover_interrupted_turn_idle failing_codec encode_failure appended.1 open_journal started
      (codes " ") (codes "r") 8 open_journal_tracked (unfold is_empty in refl)
      decode_failure-encode_failure

-- A usage event, a change of the title, and the usage event again.
abbrev next_event : ThreadState → EventKind → Text → ThreadEvent
next_event s kind turn_id =
    new_thread_event plain s kind s.id turn_id s.revision (codes "x") (codes "e") 9

abbrev after : ThreadState → ThreadEvent → ThreadState
after s e = elim (apply_thread_event plain s e) [ ok r ↦ r | err _ ↦ s ]

abbrev first_usage : ThreadEvent
first_usage = next_event appended.1 usage_recorded (codes "t1")

abbrev metered : ThreadState
metered = after appended.1 first_usage

abbrev renaming : ThreadEvent
renaming = next_event metered title_changed []

abbrev renamed : ThreadState
renamed = after metered renaming

abbrev second_usage : ThreadEvent
second_usage = next_event renamed usage_recorded (codes "t1")

metered_replay :
    replay_events plain appended.1 started (first_usage ∷ renaming ∷ []) ≡ ok (renamed, started)
unfolding replay_events validate_thread_event thread_event_hash apply apply_kind track_usage
    within_turn apply_usage_recorded normalize_model_usage check_usage settle_usage trim_usage
    record_usage check_operation add_usage text_eq is_empty lookup insert trim_space mutate
    append_locked check_expected_revision validate_lifecycle_mutation lifecycle_from_events
    start_turn open_turn apply_thread_event apply_event_kind apply_thread_created
    validate_system_prompt_ref created_meta valid_usage_status clear_usage_projection advance
    new_thread_event
metered_replay = refl

second_usage_applies :
    apply_thread_event plain renamed second_usage ≡ ok (after renamed second_usage)
unfolding apply_usage_recorded normalize_model_usage check_usage settle_usage trim_usage
    record_usage check_operation add_usage same_usage text_eq is_empty lookup insert trim_space
    mutate append_locked check_expected_revision validate_lifecycle_mutation lifecycle_from_events
    start_turn open_turn apply apply_kind apply_thread_event apply_event_kind apply_thread_created
    validate_system_prompt_ref created_meta valid_usage_status clear_usage_projection advance
    new_thread_event add_int
second_usage_applies = refl

usage_counted_once_example : after renamed second_usage ≡ advance renamed second_usage
unfolding new_thread_event
usage_counted_once_example =
    usage_counted_once plain appended.1 renamed (after renamed second_usage) started started
      first_usage second_usage (renaming ∷ []) agent_usage agent_usage (refl, refl) (refl, refl)
      refl metered_replay second_usage_applies

creation_tracked :
    lifecycle_from_events plain new_lifecycle_tracker (creation ∷ []) ≡ ok new_lifecycle_tracker
unfolding lifecycle_from_events apply apply_kind new_thread_event
creation_tracked = refl

set_thread_archived_iff_example :
    (accepted (set_thread_archived plain made (creation ∷ []) 1 true entry) ≡ true)
    ↔ (IsIdle made new_lifecycle_tracker 1 × (is_some made.meta.archived_at ≡ false))
set_thread_archived_iff_example =
    set_thread_archived_iff plain made (creation ∷ []) new_lifecycle_tracker 1 entry
      creation_tracked true
