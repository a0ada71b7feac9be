-- ===== src/Ledger/Lifecycle.antt =====
-- internal/store/thread_lifecycle.go: the turn and tool state machine, with the two payload checks
-- that it makes (thread_usage.go, thread_task_state.go).
use eino_local_assistant.Prelude.{
  Bool, true, false, ◌&&◌, ◌||◌, not, Option, none, some, List, [], ◌∷◌, if◌then◌else◌, all,
  is_some, Text, codes, text_eq, is_empty, Dict, lookup, insert, Result, ok, err, ◌>>=◌, ◌>>◌,
  fail_if, or_fail,
}
use eino_local_assistant.Ledger.Events.{
  EventKind, thread_created, turn_started, tool_started, tool_completed, turn_committed,
  turn_cancelled, turn_failed, title_changed, model_changed, thread_archived, thread_unarchived,
  usage_recorded, task_state_updated, compaction_started, compacted, compaction_failed,
  checkpoint_reset, other, LedgerError, invalid_lifecycle, TurnStart, ToolStarted, ToolCompleted,
  ModelUsage, ThreadEvent, Codec,
}
use eino_local_assistant.Ledger.Usage.{
  M, validate_task_state_update, compaction_operation, normalize_model_usage,
}

pub record LifecycleTool : Type 0 where
  pub name : Text
  pub started : Bool
  pub completed : Bool

pub record LifecycleTurn : Type 0 where
  pub started : Bool
  pub terminal : Option EventKind
  pub tools : Dict LifecycleTool

pub record LifecycleTracker : Type 0 where
  pub turns : Dict LifecycleTurn
  pub active_turn_id : Text

abbrev pub new_lifecycle_tracker : LifecycleTracker
new_lifecycle_tracker = record { turns = []; active_turn_id = [] }

abbrev pub lifecycle_error {ℓ} : {A : Type ℓ} → Text → Result LedgerError A
lifecycle_error message = err (invalid_lifecycle message)

-- A decoding error and a failed payload check become lifecycle errors.
abbrev pub decoded {ℓ} : {A : Type ℓ} → Option A → Result LedgerError A
decoded o = or_fail o (invalid_lifecycle (codes "decode"))

abbrev pub as_lifecycle {ℓ} : {A : Type ℓ} → Result LedgerError A → Text → Result LedgerError A
as_lifecycle (ok a) message = ok a
as_lifecycle (err e) message = lifecycle_error message

unfoldable pub open_turn : LifecycleTracker → ThreadEvent → Text → M LifecycleTurn
open_turn t event payload_turn_id = do
  fail_if (is_empty payload_turn_id || not (text_eq payload_turn_id event.turn_id))
      (invalid_lifecycle (codes "payload turn id does not match event"))
  turn ← or_fail (lookup event.turn_id t.turns) (invalid_lifecycle (codes "turn was not started"))
  fail_if (not turn.started) (invalid_lifecycle (codes "turn was not started"))
  fail_if (is_some turn.terminal) (invalid_lifecycle (codes "turn already ended"))
  fail_if (not (text_eq t.active_turn_id event.turn_id))
      (invalid_lifecycle (codes "turn is not active"))
  ok turn

unfoldable pub start_turn : LifecycleTracker → ThreadEvent → TurnStart → M LifecycleTracker
start_turn t event payload = do
  fail_if (is_empty payload.turn_id || not (text_eq payload.turn_id event.turn_id))
      (invalid_lifecycle (codes "turn start id does not match event"))
  fail_if (is_some (lookup event.turn_id t.turns))
      (invalid_lifecycle (codes "duplicate turn start"))
  fail_if (not (is_empty t.active_turn_id)) (invalid_lifecycle (codes "turn is still active"))
  ok (record {
    turns = insert event.turn_id (record { started = true; terminal = none; tools = [] }) t.turns;
    active_turn_id = event.turn_id;
  })

-- The tracker with a new entry for the event's turn.
abbrev pub with_turn : LifecycleTracker → ThreadEvent → LifecycleTurn → LifecycleTracker
with_turn t event turn = record t { turns = insert event.turn_id turn t.turns }

unfoldable pub start_tool : LifecycleTracker → ThreadEvent → ToolStarted → M LifecycleTracker
start_tool t event payload = do
  turn ← open_turn t event payload.turn_id
  fail_if (is_empty payload.tool_call_id) (invalid_lifecycle (codes "tool call id is required"))
  fail_if (is_some (lookup payload.tool_call_id turn.tools))
      (invalid_lifecycle (codes "duplicate tool start"))
  let tool : LifecycleTool = record { name = payload.tool_name; started = true; completed = false }
  ok (with_turn t event (record turn { tools = insert payload.tool_call_id tool turn.tools }))

unfoldable pub complete_tool : LifecycleTracker → ThreadEvent → ToolCompleted → M LifecycleTracker
complete_tool t event payload = do
  turn ← open_turn t event payload.turn_id
  tool ←
      or_fail (lookup payload.tool_call_id turn.tools)
        (invalid_lifecycle (codes "tool completion has no open start"))
  fail_if (is_empty payload.tool_call_id || not tool.started || tool.completed)
      (invalid_lifecycle (codes "tool completion has no open start"))
  fail_if
      (not (is_empty tool.name)
        && not (is_empty payload.tool_name)
        && not (text_eq tool.name payload.tool_name))
      (invalid_lifecycle (codes "tool completion name does not match start"))
  let tool' = record tool { completed = true }
  ok (with_turn t event (record turn { tools = insert payload.tool_call_id tool' turn.tools }))

abbrev pub all_completed : Dict LifecycleTool → Bool
all_completed = all (λ e. e.1.completed)

-- A terminal event ends the turn and gives up the ownership of the thread.
unfoldable pub end_turn : LifecycleTracker → ThreadEvent → LifecycleTurn → LifecycleTracker
end_turn t event turn = record {
  turns = insert event.turn_id (record turn { terminal = some event.kind }) t.turns;
  active_turn_id = [];
}

unfoldable pub commit_turn : LifecycleTracker → ThreadEvent → Text → M LifecycleTracker
commit_turn t event payload_turn_id = do
  turn ← open_turn t event payload_turn_id
  fail_if (not (all_completed turn.tools))
      (invalid_lifecycle (codes "turn committed with unfinished tool"))
  ok (end_turn t event turn)

unfoldable pub abandon_turn : LifecycleTracker → ThreadEvent → Text → M LifecycleTracker
abandon_turn t event payload_turn_id = do
  turn ← open_turn t event payload_turn_id
  ok (end_turn t event turn)

-- An event that must belong to the open turn and leaves the tracker as it is.
unfoldable pub within_turn : LifecycleTracker → ThreadEvent → Text → M LifecycleTracker
within_turn t event payload_turn_id = do turn ← open_turn t event payload_turn_id; ok t

unfoldable pub track_task_state : Codec → LifecycleTracker → ThreadEvent → Text → M LifecycleTracker
track_task_state codec t event snapshot = do
  as_lifecycle (validate_task_state_update codec snapshot) (codes "invalid task state update")
  if is_empty event.turn_id then ok t else within_turn t event event.turn_id

unfoldable pub track_usage :
    Codec → LifecycleTracker → ThreadEvent → ModelUsage → M LifecycleTracker
track_usage codec t event payload = do
  u ← as_lifecycle (normalize_model_usage codec payload) (codes "invalid usage record")
  fail_if (not (text_eq u.turn_id event.turn_id))
      (invalid_lifecycle (codes "usage turn id does not match event"))
  if text_eq u.operation compaction_operation && is_empty u.turn_id
      then ok t
      else within_turn t event u.turn_id

unfoldable pub apply_kind : Codec → EventKind → LifecycleTracker → ThreadEvent → M LifecycleTracker
apply_kind codec thread_created t event = ok t
apply_kind codec title_changed t event = ok t
apply_kind codec model_changed t event = ok t
apply_kind codec thread_archived t event = ok t
apply_kind codec thread_unarchived t event = ok t
apply_kind codec compaction_started t event = ok t
apply_kind codec compacted t event = ok t
apply_kind codec compaction_failed t event = ok t
apply_kind codec checkpoint_reset t event = ok t
apply_kind codec task_state_updated t event = do
  p ← decoded (codec.task_state event.payload)
  track_task_state codec t event p
apply_kind codec turn_started t event = do
  p ← decoded (codec.turn_start event.payload)
  start_turn t event p
apply_kind codec tool_started t event = do
  p ← decoded (codec.tool_started event.payload)
  start_tool t event p
apply_kind codec tool_completed t event = do
  p ← decoded (codec.tool_completed event.payload)
  complete_tool t event p
apply_kind codec turn_committed t event = do
  p ← decoded (codec.turn_commit event.payload)
  commit_turn t event p.turn_id
apply_kind codec turn_cancelled t event = do
  p ← decoded (codec.turn_cancel event.payload)
  abandon_turn t event p.turn_id
apply_kind codec turn_failed t event = do
  p ← decoded (codec.turn_failure event.payload)
  abandon_turn t event p.turn_id
apply_kind codec usage_recorded t event = do
  p ← decoded (codec.model_usage event.payload)
  track_usage codec t event p
apply_kind codec (other k) t event = lifecycle_error (codes "unknown lifecycle event kind")

unfoldable pub apply : Codec → LifecycleTracker → ThreadEvent → M LifecycleTracker
unfolding apply_kind
apply codec t event = apply_kind codec event.kind t event

unfoldable pub lifecycle_from_events :
    Codec → LifecycleTracker → List ThreadEvent → M LifecycleTracker
lifecycle_from_events codec t [] = ok t
lifecycle_from_events codec t (e ∷ es) = do t' ← apply codec t e; lifecycle_from_events codec t' es
