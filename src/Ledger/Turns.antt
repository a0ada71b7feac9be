-- ===== src/Ledger/Turns.antt =====
-- The turn state machine behind the tracker: every accepted event is one move of it.
use eino_local_assistant.Prelude.{
  ◌≡◌, ◌≢◌, refl, true, false, none, some, [], ◌∷◌, arith, Text, text_eq_iff, is_empty, lookup,
  insert, Result, ok, or_fail, >>=-eq-ok,
}
use eino_local_assistant.Ledger.Events.{
  EventKind, thread_created, turn_started, tool_started, tool_completed, turn_committed,
  turn_cancelled, turn_failed, usage_recorded, task_state_updated, other, LedgerError, TurnStart,
  ToolStarted, ToolCompleted, ModelUsage, ThreadEvent, Codec,
}
use eino_local_assistant.Ledger.Lifecycle.{
  LifecycleTool, LifecycleTurn, LifecycleTracker, open_turn, start_turn, start_tool, complete_tool,
  all_completed, end_turn, commit_turn, abandon_turn, within_turn, track_task_state, track_usage,
  as_lifecycle, decoded, apply_kind, apply,
}
use eino_local_assistant.Ledger.Usage.{normalize_model_usage}

-- The turn is recorded under the name, has not ended and owns the thread.
pub record IsOpen (t : LifecycleTracker) (id : Text) (turn : LifecycleTurn) : Type 0 where
  pub recorded : lookup id t.turns ≡ some turn
  pub unended : turn.terminal ≡ none
  pub owner : t.active_turn_id ≡ id
  pub named : is_empty id ≡ false

abbrev pub fresh_turn : LifecycleTurn
fresh_turn = record { started = true; terminal = none; tools = [] }

-- The open turn with a new entry for a tool call.
abbrev pub with_tool :
    LifecycleTracker → Text → LifecycleTurn → Text → LifecycleTool → LifecycleTracker
with_tool t id turn k tool = record t {
  turns = insert id (record turn { tools = insert k tool turn.tools }) t.turns;
}

-- What an event may do: nothing, begin a new turn on an idle thread, call a new tool in the open
-- turn, complete a call that was not complete, or end the turn, as committed only with all its calls
-- completed.
pub data Move (t : LifecycleTracker) : LifecycleTracker → Type 0 where
  keep : Move t t
  begin :
      (id : Text)
      → is_empty id ≡ false
      → lookup id t.turns ≡ none
      → t.active_turn_id ≡ []
      → Move t (record { turns = insert id fresh_turn t.turns; active_turn_id = id })
  call :
      (id k name : Text) (turn : LifecycleTurn)
      → IsOpen t id turn
      → is_empty k ≡ false
      → lookup k turn.tools ≡ none
      → Move t (with_tool t id turn k (record { name = name; started = true; completed = false }))
  answer :
      (id k : Text) (turn : LifecycleTurn) (tool : LifecycleTool)
      → IsOpen t id turn
      → lookup k turn.tools ≡ some tool
      → tool.completed ≡ false
      → Move t (with_tool t id turn k (record tool { completed = true }))
  finish :
      (id : Text) (turn : LifecycleTurn) (kind : EventKind)
      → IsOpen t id turn
      → (kind ≡ turn_committed → all_completed turn.tools ≡ true)
      → Move t (record {
        turns = insert id (record turn { terminal = some kind }) t.turns;
        active_turn_id = [];
      })

is_empty→nil : (s : Text) → is_empty s ≡ true → s ≡ []
unfolding is_empty
is_empty→nil [] h = refl
is_empty→nil (c ∷ cs) h = cc

pub ok-injective :
    (t t' : LifecycleTracker)
    → ◌≡◌ {A = Result LedgerError LifecycleTracker} (ok t) (ok t')
    → t ≡ t'
ok-injective t t' h = cc

open_turn-IsOpen :
    (t : LifecycleTracker) (e : ThreadEvent) (p : Text) (turn : LifecycleTurn)
    → open_turn t e p ≡ ok turn
    → IsOpen t e.turn_id turn
unfolding open_turn
open_turn-IsOpen t e p turn h =
    ground (arith, text_eq_iff p e.turn_id, text_eq_iff t.active_turn_id e.turn_id)

-- What an accepted start has checked, and what it writes.
start_turn-eq-ok :
    (t t' : LifecycleTracker) (e : ThreadEvent) (p : TurnStart)
    → start_turn t e p ≡ ok t'
    → (is_empty e.turn_id ≡ false)
      × (lookup e.turn_id t.turns ≡ none)
      × (is_empty t.active_turn_id ≡ true)
      × (t' ≡ record { turns = insert e.turn_id fresh_turn t.turns; active_turn_id = e.turn_id })
unfolding start_turn
start_turn-eq-ok t t' e p h = ground (arith, text_eq_iff p.turn_id e.turn_id)

start_turn-Move :
    (t t' : LifecycleTracker) (e : ThreadEvent) (p : TurnStart)
    → start_turn t e p ≡ ok t'
    → Move t t'
start_turn-Move t t' e p h =
    let (named, fresh, idle, eq) = start_turn-eq-ok t t' e p h in
    rw eq (begin e.turn_id named fresh (is_empty→nil t.active_turn_id idle))

-- What an accepted tool start has checked after it found the turn, and what it writes.
start_tool-eq-ok :
    (t t' : LifecycleTracker) (e : ThreadEvent) (p : ToolStarted)
    → start_tool t e p ≡ ok t'
    → (turn : LifecycleTurn) × (open_turn t e p.turn_id ≡ ok turn)
      × (is_empty p.tool_call_id ≡ false)
      × (lookup p.tool_call_id turn.tools ≡ none)
      × (t'
          ≡ with_tool t e.turn_id turn p.tool_call_id
              (record { name = p.tool_name; started = true; completed = false }))
unfolding start_tool
start_tool-eq-ok t t' e p h =
    let (turn, opened, rest) = >>=-eq-ok (open_turn t e p.turn_id) _ h in
    (turn, opened, ground arith, ground arith, ground arith)

start_tool-Move :
    (t t' : LifecycleTracker) (e : ThreadEvent) (p : ToolStarted)
    → start_tool t e p ≡ ok t'
    → Move t t'
start_tool-Move t t' e p h =
    let (turn, opened, named, fresh, eq) = start_tool-eq-ok t t' e p h in
    rw eq (
      call e.turn_id p.tool_call_id p.tool_name turn (open_turn-IsOpen t e p.turn_id turn opened)
        named fresh)

complete_tool-eq-ok :
    (t t' : LifecycleTracker) (e : ThreadEvent) (p : ToolCompleted)
    → complete_tool t e p ≡ ok t'
    → (turn : LifecycleTurn) × (tool : LifecycleTool) × (open_turn t e p.turn_id ≡ ok turn)
      × (lookup p.tool_call_id turn.tools ≡ some tool)
      × (tool.completed ≡ false)
      × (t' ≡ with_tool t e.turn_id turn p.tool_call_id (record tool { completed = true }))
unfolding complete_tool
complete_tool-eq-ok t t' e p h =
    let (turn, opened, rest) = >>=-eq-ok (open_turn t e p.turn_id) _ h in
    let (tool, found, checked) = >>=-eq-ok (or_fail (lookup p.tool_call_id turn.tools) _) _ rest in
    (turn, tool, opened, ground arith, ground arith, ground arith)

complete_tool-Move :
    (t t' : LifecycleTracker) (e : ThreadEvent) (p : ToolCompleted)
    → complete_tool t e p ≡ ok t'
    → Move t t'
complete_tool-Move t t' e p h =
    let (turn, tool, opened, found, unfinished, eq) = complete_tool-eq-ok t t' e p h in
    rw eq (
      answer e.turn_id p.tool_call_id turn tool (open_turn-IsOpen t e p.turn_id turn opened) found
        unfinished)

commit_turn-Move :
    (t t' : LifecycleTracker) (e : ThreadEvent) (p : Text) → commit_turn t e p ≡ ok t' → Move t t'
unfolding commit_turn end_turn
commit_turn-Move t t' e p h =
    let (turn, opened, rest) = >>=-eq-ok (open_turn t e p) _ h in
    let done : all_completed turn.tools ≡ true = ground arith in
    let eq : t' ≡ end_turn t e turn = ground arith in
    rw eq (finish e.turn_id turn e.kind (open_turn-IsOpen t e p turn opened) (λ _. done))

abandon_turn-Move :
    (t t' : LifecycleTracker) (e : ThreadEvent) (p : Text)
    → e.kind ≢ turn_committed
    → abandon_turn t e p ≡ ok t'
    → Move t t'
unfolding abandon_turn end_turn
abandon_turn-Move t t' e p other_kind h =
    let (turn, opened, rest) = >>=-eq-ok (open_turn t e p) _ h in
    let eq : t' ≡ end_turn t e turn = ground arith in
    rw eq (
      finish e.turn_id turn e.kind (open_turn-IsOpen t e p turn opened)
        (λ c. absurd (other_kind c)))

within_turn-eq-ok :
    (t t' : LifecycleTracker) (e : ThreadEvent) (p : Text) → within_turn t e p ≡ ok t' → t' ≡ t
unfolding within_turn
within_turn-eq-ok t t' e p h =
    let (turn, opened, rest) = >>=-eq-ok (open_turn t e p) _ h in ground arith

track_task_state-eq-ok :
    (codec : Codec) (t t' : LifecycleTracker) (e : ThreadEvent) (p : Text)
    → track_task_state codec t e p ≡ ok t'
    → t' ≡ t
unfolding track_task_state
track_task_state-eq-ok codec t t' e p h = ground (arith, within_turn-eq-ok t t' e e.turn_id)

track_usage-eq-ok :
    (codec : Codec) (t t' : LifecycleTracker) (e : ThreadEvent) (p : ModelUsage)
    → track_usage codec t e p ≡ ok t'
    → t' ≡ t
unfolding track_usage
track_usage-eq-ok codec t t' e p h =
    let (u, normal, rest) = >>=-eq-ok (as_lifecycle (normalize_model_usage codec p) _) _ h in
    ground (arith, within_turn-eq-ok t t' e u.turn_id)

-- What an accepted event does follows from its kind.
apply_kind-Move :
    (codec : Codec) (k : EventKind) (t t' : LifecycleTracker) (e : ThreadEvent)
    → e.kind ≡ k
    → apply_kind codec k t e ≡ ok t'
    → Move t t'
unfolding apply_kind
apply_kind-Move codec thread_created t t' e ek h = rw (← (ok-injective t t' h)) keep
apply_kind-Move codec turn_started t t' e ek h =
    let (p, _, r) = >>=-eq-ok (decoded (codec.turn_start e.payload)) _ h in
    start_turn-Move t t' e p r
apply_kind-Move codec tool_started t t' e ek h =
    let (p, _, r) = >>=-eq-ok (decoded (codec.tool_started e.payload)) _ h in
    start_tool-Move t t' e p r
apply_kind-Move codec tool_completed t t' e ek h =
    let (p, _, r) = >>=-eq-ok (decoded (codec.tool_completed e.payload)) _ h in
    complete_tool-Move t t' e p r
apply_kind-Move codec turn_committed t t' e ek h =
    let (p, _, r) = >>=-eq-ok (decoded (codec.turn_commit e.payload)) _ h in
    commit_turn-Move t t' e p.turn_id r
apply_kind-Move codec turn_cancelled t t' e ek h =
    let (p, _, r) = >>=-eq-ok (decoded (codec.turn_cancel e.payload)) _ h in
    abandon_turn-Move t t' e p.turn_id (λ c. cc) r
apply_kind-Move codec turn_failed t t' e ek h =
    let (p, _, r) = >>=-eq-ok (decoded (codec.turn_failure e.payload)) _ h in
    abandon_turn-Move t t' e p.turn_id (λ c. cc) r
apply_kind-Move codec usage_recorded t t' e ek h =
    let (p, _, r) = >>=-eq-ok (decoded (codec.model_usage e.payload)) _ h in
    rw (track_usage-eq-ok codec t t' e p r) keep
apply_kind-Move codec task_state_updated t t' e ek h =
    let (p, _, r) = >>=-eq-ok (decoded (codec.task_state e.payload)) _ h in
    rw (track_task_state-eq-ok codec t t' e p r) keep
apply_kind-Move codec (other k) t t' e ek h = absurd (cc)
apply_kind-Move codec _ t t' e ek h = rw (← (ok-injective t t' h)) keep

-- Each event that the tracker accepts leaves it as it is, begins a new turn on an idle thread, calls a
-- new tool or completes an uncompleted one in the open turn, or ends that turn, as committed only
-- when all its tools are completed.
pub apply-Move :
    (codec : Codec) (t t' : LifecycleTracker) (e : ThreadEvent)
    → apply codec t e ≡ ok t'
    → Move t t'
unfolding apply
apply-Move codec t t' e h = apply_kind-Move codec e.kind t t' e refl h
