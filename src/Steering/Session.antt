-- ===== src/Steering/Session.antt =====
-- internal/chat/steer.go, the session's side, and internal/agent/steer.go, the model's side. Mailboxes
-- are shared by pointer between the turn, the session and the model, so they stand in a store and a
-- pointer is an index of it.
use eino_local_assistant.Prelude.{
  ℕ, Bool, true, false, not, ◌&&◌, Option, none, some, List, [], ◌∷◌, ◌++◌, map, if◌then◌else◌,
  is_some, get_elem?, set, Text, text_eq, trim_space, is_empty, Dict, lookup, insert, Result, err,
}
use eino_local_assistant.Steering.Mailbox.{
  Reading, SteerError, empty_input, context_ended, no_active_turn, steer_turn_mismatch,
  steer_unsupported, turn_not_steerable, TurnSteerInput, TurnSteerMailbox, new_turn_steer_mailbox,
  enqueue, take_turn_steers, close, discard,
}

pub record ActiveTurnSteer : Type 0 where
  pub id : Text
  pub mailbox : Option ℕ
  pub supported : Bool
  pub accepting : Bool

-- The session's active turn, the model's registry from turn IDs to mailboxes, and the store.
pub record World : Type 0 where
  pub active_steer_turn : Option ActiveTurnSteer
  pub registry : Dict ℕ
  pub mailboxes : List TurnSteerMailbox

-- A pointer always points into the store; an index outside of it would be an empty mailbox.
unfoldable pub mailbox_at : World → ℕ → TurnSteerMailbox
mailbox_at w i = elim (get_elem? w.mailboxes i) [ none ↦ new_turn_steer_mailbox | some m ↦ m ]

unfoldable pub put_mailbox : World → ℕ → TurnSteerMailbox → World
put_mailbox w i m = record w { mailboxes = set w.mailboxes i m }

unfoldable pub active_turn_id : World → Text × Bool
active_turn_id w = elim w.active_steer_turn [
  | none ↦ ([], false)
  | some a ↦ if is_empty a.id then ([], false) else (a.id, a.supported && a.accepting)
]

-- What `ctx.Err()` gives on entry, in `enqueue` before and under the lock; `turn` is that of the
-- context of the active turn.
pub record Readings : Type 0 where
  pub on_entry : Reading
  pub before : Reading
  pub under : Reading
  pub turn : Reading

abbrev pub Steered : Type 0
Steered = World × Result SteerError TurnSteerInput

unfoldable pub stop_accepting : World → ActiveTurnSteer → World
stop_accepting w a = record w { active_steer_turn = some (record a { accepting = false }) }

unfoldable pub admit_steer : World → Readings → Text → ℕ → Steered
admit_steer w r input i =
    let (m, result) = enqueue r.before r.under (mailbox_at w i) input in (put_mailbox w i m, result)

unfoldable pub steer_active : World → Readings → Text → ActiveTurnSteer → ℕ → Steered
unfolding admit_steer stop_accepting
steer_active w r input a i =
    if is_some r.turn
    then (put_mailbox (stop_accepting w a) i (close (mailbox_at w i)).0, err turn_not_steerable)
    else if not a.supported
    then (w, err steer_unsupported)
    else admit_steer w r input i

unfoldable pub steer_mailbox : World → Readings → Text → ActiveTurnSteer → Option ℕ → Steered
unfolding steer_active
steer_mailbox w r input a none = (w, err turn_not_steerable)
steer_mailbox w r input a (some i) =
    if not a.accepting then (w, err turn_not_steerable) else steer_active w r input a i

unfoldable pub steer_found : World → Readings → Text → Text → Option ActiveTurnSteer → Steered
unfolding steer_mailbox
steer_found w r expected input none = (w, err no_active_turn)
steer_found w r expected input (some a) =
    if is_empty a.id
    then (w, err no_active_turn)
    else if not (text_eq a.id expected)
    then (w, err steer_turn_mismatch)
    else steer_mailbox w r input a a.mailbox

unfoldable pub unless_ended_on_entry : Reading → World → Steered → Steered
unless_ended_on_entry none w go = go
unless_ended_on_entry (some e) w go = (w, err (context_ended e))

-- The receipt is the accepted input: its sequence and its content.
unfoldable pub steer_with_receipt : World → Readings → Text → Text → Steered
unfolding steer_found unless_ended_on_entry
steer_with_receipt w r expected_turn_id input =
    if is_empty (trim_space input)
    then (w, err empty_input)
    else if is_empty (trim_space expected_turn_id)
    then (w, err steer_turn_mismatch)
    else unless_ended_on_entry r.on_entry w
        (steer_found w r (trim_space expected_turn_id) input w.active_steer_turn)

unfoldable pub activate_steer_turn : World → Text → ℕ → Bool → World
activate_steer_turn w turn_id i supported = record w {
  active_steer_turn = some (record {
    id = trim_space turn_id;
    mailbox = some i;
    supported = supported;
    accepting = true;
  });
}

unfoldable pub is_active : World → Text → Bool
is_active w turn_id = elim w.active_steer_turn [
  | none ↦ false
  | some a ↦ text_eq a.id (trim_space turn_id)
]

unfoldable pub stop_found : World → Text → Option ActiveTurnSteer → World
unfolding stop_accepting
stop_found w turn_id none = w
stop_found w turn_id (some a) = if text_eq a.id (trim_space turn_id) then stop_accepting w a else w

unfoldable pub stop_steer_turn : World → Text → World
unfolding stop_found
stop_steer_turn w turn_id = stop_found w turn_id w.active_steer_turn

unfoldable pub clear_steer_turn : World → Text → World
unfolding is_active
clear_steer_turn w turn_id =
    if is_active w turn_id then record w { active_steer_turn = none } else w

unfoldable pub steer_messages :
    {Message : Type 0} → (Text → Message) → List TurnSteerInput → List Message
steer_messages user_message inputs = map (λ x. user_message x.content) inputs

-- The registry of the model; `remove` is Go's `delete`.
unfoldable pub remove : {V : Type 0} → Text → Dict V → Dict V
remove k [] = []
remove k ((j, v) ∷ d) = let rest = remove k d in if text_eq j k then rest else (j, v) ∷ rest

pub data RegisterError : Type 0 where
  turn_id_required : RegisterError
  already_registered : Text → RegisterError

unfoldable pub register : World → Text → ℕ → World × Option RegisterError
register w turn_id i =
    let id = trim_space turn_id in
    if is_empty id
    then (w, some turn_id_required)
    else if is_some (lookup id w.registry)
    then (w, some (already_registered id))
    else (record w { registry = insert id i w.registry }, none)

unfoldable pub unregister : World → Text → World
unfolding remove
unregister w turn_id = record w { registry = remove (trim_space turn_id) w.registry }

unfoldable pub deliver :
    {Message : Type 0} → (Text → Message) → World → List Message → Option ℕ → World × List Message
unfolding steer_messages
deliver user_message w messages none = (w, messages)
deliver user_message w messages (some i) =
    let (m, inputs, _) = take_turn_steers (mailbox_at w i) in
    (put_mailbox w i m, messages ++ steer_messages user_message inputs)

-- `turn_id` is the one that the context carries, if any.
unfoldable pub rewrite :
    {Message : Type 0}
    → (Text → Message)
    → World
    → Option Text
    → List Message
    → World × List Message
unfolding deliver
rewrite user_message w none messages = (w, messages)
rewrite user_message w (some turn_id) messages =
    deliver user_message w messages (lookup turn_id w.registry)

-- The state that the closure `closeSteering` of `Ask` keeps for one turn.
pub record Closing : Type 0 where
  pub turn_id : Text
  pub mailbox : ℕ
  pub registered : Bool
  pub steer_closed : Bool
  pub steer_inputs : List TurnSteerInput

unfoldable pub close_once : World → Closing → World × Closing
unfolding unregister
close_once w c =
    if c.steer_closed
    then (w, c)
    else (let (m, inputs) = close (mailbox_at w c.mailbox) in
        let closed = put_mailbox w c.mailbox m in
        (
          (if c.registered then unregister closed c.turn_id else closed),
          record c { steer_inputs = inputs; steer_closed = true },
        ))

unfoldable pub close_steering : World → Closing → Bool → World × Closing
unfolding stop_steer_turn close_once
close_steering w c keep_consumed =
    let (closed, d) = close_once (stop_steer_turn w c.turn_id) c in
    if keep_consumed then (closed, d) else (
      put_mailbox closed d.mailbox (discard (mailbox_at closed d.mailbox)),
      record d { steer_inputs = [] },
    )
