-- ===== src/Steering/Mailbox.antt =====
-- internal/chat/steer.go: the mailbox of one turn. Every method holds the mailbox's mutex, so a
-- concurrent history is a list of calls. `Reading` is what `ctx.Err()` gives at that moment, and a nil
-- context gives no error.
use eino_local_assistant.Prelude.{
  ℕ, Bool, true, false, ◌||◌, Option, none, some, List, [], ◌∷◌, ◌++◌, if◌then◌else◌, inc64, Text,
  trim_space, is_empty, Result, err, ok,
}

pub data ContextError : Type 0 where
  canceled : ContextError
  deadline_exceeded : ContextError

abbrev pub Reading : Type 0
Reading = Option ContextError

pub data SteerError : Type 0 where
  empty_input : SteerError
  context_ended : ContextError → SteerError
  no_active_turn : SteerError
  steer_turn_mismatch : SteerError
  steer_unsupported : SteerError
  turn_not_steerable : SteerError

pub record TurnSteerInput : Type 0 where
  pub sequence : ℕ
  pub content : Text

-- `consumed_observe` says whether an observer is bound.
pub record TurnSteerMailbox : Type 0 where
  pub closed : Bool
  pub next : ℕ
  pub pending : List TurnSteerInput
  pub consumed : List TurnSteerInput
  pub consumed_observe : Bool

abbrev pub new_turn_steer_mailbox : TurnSteerMailbox
new_turn_steer_mailbox = record {
  closed = false;
  next = 0;
  pending = [];
  consumed = [];
  consumed_observe = false;
}

abbrev pub Enqueued : Type 0
Enqueued = TurnSteerMailbox × Result SteerError TurnSteerInput

-- Under the lock: the input gets the next sequence number.
unfoldable pub accept : TurnSteerMailbox → Text → Enqueued
accept m input =
    let accepted : TurnSteerInput = record { sequence = inc64 m.next; content = input } in
    (record m { next = inc64 m.next; pending = m.pending ++ accepted ∷ [] }, ok accepted)

unfoldable pub unless_ended : Reading → TurnSteerMailbox → Enqueued → Enqueued
unless_ended none m go = go
unless_ended (some e) m go = (m, err (context_ended e))

-- `before` is read before the lock is taken, `under` while it is held.
unfoldable pub enqueue : Reading → Reading → TurnSteerMailbox → Text → Enqueued
unfolding accept unless_ended
enqueue before under m input =
    if is_empty (trim_space input)
    then (m, err empty_input)
    else unless_ended before m
        (if m.closed then (m, err turn_not_steerable) else unless_ended under m (accept m input))

unfoldable pub set_consumed_observer : TurnSteerMailbox → TurnSteerMailbox
set_consumed_observer m = record m { consumed_observe = true }

unfoldable pub nothing_pending : List TurnSteerInput → Bool
nothing_pending [] = true
nothing_pending (x ∷ xs) = false

-- The mailbox, the batch, and what the observer was called with.
unfoldable pub take_turn_steers :
    TurnSteerMailbox → TurnSteerMailbox × List TurnSteerInput × List TurnSteerInput
unfolding nothing_pending
take_turn_steers m = if m.closed || nothing_pending m.pending then (m, [], []) else (
  record m { pending = []; consumed = m.consumed ++ m.pending },
  m.pending,
  (if m.consumed_observe then m.pending else []),
)

unfoldable pub close : TurnSteerMailbox → TurnSteerMailbox × List TurnSteerInput
close m = ((if m.closed then m else record m { closed = true; pending = [] }), m.consumed)

unfoldable pub discard : TurnSteerMailbox → TurnSteerMailbox
discard m = record m { pending = []; consumed = [] }
