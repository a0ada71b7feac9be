-- ===== src/Ledger/Ownership.antt =====
-- What the turn state machine keeps: at most one open turn, which owns the thread, and ended turns
-- that never change.
use eino_local_assistant.Prelude.{
  ◌≡◌, refl, true, false, none, some, List, [], ◌∷◌, arith, Text, text_eq, text_eq_iff,
  text_eq_refl, is_empty, Dict, lookup, insert, lookup-insert, ok, >>=-eq-ok,
}
use eino_local_assistant.Ledger.Events.{EventKind, turn_committed, ThreadEvent, Codec}
use eino_local_assistant.Ledger.Lifecycle.{
  LifecycleTool, LifecycleTurn, LifecycleTracker, new_lifecycle_tracker, all_completed, apply,
  lifecycle_from_events,
}
use eino_local_assistant.Ledger.Turns.{
  IsOpen, fresh_turn, Move, keep, begin, call, answer, finish, apply-Move, ok-injective,
}

-- An unended turn owns the thread, an owner is an unended turn, every recorded turn was started, and
-- a committed turn has all its tools completed.
pub record IsOwned (t : LifecycleTracker) : Type 0 where
  pub named : lookup [] t.turns ≡ none
  pub open_owns :
      (id : Text) (turn : LifecycleTurn)
      → lookup id t.turns ≡ some turn
      → turn.terminal ≡ none
      → t.active_turn_id ≡ id
  pub owner_open :
      is_empty t.active_turn_id ≡ false
      → (turn : LifecycleTurn) × (lookup t.active_turn_id t.turns ≡ some turn)
        × (turn.terminal ≡ none)
  pub all_started :
      (id : Text) (turn : LifecycleTurn) → lookup id t.turns ≡ some turn → turn.started ≡ true
  pub committed_done :
      (id : Text) (turn : LifecycleTurn)
      → lookup id t.turns ≡ some turn
      → turn.terminal ≡ some turn_committed
      → all_completed turn.tools ≡ true

new-IsOwned : IsOwned new_lifecycle_tracker
unfolding lookup is_empty
new-IsOwned = record {
  named = refl;
  open_owns = λ id turn h e. absurd (cc);
  owner_open = λ h. absurd (cc);
  all_started = λ id turn h. absurd (cc);
  committed_done = λ id turn h e. absurd (cc);
}

text_eq-nil : (id : Text) → is_empty id ≡ false → text_eq id [] ≡ false
unfolding is_empty text_eq
text_eq-nil [] h = cc
text_eq-nil (c ∷ cs) h = refl

named-insert :
    (id : Text) (turn : LifecycleTurn) (m : Dict LifecycleTurn)
    → is_empty id ≡ false
    → lookup [] m ≡ none
    → lookup [] (insert id turn m) ≡ none
named-insert id turn m named h = ground (arith, lookup-insert id [] turn m, text_eq-nil id named)

-- To change the calls of the open turn leaves the thread owned.
tools-IsOwned :
    (t : LifecycleTracker) (id : Text) (turn : LifecycleTurn) (tools : Dict LifecycleTool)
    → IsOpen t id turn
    → IsOwned t
    → IsOwned (record t { turns = insert id (record turn { tools = tools }) t.turns })
tools-IsOwned t id turn tools o v =
    let turn' : LifecycleTurn = record turn { tools = tools } in
    record {
      named = named-insert id turn' t.turns o.named v.named;
      open_owns = λ i s h e.
          ground
            (arith, lookup-insert id i turn' t.turns, text_eq_iff id i, v.open_owns i s, o.owner);
      owner_open = λ h. (
        turn',
        ground (arith, lookup-insert id id turn' t.turns, text_eq_refl id, o.owner),
        o.unended,
      );
      committed_done = λ i s h e.
          ground (arith, lookup-insert id i turn' t.turns, v.committed_done i s, o.unended);
      all_started = λ i s h. ground (
        arith,
        lookup-insert id i turn' t.turns,
        v.all_started i s,
        v.all_started id turn,
        o.recorded,
      );
    }

Move-IsOwned : {t t' : LifecycleTracker} → Move t t' → IsOwned t → IsOwned t'
Move-IsOwned keep v = v
Move-IsOwned {t} (begin id named fresh idle) v = record {
  named = named-insert id fresh_turn t.turns named v.named;
  open_owns = λ i turn h e. ground (
    arith,
    lookup-insert id i fresh_turn t.turns,
    text_eq_iff id i,
    v.open_owns i turn,
    idle,
    v.named,
  );
  owner_open = λ h.
      (fresh_turn, ground (arith, lookup-insert id id fresh_turn t.turns, text_eq_refl id), refl);
  all_started =
      λ i turn h. ground (arith, lookup-insert id i fresh_turn t.turns, v.all_started i turn);
  committed_done =
      λ i turn h e. ground (arith, lookup-insert id i fresh_turn t.turns, v.committed_done i turn);
}
Move-IsOwned {t} (call id k name turn o _ _) v =
    tools-IsOwned t id turn
      (insert k (record { name = name; started = true; completed = false }) turn.tools) o v
Move-IsOwned {t} (answer id k turn tool o _ _) v =
    tools-IsOwned t id turn (insert k (record tool { completed = true }) turn.tools) o v
Move-IsOwned {t} (finish id turn kind o done) v =
    let ended : LifecycleTurn = record turn { terminal = some kind } in
    record {
      named = named-insert id ended t.turns o.named v.named;
      open_owns = λ i s h e.
          ground
            (arith, lookup-insert id i ended t.turns, text_eq_iff id i, v.open_owns i s, o.owner);
      owner_open = λ h. absurd (unfold is_empty in cc);
      all_started = λ i s h. ground (
        arith,
        lookup-insert id i ended t.turns,
        v.all_started i s,
        v.all_started id turn,
        o.recorded,
      );
      committed_done =
          λ i s h e. ground (arith, lookup-insert id i ended t.turns, v.committed_done i s, done);
    }

-- A move leaves every ended turn as it was.
Move-ended :
    {t t' : LifecycleTracker} (id : Text) (turn : LifecycleTurn) (kind : EventKind)
    → Move t t'
    → lookup id t.turns ≡ some turn
    → turn.terminal ≡ some kind
    → lookup id t'.turns ≡ some turn
Move-ended id turn kind keep h e = h
Move-ended {t} id turn kind (begin i _ fresh _) h e =
    ground (arith, lookup-insert i id fresh_turn t.turns, text_eq_iff i id)
Move-ended {t} id turn kind (call i k name s o _ _) h e =
    let tool : LifecycleTool = record { name = name; started = true; completed = false } in
    ground (
      arith,
      lookup-insert i id (record s { tools = insert k tool s.tools }) t.turns,
      text_eq_iff i id,
      o.recorded,
      o.unended,
    )
Move-ended {t} id turn kind (answer i k s tool o _ _) h e =
    let done = record tool { completed = true } in
    ground (
      arith,
      lookup-insert i id (record s { tools = insert k done s.tools }) t.turns,
      text_eq_iff i id,
      o.recorded,
      o.unended,
    )
Move-ended {t} id turn kind (finish i s k o _) h e = ground (
  arith,
  lookup-insert i id (record s { terminal = some k }) t.turns,
  text_eq_iff i id,
  o.recorded,
  o.unended,
)

module _ (codec : Codec) where
  lifecycle-IsOwned :
      (t t' : LifecycleTracker) (es : List ThreadEvent)
      → IsOwned t
      → lifecycle_from_events codec t es ≡ ok t'
      → IsOwned t'
  unfolding lifecycle_from_events
  lifecycle-IsOwned t t' [] v h = rw (← (ok-injective t t' h)) v
  lifecycle-IsOwned t t' (e ∷ es) v h =
      let (u, step, rest) = >>=-eq-ok (apply codec t e) _ h in
      lifecycle-IsOwned u t' es (Move-IsOwned (apply-Move codec t u e step) v) rest

  -- After any journal that the tracker accepts, at most one turn is open and it owns the thread, and
  -- every committed turn has all its tools completed.
  pub lifecycle_from_events-IsOwned :
      (t : LifecycleTracker) (es : List ThreadEvent)
      → lifecycle_from_events codec new_lifecycle_tracker es ≡ ok t
      → IsOwned t
  lifecycle_from_events-IsOwned t es h = lifecycle-IsOwned _ t es new-IsOwned h

  -- Once a turn has ended, no further journal that is accepted changes what is recorded of it.
  pub ended_turn_immutable :
      (t t' : LifecycleTracker) (es : List ThreadEvent) (id : Text) (turn : LifecycleTurn)
      (kind : EventKind)
      → lifecycle_from_events codec t es ≡ ok t'
      → lookup id t.turns ≡ some turn
      → turn.terminal ≡ some kind
      → lookup id t'.turns ≡ some turn
  unfolding lifecycle_from_events
  ended_turn_immutable t t' [] id turn kind h f e = rw (← (ok-injective t t' h)) f
  ended_turn_immutable t t' (v ∷ vs) id turn kind h f e =
      let (u, step, rest) = >>=-eq-ok (apply codec t v) _ h in
      ended_turn_immutable u t' vs id turn kind rest
        (Move-ended id turn kind (apply-Move codec t u v step) f e) e
