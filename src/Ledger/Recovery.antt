-- ===== src/Ledger/Recovery.antt =====
-- RecoverInterruptedTurn of internal/store/thread.go: a thread that was left in the middle of a turn
-- becomes idle. It does not ask the tracker about the event that it appends.
use eino_local_assistant.Prelude.{
  ℕ, ◌≡◌, refl, ap, ◌∙◌, true, false, some, List, [], ◌∷◌, ◌++◌, arith, Text, text_eq, text_eq_refl,
  is_empty, lookup, ok, >>=-eq-ok,
}
use eino_local_assistant.Ledger.Events.{turn_failed, ThreadEvent, TurnFailure, Codec}
use eino_local_assistant.Ledger.Lifecycle.{
  LifecycleTracker, new_lifecycle_tracker, apply, apply_kind, open_turn, abandon_turn, end_turn,
  lifecycle_from_events,
}
use eino_local_assistant.Ledger.Ownership.{IsOwned, lifecycle_from_events-IsOwned}
use eino_local_assistant.Ledger.State.{ThreadState}
use eino_local_assistant.Ledger.Apply.{apply_event_kind, apply_thread_event, advance}
use eino_local_assistant.Ledger.Chain.{new_thread_event}
use eino_local_assistant.Ledger.Store.{
  append_locked, check_expected_revision, interruption, recover_interrupted_turn,
}

-- In an owned thread the open turn can be ended.
owner-abandon_turn :
    (t : LifecycleTracker) (e : ThreadEvent)
    → IsOwned t
    → is_empty t.active_turn_id ≡ false
    → e.turn_id ≡ t.active_turn_id
    → (t' : LifecycleTracker) × (abandon_turn t e t.active_turn_id ≡ ok t')
      × (t'.active_turn_id ≡ [])
unfolding abandon_turn open_turn end_turn
owner-abandon_turn t e v open_ same =
    let (turn, recorded, unended) = v.owner_open open_ in
    let started = v.all_started t.active_turn_id turn recorded in
    let found : lookup e.turn_id t.turns ≡ some turn = ap (λ i. lookup i t.turns) same ∙ recorded in
    let named : text_eq t.active_turn_id e.turn_id ≡ true =
      ap (text_eq t.active_turn_id) same ∙ text_eq_refl t.active_turn_id in
    (end_turn t e turn, rw (open_, named, found, started, unended) refl, refl)

module _ (codec : Codec) where
  turn_failed-apply :
      (t : LifecycleTracker) (e : ThreadEvent) (p : TurnFailure)
      → IsOwned t
      → is_empty t.active_turn_id ≡ false
      → e.kind ≡ turn_failed
      → e.turn_id ≡ t.active_turn_id
      → codec.turn_failure e.payload ≡ some p
      → p.turn_id ≡ t.active_turn_id
      → (t' : LifecycleTracker) × (apply codec t e ≡ ok t') × (t'.active_turn_id ≡ [])
  unfolding apply apply_kind
  turn_failed-apply t e p v open_ kind same payload id =
      let (t', ended, idle) = owner-abandon_turn t e v open_ same in
      (
        t',
        ap (λ k. apply_kind codec k t e) kind ∙ (rw payload (ap (abandon_turn t e) id ∙ ended)),
        idle,
      )

  lifecycle_from_events-append :
      (t t' : LifecycleTracker) (es vs : List ThreadEvent)
      → lifecycle_from_events codec t es ≡ ok t'
      → lifecycle_from_events codec t (es ++ vs) ≡ lifecycle_from_events codec t' vs
  unfolding lifecycle_from_events
  lifecycle_from_events-append t t' [] vs h =
      ap (λ a. lifecycle_from_events codec a vs) (ground arith)
  lifecycle_from_events-append t t' (e ∷ es) vs h =
      let (u, step, rest) = >>=-eq-ok (apply codec t e) _ h in
      rw step (lifecycle_from_events-append u t' es vs rest)

  lifecycle_one :
      (t t' : LifecycleTracker) (e : ThreadEvent)
      → apply codec t e ≡ ok t'
      → lifecycle_from_events codec t (e ∷ []) ≡ ok t'
  unfolding lifecycle_from_events
  lifecycle_one t t' e h = rw h refl

  module _ (encode : TurnFailure → Text) (s : ThreadState) (es : List ThreadEvent)
      (t : LifecycleTracker) (reason id : Text) (now : ℕ)
      (tracked : lifecycle_from_events codec new_lifecycle_tracker es ≡ ok t)
      (open_ : is_empty t.active_turn_id ≡ false) where
    -- The event that the recovery of a thread with an open turn appends.
    abbrev recovery : ThreadEvent
    recovery =
        new_thread_event codec s turn_failed s.id t.active_turn_id s.revision
          (encode (interruption t.active_turn_id reason)) id now

    recover_interrupted_turn-eq :
        recover_interrupted_turn codec encode s es s.revision reason id now
        ≡ ok (some (recovery, ok (advance s recovery)))
    unfolding recover_interrupted_turn check_expected_revision append_locked apply_thread_event
        apply_event_kind new_thread_event
    recover_interrupted_turn-eq = rw (tracked, open_) ground arith

    -- When a thread has an open turn, the caller names its current revision and a failure decodes to
    -- what was encoded, recovery appends an event and returns a state, whatever reason is given; with
    -- that event the journal is still accepted by the turn state machine, and no turn is open.
    pub recover_interrupted_turn_idle :
        ((p : TurnFailure) → codec.turn_failure (encode p) ≡ some p)
        → (e : ThreadEvent) × (s' : ThreadState) × (t' : LifecycleTracker)
          × (recover_interrupted_turn codec encode s es s.revision reason id now
              ≡ ok (some (e, ok s')))
          × (lifecycle_from_events codec new_lifecycle_tracker (es ++ e ∷ []) ≡ ok t')
          × (t'.active_turn_id ≡ [])
    unfolding new_thread_event interruption
    recover_interrupted_turn_idle decodes =
        let p = interruption t.active_turn_id reason in
        let e = recovery in
        let v = lifecycle_from_events-IsOwned codec t es tracked in
        let (t', step, idle) = turn_failed-apply t e p v open_ refl refl (decodes p) refl in
        (
          e,
          advance s e,
          t',
          recover_interrupted_turn-eq,
          lifecycle_from_events-append new_lifecycle_tracker t es (e ∷ []) tracked
              ∙ lifecycle_one t t' e step,
          idle,
        )
