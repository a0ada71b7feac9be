-- ===== src/Ledger/Reload.antt =====
-- What the store writes, it reads back: an appended event continues the chain, and replaying the
-- longer journal gives the state that the writer was given.
use mathlib.Core.Path.{ap₂}
use eino_local_assistant.Prelude.{
  ℕ, ◌+◌, ◌<◌, ◌≡◌, refl, sym, ap, ◌∙◌, true, false, ◌&&◌, List, [], ◌∷◌, ◌++◌, arith, is_some,
  Text, text_eq, text_eq_refl, is_empty, ok, fail_if, >>=-eq-ok, length,
}
use eino_local_assistant.Ledger.Events.{EventKind, thread_created, archived, ThreadEvent, Codec}
use eino_local_assistant.Ledger.Lifecycle.{
  LifecycleTracker, new_lifecycle_tracker, apply, apply_kind, lifecycle_from_events, open_turn,
  start_turn, start_tool, complete_tool, commit_turn, abandon_turn, within_turn, track_task_state,
  track_usage, end_turn,
}
use eino_local_assistant.Ledger.State.{ThreadState}
use eino_local_assistant.Ledger.Apply.{apply_thread_event}
use eino_local_assistant.Ledger.Chain.{
  new_thread_event, thread_event_hash, is_created, is_blank_kind, validate_thread_event,
  replay_events, replay, blank_state,
}
use eino_local_assistant.Ledger.Head.{replay-HeadAt}
use eino_local_assistant.Ledger.Store.{
  Entry, append_locked, probe, validate_lifecycle_mutation, mutate, check_expected_revision,
  starts_work,
}

-- A state with room for one more event: its revision is the head of a chain that has begun.
pub record IsHead (s : ThreadState) : Type 0 where
  pub named : is_empty s.id ≡ false
  pub level : s.revision ≡ s.head_sequence
  pub begun : 0 < s.head_sequence
  pub room : s.head_sequence + 1 < 18_446_744_073_709_551_616

-- The hash does not cover itself.
new_thread_event-hash :
    (codec : Codec) (s : ThreadState) (kind : EventKind) (turn_id : Text) (x : Entry)
    → let e = new_thread_event codec s kind s.id turn_id s.revision x.raw x.id x.now in
      text_eq e.hash (thread_event_hash codec e) ≡ true
unfolding new_thread_event thread_event_hash
new_thread_event-hash codec s kind turn_id x = text_eq_refl _

new_thread_event-valid :
    (codec : Codec) (s : ThreadState) (kind : EventKind) (turn_id : Text) (x : Entry)
    → IsHead s
    → is_created kind ≡ false
    → is_blank_kind kind ≡ false
    → is_empty x.id ≡ false
    → is_empty x.raw ≡ false
    → validate_thread_event codec
        (new_thread_event codec s kind s.id turn_id s.revision x.raw x.id x.now)
        s
      ≡ ok tt
unfolding new_thread_event validate_thread_event
new_thread_event-valid codec s kind turn_id x h c b i r = ground (
  arith,
  h.named,
  h.level,
  h.begun,
  h.room,
  text_eq_refl s.id,
  text_eq_refl (codec.sha256_hex x.raw),
  text_eq_refl s.last_hash,
  new_thread_event-hash codec s kind turn_id x,
)

module _ (codec : Codec) where
  replay_events-lifecycle :
      (s s' : ThreadState) (t t' : LifecycleTracker) (es : List ThreadEvent)
      → replay_events codec s t es ≡ ok (s', t')
      → lifecycle_from_events codec t es ≡ ok t'
  unfolding replay_events lifecycle_from_events
  replay_events-lifecycle s s' t t' [] h = ground arith
  replay_events-lifecycle s s' t t' (e ∷ es) h =
      let (_, _, h₁) = >>=-eq-ok (validate_thread_event codec e s) _ h in
      let (u, step, h₂) = >>=-eq-ok (apply codec t e) _ h₁ in
      let (r, applied, h₃) = >>=-eq-ok (apply_thread_event codec s e) _ h₂ in
      rw step (replay_events-lifecycle r s' u t' es h₃)

  replay_events-append :
      (s s' : ThreadState) (t t' : LifecycleTracker) (es vs : List ThreadEvent)
      → replay_events codec s t es ≡ ok (s', t')
      → replay_events codec s t (es ++ vs) ≡ replay_events codec s' t' vs
  unfolding replay_events
  replay_events-append s s' t t' [] vs h =
      ap₂ (λ a b. replay_events codec a b vs) (ground arith) (ground arith)
  replay_events-append s s' t t' (e ∷ es) vs h =
      let (o, valid, h₁) = >>=-eq-ok (validate_thread_event codec e s) _ h in
      let (u, step, h₂) = >>=-eq-ok (apply codec t e) _ h₁ in
      let (r, applied, h₃) = >>=-eq-ok (apply_thread_event codec s e) _ h₂ in
      rw (valid, step, applied) (replay_events-append r s' u t' es vs h₃)

-- The lifecycle check reads the kind, the turn and the payload alone.
apply_kind-probe :
    (codec : Codec) (k : EventKind) (t : LifecycleTracker) (e : ThreadEvent)
    → apply_kind codec k t e ≡ apply_kind codec k t (probe e.kind e.turn_id e.payload)
unfolding apply_kind open_turn start_turn start_tool complete_tool commit_turn abandon_turn
    within_turn track_task_state track_usage end_turn
apply_kind-probe codec thread_created t e = refl
apply_kind-probe codec _ t e = refl

pub apply-probe :
    (codec : Codec) (t : LifecycleTracker) (e : ThreadEvent)
    → apply codec t e ≡ apply codec t (probe e.kind e.turn_id e.payload)
unfolding apply
apply-probe codec t e = apply_kind-probe codec e.kind t e

check_expected_revision-eq-ok :
    (s : ThreadState) (expected : ℕ)
    → check_expected_revision s expected ≡ ok tt
    → expected ≡ s.revision
unfolding check_expected_revision
check_expected_revision-eq-ok s expected h = ground arith

-- What an append that went through has done.
append_locked-eq-ok :
    (codec : Codec) (s s' : ThreadState) (kind : EventKind) (turn_id : Text) (x : Entry)
    (e : ThreadEvent)
    → append_locked codec s s.revision kind turn_id x ≡ ok (e, ok s')
    → (e ≡ new_thread_event codec s kind s.id turn_id s.revision x.raw x.id x.now)
      × (apply_thread_event codec s e ≡ ok s')
unfolding append_locked
append_locked-eq-ok codec s s' kind turn_id x e h =
    let same : e ≡ new_thread_event codec s kind s.id turn_id s.revision x.raw x.id x.now =
      ground arith in
    (same, rw same (ground arith))

-- The state after an accepted event, with its tracker.
replay_one :
    (codec : Codec) (s s' : ThreadState) (t t' : LifecycleTracker) (e : ThreadEvent)
    → validate_thread_event codec e s ≡ ok tt
    → apply codec t e ≡ ok t'
    → apply_thread_event codec s e ≡ ok s'
    → replay_events codec s t (e ∷ []) ≡ ok (s', t')
unfolding replay_events
replay_one codec s s' t t' e v a p = rw (v, a, p)

-- What a mutation that went through has checked and done.
mutate-eq-ok :
    (codec : Codec) (s s' : ThreadState) (es : List ThreadEvent) (expected : ℕ) (kind : EventKind)
    (turn_id : Text) (x : Entry) (e : ThreadEvent)
    → mutate codec s es expected kind turn_id x ≡ ok (e, ok s')
    → (t' : LifecycleTracker) × (validate_lifecycle_mutation codec es kind turn_id x.raw ≡ ok t')
      × (append_locked codec s s.revision kind turn_id x ≡ ok (e, ok s'))
unfolding mutate
mutate-eq-ok codec s s' es expected kind turn_id x e m =
    let (_, level, m₁) = >>=-eq-ok (check_expected_revision s expected) _ m in
    let (_, _, m₂) =
      >>=-eq-ok (fail_if (starts_work kind && is_some s.meta.archived_at) archived) _ m₁ in
    let (u, mutation, m₃) =
      >>=-eq-ok (validate_lifecycle_mutation codec es kind turn_id x.raw) _ m₂ in
    (
      u,
      mutation,
      ap (λ n. append_locked codec s n kind turn_id x)
            (sym (check_expected_revision-eq-ok s expected level))
          ∙ m₃,
    )

-- The check of a mutation is one step of the tracker that the journal leads to.
validate_lifecycle_mutation-step :
    (codec : Codec) (t u : LifecycleTracker) (es : List ThreadEvent) (kind : EventKind)
    (turn_id raw : Text)
    → lifecycle_from_events codec new_lifecycle_tracker es ≡ ok t
    → validate_lifecycle_mutation codec es kind turn_id raw ≡ ok u
    → apply codec t (probe kind turn_id raw) ≡ ok u
unfolding validate_lifecycle_mutation
validate_lifecycle_mutation-step codec t u es kind turn_id raw tracked v =
    let (r, tracked', stepped) =
      >>=-eq-ok (lifecycle_from_events codec new_lifecycle_tracker es) _ v in
    let same : t ≡ r = cc in rw same stepped

-- What the lifecycle check reads of a new event.
new_thread_event-probe :
    (codec : Codec) (s : ThreadState) (kind : EventKind) (turn_id : Text) (x : Entry)
    → let e = new_thread_event codec s kind s.id turn_id s.revision x.raw x.id x.now in
      probe e.kind e.turn_id e.payload ≡ probe kind turn_id x.raw
unfolding new_thread_event
new_thread_event-probe codec s kind turn_id x = refl

replay-IsHead :
    (codec : Codec) (id : Text) (v : ThreadEvent) (vs : List ThreadEvent) (s : ThreadState)
    (t : LifecycleTracker)
    → length (v ∷ vs) + 1 < 18_446_744_073_709_551_616
    → replay codec id (v ∷ vs) ≡ ok (s, t)
    → IsHead s
replay-IsHead codec id v vs s t room r =
    let h = replay-HeadAt codec id (v ∷ vs) s t (omega arith) r in
    record {
      named = h.named (omega arith);
      level = h.level ∙ sym h.head;
      begun = ground (arith, h.head);
      room = ground (arith, h.head);
    }

-- When a journal replays to the state that the writer is given, an event that the writer appends and
-- applies is accepted by the next replay, which arrives at the state that the writer returned. The
-- event is not a creation and has a kind, an ID and a payload, and the number of events fits 64 bits.
pub mutate-replay :
    (codec : Codec) (id : Text) (es : List ThreadEvent) (s s' : ThreadState) (t : LifecycleTracker)
    (kind : EventKind) (turn_id : Text) (expected : ℕ) (x : Entry) (e : ThreadEvent)
    → replay codec id es ≡ ok (s, t)
    → length es + 1 < 18_446_744_073_709_551_616
    → is_created kind ≡ false
    → is_blank_kind kind ≡ false
    → is_empty x.id ≡ false
    → is_empty x.raw ≡ false
    → mutate codec s es expected kind turn_id x ≡ ok (e, ok s')
    → (t' : LifecycleTracker) × (replay codec id (es ++ e ∷ []) ≡ ok (s', t'))
unfolding replay
mutate-replay codec id [] s s' t kind turn_id expected x e r room c b i w m = absurd (cc)
mutate-replay codec id (v ∷ vs) s s' t kind turn_id expected x e r room c b i w m =
    let (u, mutation, appended) = mutate-eq-ok codec s s' (v ∷ vs) expected kind turn_id x e m in
    let (same, applied) = append_locked-eq-ok codec s s' kind turn_id x e appended in
    let h = replay-IsHead codec id v vs s t room r in
    let tracked : lifecycle_from_events codec new_lifecycle_tracker (v ∷ vs) ≡ ok t =
      replay_events-lifecycle codec (blank_state id) s new_lifecycle_tracker t (v ∷ vs) r in
    (
      u,
      replay_events-append codec (blank_state id) s new_lifecycle_tracker t (v ∷ vs) (e ∷ []) r
          ∙ replay_one codec s s' t u e
              (rw same (new_thread_event-valid codec s kind turn_id x h c b i w))
              (apply-probe codec t e
                ∙ ap (λ a. apply codec t (probe a.kind a.turn_id a.payload)) same
                ∙ ap (apply codec t) (new_thread_event-probe codec s kind turn_id x)
                ∙ validate_lifecycle_mutation-step codec t u (v ∷ vs) kind turn_id x.raw tracked
                    mutation)
              applied,
    )
