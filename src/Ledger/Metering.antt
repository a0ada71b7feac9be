-- ===== src/Ledger/Metering.antt =====
-- Usage is counted once: a later record of a call that is on file adds nothing.
use eino_local_assistant.Prelude.{
  ◌≡◌, refl, sym, ap, ◌∙◌, some, List, [], ◌∷◌, arith, Text, trim_space, ok, >>=-eq-ok,
}
use mathlib.Core.Path.{subst}
use eino_local_assistant.Ledger.Events.{
  EventKind, usage_recorded, compaction_started, compacted, compaction_failed, checkpoint_reset,
  other, ThreadEvent, Codec, ModelUsage,
}
use eino_local_assistant.Ledger.Lifecycle.{LifecycleTracker, apply}
use eino_local_assistant.Ledger.State.{ThreadState, decode}
use eino_local_assistant.Ledger.Accounting.{apply_usage_recorded}
use eino_local_assistant.Ledger.Apply.{
  apply_thread_created, apply_turn_committed, apply_task_state, apply_model_changed, apply_archived,
  apply_event_kind, apply_thread_event, advance,
}
use eino_local_assistant.Ledger.Filing.{
  IsFiled, SameUsage-IsFiled, apply_usage_recorded-files, apply_compaction_started-SameUsage,
  apply_compacted-SameUsage, apply_compaction_failed-SameUsage, apply_checkpoint_reset-SameUsage,
}
use eino_local_assistant.Ledger.Chain.{validate_thread_event, replay_events}

-- Every event keeps what is on file.
apply_event_kind-IsFiled :
    (codec : Codec) (k : EventKind) (s s' : ThreadState) (e : ThreadEvent) (call : Text)
    → apply_event_kind codec k s e ≡ ok s'
    → IsFiled call s
    → IsFiled call s'
unfolding apply_event_kind apply_thread_created apply_turn_committed apply_task_state
    apply_model_changed apply_archived
apply_event_kind-IsFiled codec usage_recorded s s' e call h v =
    let (p, _, r) = >>=-eq-ok (decode (codec.model_usage e.payload)) _ h in
    (apply_usage_recorded-files codec s s' e p r).1 call v
apply_event_kind-IsFiled codec compaction_started s s' e call h v =
    let (p, _, r) = >>=-eq-ok (decode (codec.compaction_start e.payload)) _ h in
    SameUsage-IsFiled call s s' (apply_compaction_started-SameUsage s s' e p r) v
apply_event_kind-IsFiled codec compacted s s' e call h v =
    let (p, _, r) = >>=-eq-ok (decode (codec.checkpoint e.payload)) _ h in
    SameUsage-IsFiled call s s' (apply_compacted-SameUsage codec s s' e p r) v
apply_event_kind-IsFiled codec compaction_failed s s' e call h v =
    let (p, _, r) = >>=-eq-ok (decode (codec.compaction_failure e.payload)) _ h in
    SameUsage-IsFiled call s s' (apply_compaction_failed-SameUsage s s' e p r) v
apply_event_kind-IsFiled codec checkpoint_reset s s' e call h v =
    let (p, _, r) = >>=-eq-ok (decode (codec.checkpoint_reset e.payload)) _ h in
    SameUsage-IsFiled call s s' (apply_checkpoint_reset-SameUsage s s' e p r) v
apply_event_kind-IsFiled codec (other k) s s' e call h v = absurd (cc)
apply_event_kind-IsFiled codec _ s s' e call h v = SameUsage-IsFiled call s s' (ground arith) v

apply_thread_event-IsFiled :
    (codec : Codec) (s s' : ThreadState) (e : ThreadEvent) (call : Text)
    → apply_thread_event codec s e ≡ ok s'
    → IsFiled call s
    → IsFiled call s'
unfolding apply_thread_event advance
apply_thread_event-IsFiled codec s s' e call h v =
    let (r, one, _) = >>=-eq-ok (apply_event_kind codec e.kind s e) _ h in
    SameUsage-IsFiled call r s' (ground arith)
      (apply_event_kind-IsFiled codec e.kind s r e call one v)

replay_events-IsFiled :
    (codec : Codec) (s s' : ThreadState) (t t' : LifecycleTracker) (es : List ThreadEvent)
    (call : Text)
    → replay_events codec s t es ≡ ok (s', t')
    → IsFiled call s
    → IsFiled call s'
unfolding replay_events
replay_events-IsFiled codec s s' t t' [] call h v = SameUsage-IsFiled call s s' (ground arith) v
replay_events-IsFiled codec s s' t t' (e ∷ es) call h v =
    let (_, _, h₁) = >>=-eq-ok (validate_thread_event codec e s) _ h in
    let (u, _, h₂) = >>=-eq-ok (apply codec t e) _ h₁ in
    let (m, applied, h₃) = >>=-eq-ok (apply_thread_event codec s e) _ h₂ in
    replay_events-IsFiled codec m s' u t' es call h₃
      (apply_thread_event-IsFiled codec s m e call applied v)

-- What an accepted usage event does with its call.
apply_thread_event-files :
    (codec : Codec) (s s' : ThreadState) (e : ThreadEvent) (p : ModelUsage)
    → e.kind ≡ usage_recorded
    → codec.model_usage e.payload ≡ some p
    → apply_thread_event codec s e ≡ ok s'
    → IsFiled (trim_space p.call_id) s' × (IsFiled (trim_space p.call_id) s → s' ≡ advance s e)
unfolding apply_thread_event apply_event_kind advance
apply_thread_event-files codec s s' e p kind payload h =
    let (r, one, _) = >>=-eq-ok (apply_event_kind codec e.kind s e) _ h in
    let whole : apply_usage_recorded codec s e p ≡ ok r =
      sym (ap (λ k. apply_event_kind codec k s e) kind ∙ rw payload refl) ∙ one in
    let (filed, _, known) = apply_usage_recorded-files codec s r e p whole in
    let last : s' ≡ advance r e = ground arith in
    (
      SameUsage-IsFiled (trim_space p.call_id) r s' (ap (λ x. x.recorded_usage) last) filed,
      λ k. last ∙ ap (λ x. advance x e) (known k),
    )

-- Once a journal holds a usage event, every later usage event of the same call, whatever events come in
-- between, is either refused or moves the head of the chain and the times only: it changes no
-- total, count, status or context measure.
pub usage_counted_once :
    (codec : Codec) (s s' s'' : ThreadState) (t t' : LifecycleTracker) (e e' : ThreadEvent)
    (between : List ThreadEvent) (p p' : ModelUsage)
    → (e.kind ≡ usage_recorded) × (codec.model_usage e.payload ≡ some p)
    → (e'.kind ≡ usage_recorded) × (codec.model_usage e'.payload ≡ some p')
    → trim_space p.call_id ≡ trim_space p'.call_id
    → replay_events codec s t (e ∷ between) ≡ ok (s', t')
    → apply_thread_event codec s' e' ≡ ok s''
    → s'' ≡ advance s' e'
unfolding replay_events
usage_counted_once codec s s' s'' t t' e e' between p p' first later call h k =
    let (_, _, h₁) = >>=-eq-ok (validate_thread_event codec e s) _ h in
    let (u, _, h₂) = >>=-eq-ok (apply codec t e) _ h₁ in
    let (m, applied, h₃) = >>=-eq-ok (apply_thread_event codec s e) _ h₂ in
    let (filed, _) = apply_thread_event-files codec s m e p first.0 first.1 applied in
    let kept = replay_events-IsFiled codec m s' u t' between (trim_space p.call_id) h₃ filed in
    (apply_thread_event-files codec s' s'' e' p' later.0 later.1 k).1
      (subst (λ i. IsFiled i s') call kept)
