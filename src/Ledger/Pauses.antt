-- ===== src/Ledger/Pauses.antt =====
-- The pause of automatic compaction: whatever pauses it gives a reason.
use mathlib.Core.Path.{subst}
use eino_local_assistant.Prelude.{
  ◌≡◌, sym, ap, ◌∙◌, Bool, true, false, not, ◌&&◌, ◌||◌, Option, none, some, List, [], ◌∷◌, arith,
  ◌==◌, Text, text_eq, is_empty, trim_space, lookup, Bool-cases, inl, inr, ok, fail_if, >>=-eq-ok,
}
use eino_local_assistant.Ledger.Events.{
  EventKind, usage_recorded, compaction_started, compacted, compaction_failed, checkpoint_reset,
  other, ThreadEvent, Codec, ModelUsage, CompactionStart, Checkpoint, CompactionFailure,
  CheckpointSchemaReset,
}
use eino_local_assistant.Ledger.Usage.{normalize_model_usage}
use eino_local_assistant.Ledger.Lifecycle.{LifecycleTracker, new_lifecycle_tracker, apply}
use eino_local_assistant.Ledger.State.{
  ThreadState, decode, as_corrupt, record_compaction_operation_id,
}
use eino_local_assistant.Ledger.Accounting.{apply_usage_recorded, record_usage, add_usage}
use eino_local_assistant.Ledger.Compaction.{
  trim_failure, allows_unpaused_automatic_compaction_failure,
}
use eino_local_assistant.Ledger.Checkpoints.{
  apply_compaction_started, begin_compaction, apply_compacted, close_for_checkpoint,
  install_checkpoint, validate_checkpoint, apply_compaction_failed, check_replayed_pause,
  close_for_failure, note_failure, apply_checkpoint_reset, reset_checkpoint, trim_reset,
}
use eino_local_assistant.Ledger.Apply.{
  apply_thread_created, apply_turn_committed, apply_task_state, apply_model_changed, apply_archived,
  apply_event_kind, apply_thread_event, advance,
}
use eino_local_assistant.Ledger.Chain.{validate_thread_event, replay_events, replay, blank_state}

-- A pause has a reason.
abbrev pub IsExplained : ThreadState → Type 0
IsExplained s = s.auto_compaction_paused ≡ true → is_empty s.auto_compaction_pause_reason ≡ false

-- The pause is as it was.
abbrev SamePause : ThreadState → ThreadState → Type 0
SamePause s s' =
    (s'.auto_compaction_paused ≡ s.auto_compaction_paused)
    × (s'.auto_compaction_pause_reason ≡ s.auto_compaction_pause_reason)

SamePause-IsExplained : (s s' : ThreadState) → SamePause s s' → IsExplained s → IsExplained s'
SamePause-IsExplained s s' (p, r) v h = ap is_empty r ∙ v (sym p ∙ h)

record_usage-SamePause :
    (codec : Codec) (s s' : ThreadState) (u : ModelUsage) (o : Option ModelUsage)
    → record_usage codec s u o ≡ ok s'
    → SamePause s s'
unfolding record_usage add_usage
record_usage-SamePause codec s s' u none h = (ground arith, ground arith)
record_usage-SamePause codec s s' u (some p) h = (ground arith, ground arith)

apply_usage_recorded-SamePause :
    (codec : Codec) (s s' : ThreadState) (e : ThreadEvent) (p : ModelUsage)
    → apply_usage_recorded codec s e p ≡ ok s'
    → SamePause s s'
unfolding apply_usage_recorded
apply_usage_recorded-SamePause codec s s' e p h =
    let (u, _, h₁) = >>=-eq-ok (as_corrupt (normalize_model_usage codec p) _) _ h in
    let (_, _, h₂) = >>=-eq-ok (fail_if (not (text_eq u.turn_id e.turn_id)) _) _ h₁ in
    record_usage-SamePause codec s s' u (lookup u.call_id s.recorded_usage) h₂

begin_compaction-IsExplained :
    (s : ThreadState) (e : ThreadEvent) (o : Text) (a : Bool)
    → IsExplained s
    → IsExplained (begin_compaction s e o a)
unfolding begin_compaction record_compaction_operation_id is_empty
begin_compaction-IsExplained s e o a v h = ground (arith, v)

apply_compaction_started-IsExplained :
    (s s' : ThreadState) (e : ThreadEvent) (p : CompactionStart)
    → apply_compaction_started s e p ≡ ok s'
    → IsExplained s
    → IsExplained s'
unfolding apply_compaction_started
apply_compaction_started-IsExplained s s' e p h v =
    let same : s' ≡ begin_compaction s e (trim_space p.operation_id) p.automatic = ground arith in
    subst IsExplained (sym same)
      (begin_compaction-IsExplained s e (trim_space p.operation_id) p.automatic v)

install_checkpoint-IsExplained :
    (s : ThreadState) (e : ThreadEvent) (c : Checkpoint) → IsExplained (install_checkpoint s e c)
unfolding install_checkpoint is_empty
install_checkpoint-IsExplained s e c h =
    elim (Bool-cases (is_empty (trim_space c.auto_pause_reason))) [
      | inl b ↦ ground arith
      | inr b ↦ ground arith
    ]

apply_compacted-IsExplained :
    (codec : Codec) (s s' : ThreadState) (e : ThreadEvent) (p : Checkpoint)
    → apply_compacted codec s e p ≡ ok s'
    → IsExplained s'
unfolding apply_compacted
apply_compacted-IsExplained codec s s' e p h =
    let (_, _, h₁) = >>=-eq-ok (validate_checkpoint codec p s.id) _ h in
    let (_, _, h₂) =
      >>=-eq-ok (fail_if (not (p.revision == e.revision) || not (p.sequence == e.sequence)) _) _
        h₁ in
    let (c, closed, h₃) =
      >>=-eq-ok (close_for_checkpoint s (trim_space p.operation_id) p.automatic) _ h₂ in
    let same : s' ≡ install_checkpoint c e p = ground arith in
    subst IsExplained (sym same) (install_checkpoint-IsExplained c e p)

check_replayed_pause-reason :
    (paused : Bool) (reason : Text)
    → check_replayed_pause paused reason ≡ ok tt
    → paused ≡ true
    → is_empty reason ≡ false
unfolding check_replayed_pause
check_replayed_pause-reason paused reason h p = ground arith

apply_compaction_failed-IsExplained :
    (s s' : ThreadState) (e : ThreadEvent) (p : CompactionFailure)
    → apply_compaction_failed s e p ≡ ok s'
    → IsExplained s'
unfolding apply_compaction_failed note_failure
apply_compaction_failed-IsExplained s s' e p h =
    let q = trim_failure p in
    let (_, _, h₁) = >>=-eq-ok (fail_if (not q.cancelled && is_empty q.reason) _) _ h in
    let (_, checked, h₂) =
      >>=-eq-ok (check_replayed_pause q.auto_paused q.auto_pause_reason) _ h₁ in
    let (_, _, h₃) =
      >>=-eq-ok
        (fail_if
          (q.automatic && not q.auto_paused && not (allows_unpaused_automatic_compaction_failure q))
          _)
        _ h₂ in
    let (c, closed, h₄) = >>=-eq-ok (close_for_failure s q) _ h₃ in
    let same : s' ≡ note_failure c e q = ground arith in
    subst IsExplained (sym same)
      (check_replayed_pause-reason q.auto_paused q.auto_pause_reason checked)

apply_checkpoint_reset-IsExplained :
    (s s' : ThreadState) (e : ThreadEvent) (p : CheckpointSchemaReset)
    → apply_checkpoint_reset s e p ≡ ok s'
    → IsExplained s'
unfolding apply_checkpoint_reset reset_checkpoint
apply_checkpoint_reset-IsExplained s s' e p h =
    let q = trim_reset p in
    let (_, _, h₁) = >>=-eq-ok (fail_if (is_empty q.checkpoint_id || is_empty q.reason) _) _ h in
    let (_, _, h₂) =
      >>=-eq-ok (fail_if (not (text_eq q.checkpoint_id s.active_checkpoint_id)) _) _ h₁ in
    let (_, checked, h₃) =
      >>=-eq-ok (check_replayed_pause q.auto_paused q.auto_pause_reason) _ h₂ in
    let same : s' ≡ reset_checkpoint s e q = ground arith in
    subst IsExplained (sym same)
      (check_replayed_pause-reason q.auto_paused q.auto_pause_reason checked)

-- Every event keeps a pause explained.
apply_event_kind-IsExplained :
    (codec : Codec) (k : EventKind) (s s' : ThreadState) (e : ThreadEvent)
    → apply_event_kind codec k s e ≡ ok s'
    → IsExplained s
    → IsExplained s'
unfolding apply_event_kind apply_thread_created apply_turn_committed apply_task_state
    apply_model_changed apply_archived
apply_event_kind-IsExplained codec usage_recorded s s' e h v =
    let (p, _, r) = >>=-eq-ok (decode (codec.model_usage e.payload)) _ h in
    SamePause-IsExplained s s' (apply_usage_recorded-SamePause codec s s' e p r) v
apply_event_kind-IsExplained codec compaction_started s s' e h v =
    let (p, _, r) = >>=-eq-ok (decode (codec.compaction_start e.payload)) _ h in
    apply_compaction_started-IsExplained s s' e p r v
apply_event_kind-IsExplained codec compacted s s' e h v =
    let (p, _, r) = >>=-eq-ok (decode (codec.checkpoint e.payload)) _ h in
    apply_compacted-IsExplained codec s s' e p r
apply_event_kind-IsExplained codec compaction_failed s s' e h v =
    let (p, _, r) = >>=-eq-ok (decode (codec.compaction_failure e.payload)) _ h in
    apply_compaction_failed-IsExplained s s' e p r
apply_event_kind-IsExplained codec checkpoint_reset s s' e h v =
    let (p, _, r) = >>=-eq-ok (decode (codec.checkpoint_reset e.payload)) _ h in
    apply_checkpoint_reset-IsExplained s s' e p r
apply_event_kind-IsExplained codec (other k) s s' e h v = absurd (cc)
apply_event_kind-IsExplained codec _ s s' e h v =
    SamePause-IsExplained s s' (ground arith, ground arith) v

replay_events-IsExplained :
    (codec : Codec) (s s' : ThreadState) (t t' : LifecycleTracker) (es : List ThreadEvent)
    → replay_events codec s t es ≡ ok (s', t')
    → IsExplained s
    → IsExplained s'
unfolding replay_events apply_thread_event advance
replay_events-IsExplained codec s s' t t' [] h v =
    SamePause-IsExplained s s' (ground arith, ground arith) v
replay_events-IsExplained codec s s' t t' (e ∷ es) h v =
    let (_, _, h₁) = >>=-eq-ok (validate_thread_event codec e s) _ h in
    let (u, _, h₂) = >>=-eq-ok (apply codec t e) _ h₁ in
    let (m, applied, h₃) = >>=-eq-ok (apply_thread_event codec s e) _ h₂ in
    let (r, one, eq) = >>=-eq-ok (apply_event_kind codec e.kind s e) _ applied in
    let explained = apply_event_kind-IsExplained codec e.kind s r e one v in
    replay_events-IsExplained codec m s' u t' es h₃
      (SamePause-IsExplained r m (ground arith, ground arith) explained)

-- In the state that any journal replays to, automatic compaction is paused only with a reason.
pub replay-IsExplained :
    (codec : Codec) (id : Text) (es : List ThreadEvent) (s : ThreadState) (t : LifecycleTracker)
    → replay codec id es ≡ ok (s, t)
    → s.auto_compaction_paused ≡ true
    → is_empty s.auto_compaction_pause_reason ≡ false
unfolding replay
replay-IsExplained codec id [] s t h = absurd (cc)
replay-IsExplained codec id (e ∷ es) s t h =
    replay_events-IsExplained codec (blank_state id) s new_lifecycle_tracker t (e ∷ es) h
      (λ p. absurd (cc))
