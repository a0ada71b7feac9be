-- ===== src/Ledger/Filing.antt =====
-- The usage records on file: what adds to them, and that no other event touches them.
use eino_local_assistant.Prelude.{
  ◌≡◌, refl, ap, ◌∙◌, true, not, ◌&&◌, ◌||◌, none, some, arith, ◌==◌, is_some, Text, text_eq,
  text_eq_refl, is_empty, trim_space, lookup, lookup-insert, if◌then◌else◌, Bool, Result, ok, err,
  fail_if, >>=-eq-ok, Option,
}
use mathlib.Core.Path.{subst}
use eino_local_assistant.Ledger.Events.{
  LedgerError, ThreadEvent, Codec, ModelUsage, CompactionStart, Checkpoint, CompactionFailure,
  CheckpointSchemaReset,
}
use eino_local_assistant.Ledger.Usage.{normalize_model_usage, check_usage, settle_usage, trim_usage}
use eino_local_assistant.Ledger.State.{ThreadState, as_corrupt, record_compaction_operation_id}
use eino_local_assistant.Ledger.Accounting.{
  apply_usage_recorded, record_usage, add_usage, check_operation,
}
use eino_local_assistant.Ledger.Compaction.{
  trim_failure, allows_unpaused_automatic_compaction_failure,
}
use eino_local_assistant.Ledger.Checkpoints.{
  apply_compaction_started, begin_compaction, apply_compacted, close_for_checkpoint,
  install_checkpoint, validate_checkpoint, check_replayed_pause, apply_compaction_failed,
  close_for_failure, note_failure, apply_checkpoint_reset, reset_checkpoint,
}

-- The call is on file.
abbrev pub IsFiled : Text → ThreadState → Type 0
IsFiled call s = is_some (lookup call s.recorded_usage) ≡ true

abbrev pub SameUsage : ThreadState → ThreadState → Type 0
SameUsage s s' = s'.recorded_usage ≡ s.recorded_usage

pub SameUsage-IsFiled :
    (call : Text) (s s' : ThreadState) → SameUsage s s' → IsFiled call s → IsFiled call s'
SameUsage-IsFiled call s s' e h = ap (λ m. is_some (lookup call m)) e ∙ h

normalize_model_usage-id :
    (codec : Codec) (p u : ModelUsage)
    → normalize_model_usage codec p ≡ ok u
    → u.call_id ≡ trim_space p.call_id
unfolding normalize_model_usage settle_usage trim_usage
normalize_model_usage-id codec p u h =
    let (_, _, h₁) = >>=-eq-ok (check_usage codec (trim_usage p)) _ h in ground arith

add_usage-recorded :
    (codec : Codec) (call : Text) (s : ThreadState) (u : ModelUsage)
    → lookup call (add_usage codec s u).recorded_usage
      ≡ (if text_eq u.call_id call then some u else lookup call s.recorded_usage)
unfolding add_usage
add_usage-recorded codec call s u = lookup-insert u.call_id call u s.recorded_usage

-- A record files its call, keeps what is on file, and changes nothing when the call is.
record_usage-files :
    (codec : Codec) (s s' : ThreadState) (u : ModelUsage) (o : Option ModelUsage)
    → lookup u.call_id s.recorded_usage ≡ o
    → record_usage codec s u o ≡ ok s'
    → IsFiled u.call_id s'
      × ((call : Text) → IsFiled call s → IsFiled call s')
      × (IsFiled u.call_id s → s' ≡ s)
unfolding record_usage
record_usage-files codec s s' u (some p) f h =
    let same : s' ≡ s = ground arith in
    (
      ap (λ r. is_some (lookup u.call_id r.recorded_usage)) same ∙ ap is_some f,
      λ call k. ap (λ r. is_some (lookup call r.recorded_usage)) same ∙ k,
      λ k. same,
    )
record_usage-files codec s s' u none f h =
    let (_, _, h₁) = >>=-eq-ok (check_operation s.pending_compaction u) _ h in
    let same : s' ≡ add_usage codec s u = ground arith in
    (
      ap (λ r. is_some (lookup u.call_id r.recorded_usage)) same
          ∙ ground (arith, add_usage-recorded codec u.call_id s u, text_eq_refl u.call_id),
      λ call k.
          ap (λ r. is_some (lookup call r.recorded_usage)) same
          ∙ ground (arith, add_usage-recorded codec call s u),
      λ k. absurd (ground arith),
    )

as_corrupt-eq-ok :
    {A : Type 0} (r : Result LedgerError A) (message : Text) (a : A)
    → as_corrupt r message ≡ ok a
    → r ≡ ok a
as_corrupt-eq-ok (ok b) message a h = h
as_corrupt-eq-ok (err e) message a h = absurd (cc)

pub apply_usage_recorded-files :
    (codec : Codec) (s s' : ThreadState) (e : ThreadEvent) (p : ModelUsage)
    → apply_usage_recorded codec s e p ≡ ok s'
    → IsFiled (trim_space p.call_id) s'
      × ((call : Text) → IsFiled call s → IsFiled call s')
      × (IsFiled (trim_space p.call_id) s → s' ≡ s)
unfolding apply_usage_recorded
apply_usage_recorded-files codec s s' e p h =
    let (u, normal, h₁) = >>=-eq-ok (as_corrupt (normalize_model_usage codec p) _) _ h in
    let (_, _, h₂) = >>=-eq-ok (fail_if (not (text_eq u.turn_id e.turn_id)) _) _ h₁ in
    let id = normalize_model_usage-id codec p u (as_corrupt-eq-ok _ _ u normal) in
    subst
      (λ i.
        IsFiled i s' × ((call : Text) → IsFiled call s → IsFiled call s') × (IsFiled i s → s' ≡ s))
      id (record_usage-files codec s s' u (lookup u.call_id s.recorded_usage) refl h₂)

-- No other event touches the file.
pub apply_compaction_started-SameUsage :
    (s s' : ThreadState) (e : ThreadEvent) (p : CompactionStart)
    → apply_compaction_started s e p ≡ ok s'
    → SameUsage s s'
unfolding apply_compaction_started begin_compaction record_compaction_operation_id
apply_compaction_started-SameUsage s s' e p h = ground arith

close_for_checkpoint-SameUsage :
    (s s' : ThreadState) (o : Text) (a : Bool) → close_for_checkpoint s o a ≡ ok s' → SameUsage s s'
unfolding close_for_checkpoint
close_for_checkpoint-SameUsage s s' o a h = ground arith

close_for_failure-SameUsage :
    (s s' : ThreadState) (p : CompactionFailure) → close_for_failure s p ≡ ok s' → SameUsage s s'
unfolding close_for_failure record_compaction_operation_id
close_for_failure-SameUsage s s' p h = ground arith

pub apply_compacted-SameUsage :
    (codec : Codec) (s s' : ThreadState) (e : ThreadEvent) (p : Checkpoint)
    → apply_compacted codec s e p ≡ ok s'
    → SameUsage s s'
unfolding apply_compacted install_checkpoint
apply_compacted-SameUsage codec s s' e p h =
    let (_, _, h₁) = >>=-eq-ok (validate_checkpoint codec p s.id) _ h in
    let (_, _, h₂) =
      >>=-eq-ok (fail_if (not (p.revision == e.revision) || not (p.sequence == e.sequence)) _) _
        h₁ in
    let (c, closed, h₃) =
      >>=-eq-ok (close_for_checkpoint s (trim_space p.operation_id) p.automatic) _ h₂ in
    let same : s' ≡ install_checkpoint c e p = ground arith in
    ap (λ r. r.recorded_usage) same ∙ close_for_checkpoint-SameUsage s c _ _ closed

pub apply_compaction_failed-SameUsage :
    (s s' : ThreadState) (e : ThreadEvent) (p : CompactionFailure)
    → apply_compaction_failed s e p ≡ ok s'
    → SameUsage s s'
unfolding apply_compaction_failed note_failure
apply_compaction_failed-SameUsage s s' e p h =
    let q = trim_failure p in
    let (_, _, h₁) = >>=-eq-ok (fail_if (not q.cancelled && is_empty q.reason) _) _ h in
    let (_, checked, h₂) =
      >>=-eq-ok (check_replayed_pause q.auto_paused q.auto_pause_reason) _ h₁ in
    let (_, _, h₃) =
      >>=-eq-ok
        (fail_if
          (q.automatic && not q.auto_paused && not (allows_unpaused_automatic_compaction_failure q))
          _)
        _ h₂ in
    let (c, closed, h₄) = >>=-eq-ok (close_for_failure s q) _ h₃ in
    let same : s' ≡ note_failure c e q = ground arith in
    ap (λ r. r.recorded_usage) same ∙ close_for_failure-SameUsage s c q closed

pub apply_checkpoint_reset-SameUsage :
    (s s' : ThreadState) (e : ThreadEvent) (p : CheckpointSchemaReset)
    → apply_checkpoint_reset s e p ≡ ok s'
    → SameUsage s s'
unfolding apply_checkpoint_reset reset_checkpoint
apply_checkpoint_reset-SameUsage s s' e p h = ground arith
