-- ===== src/Ledger/Closing.antt =====
-- A compaction that is started is always closed: the state after the writers of
-- internal/store/thread_compaction.go.
use mathlib.Core.Path.{ap₂}
use eino_local_assistant.Prelude.{
  ◌≡◌, refl, ap, ◌∙◌, Bool, true, false, not, ◌&&◌, none, some, [], arith, Option-cases, inl, inr,
  Text, trim_space, is_empty, pos, Result, ok, ◌>>=◌, fail_if, >>=-eq-ok,
}
use eino_local_assistant.Ledger.Events.{
  LedgerError, compaction_failed, CompactionFailure, ThreadEvent, Codec,
}
use eino_local_assistant.Ledger.State.{ThreadState, CompactionOperation}
use eino_local_assistant.Ledger.Compaction.{
  allows_unpaused_automatic_compaction_failure, is_stale_compaction_failure,
  is_low_gain_compaction_failure, trim_failure, normalize_compaction_failure_input,
  materialize_compaction_failure,
}
use eino_local_assistant.Ledger.Checkpoints.{
  matches_pending, apply_compaction_failed, check_replayed_pause, close_for_failure, note_failure,
  apply_trimmed_failure,
}
use eino_local_assistant.Ledger.Apply.{apply_thread_event, apply_event_kind, advance}
use eino_local_assistant.Ledger.Chain.{new_thread_event}
use eino_local_assistant.Ledger.Store.{Entry, append_locked}
use eino_local_assistant.Ledger.Compactor.{finish_compaction, check_pending_operation}
use eino_local_assistant.Ledger.Failures.{
  IsReady, policy-same, normalize-IsNormal, materialize-IsReady,
}

trim_failure-eq :
    (p : CompactionFailure)
    → IsReady p
    → trim_failure p ≡ record p { auto_pause_reason = trim_space p.auto_pause_reason }
unfolding trim_failure
trim_failure-eq p r =
    ap₂
      (λ o x. record p {
        operation_id = o;
        reason = x;
        auto_pause_reason = trim_space p.auto_pause_reason;
      })
      r.operation r.reason

check_replayed_pause-ok :
    (paused : Bool) (reason : Text)
    → is_empty reason ≡ not paused
    → check_replayed_pause paused reason ≡ ok tt
unfolding check_replayed_pause
check_replayed_pause-ok true reason h = rw h refl
check_replayed_pause-ok false reason h = rw h refl

apply_trimmed_failure-closes :
    (s : ThreadState) (e : ThreadEvent) (p : CompactionFailure) (q : CompactionOperation)
    → (not p.cancelled && is_empty p.reason) ≡ false
    → is_empty p.auto_pause_reason ≡ not p.auto_paused
    → (p.automatic && not p.auto_paused && not (allows_unpaused_automatic_compaction_failure p))
      ≡ false
    → s.pending_compaction ≡ some q
    → matches_pending q p.operation_id p.automatic ≡ true
    → apply_trimmed_failure s e p ≡ ok (note_failure (record s { pending_compaction = none }) e p)
unfolding apply_trimmed_failure close_for_failure
apply_trimmed_failure-closes s e p q reasoned pause allowed pending matched =
    rw
      (
        reasoned,
        check_replayed_pause-ok p.auto_paused p.auto_pause_reason pause,
        allowed,
        pending,
        matched,
      )
      refl

-- A failure that is ready and names the pending operation closes it.
apply_compaction_failed-closes :
    (s : ThreadState) (e : ThreadEvent) (p : CompactionFailure) (q : CompactionOperation)
    → IsReady p
    → s.pending_compaction ≡ some q
    → matches_pending q p.operation_id p.automatic ≡ true
    → (s' : ThreadState) × (apply_compaction_failed s e p ≡ ok s') × (s'.pending_compaction ≡ none)
unfolding apply_compaction_failed note_failure allows_unpaused_automatic_compaction_failure
    is_stale_compaction_failure is_low_gain_compaction_failure
apply_compaction_failed-closes s e p q r pending matched =
    let t = record p { auto_pause_reason = trim_space p.auto_pause_reason } in
    (
      note_failure (record s { pending_compaction = none }) e t,
      ap (apply_trimmed_failure s e) (trim_failure-eq p r)
          ∙ apply_trimmed_failure-closes s e t q r.reasoned r.pause r.allowed pending matched,
      refl,
    )

check_pending_operation-eq-ok :
    (s : ThreadState) (i : CompactionFailure)
    → check_pending_operation s i ≡ ok tt
    → (q : CompactionOperation) × (s.pending_compaction ≡ some q)
      × (matches_pending q i.operation_id i.automatic ≡ true)
unfolding check_pending_operation
check_pending_operation-eq-ok s i h = elim (Option-cases s.pending_compaction) [
  | inl n ↦ absurd (ground arith)
  | inr (q, n) ↦ (q, n, ground arith)
]

-- What the failure that is written keeps of the one that was checked.
materialize-same :
    (codec : Codec) (s : ThreadState) (i p : CompactionFailure)
    → materialize_compaction_failure codec s i ≡ ok p
    → (p.operation_id ≡ i.operation_id) × (p.automatic ≡ i.automatic)
unfolding materialize_compaction_failure
materialize-same codec s i p h =
    let (o, _, _, a) = policy-same codec s i in (ground (arith, o), ground (arith, a))

apply_event_kind-failed :
    (codec : Codec) (s s' : ThreadState) (e : ThreadEvent) (p : CompactionFailure)
    → codec.compaction_failure e.payload ≡ some p
    → apply_compaction_failed s e p ≡ ok s'
    → apply_event_kind codec compaction_failed s e ≡ ok s'
unfolding apply_event_kind
apply_event_kind-failed codec s s' e p d a = rw d a

-- What a journal keeps of a failure: the limit is for the writer only, and is not encoded.
unfoldable pub journaled : CompactionFailure → CompactionFailure
journaled p = record p { max_low_gain_attempts = pos 0 }

journaled-IsReady : (p : CompactionFailure) → IsReady p → IsReady (journaled p)
unfolding journaled allows_unpaused_automatic_compaction_failure is_stale_compaction_failure
    is_low_gain_compaction_failure
journaled-IsReady p r = record {
  operation = r.operation;
  reason = r.reason;
  reasoned = r.reasoned;
  pause = r.pause;
  allowed = r.allowed;
}

-- What an append gives back.
append_locked-outcome :
    (codec : Codec) (s s' : ThreadState) (x : Entry) (e : ThreadEvent)
    (r : Result LedgerError ThreadState)
    → let event = new_thread_event codec s compaction_failed s.id [] s.revision x.raw x.id x.now in
      apply_event_kind codec compaction_failed s event ≡ ok s'
      → append_locked codec s s.revision compaction_failed [] x ≡ ok (e, r)
      → r ≡ ok (advance s' event)
unfolding append_locked apply_thread_event new_thread_event
append_locked-outcome codec s s' x e r a h =
    let event = new_thread_event codec s compaction_failed s.id [] s.revision x.raw x.id x.now in
    let given : r ≡ apply_thread_event codec s event = cc in given ∙ rw a refl

-- The failure that the writers encode for an input.
abbrev pub settle_failure :
    Codec → ThreadState → CompactionFailure → Result LedgerError CompactionFailure
settle_failure codec s input =
    normalize_compaction_failure_input input >>= materialize_compaction_failure codec s

settle_failure-eq :
    (codec : Codec) (s : ThreadState) (input i p : CompactionFailure)
    → normalize_compaction_failure_input input ≡ ok i
    → materialize_compaction_failure codec s i ≡ ok p
    → settle_failure codec s input ≡ ok p
settle_failure-eq codec s input i p n m = rw n m

-- When FinishCompaction appends an event, and its payload decodes to the failure that was encoded
-- without its limit on attempts, the event applies to the state, and no operation is pending any
-- more.
pub finish_compaction_closes :
    (codec : Codec) (s : ThreadState) (input : CompactionFailure)
    (entry_of : CompactionFailure → Entry) (e : ThreadEvent) (r : Result LedgerError ThreadState)
    → ((p : CompactionFailure)
        → settle_failure codec s input ≡ ok p
        → codec.compaction_failure (entry_of p).raw ≡ some (journaled p))
    → finish_compaction codec s input entry_of ≡ ok (e, r)
    → (s' : ThreadState) × (r ≡ ok s') × (s'.pending_compaction ≡ none)
unfolding finish_compaction new_thread_event advance journaled
finish_compaction_closes codec s input entry_of e r decodes h =
    let (i, normal, h₁) = >>=-eq-ok (normalize_compaction_failure_input input) _ h in
    let (_, _, h₂) = >>=-eq-ok (fail_if (is_empty i.operation_id) _) _ h₁ in
    let (_, checked, h₃) = >>=-eq-ok (check_pending_operation s i) _ h₂ in
    let (p, settled, h₄) = >>=-eq-ok (materialize_compaction_failure codec s i) _ h₃ in
    let (q, pending, matched) = check_pending_operation-eq-ok s i checked in
    let (o, a) = materialize-same codec s i p settled in
    let ready = materialize-IsReady codec s i p (normalize-IsNormal input i normal) settled in
    let x = entry_of p in
    let event = new_thread_event codec s compaction_failed s.id [] s.revision x.raw x.id x.now in
    let (s', applied, closed) =
      apply_compaction_failed-closes s event (journaled p) q (journaled-IsReady p ready) pending
        (ap₂ (matches_pending q) o a ∙ matched) in
    (
      advance s' event,
      append_locked-outcome codec s s' x e r
          (apply_event_kind-failed codec s s' event (journaled p)
            (decodes p (settle_failure-eq codec s input i p normal settled)) applied)
          h₄,
      closed,
    )
