-- ===== src/Ledger/Idle.antt =====
-- What archiving and a change of model ask of a thread.
use eino_local_assistant.Prelude.{
  ℕ, ◌≡◌, ◌↔◌, Bool, true, false, not, none, List, arith, is_some, is_empty, Result, ok, err,
}
use eino_local_assistant.Ledger.Events.{LedgerError, ThreadEvent, Codec}
use eino_local_assistant.Ledger.Lifecycle.{
  LifecycleTracker, new_lifecycle_tracker, lifecycle_from_events,
}
use eino_local_assistant.Ledger.State.{ThreadState}
use eino_local_assistant.Ledger.Store.{
  Entry, append_locked, check_expected_revision, check_idle, set_thread_archived,
}

-- The caller knows the current revision, no turn is open and no compaction is pending.
pub record IsIdle (s : ThreadState) (t : LifecycleTracker) (expected : ℕ) : Type 0 where
  pub level : expected ≡ s.revision
  pub closed : is_empty t.active_turn_id ≡ true
  pub settled : s.pending_compaction ≡ none

abbrev pub accepted {ℓ} : {A : Type ℓ} → Result LedgerError A → Bool
accepted (ok _) = true
accepted (err _) = false

module _ (codec : Codec) (s : ThreadState) (es : List ThreadEvent) (t : LifecycleTracker)
    (expected : ℕ) (x : Entry)
    (tracked : lifecycle_from_events codec new_lifecycle_tracker es ≡ ok t) where
  -- For a journal that the tracker accepts, archiving and unarchiving write an event exactly when the
  -- caller names the current revision, no turn is open, no compaction is pending and the thread is
  -- not yet in the wanted state; otherwise they fail.
  pub set_thread_archived_iff :
      (b : Bool)
      → (accepted (set_thread_archived codec s es expected b x) ≡ true)
        ↔ (IsIdle s t expected × (is_some s.meta.archived_at ≡ not b))
  unfolding set_thread_archived check_idle check_expected_revision append_locked
  set_thread_archived_iff true = (
    λ h. (
      record {
        level = ground (arith, tracked);
        closed = ground (arith, tracked);
        settled = ground (arith, tracked);
      },
      ground (arith, tracked),
    ),
    λ (i, a). ground (arith, tracked, i.level, i.closed, i.settled),
  )
  set_thread_archived_iff false = (
    λ h. (
      record {
        level = ground (arith, tracked);
        closed = ground (arith, tracked);
        settled = ground (arith, tracked);
      },
      ground (arith, tracked),
    ),
    λ (i, a). ground (arith, tracked, i.level, i.closed, i.settled),
  )
