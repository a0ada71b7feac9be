-- ===== src/Ledger/Failures.antt =====
-- What the writers of a failed compaction append is always accepted: the failure that they settle on
-- passes every check of the replay.
use mathlib.Core.Path.{ap₂, subst}
use eino_local_assistant.Prelude.{
  ◌≡◌, refl, sym, ap, ◌∙◌, true, false, not, ◌&&◌, [], ◌++◌, arith, leb, Bool-cases, inl, inr, Text,
  codes, trim_space, trim_space_idem, trim_space-visible, is_space, is_empty, ok, if-holds, inc64,
}
use eino_local_assistant.Ledger.Events.{CompactionFailure, Codec}
use eino_local_assistant.Ledger.State.{ThreadState}
use eino_local_assistant.Ledger.Compaction.{
  allows_unpaused_automatic_compaction_failure, is_stale_compaction_failure,
  is_low_gain_compaction_failure, check_pause, drop_pause, trim_failure,
  normalize_compaction_failure_input, apply_automatic_compaction_failure_policy,
  materialize_compaction_failure, max_attempts,
}

-- What the replay asks of a failure, but for the operation that it closes.
pub record IsReady (p : CompactionFailure) : Type 0 where
  pub operation : trim_space p.operation_id ≡ p.operation_id
  pub reason : trim_space p.reason ≡ p.reason
  pub reasoned : (not p.cancelled && is_empty p.reason) ≡ false
  pub pause : is_empty (trim_space p.auto_pause_reason) ≡ not p.auto_paused
  pub allowed :
      (p.automatic && not p.auto_paused && not (allows_unpaused_automatic_compaction_failure p))
      ≡ false

-- What is known of a failure after its fields were trimmed and checked.
pub record IsNormal (i : CompactionFailure) : Type 0 where
  operation : trim_space i.operation_id ≡ i.operation_id
  reason : trim_space i.reason ≡ i.reason
  reasoned : (not i.cancelled && is_empty i.reason) ≡ false
  pause : i.automatic ≡ false → is_empty (trim_space i.auto_pause_reason) ≡ not i.auto_paused

-- What an accepted input has been turned into.
normalize-eq-ok :
    (input i : CompactionFailure)
    → normalize_compaction_failure_input input ≡ ok i
    → (i.operation_id ≡ trim_space input.operation_id)
      × (i.reason ≡ trim_space input.reason)
      × ((not i.cancelled && is_empty i.reason) ≡ false)
      × (i.automatic ≡ false
          → (i.auto_pause_reason ≡ trim_space input.auto_pause_reason)
            × (is_empty i.auto_pause_reason ≡ not i.auto_paused))
unfolding normalize_compaction_failure_input trim_failure drop_pause check_pause
normalize-eq-ok input i h =
    (ground arith, ground arith, ground arith, λ a. (ground arith, ground arith))

trimmed : (a b : Text) → a ≡ trim_space b → trim_space a ≡ a
trimmed a b e = ap trim_space e ∙ trim_space_idem b ∙ sym e

pub normalize-IsNormal :
    (input i : CompactionFailure) → normalize_compaction_failure_input input ≡ ok i → IsNormal i
normalize-IsNormal input i h =
    let (o, r, w, p) = normalize-eq-ok input i h in
    record {
      operation = trimmed i.operation_id input.operation_id o;
      reason = trimmed i.reason input.reason r;
      reasoned = w;
      pause =
          λ a. ap is_empty (trimmed i.auto_pause_reason input.auto_pause_reason (p a).0) ∙ (p a).1;
    }

-- The failure that the policy settles on differs from the normal one in the pause alone.
pub policy-same :
    (codec : Codec) (s : ThreadState) (i : CompactionFailure)
    → let p = apply_automatic_compaction_failure_policy codec s i in
      (p.operation_id ≡ i.operation_id)
      × (p.reason ≡ i.reason)
      × (p.cancelled ≡ i.cancelled)
      × (p.automatic ≡ i.automatic)
unfolding apply_automatic_compaction_failure_policy drop_pause
policy-same codec s i = (ground arith, ground arith, ground arith, ground arith)

trim_nil : is_empty (trim_space []) ≡ true
unfolding trim_space is_empty
trim_nil = refl

-- Its pause reason is empty or begins with a letter.
policy-pause :
    (codec : Codec) (s : ThreadState) (i : CompactionFailure)
    → let p = apply_automatic_compaction_failure_policy codec s i in
      is_empty (trim_space p.auto_pause_reason) ≡ not p.auto_paused
unfolding apply_automatic_compaction_failure_policy drop_pause
policy-pause codec s i =
    let next = inc64 s.low_gain_streak in
    let P : CompactionFailure → Type 0 =
      λ p. is_empty (trim_space p.auto_pause_reason) ≡ not p.auto_paused in
    if-holds P (is_stale_compaction_failure i) _ _ (λ h. trim_nil)
      (λ h.
        if-holds P (is_low_gain_compaction_failure i) _ _
          (λ l.
            if-holds P (leb (max_attempts i) next) _ _
              (λ m.
                trim_space-visible b'a'
                  (codes "utomatic compaction paused after "
                    ++ codec.print_number next
                    ++ codes " consecutive low-gain attempts")
                  (unfold is_space in refl))
              (λ m. trim_nil))
          (λ l.
            trim_space-visible b'a' (codes "utomatic compaction failed: " ++ i.reason)
              (unfold is_space in refl)))

pub materialize-IsReady :
    (codec : Codec) (s : ThreadState) (i p : CompactionFailure)
    → IsNormal i
    → materialize_compaction_failure codec s i ≡ ok p
    → IsReady p
unfolding materialize_compaction_failure check_pause
materialize-IsReady codec s i p v h = elim (Bool-cases i.automatic) [
  | inr manual ↦
      let same : p ≡ i = ground arith in
      subst IsReady (sym same) (record {
        operation = v.operation;
        reason = v.reason;
        reasoned = v.reasoned;
        pause = v.pause manual;
        allowed = ground arith;
      })
  | inl auto ↦
      let q = apply_automatic_compaction_failure_policy codec s i in
      let (o, r, c, a) = policy-same codec s i in
      let same : p ≡ q = ground arith in
      subst IsReady (sym same) (record {
        operation = ap trim_space o ∙ v.operation ∙ sym o;
        reason = ap trim_space r ∙ v.reason ∙ sym r;
        reasoned = ap₂ (λ x y. not x && is_empty y) c r ∙ v.reasoned;
        pause = policy-pause codec s i;
        allowed = ground arith;
      })
]
