-- ===== src/Ledger/Head.antt =====
-- What a replay establishes about the head of the journal.
use eino_local_assistant.Prelude.{
  ℕ, zero, suc, ◌+◌, ◌<◌, ◌≡◌, refl, ap, ◌∙◌, true, false, List, [], ◌∷◌, arith, ◌==◌, length, Text,
  is_empty, ok, >>=-eq-ok,
}
use eino_local_assistant.Ledger.Events.{EventKind, thread_created, ThreadEvent, Codec}
use eino_local_assistant.Ledger.Lifecycle.{LifecycleTracker, new_lifecycle_tracker, apply}
use eino_local_assistant.Ledger.State.{ThreadState}
use eino_local_assistant.Ledger.Apply.{apply_event_kind, advance, apply_thread_event}
use eino_local_assistant.Ledger.Chain.{
  is_created, validate_thread_event, replay_events, replay, blank_state,
}
use eino_local_assistant.Ledger.Names.{apply_event_kind-Keeps, apply_thread_created-named}

-- After `n` events the head and the revision are `n`, and a journal that has begun has a named thread.
pub record HeadAt (n : ℕ) (s : ThreadState) : Type 0 where
  pub level : s.revision ≡ n
  pub head : s.head_sequence ≡ n
  pub named : 0 < n → is_empty s.id ≡ false

-- The first event is the creation, and no later one is.
first-is_created :
    (codec : Codec) (s : ThreadState) (n : ℕ) (e : ThreadEvent)
    → n + 1 < 18_446_744_073_709_551_616
    → s.head_sequence ≡ n
    → validate_thread_event codec e s ≡ ok tt
    → (e.sequence ≡ n + 1) × (is_created e.kind ≡ (n == 0))
unfolding validate_thread_event
first-is_created codec s n e room head v = ground arith

created-named :
    (codec : Codec) (s r : ThreadState) (k : EventKind) (e : ThreadEvent)
    → is_created k ≡ true
    → apply_event_kind codec k s e ≡ ok r
    → is_empty r.id ≡ false
created-named codec s r thread_created e c h = apply_thread_created-named codec s r e h
created-named codec s r _ e c h = absurd (cc)

kept-named :
    (codec : Codec) (s r : ThreadState) (n : ℕ) (k : EventKind) (e : ThreadEvent)
    → HeadAt n s
    → is_created k ≡ (n == 0)
    → apply_event_kind codec k s e ≡ ok r
    → is_empty r.id ≡ false
kept-named codec s r zero k e h c a = created-named codec s r k e c a
kept-named codec s r (suc n) k e h c a =
    ap is_empty (apply_event_kind-Keeps codec k s r e a (ground arith)) ∙ h.named (omega arith)

step-HeadAt :
    (codec : Codec) (s s' : ThreadState) (n : ℕ) (e : ThreadEvent)
    → n + 1 < 18_446_744_073_709_551_616
    → HeadAt n s
    → validate_thread_event codec e s ≡ ok tt
    → apply_thread_event codec s e ≡ ok s'
    → HeadAt (n + 1) s'
unfolding apply_thread_event advance
step-HeadAt codec s s' n e room h v a =
    let (r, applied, eq) = >>=-eq-ok (apply_event_kind codec e.kind s e) _ a in
    let (sequence, created) = first-is_created codec s n e room h.head v in
    let named = kept-named codec s r n e.kind e h created applied in
    record { level = ground arith; head = ground arith; named = λ begun. ground arith }

replay_events-HeadAt :
    (codec : Codec) (s s' : ThreadState) (t t' : LifecycleTracker) (n : ℕ) (es : List ThreadEvent)
    → n + length es < 18_446_744_073_709_551_616
    → HeadAt n s
    → replay_events codec s t es ≡ ok (s', t')
    → HeadAt (n + length es) s'
unfolding replay_events
replay_events-HeadAt codec s s' t t' n [] room h r =
    let same : s' ≡ s = ground arith in
    record {
      level = ground (arith, h.level);
      head = ground (arith, h.head);
      named = λ b. ground (arith, h.named);
    }
replay_events-HeadAt codec s s' t t' n (e ∷ es) room h r =
    let (_, valid, h₁) = >>=-eq-ok (validate_thread_event codec e s) _ r in
    let (u, step, h₂) = >>=-eq-ok (apply codec t e) _ h₁ in
    let (m, applied, h₃) = >>=-eq-ok (apply_thread_event codec s e) _ h₂ in
    let next = step-HeadAt codec s m n e (omega arith) h valid applied in
    let last = replay_events-HeadAt codec m s' u t' (n + 1) es (omega arith) next h₃ in
    let same : n + 1 + length es ≡ n + length (e ∷ es) = omega arith in
    record {
      level = last.level ∙ same;
      head = last.head ∙ same;
      named = λ b. last.named (omega arith);
    }

-- A journal that replays leaves the state at the revision and the sequence number of its last event,
-- which are the number of its events, as long as they fit 64 bits, and the thread has a name.
pub replay-HeadAt :
    (codec : Codec) (id : Text) (es : List ThreadEvent) (s : ThreadState) (t : LifecycleTracker)
    → length es < 18_446_744_073_709_551_616
    → replay codec id es ≡ ok (s, t)
    → HeadAt (length es) s
unfolding replay
replay-HeadAt codec id [] s t room r = absurd (cc)
replay-HeadAt codec id (e ∷ es) s t room r =
    let last =
      replay_events-HeadAt codec (blank_state id) s new_lifecycle_tracker t 0 (e ∷ es) (omega arith)
        (record { level = refl; head = refl; named = λ b. absurd (omega arith) }) r in
    let same : 0 + length (e ∷ es) ≡ length (e ∷ es) = omega arith in
    record {
      level = last.level ∙ same;
      head = last.head ∙ same;
      named = λ b. last.named (omega arith);
    }
