-- ===== src/Steering/Promptness.antt =====
-- While a turn runs, everything that its mailbox accepts is delivered.
use eino_local_assistant.Prelude.{
  ◌≡◌, refl, sym, ap, ◌∙◌, Bool, true, false, ◌||◌, List, [], ◌∷◌, ◌++◌, arith, All, if-holds,
  inc64, Text,
}
use mathlib.Core.List.{append-nil, append_assoc}
use eino_local_assistant.Steering.Mailbox.{
  Reading, TurnSteerInput, TurnSteerMailbox, accept, enqueue, nothing_pending,
  set_consumed_observer, take_turn_steers,
}
use eino_local_assistant.Steering.Delivery.{
  Call, enqueue_input, take, close_mailbox, discard_inputs, observe, History, note_accepted, call,
  calls, new_history, after, enqueue-holds,
}

-- A call that a running turn makes: not the closing, and not the discarding that follows it.
abbrev pub runs : Call → Bool
runs (enqueue_input before under input) = true
runs take = true
runs close_mailbox = false
runs discard_inputs = false
runs observe = true

-- Every accepted input has been delivered or is pending.
record IsComplete (h : History) : Type 0 where
  running : h.mailbox.closed ≡ false
  whole : h.delivered ++ h.mailbox.pending ≡ h.accepted

accept-IsComplete :
    (h : History) (input : Text) → IsComplete h → IsComplete (after h (accept h.mailbox input))
unfolding accept note_accepted
accept-IsComplete h input i =
    let x : TurnSteerInput = record { sequence = inc64 h.mailbox.next; content = input } in
    record {
      running = i.running;
      whole =
          sym (append_assoc h.delivered h.mailbox.pending (x ∷ [])) ∙ ap (λ l. l ++ x ∷ []) i.whole;
    }

enqueue-IsComplete :
    (before under : Reading) (input : Text) (h : History)
    → IsComplete h
    → IsComplete (after h (enqueue before under h.mailbox input))
unfolding note_accepted
enqueue-IsComplete before under input h i =
    enqueue-holds (λ r. IsComplete (after h r)) before under h.mailbox input (λ _. i)
      (λ _. accept-IsComplete h input i)

nothing_pending-eq : (l : List TurnSteerInput) → nothing_pending l ≡ true → l ≡ []
unfolding nothing_pending
nothing_pending-eq [] h = refl
nothing_pending-eq (x ∷ xs) h = absurd (cc)

-- A taking leaves nothing behind.
take-IsComplete :
    (h : History) → IsComplete h → ((call take h).delivered ≡ h.accepted) × IsComplete (call take h)
unfolding call take_turn_steers
take-IsComplete h i =
    if-holds {A = TurnSteerMailbox × List TurnSteerInput × List TurnSteerInput}
      (λ r.
        (h.delivered ++ r.1 ≡ h.accepted)
        × IsComplete (record h { mailbox = r.0; delivered = h.delivered ++ r.1 }))
      (h.mailbox.closed || nothing_pending h.mailbox.pending) (h.mailbox, [], []) _
      (λ e.
        let none_left = nothing_pending-eq h.mailbox.pending (ground (arith, i.running)) in
        (
          ap (λ l. h.delivered ++ l) (sym none_left) ∙ i.whole,
          record {
            running = i.running;
            whole = ap (λ l. l ++ h.mailbox.pending) (append-nil h.delivered) ∙ i.whole;
          },
        ))
      (λ _. (
        i.whole,
        record {
          running = i.running;
          whole = append-nil (h.delivered ++ h.mailbox.pending) ∙ i.whole;
        },
      ))

call-IsComplete : (c : Call) (h : History) → runs c ≡ true → IsComplete h → IsComplete (call c h)
unfolding call set_consumed_observer
call-IsComplete (enqueue_input before under input) h k i = enqueue-IsComplete before under input h i
call-IsComplete take h k i = (take-IsComplete h i).1
call-IsComplete close_mailbox h k i = absurd (cc)
call-IsComplete discard_inputs h k i = absurd (cc)
call-IsComplete observe h k i = record { running = i.running; whole = i.whole }

calls-IsComplete :
    (cs : List Call) (h : History)
    → All (λ c. runs c ≡ true) cs
    → IsComplete h
    → IsComplete (calls cs h)
unfolding calls
calls-IsComplete [] h k i = i
calls-IsComplete (c ∷ cs) h (k, ks) i = calls-IsComplete cs (call c h) ks (call-IsComplete c h k i)

-- After any calls of a running turn the next taking has delivered every input that was accepted, all
-- of them once and in the order of their admission.
pub take_leaves_nothing :
    (cs : List Call)
    → All (λ c. runs c ≡ true) cs
    → (call take (calls cs new_history)).delivered ≡ (calls cs new_history).accepted
take_leaves_nothing cs ks =
    let start : IsComplete new_history = record { running = refl; whole = refl } in
    (take-IsComplete (calls cs new_history) (calls-IsComplete cs new_history ks start)).0
