-- ===== src/Steering/Examples.antt =====
-- The theorems on steering at concrete inputs.
use eino_local_assistant.Prelude.{
  ◌≡◌, ◌↔◌, refl, arith, true, false, none, some, List, [], ◌∷◌, codes, trim_space, trim_left,
  is_space,
}
use eino_local_assistant.Steering.Mailbox.{new_turn_steer_mailbox}
use eino_local_assistant.Steering.Session.{
  World, Readings, Closing, steer_with_receipt, close_steering, rewrite,
}
use eino_local_assistant.Steering.Delivery.{
  Call, enqueue_input, take, close_mailbox, observe, call, calls, new_history, Numbered, IsPart,
  calls_deliver_once,
}
use eino_local_assistant.Steering.Promptness.{take_leaves_nothing}
use eino_local_assistant.Steering.Closing.{
  is_ok, steerable, steer_with_receipt_iff, close_steering_ends,
}

-- Two inputs, of which the second comes too late.
abbrev some_calls : List Call
some_calls =
    observe
    ∷ enqueue_input none none (codes "first")
    ∷ take
    ∷ enqueue_input none none (codes "late")
    ∷ close_mailbox
    ∷ []

calls_deliver_once_example :
    Numbered 0 (calls some_calls new_history).accepted
    × IsPart (calls some_calls new_history).delivered (calls some_calls new_history).accepted
calls_deliver_once_example = calls_deliver_once some_calls (omega arith)

abbrev two_inputs : List Call
two_inputs = enqueue_input none none (codes "a") ∷ take ∷ enqueue_input none none (codes "b") ∷ []

take_leaves_nothing_example :
    (call take (calls two_inputs new_history)).delivered ≡ (calls two_inputs new_history).accepted
take_leaves_nothing_example = take_leaves_nothing two_inputs (refl, (refl, (refl, tt)))

abbrev world : World
world = record {
  active_steer_turn =
      some (record { id = codes "t1"; mailbox = some 0; supported = true; accepting = true });
  registry = (codes "t1", 0) ∷ [];
  mailboxes = new_turn_steer_mailbox ∷ [];
}

abbrev quiet : Readings
quiet = record { on_entry = none; before = none; under = none; turn = none }

steer_with_receipt_iff_example :
    (is_ok (steer_with_receipt world quiet (codes "t1") (codes "go on")).1 ≡ true)
    ↔ (steerable world quiet (codes "t1") (codes "go on") ≡ true)
steer_with_receipt_iff_example = steer_with_receipt_iff world quiet (codes "t1") (codes "go on")

abbrev closing : Closing
closing = record {
  turn_id = codes "t1";
  mailbox = 0;
  registered = true;
  steer_closed = false;
  steer_inputs = [];
}

close_steering_ends_example :
    (is_ok
        (steer_with_receipt (close_steering world closing true).0 quiet (codes "t1") (codes "x")).1
      ≡ false)
    × ((rewrite
          (λ t. t)
          (close_steering world closing true).0
          (some (codes "t1"))
          (codes "m" ∷ [])).1
        ≡ codes "m" ∷ [])
unfolding trim_space trim_left is_space
close_steering_ends_example =
    close_steering_ends (λ t. t) world closing true quiet (codes "x") (codes "m" ∷ []) refl refl
      refl
