-- ===== src/Steering/Closing.antt =====
-- When the session admits a steer, and what the end of a turn leaves behind.
use eino_local_assistant.Prelude.{
  ℕ, ◌≡◌, ◌↔◌, refl, ap, ◌∙◌, Bool, true, false, not, ◌&&◌, ◌||◌, Option, none, some, List, [], ◌∷◌,
  arith, is_some, if-holds, Text, text_eq, trim_space, is_empty, Dict, lookup, Result, ok, err,
}
use eino_local_assistant.Steering.Mailbox.{Reading, TurnSteerMailbox, accept, unless_ended, enqueue}
use eino_local_assistant.Steering.Session.{
  ActiveTurnSteer, World, Readings, Steered, mailbox_at, put_mailbox, stop_accepting, admit_steer,
  steer_active, steer_mailbox, steer_found, unless_ended_on_entry, steer_with_receipt, stop_found,
  stop_steer_turn, remove, unregister, deliver, rewrite, Closing, close_once, close_steering,
}

abbrev pub is_ok : {E A : Type 0} → Result E A → Bool
is_ok (ok _) = true
is_ok (err _) = false

-- The mailbox can take an input.
abbrev pub is_open : World → Option ℕ → Bool
is_open w none = false
is_open w (some i) = not (mailbox_at w i).closed

-- The conditions for a steer, in no order: all of them must hold.
abbrev pub active_steerable : World → Readings → Text → Option ActiveTurnSteer → Bool
active_steerable w r expected none = false
active_steerable w r expected (some a) =
    not (is_empty a.id)
    && text_eq a.id expected
    && a.supported
    && a.accepting
    && is_open w a.mailbox
    && not (is_some r.turn)

abbrev pub steerable : World → Readings → Text → Text → Bool
steerable w r expected input =
    not (is_empty (trim_space input))
    && not (is_empty (trim_space expected))
    && not (is_some r.on_entry || is_some r.before || is_some r.under)
    && active_steerable w r (trim_space expected) w.active_steer_turn

enqueue-is_ok :
    (before under : Reading) (m : TurnSteerMailbox) (input : Text)
    → is_ok (enqueue before under m input).1
      ≡ (not (is_empty (trim_space input)) && not (is_some before || is_some under) && not m.closed)
unfolding enqueue accept unless_ended
enqueue-is_ok none none m input = ground arith
enqueue-is_ok none (some e) m input = ground arith
enqueue-is_ok (some e) none m input = ground arith
enqueue-is_ok (some e) (some f) m input = ground arith

module _ (w : World) (r : Readings) (input : Text) where
  -- What the mailbox asks of a steer.
  abbrev pub fit : ℕ → Bool
  fit i =
      not (is_empty (trim_space input))
      && not (is_some r.before || is_some r.under)
      && not (mailbox_at w i).closed

  admit_steer-is_ok : (i : ℕ) → is_ok (admit_steer w r input i).1 ≡ fit i
  unfolding admit_steer
  admit_steer-is_ok i = enqueue-is_ok r.before r.under (mailbox_at w i) input

  steer_active-is_ok :
      (a : ActiveTurnSteer) (i : ℕ)
      → is_ok (steer_active w r input a i).1 ≡ (not (is_some r.turn) && a.supported && fit i)
  unfolding steer_active
  steer_active-is_ok a i = ground (arith, admit_steer-is_ok i)

  steer_mailbox-is_ok :
      (a : ActiveTurnSteer) (o : Option ℕ)
      → is_ok (steer_mailbox w r input a o).1 ≡ (
          a.accepting
          && not (is_some r.turn)
          && a.supported
          && not (is_empty (trim_space input))
          && not (is_some r.before || is_some r.under)
          && is_open w o)
  unfolding steer_mailbox
  steer_mailbox-is_ok a none = ground arith
  steer_mailbox-is_ok a (some i) = ground (arith, steer_active-is_ok a i)

  steer_found-is_ok :
      (expected : Text) (o : Option ActiveTurnSteer)
      → is_ok (steer_found w r expected input o).1 ≡ (
          active_steerable w r expected o
          && not (is_empty (trim_space input))
          && not (is_some r.before || is_some r.under))
  unfolding steer_found
  steer_found-is_ok expected none = refl
  steer_found-is_ok expected (some a) = ground (arith, steer_mailbox-is_ok a a.mailbox)

  entry-is_ok :
      (o : Reading) (go : Steered)
      → is_ok (unless_ended_on_entry o w go).1 ≡ (not (is_some o) && is_ok go.1)
  unfolding unless_ended_on_entry
  entry-is_ok none go = refl
  entry-is_ok (some e) go = refl

-- A steer is admitted exactly when the input is not blank, no context has ended, the expected turn is
-- the active one, the model supports steering, the turn is accepting, and its mailbox is open.
pub steer_with_receipt_iff :
    (w : World) (r : Readings) (expected input : Text)
    → (is_ok (steer_with_receipt w r expected input).1 ≡ true)
      ↔ (steerable w r expected input ≡ true)
unfolding steer_with_receipt
steer_with_receipt_iff w r expected input =
    let id = trim_space expected in
    ground (
      arith,
      entry-is_ok w r input r.on_entry (steer_found w r id input w.active_steer_turn),
      steer_found-is_ok w r input id w.active_steer_turn,
    )

-- A turn that was stopped is not steerable, whatever became of the rest.
stop_found-refuses :
    (w v : World) (r : Readings) (turn_id : Text) (o : Option ActiveTurnSteer)
    → w.active_steer_turn ≡ o
    → active_steerable v r (trim_space turn_id) (stop_found w turn_id o).active_steer_turn ≡ false
unfolding stop_found stop_accepting
stop_found-refuses w v r turn_id none e = ap (active_steerable v r (trim_space turn_id)) e
stop_found-refuses w v r turn_id (some a) e =
    if-holds (λ u. active_steerable v r (trim_space turn_id) u.active_steer_turn ≡ false)
      (text_eq a.id (trim_space turn_id)) (stop_accepting w a) w (λ _. ground arith)
      (λ other. ap (active_steerable v r (trim_space turn_id)) e ∙ ground arith)

lookup-remove : {V : Type 0} (k : Text) (d : Dict V) → lookup k (remove k d) ≡ none
unfolding lookup remove
lookup-remove k [] = refl
lookup-remove k ((j, v) ∷ d) = ground (arith, lookup-remove k d)

-- The closing of a mailbox leaves the active turn as it is, and takes a registered turn out of the
-- registry.
abbrev pub Unbinds : World → Closing → World × Closing → Type 0
Unbinds w c x =
    (x.0.active_steer_turn ≡ w.active_steer_turn)
    × (c.registered ≡ true → x.0.registry ≡ remove (trim_space c.turn_id) w.registry)

close_once-Unbinds :
    (w : World) (c : Closing) → c.steer_closed ≡ false → Unbinds w c (close_once w c)
unfolding close_once put_mailbox unregister
close_once-Unbinds w c fresh =
    if-holds (Unbinds w c) c.steer_closed _ _ (λ t. absurd (cc))
      (λ _.
        if-holds {A = World}
          (λ v.
            (v.active_steer_turn ≡ w.active_steer_turn)
            × (c.registered ≡ true → v.registry ≡ remove (trim_space c.turn_id) w.registry))
          c.registered _ _ (λ _. (refl, λ _. refl)) (λ f. (refl, λ t. absurd (cc))))

close_steering-Unbinds :
    (w : World) (c : Closing) (keep : Bool)
    → c.steer_closed ≡ false
    → Unbinds (stop_steer_turn w c.turn_id) c (close_steering w c keep)
unfolding close_steering put_mailbox
close_steering-Unbinds w c keep fresh =
    let stopped = stop_steer_turn w c.turn_id in
    let once = close_once-Unbinds stopped c fresh in
    if-holds (Unbinds stopped c) keep _ _ (λ _. once) (λ _. once)

-- After the first closing of a registered turn, whether its inputs are kept or not, no steer is
-- admitted for that turn, and a model call of that turn gets its messages with nothing added.
pub close_steering_ends :
    {Message : Type 0} (user_message : Text → Message) (w : World) (c : Closing) (keep : Bool)
    (r : Readings) (input : Text) (messages : List Message)
    → c.steer_closed ≡ false
    → c.registered ≡ true
    → trim_space c.turn_id ≡ c.turn_id
    → (is_ok (steer_with_receipt (close_steering w c keep).0 r c.turn_id input).1 ≡ false)
      × ((rewrite user_message (close_steering w c keep).0 (some c.turn_id) messages).1 ≡ messages)
unfolding rewrite deliver stop_steer_turn
close_steering_ends user_message w c keep r input messages fresh registered trimmed =
    let v = (close_steering w c keep).0 in
    let (active, registry) = close_steering-Unbinds w c keep fresh in
    let refuses =
      ap (active_steerable v r (trim_space c.turn_id)) active
      ∙ stop_found-refuses w v r c.turn_id w.active_steer_turn refl in
    let gone : lookup c.turn_id v.registry ≡ none =
      ap (lookup c.turn_id) (registry registered)
      ∙ ap (λ k. lookup c.turn_id (remove k (stop_steer_turn w c.turn_id).registry)) trimmed
      ∙ lookup-remove c.turn_id (stop_steer_turn w c.turn_id).registry in
    (
      ground (arith, steer_with_receipt_iff v r c.turn_id input, refuses),
      ap (λ o. (deliver user_message v messages o).1) gone,
    )
