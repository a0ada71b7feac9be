-- ===== src/Steering/Delivery.antt =====
-- What a mailbox delivers of what it has accepted.
use eino_local_assistant.Prelude.{
  ℕ, ◌+◌, ◌≤◌, ◌<◌, ◌≡◌, refl, sym, ◌∙◌, true, false, none, some, List, [], ◌∷◌, ◌++◌, arith,
  length, length-append, inc64, Text, Result, ok, err, if-holds, ◌||◌, trim_space, is_empty,
}
use mathlib.Core.Path.{subst}
use mathlib.Core.List.{append-nil, append_assoc}
use eino_local_assistant.Steering.Mailbox.{
  Reading, SteerError, empty_input, turn_not_steerable, context_ended, TurnSteerInput,
  TurnSteerMailbox, new_turn_steer_mailbox, accept, unless_ended, enqueue, nothing_pending,
  set_consumed_observer, take_turn_steers, close, discard,
}

pub data Call : Type 0 where
  enqueue_input : Reading → Reading → Text → Call
  take : Call
  close_mailbox : Call
  discard_inputs : Call
  observe : Call

-- The mailbox with the inputs that it has accepted and those that it has delivered, in the order of
-- the calls.
pub record History : Type 0 where
  pub mailbox : TurnSteerMailbox
  pub accepted : List TurnSteerInput
  pub delivered : List TurnSteerInput

unfoldable pub note_accepted :
    List TurnSteerInput → Result SteerError TurnSteerInput → List TurnSteerInput
note_accepted accepted (ok x) = accepted ++ x ∷ []
note_accepted accepted (err _) = accepted

unfoldable pub call : Call → History → History
unfolding note_accepted
call (enqueue_input before under input) h =
    let (m, result) = enqueue before under h.mailbox input in
    record h { mailbox = m; accepted = note_accepted h.accepted result }
call take h =
    let (m, batch, _) = take_turn_steers h.mailbox in
    record h { mailbox = m; delivered = h.delivered ++ batch }
call close_mailbox h = record h { mailbox = (close h.mailbox).0 }
call discard_inputs h = record h { mailbox = discard h.mailbox }
call observe h = record h { mailbox = set_consumed_observer h.mailbox }

unfoldable pub calls : List Call → History → History
unfolding call
calls [] h = h
calls (c ∷ cs) h = calls cs (call c h)

abbrev pub new_history : History
new_history = record { mailbox = new_turn_steer_mailbox; accepted = []; delivered = [] }

-- Some elements of a list in the same order, each at most as often as it occurs there.
pub data IsPart : List TurnSteerInput → List TurnSteerInput → Type 0 where
  nil : IsPart [] []
  keep :
      (x : TurnSteerInput) (xs ys : List TurnSteerInput) → IsPart xs ys → IsPart (x ∷ xs) (x ∷ ys)
  skip : (y : TurnSteerInput) (xs ys : List TurnSteerInput) → IsPart xs ys → IsPart xs (y ∷ ys)

-- The sequence numbers are k + 1, k + 2 and so on.
abbrev pub Numbered : ℕ → List TurnSteerInput → Type 0
Numbered k [] = Unit
Numbered k (x ∷ xs) = (x.sequence ≡ k + 1) × Numbered (k + 1) xs

IsPart-snoc :
    (xs ys : List TurnSteerInput) (x : TurnSteerInput)
    → IsPart xs ys
    → IsPart (xs ++ x ∷ []) (ys ++ x ∷ [])
IsPart-snoc _ _ x nil = keep x [] [] nil
IsPart-snoc _ _ x (keep y xs ys p) = keep y _ _ (IsPart-snoc xs ys x p)
IsPart-snoc _ _ x (skip y xs ys p) = skip y _ _ (IsPart-snoc xs ys x p)

IsPart-empty : (ys : List TurnSteerInput) → IsPart [] ys
IsPart-empty [] = nil
IsPart-empty (y ∷ ys) = skip y [] ys (IsPart-empty ys)

IsPart-front_at :
    (ws ys : List TurnSteerInput) (xs zs : List TurnSteerInput)
    → IsPart ws ys
    → xs ++ zs ≡ ws
    → IsPart xs ys
IsPart-front_at _ _ [] zs nil e = nil
IsPart-front_at _ _ (x ∷ xs) zs nil e = absurd (cc)
IsPart-front_at _ _ [] zs (keep w ws ys p) e = IsPart-empty (w ∷ ys)
IsPart-front_at _ _ (x ∷ xs) zs (keep w ws ys p) e =
    let same : x ≡ w = cc in
    let rest : xs ++ zs ≡ ws = cc in
    subst (λ v. IsPart (x ∷ xs) (v ∷ ys)) same (keep x xs ys (IsPart-front_at ws ys xs zs p rest))
IsPart-front_at _ _ xs zs (skip y ws ys p) e = skip y xs ys (IsPart-front_at ws ys xs zs p e)

-- A part of the front is a part.
IsPart-front : (xs zs ys : List TurnSteerInput) → IsPart (xs ++ zs) ys → IsPart xs ys
IsPart-front xs zs ys p = IsPart-front_at (xs ++ zs) ys xs zs p refl

Numbered-snoc :
    (k : ℕ) (xs : List TurnSteerInput) (x : TurnSteerInput)
    → Numbered k xs
    → x.sequence ≡ k + length xs + 1
    → Numbered k (xs ++ x ∷ [])
Numbered-snoc k [] x h e = (omega (arith, e), tt)
Numbered-snoc k (y ∷ ys) x (f, h) e = (f, Numbered-snoc (k + 1) ys x h (omega (arith, e)))

-- Before `limit` calls no sequence number wraps around.
abbrev pub limit : ℕ
limit = 18_446_744_073_709_551_616

pub record IsFair (h : History) : Type 0 where
  pub in_order : IsPart (h.delivered ++ h.mailbox.pending) h.accepted
  pub numbered : Numbered 0 h.accepted
  pub count : h.mailbox.next ≡ length h.accepted
  pub stopped : h.mailbox.closed ≡ true → h.mailbox.pending ≡ []

-- A call accepts at most one input.
abbrev pub accepted_count : History → ℕ
accepted_count h = length h.accepted

accept-IsFair :
    (h : History) (input : Text)
    → IsFair h
    → h.mailbox.closed ≡ false
    → accepted_count h + 1 < limit
    → IsFair (record h {
      mailbox = (accept h.mailbox input).0;
      accepted = note_accepted h.accepted (accept h.mailbox input).1;
    })
unfolding accept note_accepted
accept-IsFair h input i opened room =
    let x : TurnSteerInput = record { sequence = inc64 h.mailbox.next; content = input } in
    let next : inc64 h.mailbox.next ≡ length h.accepted + 1 = omega (arith, i.count, room) in
    record {
      in_order =
          subst (λ l. IsPart l (h.accepted ++ x ∷ []))
            (append_assoc h.delivered h.mailbox.pending (x ∷ [])) (IsPart-snoc _ _ x i.in_order);
      numbered = Numbered-snoc 0 h.accepted x i.numbered (omega (arith, next));
      count = next ∙ sym (length-append h.accepted (x ∷ []));
      stopped = λ c. absurd (ground arith);
    }

-- What an enqueuing does to a history.
abbrev pub after : History → TurnSteerMailbox × Result SteerError TurnSteerInput → History
after h (m, result) = record h { mailbox = m; accepted = note_accepted h.accepted result }

unless_ended-holds :
    (P : TurnSteerMailbox × Result SteerError TurnSteerInput → Type 0) (r : Reading)
    (m : TurnSteerMailbox) (go : TurnSteerMailbox × Result SteerError TurnSteerInput)
    → ((e : SteerError) → P (m, err e))
    → P go
    → P (unless_ended r m go)
unfolding unless_ended
unless_ended-holds P none m go h k = k
unless_ended-holds P (some e) m go h k = h (context_ended e)

-- An enqueuing is refused or accepts its input into an open mailbox.
pub enqueue-holds :
    (P : TurnSteerMailbox × Result SteerError TurnSteerInput → Type 0) (before under : Reading)
    (m : TurnSteerMailbox) (input : Text)
    → ((e : SteerError) → P (m, err e))
    → (m.closed ≡ false → P (accept m input))
    → P (enqueue before under m input)
unfolding enqueue
enqueue-holds P before under m input refused accepted =
    if-holds P (is_empty (trim_space input)) _ _ (λ _. refused empty_input)
      (λ _. unless_ended-holds P before m _ refused (
        if-holds P m.closed _ _ (λ _. refused turn_not_steerable)
          (λ o. unless_ended-holds P under m _ refused (accepted o))))

enqueue-IsFair :
    (before under : Reading) (input : Text) (h : History)
    → IsFair h
    → accepted_count h + 1 < limit
    → IsFair (after h (enqueue before under h.mailbox input))
unfolding note_accepted
enqueue-IsFair before under input h i room =
    enqueue-holds (λ r. IsFair (after h r)) before under h.mailbox input (λ _. i)
      (λ o. accept-IsFair h input i o room)

take-IsFair : (h : History) → IsFair h → IsFair (call take h)
unfolding call take_turn_steers
take-IsFair h i =
    if-holds {A = TurnSteerMailbox × List TurnSteerInput × List TurnSteerInput}
      (λ r. IsFair (record h { mailbox = r.0; delivered = h.delivered ++ r.1 }))
      (h.mailbox.closed || nothing_pending h.mailbox.pending) (h.mailbox, [], []) _
      (λ _. record {
        in_order =
            subst (λ l. IsPart (l ++ h.mailbox.pending) h.accepted) (sym (append-nil h.delivered))
              i.in_order;
        numbered = i.numbered;
        count = i.count;
        stopped = i.stopped;
      })
      (λ _. record {
        in_order =
            subst (λ l. IsPart l h.accepted) (sym (append-nil (h.delivered ++ h.mailbox.pending)))
              i.in_order;
        numbered = i.numbered;
        count = i.count;
        stopped = λ _. refl;
      })

-- Without its pending inputs a history stays fair.
drop_pending-IsFair :
    (h : History) (m : TurnSteerMailbox)
    → IsFair h
    → m.next ≡ h.mailbox.next
    → m.pending ≡ []
    → IsFair (record h { mailbox = m })
drop_pending-IsFair h m i e n = record {
  in_order =
      subst (λ l. IsPart (h.delivered ++ l) h.accepted) (sym n)
        (subst (λ l. IsPart l h.accepted) (sym (append-nil h.delivered))
          (IsPart-front h.delivered h.mailbox.pending h.accepted i.in_order));
  numbered = i.numbered;
  count = e ∙ i.count;
  stopped = λ _. n;
}

call-IsFair : (c : Call) (h : History) → IsFair h → accepted_count h + 1 < limit → IsFair (call c h)
unfolding call close discard set_consumed_observer
call-IsFair (enqueue_input before under input) h i room = enqueue-IsFair before under input h i room
call-IsFair take h i room = take-IsFair h i
call-IsFair close_mailbox h i room =
    if-holds (λ m. IsFair (record h { mailbox = m })) h.mailbox.closed h.mailbox _ (λ _. i)
      (λ _. drop_pending-IsFair h _ i refl refl)
call-IsFair discard_inputs h i room = drop_pending-IsFair h _ i refl refl
call-IsFair observe h i room = record {
  in_order = i.in_order;
  numbered = i.numbered;
  count = i.count;
  stopped = i.stopped;
}

call-accepted_count : (c : Call) (h : History) → accepted_count (call c h) ≤ accepted_count h + 1
unfolding call note_accepted
call-accepted_count (enqueue_input before under input) h =
    elim (enqueue before under h.mailbox input).1
      as (λ r. length (note_accepted h.accepted r) ≤ accepted_count h + 1) [
        | ok x ↦ omega (arith, length-append h.accepted (x ∷ []))
        | err e ↦ omega arith
      ]
call-accepted_count take h = omega arith
call-accepted_count close_mailbox h = omega arith
call-accepted_count discard_inputs h = omega arith
call-accepted_count observe h = omega arith

calls-IsFair :
    (cs : List Call) (h : History)
    → IsFair h
    → accepted_count h + length cs < limit
    → IsFair (calls cs h)
unfolding calls
calls-IsFair [] h i room = i
calls-IsFair (c ∷ cs) h i room =
    calls-IsFair cs (call c h) (call-IsFair c h i (omega (arith, room)))
      (omega (arith, room, call-accepted_count c h))

-- In a history of fewer than 2 ^ 64 calls the inputs that a mailbox accepts are numbered 1, 2, 3 and
-- so on, and those that it delivers are some of these, in this order and each at most once.
pub calls_deliver_once :
    (cs : List Call)
    → length cs < limit
    → Numbered 0 (calls cs new_history).accepted
      × IsPart (calls cs new_history).delivered (calls cs new_history).accepted
calls_deliver_once cs short =
    let start : IsFair new_history = record {
      in_order = nil;
      numbered = tt;
      count = refl;
      stopped = λ _. refl;
    } in
    let i = calls-IsFair cs new_history start (omega (arith, short)) in
    let h = calls cs new_history in
    (i.numbered, IsPart-front h.delivered h.mailbox.pending h.accepted i.in_order)
