-- ===== src/Guard/Nesting.antt =====
-- Turns inside turns: what a context that is derived from another takes over.
use eino_local_assistant.Prelude.{ℕ, ◌+◌, ◌≤◌, ◌≡◌, some, List, [], ◌∷◌, pos_part}
use eino_local_assistant.Guard.Options.{TurnOptions, ok, err, normalize_turn_options}
use eino_local_assistant.Guard.Contexts.{Context, Derived, turn, invalid, with_turn_context_at}

-- Turns that are opened one inside the other, each with its options at its time.
abbrev pub then_nest : (Context → Derived) → Derived → Derived
then_nest rest (turn ctx) = rest ctx
then_nest rest (invalid e) = invalid e

abbrev pub nest : List (TurnOptions × ℕ) → Context → Derived
nest [] ctx = turn ctx
nest ((opts, now) ∷ more) ctx = then_nest (nest more) (with_turn_context_at (some ctx) opts now)

-- The inner context ends when the outer one does, or before it.
pub record EndsWith (outer inner : Context) : Type 0 where
  pub err : inner.err ≡ outer.err
  pub cause : inner.cause ≡ outer.cause
  pub deadline : (p : ℕ) → outer.deadline ≡ some p → (d : ℕ) × (inner.deadline ≡ some d) × (d ≤ p)

-- The context ends within the time of a turn with these options that was opened then.
abbrev pub IsTimed : Context → TurnOptions × ℕ → Type 0
IsTimed inner (opts, now) =
    (o : TurnOptions) × (d : ℕ) × (normalize_turn_options opts ≡ ok o)
    × (inner.deadline ≡ some d)
    × (d ≤ now + pos_part o.timeout)
