-- ===== src/Guard/Options.antt =====
-- `TurnOptions`, its defaults and `normalizeTurnOptions`.
use eino_local_assistant.Prelude.{
  ◌≤◌, ◌<◌, ◌≡◌, refl, Bool, true, false, Option, none, some, arith, if◌then◌else◌, ℤ, pos, negsuc,
  pos_part, ltb_ℤ, codes, ◌⊎◌, inl, inr,
}
use eino_local_assistant.Guard.Errors.{Error, invalid_options}

pub record TurnOptions : Type 0 where
  pub max_model_steps : ℤ
  pub max_tool_calls : ℤ
  pub max_consecutive_equivalent_tool_calls : ℤ
  pub timeout : ℤ  -- nanoseconds

abbrev pub default_max_tool_calls : ℤ
default_max_tool_calls = pos 16

abbrev pub default_max_model_steps : ℤ
default_max_model_steps = pos 8

abbrev pub default_max_consecutive_equivalent_tool_calls : ℤ
default_max_consecutive_equivalent_tool_calls = pos 3

-- Ten minutes.
abbrev pub default_turn_timeout : ℤ
default_turn_timeout = pos 600_000_000_000

abbrev pub default_turn_options : TurnOptions
default_turn_options = record {
  max_model_steps = default_max_model_steps;
  max_tool_calls = default_max_tool_calls;
  max_consecutive_equivalent_tool_calls = default_max_consecutive_equivalent_tool_calls;
  timeout = default_turn_timeout;
}

abbrev pub is_negative : ℤ → Bool
is_negative (pos _) = false
is_negative (negsuc _) = true

abbrev pub is_zero : ℤ → Bool
is_zero (pos Prim.Native.Nat.zero) = true
is_zero _ = false

pub data Normalized : Type 0 where
  ok : TurnOptions → Normalized
  err : Error → Normalized

-- A zero takes the default.
abbrev pub or_default : ℤ → ℤ → ℤ
or_default v d = if is_zero v then d else v

-- The limit on equivalent calls: the default is lowered to the limit on tool calls, an explicit
-- value above that limit is refused (`none`).
unfoldable pub equivalent_limit : ℤ → ℤ → Option ℤ
equivalent_limit v max_calls =
    if is_zero v
    then some (
        if ltb_ℤ max_calls default_max_consecutive_equivalent_tool_calls
        then max_calls
        else default_max_consecutive_equivalent_tool_calls)
    else if ltb_ℤ max_calls v
    then none
    else some v

finish_options : TurnOptions → Option ℤ → Normalized
finish_options o none =
    err (invalid_options (codes "max consecutive equivalent tool calls must be <= max tool calls"))
finish_options o (some limit) =
    if is_negative o.timeout
    then err (invalid_options (codes "turn timeout must be >= 0"))
    else ok (record o {
      max_consecutive_equivalent_tool_calls = limit;
      timeout = or_default o.timeout default_turn_timeout;
    })

unfoldable pub normalize_turn_options : TurnOptions → Normalized
unfolding equivalent_limit finish_options
normalize_turn_options opts =
    let steps = or_default opts.max_model_steps default_max_model_steps in
    let calls = or_default opts.max_tool_calls default_max_tool_calls in
    if is_negative opts.max_model_steps
    then err (invalid_options (codes "max model steps must be >= 0"))
    else if is_negative opts.max_tool_calls
    then err (invalid_options (codes "max tool calls must be >= 0"))
    else if is_negative opts.max_consecutive_equivalent_tool_calls
    then err (invalid_options (codes "max consecutive equivalent tool calls must be >= 0"))
    else finish_options (record opts { max_model_steps = steps; max_tool_calls = calls })
        (equivalent_limit opts.max_consecutive_equivalent_tool_calls calls)

-- What a turn may rely on.
pub record IsUsable (o : TurnOptions) : Type 0 where
  pub steps : 0 < pos_part o.max_model_steps
  pub calls : 0 < pos_part o.max_tool_calls
  pub equivalent : 0 < pos_part o.max_consecutive_equivalent_tool_calls
  pub within : pos_part o.max_consecutive_equivalent_tool_calls ≤ pos_part o.max_tool_calls
  pub time : 0 < pos_part o.timeout

-- Options that were accepted have positive limits, the limit on equivalent calls not above the one
-- on tool calls.
pub normalize_turn_options-IsUsable :
    (opts o : TurnOptions) → normalize_turn_options opts ≡ ok o → IsUsable o
unfolding normalize_turn_options
normalize_turn_options-IsUsable opts o h = ground arith

-- A request that the package accepts: nothing is negative, and an explicit limit on equivalent calls
-- is not above the limit on tool calls that will be in force.
abbrev pub IsAcceptable : TurnOptions → Type 0
IsAcceptable opts =
    (is_negative opts.max_model_steps ≡ false)
    × (is_negative opts.max_tool_calls ≡ false)
    × (is_negative opts.max_consecutive_equivalent_tool_calls ≡ false)
    × (is_negative opts.timeout ≡ false)
    × (pos_part opts.max_consecutive_equivalent_tool_calls
        ≤ pos_part (or_default opts.max_tool_calls default_max_tool_calls))

Normalized-cases : (r : Normalized) → ((o : TurnOptions) × (r ≡ ok o)) ⊎ ((e : Error) × (r ≡ err e))
Normalized-cases (ok o) = inl (o, refl)
Normalized-cases (err e) = inr (e, refl)

acceptable-not_err :
    (opts : TurnOptions) (e : Error) → IsAcceptable opts → normalize_turn_options opts ≡ err e → ⊥
unfolding normalize_turn_options
acceptable-not_err opts e h r = ground arith

ok-IsAcceptable : (opts o : TurnOptions) → normalize_turn_options opts ≡ ok o → IsAcceptable opts
unfolding normalize_turn_options
ok-IsAcceptable opts o h = ground arith

-- Options are accepted exactly when nothing in them is negative and an explicit limit on equivalent
-- calls is at most the limit on tool calls in force; the accepted limits are then all positive, with
-- the limit on equivalent calls at most the one on tool calls.
pub normalize_turn_options_iff :
    (opts : TurnOptions)
    → (IsAcceptable opts → (o : TurnOptions) × (normalize_turn_options opts ≡ ok o))
      × ((o : TurnOptions) → normalize_turn_options opts ≡ ok o → IsAcceptable opts × IsUsable o)
normalize_turn_options_iff opts = (
  λ h. elim (Normalized-cases (normalize_turn_options opts)) [
    | inl found ↦ found
    | inr (e, r) ↦ absurd (acceptable-not_err opts e h r)
  ],
  λ o r. (ok-IsAcceptable opts o r, normalize_turn_options-IsUsable opts o r),
)
