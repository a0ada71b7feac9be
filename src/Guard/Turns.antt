-- ===== src/Guard/Turns.antt =====
-- Whole turns: a new turn keeps its limits to the end.
use eino_local_assistant.Prelude.{ℕ, ◌≤◌, ◌≡◌, Option, List, arith, pos_part, weigh, refl}
use eino_local_assistant.Guard.Errors.{Error}
use eino_local_assistant.Guard.Options.{TurnOptions, ok, normalize_turn_options}
use eino_local_assistant.Guard.Budget.{Json}
use eino_local_assistant.Guard.Counters.{IsWithin, CountsBelow-empty}
use eino_local_assistant.Guard.Safety.{Call, run, run_begins_bounded, run-IsWithin}
use eino_local_assistant.Guard.Contexts.{new_budget}

new_budget-IsWithin :
    (o : TurnOptions) (d : ℕ) (cause : Option Error) → IsWithin (new_budget o d cause)
unfolding new_budget
new_budget-IsWithin o d cause = record {
  calls = omega arith;
  steps = omega arith;
  equivalent = CountsBelow-empty (pos_part o.max_consecutive_equivalent_tool_calls);
}

-- In a turn with accepted options, any history of calls lets at most `MaxToolCalls` tool invocations
-- begin, and every counter stays within its limit.
pub turn_bounded :
    (json : Json) (opts o : TurnOptions) (d : ℕ) (cause : Option Error) (cs : List Call)
    → normalize_turn_options opts ≡ ok o
    → let (b, begun) = run json (new_budget o d cause) cs in
      (begun ≤ pos_part o.max_tool_calls) × IsWithin b
unfolding new_budget weigh
turn_bounded json opts o d cause cs h =
    let start = new_budget o d cause in
    (
      omega (arith, run_begins_bounded json start cs (new_budget-IsWithin o d cause) refl),
      run-IsWithin json start cs (new_budget-IsWithin o d cause),
    )
