-- ===== src/Guard/Safety.antt =====
-- Histories of calls on one turn budget: how many tool invocations and model decisions it allows.
use eino_local_assistant.Prelude.{ℕ, ◌+◌, ◌≤◌, ◌≡◌, refl, ◌∙◌, List, [], ◌∷◌, arith, if◌then◌else◌}
use eino_local_assistant.Guard.Budget.{
  ToolCall, TurnBudget, Json, acquire_tool_call, acquire_model_step, acquire_final_response,
  mark_state_changed,
}
use eino_local_assistant.Guard.Admission.{admit_tool_batch, start_tool_call}
use eino_local_assistant.Guard.Slots.{
  pending, Conserves, begins, admit_tool_batch-Conserves, start_tool_call-Conserves,
}
use eino_local_assistant.Guard.Counters.{
  IsWithin, CountsBelow-empty, admit_tool_batch-IsWithin, start_tool_call-IsWithin,
  admit_tool_batch-max, start_tool_call-max,
}

-- The calls that the agent makes on one budget.
pub data Call : Type 0 where
  admit : List ToolCall → Call
  start : ToolCall → Call
  acquire model_step final_response mark_changed : Call

module _ (json : Json) where
  -- A step gives the budget after a call, and 1 if it let a tool invocation begin.
  unfoldable pub step : TurnBudget → Call → TurnBudget × ℕ
  step b (admit cs) = ((admit_tool_batch json b cs).0, 0)
  step b (start c) = let (b', e) = start_tool_call json b c in (b', begins e)
  step b acquire = let (b', taken) = acquire_tool_call b in (b', if taken then 1 else 0)
  step b model_step = ((acquire_model_step b).0, 0)
  step b final_response = ((acquire_final_response b).0, 0)
  step b mark_changed = (mark_state_changed b, 0)

  -- The budget after a history, and the number of invocations that it let begin.
  unfoldable pub run : TurnBudget → List Call → TurnBudget × ℕ
  run b [] = (b, 0)
  run b (c ∷ cs) = let (b', n) = step b c in let (b'', m) = run b' cs in (b'', n + m)

  step-Conserves : (b : TurnBudget) (c : Call) → Conserves b (step b c).0 (step b c).1
  unfolding step acquire_tool_call acquire_model_step acquire_final_response mark_state_changed
  step-Conserves b (admit cs) = omega (arith, admit_tool_batch-Conserves json b cs)
  step-Conserves b (start c) = start_tool_call-Conserves json b c
  step-Conserves b acquire = ground arith
  step-Conserves b model_step = ground arith
  step-Conserves b final_response = ground arith
  step-Conserves b mark_changed = omega arith

  step-IsWithin : (b : TurnBudget) (c : Call) → IsWithin b → IsWithin (step b c).0
  unfolding step acquire_tool_call acquire_model_step acquire_final_response mark_state_changed
  step-IsWithin b (admit cs) w = admit_tool_batch-IsWithin json b cs w
  step-IsWithin b (start c) w = start_tool_call-IsWithin json b c w
  step-IsWithin b acquire w = record {
    calls = ground arith;
    steps = ground arith;
    equivalent = λ k. ground (arith, w.equivalent k);
  }
  step-IsWithin b model_step w = record {
    calls = ground arith;
    steps = ground arith;
    equivalent = λ k. ground (arith, w.equivalent k);
  }
  step-IsWithin b final_response w = record {
    calls = ground arith;
    steps = ground arith;
    equivalent = λ k. ground (arith, w.equivalent k);
  }
  step-IsWithin b mark_changed w = record {
    calls = w.calls;
    steps = w.steps;
    equivalent = CountsBelow-empty b.max_consecutive_equivalent_tool_calls;
  }

  run-Conserves : (b : TurnBudget) (cs : List Call) → Conserves b (run b cs).0 (run b cs).1
  unfolding run
  run-Conserves b [] = omega arith
  run-Conserves b (c ∷ cs) = omega (arith, step-Conserves b c, run-Conserves (step b c).0 cs)

  -- After any history every counter is within its limit: tool calls, model steps, and the equivalent
  -- calls under each key.
  pub run-IsWithin : (b : TurnBudget) (cs : List Call) → IsWithin b → IsWithin (run b cs).0
  unfolding run
  run-IsWithin b [] w = w
  run-IsWithin b (c ∷ cs) w = run-IsWithin (step b c).0 cs (step-IsWithin b c w)

  step-max : (b : TurnBudget) (c : Call) → (step b c).0.max_tool_calls ≡ b.max_tool_calls
  unfolding step acquire_tool_call acquire_model_step acquire_final_response mark_state_changed
  step-max b (admit cs) = admit_tool_batch-max json b cs
  step-max b (start c) = start_tool_call-max json b c
  step-max b acquire = ground arith
  step-max b model_step = ground arith
  step-max b final_response = ground arith
  step-max b mark_changed = refl

  run-max : (b : TurnBudget) (cs : List Call) → (run b cs).0.max_tool_calls ≡ b.max_tool_calls
  unfolding run
  run-max b [] = refl
  run-max b (c ∷ cs) = run-max (step b c).0 cs ∙ step-max b c

  -- From a budget whose counters are within their limits and that has no pending call, no history
  -- of calls, batches and direct starts in any order, lets more tool invocations begin than the
  -- slots that were left.
  pub run_begins_bounded :
      (b : TurnBudget) (cs : List Call)
      → IsWithin b
      → pending b ≡ 0
      → b.tool_calls + (run b cs).1 ≤ b.max_tool_calls
  run_begins_bounded b cs w p =
      omega (arith, run-Conserves b cs, run-max b cs, (run-IsWithin b cs w).calls)
