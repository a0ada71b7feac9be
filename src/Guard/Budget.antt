-- ===== src/Guard/Budget.antt =====
-- `TurnBudget`: its counters, its admitted calls, and the canonical key of a tool call.
use eino_local_assistant.Prelude.{
  ℕ, ◌+◌, ◌-◌, Bool, true, false, ◌||◌, Option, none, some, [], ◌∷◌, ◌++◌, leb, ◌==◌, if◌then◌else◌,
  all, Text, codes, trim_space, is_empty, Dict,
}
use eino_local_assistant.Guard.Errors.{Error}

pub record AdmittedToolCall : Type 0 where
  pub key : Text
  pub allowed : Bool
  pub err : Option Error
  pub started : Bool

pub record ToolCall : Type 0 where
  pub id : Text
  pub name : Text
  pub arguments : Text

pub record ToolAdmission : Type 0 where
  pub call_id : Text
  pub allowed : Bool
  pub reason : Text

-- The turn's own context: its deadline, and what `context.Cause` answers for it.
pub record TurnContext : Type 0 where
  pub deadline : ℕ
  pub cause : Option Error

-- The limits are positive (Options), so they are numbers here.
pub record TurnBudget : Type 0 where
  pub max_model_steps : ℕ
  pub model_steps : ℕ
  pub final_response_acquired : Bool
  pub max_tool_calls : ℕ
  pub tool_calls : ℕ
  pub max_consecutive_equivalent_tool_calls : ℕ
  pub equivalent_tool_calls : Dict ℕ
  pub admitted_tool_calls : Dict AdmittedToolCall
  pub has_batch_admissions : Bool
  pub turn_context : TurnContext

unfoldable pub acquire_tool_call : TurnBudget → TurnBudget × Bool
acquire_tool_call b =
    if leb b.max_tool_calls b.tool_calls
    then (b, false)
    else (record b { tool_calls = b.tool_calls + 1 }, true)

unfoldable pub acquire_model_step : TurnBudget → TurnBudget × Bool
acquire_model_step b =
    if leb b.max_model_steps b.model_steps
    then (b, false)
    else (record b { model_steps = b.model_steps + 1 }, true)

unfoldable pub acquire_final_response : TurnBudget → TurnBudget × Bool
acquire_final_response b =
    if b.final_response_acquired
    then (b, false)
    else (record b { final_response_acquired = true }, true)

unfoldable pub mark_state_changed : TurnBudget → TurnBudget
mark_state_changed b = record b { equivalent_tool_calls = [] }

-- The getters answer 0 for a nil budget; `-` on ℕ stops at 0 as the source's test does.
unfoldable pub remaining_tool_calls : Option TurnBudget → ℕ
remaining_tool_calls none = 0
remaining_tool_calls (some b) = b.max_tool_calls - b.tool_calls

unfoldable pub remaining_model_steps : Option TurnBudget → ℕ
remaining_model_steps none = 0
remaining_model_steps (some b) = b.max_model_steps - b.model_steps

-- encoding/json: `decode` reads one value and returns the text behind it, `marshal` prints one.
pub record Json : Type 1 where
  pub Value : Type 0
  pub decode : Text → Option (Value × Text)
  pub marshal : Value → Option Text

-- A second Decode reports io.EOF if only JSON's white space is left.
abbrev pub at_eof : Text → Bool
at_eof = all (λ c. c == 32 || c == 9 || c == 10 || c == 13)

module _ (json : Json) where
  open json use {Value, decode, marshal}

  marshaled : Text → Option Text → Text
  marshaled trimmed none = codes "invalid:" ++ trimmed
  marshaled trimmed (some t) = t

  decoded : Text → Option (Value × Text) → Text
  unfolding marshaled
  decoded trimmed none = codes "invalid:" ++ trimmed
  decoded trimmed (some (v, rest)) =
      if at_eof rest then marshaled trimmed (marshal v) else codes "invalid:" ++ trimmed

  unfoldable pub canonical_json : Text → Text
  unfolding decoded
  canonical_json arguments =
      let trimmed = trim_space arguments in
      if is_empty trimmed then codes "{}" else decoded trimmed (decode trimmed)

  unfoldable pub canonical_tool_call_key : ToolCall → Text
  unfolding canonical_json
  canonical_tool_call_key c = trim_space c.name ++ 0 ∷ canonical_json c.arguments
