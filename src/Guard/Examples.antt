-- ===== src/Guard/Examples.antt =====
-- The theorems on turn limits at concrete inputs, and tests of the operations.
use eino_local_assistant.Prelude.{
  ◌≤◌, ◌≡◌, refl, none, some, List, [], ◌∷◌, arith, pos, codes, Text, text_eq, is_empty, trim_space,
  lookup, insert, weigh,
}
use eino_local_assistant.Guard.Errors.{tool_call_already_started}
use eino_local_assistant.Guard.Options.{
  TurnOptions, ok, default_turn_options, normalize_turn_options, normalize_turn_options_iff,
  IsAcceptable, IsUsable,
}
use eino_local_assistant.Guard.Budget.{
  ToolCall, TurnBudget, Json, canonical_tool_call_key, acquire_tool_call, mark_state_changed,
}
use eino_local_assistant.Guard.Admission.{
  admit_tool_batch, start_tool_call, check_ids, count_of, decide, settle, commit, deny_budget,
  entry_of, record_all, start_found, start_direct, claim,
}
use eino_local_assistant.Guard.Slots.{pending}
use eino_local_assistant.Guard.Counters.{IsWithin, CountsBelow-empty}
use eino_local_assistant.Guard.Batch.{Answers, admit_tool_batch-Answers}
use eino_local_assistant.Guard.Starts.{start_tool_call_once}
use eino_local_assistant.Guard.Safety.{Call, admit, start, acquire, mark_changed, step, run}
use eino_local_assistant.Guard.Contexts.{Context, new_budget}
use eino_local_assistant.Guard.Turns.{turn_bounded}

-- A codec that reads the whole text as one value and prints it as it was.
abbrev plain_json : Json
plain_json = record { Value = Text; decode = λ t. some (t, []); marshal = λ v. some v }

abbrev read_file : ToolCall
read_file = record { id = codes "a"; name = codes "read"; arguments = codes "{}" }

abbrev list_files : ToolCall
list_files = record { id = codes "b"; name = codes "list"; arguments = [] }

abbrev small_options : TurnOptions
small_options = record default_turn_options { max_tool_calls = pos 2 }

-- The default limit on equivalent calls is lowered to the limit on tool calls.
abbrev small_limits : TurnOptions
small_limits = record small_options { max_consecutive_equivalent_tool_calls = pos 2 }

small_options_ok :
    normalize_turn_options (record small_options { max_consecutive_equivalent_tool_calls = pos 0 })
    ≡ ok small_limits
unfolding normalize_turn_options
small_options_ok = refl

abbrev budget : TurnBudget
budget = new_budget small_limits 100 none

abbrev history : List Call
history =
    admit (read_file ∷ list_files ∷ [])
    ∷ start read_file
    ∷ start read_file
    ∷ mark_changed
    ∷ start list_files
    ∷ acquire
    ∷ []

budget-IsWithin : IsWithin budget
unfolding new_budget
budget-IsWithin = record {
  calls = omega arith;
  steps = omega arith;
  equivalent = CountsBelow-empty 2;
}

budget-pending : pending budget ≡ 0
unfolding new_budget weigh
budget-pending = refl

normalize_turn_options_iff_example :
    (IsAcceptable small_limits → (o : TurnOptions) × (normalize_turn_options small_limits ≡ ok o))
    × ((o : TurnOptions)
        → normalize_turn_options small_limits ≡ ok o
        → IsAcceptable small_limits × IsUsable o)
normalize_turn_options_iff_example = normalize_turn_options_iff small_limits

turn_bounded_example :
    ((run plain_json budget history).1 ≤ 2) × IsWithin (run plain_json budget history).0
turn_bounded_example =
    turn_bounded plain_json (record small_options { max_consecutive_equivalent_tool_calls = pos 0 })
      small_limits 100 none history small_options_ok

-- Three equal calls.
abbrev read_again : ToolCall
read_again = record read_file { id = codes "c" }

abbrev read_thrice : List ToolCall
read_thrice = read_file ∷ read_again ∷ record read_file { id = codes "d" } ∷ []

admit_tool_batch-Answers_example :
    Answers plain_json budget read_thrice (admit_tool_batch plain_json budget read_thrice)
admit_tool_batch-Answers_example = admit_tool_batch-Answers plain_json budget read_thrice

abbrev admitted_budget : TurnBudget
admitted_budget = (admit_tool_batch plain_json budget (read_file ∷ list_files ∷ [])).0

abbrev started_budget : TurnBudget
started_budget = (start_tool_call plain_json admitted_budget read_file).0

-- What may come between two starts.
abbrev between : List Call
between = mark_changed ∷ admit (read_again ∷ []) ∷ start list_files ∷ []

start_tool_call_once_example :
    let (later, _) = run plain_json started_budget between in
    start_tool_call plain_json later read_file ≡ (later, some tool_call_already_started)
unfolding new_budget admit_tool_batch check_ids decide settle commit deny_budget entry_of record_all
    start_tool_call start_found claim canonical_tool_call_key count_of lookup insert text_eq
    trim_space is_empty
start_tool_call_once_example =
    start_tool_call_once plain_json admitted_budget started_budget read_file read_file between refl
      refl refl

-- A turn of two nanoseconds inside one of the default length, under a deadline.
abbrev root : Context
root = record { err = none; cause = none; deadline = some 50; budget = none }

abbrev short_options : TurnOptions
short_options = record small_limits { timeout = pos 2 }

abbrev inner : Context
inner = record root { deadline = some 22; budget = some (new_budget short_options 22 none) }

-- Two invocations began, the repeated start and the direct one were refused.
history_begins_two : (run plain_json budget history).1 ≡ 2
unfolding run step acquire_tool_call mark_state_changed new_budget admit_tool_batch check_ids decide
    settle commit deny_budget entry_of record_all start_tool_call start_found start_direct claim
    canonical_tool_call_key count_of lookup insert text_eq trim_space is_empty
history_begins_two = refl
