-- ===== src/Guard/Counters.antt =====
-- The counters of a turn budget stay within their limits.
use eino_local_assistant.Prelude.{
  ℕ, ◌+◌, ◌≤◌, ◌≡◌, refl, Option, none, some, List, [], ◌∷◌, arith, leb, if◌then◌else◌, Text,
  text_eq, Dict, lookup, insert, lookup-insert, Bool-cases, inl, inr, is_empty,
}
use eino_local_assistant.Guard.Budget.{
  AdmittedToolCall, ToolCall, TurnBudget, Json, canonical_tool_call_key,
}
use eino_local_assistant.Guard.Errors.{Error}
use eino_local_assistant.Guard.Admission.{
  Decision, count_of, decide, settle, commit, admit_checked, admit_tool_batch, claim, start_direct,
  start_found, start_tool_call,
}

-- No key has been counted above a limit.
abbrev pub CountsBelow : ℕ → Dict ℕ → Type 0
CountsBelow limit counts = (k : Text) → count_of k counts ≤ limit

-- Every counter is within its limit.
pub record IsWithin (b : TurnBudget) : Type 0 where
  pub calls : b.tool_calls ≤ b.max_tool_calls
  pub steps : b.model_steps ≤ b.max_model_steps
  pub equivalent : CountsBelow b.max_consecutive_equivalent_tool_calls b.equivalent_tool_calls

pub count_of-insert :
    (k j : Text) (n : ℕ) (m : Dict ℕ)
    → count_of j (insert k n m) ≡ (if text_eq k j then n else count_of j m)
unfolding count_of
count_of-insert k j n m = ground (arith, lookup-insert k j n m)

pub CountsBelow-count :
    (limit : ℕ) (k : Text) (counts : Dict ℕ)
    → CountsBelow limit counts
    → CountsBelow limit
        (if leb limit (count_of k counts) then counts else insert k (count_of k counts + 1) counts)
CountsBelow-count limit k counts h j =
    ground (arith, h j, h k, count_of-insert k j (count_of k counts + 1) counts)

pub CountsBelow-empty : (limit : ℕ) → CountsBelow limit []
unfolding count_of lookup
CountsBelow-empty limit k = omega arith

module _ (json : Json) where
  decide-CountsBelow :
      (limit : ℕ) (counts : Dict ℕ) (cs : List ToolCall)
      → CountsBelow limit counts
      → CountsBelow limit (decide json limit counts cs).1
  unfolding decide
  decide-CountsBelow limit counts [] h = h
  decide-CountsBelow limit counts (c ∷ cs) h =
      let key = canonical_tool_call_key json c in
      let n = count_of key counts in
      decide-CountsBelow limit (if leb limit n then counts else insert key (n + 1) counts) cs
        (CountsBelow-count limit key counts h)

commit-IsWithin :
    (b : TurnBudget) (ds : List Decision) (counts : Dict ℕ)
    → CountsBelow b.max_consecutive_equivalent_tool_calls counts
    → IsWithin b
    → IsWithin (commit (settle b ds counts)).0
unfolding commit settle
commit-IsWithin b ds counts h w = record {
  calls = ground arith;
  steps = ground arith;
  equivalent = λ k. ground (arith, h k, w.equivalent k);
}

module _ (json : Json) where
  admit_checked-IsWithin :
      (b : TurnBudget) (cs : List ToolCall) (r : Option Error)
      → IsWithin b
      → IsWithin (admit_checked json b cs r).0
  unfolding admit_checked
  admit_checked-IsWithin b cs (some e) w = w
  admit_checked-IsWithin b cs none w =
      commit-IsWithin b _ _ (decide-CountsBelow json _ _ cs w.equivalent) w

  pub admit_tool_batch-IsWithin :
      (b : TurnBudget) (cs : List ToolCall) → IsWithin b → IsWithin (admit_tool_batch json b cs).0
  unfolding admit_tool_batch
  admit_tool_batch-IsWithin b [] w = w
  admit_tool_batch-IsWithin b (c ∷ cs) w = admit_checked-IsWithin b (c ∷ cs) _ w

start_direct-IsWithin : (b : TurnBudget) (key : Text) → IsWithin b → IsWithin (start_direct b key).0
unfolding start_direct
start_direct-IsWithin b key w =
    let n = count_of key b.equivalent_tool_calls in
    record {
      calls = ground arith;
      steps = ground arith;
      equivalent = λ k.
          ground (arith, w.equivalent k, count_of-insert key k (n + 1) b.equivalent_tool_calls);
    }

claim-IsWithin :
    (b : TurnBudget) (id key : Text) (a : AdmittedToolCall)
    → IsWithin b
    → IsWithin (claim b id key a).0
unfolding claim
claim-IsWithin b id key a w = record {
  calls = ground arith;
  steps = ground arith;
  equivalent = λ k. ground (arith, w.equivalent k);
}

start_found-IsWithin :
    (b : TurnBudget) (id key : Text) (o : Option AdmittedToolCall)
    → IsWithin b
    → IsWithin (start_found b id key o).0
unfolding start_found
start_found-IsWithin b id key none w = start_direct-IsWithin b key w
start_found-IsWithin b id key (some a) w = elim (Bool-cases (is_empty id)) [
  | inl e ↦ rw (e, start_found) (start_direct-IsWithin b key w)
  | inr e ↦ rw (e, start_found) (claim-IsWithin b id key a w)
]

pub start_tool_call-IsWithin :
    (json : Json) (b : TurnBudget) (c : ToolCall)
    → IsWithin b
    → IsWithin (start_tool_call json b c).0
unfolding start_tool_call
start_tool_call-IsWithin json b c w = start_found-IsWithin b _ _ _ w

settle-max :
    (b : TurnBudget) (ds : List Decision) (counts : Dict ℕ)
    → (commit (settle b ds counts)).0.max_tool_calls ≡ b.max_tool_calls
unfolding commit settle
settle-max b ds counts = ground arith

module _ (json : Json) where
  admit_checked-max :
      (b : TurnBudget) (cs : List ToolCall) (r : Option Error)
      → (admit_checked json b cs r).0.max_tool_calls ≡ b.max_tool_calls
  unfolding admit_checked
  admit_checked-max b cs (some e) = refl
  admit_checked-max b cs none = settle-max b _ _

  pub admit_tool_batch-max :
      (b : TurnBudget) (cs : List ToolCall)
      → (admit_tool_batch json b cs).0.max_tool_calls ≡ b.max_tool_calls
  unfolding admit_tool_batch
  admit_tool_batch-max b [] = refl
  admit_tool_batch-max b (c ∷ cs) = admit_checked-max b (c ∷ cs) _

  pub start_tool_call-max :
      (b : TurnBudget) (c : ToolCall)
      → (start_tool_call json b c).0.max_tool_calls ≡ b.max_tool_calls
  unfolding start_tool_call start_found start_direct claim
  start_tool_call-max b c = ground arith
