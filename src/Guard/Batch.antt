-- ===== src/Guard/Batch.antt =====
-- What `admitToolBatch` answers, by a description that keeps no counters: a call is a repeat when the
-- equivalent calls before it, those of the turn and those of the batch, have reached the limit.
use eino_local_assistant.Prelude.{
  ℕ, ◌+◌, ◌≡◌, refl, ◌∙◌, ap, Bool, true, false, Option, none, some, List, [], ◌∷◌, map, arith, leb,
  Bool-cases, if◌then◌else◌, count_if, inl, inr, Text, text_eq, text_eq_iff, Dict, insert,
}
use eino_local_assistant.Guard.Errors.{
  Error, tool_call_budget_exceeded, equivalent_tool_call_limit_exceeded,
}
use eino_local_assistant.Guard.Budget.{
  ToolCall, ToolAdmission, TurnBudget, Json, canonical_tool_call_key,
}
use eino_local_assistant.Guard.Ids.{is_fresh, check_ids-is_fresh}
use eino_local_assistant.Guard.Counters.{count_of-insert}
use eino_local_assistant.Guard.Admission.{
  Batch, admitted, refused, Decision, allow, deny, count_of, decide, deny_budget, settle, commit,
  check_ids, admit_checked, admit_tool_batch, is_allowed,
}

abbrev pub admissions_of : List Decision → List ToolAdmission
admissions_of = map (λ d. d.admission)

-- How many of the calls have this key.
abbrev pub occurrences : Json → Text → List ToolCall → ℕ
occurrences json key = count_if (λ c. text_eq key (canonical_tool_call_key json c))

-- Whether a call comes too often, after the calls of the turn and the earlier ones of the batch.
abbrev pub is_repeat : Json → ℕ → Dict ℕ → List ToolCall → ToolCall → Bool
is_repeat json limit counts earlier c =
    let key = canonical_tool_call_key json c in
    leb limit (count_of key counts + occurrences json key earlier)

-- The slots that the batch asks for.
abbrev pub demand : Json → ℕ → Dict ℕ → List ToolCall → List ToolCall → ℕ
demand json limit counts earlier [] = 0
demand json limit counts earlier (c ∷ cs) =
    (if is_repeat json limit counts earlier c then 0 else 1)
    + demand json limit counts (c ∷ earlier) cs

-- The answers, in the order of the calls, by whether there is room for the demand.
abbrev pub answers : Json → ℕ → Dict ℕ → Bool → List ToolCall → List ToolCall → List ToolAdmission
answers json limit counts room earlier [] = []
answers json limit counts room earlier (c ∷ cs) =
    (if is_repeat json limit counts earlier c
      then deny equivalent_tool_call_limit_exceeded c
      else if room
      then allow c
      else deny tool_call_budget_exceeded c)
    ∷ answers json limit counts room (c ∷ earlier) cs

-- A counter after some equivalent calls: it does not go above the limit.
abbrev pub raised : ℕ → ℕ → ℕ → ℕ
raised limit n k = if leb limit n then n else if leb limit (n + k) then limit else n + k

-- The tentative counters are those of the turn, raised by the earlier calls of the batch.
abbrev Tracks : Json → ℕ → Dict ℕ → List ToolCall → Dict ℕ → Type 0
Tracks json limit counts earlier now =
    (key : Text)
    → count_of key now ≡ raised limit (count_of key counts) (occurrences json key earlier)

module _ (json : Json) (limit : ℕ) (counts : Dict ℕ) where
  Tracks-next :
      (earlier : List ToolCall) (now : Dict ℕ) (c : ToolCall)
      → Tracks json limit counts earlier now
      → let key = canonical_tool_call_key json c in
        let n = count_of key now in
        Tracks json limit counts (c ∷ earlier) (if leb limit n then now else insert key (n + 1) now)
  Tracks-next earlier now c h k =
      let key = canonical_tool_call_key json c in
      let n = count_of key now in
      ground
        (arith, h k, h key, count_of-insert key k (n + 1) now, text_eq_iff k key, text_eq_iff key k)

  Tracks-full :
      (earlier : List ToolCall) (now : Dict ℕ) (c : ToolCall)
      → Tracks json limit counts earlier now
      → leb limit (count_of (canonical_tool_call_key json c) now)
        ≡ is_repeat json limit counts earlier c
  Tracks-full earlier now c h = ground (arith, h (canonical_tool_call_key json c))

  decide-answers :
      (earlier : List ToolCall) (now : Dict ℕ) (cs : List ToolCall)
      → Tracks json limit counts earlier now
      → let (ds, _) = decide json limit now cs in
        (admissions_of ds ≡ answers json limit counts true earlier cs)
        × (admissions_of (map deny_budget ds) ≡ answers json limit counts false earlier cs)
        × (count_if is_allowed ds ≡ demand json limit counts earlier cs)
  unfolding decide deny_budget
  decide-answers earlier now [] h = (refl, refl, refl)
  decide-answers earlier now (c ∷ cs) h =
      let n = count_of (canonical_tool_call_key json c) now in
      let next = if leb limit n then now else insert (canonical_tool_call_key json c) (n + 1) now in
      let (granted, denied, slots) =
        decide-answers (c ∷ earlier) next cs (Tracks-next earlier now c h) in
      let full = Tracks-full earlier now c h in
      (ground (arith, granted, full), ground (arith, denied, full), ground (arith, slots, full))

  decide-raised :
      (earlier : List ToolCall) (now : Dict ℕ) (cs : List ToolCall) (key : Text)
      → Tracks json limit counts earlier now
      → count_of key (decide json limit now cs).1
        ≡ raised limit
            (count_of key counts)
            (occurrences json key earlier + occurrences json key cs)
  unfolding decide
  decide-raised earlier now [] key h = h key ∙ ap (raised limit (count_of key counts)) (omega arith)
  decide-raised earlier now (c ∷ cs) key h =
      let n = count_of (canonical_tool_call_key json c) now in
      let next = if leb limit n then now else insert (canonical_tool_call_key json c) (n + 1) now in
      decide-raised (c ∷ earlier) next cs key (Tracks-next earlier now c h)
      ∙ ap (raised limit (count_of key counts)) (omega arith)

  Tracks-first : Tracks json limit counts [] counts
  Tracks-first key = ground arith

abbrev pub demand_of : Json → TurnBudget → List ToolCall → ℕ
demand_of json b cs =
    demand json b.max_consecutive_equivalent_tool_calls b.equivalent_tool_calls [] cs

-- Whether all calls that are not repeats fit the slots that are left.
abbrev pub has_room : Json → TurnBudget → List ToolCall → Bool
has_room json b cs = leb (b.tool_calls + demand_of json b cs) b.max_tool_calls

-- The answer to a batch whose IDs are in order, and what it leaves of the slots and of the counters.
pub record IsAnswered (json : Json) (b : TurnBudget) (cs : List ToolCall) (b' : TurnBudget)
    (xs : List ToolAdmission) : Type 0 where
  answer :
      xs
      ≡ answers json b.max_consecutive_equivalent_tool_calls b.equivalent_tool_calls
          (has_room json b cs)
          []
          cs
  slots :
      b'.tool_calls
      ≡ (if has_room json b cs then b.tool_calls + demand_of json b cs else b.tool_calls)
  counters :
      (key : Text)
      → count_of key b'.equivalent_tool_calls ≡ (
          if has_room json b cs
          then raised b.max_consecutive_equivalent_tool_calls
              (count_of key b.equivalent_tool_calls)
              (occurrences json key cs)
          else count_of key b.equivalent_tool_calls)

-- How a batch is answered, by the order of its IDs.
abbrev pub Answers : Json → TurnBudget → List ToolCall → TurnBudget × Batch → Type 0
Answers json b cs (b', admitted xs) = (is_fresh b cs ≡ true) × IsAnswered json b cs b' xs
Answers json b cs (b', refused e) = (is_fresh b cs ≡ false) × (b' ≡ b)

settle-room :
    (b : TurnBudget) (ds : List Decision) (counts : Dict ℕ) (n : ℕ)
    → count_if is_allowed ds ≡ n
    → let room = leb (b.tool_calls + n) b.max_tool_calls in
      settle b ds counts ≡ (
        if room
        then (ds, record b { tool_calls = b.tool_calls + n; equivalent_tool_calls = counts })
        else (map deny_budget ds, b))
unfolding settle
settle-room b ds counts n h = ground arith

module _ (json : Json) (b : TurnBudget) where
  commit-IsAnswered :
      (cs : List ToolCall)
      → let (ds, counts) =
          decide json b.max_consecutive_equivalent_tool_calls b.equivalent_tool_calls cs in
        IsAnswered json b cs (commit (settle b ds counts)).0 (admissions_of (settle b ds counts).0)
  unfolding commit
  commit-IsAnswered cs =
      let limit = b.max_consecutive_equivalent_tool_calls in
      let counts = b.equivalent_tool_calls in
      let first = Tracks-first json limit counts in
      let (ds, counts') = decide json limit counts cs in
      let (granted, denied, slots) = decide-answers json limit counts [] counts cs first in
      let raise = λ (k : Text). decide-raised json limit counts [] counts cs k first in
      let settled = settle-room b ds counts' (demand_of json b cs) slots in
      elim (Bool-cases (has_room json b cs)) [
        | inl room ↦ record {
          answer = ground (arith, settled, granted, room);
          slots = ground (arith, settled, room);
          counters = λ k. ground (arith, settled, room, raise k);
        }
        | inr room ↦ record {
          answer = ground (arith, settled, denied, room);
          slots = ground (arith, settled, room);
          counters = λ k. ground (arith, settled, room);
        }
      ]

  admit_checked-Answers :
      (cs : List ToolCall) (r : Option Error)
      → check_ids 0 [] b.admitted_tool_calls cs ≡ r
      → Answers json b cs (admit_checked json b cs r)
  unfolding admit_checked commit
  admit_checked-Answers cs (some e) h = (ground (arith, check_ids-is_fresh b cs), refl)
  admit_checked-Answers cs none h = (ground (arith, check_ids-is_fresh b cs), commit-IsAnswered cs)

  -- A batch is refused, and changes nothing, exactly when an ID in it is blank, was used in the turn
  -- or stands in it twice, where IDs are read without blanks around them.
  -- Any other batch is answered in source order: a call is denied as a repeat exactly when the
  -- equivalent calls of the turn and those before it in the batch have reached the limit; the others
  -- are all allowed when they fit the slots that are left, and otherwise all denied for the budget.
  -- They take one slot each and raise the counters of their kinds up to the limit in the first case,
  -- and in the second neither slots nor counters move.
  pub admit_tool_batch-Answers :
      (cs : List ToolCall) → Answers json b cs (admit_tool_batch json b cs)
  unfolding admit_tool_batch check_ids
  admit_tool_batch-Answers [] =
      (refl, record { answer = refl; slots = ground arith; counters = λ k. ground arith })
  admit_tool_batch-Answers (c ∷ cs) = admit_checked-Answers (c ∷ cs) _ refl
