-- ===== src/Guard/Admission.antt =====
-- `admitToolBatch` and `startToolCall`.
use eino_local_assistant.Prelude.{
  ℕ, suc, ◌+◌, Bool, true, false, ◌||◌, Option, none, some, List, [], ◌∷◌, map, leb, ltb,
  if◌then◌else◌, is_some, count_if, any, Text, text_eq, trim_space, is_empty, Dict, lookup, insert,
}
use eino_local_assistant.Guard.Errors.{
  Error, tool_call_budget_exceeded, equivalent_tool_call_limit_exceeded, tool_call_not_admitted,
  tool_call_admission_mismatch, tool_call_already_started, tool_call_already_admitted,
  tool_call_id_required, at_index, for_id, denial_reason, error_for_denial_reason,
}
use eino_local_assistant.Guard.Budget.{
  AdmittedToolCall, ToolCall, ToolAdmission, TurnBudget, Json, canonical_tool_call_key,
}

pub data Batch : Type 0 where
  admitted : List ToolAdmission → Batch
  refused : Error → Batch

-- A map from strings to counters reads a missing key as 0.
unfoldable pub count_of : Text → Dict ℕ → ℕ
count_of k m = elim (lookup k m) [ none ↦ 0 | some n ↦ n ]

-- The first loop: the first call without an ID, or with one that the batch or the turn has used.
unfoldable pub check_ids : ℕ → List Text → Dict AdmittedToolCall → List ToolCall → Option Error
check_ids i seen known [] = none
check_ids i seen known (c ∷ cs) =
    let id = trim_space c.id in
    let rest = check_ids (suc i) (id ∷ seen) known cs in
    if is_empty id
    then some (at_index i tool_call_id_required)
    else if any (text_eq id) seen || is_some (lookup id known)
    then some (for_id id tool_call_already_admitted)
    else rest

-- One call with its key, and the decision on it.
pub record Decision : Type 0 where
  pub call : ToolCall
  pub key : Text
  pub admission : ToolAdmission

abbrev pub allow : ToolCall → ToolAdmission
allow c = record { call_id = c.id; allowed = true; reason = [] }

abbrev pub deny : Error → ToolCall → ToolAdmission
deny e c = record { call_id = c.id; allowed = false; reason = denial_reason e }

module _ (json : Json) where
  -- The second loop, over the tentative counters.
  unfoldable pub decide : ℕ → Dict ℕ → List ToolCall → List Decision × Dict ℕ
  decide limit counts [] = ([], counts)
  decide limit counts (c ∷ cs) =
      let key = canonical_tool_call_key json c in
      let n = count_of key counts in
      let full = leb limit n in
      let (ds, counts') = decide limit (if full then counts else insert key (n + 1) counts) cs in
      let a = if full then deny equivalent_tool_call_limit_exceeded c else allow c in
      (record { call = c; key = key; admission = a } ∷ ds, counts')

abbrev pub is_allowed : Decision → Bool
is_allowed d = d.admission.allowed

-- Without enough slots for all allowed calls of the batch, every one of them is denied.
unfoldable pub deny_budget : Decision → Decision
deny_budget d =
    if is_allowed d then record d { admission = deny tool_call_budget_exceeded d.call } else d

unfoldable pub entry_of : Decision → AdmittedToolCall
entry_of d = record {
  key = d.key;
  allowed = is_allowed d;
  err = if is_allowed d then none else some (error_for_denial_reason d.admission.reason);
  started = false;
}

-- The last loop records each decision under its ID.
unfoldable pub record_all : Dict AdmittedToolCall → List Decision → Dict AdmittedToolCall
record_all m [] = m
record_all m (d ∷ ds) = record_all (insert (trim_space d.call.id) (entry_of d) m) ds

unfoldable pub settle : TurnBudget → List Decision → Dict ℕ → List Decision × TurnBudget
settle b ds counts =
    let n = count_if is_allowed ds in
    if ltb b.max_tool_calls (b.tool_calls + n)
    then (map deny_budget ds, b)
    else (ds, record b { tool_calls = b.tool_calls + n; equivalent_tool_calls = counts })

unfoldable pub commit : List Decision × TurnBudget → TurnBudget × Batch
commit (ds, b) = (
  record b {
    admitted_tool_calls = record_all b.admitted_tool_calls ds;
    has_batch_admissions = true;
  },
  admitted (map (λ d. d.admission) ds),
)

module _ (json : Json) where
  unfoldable pub admit_checked : TurnBudget → List ToolCall → Option Error → TurnBudget × Batch
  admit_checked b calls (some e) = (b, refused e)
  admit_checked b calls none =
      let (ds, counts) =
        decide json b.max_consecutive_equivalent_tool_calls b.equivalent_tool_calls calls in
      commit (settle b ds counts)

  unfoldable pub admit_tool_batch : TurnBudget → List ToolCall → TurnBudget × Batch
  unfolding admit_checked
  admit_tool_batch b [] = (b, admitted [])
  admit_tool_batch b (c ∷ cs) =
      admit_checked b (c ∷ cs) (check_ids 0 [] b.admitted_tool_calls (c ∷ cs))

-- A call that was admitted under its ID claims its slot, once.
unfoldable pub claim : TurnBudget → Text → Text → AdmittedToolCall → TurnBudget × Option Error
claim b id key a =
    if text_eq a.key key
    then elim a.err [
      | some e ↦ (b, some e)
      | none ↦ if a.started then (b, some tool_call_already_started) else (
        record b {
          admitted_tool_calls = insert id (record a { started = true }) b.admitted_tool_calls;
        },
        none,
      )
    ]
    else (b, some tool_call_admission_mismatch)

-- Without batch admissions a call takes a slot of its own.
unfoldable pub start_direct : TurnBudget → Text → TurnBudget × Option Error
start_direct b key =
    let n = count_of key b.equivalent_tool_calls in
    if b.has_batch_admissions
    then (b, some tool_call_not_admitted)
    else if leb b.max_tool_calls b.tool_calls
    then (b, some tool_call_budget_exceeded)
    else if leb b.max_consecutive_equivalent_tool_calls n
    then (b, some equivalent_tool_call_limit_exceeded)
    else (
      record b {
        tool_calls = b.tool_calls + 1;
        equivalent_tool_calls = insert key (n + 1) b.equivalent_tool_calls;
      },
      none,
    )

unfoldable pub start_found :
    TurnBudget → Text → Text → Option AdmittedToolCall → TurnBudget × Option Error
start_found b id key none = start_direct b key
start_found b id key (some a) = if is_empty id then start_direct b key else claim b id key a

unfoldable pub start_tool_call : Json → TurnBudget → ToolCall → TurnBudget × Option Error
start_tool_call json b c =
    let id = trim_space c.id in
    start_found b id (canonical_tool_call_key json c) (lookup id b.admitted_tool_calls)
