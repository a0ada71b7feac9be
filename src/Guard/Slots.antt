-- ===== src/Guard/Slots.antt =====
-- Every slot that the budget has counted is pending under an admitted ID or has begun to run.
use eino_local_assistant.Prelude.{
  ℕ, suc, ◌+◌, ◌≡◌, refl, ap, ◌∙◌, true, ◌||◌, Option, none, some, List, [], ◌∷◌, map, inl, inr,
  arith, if◌then◌else◌, leb, is_some, count_if, any, Bool-cases, Text, text_eq, text_eq_iff,
  trim_space, is_empty, Dict, lookup, insert, weigh, lookup-insert, weigh-insert_new,
  weigh-insert_old,
}
use eino_local_assistant.Guard.Errors.{Error}
use eino_local_assistant.Guard.Budget.{
  AdmittedToolCall, ToolCall, TurnBudget, Json, canonical_tool_call_key,
}
use eino_local_assistant.Guard.Admission.{
  Decision, is_allowed, deny_budget, entry_of, record_all, decide, settle, commit, check_ids,
  admit_checked, admit_tool_batch, claim, start_direct, start_found, start_tool_call, count_of,
}

-- A recorded call that may still claim its slot.
abbrev pub pending_weight : AdmittedToolCall → ℕ
pending_weight a = if is_some a.err || a.started then 0 else 1

abbrev pub pending : TurnBudget → ℕ
pending b = weigh pending_weight b.admitted_tool_calls

pending_weight-entry_of :
    (d : Decision) → pending_weight (entry_of d) ≡ (if is_allowed d then 1 else 0)
unfolding entry_of
pending_weight-entry_of d = ground arith

-- Every recorded ID has been seen, in the batch or before it.
abbrev Covered : Dict AdmittedToolCall → List Text → Dict AdmittedToolCall → Type 0
Covered m seen known =
    (j : Text)
    → is_some (lookup j m) ≡ true
    → (any (text_eq j) seen || is_some (lookup j known)) ≡ true

Covered-insert :
    (id : Text) (e : AdmittedToolCall) (m : Dict AdmittedToolCall) (seen : List Text)
    (known : Dict AdmittedToolCall)
    → Covered m seen known
    → Covered (insert id e m) (id ∷ seen) known
Covered-insert id e m seen known h j p =
    ground (arith, lookup-insert id j e m, text_eq_iff id j, text_eq_iff j id, h j)

abbrev pub calls_of : List Decision → List ToolCall
calls_of = map (λ d. d.call)

weigh-record_all :
    (i : ℕ) (seen : List Text) (known m : Dict AdmittedToolCall) (ds : List Decision)
    → check_ids i seen known (calls_of ds) ≡ none
    → Covered m seen known
    → weigh pending_weight (record_all m ds) ≡ weigh pending_weight m + count_if is_allowed ds
unfolding check_ids record_all
weigh-record_all i seen known m [] h c = ground arith
weigh-record_all i seen known m (d ∷ ds) h c =
    let id = trim_space d.call.id in
    let fresh = c id in
    ground (
      arith,
      fresh,
      weigh-insert_new pending_weight id (entry_of d) m,
      pending_weight-entry_of d,
      weigh-record_all (suc i) (id ∷ seen) known (insert id (entry_of d) m) ds,
      Covered-insert id (entry_of d) m seen known c,
    )

module _ (json : Json) where
  pub calls_of-decide :
      (limit : ℕ) (counts : Dict ℕ) (cs : List ToolCall)
      → calls_of (decide json limit counts cs).0 ≡ cs
  unfolding decide
  calls_of-decide limit counts [] = refl
  calls_of-decide limit counts (c ∷ cs) =
      let key = canonical_tool_call_key json c in
      let n = count_of key counts in
      ap (◌∷◌ c)
        (calls_of-decide limit (if leb limit n then counts else insert key (n + 1) counts) cs)

calls_of-deny_budget : (ds : List Decision) → calls_of (map deny_budget ds) ≡ calls_of ds
unfolding deny_budget
calls_of-deny_budget [] = refl
calls_of-deny_budget (d ∷ ds) = ground (arith, calls_of-deny_budget ds)

pub count_if-deny_budget : (ds : List Decision) → count_if is_allowed (map deny_budget ds) ≡ 0
unfolding deny_budget
count_if-deny_budget [] = refl
count_if-deny_budget (d ∷ ds) = ground (arith, count_if-deny_budget ds)

pub calls_of-settle :
    (b : TurnBudget) (ds : List Decision) (counts : Dict ℕ)
    → calls_of (settle b ds counts).0 ≡ calls_of ds
unfolding settle
calls_of-settle b ds counts = ground (arith, calls_of-deny_budget ds)

-- The slots that a batch reserves are as many as the calls that it allows.
pub settle-slots :
    (b : TurnBudget) (ds : List Decision) (counts : Dict ℕ)
    → let (ds', b') = settle b ds counts in
      (b'.tool_calls ≡ b.tool_calls + count_if is_allowed ds')
      × (b'.admitted_tool_calls ≡ b.admitted_tool_calls)
unfolding settle
settle-slots b ds counts = ground (arith, count_if-deny_budget ds)

Covered-refl : (m : Dict AdmittedToolCall) → Covered m [] m
Covered-refl m j h = h

-- Whatever slots a call takes stay pending or belong to an invocation that has begun.
abbrev pub Conserves : TurnBudget → TurnBudget → ℕ → Type 0
Conserves b b' begun = b'.tool_calls + pending b ≡ b.tool_calls + pending b' + begun

commit-Conserves :
    (b : TurnBudget) (ds : List Decision) (counts : Dict ℕ)
    → check_ids 0 [] b.admitted_tool_calls (calls_of ds) ≡ none
    → Conserves b (commit (settle b ds counts)).0 0
unfolding commit
commit-Conserves b ds counts fresh =
    let m = b.admitted_tool_calls in
    let (ds', b') = settle b ds counts in
    omega (
      arith,
      settle-slots b ds counts,
      ap (weigh pending_weight)
          (ap (λ (x : Dict AdmittedToolCall). record_all x ds') (settle-slots b ds counts).1),
      weigh-record_all 0 [] m m ds' (ap (check_ids 0 [] m) (calls_of-settle b ds counts) ∙ fresh)
          (Covered-refl m),
    )

module _ (json : Json) where
  admit_checked-Conserves :
      (b : TurnBudget) (cs : List ToolCall) (r : Option Error)
      → check_ids 0 [] b.admitted_tool_calls cs ≡ r
      → Conserves b (admit_checked json b cs r).0 0
  unfolding admit_checked
  admit_checked-Conserves b cs (some e) h = omega arith
  admit_checked-Conserves b cs none h = commit-Conserves b _ _ (
      ap (check_ids 0 [] b.admitted_tool_calls)
        (calls_of-decide json b.max_consecutive_equivalent_tool_calls b.equivalent_tool_calls cs)
      ∙ h)

  pub admit_tool_batch-Conserves :
      (b : TurnBudget) (cs : List ToolCall) → Conserves b (admit_tool_batch json b cs).0 0
  unfolding admit_tool_batch
  admit_tool_batch-Conserves b [] = omega arith
  admit_tool_batch-Conserves b (c ∷ cs) = admit_checked-Conserves b (c ∷ cs) _ refl

-- 1 if the invocation may run.
abbrev pub begins : Option Error → ℕ
begins none = 1
begins (some _) = 0

claim-Conserves :
    (b : TurnBudget) (id key : Text) (a : AdmittedToolCall)
    → lookup id b.admitted_tool_calls ≡ some a
    → Conserves b (claim b id key a).0 (begins (claim b id key a).1)
unfolding claim
claim-Conserves b id key a h = ground (
  arith,
  weigh-insert_old pending_weight id (record a { started = true }) a b.admitted_tool_calls h,
)

start_direct-Conserves :
    (b : TurnBudget) (key : Text)
    → Conserves b (start_direct b key).0 (begins (start_direct b key).1)
unfolding start_direct
start_direct-Conserves b key = ground arith

pub start_found-Conserves :
    (b : TurnBudget) (id key : Text) (o : Option AdmittedToolCall)
    → lookup id b.admitted_tool_calls ≡ o
    → Conserves b (start_found b id key o).0 (begins (start_found b id key o).1)
unfolding start_found
start_found-Conserves b id key none h = start_direct-Conserves b key
start_found-Conserves b id key (some a) h = elim (Bool-cases (is_empty id)) [
  | inl e ↦ rw (e, start_found) (start_direct-Conserves b key)
  | inr e ↦ rw (e, start_found) (claim-Conserves b id key a h)
]

pub start_tool_call-Conserves :
    (json : Json) (b : TurnBudget) (c : ToolCall)
    → Conserves b (start_tool_call json b c).0 (begins (start_tool_call json b c).1)
unfolding start_tool_call
start_tool_call-Conserves json b c = start_found-Conserves b _ _ _ refl
