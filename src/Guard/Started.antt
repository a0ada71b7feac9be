-- ===== src/Guard/Started.antt =====
-- The entry of a call that has started is kept by every operation on the budget.
use mathlib.Core.Path.{subst}
use eino_local_assistant.Prelude.{
  ℕ, suc, ◌≡◌, refl, sym, ◌∙◌, ap, true, false, Option, none, some, List, [], ◌∷◌, arith,
  if◌then◌else◌, is_some, Bool-cases, if-holds, some_inj, inl, inr, Text, text_eq, text_eq_iff,
  text_eq_refl, trim_space, is_empty, Dict, lookup, insert, lookup-insert,
}
use eino_local_assistant.Guard.Errors.{
  Error, tool_call_already_started, tool_call_admission_mismatch, tool_call_not_admitted,
}
use eino_local_assistant.Guard.Budget.{AdmittedToolCall, ToolCall, TurnBudget, Json}
use eino_local_assistant.Guard.Admission.{
  Decision, check_ids, settle, commit, entry_of, record_all, admit_checked, admit_tool_batch, claim,
  start_direct, start_found,
}
use eino_local_assistant.Guard.Slots.{calls_of, calls_of-decide, calls_of-settle, settle-slots}

-- The call under this ID has started, and batches decide what starts.
pub record HasStarted (id key : Text) (b : TurnBudget) : Type 0 where
  pub batches : b.has_batch_admissions ≡ true
  pub named : is_empty id ≡ false
  pub entry :
      (a : AdmittedToolCall) × (lookup id b.admitted_tool_calls ≡ some a)
      × (a.started ≡ true)
      × (a.err ≡ none)
      × (a.key ≡ key)

-- What keeps the entries of a budget keeps what has started.
pub same-HasStarted :
    (id key : Text) (b b' : TurnBudget)
    → b'.has_batch_admissions ≡ b.has_batch_admissions
    → lookup id b'.admitted_tool_calls ≡ lookup id b.admitted_tool_calls
    → HasStarted id key b
    → HasStarted id key b'
same-HasStarted id key b b' e f h = record {
  batches = e ∙ h.batches;
  named = h.named;
  entry = let (a, l, s, n, k) = h.entry in (a, f ∙ l, s, n, k);
}

-- An ID that is known or was seen in the batch is not recorded again.
record_all-known :
    (i : ℕ) (id : Text) (seen : List Text) (known m : Dict AdmittedToolCall) (ds : List Decision)
    → check_ids i seen known (calls_of ds) ≡ none
    → is_some (lookup id known) ≡ true
    → lookup id (record_all m ds) ≡ lookup id m
unfolding check_ids record_all
record_all-known i id seen known m [] h k = refl
record_all-known i id seen known m (d ∷ ds) h k =
    let j = trim_space d.call.id in
    ground (
      arith,
      text_eq_iff j id,
      lookup-insert j id (entry_of d) m,
      record_all-known (suc i) id (j ∷ seen) known (insert j (entry_of d) m) ds,
    )

commit-HasStarted :
    (id key : Text) (b : TurnBudget) (ds : List Decision) (counts : Dict ℕ)
    → check_ids 0 [] b.admitted_tool_calls (calls_of ds) ≡ none
    → HasStarted id key b
    → HasStarted id key (commit (settle b ds counts)).0
unfolding commit
commit-HasStarted id key b ds counts fresh h =
    let m = b.admitted_tool_calls in
    let (ds', b') = settle b ds counts in
    let (a, l, s, n, k) = h.entry in
    record {
      batches = refl;
      named = h.named;
      entry = (
        a,
        record_all-known 0 id [] m b'.admitted_tool_calls ds'
              (ap (check_ids 0 [] m) (calls_of-settle b ds counts) ∙ fresh) (ap is_some l)
            ∙ ap (lookup id) (settle-slots b ds counts).1
            ∙ l,
        s,
        n,
        k,
      );
    }

module _ (json : Json) where
  admit_checked-HasStarted :
      (id key : Text) (b : TurnBudget) (cs : List ToolCall) (r : Option Error)
      → check_ids 0 [] b.admitted_tool_calls cs ≡ r
      → HasStarted id key b
      → HasStarted id key (admit_checked json b cs r).0
  unfolding admit_checked
  admit_checked-HasStarted id key b cs (some e) c h = h
  admit_checked-HasStarted id key b cs none c h =
      commit-HasStarted id key b _ _
        (ap (check_ids 0 [] b.admitted_tool_calls) (
            calls_of-decide json b.max_consecutive_equivalent_tool_calls b.equivalent_tool_calls cs)
          ∙ c)
        h

  pub admit_tool_batch-HasStarted :
      (id key : Text) (b : TurnBudget) (cs : List ToolCall)
      → HasStarted id key b
      → HasStarted id key (admit_tool_batch json b cs).0
  unfolding admit_tool_batch
  admit_tool_batch-HasStarted id key b [] h = h
  admit_tool_batch-HasStarted id key b (c ∷ cs) h =
      admit_checked-HasStarted id key b (c ∷ cs) _ refl h

-- With batches nothing starts without an admission.
pub start_direct-same :
    (b : TurnBudget) (key : Text)
    → b.has_batch_admissions ≡ true
    → start_direct b key ≡ (b, some tool_call_not_admitted)
unfolding start_direct
start_direct-same b key h = ground arith

-- A claim that succeeded leaves its entry started.
pub claim_starts :
    (b b' : TurnBudget) (id key : Text) (a : AdmittedToolCall)
    → claim b id key a ≡ (b', none)
    → (lookup id b'.admitted_tool_calls ≡ some (record a { started = true }))
      × (a.err ≡ none)
      × (text_eq a.key key ≡ true)
unfolding claim
claim_starts b b' id key a h = ground (
  arith,
  lookup-insert id id (record a { started = true }) b.admitted_tool_calls,
  text_eq_refl id,
)

pub claim-batches :
    (b b' : TurnBudget) (id key : Text) (a : AdmittedToolCall)
    → claim b id key a ≡ (b', none)
    → b'.has_batch_admissions ≡ b.has_batch_admissions
unfolding claim
claim-batches b b' id key a h = ground arith

pub claim_started :
    (b : TurnBudget) (id key : Text) (a : AdmittedToolCall)
    → a.started ≡ true
    → a.err ≡ none
    → claim b id key a ≡ (
      b,
      some (if text_eq a.key key then tool_call_already_started else tool_call_admission_mismatch),
    )
unfolding claim
claim_started b id key a s e = ground arith

claim-HasStarted :
    (id key j k : Text) (b : TurnBudget) (a : AdmittedToolCall)
    → lookup j b.admitted_tool_calls ≡ some a
    → HasStarted id key b
    → HasStarted id key (claim b j k a).0
unfolding claim
claim-HasStarted id key j k b a l h = elim (Bool-cases (text_eq j id)) [
  | inl e ↦
      let (a', l', s, n, _) = h.entry in
      let same : j ≡ id = (text_eq_iff j id).0 e in
      let found : a ≡ a' = some_inj (sym l ∙ ap (λ i. lookup i b.admitted_tool_calls) same ∙ l') in
      subst (HasStarted id key)
        (sym (
          ap (λ p. p.0)
            (claim_started b j k a (ap (λ x. x.started) found ∙ s) (ap (λ x. x.err) found ∙ n))))
        h
  | inr e ↦
      same-HasStarted id key b (claim b j k a).0 (ground arith)
        (ground (arith, lookup-insert j id (record a { started = true }) b.admitted_tool_calls)) h
]

pub start_found-HasStarted :
    (id key j k : Text) (b : TurnBudget) (o : Option AdmittedToolCall)
    → lookup j b.admitted_tool_calls ≡ o
    → HasStarted id key b
    → HasStarted id key (start_found b j k o).0
unfolding start_found
start_found-HasStarted id key j k b none l h =
    subst (HasStarted id key) (sym (ap (λ p. p.0) (start_direct-same b k h.batches))) h
start_found-HasStarted id key j k b (some a) l h =
    if-holds (λ (r : TurnBudget × Option Error). HasStarted id key r.0) (is_empty j) _ _
      (λ _. subst (HasStarted id key) (sym (ap (λ p. p.0) (start_direct-same b k h.batches))) h)
      (λ _. claim-HasStarted id key j k b a l h)
