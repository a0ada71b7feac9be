-- ===== src/Guard/Starts.antt =====
-- A tool call starts at most once in a turn, whatever is called in between.
use eino_local_assistant.Prelude.{
  ◌≡◌, refl, ◌∙◌, true, Option, none, some, List, [], ◌∷◌, arith, if◌then◌else◌, Bool-cases, inl,
  inr, Text, text_eq, text_eq_iff, trim_space, is_empty, lookup,
}
use eino_local_assistant.Guard.Errors.{tool_call_already_started, tool_call_admission_mismatch}
use eino_local_assistant.Guard.Budget.{
  AdmittedToolCall, ToolCall, TurnBudget, Json, canonical_tool_call_key, acquire_tool_call,
  acquire_model_step, acquire_final_response, mark_state_changed,
}
use eino_local_assistant.Guard.Admission.{claim, start_found, start_tool_call}
use eino_local_assistant.Guard.Started.{
  HasStarted, same-HasStarted, admit_tool_batch-HasStarted, start_direct-same, claim_starts,
  claim-batches, claim_started, start_found-HasStarted,
}
use eino_local_assistant.Guard.Safety.{
  Call, admit, start, acquire, model_step, final_response, mark_changed, step, run,
}

module _ (json : Json) where
  step-HasStarted :
      (id key : Text) (b : TurnBudget) (c : Call)
      → HasStarted id key b
      → HasStarted id key (step json b c).0
  unfolding step start_tool_call acquire_tool_call acquire_model_step acquire_final_response
      mark_state_changed
  step-HasStarted id key b (admit cs) h = admit_tool_batch-HasStarted json id key b cs h
  step-HasStarted id key b (start c) h = start_found-HasStarted id key _ _ b _ refl h
  step-HasStarted id key b acquire h = same-HasStarted id key b _ (ground arith) (ground arith) h
  step-HasStarted id key b model_step h = same-HasStarted id key b _ (ground arith) (ground arith) h
  step-HasStarted id key b final_response h =
      same-HasStarted id key b _ (ground arith) (ground arith) h
  step-HasStarted id key b mark_changed h = same-HasStarted id key b _ refl refl h

  run-HasStarted :
      (id key : Text) (b : TurnBudget) (cs : List Call)
      → HasStarted id key b
      → HasStarted id key (run json b cs).0
  unfolding run
  run-HasStarted id key b [] h = h
  run-HasStarted id key b (c ∷ cs) h =
      run-HasStarted id key (step json b c).0 cs (step-HasStarted id key b c h)

-- A start that succeeded under batches is on record.
start_found-started :
    (b b' : TurnBudget) (id key : Text) (o : Option AdmittedToolCall)
    → b.has_batch_admissions ≡ true
    → start_found b id key o ≡ (b', none)
    → HasStarted id key b'
unfolding start_found
start_found-started b b' id key none batch h = absurd (let e = start_direct-same b key batch in cc)
start_found-started b b' id key (some a) batch h = elim (Bool-cases (is_empty id)) [
  | inl empty ↦ absurd (let e = start_direct-same b key batch in ground (arith, empty))
  | inr named ↦
      let claimed : claim b id key a ≡ (b', none) = ground (arith, named) in
      let (found, no_error, same) = claim_starts b b' id key a claimed in
      record {
        batches = claim-batches b b' id key a claimed ∙ batch;
        named = named;
        entry =
            (record a { started = true }, found, refl, no_error, (text_eq_iff a.key key).0 same);
      }
]

-- The answer to a start of what has started.
start_found-refused :
    (b : TurnBudget) (id key key' : Text)
    → HasStarted id key b
    → start_found b id key' (lookup id b.admitted_tool_calls) ≡ (
      b,
      some (if text_eq key key' then tool_call_already_started else tool_call_admission_mismatch),
    )
unfolding start_found
start_found-refused b id key key' h =
    let (a, l, s, n, k) = h.entry in
    rw (l, h.named, start_found, ← k) (claim_started b id key' a s n)

-- Once a batch has been admitted and a tool call was allowed to start, no later start under its ID is
-- allowed, whatever batches, starts and other calls come in between: it is refused, with the same
-- name and arguments or others, and changes nothing.
pub start_tool_call_once :
    (json : Json) (b b' : TurnBudget) (c c' : ToolCall) (between : List Call)
    → b.has_batch_admissions ≡ true
    → trim_space c.id ≡ trim_space c'.id
    → start_tool_call json b c ≡ (b', none)
    → let (later, _) = run json b' between in
      start_tool_call json later c' ≡ (
        later,
        some (
            if text_eq (canonical_tool_call_key json c) (canonical_tool_call_key json c')
            then tool_call_already_started
            else tool_call_admission_mismatch),
      )
unfolding start_tool_call
start_tool_call_once json b b' c c' between batch same h =
    let id = trim_space c.id in
    let key = canonical_tool_call_key json c in
    rw (← same) (
      start_found-refused (run json b' between).0 id key _
        (run-HasStarted json id key b' between (start_found-started b b' id key _ batch h)))
