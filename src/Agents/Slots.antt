-- ===== src/Agents/Slots.antt =====
-- How the slots are filled and freed: an admission and a settled task keep the bounds.
use mathlib.Core.Path.{subst}
use eino_local_assistant.Prelude.{
  ℕ, ◌+◌, ◌-◌, ◌≤◌, ◌<◌, ◌≡◌, sym, ap, ◌∙◌, Bool, true, false, some, List, [], ◌∷◌, ◌++◌, arith,
  leb, ◌==◌, length, count_if, Bool-cases, inl, inr, length-append, count_if-append, if-holds,
}
use eino_local_assistant.Agents.Tasks.{
  BackgroundAgentTask, is_queued, active, Model, Request, new_task, Sanitizer,
  BackgroundAgentDoneMsg, start_next, trim_times, find, replace, put, active_background_agents,
  dispatch_queued_background_agents, trim_background_agents, next_background_agent_id, cmd_agent,
  settle_task,
}
use eino_local_assistant.Agents.Counts.{
  count-sum, start_next-counts, start_next-none, length-start_next, trim_times-counts,
  count_if-replace, length-replace,
}

-- At most four tasks are active and at most sixteen are kept, and nothing waits while a slot is free.
pub record IsBounded (ts : List BackgroundAgentTask) : Type 0 where
  pub busy : count_if active ts ≤ 4
  pub kept : length ts ≤ 16
  pub full : 0 < count_if is_queued ts → count_if active ts ≡ 4

start_next-IsBounded :
    (now : ℕ) (ts : List BackgroundAgentTask)
    → count_if active ts < 4
    → length ts ≤ 16
    → (1 < count_if is_queued ts → 3 ≤ count_if active ts)
    → IsBounded (start_next now ts)
start_next-IsBounded now ts b k n = elim (Bool-cases (count_if is_queued ts == 0)) [
  | inl z ↦
      let none_waits : count_if is_queued ts ≡ 0 = ground arith in
      let same = start_next-none now ts none_waits in
      record {
        busy = omega (arith, b, ap (count_if active) same);
        kept = omega (arith, k, length-start_next now ts);
        full = λ w. absurd (omega (arith, w, none_waits, ap (count_if is_queued) same));
      }
  | inr z ↦
      let some_waits : 0 < count_if is_queued ts = ground arith in
      let (a, q) = start_next-counts now ts some_waits in
      record {
        busy = omega (arith, b, a);
        kept = omega (arith, k, length-start_next now ts);
        full = λ w. omega (arith, b, a, q, w, n (omega (arith, q, w)));
      }
]

dispatch_full :
    (now : ℕ) (m : Model)
    → 4 ≤ count_if active m.background_agents
    → dispatch_queued_background_agents now m ≡ m
unfolding dispatch_queued_background_agents active_background_agents
dispatch_full now m h = ground arith

dispatch_free :
    (now : ℕ) (m : Model)
    → count_if active m.background_agents < 4
    → (dispatch_queued_background_agents now m).background_agents
      ≡ start_next now m.background_agents
unfolding dispatch_queued_background_agents active_background_agents
dispatch_free now m h = ground arith

-- Dispatch fills a free slot, and one is enough.
dispatch-IsBounded :
    (now : ℕ) (m : Model)
    → count_if active m.background_agents ≤ 4
    → length m.background_agents ≤ 16
    → (1 < count_if is_queued m.background_agents → 3 ≤ count_if active m.background_agents)
    → IsBounded (dispatch_queued_background_agents now m).background_agents
dispatch-IsBounded now m b k n = elim (Bool-cases (leb 4 (count_if active m.background_agents))) [
  | inl h ↦
      subst (λ a. IsBounded a.background_agents) (sym (dispatch_full now m (ground arith)))
        (record { busy = b; kept = k; full = λ w. ground arith })
  | inr h ↦
      subst IsBounded (sym (dispatch_free now m (ground arith)))
        (start_next-IsBounded now m.background_agents (ground arith) k n)
]

trim-IsBounded :
    (ts : List BackgroundAgentTask) → IsBounded ts → IsBounded (trim_times (length ts - 15) ts)
trim-IsBounded ts v =
    let (a, q, e) = trim_times-counts (length ts - 15) ts in
    record {
      busy = omega (arith, a, v.busy);
      kept =
          omega (arith, a, q, e, v.kept, count-sum ts, count-sum (trim_times (length ts - 15) ts));
      full = λ w. omega (arith, a, q, v.full (omega (arith, q, w)));
    }

-- After an admission the new task is the only one that may wait for a free slot.
pub admit-IsBounded :
    (now : ℕ) (r : Request) (m : Model)
    → IsBounded m.background_agents
    → IsBounded (cmd_agent now r m).0.background_agents
unfolding cmd_agent trim_background_agents active
admit-IsBounded now r m v =
    let ts = m.background_agents in
    let us = trim_times (length ts - 15) ts in
    let t = trim-IsBounded ts v in
    let id = next_background_agent_id m.background_agent_next_id in
    let task = new_task id r in
    let a = count_if-append active us (task ∷ []) in
    let q = count_if-append is_queued us (task ∷ []) in
    let l = length-append us (task ∷ []) in
    let grown : Model = record {
      background_agents = us ++ task ∷ [];
      background_agent_next_id = id;
    } in
    if-holds {A = Model × Bool} (λ a. IsBounded a.0.background_agents) (leb 16 (length us)) _ _
      (λ h. t)
      (λ h.
        dispatch-IsBounded now grown (omega (arith, a, t.busy)) (ground (arith, l))
          (λ w. omega (arith, a, q, w, t.full (omega (arith, q, w)))))

-- A task that is settled was active and is so no longer.
settle_task-states :
    (z : Sanitizer) (now : ℕ) (msg : BackgroundAgentDoneMsg) (t : BackgroundAgentTask)
    → (active (settle_task z now msg t) ≡ false)
      × (is_queued (settle_task z now msg t) ≡ false)
      × ((settle_task z now msg t).id ≡ t.id)
unfolding settle_task active
settle_task-states z now msg t = (ground arith, ground arith, ground arith)

pub find-id :
    (id : ℕ) (t : BackgroundAgentTask) (ts : List BackgroundAgentTask)
    → find id ts ≡ some t
    → t.id ≡ id
find-id id t [] h = absurd (cc)
find-id id t (v ∷ vs) h = ground (arith, find-id id t vs)

active-unqueued : (t : BackgroundAgentTask) → active t ≡ true → is_queued t ≡ false
unfolding active
active-unqueued t h = ground arith

-- A settled task frees one slot, which dispatch fills.
pub settle-IsBounded :
    (z : Sanitizer) (now : ℕ) (msg : BackgroundAgentDoneMsg) (m : Model) (t : BackgroundAgentTask)
    → IsBounded m.background_agents
    → find msg.id m.background_agents ≡ some t
    → active t ≡ true
    → IsBounded
        (dispatch_queued_background_agents now
          (trim_background_agents 16 (put m (settle_task z now msg t)))).background_agents
unfolding trim_background_agents active
settle-IsBounded z now msg m t v found busy =
    let ts = m.background_agents in
    let u = settle_task z now msg t in
    let (idle, unqueued, same) = settle_task-states z now msg t in
    let here : find u.id ts ≡ some t =
      ap (λ i. find i ts) (same ∙ find-id msg.id t ts found) ∙ found in
    let us = replace u.id u ts in
    let a : count_if active us + 1 ≡ count_if active ts =
      ground (arith, count_if-replace active u.id t u ts here, idle, busy) in
    let q : count_if is_queued us ≡ count_if is_queued ts =
      ground
        (arith, count_if-replace is_queued u.id t u ts here, unqueued, active-unqueued t busy) in
    let vs = trim_times (length us - 16) us in
    let (a', q', e) = trim_times-counts (length us - 16) us in
    dispatch-IsBounded now (record m { background_agents = vs }) (omega (arith, a, a', v.busy))
      (omega (arith, a', q', e, length-replace u.id u ts, v.kept, count-sum us, count-sum vs))
      (λ w. omega (arith, a, a', q, q', w, v.full (omega (arith, q, q', w))))
