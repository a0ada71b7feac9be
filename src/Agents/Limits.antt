-- ===== src/Agents/Limits.antt =====
-- The bounds of the background analyses, over any history of operations.
use eino_local_assistant.Prelude.{
  ℕ, ◌+◌, ◌-◌, ◌≤◌, ◌≡◌, ◌↔◌, refl, ap, ◌∙◌, false, Option, none, some, List, [], ◌∷◌, arith,
  length, count_if, length-map, if-holds,
}
use eino_local_assistant.Agents.Tasks.{
  BackgroundAgentTask, is_queued, active, Model, Request, Sanitizer, BackgroundAgentDoneMsg,
  trim_times, find, replace, cancel_in_all, trim_background_agents, cmd_agent, settles,
  finish_background_agent, finish_task, cancel_found, cancel_task, cancel_background_agent,
  cancel_background_agents,
}
use eino_local_assistant.Agents.Counts.{
  count-sum, trim_times-counts, count_if-replace, length-replace, map-cancel_in_all,
}
use eino_local_assistant.Agents.Slots.{IsBounded, admit-IsBounded, find-id, settle-IsBounded}

finish_task-IsBounded :
    (z : Sanitizer) (now : ℕ) (msg : BackgroundAgentDoneMsg) (m : Model)
    (o : Option BackgroundAgentTask)
    → IsBounded m.background_agents
    → find msg.id m.background_agents ≡ o
    → IsBounded (finish_task z now msg m o).background_agents
unfolding settles
finish_task-IsBounded z now msg m none v n = v
finish_task-IsBounded z now msg m (some t) v n =
    if-holds {A = Model} (λ a. IsBounded a.background_agents) (settles msg t) _ m
      (λ h. settle-IsBounded z now msg m t v n (ground arith)) (λ h. v)

cancel_task-states :
    (now : ℕ) (t : BackgroundAgentTask)
    → (active (cancel_task now t) ≡ active t)
      × (is_queued (cancel_task now t) ≡ false)
      × ((cancel_task now t).id ≡ t.id)
unfolding cancel_task active
cancel_task-states now t = (ground arith, ground arith, ground arith)

cancel_found-IsBounded :
    (now id : ℕ) (m : Model) (o : Option BackgroundAgentTask)
    → IsBounded m.background_agents
    → find id m.background_agents ≡ o
    → IsBounded (cancel_found now m o).background_agents
cancel_found-IsBounded now id m none v n = v
cancel_found-IsBounded now id m (some t) v n =
    let ts = m.background_agents in
    let u = cancel_task now t in
    let (same_active, unqueued, same) = cancel_task-states now t in
    let here : find u.id ts ≡ some t = ap (λ i. find i ts) (same ∙ find-id id t ts n) ∙ n in
    let a : count_if active (replace u.id u ts) ≡ count_if active ts =
      ground (arith, count_if-replace active u.id t u ts here, same_active) in
    let q : count_if is_queued (replace u.id u ts) ≤ count_if is_queued ts =
      ground (arith, count_if-replace is_queued u.id t u ts here, unqueued) in
    record {
      busy = omega (arith, a, v.busy);
      kept = omega (arith, length-replace u.id u ts, v.kept);
      full = λ w. omega (arith, a, v.full (omega (arith, q, w)));
    }

-- What the user and the finished analyses ask for.
pub data Event : Type 0 where
  submit : Request → Event
  report : BackgroundAgentDoneMsg → Event
  cancel_one : ℕ → Event
  cancel_all : Event

abbrev pub handle : Sanitizer → ℕ → Event → Model → Model
handle z now (submit r) m = (cmd_agent now r m).0
handle z now (report msg) m = finish_background_agent z now msg m
handle z now (cancel_one id) m = cancel_background_agent now id m
handle z now cancel_all m = cancel_background_agents now m

-- A history of events, each with the time at which it is handled.
abbrev pub handle_all : Sanitizer → List (ℕ × Event) → Model → Model
handle_all z [] m = m
handle_all z ((now, e) ∷ es) m = handle_all z es (handle z now e m)

handle-IsBounded :
    (z : Sanitizer) (now : ℕ) (e : Event) (m : Model)
    → IsBounded m.background_agents
    → IsBounded (handle z now e m).background_agents
unfolding finish_background_agent cancel_background_agent cancel_background_agents
handle-IsBounded z now (submit r) m v = admit-IsBounded now r m v
handle-IsBounded z now (report msg) m v = finish_task-IsBounded z now msg m _ v refl
handle-IsBounded z now (cancel_one id) m v = cancel_found-IsBounded now id m _ v refl
handle-IsBounded z now cancel_all m v =
    let ts = m.background_agents in
    let (a, q) = map-cancel_in_all now ts in
    record {
      busy = omega (arith, a, v.busy);
      kept = omega (arith, length-map ts (cancel_in_all now), v.kept);
      full = λ w. absurd (omega (arith, q, w));
    }

abbrev pub new_model : Model
new_model = record { background_agents = []; background_agent_next_id = 0 }

handle_all-keeps :
    (z : Sanitizer) (es : List (ℕ × Event)) (m : Model)
    → IsBounded m.background_agents
    → IsBounded (handle_all z es m).background_agents
handle_all-keeps z [] m v = v
handle_all-keeps z ((now, e) ∷ es) m v =
    handle_all-keeps z es (handle z now e m) (handle-IsBounded z now e m v)

-- After any history of submissions, reports and cancellations at most four tasks are active, at most
-- sixteen are kept, and no task waits in the queue while fewer than four are active.
pub handle_all-IsBounded :
    (z : Sanitizer) (es : List (ℕ × Event))
    → IsBounded (handle_all z es new_model).background_agents
handle_all-IsBounded z es =
    handle_all-keeps z es new_model
      (record { busy = omega arith; kept = omega arith; full = λ w. absurd (omega arith) })

-- In a state within the bounds a submission is refused exactly when sixteen tasks are live: only tasks
-- that have ended make room.
pub cmd_agent_refused_iff :
    (now : ℕ) (r : Request) (m : Model)
    → IsBounded m.background_agents
    → ((cmd_agent now r m).1 ≡ false)
      ↔ (count_if active m.background_agents + count_if is_queued m.background_agents ≡ 16)
unfolding cmd_agent trim_background_agents
cmd_agent_refused_iff now r m v =
    let ts = m.background_agents in
    let us = trim_times (length ts - 15) ts in
    let (a, q, e) = trim_times-counts (length ts - 15) ts in
    let s = count-sum ts in let s' = count-sum us in ground (arith, v.kept)
