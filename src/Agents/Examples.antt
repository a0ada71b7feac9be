-- ===== src/Agents/Examples.antt =====
-- The theorems on background analyses at concrete inputs.
use eino_local_assistant.Prelude.{
  ℕ, ◌+◌, ◌≡◌, ◌↔◌, refl, false, none, List, [], ◌∷◌, codes, count_if,
}
use eino_local_assistant.Agents.Tasks.{
  Request, Sanitizer, BackgroundAgentDoneMsg, is_queued, active, cmd_agent,
  dispatch_queued_background_agents, active_background_agents, start_next, start_background_agent,
  trim_background_agents, trim_times, next_background_agent_id,
}
use eino_local_assistant.Agents.Slots.{IsBounded}
use eino_local_assistant.Agents.Limits.{
  Event, submit, report, cancel_all, handle_all, new_model, handle_all-IsBounded,
  cmd_agent_refused_iff,
}

abbrev plain : Sanitizer
plain = record { payload = λ t n. (t, false); error = λ t. t }

abbrev request : Request
request = record {
  prompt = codes "look";
  workspace_diff = false;
  workspace_files = [];
  session_id = codes "s";
  session_generation = 1;
}

abbrev done : BackgroundAgentDoneMsg
done = record {
  id = 1;
  session_id = codes "s";
  session_generation = 1;
  answer = codes "fine";
  err = none;
}

abbrev five : List (ℕ × Event)
five =
    (1, submit request)
    ∷ (2, submit request)
    ∷ (3, submit request)
    ∷ (4, submit request)
    ∷ (5, submit request)
    ∷ []

handle_all-IsBounded_example :
    IsBounded
      (handle_all plain
        ((1, submit request) ∷ (2, report done) ∷ (3, cancel_all) ∷ [])
        new_model).background_agents
handle_all-IsBounded_example =
    handle_all-IsBounded plain ((1, submit request) ∷ (2, report done) ∷ (3, cancel_all) ∷ [])

-- Of five submissions four are active and the last waits.
fifth_waits :
    (count_if active (handle_all plain five new_model).background_agents ≡ 4)
    × (count_if is_queued (handle_all plain five new_model).background_agents ≡ 1)
unfolding active cmd_agent dispatch_queued_background_agents active_background_agents start_next
    start_background_agent trim_background_agents trim_times next_background_agent_id
fifth_waits = (refl, refl)

cmd_agent_refused_iff_example :
    ((cmd_agent 9 request (handle_all plain five new_model)).1 ≡ false) ↔ (
      count_if active (handle_all plain five new_model).background_agents
        + count_if is_queued (handle_all plain five new_model).background_agents
      ≡ 16)
cmd_agent_refused_iff_example =
    cmd_agent_refused_iff 9 request (handle_all plain five new_model)
      (handle_all-IsBounded plain five)
