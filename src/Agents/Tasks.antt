-- ===== src/Agents/Tasks.antt =====
-- The tasks and their operations. The map and the order list of the source gain and lose their entries
-- together, so one list in the order of admission stands for both. The number of a task stands for
-- its name (agent-1, agent-2, ...), and `now` for the clock.
use eino_local_assistant.Prelude.{
  ℕ, zero, suc, ◌-◌, ◌*◌, Bool, true, false, ◌&&◌, Option, none, some, List, [], ◌∷◌, ◌++◌, map,
  leb, ◌==◌, if◌then◌else◌, inc64, length, count_if, Text, codes, text_eq, trim_space, is_empty,
}

pub data BackgroundAgentState : Type 0 where
  queued working cancelling completed failed cancelled : BackgroundAgentState

abbrev pub max_background_agents : ℕ
max_background_agents = 4

abbrev pub max_retained_background_agents : ℕ
max_retained_background_agents = 16

abbrev pub max_background_agent_result : ℕ
max_background_agent_result = 64 * 1024

-- `stopped` says whether the context of the task has been cancelled.
pub record BackgroundAgentTask : Type 0 where
  pub id : ℕ
  pub prompt : Text
  pub workspace_diff : Bool
  pub workspace_files : List Text
  pub session_id : Text
  pub session_generation : ℕ
  pub started_at : ℕ
  pub finished_at : ℕ
  pub state : BackgroundAgentState
  pub stopped : Bool
  pub answer : Text
  pub answer_truncated : Bool
  pub failure : Text

-- The fields of the interface's model that the operations use.
pub record Model : Type 0 where
  pub background_agents : List BackgroundAgentTask
  pub background_agent_next_id : ℕ

abbrev pub is_queued : BackgroundAgentTask → Bool
is_queued t = elim t.state [ queued ↦ true | _ ↦ false ]

unfoldable pub active : BackgroundAgentTask → Bool
active t = elim t.state [ working ↦ true | cancelling ↦ true | _ ↦ false ]

unfoldable pub terminal : BackgroundAgentTask → Bool
terminal t = elim t.state [ completed ↦ true | failed ↦ true | cancelled ↦ true | _ ↦ false ]

unfoldable pub active_background_agents : Model → ℕ
active_background_agents m = count_if active m.background_agents

unfoldable pub queued_background_agents : Model → ℕ
queued_background_agents m = count_if is_queued m.background_agents

unfoldable pub start_background_agent : ℕ → BackgroundAgentTask → BackgroundAgentTask
start_background_agent now t = record t { state = working; started_at = now }

-- The first queued task is started.
unfoldable pub start_next : ℕ → List BackgroundAgentTask → List BackgroundAgentTask
unfolding start_background_agent
start_next now [] = []
start_next now (t ∷ ts) =
    if is_queued t then start_background_agent now t ∷ ts else t ∷ start_next now ts

unfoldable pub dispatch_queued_background_agents : ℕ → Model → Model
unfolding active_background_agents
dispatch_queued_background_agents now m =
    if leb max_background_agents (active_background_agents m)
    then m
    else record m { background_agents = start_next now m.background_agents }

-- One pass of the trimming loop: the first task that has ended is removed, if there is one.
unfoldable pub remove_terminal : List BackgroundAgentTask → Option (List BackgroundAgentTask)
remove_terminal [] = none
remove_terminal (t ∷ ts) =
    let rest = remove_terminal ts in
    if terminal t then some ts else elim rest [ none ↦ none | some us ↦ some (t ∷ us) ]

unfoldable pub trim_times : ℕ → List BackgroundAgentTask → List BackgroundAgentTask
trim_times zero ts = ts
trim_times (suc n) ts = elim (remove_terminal ts) [ none ↦ ts | some us ↦ trim_times n us ]

-- Each pass removes one task, so the loop runs as often as there are tasks above the limit.
unfoldable pub trim_background_agents : ℕ → Model → Model
unfolding trim_times
trim_background_agents limit m = record m {
  background_agents = trim_times (length m.background_agents - limit) m.background_agents;
}

unfoldable pub next_background_agent_id : ℕ → ℕ
next_background_agent_id n = if inc64 n == 0 then inc64 (inc64 n) else inc64 n

-- A request that passed the checks of its form.
pub record Request : Type 0 where
  pub prompt : Text
  pub workspace_diff : Bool
  pub workspace_files : List Text
  pub session_id : Text
  pub session_generation : ℕ

abbrev pub new_task : ℕ → Request → BackgroundAgentTask
new_task id r = record {
  id = id;
  prompt = r.prompt;
  workspace_diff = r.workspace_diff;
  workspace_files = r.workspace_files;
  session_id = r.session_id;
  session_generation = r.session_generation;
  started_at = 0;
  finished_at = 0;
  state = queued;
  stopped = false;
  answer = [];
  answer_truncated = false;
  failure = [];
}

-- The admitting part of cmdAgent; `false` says that the queue is full.
unfoldable pub cmd_agent : ℕ → Request → Model → Model × Bool
unfolding trim_background_agents next_background_agent_id dispatch_queued_background_agents
cmd_agent now r m =
    let trimmed = trim_background_agents (max_retained_background_agents - 1) m in
    if leb max_retained_background_agents (length trimmed.background_agents)
    then (trimmed, false)
    else (let id = next_background_agent_id trimmed.background_agent_next_id in
        (
          dispatch_queued_background_agents now (record {
            background_agents = trimmed.background_agents ++ new_task id r ∷ [];
            background_agent_next_id = id;
          }),
          true,
        ))

abbrev pub find : ℕ → List BackgroundAgentTask → Option BackgroundAgentTask
find id [] = none
find id (t ∷ ts) = if t.id == id then some t else find id ts

-- The task with the number is replaced.
abbrev pub replace : ℕ → BackgroundAgentTask → List BackgroundAgentTask → List BackgroundAgentTask
replace id u [] = []
replace id u (t ∷ ts) = if t.id == id then u ∷ ts else t ∷ replace id u ts

abbrev pub put : Model → BackgroundAgentTask → Model
put m t = record m { background_agents = replace t.id t m.background_agents }

-- The cleaning of text for display: `payload text limit` is the text with whether it was cut.
pub record Sanitizer : Type 0 where
  pub payload : Text → ℕ → Text × Bool
  pub error : Text → Text

-- `err` is the error that the analysis reported.
pub record BackgroundAgentDoneMsg : Type 0 where
  pub id : ℕ
  pub session_id : Text
  pub session_generation : ℕ
  pub answer : Text
  pub err : Option Text

-- The outcome of an analysis, for a task that is still active.
unfoldable pub settle_task :
    Sanitizer → ℕ → BackgroundAgentDoneMsg → BackgroundAgentTask → BackgroundAgentTask
settle_task z now msg t =
    let ended = record t { stopped = true; finished_at = now } in
    let reported : BackgroundAgentTask = elim msg.err [
      | some e ↦ record ended { state = failed; failure = z.error e }
      | none ↦
          if is_empty (trim_space msg.answer)
          then record ended { state = failed; failure = codes "empty analysis result" }
          else record ended {
            state = completed;
            answer = (z.payload msg.answer max_background_agent_result).0;
            answer_truncated = (z.payload msg.answer max_background_agent_result).1;
          }
    ] in
    elim t.state [
      | cancelling ↦ record ended { state = cancelled; answer = []; failure = [] }
      | _ ↦ reported
    ]

-- A message settles a task only when it is active and comes from the same session.
unfoldable pub settles : BackgroundAgentDoneMsg → BackgroundAgentTask → Bool
settles msg t =
    active t
    && text_eq msg.session_id t.session_id
    && msg.session_generation == t.session_generation

-- What a message does, given the task that it names.
abbrev pub finish_task :
    Sanitizer → ℕ → BackgroundAgentDoneMsg → Model → Option BackgroundAgentTask → Model
finish_task z now msg m none = m
finish_task z now msg m (some t) =
    if settles msg t
    then dispatch_queued_background_agents now
        (trim_background_agents max_retained_background_agents (put m (settle_task z now msg t)))
    else m

unfoldable pub finish_background_agent : Sanitizer → ℕ → BackgroundAgentDoneMsg → Model → Model
finish_background_agent z now msg m = finish_task z now msg m (find msg.id m.background_agents)

-- /agents cancel of one task: a queued one ends, an active one is asked to stop.
unfoldable pub cancel_task : ℕ → BackgroundAgentTask → BackgroundAgentTask
cancel_task now t = elim t.state [
  | queued ↦ record t { state = cancelled; finished_at = now }
  | working ↦ record t { state = cancelling; stopped = true }
  | cancelling ↦ record t { state = cancelling; stopped = true }
  | _ ↦ t
]

-- What /agents cancel does, given the task that it names.
abbrev pub cancel_found : ℕ → Model → Option BackgroundAgentTask → Model
cancel_found now m none = m
cancel_found now m (some t) = put m (cancel_task now t)

unfoldable pub cancel_background_agent : ℕ → ℕ → Model → Model
cancel_background_agent now id m = cancel_found now m (find id m.background_agents)

-- Of all tasks: those that are being cancelled are left alone.
unfoldable pub cancel_in_all : ℕ → BackgroundAgentTask → BackgroundAgentTask
cancel_in_all now t = elim t.state [
  | queued ↦ record t { state = cancelled; finished_at = now }
  | working ↦ record t { state = cancelling; stopped = true }
  | _ ↦ t
]

unfoldable pub cancel_background_agents : ℕ → Model → Model
unfolding cancel_in_all
cancel_background_agents now m = record m {
  background_agents = map (cancel_in_all now) m.background_agents;
}
