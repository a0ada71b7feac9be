-- ===== src/Queue/Slash.antt =====
-- internal/tui/slash.go and queue.go: what a submitted line is, and what becomes of it while an
-- operation is running.
use eino_local_assistant.Prelude.{
  Bool, true, false, not, ◌||◌, ◌==◌, List, [], ◌∷◌, if◌then◌else◌, length, drop, Text, codes,
  text_eq, trim_space, to_lower, is_empty, Dict, lookup, maybe,
}
use eino_local_assistant.Checklist.Fields.{fields}

pub data SlashAction : Type 0 where
  slash_none slash_unknown slash_help slash_exit slash_clear slash_status slash_goal slash_tasks
        slash_diff slash_review slash_rules slash_skills slash_agent slash_agents slash_side
        slash_steer slash_usage slash_status_line slash_context slash_compact slash_new
        slash_sessions slash_resume slash_model slash_fork slash_title slash_delete slash_archive
        slash_unarchive slash_queue slash_plan slash_permissions slash_memory slash_backtrack :
      SlashAction

-- The cases of the switch, which are all different texts.
abbrev pub slash_commands : Dict SlashAction
slash_commands =
    (codes "/help", slash_help)
    ∷ (codes "/?", slash_help)
    ∷ (codes "/exit", slash_exit)
    ∷ (codes "/quit", slash_exit)
    ∷ (codes "/clear", slash_clear)
    ∷ (codes "/status", slash_status)
    ∷ (codes "/goal", slash_goal)
    ∷ (codes "/tasks", slash_tasks)
    ∷ (codes "/diff", slash_diff)
    ∷ (codes "/review", slash_review)
    ∷ (codes "/rules", slash_rules)
    ∷ (codes "/skills", slash_skills)
    ∷ (codes "/agent", slash_agent)
    ∷ (codes "/agents", slash_agents)
    ∷ (codes "/btw", slash_side)
    ∷ (codes "/side", slash_side)
    ∷ (codes "/steer", slash_steer)
    ∷ (codes "/usage", slash_usage)
    ∷ (codes "/statusline", slash_status_line)
    ∷ (codes "/context", slash_context)
    ∷ (codes "/compact", slash_compact)
    ∷ (codes "/new", slash_new)
    ∷ (codes "/sessions", slash_sessions)
    ∷ (codes "/resume", slash_resume)
    ∷ (codes "/model", slash_model)
    ∷ (codes "/fork", slash_fork)
    ∷ (codes "/title", slash_title)
    ∷ (codes "/delete", slash_delete)
    ∷ (codes "/archive", slash_archive)
    ∷ (codes "/unarchive", slash_unarchive)
    ∷ (codes "/queue", slash_queue)
    ∷ (codes "/plan", slash_plan)
    ∷ (codes "/permissions", slash_permissions)
    ∷ (codes "/policy", slash_permissions)
    ∷ (codes "/memory", slash_memory)
    ∷ []

unfoldable pub starts_with_slash : Text → Bool
starts_with_slash [] = false
starts_with_slash (c ∷ cs) = c == b'/'

-- The first word, and what follows it, of a text that has a word.
unfoldable pub first_word : List Text → Text
first_word [] = []
first_word (w ∷ ws) = w

unfoldable pub more_than_one : List Text → Bool
more_than_one [] = false
more_than_one (w ∷ []) = false
more_than_one (w ∷ v ∷ vs) = true

unfoldable pub after_first : Text → List Text → Text
unfolding first_word
after_first trimmed words = trim_space (drop (length (first_word words)) trimmed)

-- Of a text without blanks around it.
unfoldable pub parse_trimmed : Text → SlashAction × Text
unfolding starts_with_slash first_word more_than_one after_first
parse_trimmed trimmed =
    let words = fields trimmed in
    let arg = if more_than_one words then after_first trimmed words else [] in
    if is_empty trimmed || not (starts_with_slash trimmed)
    then (slash_none, trimmed)
    else maybe (lookup (to_lower (first_word words)) slash_commands) (slash_unknown, trimmed)
        (λ action. (action, arg))

unfoldable pub parse_slash : Text → SlashAction × Text
unfolding parse_trimmed
parse_slash input = parse_trimmed (trim_space input)

pub data BusyInputDisposition : Type 0 where
  busy_input_enqueue busy_input_execute_immediately busy_input_steer busy_input_reject :
      BusyInputDisposition

-- list, status and the empty command read only.
unfoldable pub memory_command_mutates : Text → Bool
memory_command_mutates cmd =
    not (is_empty cmd || text_eq cmd (codes "list") || text_eq cmd (codes "status"))

unfoldable pub memory_command_allows_busy : Text → Bool
unfolding memory_command_mutates first_word
memory_command_allows_busy arg =
    not (memory_command_mutates (to_lower (first_word (fields (trim_space arg)))))

unfoldable pub allowed_if : Bool → BusyInputDisposition
allowed_if true = busy_input_execute_immediately
allowed_if false = busy_input_reject

unfoldable pub classify_busy_action : SlashAction → Text → BusyInputDisposition
unfolding allowed_if memory_command_allows_busy
classify_busy_action slash_backtrack arg = busy_input_reject
classify_busy_action slash_steer arg = busy_input_steer
classify_busy_action slash_help arg = busy_input_execute_immediately
classify_busy_action slash_context arg = busy_input_execute_immediately
classify_busy_action slash_status arg = busy_input_execute_immediately
classify_busy_action slash_status_line arg = busy_input_execute_immediately
classify_busy_action slash_goal arg = busy_input_execute_immediately
classify_busy_action slash_tasks arg = busy_input_execute_immediately
classify_busy_action slash_diff arg = busy_input_execute_immediately
classify_busy_action slash_rules arg = busy_input_execute_immediately
classify_busy_action slash_skills arg = busy_input_execute_immediately
classify_busy_action slash_agent arg = busy_input_execute_immediately
classify_busy_action slash_agents arg = busy_input_execute_immediately
classify_busy_action slash_side arg = busy_input_execute_immediately
classify_busy_action slash_usage arg = busy_input_execute_immediately
classify_busy_action slash_sessions arg = busy_input_execute_immediately
classify_busy_action slash_queue arg = busy_input_execute_immediately
classify_busy_action slash_review arg = busy_input_reject
classify_busy_action slash_permissions arg = allowed_if (is_empty (trim_space arg))
classify_busy_action slash_plan arg = busy_input_reject
classify_busy_action slash_model arg = busy_input_reject
classify_busy_action slash_memory arg = allowed_if (memory_command_allows_busy arg)
classify_busy_action slash_compact arg = busy_input_reject
classify_busy_action slash_clear arg = busy_input_reject
classify_busy_action slash_new arg = busy_input_reject
classify_busy_action slash_resume arg = busy_input_reject
classify_busy_action slash_fork arg = busy_input_reject
classify_busy_action slash_title arg = busy_input_reject
classify_busy_action slash_delete arg = busy_input_reject
classify_busy_action slash_archive arg = busy_input_reject
classify_busy_action slash_unarchive arg = busy_input_reject
classify_busy_action slash_exit arg = busy_input_reject
classify_busy_action slash_none arg = busy_input_enqueue
classify_busy_action slash_unknown arg = busy_input_enqueue

-- The escape key, which is not text, stands as one code.
unfoldable pub classify_busy_input : Text → BusyInputDisposition
unfolding classify_busy_action
classify_busy_input input =
    if text_eq input (27 ∷ [])
    then classify_busy_action slash_backtrack []
    else (let (action, arg) = parse_slash input in classify_busy_action action arg)

unfoldable pub is_enqueue : BusyInputDisposition → Bool
is_enqueue busy_input_enqueue = true
is_enqueue _ = false

unfoldable pub is_queueable_input : Text → Bool
unfolding classify_busy_input is_enqueue
is_queueable_input input = is_enqueue (classify_busy_input input)

unfoldable pub is_immediate : BusyInputDisposition → Bool
is_immediate busy_input_execute_immediately = true
is_immediate _ = false

unfoldable pub is_immediately_executable_while_busy : Text → Bool
unfolding is_immediate
is_immediately_executable_while_busy input = is_immediate (classify_busy_input input)
