-- ===== src/Queue/Items.antt =====
-- The items of a queue: what is admitted while an operation runs is a text for the model or an unknown
-- command, and nothing that needs a command to be carried out.
use eino_local_assistant.Prelude.{
  inl, inr, ◌⊎◌, Bool, true, false, ◌≡◌, refl, sym, ◌∙◌, [], ◌∷◌, Text, if-holds, text_eq,
}
use eino_local_assistant.Queue.Slash.{
  SlashAction, slash_none, slash_unknown, slash_help, slash_exit, slash_clear, slash_status,
  slash_goal, slash_tasks, slash_diff, slash_review, slash_rules, slash_skills, slash_agent,
  slash_agents, slash_side, slash_steer, slash_usage, slash_status_line, slash_context,
  slash_compact, slash_new, slash_sessions, slash_resume, slash_model, slash_fork, slash_title,
  slash_delete, slash_archive, slash_unarchive, slash_queue, slash_plan, slash_permissions,
  slash_memory, slash_backtrack, parse_slash, classify_busy_action, allowed_if, is_enqueue,
  classify_busy_input, is_queueable_input,
}

-- A text for the model or an unknown command.
abbrev pub is_local : SlashAction → Bool
is_local slash_none = true
is_local slash_unknown = true
is_local _ = false

abbrev pub IsItem : Text → Type 0
IsItem input = is_local (parse_slash input).0 ≡ true

allowed_if-enqueue : (b : Bool) → is_enqueue (allowed_if b) ≡ false
unfolding is_enqueue allowed_if
allowed_if-enqueue true = refl
allowed_if-enqueue false = refl

-- Nothing else is local.
pub local-cases :
    (action : SlashAction)
    → is_local action ≡ true
    → (action ≡ slash_none) ⊎ (action ≡ slash_unknown)
local-cases slash_none h = inl refl
local-cases slash_unknown h = inr refl
local-cases slash_help h = absurd cc
local-cases slash_exit h = absurd cc
local-cases slash_clear h = absurd cc
local-cases slash_status h = absurd cc
local-cases slash_goal h = absurd cc
local-cases slash_tasks h = absurd cc
local-cases slash_diff h = absurd cc
local-cases slash_review h = absurd cc
local-cases slash_rules h = absurd cc
local-cases slash_skills h = absurd cc
local-cases slash_agent h = absurd cc
local-cases slash_agents h = absurd cc
local-cases slash_side h = absurd cc
local-cases slash_steer h = absurd cc
local-cases slash_usage h = absurd cc
local-cases slash_status_line h = absurd cc
local-cases slash_context h = absurd cc
local-cases slash_compact h = absurd cc
local-cases slash_new h = absurd cc
local-cases slash_sessions h = absurd cc
local-cases slash_resume h = absurd cc
local-cases slash_model h = absurd cc
local-cases slash_fork h = absurd cc
local-cases slash_title h = absurd cc
local-cases slash_delete h = absurd cc
local-cases slash_archive h = absurd cc
local-cases slash_unarchive h = absurd cc
local-cases slash_queue h = absurd cc
local-cases slash_plan h = absurd cc
local-cases slash_permissions h = absurd cc
local-cases slash_memory h = absurd cc
local-cases slash_backtrack h = absurd cc

local_action :
    (action : SlashAction) (arg : Text)
    → is_enqueue (classify_busy_action action arg) ≡ is_local action
unfolding classify_busy_action is_enqueue
local_action slash_none arg = refl
local_action slash_unknown arg = refl
local_action slash_permissions arg = allowed_if-enqueue _
local_action slash_memory arg = allowed_if-enqueue _
local_action slash_help arg = refl
local_action slash_exit arg = refl
local_action slash_clear arg = refl
local_action slash_status arg = refl
local_action slash_goal arg = refl
local_action slash_tasks arg = refl
local_action slash_diff arg = refl
local_action slash_review arg = refl
local_action slash_rules arg = refl
local_action slash_skills arg = refl
local_action slash_agent arg = refl
local_action slash_agents arg = refl
local_action slash_side arg = refl
local_action slash_steer arg = refl
local_action slash_usage arg = refl
local_action slash_status_line arg = refl
local_action slash_context arg = refl
local_action slash_compact arg = refl
local_action slash_new arg = refl
local_action slash_sessions arg = refl
local_action slash_resume arg = refl
local_action slash_model arg = refl
local_action slash_fork arg = refl
local_action slash_title arg = refl
local_action slash_delete arg = refl
local_action slash_archive arg = refl
local_action slash_unarchive arg = refl
local_action slash_queue arg = refl
local_action slash_plan arg = refl
local_action slash_backtrack arg = refl

pub queueable-IsItem : (input : Text) → is_queueable_input input ≡ true → IsItem input
unfolding is_queueable_input classify_busy_input
queueable-IsItem input =
    if-holds (λ d. is_enqueue d ≡ true → IsItem input) (text_eq input (27 ∷ []))
      (classify_busy_action slash_backtrack []) _
      (λ _ h. let e = local_action slash_backtrack [] in absurd cc)
      (λ _ h. sym (local_action (parse_slash input).0 (parse_slash input).1) ∙ h)
