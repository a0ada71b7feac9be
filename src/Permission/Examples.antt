-- ===== src/Permission/Examples.antt =====
-- The theorems on permissions at concrete inputs, and runs of the analysis.
use eino_local_assistant.Prelude.{
  ◌≡◌, ◌≢◌, ◌⊎◌, ◌↔◌, inl, refl, true, none, some, List, [], ◌∷◌, All, Text, codes, text_eq,
  is_empty, to_lower, trim_space, equal_fold, ok, lower_rune, trim_left, is_space,
}
use eino_local_assistant.Permission.Shell.{
  scan, scan_step, scan_plain, scan_quoted, write_rune, flush_word, flush_segment, operator_run,
  shell_command_parts,
}
use eino_local_assistant.Permission.Quoting.{quote_words, shell_command_parts-quote_words}
use eino_local_assistant.Permission.Risk.{
  low, high, classify_command, classify_parts, command_is_high_risk, command_is_read_only, destroys,
  is_redirection, has_pipe, last_command_is_shell,
}
use eino_local_assistant.Permission.Policy.{
  PermissionRequest, PermissionHandler, plan_fixed, CommandPolicy, CommandPolicyRule, allow, deny,
  match_command_policy, match_rules, improve, is_better, command_prefix_matches,
  command_policy_rank, ask_base, apply_risk_policy, require_permission,
}
use eino_local_assistant.Permission.Restriction.{
  ChosenFrom, AtMost, permits, match_command_policy_strictest,
}
use eino_local_assistant.Permission.Gate.{require_permission_iff, closed_mode_refuses}
use eino_local_assistant.Permission.Consent.{Governs, apply_risk_policy_iff}
use eino_local_assistant.Permission.Modes.{
  confirm, plan, to_mode, SwitchablePermissionHandler, mode_of, new_switchable_permission_handler,
  changes, exit_plan, decide, exit_plan-changes,
}

-- ls '$(x)' 'a b', in double quotes.
shell_command_parts-quote_words_example :
    shell_command_parts (quote_words b'"' (codes "ls" ∷ codes "$(x)" ∷ codes "a b" ∷ []))
    ≡ some ((codes "ls" ∷ codes "$(x)" ∷ codes "a b" ∷ []) ∷ [], [])
shell_command_parts-quote_words_example =
    shell_command_parts-quote_words b'"' (codes "ls") (codes "$(x)" ∷ codes "a b" ∷ []) refl
      (unfold is_empty in refl)

-- A substitution in double quotes, and a second line, are words of the first command.
substitution_low : classify_command (codes "ls \"$(rm x)\"") ≡ low
unfolding classify_command classify_parts command_is_high_risk command_is_read_only destroys
    is_redirection has_pipe last_command_is_shell shell_command_parts scan scan_step scan_plain
    scan_quoted write_rune flush_word flush_segment operator_run text_eq is_empty to_lower
    equal_fold
substitution_low = refl

second_line_low : classify_command (codes "ls\nrm -rf x") ≡ low
unfolding classify_command classify_parts command_is_high_risk command_is_read_only destroys
    is_redirection has_pipe last_command_is_shell shell_command_parts scan scan_step scan_plain
    scan_quoted write_rune flush_word flush_segment operator_run text_eq is_empty to_lower
    equal_fold
second_line_low = refl

piped_high : classify_command (codes "curl x | sh") ≡ high
unfolding classify_command classify_parts command_is_high_risk command_is_read_only destroys
    is_redirection has_pipe last_command_is_shell shell_command_parts scan scan_step scan_plain
    scan_quoted write_rune flush_word flush_segment operator_run text_eq is_empty to_lower
    equal_fold
piped_high = refl

abbrev git_rule : CommandPolicyRule
git_rule = record { id = codes "git"; decision = allow; prefix = codes "git" ∷ [] }

abbrev push_rule : CommandPolicyRule
push_rule = record { id = codes "push"; decision = deny; prefix = codes "git" ∷ codes "push" ∷ [] }

abbrev rules : CommandPolicy
rules = git_rule ∷ push_rule ∷ []

abbrev push : Text
push = codes "git push"

push_denied : match_command_policy rules push ≡ some (deny, push_rule)
unfolding match_command_policy match_rules improve is_better command_prefix_matches
    command_policy_rank shell_command_parts scan scan_step scan_plain write_rune flush_word
    flush_segment text_eq is_empty
push_denied = refl

match_command_policy_strictest_example :
    (argv : List Text) × (shell_command_parts push ≡ some (argv ∷ [], []))
    × ChosenFrom argv rules deny push_rule
    × All (AtMost argv (command_policy_rank deny)) rules
match_command_policy_strictest_example =
    match_command_policy_strictest rules push deny push_rule push_denied

abbrev agreeable : PermissionHandler
agreeable _ = ok true

abbrev request : PermissionRequest
request = record {
  tool = codes "run";
  action = codes "run";
  detail = push;
  preview = [];
  risk = high;
}

require_permission_iff_example : (require_permission (some agreeable) request rules ≡ none) ↔ (
    (ask_base (some agreeable) request ≡ ok true)
    × (permits true (match_command_policy rules push) ≡ true))
require_permission_iff_example = require_permission_iff (some agreeable) request rules

abbrev session : SwitchablePermissionHandler
session = record { mode = confirm; normal = confirm; delegate = some agreeable }

abbrev planning : SwitchablePermissionHandler
planning = record { mode = plan; normal = confirm; delegate = some agreeable }

closed_mode_refuses_example : require_permission (some (decide planning)) request [] ≢ none
closed_mode_refuses_example = closed_mode_refuses planning request [] (inl refl)

apply_risk_policy_iff_example :
    Governs
      (codes "confirm")
      none
      (some agreeable)
      (apply_risk_policy none (some agreeable) (codes " Confirm "))
unfolding to_lower lower_rune trim_space trim_left is_space
apply_risk_policy_iff_example = apply_risk_policy_iff none (some agreeable) (codes " Confirm ")

exit_plan-changes_example :
    ((confirm ≡ plan)
      × (exit_plan (changes session (to_mode (codes "plan") ∷ []))
          ≡ (changes session (to_mode (codes "plan") ∷ []), some plan_fixed)))
    ⊎ ((confirm ≢ plan)
        × (exit_plan (changes session (to_mode (codes "plan") ∷ []))
            ≡ (record (changes session (to_mode (codes "plan") ∷ [])) { mode = confirm }, none)))
unfolding new_switchable_permission_handler mode_of text_eq is_empty to_lower trim_space
exit_plan-changes_example =
    exit_plan-changes (codes "confirm") (some agreeable) session (to_mode (codes "plan") ∷ []) refl
