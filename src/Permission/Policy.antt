-- ===== src/Permission/Policy.antt =====
-- The command policy of internal/tools/permission.go and the handlers that it wraps. A handler is a
-- function of the request; a nil handler is `none`.
use eino_local_assistant.Prelude.{
  ℕ, Bool, true, false, not, ◌&&◌, ◌||◌, Option, none, some, List, [], ◌∷◌, ltb, any, if◌then◌else◌,
  Text, codes, text_eq, to_lower, trim_space, is_empty, Result, ok, err,
}
use eino_local_assistant.Permission.Shell.{shell_command_parts}
use eino_local_assistant.Permission.Risk.{RiskLevel, high}

pub record PermissionRequest : Type 0 where
  pub tool : Text
  pub action : Text
  pub detail : Text
  pub preview : Text
  pub risk : RiskLevel

pub data PermissionError : Type 0 where
  denied_by_policy approval_required unsupported : Text → PermissionError
  confirmer_unavailable permission_denied plan_fixed : PermissionError
  rule_id_required rule_prefix_required empty_prefix_part : PermissionError
  from_host : Text → PermissionError

abbrev pub PermissionHandler : Type 0
PermissionHandler = PermissionRequest → Result PermissionError Bool

-- `CommandPolicyDecision`; a string that is none of the constants is `unknown`.
pub data CommandPolicyDecision : Type 0 where
  allow ask deny : CommandPolicyDecision
  unknown : Text → CommandPolicyDecision

pub record CommandPolicyRule : Type 0 where
  pub id : Text
  pub decision : CommandPolicyDecision
  pub prefix : List Text

abbrev pub CommandPolicy : Type 0
CommandPolicy = List CommandPolicyRule

abbrev pub is_known : CommandPolicyDecision → Bool
is_known (unknown _) = false
is_known _ = true

unfoldable pub validate_rule : CommandPolicyRule → Option PermissionError
validate_rule r =
    if is_empty (trim_space r.id)
    then some rule_id_required
    else if not (is_known r.decision)
    then some (unsupported r.id)
    else elim r.prefix [
      | [] ↦ some rule_prefix_required
      | part ∷ parts ↦
          if any (λ p. is_empty (trim_space p)) (part ∷ parts) then some empty_prefix_part else none
    ]

-- `none` when every rule is well formed, otherwise the error of the first that is not.
unfoldable pub validate_command_policy : CommandPolicy → Option PermissionError
unfolding validate_rule
validate_command_policy [] = none
validate_command_policy (r ∷ rs) =
    let rest = validate_command_policy rs in
    elim (validate_rule r) [ none ↦ rest | some e ↦ some e ]

-- Whether the words begin with the prefix; a prefix that is too long does not match.
unfoldable pub command_prefix_matches : List Text → List Text → Bool
command_prefix_matches argv [] = true
command_prefix_matches [] (p ∷ ps) = false
command_prefix_matches (a ∷ rest) (p ∷ ps) = text_eq a p && command_prefix_matches rest ps

unfoldable pub command_policy_rank : CommandPolicyDecision → ℕ
command_policy_rank deny = 3
command_policy_rank ask = 2
command_policy_rank allow = 1
command_policy_rank (unknown _) = 0

abbrev pub is_blank : CommandPolicyDecision → Bool
is_blank (unknown t) = is_empty t
is_blank _ = false

-- The decision and the rule found so far.
abbrev pub Best : Type 0
Best = Option (CommandPolicyDecision × CommandPolicyRule)

-- Whether a decision takes the place of the one found so far.
unfoldable pub is_better : CommandPolicyDecision → Best → Bool
unfolding command_policy_rank
is_better d none = true
is_better d (some (e, _)) = is_blank e || ltb (command_policy_rank e) (command_policy_rank d)

-- One rule of the loop.
unfoldable pub improve : List Text → CommandPolicyRule → Best → Best
unfolding command_prefix_matches is_better
improve argv r best =
    if command_prefix_matches argv r.prefix && is_better r.decision best
    then some (r.decision, r)
    else best

unfoldable pub match_rules : List Text → CommandPolicy → Best → Best
unfolding improve
match_rules argv [] best = best
match_rules argv (r ∷ rs) best = match_rules argv rs (improve argv r best)

abbrev pub drop_blank : Best → Best
drop_blank none = none
drop_blank (some (d, r)) = if is_blank d then none else some (d, r)

-- The words of a command that is the only one and has no operator.
abbrev pub single : Option (List (List Text) × List Text) → Option (List Text)
single (some (argv ∷ [], [])) = some argv
single _ = none

-- Only one command without operators is matched.
unfoldable pub match_command_policy : CommandPolicy → Text → Best
unfolding shell_command_parts match_rules
match_command_policy policy command = elim (single (shell_command_parts command)) [
  | some argv ↦ drop_blank (match_rules argv policy none)
  | none ↦ none
]

-- What a nil handler means: unrestricted.
abbrev pub ask_base : Option PermissionHandler → PermissionHandler
ask_base none request = ok true
ask_base (some base) request = base request

abbrev pub by_decision :
    Option PermissionHandler → CommandPolicyDecision → CommandPolicyRule → PermissionHandler
by_decision base deny rule request = err (denied_by_policy rule.id)
by_decision none ask rule request = err (approval_required rule.id)
by_decision base _ rule request = ask_base base request

abbrev pub by_best : Option PermissionHandler → Best → PermissionHandler
by_best base none request = ask_base base request
by_best base (some (decision, rule)) request = by_decision base decision rule request

unfoldable pub policy_handler : Option PermissionHandler → CommandPolicy → PermissionHandler
policy_handler base policy request =
    by_best base (match_command_policy policy request.detail) request

unfoldable pub apply_command_policy :
    Option PermissionHandler → CommandPolicy → Option PermissionHandler
unfolding policy_handler
apply_command_policy base [] = base
apply_command_policy base (r ∷ rs) = some (policy_handler base (r ∷ rs))

abbrev pub is_high : RiskLevel → Bool
is_high high = true
is_high _ = false

abbrev pub confirm_handler : Option PermissionHandler → Option PermissionHandler → PermissionHandler
confirm_handler base none request =
    if is_high request.risk then err confirmer_unavailable else ask_base base request
confirm_handler base (some confirmer) request =
    if is_high request.risk then confirmer request else ask_base base request

abbrev pub deny_handler : Option PermissionHandler → PermissionHandler
deny_handler base request = if is_high request.risk then ok false else ask_base base request

-- The handler for a policy that was trimmed and put in lower case.
unfoldable pub risk_handler :
    Option PermissionHandler
    → Option PermissionHandler
    → Text
    → Result PermissionError (Option PermissionHandler)
risk_handler base confirmer policy =
    if is_empty policy || text_eq policy (codes "advisory")
    then ok base
    else if text_eq policy (codes "confirm")
    then ok (some (confirm_handler base confirmer))
    else if text_eq policy (codes "deny")
    then ok (some (deny_handler base))
    else err (unsupported policy)

unfoldable pub apply_risk_policy :
    Option PermissionHandler
    → Option PermissionHandler
    → Text
    → Result PermissionError (Option PermissionHandler)
unfolding risk_handler
apply_risk_policy base confirmer name = risk_handler base confirmer (to_lower (trim_space name))

-- The check before a side effect; `handler` is the one that the turn's context carries. `none` says
-- that the tool may run.
unfoldable pub require_permission :
    Option PermissionHandler → PermissionRequest → CommandPolicy → Option PermissionError
unfolding apply_command_policy
require_permission handler request policy = elim (apply_command_policy handler policy) [
  | none ↦ none
  | some h ↦ elim (h request) [
    | err e ↦ some e
    | ok true ↦ none
    | ok false ↦ some permission_denied
  ]
]
