-- ===== src/Permission/Gate.antt =====
-- The check before a side effect, with every policy around it.
use eino_local_assistant.Prelude.{
  ◌≡◌, ◌≢◌, ◌⊎◌, ◌↔◌, inl, inr, refl, Bool, true, false, Option, none, some, [], ◌∷◌, arith, Text,
  is_some, Result, ok, err,
}
use eino_local_assistant.Permission.Policy.{
  PermissionRequest, PermissionError, permission_denied, PermissionHandler, CommandPolicy, Best,
  match_command_policy, match_rules, ask_base, by_best, policy_handler, apply_command_policy,
  require_permission,
}
use eino_local_assistant.Permission.Restriction.{permits, by_decision-permits}
use eino_local_assistant.Permission.Modes.{SwitchablePermissionHandler, plan, deny, decide}

-- What the check makes of a handler's answer.
abbrev verdict : Result PermissionError Bool → Option PermissionError
verdict (err e) = some e
verdict (ok true) = none
verdict (ok false) = some permission_denied

verdict_iff : (r : Result PermissionError Bool) → (verdict r ≡ none) ↔ (r ≡ ok true)
verdict_iff (err e) = ground arith
verdict_iff (ok true) = ground arith
verdict_iff (ok false) = ground arith

by_best-permits :
    (base : Option PermissionHandler) (b : Best) (request : PermissionRequest)
    → (by_best base b request ≡ ok true)
      ↔ ((ask_base base request ≡ ok true) × (permits (is_some base) b ≡ true))
by_best-permits base none request = (λ a. (a, refl), λ a. a.0)
by_best-permits base (some (d, c)) request = by_decision-permits base d c request

policy_handler-permits :
    (base : Option PermissionHandler) (policy : CommandPolicy) (request : PermissionRequest)
    → (policy_handler base policy request ≡ ok true) ↔ (
        (ask_base base request ≡ ok true)
        × (permits (is_some base) (match_command_policy policy request.detail) ≡ true))
unfolding policy_handler
policy_handler-permits base policy request =
    by_best-permits base (match_command_policy policy request.detail) request

match_nothing : (command : Text) → match_command_policy [] command ≡ none
unfolding match_command_policy match_rules
match_nothing command = ground arith

-- A tool runs exactly when the handler of the turn lets it, or there is none, and the rules do not
-- forbid its command; a rule that asks forbids it when there is no handler to ask.
pub require_permission_iff :
    (handler : Option PermissionHandler) (request : PermissionRequest) (policy : CommandPolicy)
    → (require_permission handler request policy ≡ none) ↔ (
        (ask_base handler request ≡ ok true)
        × (permits (is_some handler) (match_command_policy policy request.detail) ≡ true))
unfolding require_permission apply_command_policy
require_permission_iff none request [] =
    rw (match_nothing request.detail) (λ a. (refl, refl), λ a. refl)
require_permission_iff (some h) request [] =
    rw (match_nothing request.detail)
      (λ a. ((verdict_iff (h request)).0 a, refl), λ a. (verdict_iff (h request)).1 a.0)
require_permission_iff handler request (r ∷ rs) =
    let through = policy_handler-permits handler (r ∷ rs) request in
    let judged = verdict_iff (policy_handler handler (r ∷ rs) request) in
    (λ a. through.0 (judged.0 a), λ a. judged.1 (through.1 a))

-- With a handler in plan mode or in deny mode the check refuses every request, whatever the rules are.
pub closed_mode_refuses :
    (h : SwitchablePermissionHandler) (request : PermissionRequest) (policy : CommandPolicy)
    → (h.mode ≡ plan) ⊎ (h.mode ≡ deny)
    → require_permission (some (decide h)) request policy ≢ none
unfolding decide
closed_mode_refuses h request policy m r =
    let (allowed, _) = (require_permission_iff (some (decide h)) request policy).0 r in
    elim m [ inl p ↦ absurd (ground arith) | inr d ↦ absurd (ground arith) ]
