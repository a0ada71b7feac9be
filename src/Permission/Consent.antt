-- ===== src/Permission/Consent.antt =====
-- ApplyRiskPolicy: what the named policies make of a request, through the check before a side effect.
use eino_local_assistant.Prelude.{
  ◌≡◌, ◌↔◌, refl, Bool, true, false, not, ◌&&◌, ◌||◌, Option, none, some, arith, Bool-cases, inl,
  inr, Text, codes, text_eq, is_empty, is_some, to_lower, trim_space, if◌then◌else◌, Result, ok,
  err,
}
use eino_local_assistant.Permission.Policy.{
  PermissionRequest, PermissionError, unsupported, PermissionHandler, CommandPolicy,
  match_command_policy, ask_base, risk_handler, apply_risk_policy, confirm_handler, deny_handler,
  is_high, require_permission,
}
use eino_local_assistant.Permission.Restriction.{permits}
use eino_local_assistant.Permission.Gate.{require_permission_iff}

abbrev pub is_advisory : Text → Bool
is_advisory name = is_empty name || text_eq name (codes "advisory")

abbrev pub is_named : Text → Bool
is_named name = is_advisory name || text_eq name (codes "confirm") || text_eq name (codes "deny")

abbrev pub agrees : PermissionRequest → Option PermissionHandler → Bool
agrees request none = false
agrees request (some h) = elim (h request) [ ok answer ↦ answer | err e ↦ false ]

-- A nil handler restricts nothing.
abbrev pub allows : PermissionRequest → Option PermissionHandler → Bool
allows request none = true
allows request (some h) = agrees request (some h)

-- Who has to agree: the base, but for a high risk the confirmer under the policy "confirm" and nobody
-- can under "deny".
abbrev pub consents :
    Text → Option PermissionHandler → Option PermissionHandler → PermissionRequest → Bool
consents name base confirmer request =
    if is_high request.risk && not (is_advisory name)
    then text_eq name (codes "confirm") && agrees request confirmer
    else allows request base

-- What a policy of this name comes to.
abbrev pub Governs :
    Text
    → Option PermissionHandler
    → Option PermissionHandler
    → Result PermissionError (Option PermissionHandler)
    → Type 0
Governs name base confirmer (err e) = (is_named name ≡ false) × (e ≡ unsupported name)
Governs name base confirmer (ok h) =
    (is_named name ≡ true)
    × ((request : PermissionRequest) (policy : CommandPolicy)
        → (require_permission h request policy ≡ none) ↔ (
            (consents name base confirmer request ≡ true)
            × (permits (is_some h) (match_command_policy policy request.detail) ≡ true)))

allows-ask_base :
    (base : Option PermissionHandler) (request : PermissionRequest)
    → (ask_base base request ≡ ok true) ↔ (allows request base ≡ true)
allows-ask_base none request = ground arith
allows-ask_base (some h) request = ground arith

confirm_handler-consents :
    (base confirmer : Option PermissionHandler) (request : PermissionRequest)
    → (confirm_handler base confirmer request ≡ ok true)
      ↔ ((if is_high request.risk then agrees request confirmer else allows request base) ≡ true)
confirm_handler-consents base none request = ground (arith, allows-ask_base base request)
confirm_handler-consents base (some c) request = ground (arith, allows-ask_base base request)

-- What the check says under a handler that consents as the policy does.
governed :
    (name : Text) (base confirmer h : Option PermissionHandler) (request : PermissionRequest)
    (policy : CommandPolicy)
    → ((ask_base h request ≡ ok true) ↔ (consents name base confirmer request ≡ true))
    → (require_permission h request policy ≡ none) ↔ (
        (consents name base confirmer request ≡ true)
        × (permits (is_some h) (match_command_policy policy request.detail) ≡ true))
governed name base confirmer h request policy same =
    let through = require_permission_iff h request policy in
    (λ a. (same.0 (through.0 a).0, (through.0 a).1), λ a. through.1 (same.1 a.0, a.1))

risk_handler-Governs :
    (base confirmer : Option PermissionHandler) (name : Text)
    → Governs name base confirmer (risk_handler base confirmer name)
unfolding risk_handler
risk_handler-Governs base confirmer name = elim (Bool-cases (is_advisory name)) [
  | inl a ↦ rw a (
    ground arith,
    λ request policy.
        governed name base confirmer base request policy
          (ground (arith, a, allows-ask_base base request)),
  )
  | inr a ↦ elim (Bool-cases (text_eq name (codes "confirm"))) [
    | inl c ↦
        rw (a, c)
          (
            ground arith,
            λ request policy.
                governed name base confirmer (some (confirm_handler base confirmer)) request policy
                  (ground (arith, a, c, confirm_handler-consents base confirmer request)),
          )
    | inr c ↦ elim (Bool-cases (text_eq name (codes "deny"))) [
      | inl d ↦
          rw (a, c, d)
            (
              ground arith,
              λ request policy.
                  governed name base confirmer (some (deny_handler base)) request policy
                    (ground (arith, a, c, d, allows-ask_base base request)),
            )
      | inr d ↦ rw (a, c, d) (ground arith, refl)
    ]
  ]
]

-- A risk policy is accepted exactly when its name, without blanks around it and in lower case, is
-- empty, "advisory", "confirm" or "deny", and any other is an error that names it. Under the handler
-- of an accepted policy a tool runs exactly when the rules do not forbid its command and who has to
-- agree does: the confirmer for a high risk under "confirm", nobody can for one under "deny", and in
-- every other case the base, which agrees when it is missing.
pub apply_risk_policy_iff :
    (base confirmer : Option PermissionHandler) (name : Text)
    → Governs (to_lower (trim_space name)) base confirmer (apply_risk_policy base confirmer name)
unfolding apply_risk_policy
apply_risk_policy_iff base confirmer name =
    risk_handler-Governs base confirmer (to_lower (trim_space name))
