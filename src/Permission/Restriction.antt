-- ===== src/Permission/Restriction.antt =====
-- The policies restrict: what the rules decide, and that no policy lets through what the base refuses.
use mathlib.Core.List.{Memᴰ}
use mathlib.Core.Path.{subst}
use eino_local_assistant.Prelude.{
  ℕ, ◌≤◌, ◌≡◌, ◌⊎◌, ◌↔◌, inl, inr, ap, ◌∙◌, Bool, true, false, ◌&&◌, Option, none, some, List, [],
  ◌∷◌, arith, All, Bool-cases, Option-cases, Text, is_some, ok,
}
use eino_local_assistant.Permission.Shell.{shell_command_parts}
use eino_local_assistant.Permission.Policy.{
  PermissionRequest, PermissionHandler, CommandPolicyDecision, allow, ask, deny, unknown,
  CommandPolicyRule, CommandPolicy, command_prefix_matches, command_policy_rank, Best, is_better,
  improve, match_rules, drop_blank, single, by_decision, match_command_policy, ask_base,
}

abbrev rank_of : Best → ℕ
rank_of none = 0
rank_of (some (d, _)) = command_policy_rank d

-- Every rule that matches the words ranks at most this high.
abbrev pub AtMost : List Text → ℕ → CommandPolicyRule → Type 0
AtMost argv n r = command_prefix_matches argv r.prefix ≡ true → command_policy_rank r.decision ≤ n

-- The choice is a rule of the list that matches.
abbrev pub ChosenFrom :
    List Text → CommandPolicy → CommandPolicyDecision → CommandPolicyRule → Type 0
ChosenFrom argv rs d r =
    Memᴰ r rs × (r.decision ≡ d) × (command_prefix_matches argv r.prefix ≡ true)

improve-rank :
    (argv : List Text) (r : CommandPolicyRule) (best : Best)
    → (rank_of best ≤ rank_of (improve argv r best)) × AtMost argv (rank_of (improve argv r best)) r
unfolding improve is_better command_policy_rank
improve-rank argv r none = ground arith
improve-rank argv r (some (allow, b)) = ground arith
improve-rank argv r (some (ask, b)) = ground arith
improve-rank argv r (some (deny, b)) = ground arith
improve-rank argv r (some (unknown t, b)) = ground arith

match_rules-rank :
    (argv : List Text) (rs : CommandPolicy) (best : Best)
    → (rank_of best ≤ rank_of (match_rules argv rs best))
      × All (AtMost argv (rank_of (match_rules argv rs best))) rs
unfolding match_rules
match_rules-rank argv [] best = (omega arith, tt)
match_rules-rank argv (r ∷ rs) best =
    let (below, own) = improve-rank argv r best in
    let (after, others) = match_rules-rank argv rs (improve argv r best) in
    (omega (arith, below, after), (λ m. omega (arith, own m, after), others))

improve-ChosenFrom :
    (argv : List Text) (r : CommandPolicyRule) (best : Best) (d : CommandPolicyDecision)
    (c : CommandPolicyRule)
    → improve argv r best ≡ some (d, c)
    → (best ≡ some (d, c))
      ⊎ ((c ≡ r) × (r.decision ≡ d) × (command_prefix_matches argv r.prefix ≡ true))
unfolding improve
improve-ChosenFrom argv r best d c h =
    elim (Bool-cases (command_prefix_matches argv r.prefix && is_better r.decision best)) [
      | inl t ↦ inr (ground arith, ground arith, ground arith)
      | inr f ↦ inl (ground arith)
    ]

match_rules-ChosenFrom :
    (argv : List Text) (rs : CommandPolicy) (best : Best) (d : CommandPolicyDecision)
    (c : CommandPolicyRule)
    → match_rules argv rs best ≡ some (d, c)
    → (best ≡ some (d, c)) ⊎ ChosenFrom argv rs d c
unfolding match_rules
match_rules-ChosenFrom argv [] best d c h = inl h
match_rules-ChosenFrom argv (r ∷ rs) best d c h =
    elim (match_rules-ChosenFrom argv rs (improve argv r best) d c h) [
      | inr (m, e, p) ↦ inr (Memᴰ.tail m, e, p)
      | inl i ↦ elim (improve-ChosenFrom argv r best d c i) [
        | inl b ↦ inl b
        | inr (same, e, p) ↦ inr (
          Memᴰ.head same,
          ap (λ a. a.decision) same ∙ e,
          ap (λ a. command_prefix_matches argv a.prefix) same ∙ p,
        )
      ]
    ]

single-eq :
    (p : Option (List (List Text) × List Text)) (argv : List Text)
    → single p ≡ some argv
    → p ≡ some (argv ∷ [], [])
single-eq none argv h = absurd (cc)
single-eq (some ([], o)) argv h = absurd (cc)
single-eq (some (a ∷ [], [])) argv h = cc
single-eq (some (a ∷ [], x ∷ o)) argv h = absurd (cc)
single-eq (some (a ∷ b ∷ s, o)) argv h = absurd (cc)

drop_blank-eq :
    (b : Best) (d : CommandPolicyDecision) (c : CommandPolicyRule)
    → drop_blank b ≡ some (d, c)
    → b ≡ some (d, c)
drop_blank-eq none d c h = absurd (cc)
drop_blank-eq (some (e, r)) d c h = ground arith

-- A match of the policy is a rule of it whose prefix begins the words of the command, the command is
-- then a single one without operators, and no rule that matches these words is more restrictive.
pub match_command_policy_strictest :
    (policy : CommandPolicy) (command : Text) (d : CommandPolicyDecision) (c : CommandPolicyRule)
    → match_command_policy policy command ≡ some (d, c)
    → (argv : List Text) × (shell_command_parts command ≡ some (argv ∷ [], []))
      × ChosenFrom argv policy d c
      × All (AtMost argv (command_policy_rank d)) policy
unfolding match_command_policy
match_command_policy_strictest policy command d c h =
    elim (Option-cases (single (shell_command_parts command))) [
      | inl n ↦ absurd (ground arith)
      | inr (argv, n) ↦
          let found : match_rules argv policy none ≡ some (d, c) =
            drop_blank-eq (match_rules argv policy none) d c (ground arith) in
          let chosen : ChosenFrom argv policy d c =
            elim (match_rules-ChosenFrom argv policy none d c found) [
              | inl e ↦ absurd (cc)
              | inr e ↦ e
            ] in
          let ranked = (match_rules-rank argv policy none).1 in
          (
            argv,
            single-eq (shell_command_parts command) argv n,
            chosen,
            subst (λ b. All (AtMost argv (rank_of b)) policy) found ranked,
          )
    ]

-- What the rules say of a command when it is known whether a handler is there to ask.
abbrev pub permits : Bool → Best → Bool
permits asked none = true
permits asked (some (deny, _)) = false
permits asked (some (ask, _)) = asked
permits asked (some (_, _)) = true

pub by_decision-permits :
    (base : Option PermissionHandler) (d : CommandPolicyDecision) (c : CommandPolicyRule)
    (request : PermissionRequest)
    → (by_decision base d c request ≡ ok true)
      ↔ ((ask_base base request ≡ ok true) × (permits (is_some base) (some (d, c)) ≡ true))
by_decision-permits none allow c request = ground arith
by_decision-permits none ask c request = ground arith
by_decision-permits none deny c request = ground arith
by_decision-permits none (unknown t) c request = ground arith
by_decision-permits (some h) allow c request = ground arith
by_decision-permits (some h) ask c request = ground arith
by_decision-permits (some h) deny c request = ground arith
by_decision-permits (some h) (unknown t) c request = ground arith
