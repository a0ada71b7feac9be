-- ===== src/Guard/Ids.antt =====
-- Which batches pass the check of their IDs, by a description of the whole list.
use eino_local_assistant.Prelude.{
  ℕ, suc, ◌≡◌, refl, Bool, true, not, ◌&&◌, List, [], ◌∷◌, map, arith, any, all, is_some, Text,
  text_eq, text_eq_iff, trim_space, is_empty, Dict, lookup,
}
use eino_local_assistant.Guard.Budget.{AdmittedToolCall, ToolCall, TurnBudget}
use eino_local_assistant.Guard.Admission.{check_ids}

-- The IDs of a batch are in order when none is blank, the turn has not used it, and no two are equal.
abbrev pub distinct : List Text → Bool
distinct [] = true
distinct (x ∷ xs) = not (any (text_eq x) xs) && distinct xs

abbrev is_usable : Dict AdmittedToolCall → Text → Bool
is_usable known id = not (is_empty id) && not (is_some (lookup id known))

abbrev trimmed_ids : List ToolCall → List Text
trimmed_ids = map (λ c. trim_space c.id)

abbrev pub is_fresh : TurnBudget → List ToolCall → Bool
is_fresh b cs = all (is_usable b.admitted_tool_calls) (trimmed_ids cs) && distinct (trimmed_ids cs)

all-unseen_cons :
    (id : Text) (seen xs : List Text)
    → all (λ x. not (any (text_eq x) (id ∷ seen))) xs
      ≡ (not (any (text_eq id) xs) && all (λ x. not (any (text_eq x) seen)) xs)
all-unseen_cons id seen [] = refl
all-unseen_cons id seen (x ∷ xs) =
    ground (arith, text_eq_iff x id, text_eq_iff id x, all-unseen_cons id seen xs)

check_ids-fresh :
    (i : ℕ) (seen : List Text) (known : Dict AdmittedToolCall) (cs : List ToolCall)
    → not (is_some (check_ids i seen known cs)) ≡ (
        all (is_usable known) (trimmed_ids cs)
        && distinct (trimmed_ids cs)
        && all (λ x. not (any (text_eq x) seen)) (trimmed_ids cs))
unfolding check_ids
check_ids-fresh i seen known [] = refl
check_ids-fresh i seen known (c ∷ cs) =
    let id = trim_space c.id in
    ground (
      arith,
      check_ids-fresh (suc i) (id ∷ seen) known cs,
      all-unseen_cons id seen (trimmed_ids cs),
    )

all-unseen_nil : (xs : List Text) → all (λ x. not (any (text_eq x) [])) xs ≡ true
all-unseen_nil [] = refl
all-unseen_nil (x ∷ xs) = all-unseen_nil xs

-- The check of the IDs passes exactly for these.
pub check_ids-is_fresh :
    (b : TurnBudget) (cs : List ToolCall)
    → is_fresh b cs ≡ not (is_some (check_ids 0 [] b.admitted_tool_calls cs))
check_ids-is_fresh b cs =
    ground (arith, check_ids-fresh 0 [] b.admitted_tool_calls cs, all-unseen_nil (trimmed_ids cs))
