-- ===== src/Permission/Modes.antt =====
-- SwitchablePermissionHandler of internal/tools/permission.go, and the handler of a fixed mode. The
-- methods hold the lock, so a history is the order of the calls.
use eino_local_assistant.Prelude.{
  ◌≡◌, ◌≢◌, ◌⊎◌, inl, inr, refl, ◌∙◌, false, ◌||◌, Option, none, some, List, [], ◌∷◌, arith,
  if◌then◌else◌, Text, codes, text_eq, to_lower, trim_space, is_empty, Result, ok, err,
}
use eino_local_assistant.Permission.Policy.{
  PermissionError, unsupported, plan_fixed, PermissionHandler, ask_base,
}

pub data PermissionMode : Type 0 where
  unrestricted confirm deny plan : PermissionMode

-- The mode that a text names; the empty text names the unrestricted mode.
unfoldable pub mode_of : Text → Option PermissionMode
mode_of name =
    let mode = to_lower (trim_space name) in
    if is_empty mode || text_eq mode (codes "unrestricted")
    then some unrestricted
    else if text_eq mode (codes "confirm")
    then some confirm
    else if text_eq mode (codes "deny")
    then some deny
    else if text_eq mode (codes "plan")
    then some plan
    else none

pub record SwitchablePermissionHandler : Type 0 where
  pub mode : PermissionMode
  pub normal : PermissionMode
  pub delegate : Option PermissionHandler

unfoldable pub set_mode :
    SwitchablePermissionHandler → Text → SwitchablePermissionHandler × Option PermissionError
set_mode h name = elim (mode_of name) [
  | none ↦ (h, some (unsupported (to_lower (trim_space name))))
  | some mode ↦ (record h { mode = mode }, none)
]

unfoldable pub new_switchable_permission_handler :
    Text → Option PermissionHandler → Result PermissionError SwitchablePermissionHandler
new_switchable_permission_handler name delegate = elim (mode_of name) [
  | none ↦ err (unsupported (to_lower (trim_space name)))
  | some mode ↦ ok (record { mode = mode; normal = mode; delegate = delegate })
]

unfoldable pub exit_plan :
    SwitchablePermissionHandler → SwitchablePermissionHandler × Option PermissionError
exit_plan h = elim h.normal [
  | plan ↦ (h, some plan_fixed)
  | mode ↦ (record h { mode = mode }, none)
]

unfoldable pub decide : SwitchablePermissionHandler → PermissionHandler
decide h request = elim h.mode [
  | plan ↦ ok false
  | deny ↦ ok false
  | _ ↦ ask_base h.delegate request
]

-- `HandlerForMode`: a mode that needs nobody to ask.
unfoldable pub handler_for_mode : Text → Result PermissionError (Option PermissionHandler)
handler_for_mode name = elim (mode_of name) [
  | some unrestricted ↦ ok none
  | some deny ↦ ok (some (λ _. ok false))
  | some plan ↦ ok (some (λ _. ok false))
  | _ ↦ err (unsupported (to_lower (trim_space name)))
]

pub data Change : Type 0 where
  to_mode : Text → Change
  leave_plan : Change

abbrev pub change : SwitchablePermissionHandler → Change → SwitchablePermissionHandler
change h (to_mode name) = (set_mode h name).0
change h leave_plan = (exit_plan h).0

abbrev pub changes : SwitchablePermissionHandler → List Change → SwitchablePermissionHandler
changes h [] = h
changes h (c ∷ cs) = changes (change h c) cs

change-normal :
    (h : SwitchablePermissionHandler) (c : Change)
    → ((change h c).normal ≡ h.normal) × ((change h c).delegate ≡ h.delegate)
unfolding set_mode exit_plan
change-normal h (to_mode name) = ground arith
change-normal h leave_plan = ground arith

changes-normal :
    (h : SwitchablePermissionHandler) (cs : List Change)
    → ((changes h cs).normal ≡ h.normal) × ((changes h cs).delegate ≡ h.delegate)
changes-normal h [] = (refl, refl)
changes-normal h (c ∷ cs) =
    let (n, d) = change-normal h c in
    let (n', d') = changes-normal (change h c) cs in (n' ∙ n, d' ∙ d)

exit_plan-cases :
    (h : SwitchablePermissionHandler) (m : PermissionMode)
    → h.normal ≡ m
    → ((m ≡ plan) × (exit_plan h ≡ (h, some plan_fixed)))
      ⊎ ((m ≢ plan) × (exit_plan h ≡ (record h { mode = m }, none)))
unfolding exit_plan
exit_plan-cases h plan n = inl (refl, ground arith)
exit_plan-cases h unrestricted n = inr (λ c. cc, ground arith)
exit_plan-cases h confirm n = inr (λ c. cc, ground arith)
exit_plan-cases h deny n = inr (λ c. cc, ground arith)

-- However the mode was changed since, leaving plan mode restores the mode that the session began
-- with; a session that began in plan mode gets an error and keeps the mode that it is in.
pub exit_plan-changes :
    (name : Text) (delegate : Option PermissionHandler) (h : SwitchablePermissionHandler)
    (cs : List Change)
    → new_switchable_permission_handler name delegate ≡ ok h
    → ((h.mode ≡ plan) × (exit_plan (changes h cs) ≡ (changes h cs, some plan_fixed)))
      ⊎ ((h.mode ≢ plan)
          × (exit_plan (changes h cs) ≡ (record (changes h cs) { mode = h.mode }, none)))
unfolding new_switchable_permission_handler
exit_plan-changes name delegate h cs made =
    let same : h.normal ≡ h.mode = ground arith in
    exit_plan-cases (changes h cs) h.mode ((changes-normal h cs).0 ∙ same)
