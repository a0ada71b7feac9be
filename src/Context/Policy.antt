-- ===== src/Context/Policy.antt =====
-- internal/contextbuild/config.go and the admission policy of types.go: the watermarks of a context
-- window and the check of a request against the highest of them.
use eino_local_assistant.Prelude.{
  ℕ, Bool, not, Option, none, some, List, [], ◌∷◌, if◌then◌else◌, Text, ℤ, pos, leb_ℤ, ltb_ℤ,
  max_int, quot_int, add_int, sub_int, mul_int, Result, err, ok,
}
use eino_local_assistant.Context.Tokens.{Schema, estimate_text, estimate_messages}

abbrev pub default_window_tokens : ℕ
default_window_tokens = 32_000

abbrev pub auto_compact_threshold_percent : ℕ
auto_compact_threshold_percent = 85

abbrev pub request_admission_ceiling_percent : ℕ
request_admission_ceiling_percent = 95

abbrev pub post_compact_target_percent : ℕ
post_compact_target_percent = 50

-- The percentages are constants above 0.
unfoldable pub percent_tokens : ℤ → ℕ → ℤ
percent_tokens tokens percent =
    if leb_ℤ tokens (pos 0) then pos 0 else quot_int (mul_int tokens percent) 100

pub record Config : Type 0 where
  pub window_tokens : ℤ

abbrev pub default_config : Config
default_config = record { window_tokens = pos default_window_tokens }

unfoldable pub normalize : Config → Config
normalize c = if leb_ℤ c.window_tokens (pos 0) then default_config else c

unfoldable pub auto_compact_trigger_tokens : Config → ℤ
unfolding normalize
auto_compact_trigger_tokens c =
    percent_tokens (normalize c).window_tokens auto_compact_threshold_percent

unfoldable pub request_admission_ceiling_tokens : Config → ℤ
unfolding normalize
request_admission_ceiling_tokens c =
    percent_tokens (normalize c).window_tokens request_admission_ceiling_percent

unfoldable pub post_compact_target_tokens : Config → ℤ
unfolding normalize
post_compact_target_tokens c =
    percent_tokens (normalize c).window_tokens post_compact_target_percent

pub data ConfigError : Type 0 where
  negative_window : ConfigError
  small_window : ConfigError

-- The planner is never nil here.
unfoldable pub validate_config : Config → Result ConfigError (Unit {0})
validate_config c =
    if ltb_ℤ c.window_tokens (pos 0)
    then err negative_window
    else if ltb_ℤ (normalize c).window_tokens (pos 2)
    then err small_window
    else ok tt

abbrev pub admission_base_framing_tokens : ℕ
admission_base_framing_tokens = 32

abbrev pub admission_message_framing_tokens : ℕ
admission_message_framing_tokens = 8

abbrev pub admission_tool_framing_tokens : ℕ
admission_tool_framing_tokens = 16

abbrev pub admission_guard_percent : ℕ
admission_guard_percent = 10

pub record AdmissionPolicy : Type 0 where
  pub window_tokens : ℤ
  pub tool_schema_tokens : ℤ

-- The encoded schemas of the tools: a nil pointer is a
-- `none`, and `marshal` is json.Marshal, which may fail.
unfoldable pub schema_tokens : {Tool : Type 0} → (Tool → Option Text) → ℤ → List (Option Tool) → ℤ
schema_tokens marshal total [] = total
schema_tokens marshal total (none ∷ tools) = schema_tokens marshal total tools
schema_tokens marshal total (some tool ∷ tools) =
    let added : ℤ = elim (marshal tool) [
      | none ↦ mul_int (pos admission_tool_framing_tokens) 4
      | some encoded ↦ add_int (pos (estimate_text encoded)) (pos admission_tool_framing_tokens)
    ] in
    schema_tokens marshal (add_int total added) tools

unfoldable pub new_admission_policy :
    {Tool : Type 0} → (Tool → Option Text) → ℤ → List (Option Tool) → AdmissionPolicy
new_admission_policy marshal window tools = record {
  window_tokens = window;
  tool_schema_tokens = schema_tokens marshal (pos 0) tools;
}

unfoldable pub without_tools : AdmissionPolicy → AdmissionPolicy
without_tools p = record p { tool_schema_tokens = pos 0 }

unfoldable pub enabled : AdmissionPolicy → Bool
enabled p = ltb_ℤ (pos 0) p.window_tokens

unfoldable pub ceiling_tokens : AdmissionPolicy → ℤ
unfolding enabled
ceiling_tokens p =
    if not (enabled p)
    then pos 0
    else percent_tokens p.window_tokens request_admission_ceiling_percent

unfoldable pub add_framing : {Message : Type 0} → ℤ → List (Option Message) → ℤ
add_framing raw [] = raw
add_framing raw (none ∷ ms) = add_framing raw ms
add_framing raw (some m ∷ ms) = add_framing (add_int raw (pos admission_message_framing_tokens)) ms

-- The raw size with its guard.
unfoldable pub add_guard : ℤ → ℤ
add_guard raw = add_int raw (
    max_int (pos admission_base_framing_tokens)
      (quot_int (mul_int raw admission_guard_percent) 100))

pub record RequestAdmissionExceeded : Type 0 where
  pub estimated_tokens : ℤ
  pub ceiling_tokens : ℤ

module _ {Message : Type 0} (schema : Schema Message) where
  unfoldable pub estimate_request_tokens : AdmissionPolicy → List (Option Message) → ℤ
  unfolding add_framing add_guard
  estimate_request_tokens p ms =
      let sized = add_int (estimate_messages schema ms) p.tool_schema_tokens in
      add_guard (add_framing (add_int sized (pos admission_base_framing_tokens)) ms)

  unfoldable pub max_response_tokens : AdmissionPolicy → List (Option Message) → ℤ
  unfolding ceiling_tokens estimate_request_tokens
  max_response_tokens p ms =
      let remaining = sub_int (ceiling_tokens p) (estimate_request_tokens p ms) in
      if ltb_ℤ remaining (pos 1) then pos 1 else remaining

  unfoldable pub check_request_admission :
      List (Option Message) → AdmissionPolicy → Result RequestAdmissionExceeded (Unit {0})
  unfolding enabled ceiling_tokens estimate_request_tokens
  check_request_admission ms p =
      if not (enabled p)
      then ok tt
      else if leb_ℤ (estimate_request_tokens p ms) (ceiling_tokens p)
      then ok tt
      else err (record {
        estimated_tokens = estimate_request_tokens p ms;
        ceiling_tokens = ceiling_tokens p;
      })
