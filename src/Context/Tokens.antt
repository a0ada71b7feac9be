-- ===== src/Context/Tokens.antt =====
-- internal/usage/usage.go: the local estimate of a prompt's size. A message is a value of the eino
-- `schema` package, a parameter.
use eino_local_assistant.Prelude.{
  ℕ, ◌+◌, ◌/◌, Option, none, some, List, [], ◌∷◌, if◌then◌else◌, ltb, length, Text, is_empty, ℤ,
  pos, add_int,
}

-- What the code reads of a `schema.Message` and the two constructors that it calls. A tool call is the
-- name and the arguments of its function.
pub record Schema (Message : Type 0) : Type 0 where
  pub content : Message → Text
  pub reasoning_content : Message → Text
  pub tool_calls : Message → List (Text × Text)
  pub system_message : Text → Message
  pub user_message : Text → Message

unfoldable pub estimate_text : Text → ℕ
unfolding is_empty
estimate_text s =
    if is_empty s then 0 else (let est = (length s + 3) / 4 in if ltb est 1 then 1 else est)

-- `framing` is added after the two texts of every call.
unfoldable pub estimate_calls : ℤ → List (Text × Text) → ℤ
estimate_calls total [] = total
estimate_calls total ((name, arguments) ∷ rest) =
    let named = add_int total (pos (estimate_text name)) in
    let argued = add_int named (pos (estimate_text arguments)) in
    estimate_calls (add_int argued (pos 8)) rest

module _ {Message : Type 0} (schema : Schema Message) where
  unfoldable pub estimate_message : ℤ → Message → ℤ
  estimate_message total m =
      let spoken = add_int total (pos (estimate_text (schema.content m))) in
      let thought = add_int spoken (pos (estimate_text (schema.reasoning_content m))) in
      add_int (estimate_calls thought (schema.tool_calls m)) (pos 4)

  -- A nil pointer is `none`.
  unfoldable pub estimate_from : ℤ → List (Option Message) → ℤ
  estimate_from total [] = total
  estimate_from total (none ∷ ms) = estimate_from total ms
  estimate_from total (some m ∷ ms) = estimate_from (estimate_message total m) ms

  unfoldable pub estimate_messages : List (Option Message) → ℤ
  estimate_messages ms = estimate_from (pos 0) ms

-- Copies of the messages without the nil pointers.
unfoldable pub clone_msgs : {Message : Type 0} → List (Option Message) → List (Option Message)
clone_msgs [] = []
clone_msgs (none ∷ ms) = clone_msgs ms
clone_msgs (some m ∷ ms) = some m ∷ clone_msgs ms
