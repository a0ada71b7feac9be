-- ===== src/Context/Exact.antt =====
-- The estimates as plain sums: below 2 ^ 63 the additions of usage.go do not wrap around.
use eino_local_assistant.Prelude.{
  ℕ, ◌+◌, ◌<◌, ◌≡◌, refl, ap, ◌∙◌, Option, none, some, List, [], ◌∷◌, ◌++◌, arith, Text, pos,
  add_int, add_int_exact,
}
use eino_local_assistant.Context.Tokens.{
  Schema, estimate_text, estimate_calls, estimate_message, estimate_from, estimate_messages,
  clone_msgs,
}

abbrev pub max_int_size : ℕ
max_int_size = 9_223_372_036_854_775_808

abbrev pub calls_size : List (Text × Text) → ℕ
calls_size [] = 0
calls_size ((name, arguments) ∷ rest) =
    estimate_text name + estimate_text arguments + 8 + calls_size rest

estimate_calls_exact :
    (n : ℕ) (calls : List (Text × Text))
    → n + calls_size calls < max_int_size
    → estimate_calls (pos n) calls ≡ pos (n + calls_size calls)
unfolding estimate_calls
estimate_calls_exact n [] h = ap pos (omega arith)
estimate_calls_exact n ((name, arguments) ∷ rest) h =
    let a = estimate_text name in
    let b = estimate_text arguments in
    let named = add_int_exact n a (omega arith) in
    let argued = ap (λ t. add_int t (pos b)) named ∙ add_int_exact (n + a) b (omega arith) in
    let framed = ap (λ t. add_int t (pos 8)) argued ∙ add_int_exact (n + a + b) 8 (omega arith) in
    ap (λ t. estimate_calls t rest) framed
    ∙ estimate_calls_exact (n + a + b + 8) rest (omega arith)
    ∙ ap pos (omega arith)

module _ {Message : Type 0} (schema : Schema Message) where
  abbrev pub message_size : Message → ℕ
  message_size m =
      estimate_text (schema.content m)
      + estimate_text (schema.reasoning_content m)
      + calls_size (schema.tool_calls m)
      + 4

  abbrev pub prompt_size : List (Option Message) → ℕ
  prompt_size [] = 0
  prompt_size (none ∷ ms) = prompt_size ms
  prompt_size (some m ∷ ms) = message_size m + prompt_size ms

  pub prompt_size-append :
      (xs ys : List (Option Message)) → prompt_size (xs ++ ys) ≡ prompt_size xs + prompt_size ys
  prompt_size-append [] ys = omega arith
  prompt_size-append (none ∷ xs) ys = prompt_size-append xs ys
  prompt_size-append (some m ∷ xs) ys = omega (arith, prompt_size-append xs ys)

  pub prompt_size-clone_msgs :
      (ms : List (Option Message)) → prompt_size (clone_msgs ms) ≡ prompt_size ms
  unfolding clone_msgs
  prompt_size-clone_msgs [] = refl
  prompt_size-clone_msgs (none ∷ ms) = prompt_size-clone_msgs ms
  prompt_size-clone_msgs (some m ∷ ms) = omega (arith, prompt_size-clone_msgs ms)

  estimate_message_exact :
      (n : ℕ) (m : Message)
      → n + message_size m < max_int_size
      → estimate_message schema (pos n) m ≡ pos (n + message_size m)
  unfolding estimate_message
  estimate_message_exact n m h =
      let a = estimate_text (schema.content m) in
      let b = estimate_text (schema.reasoning_content m) in
      let calls = schema.tool_calls m in
      let c = calls_size calls in
      let spoken = add_int_exact n a (omega arith) in
      let thought = ap (λ t. add_int t (pos b)) spoken ∙ add_int_exact (n + a) b (omega arith) in
      let called =
        ap (λ t. estimate_calls t calls) thought
        ∙ estimate_calls_exact (n + a + b) calls (omega arith) in
      ap (λ t. add_int t (pos 4)) called
      ∙ add_int_exact (n + a + b + c) 4 (omega arith)
      ∙ ap pos (omega arith)

  estimate_from_exact :
      (n : ℕ) (ms : List (Option Message))
      → n + prompt_size ms < max_int_size
      → estimate_from schema (pos n) ms ≡ pos (n + prompt_size ms)
  unfolding estimate_from
  estimate_from_exact n [] h = ap pos (omega arith)
  estimate_from_exact n (none ∷ ms) h = estimate_from_exact n ms h
  estimate_from_exact n (some m ∷ ms) h =
      ap (λ t. estimate_from schema t ms) (estimate_message_exact n m (omega arith))
      ∙ estimate_from_exact (n + message_size m) ms (omega arith)
      ∙ ap pos (omega arith)

  pub estimate_messages_exact :
      (ms : List (Option Message))
      → prompt_size ms < max_int_size
      → estimate_messages schema ms ≡ pos (prompt_size ms)
  unfolding estimate_messages
  estimate_messages_exact ms h = estimate_from_exact 0 ms (omega arith) ∙ ap pos (omega arith)
