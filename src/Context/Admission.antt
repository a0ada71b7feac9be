-- ===== src/Context/Admission.antt =====
-- The watermarks and the admission of a request, with numbers that do not wrap around.
use eino_local_assistant.Prelude.{
  ℕ, zero, suc, ◌+◌, ◌*◌, ◌/◌, ◌≤◌, ◌<◌, ◌≡◌, ◌↔◌, refl, ap, ◌∙◌, Option, none, some, List, [], ◌∷◌,
  arith, if◌then◌else◌, ltb, ℤ, pos, negsuc, pos_part, ltb_ℤ, mul_int, max_int, quot_int, sub_int,
  sub_int_exact, ◌-◌, add_int, add_int_exact, ok,
}
use eino_local_assistant.Context.Tokens.{Schema}
use eino_local_assistant.Context.Policy.{
  percent_tokens, Config, normalize, auto_compact_trigger_tokens, request_admission_ceiling_tokens,
  post_compact_target_tokens, validate_config, AdmissionPolicy, enabled, ceiling_tokens,
  add_framing, add_guard, estimate_request_tokens, max_response_tokens, check_request_admission,
}
use eino_local_assistant.Context.Exact.{max_int_size, prompt_size, estimate_messages_exact}

-- A window whose multiples by a percentage are still Go integers.
abbrev pub max_window : ℕ
max_window = 72_057_594_037_927_936

percent_tokens_exact :
    (w p : ℕ) → w * p < max_int_size → percent_tokens (pos w) p ≡ pos (w * p / 100)
unfolding percent_tokens mul_int
percent_tokens_exact w p h = ground arith

pub ceiling_exact : (w : ℕ) → w ≤ max_window → percent_tokens (pos w) 95 ≡ pos (w * 95 / 100)
ceiling_exact w h = percent_tokens_exact w 95 (omega arith)

normalize_at :
    (c : Config) (z : ℤ)
    → c.window_tokens ≡ z
    → validate_config c ≡ ok tt
    → (w : ℕ) × ((normalize c).window_tokens ≡ pos w) × (2 ≤ w)
unfolding validate_config normalize
normalize_at c (pos zero) e h = (32_000, ground (arith, e), omega arith)
normalize_at c (pos (suc n)) e h = (suc n, ground (arith, e), ground (arith, e))
normalize_at c (negsuc n) e h = absurd (ground (arith, e))

-- The window of a valid configuration is a number, at least 2.
pub normalize-positive :
    (c : Config)
    → validate_config c ≡ ok tt
    → (w : ℕ) × ((normalize c).window_tokens ≡ pos w) × (2 ≤ w)
normalize-positive c h = normalize_at c c.window_tokens refl h

-- For a valid configuration with a window of at most 2 ^ 56 tokens the target after a compaction, the
-- trigger of a compaction and the admission ceiling are at least 1, in this order, and the ceiling is
-- below the window.
pub thresholds_ordered :
    (c : Config)
    → validate_config c ≡ ok tt
    → pos_part (normalize c).window_tokens ≤ max_window
    → (t : ℕ) × (a : ℕ) × (r : ℕ) × (post_compact_target_tokens c ≡ pos t)
      × (auto_compact_trigger_tokens c ≡ pos a)
      × (request_admission_ceiling_tokens c ≡ pos r)
      × (1 ≤ t)
      × (t ≤ a)
      × (a ≤ r)
      × (r < pos_part (normalize c).window_tokens)
unfolding auto_compact_trigger_tokens request_admission_ceiling_tokens post_compact_target_tokens
thresholds_ordered c h small =
    let (w, e, two) = normalize-positive c h in
    let bound : w ≤ max_window = omega (arith, small, ap pos_part e) in
    (
      w * 50 / 100,
      w * 85 / 100,
      w * 95 / 100,
      ap (λ x. percent_tokens x 50) e ∙ percent_tokens_exact w 50 (omega arith),
      ap (λ x. percent_tokens x 85) e ∙ percent_tokens_exact w 85 (omega arith),
      ap (λ x. percent_tokens x 95) e ∙ percent_tokens_exact w 95 (omega arith),
      omega arith,
      omega arith,
      omega arith,
      omega (arith, ap pos_part e),
    )

-- The number of messages that are not nil.
abbrev pub message_count : {Message : Type 0} → List (Option Message) → ℕ
message_count [] = 0
message_count (none ∷ ms) = message_count ms
message_count (some m ∷ ms) = 1 + message_count ms

add_framing_exact :
    {Message : Type 0} (n : ℕ) (ms : List (Option Message))
    → n + 8 * message_count ms < max_int_size
    → add_framing (pos n) ms ≡ pos (n + 8 * message_count ms)
unfolding add_framing
add_framing_exact n [] h = ap pos (omega arith)
add_framing_exact n (none ∷ ms) h = add_framing_exact n ms h
add_framing_exact n (some m ∷ ms) h =
    ap (λ t. add_framing t ms) (add_int_exact n 8 (omega arith))
    ∙ add_framing_exact (n + 8) ms (omega arith)
    ∙ ap pos (omega arith)

abbrev pub guarded : ℕ → ℕ
guarded raw = raw + (if ltb 32 (raw * 10 / 100) then raw * 10 / 100 else 32)

mul_int_exact : (a b : ℕ) → a * b < max_int_size → mul_int (pos a) b ≡ pos (a * b)
unfolding mul_int
mul_int_exact a b h = ground arith

max_int_pos : (a b : ℕ) → max_int (pos a) (pos b) ≡ pos (if ltb a b then b else a)
max_int_pos a b = ground arith

add_guard_exact : (raw : ℕ) → raw * 11 < max_int_size → add_guard (pos raw) ≡ pos (guarded raw)
unfolding add_guard
add_guard_exact raw h =
    ap (λ q. add_int (pos raw) (max_int (pos 32) (quot_int q 100)))
      (mul_int_exact raw 10 (omega arith))
    ∙ ap (add_int (pos raw)) (max_int_pos 32 (raw * 10 / 100))
    ∙ add_int_exact raw (if ltb 32 (raw * 10 / 100) then raw * 10 / 100 else 32) (ground arith)

module _ {Message : Type 0} (schema : Schema Message) (p : AdmissionPolicy) (w k : ℕ)
    (window : p.window_tokens ≡ pos w) (tools : p.tool_schema_tokens ≡ pos k) where
  -- The size of a request before the guard.
  abbrev pub raw_size : List (Option Message) → ℕ
  raw_size ms = prompt_size schema ms + k + 32 + 8 * message_count ms

  estimate_request_tokens_exact :
      (ms : List (Option Message))
      → raw_size ms * 11 < max_int_size
      → estimate_request_tokens schema p ms ≡ pos (guarded (raw_size ms))
  unfolding estimate_request_tokens
  estimate_request_tokens_exact ms h =
      let n = prompt_size schema ms in
      let sized =
        ap (λ a. add_int a p.tool_schema_tokens) (estimate_messages_exact schema ms (omega arith))
        ∙ ap (add_int (pos n)) tools
        ∙ add_int_exact n k (omega arith) in
      let based = ap (λ a. add_int a (pos 32)) sized ∙ add_int_exact (n + k) 32 (omega arith) in
      ap (λ a. add_guard (add_framing a ms)) based
      ∙ ap add_guard (add_framing_exact (n + k + 32) ms (omega arith))
      ∙ add_guard_exact (raw_size ms) h

  ceiling_tokens_exact : 1 ≤ w → w ≤ max_window → ceiling_tokens p ≡ pos (w * 95 / 100)
  unfolding ceiling_tokens enabled
  ceiling_tokens_exact one small = ground (arith, ceiling_exact w small, window)

  -- An admission is a comparison of plain numbers.
  pub check_request_admission_iff :
      (ms : List (Option Message))
      → 1 ≤ w
      → w ≤ max_window
      → raw_size ms * 11 < max_int_size
      → (check_request_admission schema ms p ≡ ok tt) ↔ (guarded (raw_size ms) ≤ w * 95 / 100)
  unfolding check_request_admission enabled
  check_request_admission_iff ms one small fits =
      ground (arith, window, ceiling_tokens_exact one small, estimate_request_tokens_exact ms fits)

  -- With a window of at most 2 ^ 56 tokens and sizes that do not overflow, a request that is admitted
  -- and the longest response that it asks for fit the window together, and the response may have at
  -- least one token.
  pub admitted_fits_window :
      (ms : List (Option Message))
      → 1 ≤ w
      → w ≤ max_window
      → raw_size ms * 11 < max_int_size
      → check_request_admission schema ms p ≡ ok tt
      → (n : ℕ) × (m : ℕ) × (estimate_request_tokens schema p ms ≡ pos n)
        × (max_response_tokens schema p ms ≡ pos m)
        × (1 ≤ m)
        × (n + m ≤ w)
  unfolding max_response_tokens
  admitted_fits_window ms one small fits admitted =
      let n = guarded (raw_size ms) in
      let r = w * 95 / 100 in
      let below : n ≤ r = (check_request_admission_iff ms one small fits).0 admitted in
      let estimate = estimate_request_tokens_exact ms fits in
      let ceiling = ceiling_tokens_exact one small in
      let room =
        ap (sub_int (ceiling_tokens p)) estimate
        ∙ ap (λ c. sub_int c (pos n)) ceiling
        ∙ sub_int_exact r n below (omega arith) in
      (
        n,
        (if ltb (r - n) 1 then 1 else r - n),
        estimate,
        ap (λ x. if ltb_ℤ x (pos 1) then pos 1 else x) room ∙ ground arith,
        ground arith,
        ground arith,
      )
