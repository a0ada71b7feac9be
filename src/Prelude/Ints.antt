-- ===== src/Prelude/Ints.antt =====
-- Signed integers over the native numbers: Go's `int` where the source tests for a negative value.
use Prim.Native.Nat.{ℕ, zero, suc, ◌+◌, ◌-◌, ◌*◌, ◌/◌, ◌%◌, ◌≤◌, ◌<◌}
use mathlib.Core.Path.{◌≡◌}
use mathlib.Core.Bool.{Bool}
use native.Mathlib.Omega.{arith}
use eino_local_assistant.Prelude.Tests.{ltb, leb, if◌then◌else◌}

-- `negsuc n` is -(n + 1).
pub data ℤ : Type 0 where
  pos : ℕ → ℤ
  negsuc : ℕ → ℤ

abbrev pub pos_part : ℤ → ℕ
pos_part (pos n) = n
pos_part (negsuc n) = 0

abbrev pub neg_part : ℤ → ℕ
neg_part (pos n) = 0
neg_part (negsuc n) = suc n

abbrev pub ltb_ℤ : ℤ → ℤ → Bool
ltb_ℤ a b = ltb (pos_part a + neg_part b) (pos_part b + neg_part a)

-- a - b, as an integer.
abbrev pub sub_ℕ : ℕ → ℕ → ℤ
sub_ℕ a b = if leb b a then pos (a - b) else negsuc (b - a - 1)

infixl 65 ◌+ℤ◌
unfoldable pub ◌+ℤ◌ : ℤ → ℤ → ℤ
a +ℤ b = sub_ℕ (pos_part a + pos_part b) (neg_part a + neg_part b)

-- A number reduced to Go's 64-bit `int`.
abbrev pub wrap_int : ℤ → ℤ
wrap_int (pos n) =
    let m = n % 18_446_744_073_709_551_616 in
    if ltb m 9_223_372_036_854_775_808 then pos m else negsuc (18_446_744_073_709_551_615 - m)
wrap_int (negsuc n) =
    let m = n % 18_446_744_073_709_551_616 in
    if ltb m 9_223_372_036_854_775_808 then negsuc m else pos (18_446_744_073_709_551_615 - m)

-- Go's `+` on `int`.
unfoldable pub add_int : ℤ → ℤ → ℤ
unfolding ◌+ℤ◌
add_int a b = wrap_int (a +ℤ b)

abbrev pub leb_ℤ : ℤ → ℤ → Bool
leb_ℤ a b = leb (pos_part a + neg_part b) (pos_part b + neg_part a)

abbrev pub neg_ℕ : ℕ → ℤ
neg_ℕ zero = pos 0
neg_ℕ (suc n) = negsuc n

-- Go's division by a positive constant, which rounds towards zero.
abbrev pub quot_int : ℤ → ℕ → ℤ
quot_int (pos n) d = pos (n / d)
quot_int (negsuc n) d = neg_ℕ (suc n / d)

abbrev pub max_int : ℤ → ℤ → ℤ
max_int a b = if ltb_ℤ a b then b else a

-- Go's `-` on `int`.
unfoldable pub sub_int : ℤ → ℤ → ℤ
unfolding ◌+ℤ◌
sub_int a b = wrap_int (sub_ℕ (pos_part a + neg_part b) (pos_part b + neg_part a))

-- Go's `*` with a constant.
unfoldable pub mul_int : ℤ → ℕ → ℤ
mul_int (pos a) b = wrap_int (pos (a * b))
mul_int (negsuc a) b = wrap_int (neg_ℕ (suc a * b))

-- A sum that is a Go `int` is exact.
pub add_int_exact :
    (a b : ℕ) → a + b < 9_223_372_036_854_775_808 → add_int (pos a) (pos b) ≡ pos (a + b)
unfolding add_int ◌+ℤ◌
add_int_exact a b h = ground arith

pub sub_int_exact :
    (a b : ℕ) → b ≤ a → a < 9_223_372_036_854_775_808 → sub_int (pos a) (pos b) ≡ pos (a - b)
unfolding sub_int ◌+ℤ◌
sub_int_exact a b h k = ground arith
