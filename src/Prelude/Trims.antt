-- ===== src/Prelude/Trims.antt =====
-- Trimming a text twice is trimming it once.
use Prim.Native.Nat.{ℕ, ◌≤◌}
use mathlib.Core.Path.{◌≡◌, refl, sym, ap, ◌∙◌}
use mathlib.Core.Logic.{inl, inr}
use mathlib.Core.Bool.{false}
use mathlib.Core.List.{[], ◌∷◌, ◌++◌, reverse, reverse-append, reverse-reverse, reverse-cons}
use native.Mathlib.Omega.{arith}
use eino_local_assistant.Prelude.Tests.{Bool-cases}
use eino_local_assistant.Prelude.Seqs.{length}
use eino_local_assistant.Prelude.Strings.{Text, is_space, trim_left, trim_space, is_empty}

trim_left_idem : (s : Text) → trim_left (trim_left s) ≡ trim_left s
unfolding trim_left
trim_left_idem [] = refl
trim_left_idem (c ∷ cs) = ground (arith, trim_left_idem cs)

length-trim_left : (s : Text) → length (trim_left s) ≤ length s
unfolding trim_left
length-trim_left [] = omega arith
length-trim_left (c ∷ cs) = ground (arith, length-trim_left cs)

-- What was removed stood in front.
trim_left-split : (s : Text) → (w : Text) × (s ≡ w ++ trim_left s)
unfolding trim_left
trim_left-split [] = ([], refl)
trim_left-split (c ∷ cs) = elim (Bool-cases (is_space c)) [
  | inl h ↦ let (w, e) = trim_left-split cs in (c ∷ w, ground (arith, e))
  | inr h ↦ ([], ground arith)
]

trim_left-keeps_first : (c : ℕ) (cs : Text) → trim_left (c ∷ cs) ≡ c ∷ cs → is_space c ≡ false
unfolding trim_left
trim_left-keeps_first c cs h = elim (Bool-cases (is_space c)) [
  | inr f ↦ f
  | inl t ↦
      let shorter : trim_left cs ≡ c ∷ cs = ground arith in
      absurd (omega (arith, length-trim_left cs, ap length shorter))
]

-- A text that has nothing to trim in front has nothing to trim in front of a beginning of it.
trim_left-prefix : (z v : Text) → trim_left (z ++ v) ≡ z ++ v → trim_left z ≡ z
unfolding trim_left
trim_left-prefix [] v h = refl
trim_left-prefix (c ∷ z) v h = ground (arith, trim_left-keeps_first c (z ++ v) h)

pub trim_space_idem : (s : Text) → trim_space (trim_space s) ≡ trim_space s
unfolding trim_space
trim_space_idem s =
    let y = trim_left s in
    let z = reverse (trim_left (reverse y)) in
    let (w, e) = trim_left-split (reverse y) in
    let whole : y ≡ z ++ reverse w =
      sym (reverse-reverse y) ∙ ap reverse e ∙ reverse-append w (trim_left (reverse y)) in
    let front : trim_left z ≡ z =
      trim_left-prefix z (reverse w) (ap trim_left (sym whole) ∙ trim_left_idem s ∙ whole) in
    ap (λ a. reverse (trim_left (reverse a))) front
    ∙ ap (λ a. reverse (trim_left a)) (reverse-reverse (trim_left (reverse y)))
    ∙ ap reverse (trim_left_idem (reverse y))

trim_left-last :
    (c : ℕ) (xs : Text) → is_space c ≡ false → (w : Text) × (trim_left (xs ++ c ∷ []) ≡ w ++ c ∷ [])
unfolding trim_left
trim_left-last c [] h = ([], ground arith)
trim_left-last c (x ∷ xs) h = elim (Bool-cases (is_space x)) [
  | inl s ↦ let (w, e) = trim_left-last c xs h in (w, ground (arith, e))
  | inr s ↦ (x ∷ xs, ground arith)
]

-- A text that begins with something visible is not empty after trimming.
pub trim_space-visible :
    (c : ℕ) (cs : Text) → is_space c ≡ false → is_empty (trim_space (c ∷ cs)) ≡ false
unfolding trim_space trim_left is_empty
trim_space-visible c cs h =
    let (w, e) = trim_left-last c (reverse cs) h in
    let front : trim_left (c ∷ cs) ≡ c ∷ cs = ground arith in
    let same : trim_space (c ∷ cs) ≡ c ∷ reverse w =
      ap (λ a. reverse (trim_left (reverse a))) front
      ∙ ap (λ a. reverse (trim_left a)) (reverse-cons c cs)
      ∙ ap reverse e
      ∙ reverse-append w (c ∷ []) in
    ap is_empty same
