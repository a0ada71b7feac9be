-- ===== src/Prelude/Dicts.antt =====
-- A Go map with string keys, as an association list.
use Prim.Native.Nat.{ℕ, ◌+◌}
use mathlib.Core.Path.{◌≡◌, refl}
use mathlib.Core.List.{List, [], ◌∷◌}
use mathlib.Core.Option.{Option, none, some}
use native.Mathlib.Omega.{arith}
use eino_local_assistant.Prelude.Tests.{if◌then◌else◌}
use eino_local_assistant.Prelude.Strings.{Text, text_eq, text_eq_iff}

abbrev pub Dict {ℓ} : Type ℓ → Type ℓ
Dict V = List (Text × V)

module _ {ℓ} {V : Type ℓ} where
  unfoldable pub lookup : Text → Dict V → Option V
  lookup k [] = none
  lookup k ((j, v) ∷ m) = if text_eq j k then some v else lookup k m

  unfoldable pub insert : Text → V → Dict V → Dict V
  insert k v [] = (k, v) ∷ []
  insert k v ((j, w) ∷ m) = if text_eq j k then (k, v) ∷ m else (j, w) ∷ insert k v m

  -- The sum of a weight over the entries.
  unfoldable pub weigh : (V → ℕ) → Dict V → ℕ
  weigh f [] = 0
  weigh f ((_, v) ∷ m) = f v + weigh f m

  pub lookup-insert :
      (k j : Text) (v : V) (m : Dict V)
      → lookup j (insert k v m) ≡ (if text_eq k j then some v else lookup j m)
  unfolding lookup insert
  lookup-insert k j v [] = refl
  lookup-insert k j v ((i, w) ∷ m) =
      ground (arith, text_eq_iff k j, text_eq_iff i k, text_eq_iff i j, lookup-insert k j v m)

  pub weigh-insert_new :
      (f : V → ℕ) (k : Text) (v : V) (m : Dict V)
      → lookup k m ≡ none
      → weigh f (insert k v m) ≡ weigh f m + f v
  unfolding lookup insert weigh
  weigh-insert_new f k v [] h = omega arith
  weigh-insert_new f k v ((j, w) ∷ m) h = ground (arith, weigh-insert_new f k v m)

  pub weigh-insert_old :
      (f : V → ℕ) (k : Text) (v old : V) (m : Dict V)
      → lookup k m ≡ some old
      → weigh f (insert k v m) + f old ≡ weigh f m + f v
  unfolding lookup insert weigh
  weigh-insert_old f k v old [] h = absurd (ground arith)
  weigh-insert_old f k v old ((j, w) ∷ m) h = ground (arith, weigh-insert_old f k v old m)
