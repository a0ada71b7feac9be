-- ===== src/Prelude/Results.antt =====
-- What a function that may fail gives back: its error or its value.
use mathlib.Core.Path.{◌≡◌, refl, ap, ◌∙◌}
use mathlib.Core.Bool.{Bool, true, false}
use mathlib.Core.Option.{Option, none, some}

pub data Result {ℓ} (E : Type 0) (A : Type ℓ) : Type ℓ where
  err : E → Result E A
  ok : A → Result E A

module _ {ℓ κ} {E : Type 0} {A : Type ℓ} {B : Type κ} where
  infixl 5 ◌>>=◌
  abbrev pub ◌>>=◌ : Result E A → (A → Result E B) → Result E B
  err failure >>= next = err failure
  ok value >>= next = next value

  -- What went through, went through in both steps.
  pub >>=-eq-ok :
      (first : Result E A) (next : A → Result E B) {last : B}
      → (first >>= next) ≡ ok last
      → (value : A) × (first ≡ ok value) × (next value ≡ ok last)
  >>=-eq-ok (err failure) next through = cc
  >>=-eq-ok (ok value) next through = (value, refl, through)

  -- A step that went through goes on with its value.
  pub >>=-eq :
      (first : Result E A) (next : A → Result E B) {value : A} {last : Result E B}
      → first ≡ ok value
      → next value ≡ last
      → (first >>= next) ≡ last
  >>=-eq first next e rest = ap (λ r. r >>= next) e ∙ rest

module _ {ℓ} {E : Type 0} {A : Type ℓ} where
  infixl 5 ◌>>◌
  abbrev pub ◌>>◌ : Result E (Unit {0}) → Result E A → Result E A
  check >> rest = check >>= λ _. rest

  -- A missing value is an error.
  abbrev pub or_fail : Option A → E → Result E A
  or_fail none failure = err failure
  or_fail (some value) failure = ok value

-- Go's early return with an error, when a test holds.
abbrev pub fail_if : {E : Type 0} → Bool → E → Result E (Unit {0})
fail_if true failure = err failure
fail_if false failure = ok tt

pub fail_if-eq-ok :
    {E : Type 0} (failure : E) {done : Unit {0}} (test : Bool)
    → fail_if test failure ≡ ok done
    → test ≡ false
fail_if-eq-ok failure true h = absurd (cc)
fail_if-eq-ok failure false h = refl

pub ok_inj {ℓ} : {E : Type 0} {A : Type ℓ} {a b : A} → ◌≡◌ {A = Result E A} (ok a) (ok b) → a ≡ b
ok_inj {a = a} h = ap (λ r. elim r [ ok x ↦ x | err _ ↦ a ]) h

pub fail_if-eq :
    {E : Type 0} (failure : E) (test : Bool) → test ≡ false → fail_if test failure ≡ ok tt
fail_if-eq failure test h = ap (λ b. fail_if b failure) h

-- A check that passes goes on with the rest.
pub fail_if_passes {ℓ} :
    {E : Type 0} {A : Type ℓ} (failure : E) (test : Bool) (rest last : Result E A)
    → test ≡ false
    → rest ≡ last
    → (fail_if test failure >> rest) ≡ last
fail_if_passes failure test rest last h e = ap (λ b. fail_if b failure >> rest) h ∙ e
