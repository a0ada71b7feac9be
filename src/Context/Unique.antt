-- ===== src/Context/Unique.antt =====
-- The list of distinct, trimmed and non-empty texts.
use eino_local_assistant.Prelude.{
  ◌≡◌, refl, false, List, [], ◌∷◌, arith, if-holds, Text, trim_space, trim_space_idem, is_empty,
}
use eino_local_assistant.Context.Refs.{contains, unique_after, unique_non_empty}

-- Trimmed, non-empty, different from each other and from those of `seen`.
pub data IsDistinct : List Text → List Text → Type 0 where
  nil : {seen : List Text} → IsDistinct seen []
  cons :
      {seen : List Text} (y : Text) (ys : List Text)
      → trim_space y ≡ y
      → is_empty y ≡ false
      → contains y seen ≡ false
      → IsDistinct (y ∷ seen) ys
      → IsDistinct seen (y ∷ ys)

unique_after-IsDistinct : (seen values : List Text) → IsDistinct seen (unique_after seen values)
unfolding unique_after
unique_after-IsDistinct seen [] = nil
unique_after-IsDistinct seen (raw ∷ rest) =
    let value = trim_space raw in
    if-holds (IsDistinct seen) (is_empty value) _ _ (λ e. unique_after-IsDistinct seen rest)
      (λ e.
        if-holds (IsDistinct seen) (contains value seen) _ _
          (λ f. unique_after-IsDistinct seen rest)
          (λ f.
            cons value (unique_after (value ∷ seen) rest) (trim_space_idem raw) e f
              (unique_after-IsDistinct (value ∷ seen) rest)))

pub unique_after_fixed :
    (seen values : List Text) → IsDistinct seen values → unique_after seen values ≡ values
unfolding unique_after
unique_after_fixed seen [] d = refl
unique_after_fixed seen (y ∷ ys) (cons _ _ t e f d) =
    ground (arith, t, unique_after_fixed (y ∷ seen) ys d)

pub unique_non_empty-IsDistinct : (values : List Text) → IsDistinct [] (unique_non_empty values)
unfolding unique_non_empty
unique_non_empty-IsDistinct values = unique_after-IsDistinct [] values

pub unique_non_empty_idem :
    (values : List Text) → unique_non_empty (unique_non_empty values) ≡ unique_non_empty values
unfolding unique_non_empty
unique_non_empty_idem values =
    unique_after_fixed [] (unique_after [] values) (unique_after-IsDistinct [] values)
