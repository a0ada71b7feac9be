-- ===== src/Checklist/Fields.antt =====
-- `strings.Join(strings.Fields(strings.TrimSpace(s)), " ")`: the words of a text with one space between
-- them.
use mathlib.Core.List.{append-nil, append_assoc, reverse-append, reverse-reverse}
use eino_local_assistant.Prelude.{
  ℕ, ◌≡◌, refl, sym, ap, ◌∙◌, true, false, List, [], ◌∷◌, ◌++◌, reverse, arith, All, All-append,
  All-reverse, if◌then◌else◌, if-holds, Bool-cases, inl, inr, Text, is_space, trim_left, trim_space,
  is_empty,
}

-- The words of a text, when `word` has been read before it.
unfoldable pub fields_after : Text → Text → List Text
fields_after word [] = if is_empty word then [] else word ∷ []
fields_after word (c ∷ cs) =
    let ended = fields_after [] cs in
    let longer = fields_after (word ++ c ∷ []) cs in
    if is_space c then (if is_empty word then ended else word ∷ ended) else longer

-- strings.Fields.
unfoldable pub fields : Text → List Text
unfolding fields_after
fields s = fields_after [] s

-- strings.Join with a space.
unfoldable pub join : List Text → Text
join [] = []
join (w ∷ []) = w
join (w ∷ v ∷ vs) = w ++ 32 ∷ join (v ∷ vs)

unfoldable pub one_line : Text → Text
unfolding fields join
one_line s = join (fields (trim_space s))

abbrev IsVisible : ℕ → Type 0
IsVisible c = is_space c ≡ false

abbrev IsBlank : ℕ → Type 0
IsBlank c = is_space c ≡ true

abbrev IsWord : Text → Type 0
IsWord w = (is_empty w ≡ false) × All IsVisible w

is_empty-snoc : (w : Text) (c : ℕ) → is_empty (w ++ c ∷ []) ≡ false
unfolding is_empty
is_empty-snoc [] c = refl
is_empty-snoc (x ∷ w) c = refl

fields_after-IsWord : (word s : Text) → All IsVisible word → All IsWord (fields_after word s)
unfolding fields_after
fields_after-IsWord word [] v =
    if-holds (All IsWord) (is_empty word) [] (word ∷ []) (λ _. tt) (λ e. ((e, v), tt))
fields_after-IsWord word (c ∷ cs) v =
    let ended = fields_after-IsWord [] cs tt in
    if-holds (All IsWord) (is_space c) _ _
      (λ _. if-holds (All IsWord) (is_empty word) _ _ (λ _. ended) (λ e. ((e, v), ended)))
      (λ b. fields_after-IsWord (word ++ c ∷ []) cs (All-append IsVisible word (c ∷ []) v (b, tt)))

-- Visible characters join the word.
fields_after-append :
    (word v rest : Text)
    → All IsVisible v
    → fields_after word (v ++ rest) ≡ fields_after (word ++ v) rest
unfolding fields_after
fields_after-append word [] rest h = ap (λ w. fields_after w rest) (sym (append-nil word))
fields_after-append word (c ∷ v) rest (b, h) =
    let longer = fields_after-append (word ++ c ∷ []) v rest h in
    let e = ap (λ w. fields_after w rest) (append_assoc word (c ∷ []) v) in
    let ended = fields_after [] (v ++ rest) in
    let split = if is_empty word then ended else word ∷ ended in
    ap (λ t. if t then split else fields_after (word ++ c ∷ []) (v ++ rest)) b ∙ longer ∙ e

-- A word that has been read to its end.
fields_after-end : (w : Text) → is_empty w ≡ false → fields_after w [] ≡ w ∷ []
unfolding fields_after
fields_after-end w e = ap (λ b. if b then [] else w ∷ []) e

fields_after-space :
    (w cs : Text) → is_empty w ≡ false → fields_after w (32 ∷ cs) ≡ w ∷ fields_after [] cs
unfolding fields_after is_space
fields_after-space w cs e = ap (λ b. if b then fields_after [] cs else w ∷ fields_after [] cs) e

fields-join : (ws : List Text) → All IsWord ws → fields (join ws) ≡ ws
unfolding fields join fields_after is_empty
fields-join [] h = refl
fields-join (w ∷ []) ((e, v), h) =
    ap (fields_after []) (sym (append-nil w)) ∙ fields_after-append [] w [] v ∙ fields_after-end w e
fields-join (w ∷ x ∷ xs) ((e, v), h) =
    fields_after-append [] w (32 ∷ join (x ∷ xs)) v
    ∙ fields_after-space w (join (x ∷ xs)) e
    ∙ ap (λ l. w ∷ l) (fields-join (x ∷ xs) h)

-- Blanks in front change no word.
fields-blank_front : (b s : Text) → All IsBlank b → fields (b ++ s) ≡ fields s
unfolding fields fields_after is_empty
fields-blank_front [] s h = refl
fields-blank_front (c ∷ b) s (e, h) =
    ap (λ t. if t then fields_after [] (b ++ s) else fields_after (c ∷ []) (b ++ s)) e
    ∙ fields-blank_front b s h

-- Nor do blanks behind.
fields_after-blank : (word b : Text) → All IsBlank b → fields_after word b ≡ fields_after word []
unfolding fields_after is_empty
fields_after-blank word [] h = refl
fields_after-blank word (c ∷ b) (e, h) = ground (arith, e, fields_after-blank [] b h)

fields_after-blank_end :
    (word s b : Text) → All IsBlank b → fields_after word (s ++ b) ≡ fields_after word s
unfolding fields_after
fields_after-blank_end word [] b h = fields_after-blank word b h
fields_after-blank_end word (c ∷ s) b h =
    ground (arith, fields_after-blank_end [] s b h, fields_after-blank_end (word ++ c ∷ []) s b h)

trim_left-IsBlank : (s : Text) → (w : Text) × All IsBlank w × (s ≡ w ++ trim_left s)
unfolding trim_left
trim_left-IsBlank [] = ([], tt, refl)
trim_left-IsBlank (c ∷ cs) = elim (Bool-cases (is_space c)) [
  | inl h ↦ let (w, b, e) = trim_left-IsBlank cs in (c ∷ w, (h, b), ground (arith, e))
  | inr h ↦ ([], tt, ground arith)
]

fields-trim_space : (s : Text) → fields (trim_space s) ≡ fields s
unfolding trim_space fields
fields-trim_space s =
    let y = trim_left s in
    let (w, b, e) = trim_left-IsBlank s in
    let (u, c, f) = trim_left-IsBlank (reverse y) in
    let core = trim_left (reverse y) in
    let whole : y ≡ reverse core ++ reverse u =
      sym (reverse-reverse y) ∙ ap reverse f ∙ reverse-append u core in
    sym (fields_after-blank_end [] (reverse core) (reverse u) (All-reverse IsBlank u c))
    ∙ ap fields (sym whole)
    ∙ sym (fields-blank_front w y b)
    ∙ ap fields (sym e)

-- A text that is on one line stays as it is.
pub one_line_idem : (s : Text) → one_line (one_line s) ≡ one_line s
unfolding one_line
one_line_idem s =
    let ws = fields (trim_space s) in
    let words = fields_after-IsWord [] (trim_space s) tt in
    ap join (fields-trim_space (join ws) ∙ fields-join ws words)
