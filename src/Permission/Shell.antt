-- ===== src/Permission/Shell.antt =====
-- shellCommandParts of internal/tools/permission.go: a command as words, segments and operators.
use eino_local_assistant.Prelude.{
  ℕ, Bool, true, false, not, ◌||◌, Option, none, some, List, [], ◌∷◌, ◌++◌, ◌==◌, if◌then◌else◌,
  Text, is_empty,
}

-- The variables of the loop. `quote` is 0 outside quotes; `skip` stands for the `i++` that passes
-- over a character which the one before it has used.
pub record Scan : Type 0 where
  pub segments : List (List Text)
  pub current : List Text
  pub word : Text
  pub operators : List Text
  pub quote : ℕ
  pub escaped : Bool
  pub skip : Bool

abbrev pub new_scan : Scan
new_scan = record {
  segments = [];
  current = [];
  word = [];
  operators = [];
  quote = 0;
  escaped = false;
  skip = false;
}

unfoldable pub flush_word : Scan → Scan
flush_word s =
    if is_empty s.word then s else record s { current = s.current ++ s.word ∷ []; word = [] }

abbrev no_words : List Text → Bool
no_words [] = true
no_words _ = false

unfoldable pub flush_segment : Scan → Scan
flush_segment s =
    let f = flush_word s in
    if no_words f.current
    then f
    else record f { segments = f.segments ++ f.current ∷ []; current = [] }

unfoldable pub write_rune : Scan → ℕ → Scan
write_rune s c = record s { word = s.word ++ c ∷ [] }

abbrev pub operator : Scan → Text → Scan
operator s o = record s { operators = s.operators ++ o ∷ [] }

-- Whether the next character is the given one.
abbrev pub next_is : Option ℕ → ℕ → Bool
next_is none c = false
next_is (some d) c = d == c

-- An operator of one character, or of two when the next one is the same.
unfoldable pub operator_run : Scan → ℕ → Option ℕ → Scan
operator_run s c next =
    if next_is next c then record (operator s (c ∷ c ∷ [])) { skip = true } else operator s (c ∷ [])

-- A character outside quotes.
unfoldable pub scan_plain : Scan → ℕ → Option ℕ → Scan
scan_plain s c next =
    if c == b'\'' || c == b'"'
    then record s { quote = c }
    else if c == b' ' || c == 9 || c == 13 || c == 10
    then flush_word s
    else if c == b';'
    then operator (flush_segment s) (c ∷ [])
    else if c == b'|' || c == b'&'
    then operator_run (flush_segment s) c next
    else if c == b'>' || c == b'<'
    then operator_run (flush_word s) c next
    else if c == b'$'
    then write_rune (if next_is next b'(' then operator s (b'$' ∷ b'(' ∷ []) else s) c
    else if c == b'`'
    then operator s (c ∷ [])
    else write_rune s c

-- A character inside quotes.
unfoldable pub scan_quoted : Scan → ℕ → Scan
scan_quoted s c = if c == s.quote then record s { quote = 0 } else write_rune s c

unfoldable pub scan_step : Scan → ℕ → Option ℕ → Scan
scan_step s c next =
    if s.skip
    then record s { skip = false }
    else if s.escaped
    then record (write_rune s c) { escaped = false }
    else if s.quote == b'\''
    then scan_quoted s c
    else if c == 92
    then record s { escaped = true }
    else if not (s.quote == 0)
    then scan_quoted s c
    else scan_plain s c next

abbrev pub first : Text → Option ℕ
first [] = none
first (c ∷ cs) = some c

unfoldable pub scan : Scan → Text → Scan
scan s [] = s
scan s (c ∷ cs) = scan (scan_step s c (first cs)) cs

-- The segments and the operators, or `none` for a quote or an escape that is left open.
unfoldable pub shell_command_parts : Text → Option (List (List Text) × List Text)
shell_command_parts command =
    let s = scan new_scan command in
    let f = flush_segment s in
    if s.escaped || not (s.quote == 0) then none else some (f.segments, f.operators)
