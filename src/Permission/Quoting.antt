-- ===== src/Permission/Quoting.antt =====
-- Quoting: a list of words that are each put in quotes is read back as those words and nothing else.
use eino_local_assistant.Prelude.{
  ℕ, ◌≡◌, refl, sym, ap, ◌∙◌, Bool, true, false, not, ◌&&◌, ◌||◌, Option, some, List, [], ◌∷◌, ◌++◌,
  arith, ◌==◌, all, Text, is_empty,
}
use mathlib.Core.List.{append_assoc, append-nil}
use eino_local_assistant.Permission.Shell.{
  Scan, new_scan, flush_word, flush_segment, write_rune, scan_plain, scan_quoted, scan_step, scan,
  first, shell_command_parts,
}

-- A quotation mark of the shell.
abbrev pub is_quote : ℕ → Bool
is_quote q = q == b'\'' || q == b'"'

-- Each word in quotes and followed by a space.
unfoldable pub quote_words : ℕ → List Text → Text
quote_words q [] = []
quote_words q (w ∷ ws) = q ∷ (w ++ q ∷ b' ' ∷ quote_words q ws)

-- A word that can stand in these quotes: not empty, without the mark and without a backslash.
abbrev pub quotable : ℕ → Text → Bool
quotable q w = not (is_empty w) && all (λ c. not (c == q) && not (c == 92)) w

-- The scan between two words.
abbrev between : List (List Text) → List Text → List Text → Scan
between segments current operators = record new_scan {
  segments = segments;
  current = current;
  operators = operators;
}

quoted_step :
    (s : Scan) (q c : ℕ) (n : Option ℕ)
    → is_quote q ≡ true
    → s.escaped ≡ false
    → s.skip ≡ false
    → s.quote ≡ q
    → (not (c == q) && not (c == 92)) ≡ true
    → scan_step s c n ≡ write_rune s c
unfolding scan_step scan_quoted
quoted_step s q c n h e k o a = ground arith

closing_step :
    (s : Scan) (q : ℕ) (n : Option ℕ)
    → is_quote q ≡ true
    → s.escaped ≡ false
    → s.skip ≡ false
    → s.quote ≡ q
    → scan_step s q n ≡ record s { quote = 0 }
unfolding scan_step scan_quoted
closing_step s q n h e k o = ground arith

opening_step :
    (s : Scan) (q : ℕ) (n : Option ℕ)
    → is_quote q ≡ true
    → s.quote ≡ 0
    → s.escaped ≡ false
    → s.skip ≡ false
    → scan_step s q n ≡ record s { quote = q }
unfolding scan_step scan_plain
opening_step s q n h o e k = ground arith

space_step :
    (s : Scan) (n : Option ℕ)
    → s.quote ≡ 0
    → s.escaped ≡ false
    → s.skip ≡ false
    → scan_step s b' ' n ≡ flush_word s
unfolding scan_step scan_plain
space_step s n o e k = ground arith

-- The characters up to the closing mark are the rest of the word.
scan-quoted :
    (s : Scan) (q : ℕ) (w r : Text)
    → is_quote q ≡ true
    → s.escaped ≡ false
    → s.skip ≡ false
    → s.quote ≡ q
    → all (λ c. not (c == q) && not (c == 92)) w ≡ true
    → scan s (w ++ q ∷ r) ≡ scan (record s { word = s.word ++ w; quote = 0 }) r
unfolding scan write_rune
scan-quoted s q [] r h e k o a =
    ap (λ u. scan u r)
      (closing_step s q (first r) h e k o
        ∙ ap (λ v. record s { word = v; quote = 0 }) (sym (append-nil s.word)))
scan-quoted s q (c ∷ cs) r h e k o a =
    let written = record s { word = s.word ++ c ∷ [] } in
    ap (λ u. scan u (cs ++ q ∷ r)) (quoted_step s q c (first (cs ++ q ∷ r)) h e k o (ground arith))
    ∙ scan-quoted written q cs r h e k o (ground arith)
    ∙ ap (λ v. scan (record s { word = v; quote = 0 }) r) (append_assoc s.word (c ∷ []) cs)

-- One word in quotes, between two words, is one more word.
scan-word :
    (segments : List (List Text)) (current operators : List Text) (q : ℕ) (w r : Text)
    → is_quote q ≡ true
    → quotable q w ≡ true
    → scan (between segments current operators) (q ∷ (w ++ q ∷ b' ' ∷ r))
      ≡ scan (between segments (current ++ w ∷ []) operators) r
unfolding scan flush_word is_empty
scan-word segments current operators q [] r h a = absurd (cc)
scan-word segments current operators q (c ∷ w) r h a =
    let s = between segments current operators in
    let written = record s { word = c ∷ w } in
    ap (λ u. scan u (c ∷ (w ++ q ∷ b' ' ∷ r))) (opening_step s q (some c) h refl refl refl)
    ∙ scan-quoted (record s { quote = q }) q (c ∷ w) (b' ' ∷ r) h refl refl refl (ground arith)
    ∙ ap (λ u. scan u r) (space_step written (first r) refl refl refl)

-- All the words.
scan-quote_words :
    (segments : List (List Text)) (current operators : List Text) (q : ℕ) (ws : List Text)
    → is_quote q ≡ true
    → all (quotable q) ws ≡ true
    → scan (between segments current operators) (quote_words q ws)
      ≡ between segments (current ++ ws) operators
unfolding quote_words scan
scan-quote_words segments current operators q [] h a =
    ap (λ c. between segments c operators) (sym (append-nil current))
scan-quote_words segments current operators q (w ∷ ws) h a =
    scan-word segments current operators q w (quote_words q ws) h (ground arith)
    ∙ scan-quote_words segments (current ++ w ∷ []) operators q ws h (ground arith)
    ∙ ap (λ c. between segments c operators) (append_assoc current (w ∷ []) ws)

-- A command of words that are each in quotes of one kind is read as one segment with exactly these
-- words and no operator, when there is a word and each is not empty and holds neither the quotation
-- mark nor a backslash; whatever else a word holds, in double quotes too, is not an operator.
pub shell_command_parts-quote_words :
    (q : ℕ) (w : Text) (ws : List Text)
    → is_quote q ≡ true
    → all (quotable q) (w ∷ ws) ≡ true
    → shell_command_parts (quote_words q (w ∷ ws)) ≡ some ((w ∷ ws) ∷ [], [])
unfolding shell_command_parts flush_segment flush_word is_empty
shell_command_parts-quote_words q w ws h a = rw (scan-quote_words [] [] [] q (w ∷ ws) h a) refl
