-- ===== src/Queue/FollowUps.antt =====
-- internal/tui/queue.go: the list of follow-ups and the reading of the `/queue` arguments.
use eino_local_assistant.Prelude.{
  ℕ, ◌+◌, ◌-◌, ◌*◌, leb, ltb, Bool, true, false, not, ◌&&◌, ◌||◌, ◌==◌, Option, none, some, List,
  [], ◌∷◌, ◌++◌, if◌then◌else◌, length, get_elem?, set, take, drop, Text, trim_space, is_empty,
  maybe, Result, err, ok,
}
use eino_local_assistant.Checklist.Fields.{fields}

abbrev pub max_queue : ℕ
max_queue = 32

-- The queue, and whether there was room.
unfoldable pub enqueue_follow_up : List Text → Text → List Text × Bool
enqueue_follow_up queue raw =
    let input = trim_space raw in
    if is_empty input
    then (queue, true)
    else if leb max_queue (length queue)
    then (queue, false)
    else (queue ++ input ∷ [], true)

-- Indexes count from 1.
unfoldable pub in_range : List Text → ℕ → Bool
in_range queue index = not (ltb index 1 || ltb (length queue) index)

unfoldable pub drop_queued_follow_up : List Text → ℕ → List Text × Bool
unfolding in_range
drop_queued_follow_up queue index =
    if not (in_range queue index)
    then (queue, false)
    else (take (index - 1) queue ++ drop index queue, true)

unfoldable pub promote_at : List Text → ℕ → Option Text → List Text × Bool
promote_at queue index none = (queue, false)
promote_at queue index (some selected) =
    (selected ∷ take (index - 1) queue ++ drop index queue, true)

-- In range there is an element at the index.
unfoldable pub promote_queued_follow_up : List Text → ℕ → List Text × Bool
unfolding in_range promote_at
promote_queued_follow_up queue index =
    if not (in_range queue index)
    then (queue, false)
    else if index == 1
    then (queue, true)
    else promote_at queue index (get_elem? queue (index - 1))

unfoldable pub edit_queued_follow_up : List Text → ℕ → Text → List Text × Bool
unfolding in_range
edit_queued_follow_up queue index new_text =
    if not (in_range queue index) then (queue, false) else (set queue (index - 1) new_text, true)

pub data QueueError : Type 0 where
  usage drop_index drop_range edit_text edit_range edit_index edit_admission resume_busy
        queue_empty :
      QueueError

-- strconv.Atoi as far as a positive result goes: digits after an optional plus sign, within 63 bits.
unfoldable pub read_digits : ℕ → Text → Option ℕ
read_digits n [] = some n
read_digits n (c ∷ cs) =
    let rest = read_digits (n * 10 + (c - b'0')) cs in
    if leb b'0' c && leb c b'9' then rest else none

unfoldable pub strip_plus : Text → Text
strip_plus [] = []
strip_plus (c ∷ cs) = if c == b'+' then cs else c ∷ cs

unfoldable pub positive : ℕ → Option ℕ
positive n = if ltb n 1 || leb 9_223_372_036_854_775_808 n then none else some n

unfoldable pub parse_index : Text → Option ℕ
unfolding read_digits strip_plus positive
parse_index s =
    let digits = strip_plus s in
    if is_empty digits then none else maybe (read_digits 0 digits) none positive

unfoldable pub parse_queue_drop_index : List Text → Result QueueError ℕ
unfolding parse_index
parse_queue_drop_index (_ ∷ index ∷ []) = maybe (parse_index index) (err drop_index) ok
parse_queue_drop_index _ = err usage

-- With the words of the argument, which stands trimmed in `arg`.
unfoldable pub parse_edit_words : Text → List Text → Result QueueError (ℕ × Text)
unfolding parse_index
parse_edit_words arg (command ∷ index ∷ []) =
    maybe (parse_index index) (err edit_index) (λ i. err edit_text)
parse_edit_words arg (command ∷ index ∷ _ ∷ _) =
    let remaining = trim_space (drop (length command) arg) in
    let new_text = trim_space (drop (length index) remaining) in
    maybe (parse_index index) (err edit_index)
      (λ i. if is_empty new_text then err edit_text else ok (i, new_text))
parse_edit_words arg _ = err usage

unfoldable pub parse_queue_edit : Text → Result QueueError (ℕ × Text)
unfolding parse_edit_words
parse_queue_edit raw = parse_edit_words (trim_space raw) (fields (trim_space raw))
