-- ===== src/Queue/Entries.antt =====
-- The queues that the follow-ups make: their length, and that they hold items only.
use eino_local_assistant.Prelude.{
  ℕ, zero, suc, ◌-◌, ◌≤◌, ◌<◌, ◌≡◌, refl, sym, ◌∙◌, ap, Bool, true, not, some, List, [], ◌∷◌, ◌++◌,
  length, length-append, take, drop, set, get_elem?, All, All-append, Text, trim_space,
  trim_space_idem, is_empty, leb, if-holds, arith, ◌==◌, Option-cases, inl, inr, some_inj,
}
use mathlib.Core.Path.{subst}
use eino_local_assistant.Queue.Slash.{parse_trimmed, parse_slash}
use eino_local_assistant.Queue.FollowUps.{
  enqueue_follow_up, in_range, drop_queued_follow_up, promote_at, promote_queued_follow_up,
  edit_queued_follow_up,
}
use eino_local_assistant.Queue.Items.{is_local, IsItem}

abbrev pub IsQueue : List Text → Type 0
IsQueue queue = (length queue ≤ 32) × All IsItem queue

length-remove :
    (i : ℕ) (xs : List Text)
    → i < length xs
    → suc (length (take i xs ++ drop (suc i) xs)) ≡ length xs
length-remove i [] h = absurd (omega arith)
length-remove zero (x ∷ xs) h = refl
length-remove (suc i) (x ∷ xs) h = ap suc (length-remove i xs (omega arith))

length-set : (i : ℕ) (v : Text) (xs : List Text) → length (set xs i v) ≡ length xs
length-set i v [] = refl
length-set zero v (x ∷ xs) = refl
length-set (suc i) v (x ∷ xs) = ap suc (length-set i v xs)

All-take : (n : ℕ) (xs : List Text) → All IsItem xs → All IsItem (take n xs)
All-take zero xs h = tt
All-take (suc n) [] h = tt
All-take (suc n) (x ∷ xs) (p, h) = (p, All-take n xs h)

All-drop : (n : ℕ) (xs : List Text) → All IsItem xs → All IsItem (drop n xs)
All-drop zero xs h = h
All-drop (suc n) [] h = tt
All-drop (suc n) (x ∷ xs) (p, h) = All-drop n xs h

All-set : (i : ℕ) (v : Text) (xs : List Text) → IsItem v → All IsItem xs → All IsItem (set xs i v)
All-set i v [] k h = tt
All-set zero v (x ∷ xs) k (p, h) = (k, h)
All-set (suc i) v (x ∷ xs) k (p, h) = (p, All-set i v xs k h)

get-IsItem :
    (xs : List Text) (i : ℕ) (v : Text) → get_elem? xs i ≡ some v → All IsItem xs → IsItem v
get-IsItem [] i v e h = absurd cc
get-IsItem (x ∷ xs) zero v e (p, h) = subst IsItem (some_inj e) p
get-IsItem (x ∷ xs) (suc i) v e (p, h) = get-IsItem xs i v e h

trim-IsItem : (x : Text) → IsItem x → IsItem (trim_space x)
unfolding parse_slash
trim-IsItem x h = ap (λ t. is_local (parse_trimmed t).0) (trim_space_idem x) ∙ h

pub enqueue-IsQueue :
    (queue : List Text) (raw : Text)
    → IsQueue queue
    → IsItem raw
    → IsQueue (enqueue_follow_up queue raw).0
unfolding enqueue_follow_up
enqueue-IsQueue queue raw (size, items) item =
    if-holds (λ (r : List Text × Bool). IsQueue r.0) (is_empty (trim_space raw)) _ _
      (λ _. (size, items))
      (λ _.
        if-holds (λ (r : List Text × Bool). IsQueue r.0) (leb 32 (length queue)) _ _
          (λ _. (size, items))
          (λ room.
            let e = length-append queue (trim_space raw ∷ []) in
            (
              ground arith,
              All-append IsItem queue (trim_space raw ∷ []) items (trim-IsItem raw item, tt),
            )))

-- In range, an index is the one after a position of the list.
in_range-lt :
    (queue : List Text) (index : ℕ)
    → in_range queue index ≡ true
    → ((index - 1) < length queue) × (suc (index - 1) ≡ index)
unfolding in_range
in_range-lt queue index h = (ground arith, ground arith)

removed-IsQueue :
    (queue : List Text) (index : ℕ)
    → in_range queue index ≡ true
    → IsQueue queue
    → (suc (length (take (index - 1) queue ++ drop index queue)) ≡ length queue)
      × All IsItem (take (index - 1) queue ++ drop index queue)
removed-IsQueue queue index within (size, items) =
    let r = in_range-lt queue index within in
    (
      subst (λ i. suc (length (take (index - 1) queue ++ drop i queue)) ≡ length queue) r.1
          (length-remove (index - 1) queue r.0),
      All-append IsItem (take (index - 1) queue) (drop index queue)
          (All-take (index - 1) queue items) (All-drop index queue items),
    )

pub drop-IsQueue :
    (queue : List Text) (index : ℕ) → IsQueue queue → IsQueue (drop_queued_follow_up queue index).0
unfolding drop_queued_follow_up
drop-IsQueue queue index good =
    if-holds (λ (r : List Text × Bool). IsQueue r.0) (not (in_range queue index)) _ _ (λ _. good)
      (λ h.
        let r = removed-IsQueue queue index (ground arith) good in
        let size = good.0 in let fewer = r.0 in (omega arith, r.1))

pub promote-IsQueue :
    (queue : List Text) (index : ℕ)
    → IsQueue queue
    → IsQueue (promote_queued_follow_up queue index).0
unfolding promote_queued_follow_up promote_at
promote-IsQueue queue index good =
    if-holds (λ (r : List Text × Bool). IsQueue r.0) (not (in_range queue index)) _ _ (λ _. good)
      (λ h.
        if-holds (λ (r : List Text × Bool). IsQueue r.0) (index == 1) _ _ (λ _. good)
          (λ _. elim (Option-cases (get_elem? queue (index - 1))) [
            | inl e ↦ subst (λ o. IsQueue (promote_at queue index o).0) (sym e) good
            | inr (v, e) ↦
                subst (λ o. IsQueue (promote_at queue index o).0) (sym e)
                  (let r = removed-IsQueue queue index (ground arith) good in
                    let size = good.0 in
                    let fewer = r.0 in
                    (omega arith, (get-IsItem queue (index - 1) v e good.1, r.1)))
          ]))

pub edit-IsQueue :
    (queue : List Text) (index : ℕ) (v : Text)
    → IsItem v
    → IsQueue queue
    → IsQueue (edit_queued_follow_up queue index v).0
unfolding edit_queued_follow_up
edit-IsQueue queue index v item (size, items) =
    if-holds (λ (r : List Text × Bool). IsQueue r.0) (not (in_range queue index)) _ _
      (λ _. (size, items))
      (λ h.
        let e = length-set (index - 1) v queue in
        (omega arith, All-set (index - 1) v queue item items))
