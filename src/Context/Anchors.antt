-- ===== src/Context/Anchors.antt =====
-- The anchors of a checkpoint: few, and with both ends of the source.
use eino_local_assistant.Prelude.{
  ℕ, zero, suc, ◌-◌, ◌≤◌, ◌<◌, ◌≡◌, refl, ◌∙◌, List, [], ◌∷◌, ◌++◌, arith, length, length-append,
  take, drop, if-holds, leb, leb→le, Text,
}
use eino_local_assistant.Context.Refs.{unique_non_empty}
use eino_local_assistant.Context.Checkpoints.{max_checkpoint_evidence_refs}
use eino_local_assistant.Context.Provenance.{checkpoint_evidence_refs, first, last}

length-take : (n : ℕ) (xs : List Text) → length (take n xs) ≤ n
length-take zero xs = omega arith
length-take (suc n) [] = omega arith
length-take (suc n) (x ∷ xs) = omega (arith, length-take n xs)

length-drop : (n : ℕ) (xs : List Text) → length (drop n xs) ≡ length xs - n
length-drop zero xs = omega arith
length-drop (suc n) [] = omega arith
length-drop (suc n) (x ∷ xs) = omega (arith, length-drop n xs)

first-take : (n : ℕ) (xs ys : List Text) → 0 < length xs → first (take (suc n) xs ++ ys) ≡ first xs
unfolding first
first-take n [] ys h = absurd (omega arith)
first-take n (x ∷ xs) ys h = refl

last-append : (xs ys : List Text) → 0 < length ys → last (xs ++ ys) ≡ last ys
unfolding last
last-append [] ys h = refl
last-append (x ∷ []) [] h = absurd (omega arith)
last-append (x ∷ []) (y ∷ ys) h = refl
last-append (x ∷ z ∷ xs) ys h = last-append (z ∷ xs) ys h

last-drop : (n : ℕ) (xs : List Text) → n < length xs → last (drop n xs) ≡ last xs
unfolding last
last-drop zero xs h = refl
last-drop (suc n) [] h = absurd (omega arith)
last-drop (suc n) (x ∷ []) h = absurd (omega arith)
last-drop (suc n) (x ∷ y ∷ ys) h = last-drop n (y ∷ ys) (omega arith)

-- There are at most 32 anchors, they begin with the first event of the source and they end with its
-- last.
pub checkpoint_evidence_refs_bounded :
    (event_ids : List Text)
    → (length (checkpoint_evidence_refs event_ids) ≤ max_checkpoint_evidence_refs)
      × (first (checkpoint_evidence_refs event_ids) ≡ first (unique_non_empty event_ids))
      × (last (checkpoint_evidence_refs event_ids) ≡ last (unique_non_empty event_ids))
unfolding checkpoint_evidence_refs
checkpoint_evidence_refs_bounded event_ids =
    let ids = unique_non_empty event_ids in
    let rest = drop (length ids - 16) ids in
    let tail = length-drop (length ids - 16) ids in
    if-holds
      (λ anchors. (length anchors ≤ 32) × (first anchors ≡ first ids) × (last anchors ≡ last ids))
      (leb (length ids) 32) ids (take 16 ids ++ rest)
      (λ small. (leb→le (length ids) 32 small, refl, refl))
      (λ big.
        let many : 32 < length ids = ground arith in
        (
          omega (arith, length-append (take 16 ids) rest, length-take 16 ids, tail),
          first-take 15 ids rest (omega (arith, many)),
          last-append (take 16 ids) rest (omega (arith, tail, many))
              ∙ last-drop (length ids - 16) ids (omega (arith, many)),
        ))
