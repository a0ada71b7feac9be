-- ===== src/Checklist/Samples.antt =====
-- A codec for one snapshot: it refuses to encode any other.
use eino_local_assistant.Prelude.{
  ◌≡◌, refl, sym, ap, Bool, true, false, ◌&&◌, ◌==◌, none, some, List, [], ◌∷◌, arith,
  if◌then◌else◌, Bool-cases, inl, inr, Text, codes, text_eq, text_eq_iff, ℤ, pos, negsuc,
}
use eino_local_assistant.Checklist.Plan.{PlanItem, PlanRun}
use eino_local_assistant.Checklist.Snapshot.{PlanSnapshot, SnapshotCodec}

abbrev pub two_steps : PlanRun
two_steps = record {
  explanation = codes "why";
  state = codes "active";
  items =
      record { step = codes "read"; status = codes "completed" }
      ∷ record { step = codes "write it"; status = codes "in_progress" }
      ∷ [];
}

abbrev pub one_snapshot : PlanSnapshot
one_snapshot = record {
  version = pos 3;
  explanation = two_steps.explanation;
  state = two_steps.state;
  items = two_steps.items;
}

same_items : List PlanItem → List PlanItem → Bool
same_items [] [] = true
same_items [] (y ∷ ys) = false
same_items (x ∷ xs) [] = false
same_items (x ∷ xs) (y ∷ ys) =
    text_eq x.step y.step && text_eq x.status y.status && same_items xs ys

same_version : ℤ → ℤ → Bool
same_version (pos a) (pos b) = a == b
same_version (pos a) (negsuc b) = false
same_version (negsuc a) (pos b) = false
same_version (negsuc a) (negsuc b) = a == b

same_items-eq : (xs ys : List PlanItem) → same_items xs ys ≡ true → xs ≡ ys
unfolding same_items
same_items-eq [] [] h = refl
same_items-eq [] (y ∷ ys) h = absurd (cc)
same_items-eq (x ∷ xs) [] h = absurd (cc)
same_items-eq (x ∷ xs) (y ∷ ys) h =
    ground (arith, text_eq_iff x.step y.step, text_eq_iff x.status y.status, same_items-eq xs ys)

same_version-eq : (a b : ℤ) → same_version a b ≡ true → a ≡ b
unfolding same_version
same_version-eq (pos a) (pos b) h = ground arith
same_version-eq (pos a) (negsuc b) h = absurd (cc)
same_version-eq (negsuc a) (pos b) h = absurd (cc)
same_version-eq (negsuc a) (negsuc b) h = ground arith

unfoldable pub same_snapshot : PlanSnapshot → PlanSnapshot → Bool
unfolding same_version same_items
same_snapshot s t =
    same_version s.version t.version
    && text_eq s.explanation t.explanation
    && text_eq s.state t.state
    && same_items s.items t.items

same_snapshot-eq : (s t : PlanSnapshot) → same_snapshot s t ≡ true → s ≡ t
unfolding same_snapshot
same_snapshot-eq s t h = ground (
  arith,
  same_version-eq s.version t.version,
  text_eq_iff s.explanation t.explanation,
  text_eq_iff s.state t.state,
  same_items-eq s.items t.items,
)

abbrev pub one_codec : SnapshotCodec
one_codec = record {
  encode = λ s. if same_snapshot s one_snapshot then some (codes "x") else none;
  decode = λ t. some one_snapshot;
}

pub one_codec_inverse :
    (s : PlanSnapshot) (t : Text) → one_codec.encode s ≡ some t → one_codec.decode t ≡ some s
one_codec_inverse s t h = elim (Bool-cases (same_snapshot s one_snapshot)) [
  | inl e ↦ ap some (sym (same_snapshot-eq s one_snapshot e))
  | inr e ↦ absurd (ground arith)
]
