-- ===== src/Checklist/Snapshot.antt =====
-- internal/agent/task_persistence.go: the stored form of a checklist. The encoding and decoding of JSON
-- are parameters, an encoded snapshot is a text.
use eino_local_assistant.Prelude.{
  ℕ, suc, ltb, ◌==◌, Bool, false, not, ◌||◌, Option, List, [], ◌∷◌, ◌++◌, if◌then◌else◌, count_if,
  Text, text_eq, trim_space, to_lower, is_empty, ℤ, pos, negsuc, Result, err, ok, ◌>>=◌, ◌>>◌,
  fail_if, or_fail,
}
use eino_local_assistant.Checklist.Fields.{one_line}
use eino_local_assistant.Checklist.Plan.{
  PlanItem, PlanRun, ChecklistError, empty_step, bad_status, many_in_progress, bad_snapshot,
  bad_version, bad_state, no_steps, plan_run_active, plan_run_interrupted, is_in_progress,
  known_status, no_items,
}

abbrev pub plan_snapshot_version : ℕ
plan_snapshot_version = 3

pub record PlanSnapshot : Type 0 where
  pub version : ℤ
  pub explanation : Text
  pub state : Text
  pub items : List PlanItem

pub record SnapshotCodec : Type 0 where
  pub encode : PlanSnapshot → Option Text
  pub decode : Text → Option PlanSnapshot

unfoldable pub snapshot_of : PlanRun → PlanSnapshot
snapshot_of run = record {
  version = pos plan_snapshot_version;
  explanation = run.explanation;
  state = run.state;
  items = run.items;
}

-- The run is never nil here.
unfoldable pub encode_plan_snapshot : SnapshotCodec → PlanRun → Option Text
unfolding snapshot_of
encode_plan_snapshot codec run = codec.encode (snapshot_of run)

unfoldable pub is_snapshot_version : ℤ → Bool
is_snapshot_version (pos n) = n == plan_snapshot_version
is_snapshot_version (negsuc n) = false

unfoldable pub restore_item : ℕ → PlanItem → Result ChecklistError PlanItem
restore_item i raw =
    let status = to_lower (trim_space raw.status) in
    if is_empty (one_line raw.step)
    then err (empty_step i)
    else if not (known_status status)
    then err (bad_status i)
    else ok (record { step = one_line raw.step; status = status })

unfoldable pub restore_items :
    ℕ → List PlanItem → List PlanItem → Result ChecklistError (List PlanItem)
unfolding restore_item
restore_items i items [] = ok items
restore_items i items (raw ∷ rest) = do
  item ← restore_item i raw
  restore_items (suc i) (items ++ item ∷ []) rest

unfoldable pub restore_state : Text → Text
restore_state raw = if is_empty (trim_space raw) then plan_run_active else trim_space raw

unfoldable pub known_state : Text → Bool
known_state s = text_eq s plan_run_active || text_eq s plan_run_interrupted

-- After the decoding.
unfoldable pub restore : PlanSnapshot → Result ChecklistError PlanRun
unfolding is_snapshot_version restore_state known_state restore_items
restore s = do
  fail_if (not (is_snapshot_version s.version)) bad_version
  fail_if (no_items s.items) no_steps
  fail_if (not (known_state (restore_state s.state))) (bad_state (restore_state s.state))
  items ← restore_items 0 [] s.items
  fail_if (ltb 1 (count_if is_in_progress items)) many_in_progress
  ok (record {
    explanation = trim_space s.explanation;
    state = restore_state s.state;
    items = items;
  })

unfoldable pub plan_run_from_snapshot : SnapshotCodec → Text → Result ChecklistError PlanRun
unfolding restore
plan_run_from_snapshot codec raw = do s ← or_fail (codec.decode raw) bad_snapshot; restore s
