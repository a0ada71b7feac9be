-- ===== src/Ledger/Compaction.antt =====
-- internal/store/thread_compaction.go: the policy on failed compactions, decided from the state.
use eino_local_assistant.Prelude.{
  ℕ, zero, suc, inc64, Bool, true, false, not, ◌&&◌, ◌||◌, none, some, [], ◌++◌, leb, if◌then◌else◌,
  Text, codes, text_eq, trim_space, is_empty, ℤ, pos, negsuc, pos_part, Result, ok, ◌>>◌, fail_if,
}
use eino_local_assistant.Ledger.Events.{LedgerError, refused, CompactionFailure, Codec}
use eino_local_assistant.Ledger.State.{ThreadState}

abbrev pub default_max_low_gain_attempts : ℕ
default_max_low_gain_attempts = 1

abbrev pub low_gain : Text
low_gain = codes "low_gain"

abbrev pub stale : Text
stale = codes "stale"

unfoldable pub is_stale_compaction_failure : CompactionFailure → Bool
is_stale_compaction_failure i = i.automatic && i.cancelled && text_eq i.reason stale

unfoldable pub is_low_gain_compaction_failure : CompactionFailure → Bool
is_low_gain_compaction_failure i = i.automatic && not i.cancelled && text_eq i.reason low_gain

unfoldable pub allows_unpaused_automatic_compaction_failure : CompactionFailure → Bool
unfolding is_stale_compaction_failure is_low_gain_compaction_failure
allows_unpaused_automatic_compaction_failure i =
    is_stale_compaction_failure i || is_low_gain_compaction_failure i

abbrev negative : ℤ → Bool
negative (pos _) = false
negative (negsuc _) = true

-- The pause fields agree: a reason exactly when paused.
unfoldable pub check_pause : CompactionFailure → Result LedgerError (Unit {0})
check_pause i = do
  fail_if (i.auto_paused && is_empty i.auto_pause_reason)
      (refused (codes "auto pause reason is required"))
  fail_if (not i.auto_paused && not (is_empty i.auto_pause_reason))
      (refused (codes "auto pause reason requires auto pause"))

-- Of an automatic failure the caller's own pause decision is dropped.
unfoldable pub drop_pause : CompactionFailure → CompactionFailure
drop_pause i = record i {
  auto_paused = false;
  auto_pause_reason = [];
  resulting_low_gain_streak = none;
}

unfoldable pub trim_failure : CompactionFailure → CompactionFailure
trim_failure i = record i {
  operation_id = trim_space i.operation_id;
  reason = trim_space i.reason;
  auto_pause_reason = trim_space i.auto_pause_reason;
}

unfoldable pub normalize_compaction_failure_input :
    CompactionFailure → Result LedgerError CompactionFailure
unfolding trim_failure drop_pause check_pause
normalize_compaction_failure_input input = do
  let i = trim_failure input
  fail_if (not i.cancelled && is_empty i.reason)
      (refused (codes "compaction failure reason is required"))
  fail_if (negative i.max_low_gain_attempts) (refused (codes "max low gain attempts must be >= 0"))
  if i.automatic then ok (drop_pause i) else (check_pause i >> ok i)

-- A zero limit is the default.
abbrev pub max_attempts : CompactionFailure → ℕ
max_attempts i = elim (pos_part i.max_low_gain_attempts) [
  | zero ↦ default_max_low_gain_attempts
  | suc n ↦ suc n
]

unfoldable pub apply_automatic_compaction_failure_policy :
    Codec → ThreadState → CompactionFailure → CompactionFailure
unfolding is_stale_compaction_failure is_low_gain_compaction_failure drop_pause
apply_automatic_compaction_failure_policy codec s i =
    let next = inc64 s.low_gain_streak in
    if is_stale_compaction_failure i
    then drop_pause i
    else if is_low_gain_compaction_failure i
    then (if leb (max_attempts i) next
        then record i {
          resulting_low_gain_streak = some next;
          auto_paused = true;
          auto_pause_reason =
              codes "automatic compaction paused after "
              ++ codec.print_number next
              ++ codes " consecutive low-gain attempts";
        }
        else record i {
          resulting_low_gain_streak = some next;
          auto_paused = false;
          auto_pause_reason = [];
        })
    else record i {
      auto_paused = true;
      auto_pause_reason = codes "automatic compaction failed: " ++ i.reason;
      resulting_low_gain_streak = some 0;
    }

unfoldable pub materialize_compaction_failure :
    Codec → ThreadState → CompactionFailure → Result LedgerError CompactionFailure
unfolding apply_automatic_compaction_failure_policy check_pause
    allows_unpaused_automatic_compaction_failure
materialize_compaction_failure codec s input =
    let i = apply_automatic_compaction_failure_policy codec s input in
    if input.automatic
    then (do
      check_pause i
      fail_if (not i.auto_paused && not (allows_unpaused_automatic_compaction_failure i))
          (refused (codes "automatic compaction failures must pause automatic compaction"))
      ok i)
    else ok input
