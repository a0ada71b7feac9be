-- ===== src/Ledger/State.antt =====
-- The materialized state of a thread (internal/store/thread_types.go).
use eino_local_assistant.Prelude.{
  ℕ, Bool, true, false, Option, none, Text, is_empty, trim_space, Dict, lookup, insert, is_some,
  if◌then◌else◌, pos, codes, Result, ok, err, or_fail,
}
use eino_local_assistant.Ledger.Events.{
  LedgerError, journal_corrupt, undecodable, ModelUsage, ThreadMeta, UsageStatus, exact, incomplete,
  unavailable, blank, unknown,
}

pub data CompactionOutcomeStatus : Type 0 where
  succeeded failed cancelled was_reset : CompactionOutcomeStatus

pub record CompactionOutcome : Type 0 where
  pub status : CompactionOutcomeStatus
  pub operation_id : Text
  pub checkpoint_id : Text
  pub automatic : Bool
  pub reason : Text
  pub at : ℕ

pub record CompactionOperation : Type 0 where
  pub operation_id : Text
  pub automatic : Bool
  pub started_at : ℕ

pub record ThreadState : Type 0 where
  pub format_version : ℕ
  pub id : Text
  pub revision : ℕ
  pub head_sequence : ℕ
  pub last_hash : Text
  pub active_checkpoint_id : Text
  pub system_prompt : Text
  pub auto_compaction_paused : Bool
  pub auto_compaction_pause_reason : Text
  pub low_gain_streak : ℕ
  pub pending_compaction : Option CompactionOperation
  pub last_compaction : Option CompactionOutcome
  pub task_state : Text
  pub created_at : ℕ
  pub updated_at : ℕ
  pub meta : ThreadMeta
  pub recorded_usage : Dict ModelUsage
  pub recorded_checkpoint_ids : Dict (Unit {0})
  pub recorded_compaction_operation_ids : Dict (Unit {0})

unfoldable pub has_recorded_compaction_operation_id : ThreadState → Text → Bool
has_recorded_compaction_operation_id s id =
    is_some (lookup (trim_space id) s.recorded_compaction_operation_ids)

unfoldable pub record_compaction_operation_id : ThreadState → Text → ThreadState
record_compaction_operation_id s id =
    let trimmed = trim_space id in
    if is_empty trimmed then s else record s {
      recorded_compaction_operation_ids = insert trimmed tt s.recorded_compaction_operation_ids;
    }

unfoldable pub valid_usage_status : UsageStatus → Bool
valid_usage_status exact = true
valid_usage_status incomplete = true
valid_usage_status unavailable = true
valid_usage_status blank = false
valid_usage_status (unknown _) = false

unfoldable pub next_usage_status : UsageStatus → Bool → UsageStatus
next_usage_status unavailable _ = incomplete
next_usage_status incomplete _ = incomplete
next_usage_status _ true = exact
next_usage_status _ false = incomplete

unfoldable pub clear_usage_projection : ThreadMeta → ThreadMeta
clear_usage_projection m = record m {
  prompt_tokens = pos 0;
  completion_tokens = pos 0;
  total_tokens = pos 0;
  cached_tokens = pos 0;
  reasoning_tokens = pos 0;
  model_call_count = pos 0;
  cost_usd = 0;
  last_context = none;
}

abbrev pub S : Type 0
S = Result LedgerError ThreadState

abbrev pub session_journal_format_version : ℕ
session_journal_format_version = 6

abbrev pub corrupt : Text → LedgerError
corrupt = journal_corrupt

-- A payload check that failed makes the journal corrupt.
abbrev pub as_corrupt {ℓ} : {A : Type ℓ} → Result LedgerError A → Text → Result LedgerError A
as_corrupt (ok a) message = ok a
as_corrupt (err e) message = err (corrupt message)

abbrev pub decode {ℓ} : {A : Type ℓ} → Option A → Result LedgerError A
decode o = or_fail o (undecodable (codes "decode"))
