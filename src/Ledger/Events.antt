-- ===== src/Ledger/Events.antt =====
-- The events of internal/store/thread_types.go with their payloads, and what the store takes from
-- encoding/json, crypto/sha256 and time.
use eino_local_assistant.Prelude.{ℕ, Bool, Option, List, Text, ℤ}

-- `EventKind`; a string that is none of the constants is `other`.
pub data EventKind : Type 0 where
  thread_created turn_started tool_started tool_completed turn_committed : EventKind
  turn_cancelled turn_failed title_changed model_changed thread_archived : EventKind
  thread_unarchived usage_recorded task_state_updated : EventKind
  compaction_started compacted compaction_failed checkpoint_reset : EventKind
  other : Text → EventKind

-- The errors of the package that the model tells apart, with the constant part of the message.
pub data LedgerError : Type 0 where
  journal_corrupt invalid_lifecycle undecodable refused : Text → LedgerError
  revision_conflict archived already_archived not_archived : LedgerError
  active_turn pending_compaction operation_not_pending usage_conflict : LedgerError

pub record TurnStart : Type 0 where
  pub turn_id : Text
  pub input : Text

pub record ToolStarted : Type 0 where
  pub turn_id : Text
  pub tool_call_id : Text
  pub tool_name : Text

pub record ToolCompleted : Type 0 where
  pub turn_id : Text
  pub tool_call_id : Text
  pub tool_name : Text
  pub impact : Text
  pub output : Text

-- What the store reads of a chat message.
pub record Message : Type 0 where
  pub role : Text
  pub content : Text

pub record TurnCommit : Type 0 where
  pub turn_id : Text
  pub messages : List Message

pub record TurnCancel : Type 0 where
  pub turn_id : Text
  pub reason : Text

pub record TurnFailure : Type 0 where
  pub turn_id : Text
  pub error : Text

-- Floating-point numbers by their bits; `Codec` has the operations.
abbrev pub Float : Type 0
Float = ℕ

pub record ModelUsage : Type 0 where
  pub call_id : Text
  pub turn_id : Text
  pub operation : Text
  pub operation_id : Text
  pub has_provider_usage : Bool
  pub prompt_tokens : ℤ
  pub completion_tokens : ℤ
  pub total_tokens : ℤ
  pub cached_tokens : ℤ
  pub reasoning_tokens : ℤ
  pub context_window_tokens : ℤ
  pub cost_usd : Float

pub record CompactionStart : Type 0 where
  pub operation_id : Text
  pub automatic : Bool

pub record CompactionFailure : Type 0 where
  pub operation_id : Text
  pub automatic : Bool
  pub cancelled : Bool
  pub reason : Text
  pub auto_paused : Bool
  pub auto_pause_reason : Text
  pub resulting_low_gain_streak : Option ℕ
  pub max_low_gain_attempts : ℤ

pub record CheckpointSchemaReset : Type 0 where
  pub operation_id : Text
  pub checkpoint_id : Text
  pub reason : Text
  pub auto_paused : Bool
  pub auto_pause_reason : Text

-- `rest` holds the fields that only the hash reads.
pub record Checkpoint : Type 0 where
  pub id : Text
  pub thread_id : Text
  pub revision : ℕ
  pub sequence : ℕ
  pub created_at : ℕ
  pub parent_id : Text
  pub operation_id : Text
  pub automatic : Bool
  pub auto_paused : Bool
  pub auto_pause_reason : Text
  pub rest : Text
  pub hash : Text

pub record ModelChange : Type 0 where
  pub model : Text
  pub reasoning_effort : Text

-- Times are nanoseconds; 0 is Go's zero time.
pub record ThreadEvent : Type 0 where
  pub version : ℕ
  pub sequence : ℕ
  pub id : Text
  pub thread_id : Text
  pub timestamp : ℕ
  pub kind : EventKind
  pub turn_id : Text
  pub correlation_id : Text
  pub expected_revision : ℕ
  pub revision : ℕ
  pub payload : Text
  pub payload_hash : Text
  pub previous_hash : Text
  pub hash : Text

-- `UsageStatus`; a string that is none of the constants is `unknown`.
pub data UsageStatus : Type 0 where
  blank exact incomplete unavailable : UsageStatus
  unknown : Text → UsageStatus

pub record ContextSnapshot : Type 0 where
  pub prompt_tokens : ℤ
  pub window_tokens : ℤ

pub record ThreadMeta : Type 0 where
  pub id : Text
  pub title : Text
  pub created_at : ℕ
  pub updated_at : ℕ
  pub model : Text
  pub reasoning_effort : Text
  pub message_count : ℤ
  pub parent_id : Text
  pub fork_boundary_turn_id : Text
  pub fork_source_hash : Text
  pub archived_at : Option ℕ
  pub prompt_tokens : ℤ
  pub completion_tokens : ℤ
  pub total_tokens : ℤ
  pub cached_tokens : ℤ
  pub reasoning_tokens : ℤ
  pub model_call_count : ℤ
  pub cost_usd : Float
  pub usage_status : UsageStatus
  pub last_context : Option ContextSnapshot

pub record SystemPromptRef : Type 0 where
  pub content : Text
  pub sha256 : Text
  pub bytes : ℕ

pub record ThreadCreatedPayload : Type 0 where
  pub meta : ThreadMeta
  pub system_prompt : SystemPromptRef

-- json.Unmarshal into each payload type, json.Valid, SHA-256 in hexadecimal, the printing of times
-- and checkpoints, and the floating-point operations.
pub record Codec : Type 0 where
  pub thread_created : Text → Option ThreadCreatedPayload
  pub turn_start : Text → Option TurnStart
  pub tool_started : Text → Option ToolStarted
  pub tool_completed : Text → Option ToolCompleted
  pub turn_commit : Text → Option TurnCommit
  pub turn_cancel : Text → Option TurnCancel
  pub turn_failure : Text → Option TurnFailure
  pub model_usage : Text → Option ModelUsage
  pub task_state : Text → Option Text
  pub title : Text → Option Text
  pub model_change : Text → Option ModelChange
  pub archived_at : Text → Option ℕ
  pub compaction_start : Text → Option CompactionStart
  pub checkpoint : Text → Option Checkpoint
  pub compaction_failure : Text → Option CompactionFailure
  pub checkpoint_reset : Text → Option CheckpointSchemaReset
  pub json_valid : Text → Bool
  pub byte_length : Text → ℕ
  pub sha256_hex : Text → Text
  pub print_number : ℕ → Text
  pub print_time : ℕ → Text
  pub print_kind : EventKind → Text
  pub print_checkpoint : Checkpoint → Option Text
  pub float_add : Float → Float → Float
  pub float_eq : Float → Float → Bool
  pub float_negative : Float → Bool
  pub float_finite : Float → Bool
