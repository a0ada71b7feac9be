-- ===== src/Lib.antt =====
-- eino-local-assistant is a local coding assistant: a command line and a terminal interface
-- (cmd/eino-assistant, internal/tui) over a session runtime (internal/chat) that runs an agent
-- (internal/agent) with tools (internal/tools) and keeps every session in a durable ledger
-- (internal/store). This library models the parts that decide what a turn may do and what of it is
-- kept, as pure functions over explicit state, and proves what they promise.
--
-- How the parts interact. The session runtime opens a turn with a budget; each model step, each
-- batch of tool calls and each tool start asks that budget (Guard). A tool with a side effect then
-- asks for permission (Permission). What happens is appended to the thread's journal under a lock and
-- a compare-and-swap on the revision; the journal is replayed on load (Ledger). The terminal
-- interface also runs analyses in the background under limits of its own (Agents). What goes into a
-- request is planned and checked against the window of the model (Context). While a turn runs the user
-- may send more input into it (Steering) or queue what is to follow it (Queue), and the agent keeps a
-- checklist of its work (Checklist).
--
-- Guard: internal/runtimeguard/turn.go. Guard/Options is NormalizeTurnOptions, Guard/Budget and
-- Guard/Admission the methods of TurnBudget (AdmitToolBatch, StartToolCall, AcquireModelStep and the
-- rest), Guard/Contexts the package functions that take the budget from a context. Every method
-- holds the mutex, so a concurrent history is a list of calls (Guard/Safety). Counters, Slots, Ids,
-- Batch, Started, Starts, Turns and Nesting hold the proofs.
--
-- Ledger: internal/store. Ledger/Events holds the event kinds and payloads of thread_types.go,
-- Ledger/Lifecycle the turn and tool state machine of thread_lifecycle.go, Ledger/Usage the checks of
-- thread_usage.go and thread_task_state.go, Ledger/State the ThreadState, Ledger/Apply (with
-- Accounting and Checkpoints) applyThreadEvent of thread_journal.go, Ledger/Chain newThreadEvent, the
-- hash chain and the replay loop (without the reading of the system prompt that follows it),
-- Ledger/Compaction the failure policy of thread_compaction.go, and Ledger/Store and
-- Ledger/Compactor the writers of thread.go and thread_compaction.go. A writer is given the state and
-- the events that loadThreadLocked has replayed, and gives the event that it appended with the
-- outcome of applying it. Ledger/Turns describes the state machine as a relation, and Ownership, Names,
-- Head, Filing, Metering, Pauses, Recovery, Idle, Failures, Closing and Reload hold the proofs.
--
-- Context: internal/contextbuild with internal/usage. Context/Tokens is the estimate of a prompt,
-- Context/Policy the watermarks of config.go and the AdmissionPolicy of types.go, Context/Refs the
-- artifacts and turn groups, Context/Checkpoints, Claims and Provenance the checks of checkpoint.go
-- with the anchors of compactor.go, and Context/Planner and Plan are ContextPlanner.Plan: its loops,
-- then the whole. The loop that runs from the newest group to the oldest runs over the reversed list.
-- Exact, Admission, Selection, Layout, Stages, Plans, Charges, Budget, Ceiling, Degrading, Sourcing,
-- Unique, Accepted and Anchors hold the proofs. A message of the eino library is a parameter with the
-- fields that the code reads (`Schema`), a nil pointer is `none`.
--
-- Permission: internal/tools/permission.go. Permission/Shell is shellCommandParts, a scan of one
-- character at a time in which a flag stands for the loop's `i++`; Permission/Risk is
-- ClassifyCommand, Permission/Policy the command and risk policies and RequirePermission,
-- Permission/Modes the SwitchablePermissionHandler.
--
-- Agents: internal/tui/background_agents.go. Agents/Tasks has the tasks in the order of their
-- admission and the operations on them; Counts, Slots and Limits hold the proofs of their bounds.
--
-- Steering: internal/chat/steer.go with internal/agent/steer.go and the closure closeSteering of
-- session.go. Steering/Mailbox is turnSteerMailbox, Steering/Session the admission, the registry of the
-- model, the rewriting of its messages and the closing; Delivery, Promptness and Closing hold the
-- proofs. A mailbox is shared by pointer, so mailboxes stand in a store.
--
-- Checklist: internal/agent/task_controller.go and task_persistence.go. Checklist/Fields is the
-- normal form of a step, Checklist/Plan the making and showing of a checklist, Checklist/Snapshot its
-- stored form, Checklist/Controller the TaskController; Validity, Stored, Invariant and Display hold
-- the proofs.
--
-- Queue: internal/tui/queue.go, queue_pane.go and slash.go with cmdQueue, queueWhileBusy, submit and
-- drainQueue of model.go. Queue/Slash reads and classifies a line, Queue/FollowUps is the list,
-- Queue/Commands the command /queue and the input while a turn runs, Queue/Drain the pane and the
-- draining after a turn; Items, Entries, Bounds and Draining hold the proofs.
--
-- Numbers. uint64 revisions, sequence numbers and streaks wrap (`inc64`), token counts are Go's `int`
-- with its wrap-around (`add_int`), times are nanoseconds with 0 for the zero time, floating-point
-- costs are opaque. A text is its list of code points; comparisons without regard to case are those
-- that ASCII constants can see. Every loop of the source that is modelled runs over a list, and is
-- recursion on that list, except drainQueue, whose list changes while it runs: `drain_queue` takes
-- fuel, and one more than the items of the queue, at most 33, is enough.
--
-- Parameters. The JSON encoding and decoding, SHA-256, the printing of times and the floating-point
-- operations stand in records (`Json` in Guard/Budget, `Codec` in Ledger/Events,
-- `SnapshotCodec` in Checklist/Snapshot) or are arguments (`marshal`, `sha256_hex`, `itoa`), and what a theorem
-- asks of them is a hypothesis of it. Permission handlers are functions of the request.
--
-- Not modelled: files, locks, fsync and the repair of a torn tail, the SQLite projection, the
-- provider and its network, rendering and input of the terminal interface, configuration, sandboxes,
-- memory files, MCP and OAuth, which are input and output or calls of libraries. The writers
-- CommitCheckpoint and RecordUsage, the compactor and the rest of the session runtime are left for later.
mod Prelude
pub mod Guard
pub mod Context
pub mod Ledger
pub mod Permission
pub mod Agents
pub mod Steering
pub mod Queue
pub mod Checklist
