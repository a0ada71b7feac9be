-- ===== src/Context/Samples.antt =====
-- A small conversation on which the theorems on prompts are tried.
use eino_local_assistant.Prelude.{
  ℕ, false, Option, none, some, List, [], ◌∷◌, Text, codes, pos, Result, ok, err,
}
use eino_local_assistant.Context.Tokens.{Schema}
use eino_local_assistant.Context.Policy.{Config}
use eino_local_assistant.Context.Refs.{ArtifactRef, TurnGroup}
use eino_local_assistant.Context.Checkpoints.{
  SourceRef, CheckpointItem, CheckpointProvenance, Checkpoint,
}
use eino_local_assistant.Context.Planner.{PlannerInput, PromptPlan}
use eino_local_assistant.Context.Plan.{plan}

-- A message that is only its text.
abbrev pub plain : Schema Text
plain = record {
  content = λ m. m;
  reasoning_content = λ m. [];
  tool_calls = λ m. [];
  system_message = λ t. t;
  user_message = λ t. t;
}

abbrev pub zeros : Text
zeros = codes "0000000000000000000000000000000000000000000000000000000000000000"

abbrev pub constant_hash : Text → Text
constant_hash t = zeros

abbrev pub short_json : Checkpoint → Option Text
short_json c = some (codes "{}")

abbrev pub event_refs : List SourceRef
event_refs = record { kind = codes "event"; id = codes "e1" } ∷ []

abbrev pub item : CheckpointItem
item = record { text = codes "x"; source_refs = event_refs; confidence = codes "observed" }

abbrev pub provenance : CheckpointProvenance
provenance = record {
  direct_source = record {
    from = codes "e1";
    to = codes "e2";
    content_hash = zeros;
    event_ids = codes "e1" ∷ codes "e2" ∷ [];
  };
  parent = none;
  lineage_hash = zeros;
}

abbrev pub checkpoint : Checkpoint
checkpoint = record {
  schema_version = pos 2;
  id = codes "c1";
  storage_hash = [];
  trigger = [];
  focus = [];
  provenance = provenance;
  task_goal = codes "goal";
  constraints = item ∷ [];
  confirmed_facts = item ∷ [];
  decisions =
      record {
        decision = codes "d";
        reason = codes "r";
        source_refs = event_refs;
        confidence = codes "inferred";
      }
      ∷ [];
  attempts_and_results =
      record {
        text = codes "a";
        result = codes "r";
        source_refs = event_refs;
        confidence = codes "unknown";
      }
      ∷ [];
  files_or_artifacts =
      record {
        ref = codes "f";
        description = codes "d";
        source_refs = event_refs;
        confidence = codes "observed";
      }
      ∷ [];
  open_questions = item ∷ [];
  next_actions = item ∷ [];
  direct_source_scope = [];
}

abbrev pub artifact : ArtifactRef
artifact = record {
  id = codes "log";
  uri = [];
  digest = codes "ok";
  content_hash = [];
  source_event_ids = [];
  confidence = [];
  token_estimate = pos 0;
  required = false;
}

-- A turn with one message and a declared size.
abbrev pub turn : Text → ℕ → TurnGroup Text
turn id size = record {
  id = id;
  start_sequence = 0;
  source_event_ids = [];
  messages = some (codes "hello") ∷ [];
  artifacts = [];
  token_estimate = pos size;
  required = false;
  derived_checkpoint = false;
  visible_checkpoint_event_ids = [];
}

abbrev pub small_window : Config
small_window = record { window_tokens = pos 100 }

-- The older turn claims more than the window holds.
abbrev pub input : PlannerInput Text
input = record {
  immutable_messages = some (codes "system") ∷ none ∷ [];
  active_messages = [];
  current_messages = some (codes "now") ∷ [];
  checkpoint = some checkpoint;
  turn_groups = turn (codes "t1") 90 ∷ turn (codes "t2") 5 ∷ [];
  artifacts = artifact ∷ [];
}

abbrev pub empty_plan : PromptPlan Text
empty_plan = record {
  messages = [];
  ceiling_tokens = pos 0;
  trigger_tokens = pos 0;
  target_tokens = pos 0;
  original_tokens = pos 0;
  result_tokens = pos 0;
  should_compact = false;
  included_group_ids = [];
  omitted_group_ids = [];
  included_artifacts = [];
  fallbacks = [];
}

abbrev pub value_of : {E A : Type 0} → A → Result E A → A
value_of a (ok b) = b
value_of a (err _) = a

-- The plan of the conversation.
unfoldable pub planned : PromptPlan Text
unfolding plan
planned = value_of empty_plan (plan plain short_json constant_hash small_window input)
