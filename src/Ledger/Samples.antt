-- ===== src/Ledger/Samples.antt =====
-- A codec to run the ledger with, and a thread that was just created.
use eino_local_assistant.Prelude.{
  ◌+◌, ◌≡◌, refl, ap, ◌++◌, Option, length, take, drop, Text, true, false, none, some, [], ◌∷◌,
  codes, ok, err, pos,
}
use eino_local_assistant.Ledger.Events.{
  thread_created, ThreadEvent, Codec, TurnFailure, ModelUsage, CompactionFailure,
}
use eino_local_assistant.Ledger.State.{ThreadState}
use eino_local_assistant.Ledger.Apply.{apply_thread_event}
use eino_local_assistant.Ledger.Chain.{new_thread_event, blank_state, blank_meta}
use eino_local_assistant.Ledger.Store.{Entry}

abbrev pub agent_usage : ModelUsage
agent_usage = record {
  call_id = codes "c1";
  turn_id = codes "t1";
  operation = codes "agent";
  operation_id = [];
  has_provider_usage = true;
  prompt_tokens = pos 10;
  completion_tokens = pos 5;
  total_tokens = pos 0;
  cached_tokens = pos 0;
  reasoning_tokens = pos 0;
  context_window_tokens = pos 100;
  cost_usd = 0;
}

-- A codec in which every payload of a kind is the same value, and every hash the letter h.
abbrev pub plain : Codec
plain = record {
  thread_created = λ _. some (record {
    meta = record blank_meta { id = codes "s" };
    system_prompt = record { content = codes "p"; sha256 = codes "h"; bytes = 64 };
  });
  turn_start = λ _. some (record { turn_id = codes "t1"; input = codes "hi" });
  tool_started = λ _.
      some (record { turn_id = codes "t1"; tool_call_id = codes "k"; tool_name = codes "read" });
  tool_completed = λ _. some (record {
    turn_id = codes "t1";
    tool_call_id = codes "k";
    tool_name = codes "read";
    impact = [];
    output = [];
  });
  turn_commit = λ _. some (record { turn_id = codes "t1"; messages = [] });
  turn_cancel = λ _. some (record { turn_id = codes "t1"; reason = [] });
  turn_failure = λ _. some (record { turn_id = codes "t1"; error = codes "e" });
  model_usage = λ _. some agent_usage;
  task_state = λ raw. some raw;
  title = λ raw. some raw;
  model_change = λ raw. some (record { model = raw; reasoning_effort = [] });
  archived_at = λ _. some 1;
  compaction_start = λ raw. some (record { operation_id = raw; automatic = false });
  checkpoint = λ _. none;
  compaction_failure = λ _. none;
  checkpoint_reset = λ _. none;
  json_valid = λ _. true;
  byte_length = λ _. 64;
  sha256_hex = λ _. codes "h";
  print_number = λ n. n ∷ [];
  print_time = λ n. n ∷ [];
  print_kind = λ _. [];
  print_checkpoint = λ _. none;
  float_add = λ a b. a + b;
  float_eq = λ a b. true;
  float_negative = λ _. false;
  float_finite = λ _. true;
}

-- A turn failure as a text: the length of the turn's ID, the ID and the error.
abbrev pub encode_failure : TurnFailure → Text
encode_failure p = length p.turn_id ∷ p.turn_id ++ p.error

abbrev pub decode_failure : Text → Option TurnFailure
decode_failure [] = none
decode_failure (n ∷ cs) = some (record { turn_id = take n cs; error = drop n cs })

-- The codec that reads failures back.
abbrev pub failing_codec : Codec
failing_codec = record plain { turn_failure = decode_failure }

take-append : (xs ys : Text) → take (length xs) (xs ++ ys) ≡ xs
take-append [] ys = refl
take-append (x ∷ xs) ys = ap (◌∷◌ x) (take-append xs ys)

drop-append : (xs ys : Text) → drop (length xs) (xs ++ ys) ≡ ys
drop-append [] ys = refl
drop-append (x ∷ xs) ys = drop-append xs ys

pub decode_failure-encode_failure : (p : TurnFailure) → decode_failure (encode_failure p) ≡ some p
decode_failure-encode_failure p =
    rw (take-append p.turn_id p.error, drop-append p.turn_id p.error) refl

-- An automatic compaction that gained little, with a limit of three such attempts.
abbrev pub low_gain_input : CompactionFailure
low_gain_input = record {
  operation_id = codes " o ";
  automatic = true;
  cancelled = false;
  reason = codes "low_gain";
  auto_paused = false;
  auto_pause_reason = [];
  resulting_low_gain_streak = none;
  max_low_gain_attempts = pos 3;
}

-- A codec whose failures are all the first one of that kind, under the operation that the text names,
-- and have no limit.
abbrev pub low_gain_codec : Codec
low_gain_codec = record plain {
  compaction_failure = λ raw. some (record low_gain_input {
    operation_id = raw;
    resulting_low_gain_streak = some 1;
    max_low_gain_attempts = pos 0;
  });
}

abbrev pub entry : Entry
entry = record { raw = codes "x"; id = codes "e"; now = 7 }

abbrev pub creation : ThreadEvent
creation =
    new_thread_event plain (blank_state (codes "s")) thread_created (codes "s") [] 0 (codes "x")
      (codes "e") 5

abbrev pub made : ThreadState
made = elim (apply_thread_event plain (blank_state (codes "s")) creation) [
  | ok s ↦ s
  | err e ↦ blank_state []
]
