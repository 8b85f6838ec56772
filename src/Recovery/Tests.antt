-- ===== src/Recovery/Tests.antt =====
-- The theorems on rejected batches at a concrete batch.
use dota_mind.Prelude.{ℕ, Option, ◌≡◌, refl, String, none, some, List, [], ◌∷◌, ◌++◌, map, ok}
use dota_mind.Protocol.{
  RawToolCall, FailureKind, RejectionReason, RejectedToolCallBatch, ToolError, ToolResultMessage,
  Message,
}
use dota_mind.Compaction.{result_ids, next_group}
use dota_mind.Recovery.Rejected.{failure_of, build_rejected_tool_call_history}
use dota_mind.Recovery.Paired.{build_rejected_tool_call_history-next_group}

abbrev raw : ℕ → String → RawToolCall
raw index id = record {
  index = index;
  id = id;
  name = "player.search";
  provider_name = "player_search";
  raw_arguments = "{";
}

-- The arguments of the second call are not JSON.
abbrev batch : RejectedToolCallBatch
batch = record {
  reason = RejectionReason.invalid_tool_arguments;
  content = none;
  calls = raw 0 "1" ∷ raw 1 "2" ∷ [];
  argument_failures =
      record {
        call_index = 1;
        kind = FailureKind.invalid_json;
        message = "m";
        position = some 1;
        line = none;
        column = none;
      }
      ∷ [];
}

abbrev codes_of : List ToolResultMessage → List String
codes_of [] = []
codes_of (r ∷ rs) = code_of r.error (codes_of rs)
  where
    code_of : Option ToolError → List String → List String
    code_of none codes = codes
    code_of (some e) codes = e.code ∷ codes

rejected_codes :
    codes_of (build_rejected_tool_call_history batch).1
    ≡ "model_tool_batch_rejected" ∷ "model_tool_arguments_invalid" ∷ []
unfolding build_rejected_tool_call_history failure_of
rejected_codes = refl

build_rejected_tool_call_history-next_group_example :
    (result_ids (build_rejected_tool_call_history batch).1 ≡ "1" ∷ "2" ∷ [])
    × (next_group
          (build_rejected_tool_call_history batch).0
          (map Message.tool (build_rejected_tool_call_history batch).1 ++ Message.user "q" ∷ [])
        ≡ ok (
          (build_rejected_tool_call_history batch).0
              ∷ map Message.tool (build_rejected_tool_call_history batch).1,
          Message.user "q" ∷ [],
        ))
build_rejected_tool_call_history-next_group_example =
    build_rejected_tool_call_history-next_group batch (Message.user "q" ∷ []) refl
