-- ===== src/Recovery/Rejected.antt =====
-- `build_rejected_tool_call_history`.
use dota_mind.Prelude.{
  ℕ, ◌==◌, false, String, Option, none, some, List, [], ◌∷◌, map, if◌then◌else◌,
}
use dota_mind.Prelude.Int.{pos}
use dota_mind.Json.{Fields, num, str, end, field}
use dota_mind.Protocol.{
  RawToolCall, FailureKind, ToolArgumentFailure, RejectionReason, RejectedToolCallBatch,
  ResultStatus, ToolResultMessage, Message,
}

abbrev pub not_executed_feedback : String
not_executed_feedback = "本批所有调用均未执行，请重新提交完整调用。"

abbrev pub reason_text : RejectionReason → String
reason_text RejectionReason.invalid_tool_arguments = "invalid_tool_arguments"
reason_text RejectionReason.tool_response_truncated = "tool_response_truncated"

abbrev pub kind_text : FailureKind → String
kind_text FailureKind.invalid_json = "invalid_json"
kind_text FailureKind.non_object_json = "non_object_json"

-- `{failure.call_index: failure for failure in ...}.get(index)`: the last failure of the index.
unfoldable pub failure_of : ℕ → List ToolArgumentFailure → Option ToolArgumentFailure
failure_of index [] = none
failure_of index (failure ∷ failures) = go (failure_of index failures)
  where
    go : Option ToolArgumentFailure → Option ToolArgumentFailure
    go (some later) = some later
    go none = if failure.call_index == index then some failure else none

-- A field that is there only where its value is.
abbrev pub optional_field : String → Option ℕ → Fields → Fields
optional_field key none rest = rest
optional_field key (some n) rest = field key (num (pos n)) rest

-- The code and the details of the error of one call.
abbrev pub rejection : RejectionReason → Option ToolArgumentFailure → String × Fields
rejection RejectionReason.tool_response_truncated failure = (
  "model_tool_response_truncated",
  field "reason" (str (reason_text RejectionReason.tool_response_truncated)) end,
)
rejection RejectionReason.invalid_tool_arguments (some failure) = (
  "model_tool_arguments_invalid",
  field "reason" (str (reason_text RejectionReason.invalid_tool_arguments)) (
      field "kind" (str (kind_text failure.kind)) (
        field "diagnostic" (str failure.message) (
          optional_field "position" failure.position
            (optional_field "line" failure.line (optional_field "column" failure.column end))))),
)
rejection RejectionReason.invalid_tool_arguments none = (
  "model_tool_batch_rejected",
  field "reason" (str (reason_text RejectionReason.invalid_tool_arguments))
      (field "cause" (str "another_call_invalid") end),
)

abbrev pub rejected_result : RejectedToolCallBatch → RawToolCall → ToolResultMessage
rejected_result batch call =
    let (code, details) = rejection batch.reason (failure_of call.index batch.argument_failures) in
    record {
      tool_call_id = call.id;
      content = str not_executed_feedback;
      status = ResultStatus.error;
      error = some (record { code = code; message = not_executed_feedback; details = details });
      executed = some false;
    }

unfoldable pub build_rejected_tool_call_history :
    RejectedToolCallBatch → Message × List ToolResultMessage
build_rejected_tool_call_history batch =
    (Message.rejected batch.content batch.calls, map (rejected_result batch) batch.calls)
