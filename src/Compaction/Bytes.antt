-- ===== src/Compaction/Bytes.antt =====
-- `_message_bytes`: the size of the JSON that `model_dump(mode="json")` gives for a message.
use dota_mind.Prelude.{ℕ, Bool, String, Option, none, some, List, map}
use dota_mind.Prelude.Int.{pos}
use dota_mind.Json.{
  Value, Fields, null, bool, num, str, arr, obj, end, field, of_list, str_or_null, serialized_size,
}
use dota_mind.Protocol.{ToolCall, RawToolCall, ResultStatus, ToolError, Message}

abbrev dump_call : ToolCall → Value
dump_call call =
    obj (
      field "id" (str call.id)
        (field "name" (str call.name) (field "arguments" call.arguments end)))

abbrev dump_raw_call : RawToolCall → Value
dump_raw_call call = obj (
    field "index" (num (pos call.index)) (
      field "id" (str call.id) (
        field "name" (str call.name) (
          field "provider_name" (str call.provider_name)
            (field "raw_arguments" (str call.raw_arguments) end)))))

abbrev dump_status : ResultStatus → Value
dump_status ResultStatus.ok = str "ok"
dump_status ResultStatus.error = str "error"

abbrev pub dump_error : Option ToolError → Value
dump_error none = null
dump_error (some e) = obj (
    field "code" (str e.code)
      (field "message" (str e.message) (field "details" (obj e.details) end)))

-- `exclude_if=lambda value: value is None`.
abbrev dump_executed : Option Bool → Fields
dump_executed none = end
dump_executed (some b) = field "executed" (bool b) end

abbrev dump_text : String → String → Value
dump_text role content = obj (field "role" (str role) (field "content" (str content) end))

abbrev dump_batch : Option String → List Value → Value
dump_batch content calls = obj (
    field "role" (str "assistant")
      (field "content" (str_or_null content) (field "tool_calls" (arr (of_list calls)) end)))

abbrev pub dump_message : Message → Value
dump_message (Message.system content) = dump_text "system" content
dump_message (Message.user content) = dump_text "user" content
dump_message (Message.final content) = dump_text "final" content
dump_message (Message.assistant content calls) = dump_batch content (map dump_call calls)
dump_message (Message.rejected content calls) = dump_batch content (map dump_raw_call calls)
dump_message (Message.tool r) = obj (
    field "role" (str "tool") (
      field "tool_call_id" (str r.tool_call_id) (
        field "content" r.content (
          field "status" (dump_status r.status)
            (field "error" (dump_error r.error) (dump_executed r.executed))))))

unfoldable pub message_bytes : Message → ℕ
message_bytes message = serialized_size (dump_message message)
