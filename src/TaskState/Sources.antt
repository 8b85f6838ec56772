-- ===== src/TaskState/Sources.antt =====
-- Which observations can back a checkpoint.
use dota_mind.Prelude.{
  ℕ, suc, ◌&&◌, ◌||◌, not, Bool, true, String, str_eq, starts_with, contains, Option, none, some,
  List, [], ◌∷◌, if◌then◌else◌,
}
use dota_mind.Prelude.Dict.{Dict, lookup}
use dota_mind.Json.{Value, obj, get}
use dota_mind.Protocol.{ToolCall, RawToolCall, ToolResultMessage, Message, is_ok, enqueue, dequeue}
use dota_mind.Lifecycle.{marked}
use dota_mind.TaskState.Model.{SourceKind, CheckpointSource, SourceOwner}

abbrev pub is_checkpointable_inline_tool : String → Bool
is_checkpointable_inline_tool name =
    not (str_eq name "artifact.read")
    && not (str_eq name "artifact.grep")
    && not (starts_with name "task.")

abbrev pub is_checkpointable_inline_content : Value → Bool
is_checkpointable_inline_content (obj content) =
    not (marked "state" "receipt_only" (get "_artifact_observation" content))
    && not (marked "state" "deferred" (get "_context_materialization" content))
is_checkpointable_inline_content _ = true

abbrev pub enqueue_calls :
    List ToolCall → Dict (List (Option ToolCall)) → Dict (List (Option ToolCall))
enqueue_calls [] calls = calls
enqueue_calls (call ∷ rest) calls = enqueue_calls rest (enqueue call.id (some call) calls)

abbrev pub enqueue_rejected :
    List RawToolCall → Dict (List (Option ToolCall)) → Dict (List (Option ToolCall))
enqueue_rejected [] calls = calls
enqueue_rejected (call ∷ rest) calls = enqueue_rejected rest (enqueue call.id none calls)

-- The call that a result answers: none where no call is left or the call was rejected.
abbrev pub matching : Option (Option ToolCall) → Option ToolCall
matching none = none
matching (some call) = call

abbrev pub inline_source : ℕ → ToolResultMessage → ToolCall → SourceOwner → CheckpointSource
inline_source index message call owner = record {
  tool_call_id = message.tool_call_id;
  tool_name = call.name;
  source_kind = SourceKind.inline_tool_result;
  message_index = index;
  task_key = owner.task_key;
  ref = none;
  path = none;
  actual_start = none;
  actual_end = none;
}

-- The source that one tool result gives, if it gives one.
abbrev pub inline_of :
    ℕ
    → List String
    → ToolResultMessage
    → Option ToolCall
    → Option SourceOwner
    → Option CheckpointSource
inline_of index claimed message (some call) (some owner) =
    if contains claimed message.tool_call_id
      || not (is_ok message.status)
      || not (str_eq call.name owner.tool_name)
      || not (is_checkpointable_inline_tool call.name)
      || not (is_checkpointable_inline_content message.content)
    then none
    else some (inline_source index message call owner)
inline_of index claimed message _ _ = none

abbrev pub cons_some : Option CheckpointSource → List CheckpointSource → List CheckpointSource
cons_some none sources = sources
cons_some (some source) sources = source ∷ sources

-- The loop of `_collect_active_inline_sources`, from the message with number `index` on.
unfoldable pub inline_from :
    ℕ
    → List Message
    → Dict SourceOwner
    → List String
    → Dict (List (Option ToolCall))
    → List CheckpointSource
inline_from index [] owners claimed calls = []
inline_from index (Message.assistant content batch ∷ messages) owners claimed calls =
    inline_from (suc index) messages owners claimed (enqueue_calls batch calls)
inline_from index (Message.rejected content batch ∷ messages) owners claimed calls =
    inline_from (suc index) messages owners claimed (enqueue_rejected batch calls)
inline_from index (Message.tool message ∷ messages) owners claimed calls =
    let (call, left) = dequeue message.tool_call_id calls in
    let rest = inline_from (suc index) messages owners claimed left in
    cons_some (inline_of index claimed message (matching call) (lookup message.tool_call_id owners))
      rest
inline_from index (message ∷ messages) owners claimed calls =
    inline_from (suc index) messages owners claimed calls
