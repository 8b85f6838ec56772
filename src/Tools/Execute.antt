-- ===== src/Tools/Execute.antt =====
-- registry.py: `execute`, which turns the failures of a tool into results.
use Prim.Native.String.{◌++◌ as append_text}
use dota_mind.Prelude.{
  ℕ, not, ◌&&◌, String, Option, none, some, is_some, List, [], ◌∷◌, map, Outcome, ok, err,
  if◌then◌else◌,
}
use dota_mind.Prelude.Int.{pos}
use dota_mind.Prelude.Method.{Method}
use dota_mind.Json.{Value, Fields, null, str, num, arr, end, field, of_list}
use dota_mind.Protocol.{ToolCall, ResultStatus, ToolError, ToolResultMessage}
use dota_mind.Tools.Definition.{
  PydanticError, ToolInput, json_schema, input_model, HandlerError, OutputError, invalid_output,
  bad_output, ToolDefinition, error_entry, json_schema_errors,
}
use dota_mind.Tools.Registry.{
  ExecuteError, cancelled_error, ProcessorError, bad_value, uncaught, Processor, ToolRegistry,
  bound_result, get_tool,
}

abbrev pub error_result : ToolCall → ToolError → ToolResultMessage
error_result call error = record {
  tool_call_id = call.id;
  content = null;
  status = ResultStatus.error;
  error = some error;
  executed = none;
}

abbrev pub ok_result : ToolCall → Value → ToolResultMessage
ok_result call content = record {
  tool_call_id = call.id;
  content = content;
  status = ResultStatus.ok;
  error = none;
  executed = none;
}

abbrev pub failure : String → String → Fields → ToolError
failure code message details = record { code = code; message = message; details = details }

-- A failure whose message ends with the name of the tool.
abbrev pub named_failure : String → String → ToolCall → Fields → ToolError
named_failure code message call details = failure code (append_text message call.name) details

abbrev pub tool_name_details : ToolCall → Fields
tool_name_details call = field "tool_name" (str call.name) end

abbrev pub validation_details : List Value → Fields
validation_details errors = field "validation_errors" (arr (of_list errors)) end

abbrev pub pydantic_details : List PydanticError → Fields
pydantic_details errors =
    validation_details (map (λ (e : PydanticError). error_entry e.loc e.kind) errors)

abbrev pub timeout_value : Option ℕ → Value
timeout_value none = null
timeout_value (some seconds) = num (pos seconds)

abbrev pub effective_timeout : Option ℕ → Option ℕ → Option ℕ
effective_timeout none default = default
effective_timeout (some seconds) default = some seconds

abbrev pub invalid_arguments : ToolCall → Fields → ToolError
invalid_arguments = named_failure "invalid_arguments" "invalid arguments for tool "

-- The arguments that the input model or the schema admits.
unfoldable pub validate_arguments : ToolCall → ToolInput → Outcome ToolError Value
validate_arguments call (json_schema iter_errors) =
    go (json_schema_errors iter_errors call.arguments)
  where
    go : List Value → Outcome ToolError Value
    go [] = ok call.arguments
    go (e ∷ es) = err (invalid_arguments call (validation_details (e ∷ es)))
validate_arguments call (input_model validate) = go (validate call.arguments)
  where
    go : Outcome (List PydanticError) Value → Outcome ToolError Value
    go (ok arguments) = ok arguments
    go (err errors) = err (invalid_arguments call (pydantic_details errors))

-- The handlers of the exceptions that an invocation raises.
unfoldable pub handler_failure :
    ToolCall → Option ℕ → HandlerError → Outcome ExecuteError ToolResultMessage
handler_failure call timeout HandlerError.timed_out = ok (
    error_result call (
      named_failure "tool_timeout" "tool timed out: " call
        (field "timeout_seconds" (timeout_value timeout) end)))
handler_failure call timeout HandlerError.cancelled = err cancelled_error
handler_failure call timeout HandlerError.missing_artifact =
    ok (error_result call (named_failure "artifact_not_found" "artifact not found: " call end))
handler_failure call timeout HandlerError.missing_path = ok (
    error_result call
      (named_failure "artifact_path_not_found" "artifact path not found: " call end))
handler_failure call timeout (HandlerError.response_artifact text) =
    ok (error_result call (failure "artifact_error" text end))
handler_failure call timeout (HandlerError.read_validation text) =
    ok (error_result call (failure "invalid_arguments" text end))
handler_failure call timeout (HandlerError.structured error) = ok (error_result call error)
handler_failure call timeout HandlerError.other_error =
    ok (error_result call (named_failure "tool_execution_error" "tool execution failed: " call end))

abbrev pub output_failure : ToolCall → OutputError → ToolResultMessage
output_failure call (invalid_output errors) = error_result call (
    named_failure "invalid_tool_output" "invalid output from tool: " call (pydantic_details errors))
output_failure call bad_output =
    error_result call (named_failure "invalid_tool_output" "invalid output from tool: " call end)

unfoldable pub processed_result :
    ToolCall → Outcome ProcessorError Value → Outcome ExecuteError ToolResultMessage
processed_result call (ok content) = ok (ok_result call content)
processed_result call (err (ProcessorError.response_artifact text)) =
    ok (error_result call (failure "artifact_error" text end))
processed_result call (err bad_value) = ok (output_failure call bad_output)
processed_result call (err (uncaught e)) = err e

module _ {S : Type 0} where
  -- The result of a validated output, which a processor may move into an artifact.
  unfoldable pub process_output :
      Option (Processor S)
      → ToolDefinition S
      → ToolCall
      → Value
      → Method ExecuteError S ToolResultMessage
  process_output none definition call output s = (ok (ok_result call output), s)
  process_output (some process) definition call output s =
      if definition.externalize_result
      then (let (outcome, s') = process output definition.name definition.always_artifact s in
          (processed_result call outcome, s'))
      else (ok (ok_result call output), s)

  unfoldable pub after_invocation :
      ToolRegistry S
      → ToolDefinition S
      → ToolCall
      → Option ℕ
      → Outcome HandlerError Value
      → Method ExecuteError S ToolResultMessage
  after_invocation registry definition call timeout (err e) s = (handler_failure call timeout e, s)
  after_invocation registry definition call timeout (ok raw_output) s =
      go (definition.validate_output raw_output)
    where
      go : Outcome OutputError Value → Outcome ExecuteError ToolResultMessage × S
      go (err e) = (ok (output_failure call e), s)
      go (ok output) = process_output registry.result_processor definition call output s

  unfoldable pub invoke :
      ToolRegistry S
      → ToolDefinition S
      → ToolCall
      → Option ℕ
      → Outcome ToolError Value
      → Method ExecuteError S ToolResultMessage
  unfolding after_invocation
  invoke registry definition call timeout (err error) s = (ok (error_result call error), s)
  invoke registry definition call timeout (ok arguments) s =
      let (outcome, s') = definition.handler arguments timeout s in
      after_invocation registry definition call timeout outcome s'

  unfoldable pub execute_tool :
      ToolRegistry S
      → ToolCall
      → Option ℕ
      → Option (ToolDefinition S)
      → Method ExecuteError S ToolResultMessage
  execute_tool registry call timeout none s = (
    ok (
        error_result call
          (named_failure "unknown_tool" "unknown tool: " call (tool_name_details call))),
    s,
  )
  execute_tool registry call timeout (some definition) s =
      if definition.always_artifact && not (is_some registry.result_processor)
      then (
        ok (
            error_result call (
              named_failure "artifact_error" "required artifact processor unavailable: " call
                (tool_name_details call))),
        s,
      )
      else invoke registry definition call (effective_timeout timeout definition.timeout)
          (validate_arguments call definition.input) s

  abbrev pub bounded_outcome :
      ToolRegistry S
      → Outcome ExecuteError ToolResultMessage
      → Outcome ExecuteError ToolResultMessage
  bounded_outcome registry (ok result) = ok (bound_result registry result)
  bounded_outcome registry (err e) = err e

  -- `execute`.
  unfoldable pub execute :
      ToolRegistry S → Option ℕ → ToolCall → Method ExecuteError S ToolResultMessage
  execute registry timeout call s =
      let (outcome, s') = execute_tool registry call timeout (get_tool registry call.name) s in
      (bounded_outcome registry outcome, s')
