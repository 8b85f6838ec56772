-- ===== src/Tools/Registry.antt =====
-- registry.py: `ToolRegistry`, its tools and the bound on what it returns.
use dota_mind.Prelude.{
  ℕ, ltb, leb, Bool, String, Option, none, some, is_some, List, [], ◌∷◌, Outcome, ok, err, ◌>>=◌,
  if◌then◌else◌,
}
use dota_mind.Prelude.Dict.{Dict, lookup, insert}
use dota_mind.Json.{Value, null, end, serialized_size}
use dota_mind.Protocol.{ResultStatus, ToolError, ToolResultMessage}
use dota_mind.Compaction.{dump_error}
use dota_mind.Tools.Definition.{ToolDefinition}

-- What `execute` lets through: a cancellation, and an exception of the result processor.
pub data ExecuteError : Type 0 where
  cancelled_error processor_error : ExecuteError

pub data ProcessorError : Type 0 where
  response_artifact : String → ProcessorError
  bad_value : ProcessorError
  uncaught : ExecuteError → ProcessorError

-- `process(output, source_tool=..., force_artifact=...)`, and the content of what it returns.
abbrev pub Processor : Type 0 → Type 0
Processor S = Value → String → Bool → S → Outcome ProcessorError Value × S

pub data RegistryError : Type 0 where
  budget_below_minimum already_registered : RegistryError

pub record ToolRegistry (S : Type 0) : Type 0 where
  pub tools : Dict (ToolDefinition S)
  pub result_processor : Option (Processor S)
  pub observation_max_bytes : ℕ

abbrev pub sized_value : ResultStatus → Value → Option ToolError → Value
sized_value ResultStatus.ok content error = content
sized_value ResultStatus.error content error = dump_error error

unfoldable pub result_size : ToolResultMessage → ℕ
result_size result = serialized_size (sized_value result.status result.content result.error)

unfoldable pub oversized_result : String → ToolResultMessage
oversized_result call_id = record {
  tool_call_id = call_id;
  content = null;
  status = ResultStatus.error;
  error = some (record {
    code = "invalid_tool_output";
    message = "tool result byte limit exceeded";
    details = end;
  });
  executed = none;
}

module _ {S : Type 0} where
  -- `__init__`.
  unfoldable pub new_registry : Option (Processor S) → ℕ → Outcome RegistryError (ToolRegistry S)
  new_registry result_processor observation_max_bytes =
      if ltb observation_max_bytes (result_size (oversized_result "budget"))
      then err budget_below_minimum
      else ok (record {
        tools = [];
        result_processor = result_processor;
        observation_max_bytes = observation_max_bytes;
      })

  unfoldable pub bound_result : ToolRegistry S → ToolResultMessage → ToolResultMessage
  bound_result registry result =
      if leb (result_size result) registry.observation_max_bytes
      then result
      else oversized_result result.tool_call_id

  unfoldable pub register :
      ToolDefinition S → ToolRegistry S → Outcome RegistryError (ToolRegistry S)
  register tool registry =
      if is_some (lookup tool.name registry.tools)
      then err already_registered
      else ok (record registry { tools = insert tool.name tool registry.tools })

  -- `get`; `none` is the `KeyError`.
  abbrev pub get_tool : ToolRegistry S → String → Option (ToolDefinition S)
  get_tool registry name = lookup name registry.tools

  -- Any registrations, one after another.
  unfoldable pub register_all :
      List (ToolDefinition S) → ToolRegistry S → Outcome RegistryError (ToolRegistry S)
  register_all [] registry = ok registry
  register_all (tool ∷ tools) registry = do
    registered ← register tool registry
    register_all tools registered
