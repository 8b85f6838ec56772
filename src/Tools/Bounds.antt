-- ===== src/Tools/Bounds.antt =====
-- The size of what tools return.
use dota_mind.Prelude.{
  ℕ, leb, ◌≤◌, ◌≡◌, refl, subst, ◌∙◌, inl, inr, true, false, not, ◌&&◌, leb→le, Option, none, some,
  is_some, List, [], ◌∷◌, Outcome, ok, err, arith, Outcome-cases, Bool-cases,
}
use dota_mind.Json.{Value}
use dota_mind.Protocol.{ToolCall, ToolResultMessage}
use dota_mind.Tools.Definition.{
  ToolDefinition, OutputError, invalid_output, bad_output, HandlerError,
}
use dota_mind.Tools.Registry.{
  ProcessorError, Processor, ToolRegistry, result_size, oversized_result, bad_value, uncaught,
  new_registry, bound_result, register, register_all, get_tool,
}
use dota_mind.Tools.Execute.{
  processed_result, process_output, after_invocation, handler_failure, invoke, execute_tool,
  execute, output_failure, validate_arguments, effective_timeout,
}

processed_result_id :
    (call : ToolCall) (outcome : Outcome ProcessorError Value) {result : ToolResultMessage}
    → processed_result call outcome ≡ ok result
    → result.tool_call_id ≡ call.id
unfolding processed_result
processed_result_id call (ok content) h = ground arith
processed_result_id call (err (ProcessorError.response_artifact text)) h = ground arith
processed_result_id call (err bad_value) h = ground arith
processed_result_id call (err (uncaught e)) h = ground arith

handler_failure_id :
    (call : ToolCall) (timeout : Option ℕ) (e : HandlerError) {result : ToolResultMessage}
    → handler_failure call timeout e ≡ ok result
    → result.tool_call_id ≡ call.id
unfolding handler_failure
handler_failure_id call timeout HandlerError.timed_out h = ground arith
handler_failure_id call timeout HandlerError.cancelled h = ground arith
handler_failure_id call timeout HandlerError.missing_artifact h = ground arith
handler_failure_id call timeout HandlerError.missing_path h = ground arith
handler_failure_id call timeout HandlerError.other_error h = ground arith
handler_failure_id call timeout (HandlerError.response_artifact text) h = ground arith
handler_failure_id call timeout (HandlerError.read_validation text) h = ground arith
handler_failure_id call timeout (HandlerError.structured error) h = ground arith

output_failure_id :
    (call : ToolCall) (e : OutputError) → (output_failure call e).tool_call_id ≡ call.id
output_failure_id call (invalid_output errors) = refl
output_failure_id call bad_output = refl

module _ {S : Type 0} where
  register_budget :
      (tool : ToolDefinition S) (registry : ToolRegistry S) {r : ToolRegistry S}
      → register tool registry ≡ ok r
      → r.observation_max_bytes ≡ registry.observation_max_bytes
  unfolding register
  register_budget tool registry h = ground arith

  register_all_budget :
      (tools : List (ToolDefinition S)) (registry : ToolRegistry S) {r : ToolRegistry S}
      → register_all tools registry ≡ ok r
      → r.observation_max_bytes ≡ registry.observation_max_bytes
  unfolding register_all
  register_all_budget [] registry h = ground arith
  register_all_budget (tool ∷ tools) registry h = elim (Outcome-cases (register tool registry)) [
    | inr (x, e) ↦ ground arith
    | inl (next, e) ↦ register_all_budget tools next (rw e at h) ∙ register_budget tool registry e
  ]

  -- The budget of a registry leaves room for the error that replaces what is too large.
  pub new_registry_budget :
      (process : Option (Processor S)) (budget : ℕ) (tools : List (ToolDefinition S))
      {empty registry : ToolRegistry S}
      → new_registry process budget ≡ ok empty
      → register_all tools empty ≡ ok registry
      → result_size (oversized_result "budget") ≤ registry.observation_max_bytes
  unfolding new_registry
  new_registry_budget process budget tools h k = ground (arith, register_all_budget tools _ k)

  bound_result_oversized :
      (registry : ToolRegistry S) (result : ToolResultMessage)
      → leb (result_size result) registry.observation_max_bytes ≡ false
      → result_size (oversized_result "budget") ≤ registry.observation_max_bytes
      → result_size (bound_result registry result) ≤ registry.observation_max_bytes
  unfolding bound_result result_size oversized_result
  bound_result_oversized registry result e h = rw e h

  bound_result_fits :
      (registry : ToolRegistry S) (result : ToolResultMessage)
      → leb (result_size result) registry.observation_max_bytes ≡ true
      → result_size (bound_result registry result) ≤ registry.observation_max_bytes
  unfolding bound_result
  bound_result_fits registry result e = rw e (leb→le _ _ e)

  bound_result_bounded :
      (registry : ToolRegistry S) (result : ToolResultMessage)
      → result_size (oversized_result "budget") ≤ registry.observation_max_bytes
      → result_size (bound_result registry result) ≤ registry.observation_max_bytes
  bound_result_bounded registry result h =
      elim (Bool-cases (leb (result_size result) registry.observation_max_bytes)) [
        | inl e ↦ bound_result_fits registry result e
        | inr e ↦ bound_result_oversized registry result e h
      ]

  bound_result_id :
      (registry : ToolRegistry S) (result : ToolResultMessage)
      → (bound_result registry result).tool_call_id ≡ result.tool_call_id
  unfolding bound_result oversized_result
  bound_result_id registry result = ground arith

  process_output_id :
      (process : Option (Processor S)) (definition : ToolDefinition S) (call : ToolCall)
      (output : Value) (s : S) {result : ToolResultMessage}
      → (process_output process definition call output s).0 ≡ ok result
      → result.tool_call_id ≡ call.id
  unfolding process_output
  process_output_id none definition call output s h = ground arith
  process_output_id (some process) definition call output s h =
      elim (Bool-cases definition.externalize_result) [
        | inl e ↦
            processed_result_id call (process output definition.name definition.always_artifact s).0
              (rw e at h)
        | inr e ↦ ground arith
      ]

  after_invocation_id :
      (registry : ToolRegistry S) (definition : ToolDefinition S) (call : ToolCall)
      (timeout : Option ℕ) (outcome : Outcome HandlerError Value) (s : S)
      {result : ToolResultMessage}
      → (after_invocation registry definition call timeout outcome s).0 ≡ ok result
      → result.tool_call_id ≡ call.id
  unfolding after_invocation
  after_invocation_id registry definition call timeout (err e) s h =
      handler_failure_id call timeout e h
  after_invocation_id registry definition call timeout (ok raw) s h =
      elim (Outcome-cases (definition.validate_output raw)) [
        | inl (output, e) ↦
            process_output_id registry.result_processor definition call output s (rw e at h)
        | inr (x, e) ↦ ground (arith, output_failure_id call x)
      ]

  execute_tool_id :
      (registry : ToolRegistry S) (call : ToolCall) (timeout : Option ℕ)
      (tool : Option (ToolDefinition S)) (s : S) {result : ToolResultMessage}
      → (execute_tool registry call timeout tool s).0 ≡ ok result
      → result.tool_call_id ≡ call.id
  unfolding execute_tool invoke
  execute_tool_id registry call timeout none s h = ground arith
  execute_tool_id registry call timeout (some definition) s h =
      elim (Bool-cases (definition.always_artifact && not (is_some registry.result_processor))) [
        | inl e ↦ ground arith
        | inr e ↦ elim (Outcome-cases (validate_arguments call definition.input)) [
          | inl (arguments, f) ↦
              after_invocation_id registry definition call
                (effective_timeout timeout definition.timeout) _ _ (rw (e, f) at h)
          | inr (x, f) ↦ ground arith
        ]
      ]

  -- A result answers a call of a registry: it has its id, and is within the budget.
  abbrev pub Answers : ToolRegistry S → ToolCall → ToolResultMessage → Type 0
  Answers registry call result =
      (result.tool_call_id ≡ call.id) × (result_size result ≤ registry.observation_max_bytes)

  pub execute-Answers_of_room :
      (registry : ToolRegistry S) (timeout : Option ℕ) (call : ToolCall) (s : S)
      {result : ToolResultMessage}
      → result_size (oversized_result "budget") ≤ registry.observation_max_bytes
      → (execute registry timeout call s).0 ≡ ok result
      → Answers registry call result
  unfolding execute
  execute-Answers_of_room registry timeout call s {result} room h =
      elim (Outcome-cases (execute_tool registry call timeout (get_tool registry call.name) s).0) [
        | inr (x, e) ↦ ground arith
        | inl (r, e) ↦
            let same : bound_result registry r ≡ result = ground arith in
            subst (Answers registry call) same (
              bound_result_id registry r ∙ execute_tool_id registry call timeout _ s e,
              bound_result_bounded registry r room,
            )
      ]

  -- Whatever its handler returns or raises, the result of a registered or unknown tool has the id of
  -- the call, and its size is within the budget of the registry.
  pub execute-Answers :
      (process : Option (Processor S)) (budget : ℕ) (tools : List (ToolDefinition S))
      (timeout : Option ℕ) (call : ToolCall) (s : S) {empty registry : ToolRegistry S}
      {result : ToolResultMessage}
      → new_registry process budget ≡ ok empty
      → register_all tools empty ≡ ok registry
      → (execute registry timeout call s).0 ≡ ok result
      → Answers registry call result
  execute-Answers process budget tools timeout call s {empty} {registry} h k e =
      execute-Answers_of_room registry timeout call s (new_registry_budget process budget tools h k)
        e
