-- ===== src/Tools/Tests.antt =====
-- The theorems on tool dispatch at a concrete registry.
use dota_mind.Prelude.{
  ℕ, suc, ◌≡◌, refl, true, false, String, none, some, List, [], ◌∷◌, map, Outcome, ok, err,
}
use dota_mind.Prelude.Int.{pos}
use dota_mind.Prelude.Dict.{lookup, insert}
use dota_mind.Prelude.Sort.{sort_onto}
use dota_mind.Json.{Value, null, num, obj, end, serialized_size, text_size, int_size}
use dota_mind.Protocol.{ToolCall, ToolResultMessage, ResultStatus}
use dota_mind.Tools.Definition.{
  HandlerError, json_schema, input_model, ToolDefinition, json_schema_errors,
}
use dota_mind.Tools.Registry.{
  ExecuteError, ToolRegistry, new_registry, register, register_all, result_size, oversized_result,
  bound_result,
}
use dota_mind.Tools.Execute.{
  execute, execute_tool, invoke, after_invocation, handler_failure, process_output,
  validate_arguments,
}
use dota_mind.Tools.Dispatch.{is_parallel_safe, adjacent_safe, dispatch, execute_many}
use dota_mind.Tools.Bounds.{Answers, execute-Answers}
use dota_mind.Tools.Order.{in_turn, execute_many-in_turn}
use dota_mind.Tools.Batches.{IsBatched, execute_many-IsBatched}
use dota_mind.Tools.Answered.{in_turn-Gathered, AllAnswered, execute_many-AllAnswered}

-- Two tools over a counter: one shows it and is parallel-safe, the other counts and then fails.
abbrev show : ToolDefinition ℕ
show = record {
  name = "show";
  description = "Shows the counter.";
  input = input_model ok;
  handler = λ arguments timeout n. (ok (num (pos n)), n);
  validate_output = ok;
  timeout = none;
  parallel_safe = true;
  externalize_result = true;
  always_artifact = false;
}

abbrev count : ToolDefinition ℕ
count = record {
  name = "count";
  description = "Counts.";
  input = json_schema (λ arguments. []);
  handler = λ arguments timeout n. (err HandlerError.timed_out, suc n);
  validate_output = ok;
  timeout = some 5;
  parallel_safe = false;
  externalize_result = true;
  always_artifact = false;
}

abbrev empty : ToolRegistry ℕ
empty = record { tools = []; result_processor = none; observation_max_bytes = 200 }

abbrev registry : ToolRegistry ℕ
registry = record {
  tools = ("show", show) ∷ ("count", count) ∷ [];
  result_processor = none;
  observation_max_bytes = 200;
}

empty_new : new_registry none 200 ≡ ok empty
unfolding new_registry result_size oversized_result serialized_size text_size
empty_new = refl

both_registered : register_all (show ∷ count ∷ []) empty ≡ ok registry
unfolding register_all register lookup insert
both_registered = refl

abbrev calls : List ToolCall
calls =
    record { id = "1"; name = "show"; arguments = obj end }
    ∷ record { id = "2"; name = "show"; arguments = obj end }
    ∷ record { id = "3"; name = "count"; arguments = obj end }
    ∷ record { id = "4"; name = "show"; arguments = obj end }
    ∷ []

abbrev texts : Outcome ExecuteError (List ToolResultMessage) → List (String × Value)
texts (ok rs) = map (λ (r : ToolResultMessage). (r.tool_call_id, r.content)) rs
texts (err e) = []

-- The results of the calls, the counter after them, and the codes of their errors.
abbrev outcome : Outcome ExecuteError (List ToolResultMessage) × ℕ
outcome = execute_many in_turn registry none calls 7

counted :
    (texts outcome.0
      ≡ ("1", num (pos 7)) ∷ ("2", num (pos 7)) ∷ ("3", null) ∷ ("4", num (pos 8)) ∷ [])
    × (outcome.1 ≡ 8)
unfolding execute_many dispatch in_turn adjacent_safe execute execute_tool invoke after_invocation
    handler_failure process_output validate_arguments json_schema_errors sort_onto lookup
    bound_result result_size serialized_size text_size int_size
counted = (refl, refl)

unknown_unsafe :
    is_parallel_safe registry (record { id = "5"; name = "unknown"; arguments = obj end }) ≡ false
unfolding lookup
unknown_unsafe = refl

-- What the first call returns.
abbrev shown : ToolResultMessage
shown = record {
  tool_call_id = "1";
  content = num (pos 7);
  status = ResultStatus.ok;
  error = none;
  executed = none;
}

abbrev show_call : ToolCall
show_call = record { id = "1"; name = "show"; arguments = obj end }

executed_show : (execute registry none show_call 7).0 ≡ ok shown
unfolding execute execute_tool invoke after_invocation process_output validate_arguments lookup
    bound_result result_size serialized_size text_size int_size
executed_show = refl

execute-Answers_example : Answers registry show_call shown
execute-Answers_example =
    execute-Answers none 200 (show ∷ count ∷ []) none show_call 7 empty_new both_registered
      executed_show

execute_many-in_turn_example :
    execute_many in_turn registry none calls ≡ in_turn (map (execute registry none) calls)
execute_many-in_turn_example = execute_many-in_turn registry none calls

abbrev two_calls : List ToolCall
two_calls = show_call ∷ record { id = "2"; name = "show"; arguments = obj end } ∷ []

abbrev two_results : List ToolResultMessage
two_results = shown ∷ record shown { tool_call_id = "2" } ∷ []

both_shown : (execute_many in_turn registry none two_calls 7).0 ≡ ok two_results
unfolding execute_many dispatch in_turn adjacent_safe execute execute_tool invoke after_invocation
    process_output validate_arguments lookup bound_result result_size serialized_size text_size
    int_size
both_shown = refl

execute_many-AllAnswered_example : AllAnswered registry two_calls two_results
execute_many-AllAnswered_example =
    execute_many-AllAnswered in_turn in_turn-Gathered none 200 (show ∷ count ∷ []) none two_calls 7
      empty_new both_registered both_shown

execute_many-IsBatched_example :
    IsBatched registry calls (λ gather timeout. execute_many gather registry timeout calls)
execute_many-IsBatched_example = execute_many-IsBatched registry calls
