-- ===== src/Tools/Dispatch.antt =====
-- registry.py: `execute_many`. `gather` stands for `asyncio.gather`, which runs awaitables at once.
use dota_mind.Prelude.{
  ℕ, zero, suc, Bool, false, Option, none, some, List, [], ◌∷◌, ◌++◌, map, length, if◌then◌else◌,
}
use dota_mind.Prelude.Method.{Method, pure, ◌>>=◌}
use dota_mind.Protocol.{ToolCall, ToolResultMessage}
use dota_mind.Tools.Definition.{ToolDefinition}
use dota_mind.Tools.Registry.{ExecuteError, ToolRegistry, get_tool}
use dota_mind.Tools.Execute.{execute}

abbrev pub Gather : Type 0 → Type 0
Gather S =
    List (Method ExecuteError S ToolResultMessage) → Method ExecuteError S (List ToolResultMessage)

module _ {S : Type 0} where
  abbrev pub is_safe : Option (ToolDefinition S) → Bool
  is_safe none = false
  is_safe (some tool) = tool.parallel_safe

  -- `_is_parallel_safe`.
  abbrev pub is_parallel_safe : ToolRegistry S → ToolCall → Bool
  is_parallel_safe registry call = is_safe (get_tool registry call.name)

  -- The loop that moves `end`: the parallel-safe calls at the head, and the calls after them.
  unfoldable pub adjacent_safe : ToolRegistry S → List ToolCall → List ToolCall × List ToolCall
  adjacent_safe registry [] = ([], [])
  adjacent_safe registry (call ∷ calls) =
      let (group, after) = adjacent_safe registry calls in
      if is_parallel_safe registry call then (call ∷ group, after) else ([], call ∷ calls)

  module _ (gather : Gather S) (registry : ToolRegistry S) (timeout : Option ℕ) where
    -- The loop, for at most as many rounds.
    unfoldable pub dispatch : ℕ → List ToolCall → Method ExecuteError S (List ToolResultMessage)
    unfolding adjacent_safe
    dispatch rounds [] = pure []
    dispatch zero (call ∷ calls) = pure []
    dispatch (suc rounds) (call ∷ calls) =
        if is_parallel_safe registry call
        then (do
          results ←
              gather (map (execute registry timeout) (call ∷ (adjacent_safe registry calls).0))
          more ← dispatch rounds (adjacent_safe registry calls).1
          pure (results ++ more))
        else (do
          result ← execute registry timeout call
          more ← dispatch rounds calls
          pure (result ∷ more))

    unfoldable pub execute_many : List ToolCall → Method ExecuteError S (List ToolResultMessage)
    execute_many calls = dispatch (length calls) calls
