-- ===== src/Tools/Batches.antt =====
-- How `execute_many` splits its calls into batches.
use dota_mind.Prelude.{
  ℕ, zero, suc, ◌≤◌, ◌≡◌, refl, ap, ◌∙◌, inl, inr, true, false, Option, List, [], ◌∷◌, ◌++◌, map,
  length, All, arith, Bool-cases,
}
use dota_mind.Prelude.Method.{Method, pure, ◌>>=◌}
use dota_mind.Protocol.{ToolCall, ToolResultMessage}
use dota_mind.Tools.Registry.{ExecuteError, ToolRegistry}
use dota_mind.Tools.Execute.{execute}
use dota_mind.Tools.Dispatch.{Gather, is_parallel_safe, adjacent_safe, dispatch, execute_many}
use dota_mind.Tools.Order.{adjacent_safe-append, length-adjacent_safe, adjacent_safe-All}

-- Calls that run together, or a call that runs on its own.
pub data Batch : Type 0 where
  together : List ToolCall → Batch
  alone : ToolCall → Batch

abbrev pub calls_of : List Batch → List ToolCall
calls_of [] = []
calls_of (together group ∷ batches) = group ++ calls_of batches
calls_of (alone call ∷ batches) = call ∷ calls_of batches

module _ {S : Type 0} where
  -- Only parallel-safe calls run together, and a call runs on its own because it is not.
  abbrev pub IsProper : ToolRegistry S → Batch → Type 0
  IsProper registry (together group) = All (λ call. is_parallel_safe registry call ≡ true) group
  IsProper registry (alone call) = is_parallel_safe registry call ≡ false

  -- One batch after another, each once the one before it has ended.
  unfoldable pub run_batches :
      Gather S
      → ToolRegistry S
      → Option ℕ
      → List Batch
      → Method ExecuteError S (List ToolResultMessage)
  run_batches gather registry timeout [] = pure []
  run_batches gather registry timeout (together group ∷ batches) = do
    results ← gather (map (execute registry timeout) group)
    more ← run_batches gather registry timeout batches
    pure (results ++ more)
  run_batches gather registry timeout (alone call ∷ batches) = do
    result ← execute registry timeout call
    more ← run_batches gather registry timeout batches
    pure (result ∷ more)

  abbrev pub IsBatched :
      ToolRegistry S
      → List ToolCall
      → (Gather S → Option ℕ → Method ExecuteError S (List ToolResultMessage))
      → Type 0
  IsBatched registry calls method =
      (batches : List Batch) × (calls_of batches ≡ calls)
      × All (IsProper registry) batches
      × ((gather : Gather S) (timeout : Option ℕ)
          → method gather timeout ≡ run_batches gather registry timeout batches)

  dispatch-IsBatched :
      (registry : ToolRegistry S) (rounds : ℕ) (calls : List ToolCall)
      → length calls ≤ rounds
      → IsBatched registry calls (λ gather timeout. dispatch gather registry timeout rounds calls)
  unfolding dispatch run_batches
  dispatch-IsBatched registry rounds [] h = ([], refl, tt, λ gather timeout. refl)
  dispatch-IsBatched registry zero (call ∷ calls) h = absurd (omega arith)
  dispatch-IsBatched registry (suc rounds) (call ∷ calls) h =
      elim (Bool-cases (is_parallel_safe registry call)) [
        | inl safe ↦
            let group = (adjacent_safe registry calls).0 in
            let (batches, all, proper, same) =
              dispatch-IsBatched registry rounds (adjacent_safe registry calls).1
                (omega (arith, length-adjacent_safe registry calls)) in
            (
              together (call ∷ group) ∷ batches,
              ap (λ rest. call ∷ group ++ rest) all
                  ∙ ap (◌∷◌ call) (adjacent_safe-append registry calls),
              ((safe, adjacent_safe-All registry calls), proper),
              λ gather timeout. let e = same gather timeout in rw (safe, e) refl,
            )
        | inr unsafe ↦
            let (batches, all, proper, same) =
              dispatch-IsBatched registry rounds calls (omega arith) in
            (
              alone call ∷ batches,
              ap (◌∷◌ call) all,
              (unsafe, proper),
              λ gather timeout. let e = same gather timeout in rw (unsafe, e) refl,
            )
      ]

  -- The calls split into batches, in their order and with none left out: `execute_many` runs one batch
  -- after another, whatever `gather` is. Calls that run together are all parallel-safe, and a call that
  -- runs on its own is not.
  pub execute_many-IsBatched :
      (registry : ToolRegistry S) (calls : List ToolCall)
      → IsBatched registry calls (λ gather timeout. execute_many gather registry timeout calls)
  unfolding execute_many
  execute_many-IsBatched registry calls =
      dispatch-IsBatched registry (length calls) calls (omega arith)
