-- ===== src/Tools/Answered.antt =====
-- What `execute_many` returns, whatever `gather` does.
use dota_mind.Prelude.{
  ℕ, zero, suc, ◌≤◌, ◌≡◌, subst, inl, inr, Option, List, [], ◌∷◌, ◌++◌, map, length, ok, arith,
  Bool-cases,
}
use dota_mind.Prelude.Method.{Method, pure, ◌>>=◌, >>=-ok}
use dota_mind.Protocol.{ToolCall, ToolResultMessage}
use dota_mind.Tools.Definition.{ToolDefinition}
use dota_mind.Tools.Registry.{
  ExecuteError, Processor, ToolRegistry, new_registry, register_all, result_size, oversized_result,
}
use dota_mind.Tools.Execute.{execute}
use dota_mind.Tools.Dispatch.{Gather, is_parallel_safe, adjacent_safe, dispatch, execute_many}
use dota_mind.Tools.Bounds.{Answers, execute-Answers_of_room, new_registry_budget}
use dota_mind.Tools.Order.{in_turn, adjacent_safe-append, length-adjacent_safe}

module _ {S : Type 0} where
  -- Each result is the one of its awaitable, in their order, from some state that it found.
  abbrev pub Gathered :
      List (Method ExecuteError S ToolResultMessage) → List ToolResultMessage → Type 0
  Gathered [] [] = Unit
  Gathered (m ∷ ms) (r ∷ rs) = ((s : S) × ((m s).0 ≡ ok r)) × Gathered ms rs
  Gathered [] (r ∷ rs) = ⊥
  Gathered (m ∷ ms) [] = ⊥

  -- Running one after another is in order.
  pub in_turn-Gathered :
      (ms : List (Method ExecuteError S ToolResultMessage)) (s : S) (rs : List ToolResultMessage)
      → (in_turn ms s).0 ≡ ok rs
      → Gathered ms rs
  unfolding in_turn
  in_turn-Gathered [] s rs h = subst (Gathered []) {x = []} {y = rs} (ground arith) tt
  in_turn-Gathered (m ∷ ms) s rs h =
      let (result, run, e) =
        >>=-ok m
          (λ (result : ToolResultMessage).
            in_turn ms >>= λ (more : List ToolResultMessage). pure (result ∷ more))
          s h in
      let (more, later, e') =
        >>=-ok (in_turn ms) (λ (more : List ToolResultMessage). pure (result ∷ more)) (m s).1 e in
      subst (Gathered (m ∷ ms)) {x = result ∷ more} {y = rs} (ground arith)
        ((s, run), in_turn-Gathered ms (m s).1 more later)

  -- One answer for each call, in their order.
  abbrev pub AllAnswered : ToolRegistry S → List ToolCall → List ToolResultMessage → Type 0
  AllAnswered registry [] [] = Unit
  AllAnswered registry (call ∷ calls) (r ∷ rs) =
      Answers registry call r × AllAnswered registry calls rs
  AllAnswered registry [] (r ∷ rs) = ⊥
  AllAnswered registry (call ∷ calls) [] = ⊥

  module _ (registry : ToolRegistry S) (timeout : Option ℕ)
      (room : result_size (oversized_result "budget") ≤ registry.observation_max_bytes) where
    Gathered-AllAnswered :
        (calls : List ToolCall) (rs : List ToolResultMessage)
        → Gathered (map (execute registry timeout) calls) rs
        → AllAnswered registry calls rs
    Gathered-AllAnswered [] [] h = tt
    Gathered-AllAnswered [] (r ∷ rs) h = absurd h
    Gathered-AllAnswered (call ∷ calls) [] h = absurd h
    Gathered-AllAnswered (call ∷ calls) (r ∷ rs) ((s, e), h) =
        (execute-Answers_of_room registry timeout call s room e, Gathered-AllAnswered calls rs h)

    AllAnswered-append :
        (xs ys : List ToolCall) (rs bs : List ToolResultMessage)
        → AllAnswered registry xs rs
        → AllAnswered registry ys bs
        → AllAnswered registry (xs ++ ys) (rs ++ bs)
    AllAnswered-append [] ys [] bs h k = k
    AllAnswered-append [] ys (r ∷ rs) bs h k = absurd h
    AllAnswered-append (x ∷ xs) ys [] bs h k = absurd h
    AllAnswered-append (x ∷ xs) ys (r ∷ rs) bs h k = (h.0, AllAnswered-append xs ys rs bs h.1 k)

    module _ (gather : Gather S)
        (in_order : (ms : List (Method ExecuteError S ToolResultMessage)) (s : S)
            (rs : List ToolResultMessage)
          → (gather ms s).0 ≡ ok rs
          → Gathered ms rs) where
      dispatch-AllAnswered :
          (rounds : ℕ) (calls : List ToolCall) (s : S) (rs : List ToolResultMessage)
          → length calls ≤ rounds
          → (dispatch gather registry timeout rounds calls s).0 ≡ ok rs
          → AllAnswered registry calls rs
      unfolding dispatch
      dispatch-AllAnswered rounds [] s rs h e =
          subst (AllAnswered registry []) {x = []} {y = rs} (ground arith) tt
      dispatch-AllAnswered zero (call ∷ calls) s rs h e = absurd (omega arith)
      dispatch-AllAnswered (suc rounds) (call ∷ calls) s rs h e =
          elim (Bool-cases (is_parallel_safe registry call)) [
            | inl safe ↦
                let group = (adjacent_safe registry calls).0 in
                let after = (adjacent_safe registry calls).1 in
                let (results, run, e') =
                  >>=-ok (gather (map (execute registry timeout) (call ∷ group)))
                    (λ (results : List ToolResultMessage).
                      dispatch gather registry timeout rounds after
                      >>= λ (more : List ToolResultMessage). pure (results ++ more))
                    s (rw safe at e) in
                let (more, later, e'') =
                  >>=-ok (dispatch gather registry timeout rounds after)
                    (λ (more : List ToolResultMessage). pure (results ++ more)) _ e' in
                let first =
                  Gathered-AllAnswered (call ∷ group) results (in_order _ s results run) in
                let rest =
                  dispatch-AllAnswered rounds after _ more
                    (omega (arith, length-adjacent_safe registry calls)) later in
                subst (λ (p : List ToolCall × List ToolResultMessage). AllAnswered registry p.0 p.1)
                  {x = (call ∷ group ++ after, results ++ more)} {y = (call ∷ calls, rs)}
                  (ground (arith, adjacent_safe-append registry calls))
                  (AllAnswered-append (call ∷ group) after results more first rest)
            | inr alone ↦
                let (result, run, e') =
                  >>=-ok (execute registry timeout call)
                    (λ (result : ToolResultMessage).
                      dispatch gather registry timeout rounds calls
                      >>= λ (more : List ToolResultMessage). pure (result ∷ more))
                    s (rw alone at e) in
                let (more, later, e'') =
                  >>=-ok (dispatch gather registry timeout rounds calls)
                    (λ (more : List ToolResultMessage). pure (result ∷ more)) _ e' in
                subst (AllAnswered registry (call ∷ calls)) {x = result ∷ more} (ground arith) (
                  execute-Answers_of_room registry timeout call s room run,
                  dispatch-AllAnswered rounds calls _ more (omega arith) later,
                )
          ]

  -- However the awaitables of a group are interleaved: where `execute_many` returns, there is one
  -- result for each call, in the order of the calls, with the id of its call and within the budget.
  pub execute_many-AllAnswered :
      (gather : Gather S)
      (in_order : (ms : List (Method ExecuteError S ToolResultMessage)) (s : S)
          (rs : List ToolResultMessage)
        → (gather ms s).0 ≡ ok rs
        → Gathered ms rs)
      (process : Option (Processor S)) (budget : ℕ) (tools : List (ToolDefinition S))
      (timeout : Option ℕ) (calls : List ToolCall) (s : S) {empty registry : ToolRegistry S}
      {results : List ToolResultMessage}
      → new_registry process budget ≡ ok empty
      → register_all tools empty ≡ ok registry
      → (execute_many gather registry timeout calls s).0 ≡ ok results
      → AllAnswered registry calls results
  unfolding execute_many
  execute_many-AllAnswered gather in_order process budget tools timeout calls s {empty} {registry}
        {results} h k e =
      dispatch-AllAnswered registry timeout (new_registry_budget process budget tools h k) gather
        in_order (length calls) calls s results (omega arith) e
