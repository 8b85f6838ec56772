-- ===== src/Tools/Order.antt =====
-- The order in which calls are answered, and which of them run together.
use mathlib.Core.Path.{fun_ext}
use dota_mind.Prelude.{
  ℕ, zero, suc, ◌≤◌, ◌≡◌, refl, sym, ap, ◌∙◌, inl, inr, true, Option, List, [], ◌∷◌, ◌++◌, map,
  length, All, arith, Bool-cases,
}
use dota_mind.Prelude.Method.{Method, pure, ◌>>=◌}
use dota_mind.Protocol.{ToolCall, ToolResultMessage}
use dota_mind.Tools.Registry.{ExecuteError, ToolRegistry}
use dota_mind.Tools.Execute.{execute}
use dota_mind.Tools.Dispatch.{Gather, is_parallel_safe, adjacent_safe, dispatch, execute_many}

module _ {S : Type 0} where
  -- One after another.
  unfoldable pub in_turn : Gather S
  in_turn [] = pure []
  in_turn (m ∷ ms) = do result ← m; more ← in_turn ms; pure (result ∷ more)

  module _ (registry : ToolRegistry S) where
    pub adjacent_safe-append :
        (calls : List ToolCall)
        → (adjacent_safe registry calls).0 ++ (adjacent_safe registry calls).1 ≡ calls
    unfolding adjacent_safe
    adjacent_safe-append [] = refl
    adjacent_safe-append (call ∷ calls) = elim (Bool-cases (is_parallel_safe registry call)) [
      | inl e ↦ rw e (ap (◌∷◌ call) (adjacent_safe-append calls))
      | inr e ↦ rw e
    ]

    pub length-adjacent_safe :
        (calls : List ToolCall) → length (adjacent_safe registry calls).1 ≤ length calls
    unfolding adjacent_safe
    length-adjacent_safe [] = omega arith
    length-adjacent_safe (call ∷ calls) = elim (Bool-cases (is_parallel_safe registry call)) [
      | inl e ↦ rw e (omega (arith, length-adjacent_safe calls))
      | inr e ↦ rw e (omega arith)
    ]

    pub adjacent_safe-All :
        (calls : List ToolCall)
        → All (λ call. is_parallel_safe registry call ≡ true) (adjacent_safe registry calls).0
    unfolding adjacent_safe
    adjacent_safe-All [] = tt
    adjacent_safe-All (call ∷ calls) = elim (Bool-cases (is_parallel_safe registry call)) [
      | inl e ↦ rw e (e, adjacent_safe-All calls)
      | inr e ↦ rw e tt
    ]

  in_turn-append :
      (ms ns : List (Method ExecuteError S ToolResultMessage)) (s : S)
      → (do results ← in_turn ms; more ← in_turn ns; pure (results ++ more)) s
        ≡ in_turn (ms ++ ns) s
  unfolding in_turn
  in_turn-append [] ns s = ground arith
  in_turn-append (m ∷ ms) ns s = ground (arith, in_turn-append ms ns (m s).1)

  in_turn_nil : pure [] ≡ in_turn []
  unfolding in_turn
  in_turn_nil = refl

  in_turn_cons :
      (m : Method ExecuteError S ToolResultMessage)
      (ms : List (Method ExecuteError S ToolResultMessage))
      → (do result ← m; more ← in_turn ms; pure (result ∷ more)) ≡ in_turn (m ∷ ms)
  unfolding in_turn
  in_turn_cons m ms = refl

  map-append :
      (f : ToolCall → Method ExecuteError S ToolResultMessage) (xs ys : List ToolCall)
      → map f (xs ++ ys) ≡ map f xs ++ map f ys
  map-append f [] ys = refl
  map-append f (x ∷ xs) ys = ap (◌∷◌ (f x)) (map-append f xs ys)

  module _ (registry : ToolRegistry S) (timeout : Option ℕ) where
    dispatch-in_turn :
        (rounds : ℕ) (calls : List ToolCall)
        → length calls ≤ rounds
        → dispatch in_turn registry timeout rounds calls
          ≡ in_turn (map (execute registry timeout) calls)
    unfolding dispatch
    dispatch-in_turn rounds [] h = in_turn_nil
    dispatch-in_turn zero (call ∷ calls) h = absurd (omega arith)
    dispatch-in_turn (suc rounds) (call ∷ calls) h =
        elim (Bool-cases (is_parallel_safe registry call)) [
          | inl e ↦
              let run = map (execute registry timeout) in
              let group = (adjacent_safe registry calls).0 in
              let after = (adjacent_safe registry calls).1 in
              let ih =
                dispatch-in_turn rounds after
                  (omega (arith, length-adjacent_safe registry calls)) in
              rw (e, ih)
                (fun_ext (in_turn-append (run (call ∷ group)) (run after))
                  ∙ ap in_turn (
                      sym (map-append (execute registry timeout) (call ∷ group) after)
                      ∙ ap (λ cs. run (call ∷ cs)) (adjacent_safe-append registry calls)))
          | inr e ↦
              let ih = dispatch-in_turn rounds calls (omega arith) in
              rw (e, ih)
                (in_turn_cons (execute registry timeout call)
                  (map (execute registry timeout) calls))
        ]

    -- Where `gather` runs its awaitables one after another, `execute_many` is the execution of all
    -- calls one after another, in their order: the grouping neither drops nor moves a call.
    pub execute_many-in_turn :
        (calls : List ToolCall)
        → execute_many in_turn registry timeout calls
          ≡ in_turn (map (execute registry timeout) calls)
    unfolding execute_many
    execute_many-in_turn calls = dispatch-in_turn (length calls) calls (omega arith)
