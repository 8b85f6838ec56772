-- ===== src/RuntimeProjection/Laws.antt =====
-- What the consumers of product/runtime_projection.py rely on.
use dota_mind.Prelude.{
  ℕ, ◌≡◌, refl, ap, ◌≢◌, ◌⊎◌, inl, inr, Bool, true, false, String, str_eq, Option, none, some, List,
  [], ◌∷◌, not, ok, arith, Outcome-cases,
}
use dota_mind.Prelude.Int.{ℤ}
use dota_mind.RunState.{
  RunStage, AnswerKind, Timestamp, Action, RunState, init, is_running, start_execution,
  add_commentary, tool_started, tool_finished, enter_stage, start_answer_attempt,
  append_answer_text, complete_answer, cancel, fail_execution,
}
use dota_mind.RuntimeProjection.{
  AgentEvent, agent_started, other, execution_commentary, tool_start, tool_completed, tool_failed,
  answer_stage_started, answer_attempt_started, text_delta, agent_completed, agent_cancelled,
  agent_failed, dispatch, changed, apply_runtime_event, for_attempt, Item, event, raises, cancels,
  returned, Stream, fail_with, loop, iter_runtime_states, safe_failure_message,
}

-- Each method leaves a state whose run has ended alone.
module _ (s : RunState) (ended : is_running s.status ≡ false) where
  start_execution_ended : (t : Timestamp) → (start_execution t s).1 ≡ s
  unfolding start_execution
  start_execution_ended t = ground arith

  add_commentary_ended : (step : ℕ) (text : String) → (add_commentary step text s).1 ≡ s
  unfolding add_commentary
  add_commentary_ended step text = ground arith

  tool_started_ended : (id name : String) → (tool_started id name s).1 ≡ s
  unfolding tool_started
  tool_started_ended id name = ground arith

  tool_finished_ended :
      (id : String) (d : Option ℤ) (code : Option String) → (tool_finished id d code s).1 ≡ s
  unfolding tool_finished
  tool_finished_ended id d code = ground arith

  enter_stage_ended :
      (now : ℕ) (stage : RunStage) (t : Option Timestamp) → (enter_stage now stage t s).1 ≡ s
  unfolding enter_stage
  enter_stage_ended now stage t = ground arith

  start_answer_attempt_ended : (id : String) (k : AnswerKind) → (start_answer_attempt id k s).1 ≡ s
  unfolding start_answer_attempt
  start_answer_attempt_ended id k = ground arith

  append_answer_text_ended : (id text : String) → (append_answer_text id text s).1 ≡ s
  unfolding append_answer_text
  append_answer_text_ended id text = ground arith

  complete_answer_ended : (id text : String) → (complete_answer id text s).1 ≡ s
  unfolding complete_answer
  complete_answer_ended id text = ground arith

  cancel_ended : (now : ℕ) (t : Option Timestamp) → (cancel now t s).1 ≡ s
  unfolding cancel
  cancel_ended now t = ground arith

  fail_execution_ended :
      (now : ℕ) (code message : String) (t : Option Timestamp)
      → (fail_execution now code message t s).1 ≡ s
  unfolding fail_execution
  fail_execution_ended now code message t = ground arith

  -- Once a run has ended, no runtime event changes its state, whether the call returns or raises.
  pub apply_runtime_event_ended : (now : ℕ) (e : AgentEvent) → (apply_runtime_event now e s).1 ≡ s
  unfolding apply_runtime_event dispatch for_attempt
  apply_runtime_event_ended now (agent_started t) = ground (arith, start_execution_ended t)
  apply_runtime_event_ended now other = ground arith
  apply_runtime_event_ended now (execution_commentary step text) =
      ground (arith, add_commentary_ended step text)
  apply_runtime_event_ended now (tool_start id name) = ground (arith, tool_started_ended id name)
  apply_runtime_event_ended now (tool_completed id d) =
      ground (arith, tool_finished_ended id (some d) none)
  apply_runtime_event_ended now (tool_failed id d code) =
      ground (arith, tool_finished_ended id (some d) (some code))
  apply_runtime_event_ended now (answer_stage_started t) =
      ground (arith, enter_stage_ended now RunStage.answer (some t))
  apply_runtime_event_ended now (answer_attempt_started id k) =
      ground (arith, start_answer_attempt_ended id k)
  apply_runtime_event_ended now (text_delta none text) = ground arith
  apply_runtime_event_ended now (text_delta (some id) text) =
      ground (arith, append_answer_text_ended id text)
  apply_runtime_event_ended now (agent_completed none text) = ground arith
  apply_runtime_event_ended now (agent_completed (some id) text) =
      ground (arith, complete_answer_ended id text)
  apply_runtime_event_ended now (agent_cancelled t) = ground (arith, cancel_ended now (some t))
  apply_runtime_event_ended now (agent_failed code t) =
      ground (arith, fail_execution_ended now code safe_failure_message (some t))

-- The states that a consumer sees after `s`: each differs from the one before it, and only the last is not running.
abbrev pub Progress : RunState → List RunState → Type 0
Progress s [] = Unit
Progress s (x ∷ xs) = (x ≢ s) × ((is_running x.status ≡ true) ⊎ (xs ≡ [])) × Progress x xs

abbrev pub last : RunState → List RunState → RunState
last s [] = s
last s (x ∷ xs) = last x xs

pub init_running :
    (request message : String) {s : RunState}
    → init request message ≡ ok s
    → is_running s.status ≡ true
unfolding init
init_running request message h = ground arith

abbrev FailsRun : RunState → Stream → Type 0
FailsRun s r =
    (t : RunState) × (r ≡ record { yielded = t ∷ []; ending = returned })
    × (is_running t.status ≡ false)
    × (t ≢ s)

fail_with_lem :
    (now : ℕ) (code : String) (s : RunState)
    → is_running s.status ≡ true
    → str_eq code "" ≡ false
    → FailsRun s (fail_with now code s)
unfolding fail_execution
fail_with_lem now code s h c = (
  (fail_execution now code safe_failure_message none s).1,
  ground arith,
  ground arith,
  λ e. ground (arith, ap (λ (u : RunState). u.status) e),
)

-- An early return leaves the state alone.
for_attempt-false :
    (id : Option String) (act : String → Action) (s : RunState)
    → (for_attempt id act s).0 ≡ ok false
    → (for_attempt id act s).1 ≡ s
unfolding for_attempt
for_attempt-false id act s h = ground arith

dispatch-false :
    (now : ℕ) (e : AgentEvent) (s : RunState)
    → (dispatch now e s).0 ≡ ok false
    → (dispatch now e s).1 ≡ s
unfolding dispatch
dispatch-false now (text_delta id text) s h = for_attempt-false id _ s h
dispatch-false now (agent_completed id text) s h = for_attempt-false id _ s h
dispatch-false now (agent_started t) s h = ground arith
dispatch-false now other s h = ground arith
dispatch-false now e s h = ground arith

apply_true :
    (now : ℕ) (e : AgentEvent) (s : RunState)
    → (apply_runtime_event now e s).0 ≡ ok true
    → (apply_runtime_event now e s).1 ≢ s
unfolding apply_runtime_event changed
apply_true now e s h p = ground arith

apply_false :
    (now : ℕ) (e : AgentEvent) (s : RunState)
    → (apply_runtime_event now e s).0 ≡ ok false
    → (apply_runtime_event now e s).1 ≡ s
unfolding apply_runtime_event changed
apply_false now e s h = ground (arith, dispatch-false now e s)

loop-Progress :
    (now : ℕ) (items : List Item) (s : RunState)
    → is_running s.status ≡ true
    → Progress s (loop now items s).yielded
unfolding loop
loop-Progress now [] s h =
    let f = fail_with_lem now "agent_stream_incomplete" s h refl in ground arith
loop-Progress now (raises ∷ items) s h =
    let f = fail_with_lem now "agent_runtime_error" s h refl in ground arith
loop-Progress now (cancels ∷ items) s h = tt
loop-Progress now (event e ∷ items) s h = ground (
  arith,
  apply_true now e s,
  apply_false now e s,
  loop-Progress now items (apply_runtime_event now e s).1,
)

loop_ended :
    (now : ℕ) (items : List Item) (s : RunState)
    → is_running s.status ≡ true
    → (loop now items s).ending ≡ returned
    → is_running (last s (loop now items s).yielded).status ≡ false
unfolding loop
loop_ended now [] s h r =
    let f = fail_with_lem now "agent_stream_incomplete" s h refl in ground arith
loop_ended now (raises ∷ items) s h r =
    let f = fail_with_lem now "agent_runtime_error" s h refl in ground arith
loop_ended now (cancels ∷ items) s h r = ground arith
loop_ended now (event e ∷ items) s h r = ground (
  arith,
  apply_true now e s,
  apply_false now e s,
  loop_ended now items (apply_runtime_event now e s).1,
)

-- The snapshots after the first: each differs from the one before, and only the last has ended.
abbrev pub Stepwise : List RunState → Type 0
Stepwise [] = Unit
Stepwise (s ∷ xs) = Progress s xs

-- Every stream of run states goes on step by step: each snapshot after the first differs from the
-- one before it, and no snapshot follows one of a run that has ended.
pub iter_runtime_states-Stepwise :
    (now : ℕ) (request message : String) (items : List Item) {r : Stream}
    → iter_runtime_states now request message items ≡ ok r
    → Stepwise r.yielded
unfolding iter_runtime_states
iter_runtime_states-Stepwise now request message items h =
    elim (Outcome-cases (init request message)) [
      | inl (s, e) ↦ ground (arith, loop-Progress now items s (init_running request message e))
      | inr (x, e) ↦ ground arith
    ]

abbrev pub last_of : List RunState → Option RunState
last_of [] = none
last_of (s ∷ xs) = some (last s xs)

abbrev pub has_ended : Option RunState → Bool
has_ended none = false
has_ended (some s) = not (is_running s.status)

-- A generator that returns has yielded a snapshot, and the last one is of a run that has ended,
-- also where the event stream stops early or raises.
pub iter_runtime_states_ended :
    (now : ℕ) (request message : String) (items : List Item) {r : Stream}
    → iter_runtime_states now request message items ≡ ok r
    → r.ending ≡ returned
    → has_ended (last_of r.yielded) ≡ true
unfolding iter_runtime_states
iter_runtime_states_ended now request message items h q =
    elim (Outcome-cases (init request message)) [
      | inl (s, e) ↦ ground (arith, loop_ended now items s (init_running request message e))
      | inr (x, e) ↦ ground arith
    ]
