-- ===== src/RuntimeProjection.antt =====
-- apps/api/app/vnext/product/runtime_projection.py, over the events of
-- apps/api/app/vnext/agent/events.py: an event stream becomes a stream of run states.
pub mod Laws
mod Tests
use dota_mind.Prelude.{
  ◌&&◌, ite, ℕ, Bool, true, false, not, String, str_eq, Option, none, some, List, [], ◌∷◌, Outcome,
  ok, err, if◌then◌else◌,
}
use dota_mind.Prelude.Int.{ℤ}
use dota_mind.Prelude.Method.{Method, pure, raise, ◌>>=◌, ◌>>◌}
use dota_mind.RunState.{
  init, RunState, RunStage, AnswerKind, Timestamp, RunError, value_error, Action, is_running,
  start_execution, add_commentary, tool_started, tool_finished, enter_stage, start_answer_attempt,
  append_answer_text, complete_answer, cancel, fail_execution,
}
use dota_mind.RunState.Equality.{RunState-discrete}

-- The events that the projection reads, with the fields that it reads. `other` stands for
-- `ModelRequested`, `ModelResponded`, `AnswerAttemptFailed` and `CompactionFailed`.
pub data AgentEvent : Type 0 where
  agent_started : Timestamp → AgentEvent
  other : AgentEvent
  execution_commentary : ℕ → String → AgentEvent
  tool_start : String → String → AgentEvent
  tool_completed : String → ℤ → AgentEvent
  tool_failed : String → ℤ → String → AgentEvent
  answer_stage_started : Timestamp → AgentEvent
  answer_attempt_started : String → AnswerKind → AgentEvent
  text_delta : Option String → String → AgentEvent
  agent_completed : Option String → String → AgentEvent
  agent_cancelled : Timestamp → AgentEvent
  agent_failed : String → Timestamp → AgentEvent

abbrev pub safe_failure_message : String
safe_failure_message = "本次回答未能完成，请重试。"

-- `_require_current_attempt`.
abbrev pub require_current_attempt :
    Option String → Option String → Outcome RunError (Option String)
require_current_attempt current none = err value_error
require_current_attempt none (some attempt) = err value_error
require_current_attempt (some current) (some attempt) =
    ok (if str_eq attempt current then some attempt else none)

-- An event of one attempt: another attempt's event makes `apply_runtime_event` return early.
pub for_attempt : Option String → (String → Action) → Method RunError RunState Bool
for_attempt id act s = elim (require_current_attempt s.answer.attempt_id id) [
  | err e ↦ (err e, s)
  | ok none ↦ (ok false, s)
  | ok (some attempt) ↦ (act attempt >> pure true) s
]

-- What `apply_runtime_event` does between its two snapshots. The answer is `false` where it
-- returns early.
pub dispatch : ℕ → AgentEvent → Method RunError RunState Bool
dispatch now (agent_started t) = start_execution t >> pure true
dispatch now other = pure true
dispatch now (execution_commentary step text) = add_commentary step text >> pure true
dispatch now (tool_start id name) = tool_started id name >> pure true
dispatch now (tool_completed id d) = tool_finished id (some d) none >> pure true
dispatch now (tool_failed id d code) = tool_finished id (some d) (some code) >> pure true
dispatch now (answer_stage_started t) = enter_stage now RunStage.answer (some t) >> pure true
dispatch now (answer_attempt_started id kind) = start_answer_attempt id kind >> pure true
dispatch now (text_delta id text) = for_attempt id (λ attempt. append_answer_text attempt text)
dispatch now (agent_completed id text) = for_attempt id (λ attempt. complete_answer attempt text)
dispatch now (agent_cancelled t) = cancel now (some t) >> pure true
dispatch now (agent_failed code t) =
    fail_execution now code safe_failure_message (some t) >> pure true

-- `snapshot() != before`.
pub changed : RunState → RunState → Bool
changed before after = ite (RunState-discrete after before) false true

-- `apply_runtime_event`: whether the product state changed.
pub apply_runtime_event : ℕ → AgentEvent → Method RunError RunState Bool
unfolding changed
apply_runtime_event now event before =
    (do applied ← dispatch now event; λ after. (ok (applied && changed before after), after)) before

-- What `anext(events)` does: yields an event, raises an exception, or is cancelled. The end of a
-- list of items is the end of the stream.
pub data Item : Type 0 where
  event : AgentEvent → Item
  raises : Item
  cancels : Item

-- How the generator ends: it returns, an exception of the projector leaves it, or a cancellation.
pub data Ending : Type 0 where
  returned : Ending
  raised : RunError → Ending
  cancelled : Ending

pub record Stream : Type 0 where
  pub yielded : List RunState
  pub ending : Ending

abbrev pub yield_first : RunState → Stream → Stream
yield_first s r = record r { yielded = s ∷ r.yielded }

-- `yield projector.snapshot()`, then return.
abbrev pub yield_last : RunState → Stream
yield_last s = record { yielded = s ∷ []; ending = returned }

-- `projector.fail_execution(code, ...)`, then yield the snapshot and return.
abbrev pub fail_with : ℕ → String → RunState → Stream
fail_with now code s =
    let (r, s') = fail_execution now code safe_failure_message none s in
    elim r [ ok _ ↦ yield_last s' | err e ↦ record { yielded = []; ending = raised e } ]

-- The `while` loop of `iter_runtime_states`.
pub loop : ℕ → List Item → RunState → Stream
loop now [] s =
    if is_running s.status
    then fail_with now "agent_stream_incomplete" s
    else record { yielded = []; ending = returned }
loop now (raises ∷ items) s = fail_with now "agent_runtime_error" s
loop now (cancels ∷ items) s = record { yielded = []; ending = cancelled }
loop now (event e ∷ items) s =
    let (r, s') = apply_runtime_event now e s in
    let rest = loop now items s' in
    elim r [
      | err error ↦ record { yielded = []; ending = raised error }
      | ok false ↦ rest
      | ok true ↦ if is_running s'.status then yield_first s' rest else yield_last s'
    ]

pub iter_runtime_states : ℕ → String → String → List Item → Outcome RunError Stream
iter_runtime_states now request message items = elim (init request message) [
  | err e ↦ err e
  | ok s ↦ ok (yield_first s (loop now items s))
]
