-- ===== src/RunState/Calls.antt =====
-- Any caller of a `ProductRunStateProjector`: a history of calls, each of which may raise.
use dota_mind.Prelude.{ℕ, String, Option, List, [], ◌∷◌}
use dota_mind.Prelude.Int.{ℤ}
use dota_mind.RunState.Model.{RunStage, AnswerKind, Timestamp, RunState}
use dota_mind.RunState.Execution.{
  Action, start_execution, add_commentary, enter_stage, tool_started, tool_finished,
}
use dota_mind.RunState.Answer.{
  start_answer_attempt, append_answer_text, complete_answer, cancel, fail_execution,
}
use dota_mind.RunState.Persistence.{start_persistence, persistence_succeeded, persistence_failed}

pub data Call : Type 0 where
  starts : Timestamp → Call
  comments : ℕ → String → Call
  enters : RunStage → Option Timestamp → Call
  tool_starts : String → String → Call
  tool_finishes : String → Option ℤ → Option String → Call
  attempts : String → AnswerKind → Call
  appends : String → String → Call
  completes : String → String → Call
  cancels : Option Timestamp → Call
  fails : String → String → Option Timestamp → Call
  persists : Call
  persisted : Call
  persist_fails : String → String → Call

-- One call, at the clock reading `now`.
unfoldable pub apply : ℕ → Call → Action
apply now (starts t) = start_execution t
apply now (comments step text) = add_commentary step text
apply now (enters stage t) = enter_stage now stage t
apply now (tool_starts id name) = tool_started id name
apply now (tool_finishes id d code) = tool_finished id d code
apply now (attempts id kind) = start_answer_attempt id kind
apply now (appends id text) = append_answer_text id text
apply now (completes id text) = complete_answer id text
apply now (cancels t) = cancel now t
apply now (fails code message t) = fail_execution now code message t
apply now persists = start_persistence
apply now persisted = persistence_succeeded
apply now (persist_fails code message) = persistence_failed code message

-- A history of calls; the caller goes on after a raise.
unfoldable pub run : List (ℕ × Call) → RunState → RunState
run [] s = s
run ((now, c) ∷ cs) s = run cs (apply now c s).1
