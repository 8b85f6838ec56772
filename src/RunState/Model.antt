-- ===== src/RunState/Model.antt =====
-- The models of product/run_state.py.
use dota_mind.Prelude.{ℕ, Bool, String, Option, List}
use dota_mind.Prelude.Int.{ℤ}

pub data RunStatus : Type 0 where
  running completed failed cancelled : RunStatus

pub data RunStage : Type 0 where
  execution answer : RunStage

pub data AnswerKind : Type 0 where
  primary degraded deterministic : AnswerKind

pub data AnswerStatus : Type 0 where
  pending streaming ready interrupted : AnswerStatus

pub data PersistenceStatus : Type 0 where
  pending saving saved failed : PersistenceStatus

pub data ErrorScope : Type 0 where
  execution persistence : ErrorScope

pub data ToolStatus : Type 0 where
  running completed failed : ToolStatus

-- A datetime, with or without a timezone.
pub data Timestamp : Type 0 where
  aware : ℕ → Timestamp
  naive : Timestamp

pub record ProductRunError : Type 0 where
  pub scope : ErrorScope
  pub code : String
  pub message : String

pub record ProductAnswerState : Type 0 where
  pub attempt_id : Option String
  pub kind : Option AnswerKind
  pub text : String
  pub status : AnswerStatus

pub record ExecutionTiming : Type 0 where
  pub started_at : ℕ
  pub finished_at : Option ℕ
  pub duration : Option ℕ

pub data ActivityItem : Type 0 where
  stage : String → RunStage → ActivityItem
  -- id, tool name, status, duration, error code
  tool : String → String → ToolStatus → Option ℤ → Option String → ActivityItem
  -- id, text, truncated
  commentary : String → String → Bool → ActivityItem

pub record RunState : Type 0 where
  pub request_id : String
  pub assistant_message_id : String
  pub status : RunStatus
  pub stage : RunStage
  pub activity : List ActivityItem
  pub omitted_activity_count : ℕ
  pub execution_timing : Option ExecutionTiming
  pub answer : ProductAnswerState
  pub persistence : PersistenceStatus
  pub error : Option ProductRunError

-- A `ValueError` of the projector, or a `ValidationError` of a model's field.
pub data RunError : Type 0 where
  value_error validation_error : RunError
