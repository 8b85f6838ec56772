-- ===== src/RunState/Create.antt =====
-- The two ways to make a `ProductRunStateProjector`.
use dota_mind.Prelude.{
  not, ◌&&◌, ◌||◌, String, Option, none, is_some, [], Outcome, ok, raise_if, ◌>>◌,
}
use dota_mind.RunState.Model.{
  RunStatus, RunStage, AnswerKind, AnswerStatus, PersistenceStatus, ActivityItem, RunState,
  RunError, value_error,
}
use dota_mind.RunState.Fields.{min_length, min_length_opt, append_activity}

-- `__init__`.
unfoldable pub init : String → String → Outcome RunError RunState
unfolding append_activity
init request_id message_id = do
  min_length message_id
  ok (
      append_activity (ActivityItem.stage "stage:execution" RunStage.execution) (record {
        request_id = request_id;
        assistant_message_id = message_id;
        status = RunStatus.running;
        stage = RunStage.execution;
        activity = [];
        omitted_activity_count = 0;
        execution_timing = none;
        answer = record {
          attempt_id = none;
          kind = none;
          text = "";
          status = AnswerStatus.pending;
        };
        persistence = PersistenceStatus.pending;
        error = none;
      }))

unfoldable pub from_completed_answer :
    String → String → String → Option String → Option AnswerKind → Outcome RunError RunState
from_completed_answer request_id message_id text attempt_id kind = do
  raise_if (is_some attempt_id && not (is_some kind) || not (is_some attempt_id) && is_some kind)
      value_error
  min_length_opt attempt_id
  min_length message_id
  ok (record {
    request_id = request_id;
    assistant_message_id = message_id;
    status = RunStatus.completed;
    stage = RunStage.answer;
    activity = [];
    omitted_activity_count = 0;
    execution_timing = none;
    answer = record {
      attempt_id = attempt_id;
      kind = kind;
      text = text;
      status = AnswerStatus.ready;
    };
    persistence = PersistenceStatus.pending;
    error = none;
  })
