-- ===== src/RuntimeProjection/Tests.antt =====
-- The theorems on the runtime projection at concrete event streams.
use dota_mind.Prelude.{◌≡◌, refl, true, none, some, List, [], ◌∷◌, value_or}
use dota_mind.RunState.{
  RunState, RunStatus, RunStage, AnswerKind, AnswerStatus, PersistenceStatus, aware, init,
  append_activity, start_execution, tool_started, enter_stage, start_answer_attempt,
  append_answer_text, complete_answer, fail_execution,
}
use dota_mind.RunState.Equality.{RunState-discrete}
use dota_mind.RuntimeProjection.{
  agent_started, tool_start, answer_stage_started, answer_attempt_started, text_delta,
  agent_completed, Item, event, Stream, returned, dispatch, changed, apply_runtime_event,
  for_attempt, loop, iter_runtime_states,
}
use dota_mind.RuntimeProjection.Laws.{
  Stepwise, iter_runtime_states-Stepwise, iter_runtime_states_ended, has_ended, last_of,
}

abbrev answered : List Item
answered =
    event (agent_started (aware 10))
    ∷ event (tool_start "t1" "web.search")
    ∷ event (answer_stage_started (aware 20))
    ∷ event (answer_attempt_started "a1" AnswerKind.primary)
    ∷ event (text_delta (some "a1") "Hi")
    ∷ event (agent_completed (some "a1") "Hi.")
    ∷ []

-- The stream stops before the run has ended.
abbrev cut_short : List Item
cut_short = event (agent_started (aware 10)) ∷ event (tool_start "t1" "web.search") ∷ []

abbrev nothing : Stream
nothing = record { yielded = []; ending = returned }

abbrev states : List Item → Stream
states items = value_or nothing (iter_runtime_states 30 "request" "message" items)

iter_runtime_states-Stepwise_example : Stepwise (states answered).yielded
unfolding iter_runtime_states loop apply_runtime_event dispatch for_attempt changed
    RunState-discrete init append_activity start_execution tool_started enter_stage
    start_answer_attempt append_answer_text complete_answer
iter_runtime_states-Stepwise_example =
    iter_runtime_states-Stepwise 30 "request" "message" answered refl

iter_runtime_states_ended_example : has_ended (last_of (states cut_short).yielded) ≡ true
unfolding iter_runtime_states loop apply_runtime_event dispatch changed RunState-discrete init
    append_activity start_execution tool_started fail_execution
iter_runtime_states_ended_example =
    iter_runtime_states_ended 30 "request" "message" cut_short refl refl

abbrev cancelled_run : RunState
cancelled_run = record {
  request_id = "request";
  assistant_message_id = "message";
  status = RunStatus.cancelled;
  stage = RunStage.execution;
  activity = [];
  omitted_activity_count = 0;
  execution_timing = none;
  answer = record { attempt_id = none; kind = none; text = ""; status = AnswerStatus.pending };
  persistence = PersistenceStatus.pending;
  error = none;
}
