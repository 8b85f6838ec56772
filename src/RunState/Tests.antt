-- ===== src/RunState/Tests.antt =====
-- The theorems on run states at concrete histories.
use Prim.Native.String.{◌++◌ as append_text}
use dota_mind.Prelude.{ℕ, ◌≡◌, ◌⊎◌, refl, none, some, List, [], ◌∷◌, is_blank}
use dota_mind.Prelude.Int.{pos}
use dota_mind.Prelude.Decimal.{repr}
use dota_mind.RunState.Model.{
  RunStatus, RunStage, AnswerKind, AnswerStatus, PersistenceStatus, aware, naive, ActivityItem,
  RunState,
}
use dota_mind.RunState.Fields.{append_activity}
use dota_mind.RunState.Create.{init}
use dota_mind.RunState.Execution.{
  start_execution, add_commentary, enter_stage, tool_started, tool_finished,
}
use dota_mind.RunState.Answer.{start_answer_attempt, append_answer_text, complete_answer}
use dota_mind.RunState.Persistence.{start_persistence, persistence_failed}
use dota_mind.RunState.Calls.{
  Call, starts, comments, enters, tool_starts, tool_finishes, attempts, appends, completes, cancels,
  persists, persist_fails, apply, run,
}
use dota_mind.RunState.Invariant.{IsValid, run-init-IsValid}
use dota_mind.RunState.Recorded.{InPlace, Added, apply-Activity}
use dota_mind.RunState.History.{SameRun, run-SameRun, deltas, joined, run-deltas}

-- A run that has just begun.
abbrev begun : RunState
begun = record {
  request_id = "request";
  assistant_message_id = "message";
  status = RunStatus.running;
  stage = RunStage.execution;
  activity = ActivityItem.stage "stage:execution" RunStage.execution ∷ [];
  omitted_activity_count = 0;
  execution_timing = none;
  answer = record { attempt_id = none; kind = none; text = ""; status = AnswerStatus.pending };
  persistence = PersistenceStatus.pending;
  error = none;
}

-- A run whose answer was restored.
abbrev restored : RunState
restored = record {
  request_id = "request";
  assistant_message_id = "message";
  status = RunStatus.completed;
  stage = RunStage.answer;
  activity = [];
  omitted_activity_count = 0;
  execution_timing = none;
  answer = record { attempt_id = none; kind = none; text = "text"; status = AnswerStatus.ready };
  persistence = PersistenceStatus.pending;
  error = none;
}

-- A run in its answer stage, with a current attempt.
abbrev answering : RunState
answering = record begun {
  stage = RunStage.answer;
  answer = record {
    attempt_id = some "a1";
    kind = some AnswerKind.primary;
    text = "";
    status = AnswerStatus.pending;
  };
}

abbrev answered : List (ℕ × Call)
answered =
    (0, starts (aware 10))
    ∷ (1, comments 1 "look up the match")
    ∷ (2, tool_starts "t1" "web.search")
    ∷ (3, tool_finishes "t1" (some (pos 5)) none)
    ∷ (4, enters RunStage.answer none)
    ∷ (5, attempts "a1" AnswerKind.primary)
    ∷ (6, appends "a1" "Team ")
    ∷ (7, completes "a1" "Team A won")
    ∷ (8, persists)
    ∷ (9, persist_fails "db" "down")
    ∷ []

run-init-IsValid_example : IsValid (run answered begun)
unfolding init
run-init-IsValid_example = run-init-IsValid "request" "message" answered refl

run-SameRun_example : SameRun restored (run ((8, persists) ∷ (9, cancels none) ∷ []) restored)
run-SameRun_example = run-SameRun ((8, persists) ∷ (9, cancels none) ∷ []) restored refl

apply-Activity_example :
    InPlace begun (apply 3 (tool_starts "t1" "web.search") begun).1
    ⊎ ((x : ActivityItem) × Added x begun (apply 3 (tool_starts "t1" "web.search") begun).1)
apply-Activity_example = apply-Activity 3 (tool_starts "t1" "web.search") begun

run-deltas_example :
    (run (deltas 7 "a1" ("Team " ∷ "A" ∷ [])) answering).answer.text
    ≡ append_text "" (joined ("Team " ∷ "A" ∷ []))
run-deltas_example = run-deltas 7 "a1" ("Team " ∷ "A" ∷ []) answering refl refl

-- The history above ends with a completed run whose persistence failed.
answered_text : (run answered begun).answer.text ≡ "Team A won"
unfolding run apply append_activity is_blank repr start_execution add_commentary enter_stage
    tool_started tool_finished start_answer_attempt append_answer_text complete_answer
    start_persistence persistence_failed
answered_text = refl

-- A naive timestamp is refused.
naive_start : (apply 0 (starts naive) begun).1 ≡ begun
unfolding apply start_execution
naive_start = refl
