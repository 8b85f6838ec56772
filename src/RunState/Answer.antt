-- ===== src/RunState/Answer.antt =====
-- The methods of `ProductRunStateProjector` for answers and for the end of a run.
use dota_mind.Prelude.{ℕ, not, ◌||◌, String, str_eq, Option, some, ok, err, if◌then◌else◌}
use dota_mind.Prelude.Method.{modify, lift, ◌>>◌}
use dota_mind.RunState.Model.{
  RunStatus, AnswerKind, AnswerStatus, ErrorScope, Timestamp, ProductAnswerState, value_error,
}
use dota_mind.RunState.Fields.{
  is_running, is_execution, same_kind, clear_error, is_attempt, min_length, min_lengths,
}
use dota_mind.RunState.Execution.{Action, finish_execution}
use Prim.Native.String.{◌++◌ as append_text}

unfoldable pub start_answer_attempt : String → AnswerKind → Action
start_answer_attempt attempt_id kind s =
    if not (is_running s.status) || is_execution s.stage
    then (err value_error, s)
    else (do
      lift (min_length attempt_id)
      λ s'.
          if is_attempt s'.answer.attempt_id attempt_id
          then (if same_kind s'.answer.kind kind then (ok tt, s') else (err value_error, s'))
          else (
            ok tt,
            record s' {
              answer = record {
                attempt_id = some attempt_id;
                kind = some kind;
                text = "";
                status = AnswerStatus.pending;
              };
            },
          ))
        s

unfoldable pub append_answer_text : String → String → Action
append_answer_text attempt_id text s =
    if str_eq text ""
    then (ok tt, s)
    else if not (is_running s.status) || not (is_attempt s.answer.attempt_id attempt_id)
    then (ok tt, s)
    else (
      ok tt,
      record s {
        answer = record (s.answer) {
          text = append_text s.answer.text text;
          status = AnswerStatus.streaming;
        };
      },
    )

unfoldable pub complete_answer : String → String → Action
complete_answer attempt_id text s =
    if not (is_running s.status) || not (is_attempt s.answer.attempt_id attempt_id)
    then (ok tt, s)
    else (
      ok tt,
      record s {
        status = RunStatus.completed;
        answer = record (s.answer) { text = text; status = AnswerStatus.ready };
        error = clear_error ErrorScope.execution s.error;
      },
    )

-- `if answer.text: answer.status = "interrupted"`.
abbrev interrupt : ProductAnswerState → ProductAnswerState
interrupt a = if str_eq a.text "" then a else record a { status = AnswerStatus.interrupted }

unfoldable pub cancel : ℕ → Option Timestamp → Action
unfolding finish_execution
cancel now timestamp s =
    if not (is_running s.status)
    then (ok tt, s)
    else (do
      finish_execution now timestamp
      modify λ s'. record s' { status = RunStatus.cancelled; answer = interrupt s'.answer })
        s

unfoldable pub fail_execution : ℕ → String → String → Option Timestamp → Action
unfolding finish_execution
fail_execution now code message timestamp s =
    if not (is_running s.status)
    then (ok tt, s)
    else (do
      finish_execution now timestamp
      lift (min_lengths code message)
      modify λ s'. record s' {
        status = RunStatus.failed;
        error = some (record { scope = ErrorScope.execution; code = code; message = message });
        answer = interrupt s'.answer;
      })
        s
