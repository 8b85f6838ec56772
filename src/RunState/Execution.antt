-- ===== src/RunState/Execution.antt =====
-- The methods of `ProductRunStateProjector` for the execution stage. A method that takes an optional
-- timestamp also takes `now`, the value that `datetime.now` would have.
use dota_mind.Prelude.{
  ℕ, ◌-◌, Bool, false, not, ◌||◌, String, str_eq, chars, take_chars, is_blank, Option, none, some,
  is_some, List, [], ◌∷◌, any, Outcome, ok, err, ltb, if◌then◌else◌,
}
use dota_mind.Prelude.Int.{ℤ, is_negative}
use dota_mind.Prelude.Method.{Method, pure, raise, modify, lift, ◌>>=◌, ◌>>◌}
use dota_mind.Prelude.Decimal.{repr}
use dota_mind.RunState.Model.{
  RunStage, ToolStatus, Timestamp, aware, naive, ExecutionTiming, ActivityItem, RunState, RunError,
  value_error, validation_error,
}
use dota_mind.RunState.Fields.{
  max_commentary_code_points, is_running, is_execution, same_stage, min_lengths, min_length_opt,
  append_activity,
}
use Prim.Native.String.{◌++◌ as append_text}

abbrev pub Action : Type 0
Action = Method RunError RunState (Unit {0})

-- `_as_utc`.
abbrev pub as_utc : Timestamp → Outcome RunError ℕ
as_utc (aware t) = ok t
as_utc naive = err value_error

abbrev pub timestamp_or : ℕ → Option Timestamp → Timestamp
timestamp_or now none = aware now
timestamp_or now (some t) = t

abbrev finish_timing : ℕ → Option Timestamp → Option ExecutionTiming → Action
finish_timing now timestamp none = pure tt
finish_timing now timestamp (some timing) = if is_some timing.finished_at then pure tt else (do
  finished ← lift (as_utc (timestamp_or now timestamp))
  modify λ s. record s {
    execution_timing = some (record timing {
      finished_at = some finished;
      duration = some (finished - timing.started_at);
    });
  })

unfoldable pub finish_execution : ℕ → Option Timestamp → Action
finish_execution now timestamp s = finish_timing now timestamp s.execution_timing s

unfoldable pub start_execution : Timestamp → Action
start_execution started s =
    if not (is_running s.status) || is_some s.execution_timing then (ok tt, s) else begin started s
  where
    begin : Timestamp → Action
    begin naive = raise validation_error
    begin (aware t) = modify λ s. record s {
      execution_timing = some (record { started_at = t; finished_at = none; duration = none });
    }

abbrev is_commentary : String → ActivityItem → Bool
is_commentary i (ActivityItem.commentary j text truncated) = str_eq j i
is_commentary i (ActivityItem.stage j at) = false
is_commentary i (ActivityItem.tool j name status duration error) = false

abbrev is_tool : String → ActivityItem → Bool
is_tool i (ActivityItem.tool j name status duration error) = str_eq j i
is_tool i (ActivityItem.stage j at) = false
is_tool i (ActivityItem.commentary j text truncated) = false

unfoldable pub add_commentary : ℕ → String → Action
unfolding append_activity repr is_blank
add_commentary step text s =
    if not (is_running s.status) || not (is_execution s.stage) || is_blank text
    then (ok tt, s)
    else (let id = append_text "commentary:" (repr step) in
        if any (is_commentary id) s.activity then (ok tt, s) else (
          ok tt,
          append_activity
              (ActivityItem.commentary id (take_chars max_commentary_code_points text)
                (ltb max_commentary_code_points (chars text)))
              s,
        ))

unfoldable pub enter_stage : ℕ → RunStage → Option Timestamp → Action
unfolding append_activity finish_execution
enter_stage now stage timestamp s =
    if not (is_running s.status)
    then (ok tt, s)
    else if same_stage stage s.stage
    then (ok tt, s)
    else if not (is_execution s.stage)
    then (err value_error, s)
    else (do
      finish_execution now timestamp
      modify λ s'.
          append_activity (ActivityItem.stage "stage:answer" RunStage.answer)
            (record s' { stage = RunStage.answer }))
        s

unfoldable pub tool_started : String → String → Action
unfolding append_activity
tool_started id name s =
    if not (is_running s.status) || not (is_execution s.stage)
    then (ok tt, s)
    else (do
      lift (min_lengths id name)
      λ s'.
          if any (is_tool id) s'.activity
          then (ok tt, s')
          else (ok tt, append_activity (ActivityItem.tool id name ToolStatus.running none none) s'))
        s

abbrev pub finished_status : Option String → ToolStatus
finished_status none = ToolStatus.completed
finished_status (some code) = ToolStatus.failed

-- The loop body of `tool_finished` at the matching activity.
abbrev pub finish_one :
    Option ℤ
    → Option String
    → String
    → String
    → ToolStatus
    → Option ℤ
    → Option String
    → Outcome RunError ActivityItem
finish_one d code i name ToolStatus.running d0 e0 =
    finished_item (min_lengths i name) (min_length_opt code)
  where
    finished_item :
        Outcome RunError (Unit {0}) → Outcome RunError (Unit {0}) → Outcome RunError ActivityItem
    finished_item (err e) _ = err e
    finished_item (ok _) (err e) = err e
    finished_item (ok _) (ok _) = ok (ActivityItem.tool i name (finished_status code) d code)
finish_one d code i name status d0 e0 = ok (ActivityItem.tool i name status d0 e0)

abbrev pub push :
    ActivityItem → Outcome RunError (List ActivityItem) → Outcome RunError (List ActivityItem)
push x (ok xs) = ok (x ∷ xs)
push x (err e) = err e

abbrev pub replace_head :
    Outcome RunError ActivityItem → List ActivityItem → Outcome RunError (List ActivityItem)
replace_head (ok x) xs = ok (x ∷ xs)
replace_head (err e) xs = err e

-- The loop of `tool_finished`: the first activity of that tool call is replaced, or left alone
-- where it has finished already.
unfoldable pub finish_activity :
    String → Option ℤ → Option String → List ActivityItem → Outcome RunError (List ActivityItem)
finish_activity id d code [] = ok []
finish_activity id d code (ActivityItem.tool i name status d0 e0 ∷ xs) =
    if str_eq i id
    then replace_head (finish_one d code i name status d0 e0) xs
    else push (ActivityItem.tool i name status d0 e0) (finish_activity id d code xs)
finish_activity id d code (ActivityItem.stage i at ∷ xs) =
    push (ActivityItem.stage i at) (finish_activity id d code xs)
finish_activity id d code (ActivityItem.commentary i text truncated ∷ xs) =
    push (ActivityItem.commentary i text truncated) (finish_activity id d code xs)

abbrev pub negative_duration : Option ℤ → Bool
negative_duration none = false
negative_duration (some d) = is_negative d

unfoldable pub tool_finished : String → Option ℤ → Option String → Action
unfolding finish_activity
tool_finished id d code s =
    if negative_duration d
    then (err value_error, s)
    else if not (is_running s.status)
    then (ok tt, s)
    else (do
      activity ← lift (finish_activity id d code s.activity)
      modify λ s'. record s' { activity = activity })
        s
