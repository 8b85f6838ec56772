-- ===== src/RunState/Invariant.antt =====
-- Which run states the projector can reach.
use Prim.Native.String.{◌++◌ as append_text}
use Prim.Native.String.append
use dota_mind.Prelude.{
  ℕ, ◌≤◌, ◌≡◌, refl, ◌≢◌, Bool, true, false, String, eq_iff, Option, none, some, List, [], ◌∷◌,
  length, length-append, length-drop, ◌++◌, ◌-◌, Outcome, ok, err, arith,
}
use dota_mind.Prelude.Int.{ℤ}
use dota_mind.RunState.Model.{
  RunStatus, RunStage, RunError, AnswerStatus, AnswerKind, PersistenceStatus, ErrorScope,
  ProductRunError, ExecutionTiming, ActivityItem, Timestamp, RunState,
}
use dota_mind.RunState.Fields.{append_activity, max_activity_items}
use dota_mind.RunState.Create.{init, from_completed_answer}
use dota_mind.RunState.Execution.{
  start_execution, add_commentary, enter_stage, tool_started, finish_activity, tool_finished,
  finish_execution,
}
use dota_mind.RunState.Answer.{
  start_answer_attempt, append_answer_text, complete_answer, cancel, fail_execution,
}
use dota_mind.RunState.Persistence.{start_persistence, persistence_succeeded, persistence_failed}
use dota_mind.RunState.Calls.{
  Call, starts, comments, enters, tool_starts, tool_finishes, attempts, appends, completes, cancels,
  fails, persists, persisted, persist_fails, apply, run,
}

-- The combinations of the four statuses that a run goes through.
abbrev pub consistent : RunStatus → RunStage → AnswerStatus → PersistenceStatus → Bool
consistent RunStatus.running RunStage.execution AnswerStatus.pending PersistenceStatus.pending =
    true
consistent RunStatus.running RunStage.answer AnswerStatus.pending PersistenceStatus.pending = true
consistent RunStatus.running RunStage.answer AnswerStatus.streaming PersistenceStatus.pending = true
consistent RunStatus.completed RunStage.answer AnswerStatus.ready _ = true
consistent RunStatus.failed _ AnswerStatus.pending PersistenceStatus.pending = true
consistent RunStatus.failed RunStage.answer AnswerStatus.interrupted PersistenceStatus.pending =
    true
consistent RunStatus.cancelled _ AnswerStatus.pending PersistenceStatus.pending = true
consistent RunStatus.cancelled RunStage.answer AnswerStatus.interrupted PersistenceStatus.pending =
    true
consistent _ _ _ _ = false

-- Whose error a state carries.
abbrev pub expected_scope : RunStatus → PersistenceStatus → Option ErrorScope
expected_scope RunStatus.failed _ = some ErrorScope.execution
expected_scope RunStatus.completed PersistenceStatus.failed = some ErrorScope.persistence
expected_scope _ _ = none

abbrev pub scope_of : Option ProductRunError → Option ErrorScope
scope_of none = none
scope_of (some e) = some e.scope

-- What the status of an answer says of its text.
abbrev pub TextFits : AnswerStatus → String → Type 0
TextFits AnswerStatus.pending t = t ≡ ""
TextFits AnswerStatus.streaming t = t ≢ ""
TextFits AnswerStatus.interrupted t = t ≢ ""
TextFits AnswerStatus.ready t = Unit

-- There is no answer attempt before the answer stage.
abbrev pub AttemptFits : RunStage → Option String → Type 0
AttemptFits RunStage.execution a = a ≡ none
AttemptFits RunStage.answer a = Unit

-- The end and the duration of an execution are set together.
abbrev pub paired : Option ExecutionTiming → Bool
paired none = true
paired (some t) = both t.finished_at t.duration
  where
    both : Option ℕ → Option ℕ → Bool
    both none none = true
    both (some _) (some _) = true
    both _ _ = false

pub record IsValid (s : RunState) : Type 0 where
  pub bounded : length s.activity ≤ max_activity_items
  pub statuses : consistent s.status s.stage s.answer.status s.persistence ≡ true
  pub scope : scope_of s.error ≡ expected_scope s.status s.persistence
  pub text : TextFits s.answer.status s.answer.text
  pub attempt : AttemptFits s.stage s.answer.attempt_id
  pub timed : paired s.execution_timing ≡ true

append_activity-IsValid :
    (x : ActivityItem) (s : RunState) → IsValid s → IsValid (append_activity x s)
unfolding append_activity
append_activity-IsValid x s v = ground (
  arith,
  length-append s.activity (x ∷ []),
  length-drop (length (s.activity ++ x ∷ []) - max_activity_items) (s.activity ++ x ∷ []),
)

finish_execution-IsValid :
    (now : ℕ) (t : Option Timestamp) (s : RunState)
    → IsValid s
    → IsValid (finish_execution now t s).1
unfolding finish_execution
finish_execution-IsValid now t s v = ground arith

start_execution-IsValid :
    (t : Timestamp) (s : RunState) → IsValid s → IsValid (start_execution t s).1
unfolding start_execution
start_execution-IsValid t s v = ground arith

add_commentary-IsValid :
    (step : ℕ) (text : String) (s : RunState) → IsValid s → IsValid (add_commentary step text s).1
unfolding add_commentary
add_commentary-IsValid step text s v = grind (arith, append_activity-IsValid)

enter_stage-IsValid :
    (now : ℕ) (stage : RunStage) (t : Option Timestamp) (s : RunState)
    → IsValid s
    → IsValid (enter_stage now stage t s).1
unfolding enter_stage
enter_stage-IsValid now stage t s v = ground (
  arith,
  length-append s.activity (ActivityItem.stage "stage:answer" RunStage.answer ∷ []),
  length-drop
      (length (s.activity ++ ActivityItem.stage "stage:answer" RunStage.answer ∷ [])
        - max_activity_items)
      (s.activity ++ ActivityItem.stage "stage:answer" RunStage.answer ∷ []),
)

tool_started-IsValid :
    (id name : String) (s : RunState) → IsValid s → IsValid (tool_started id name s).1
unfolding tool_started
tool_started-IsValid id name s v = grind (arith, append_activity-IsValid)

-- Finishing a tool call replaces an activity in place.
abbrev pub SameLength : List ActivityItem → Outcome RunError (List ActivityItem) → Type 0
SameLength xs (ok ys) = length ys ≡ length xs
SameLength xs (err e) = Unit

pub finish_activity-SameLength :
    (id : String) (d : Option ℤ) (code : Option String) (xs : List ActivityItem)
    → SameLength xs (finish_activity id d code xs)
unfolding finish_activity
finish_activity-SameLength id d code [] = refl
finish_activity-SameLength id d code (ActivityItem.stage i at ∷ xs) =
    ground (arith, finish_activity-SameLength id d code xs)
finish_activity-SameLength id d code (ActivityItem.tool i name status d0 e0 ∷ xs) =
    ground (arith, finish_activity-SameLength id d code xs)
finish_activity-SameLength id d code (ActivityItem.commentary i text truncated ∷ xs) =
    ground (arith, finish_activity-SameLength id d code xs)

tool_finished-IsValid :
    (id : String) (d : Option ℤ) (code : Option String) (s : RunState)
    → IsValid s
    → IsValid (tool_finished id d code s).1
unfolding tool_finished
tool_finished-IsValid id d code s v =
    ground (arith, finish_activity-SameLength id d code s.activity)

start_answer_attempt-IsValid :
    (id : String) (k : AnswerKind) (s : RunState)
    → IsValid s
    → IsValid (start_answer_attempt id k s).1
unfolding start_answer_attempt
start_answer_attempt-IsValid id k s v = ground arith

append_text-ne : (a b : String) → b ≢ "" → append_text a b ≢ ""
append_text-ne String.[] b h e = h (rw append.nil at e)
append_text-ne (String.◌∷◌ c a) b h e = cc (append.cons c a b)

append_answer_text-IsValid :
    (id text : String) (s : RunState) → IsValid s → IsValid (append_answer_text id text s).1
unfolding append_answer_text
append_answer_text-IsValid id text s v =
    ground (arith, append_text-ne s.answer.text text, eq_iff text "")

complete_answer-IsValid :
    (id text : String) (s : RunState) → IsValid s → IsValid (complete_answer id text s).1
unfolding complete_answer
complete_answer-IsValid id text s v = ground arith

cancel-IsValid :
    (now : ℕ) (t : Option Timestamp) (s : RunState) → IsValid s → IsValid (cancel now t s).1
unfolding cancel
cancel-IsValid now t s v = ground (arith, eq_iff s.answer.text "")

fail_execution-IsValid :
    (now : ℕ) (code message : String) (t : Option Timestamp) (s : RunState)
    → IsValid s
    → IsValid (fail_execution now code message t s).1
unfolding fail_execution
fail_execution-IsValid now code message t s v = ground (arith, eq_iff s.answer.text "")

start_persistence-IsValid : (s : RunState) → IsValid s → IsValid (start_persistence s).1
unfolding start_persistence
start_persistence-IsValid s v = ground arith

persistence_succeeded-IsValid : (s : RunState) → IsValid s → IsValid (persistence_succeeded s).1
unfolding persistence_succeeded
persistence_succeeded-IsValid s v = ground arith

persistence_failed-IsValid :
    (code message : String) (s : RunState)
    → IsValid s
    → IsValid (persistence_failed code message s).1
unfolding persistence_failed
persistence_failed-IsValid code message s v = ground arith

-- Every call of a method keeps the invariant, whether it returns or raises.
apply-IsValid : (now : ℕ) (c : Call) (s : RunState) → IsValid s → IsValid (apply now c s).1
unfolding apply
apply-IsValid now (starts t) s v = start_execution-IsValid t s v
apply-IsValid now (comments step text) s v = add_commentary-IsValid step text s v
apply-IsValid now (enters stage t) s v = enter_stage-IsValid now stage t s v
apply-IsValid now (tool_starts id name) s v = tool_started-IsValid id name s v
apply-IsValid now (tool_finishes id d code) s v = tool_finished-IsValid id d code s v
apply-IsValid now (attempts id kind) s v = start_answer_attempt-IsValid id kind s v
apply-IsValid now (appends id text) s v = append_answer_text-IsValid id text s v
apply-IsValid now (completes id text) s v = complete_answer-IsValid id text s v
apply-IsValid now (cancels t) s v = cancel-IsValid now t s v
apply-IsValid now (fails code message t) s v = fail_execution-IsValid now code message t s v
apply-IsValid now persists s v = start_persistence-IsValid s v
apply-IsValid now persisted s v = persistence_succeeded-IsValid s v
apply-IsValid now (persist_fails code message) s v = persistence_failed-IsValid code message s v

pub init-IsValid :
    (request message : String) {s : RunState} → init request message ≡ ok s → IsValid s
unfolding init
init-IsValid request message h = ground arith

pub from_completed_answer-IsValid :
    (request message text : String) (a : Option String) (k : Option AnswerKind) {s : RunState}
    → from_completed_answer request message text a k ≡ ok s
    → IsValid s
unfolding from_completed_answer
from_completed_answer-IsValid request message text a k h = ground arith

run-IsValid : (cs : List (ℕ × Call)) (s : RunState) → IsValid s → IsValid (run cs s)
unfolding run
run-IsValid [] s v = v
run-IsValid ((now, c) ∷ cs) s v = run-IsValid cs (apply now c s).1 (apply-IsValid now c s v)

-- A run that starts with `__init__` is well formed after any history of method calls, those that
-- raise included: at most 100 activities are kept, the four statuses are in one of the combinations
-- of `consistent`, the error has the scope that the statuses call for, the text of the answer fits
-- its status, no attempt stands before the answer stage, and the end of the execution is set
-- together with its duration.
pub run-init-IsValid :
    (request message : String) (cs : List (ℕ × Call)) {s : RunState}
    → init request message ≡ ok s
    → IsValid (run cs s)
run-init-IsValid request message cs h = run-IsValid cs _ (init-IsValid request message h)

-- A run that was restored from a completed answer is well formed in the same way after any history
-- of method calls.
pub run-from_completed_answer-IsValid :
    (request message text : String) (a : Option String) (k : Option AnswerKind)
    (cs : List (ℕ × Call)) {s : RunState}
    → from_completed_answer request message text a k ≡ ok s
    → IsValid (run cs s)
run-from_completed_answer-IsValid request message text a k cs h =
    run-IsValid cs _ (from_completed_answer-IsValid request message text a k h)
