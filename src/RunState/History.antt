-- ===== src/RunState/History.antt =====
-- What a history of method calls keeps and counts.
use Prim.Native.String.{◌++◌ as append_text}
use Prim.Native.String.append
use dota_mind.Prelude.{ℕ, ◌≡◌, sym, true, false, String, eq_iff, List, [], ◌∷◌, arith}
use dota_mind.RunState.Model.{RunState}
use dota_mind.RunState.Fields.{append_activity, is_running, is_attempt, is_execution}
use dota_mind.RunState.Execution.{
  start_execution, add_commentary, enter_stage, tool_started, tool_finished,
}
use dota_mind.RunState.Answer.{
  start_answer_attempt, append_answer_text, complete_answer, cancel, fail_execution,
}
use dota_mind.RunState.Persistence.{start_persistence, persistence_succeeded, persistence_failed}
use dota_mind.RunState.Calls.{Call, tool_finishes, appends, persists, apply, run}

-- What a run that has ended keeps.
pub record SameRun (s t : RunState) : Type 0 where
  pub status : t.status ≡ s.status
  pub stage : t.stage ≡ s.stage
  pub activity : t.activity ≡ s.activity
  pub omitted : t.omitted_activity_count ≡ s.omitted_activity_count
  pub timing : t.execution_timing ≡ s.execution_timing
  pub answer : t.answer ≡ s.answer

apply-SameRun :
    (now : ℕ) (c : Call) (s : RunState) → is_running s.status ≡ false → SameRun s (apply now c s).1
unfolding apply start_execution add_commentary enter_stage tool_started tool_finished
    start_answer_attempt append_answer_text complete_answer cancel fail_execution start_persistence
    persistence_succeeded persistence_failed
apply-SameRun now persists s h = ground arith
apply-SameRun now (tool_finishes id d code) s h = ground arith
apply-SameRun now c s h = ground arith

-- A run that has ended keeps its status, stage, activities, timing and answer through any later
-- history of calls: only its persistence and its error can still change.
pub run-SameRun :
    (cs : List (ℕ × Call)) (s : RunState) → is_running s.status ≡ false → SameRun s (run cs s)
unfolding run
run-SameRun [] s h = ground arith
run-SameRun ((now, c) ∷ cs) s h =
    ground (arith, apply-SameRun now c s h, run-SameRun cs (apply now c s).1)

-- The stage
apply_stage :
    (now : ℕ) (c : Call) (s : RunState)
    → is_execution s.stage ≡ false
    → is_execution (apply now c s).1.stage ≡ false
unfolding apply start_execution append_activity add_commentary enter_stage tool_started
    tool_finished start_answer_attempt append_answer_text complete_answer cancel fail_execution
    start_persistence persistence_succeeded persistence_failed
apply_stage now persists s h = ground arith
apply_stage now c s h = ground arith

-- A run in the answer stage never goes back to the execution stage.
pub run_stage :
    (cs : List (ℕ × Call)) (s : RunState)
    → is_execution s.stage ≡ false
    → is_execution (run cs s).stage ≡ false
unfolding run
run_stage [] s h = h
run_stage ((now, c) ∷ cs) s h = run_stage cs (apply now c s).1 (apply_stage now c s h)

text-append_assoc :
    (a b c : String) → append_text (append_text a b) c ≡ append_text a (append_text b c)
text-append_assoc String.[] b c = cc (append.nil b, append.nil (append_text b c))
text-append_assoc (String.◌∷◌ x a) b c = cc (
  append.cons x a b,
  append.cons x (append_text a b) c,
  append.cons x a (append_text b c),
  text-append_assoc a b c,
)

text-append-nil : (a : String) → append_text a "" ≡ a
text-append-nil String.[] = append.nil ""
text-append-nil (String.◌∷◌ x a) = cc (append.cons x a "", text-append-nil a)

abbrev pub joined : List String → String
joined [] = ""
joined (t ∷ ts) = append_text t (joined ts)

-- The text deltas of one attempt.
abbrev pub deltas : ℕ → String → List String → List (ℕ × Call)
deltas now id [] = []
deltas now id (t ∷ ts) = (now, appends id t) ∷ deltas now id ts

-- The deltas of the current attempt add up, in order and with no loss, to the answer's text.
pub run-deltas :
    (now : ℕ) (id : String) (ts : List String) (s : RunState)
    → is_running s.status ≡ true
    → is_attempt s.answer.attempt_id id ≡ true
    → (run (deltas now id ts) s).answer.text ≡ append_text s.answer.text (joined ts)
unfolding run apply append_answer_text
run-deltas now id [] s h a = sym (text-append-nil s.answer.text)
run-deltas now id (t ∷ ts) s h a = ground (
  arith,
  eq_iff t "",
  run-deltas now id ts (append_answer_text id t s).1,
  text-append_assoc s.answer.text t (joined ts),
  append.nil (joined ts),
)
