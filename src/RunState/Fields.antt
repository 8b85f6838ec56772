-- ===== src/RunState/Fields.antt =====
-- Tests on the fields of `ProductRunState`, pydantic's field checks, and `_append_activity`.
use dota_mind.Prelude.{
  ℕ, ◌+◌, ◌-◌, Bool, true, false, String, str_eq, Option, none, some, ◌∷◌, [], ◌++◌, length, drop,
  Outcome, ok, err, ltb, if◌then◌else◌, ◌>>◌,
}
use dota_mind.RunState.Model.{
  RunStatus, RunStage, AnswerKind, ErrorScope, ProductRunError, ActivityItem, RunState, RunError,
  validation_error,
}

abbrev pub max_activity_items : ℕ
max_activity_items = 100

abbrev pub max_commentary_code_points : ℕ
max_commentary_code_points = 2000

abbrev pub is_running : RunStatus → Bool
is_running RunStatus.running = true
is_running _ = false

abbrev pub is_execution : RunStage → Bool
is_execution RunStage.execution = true
is_execution RunStage.answer = false

abbrev pub same_stage : RunStage → RunStage → Bool
same_stage RunStage.execution RunStage.execution = true
same_stage RunStage.answer RunStage.answer = true
same_stage _ _ = false

abbrev pub same_kind : Option AnswerKind → AnswerKind → Bool
same_kind (some AnswerKind.primary) AnswerKind.primary = true
same_kind (some AnswerKind.degraded) AnswerKind.degraded = true
same_kind (some AnswerKind.deterministic) AnswerKind.deterministic = true
same_kind _ _ = false

abbrev pub has_scope : ErrorScope → Option ProductRunError → Bool
has_scope s none = false
has_scope s (some e) = go s e.scope
  where
    go : ErrorScope → ErrorScope → Bool
    go ErrorScope.execution ErrorScope.execution = true
    go ErrorScope.persistence ErrorScope.persistence = true
    go _ _ = false

-- `answer.attempt_id == attempt_id`.
abbrev pub is_attempt : Option String → String → Bool
is_attempt none a = false
is_attempt (some b) a = str_eq b a

-- A field with `min_length=1`.
abbrev pub min_length : String → Outcome RunError (Unit {0})
min_length s = if str_eq s "" then err validation_error else ok tt

abbrev pub min_length_opt : Option String → Outcome RunError (Unit {0})
min_length_opt none = ok tt
min_length_opt (some s) = min_length s

unfoldable pub append_activity : ActivityItem → RunState → RunState
append_activity item s =
    let grown = s.activity ++ item ∷ [] in
    let excess = length grown - max_activity_items in
    if ltb 0 excess
    then record s {
      activity = drop excess grown;
      omitted_activity_count = s.omitted_activity_count + excess;
    }
    else record s { activity = grown }

-- Two fields with `min_length=1`, in the order in which they are declared.
abbrev pub min_lengths : String → String → Outcome RunError (Unit {0})
min_lengths a b = min_length a >> min_length b

-- `if error.scope == scope: error = None`.
abbrev pub clear_error : ErrorScope → Option ProductRunError → Option ProductRunError
clear_error scope e = if has_scope scope e then none else e
