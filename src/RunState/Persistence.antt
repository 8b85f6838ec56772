-- ===== src/RunState/Persistence.antt =====
-- The methods of `ProductRunStateProjector` for persistence.
use dota_mind.Prelude.{Bool, true, false, not, ◌||◌, String, some, ok, err, if◌then◌else◌}
use dota_mind.Prelude.Method.{modify, lift, ◌>>◌}
use dota_mind.RunState.Model.{RunStatus, AnswerStatus, PersistenceStatus, ErrorScope, value_error}
use dota_mind.RunState.Fields.{clear_error, min_lengths}
use dota_mind.RunState.Execution.{Action}

abbrev is_completed : RunStatus → Bool
is_completed RunStatus.completed = true
is_completed _ = false

abbrev is_ready : AnswerStatus → Bool
is_ready AnswerStatus.ready = true
is_ready _ = false

abbrev is_saving : PersistenceStatus → Bool
is_saving PersistenceStatus.saving = true
is_saving _ = false

abbrev is_saved : PersistenceStatus → Bool
is_saved PersistenceStatus.saved = true
is_saved _ = false

unfoldable pub start_persistence : Action
start_persistence s =
    if not (is_completed s.status) || not (is_ready s.answer.status)
    then (err value_error, s)
    else if is_saving s.persistence || is_saved s.persistence
    then (ok tt, s)
    else (
      ok tt,
      record s {
        persistence = PersistenceStatus.saving;
        error = clear_error ErrorScope.persistence s.error;
      },
    )

unfoldable pub persistence_succeeded : Action
persistence_succeeded s =
    if is_saved s.persistence
    then (ok tt, s)
    else if not (is_saving s.persistence)
    then (err value_error, s)
    else (
      ok tt,
      record s {
        persistence = PersistenceStatus.saved;
        error = clear_error ErrorScope.persistence s.error;
      },
    )

unfoldable pub persistence_failed : String → String → Action
persistence_failed code message s =
    if not (is_saving s.persistence)
    then (err value_error, s)
    else (do
      lift (min_lengths code message)
      modify λ s'. record s' {
        persistence = PersistenceStatus.failed;
        error = some (record { scope = ErrorScope.persistence; code = code; message = message });
      })
        s
