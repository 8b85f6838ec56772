-- ===== src/Lifecycle/Observe.antt =====
-- `collect_active_artifact_observations`. The validation of `ArtifactReadResult` by pydantic is an
-- argument; `none` is a `ValidationError`.
use dota_mind.Prelude.{
  ℕ, suc, ◌+◌, ◌||◌, not, Bool, false, String, str_eq, Option, none, some, List, [], ◌∷◌, length,
  if◌then◌else◌,
}
use dota_mind.Prelude.Dict.{Dict}
use dota_mind.Json.{Value, str, arr, obj, get, to_list}
use dota_mind.Artifacts.Read.{ReadResult}
use dota_mind.Protocol.{ToolCall, RawToolCall, ToolResultMessage, Message, is_ok, enqueue, dequeue}

pub data ObservationKind : Type 0 where
  outline list_slice value : ObservationKind

pub record ArtifactObservation : Type 0 where
  pub tool_call_id : String
  pub message_index : ℕ
  pub ref : String
  pub path : Option String
  pub value : Value
  pub offset : Option ℕ
  pub requested_limit : Option ℕ
  pub actual_start : Option ℕ
  pub actual_end : Option ℕ
  pub kind : ObservationKind

abbrev pub enqueue_calls : List ToolCall → Dict (List Bool) → Dict (List Bool)
enqueue_calls [] calls = calls
enqueue_calls (call ∷ rest) calls =
    enqueue_calls rest (enqueue call.id (str_eq call.name "artifact.read") calls)

abbrev pub enqueue_rejected : List RawToolCall → Dict (List Bool) → Dict (List Bool)
enqueue_rejected [] calls = calls
enqueue_rejected (call ∷ rest) calls = enqueue_rejected rest (enqueue call.id false calls)

-- `_artifact_read_calls`, after the calls so far.
unfoldable pub artifact_read_calls : List Message → Dict (List Bool) → Dict (List Bool)
artifact_read_calls [] calls = calls
artifact_read_calls (Message.assistant content batch ∷ messages) calls =
    artifact_read_calls messages (enqueue_calls batch calls)
artifact_read_calls (Message.rejected content batch ∷ messages) calls =
    artifact_read_calls messages (enqueue_rejected batch calls)
artifact_read_calls (message ∷ messages) calls = artifact_read_calls messages calls

-- `marker.get(key) == text` of a marker that may be missing or no dict.
abbrev pub marked : String → String → Option Value → Bool
marked key text (some (obj marker)) = go (get key marker)
  where
    go : Option Value → Bool
    go (some (str s)) = str_eq s text
    go _ = false
marked key text _ = false

-- `_is_receipt`.
abbrev pub is_receipt : Value → Bool
is_receipt (obj content) = marked "state" "receipt_only" (get "_artifact_observation" content)
is_receipt _ = false

abbrev pub start_of : Option ℕ → ℕ
start_of none = 0
start_of (some n) = n

abbrev pub observe_at :
    String → ℕ → ReadResult → ObservationKind → Option ℕ → Option ℕ → ArtifactObservation
observe_at id index r kind start stop = record {
  tool_call_id = id;
  message_index = index;
  ref = r.ref;
  path = r.path;
  value = r.value;
  offset = r.offset;
  requested_limit = r.limit;
  actual_start = start;
  actual_end = stop;
  kind = kind;
}

-- The observation of a validated result, by its path and its value.
abbrev pub observation : String → ℕ → ReadResult → ArtifactObservation
observation id index r = go r.path r.value
  where
    go : Option String → Value → ArtifactObservation
    go none v = observe_at id index r ObservationKind.outline none none
    go (some path) (arr items) =
        observe_at id index r ObservationKind.list_slice (some (start_of r.offset))
          (some (start_of r.offset + length (to_list items)))
    go (some path) v = observe_at id index r ObservationKind.value none none

abbrev pub is_read : Option Bool → Bool
is_read none = false
is_read (some b) = b

module _ (validate : Value → Option ReadResult) where
  -- The observation of one tool result, whose call was a read or not.
  abbrev pub observed : ℕ → ToolResultMessage → Bool → Option ArtifactObservation
  observed index message read =
      if not (is_ok message.status) || not read || is_receipt message.content
      then none
      else go (validate message.content)
    where
      go : Option ReadResult → Option ArtifactObservation
      go none = none
      go (some r) = some (observation message.tool_call_id index r)

  abbrev pub cons_some :
      Option ArtifactObservation → List ArtifactObservation → List ArtifactObservation
  cons_some none os = os
  cons_some (some o) os = o ∷ os

  -- The loop of `_artifact_observations` from one message on.
  unfoldable pub observations_from : ℕ → List Message → Dict (List Bool) → List ArtifactObservation
  observations_from index [] calls = []
  observations_from index (Message.tool message ∷ messages) calls =
      let (read, left) = dequeue message.tool_call_id calls in
      let rest = observations_from (suc index) messages left in
      cons_some (observed index message (is_read read)) rest
  observations_from index (message ∷ messages) calls = observations_from (suc index) messages calls

  unfoldable pub collect_active_artifact_observations : List Message → List ArtifactObservation
  collect_active_artifact_observations messages =
      observations_from 0 messages (artifact_read_calls messages [])
