-- ===== src/Lifecycle/Tests.antt =====
-- The theorems on rewritten transcripts at a concrete transcript.
use dota_mind.Prelude.{ℕ, ◌≡◌, refl, inl, Option, none, some, List, [], ◌∷◌, false, String, map}
use dota_mind.Prelude.Int.{pos}
use dota_mind.Prelude.Dict.{lookup, insert}
use dota_mind.Json.{Value, num, arr, obj, end, nil, cons, same_value}
use dota_mind.Protocol.{ResultStatus, Message, enqueue, dequeue}
use dota_mind.Artifacts.Read.{ReadResult}
use dota_mind.Lifecycle.Observe.{
  ObservationKind, ArtifactObservation, artifact_read_calls, observations_from,
  collect_active_artifact_observations,
}
use dota_mind.Lifecycle.Cover.{is_exact_duplicate, is_full_superset, replacement_reason}
use dota_mind.Lifecycle.Rewrite.{Replacement, find_reason, replacements, replacements_of, rewrite}
use dota_mind.Lifecycle.Shown.{Shown, rewrite-Shown}

-- A list is a page of one artifact from its start on.
abbrev validate : Value → Option ReadResult
validate (arr items) = some (record {
  ref = "artifact:tool:00000000000000000000000000000001";
  path = some "teams";
  value = arr items;
  offset = none;
  limit = none;
  total = none;
  truncated = false;
})
validate _ = none

abbrev read_call : String → Message
read_call id =
    Message.assistant none (record { id = id; name = "artifact.read"; arguments = obj end } ∷ [])

abbrev page_of : String → Value → Message
page_of id content = Message.tool (record {
  tool_call_id = id;
  content = content;
  status = ResultStatus.ok;
  error = none;
  executed = none;
})

abbrev first_page : Value
first_page = arr (cons (num (pos 1)) (cons (num (pos 2)) nil))

abbrev longer_page : Value
longer_page = arr (cons (num (pos 1)) (cons (num (pos 2)) (cons (num (pos 3)) nil)))

-- Two reads, the second of which shows more.
abbrev transcript : List Message
transcript =
    Message.user "q"
    ∷ read_call "1"
    ∷ page_of "1" first_page
    ∷ read_call "2"
    ∷ page_of "2" longer_page
    ∷ []

abbrev first_observation : ArtifactObservation
first_observation = record {
  tool_call_id = "1";
  message_index = 2;
  ref = "artifact:tool:00000000000000000000000000000001";
  path = some "teams";
  value = first_page;
  offset = none;
  requested_limit = none;
  actual_start = some 0;
  actual_end = some 2;
  kind = ObservationKind.list_slice;
}

abbrev indices : List Replacement → List ℕ
indices = map (λ r. r.observation.message_index)

first_replaced : indices (replacements_of validate 0 transcript) ≡ 2 ∷ []
unfolding replacements find_reason replacement_reason is_exact_duplicate is_full_superset same_value
    collect_active_artifact_observations observations_from artifact_read_calls enqueue dequeue
    lookup insert
first_replaced = refl

-- In a request that starts after it, the first page stays.
none_replaced : indices (replacements_of validate 3 transcript) ≡ []
unfolding replacements find_reason replacement_reason is_exact_duplicate is_full_superset same_value
    collect_active_artifact_observations observations_from artifact_read_calls enqueue dequeue
    lookup insert
none_replaced = refl

rewrite-Shown_example :
    Shown
      (collect_active_artifact_observations validate (rewrite validate 0 transcript).messages)
      first_observation
unfolding collect_active_artifact_observations observations_from artifact_read_calls enqueue dequeue
    lookup insert
rewrite-Shown_example = rewrite-Shown validate 0 transcript first_observation (inl refl)
