-- ===== src/Session/Locators.antt =====
-- `remember_artifact_locators`. The validation of `artifact.read` and `artifact.grep` results is an
-- argument; of a grep result only the refs of its matches are read.
use dota_mind.Prelude.{
  ltb, not, ◌&&◌, ◌||◌, Bool, true, ℕ, String, str_eq, take_chars, strip_prefix, contains, Option,
  none, some, is_some, List, [], ◌∷◌, length, drop, if◌then◌else◌,
}
use dota_mind.Prelude.Dict.{Dict, lookup, insert}
use dota_mind.Json.{Value, bool, str, obj, get, dumps}
use dota_mind.Protocol.{ToolCall, ToolResultMessage, is_ok}
use dota_mind.Artifacts.Store.{prefix, is_token}
use dota_mind.Artifacts.Read.{ReadResult}
use dota_mind.Session.Model.{ArtifactLocator, History}

-- `_is_session_artifact_ref`.
abbrev pub is_session_artifact_ref : String → Bool
is_session_artifact_ref ref = is_token (strip_prefix prefix ref)

abbrev pub only_session : String → List String
only_session ref = if is_session_artifact_ref ref then ref ∷ [] else []

-- The loop over the matches of a grep result, after the refs that were seen.
unfoldable pub distinct_refs : List String → List String → List String
distinct_refs seen [] = []
distinct_refs seen (ref ∷ refs) =
    let kept = ref ∷ distinct_refs (ref ∷ seen) refs in
    let skipped = distinct_refs seen refs in
    if is_session_artifact_ref ref && not (contains seen ref) then kept else skipped

abbrev pub externalized_ref : Option Value → Option Value → List String
externalized_ref (some (bool true)) (some (str ref)) = only_session ref
externalized_ref _ _ = []

abbrev pub refs_of_content : Value → List String
refs_of_content (obj content) =
    externalized_ref (get "externalized" content) (get "artifact_ref" content)
refs_of_content _ = []

abbrev pub refs_of_read : Option ReadResult → List String
refs_of_read none = []
refs_of_read (some r) = only_session r.ref

abbrev pub refs_of_grep : Option (List String) → List String
refs_of_grep none = []
refs_of_grep (some refs) = distinct_refs [] refs

-- `_query_hint`.
unfoldable pub query_hint : Value → ℕ → String
query_hint arguments limit = take_chars limit (dumps arguments)

-- One round of the loop over the refs: a new ref is added, and the oldest entry goes where there
-- are too many.
unfoldable pub remember_one : ℕ → ArtifactLocator → Dict ArtifactLocator → Dict ArtifactLocator
remember_one capacity locator locators =
    if is_some (lookup locator.ref locators)
    then locators
    else (let grown = insert locator.ref locator locators in
        if ltb capacity (length grown) then drop 1 grown else grown)

unfoldable pub remember_refs :
    ℕ → String → String → List String → Dict ArtifactLocator → Dict ArtifactLocator
unfolding remember_one
remember_refs capacity tool hint [] locators = locators
remember_refs capacity tool hint (ref ∷ refs) locators =
    remember_refs capacity tool hint refs
      (remember_one capacity (record { ref = ref; source_tool = tool; query_hint = hint }) locators)

module _ (validate_read : Value → Option ReadResult)
    (validate_grep : Value → Option (List String)) where
  -- `_artifact_refs`.
  unfoldable pub artifact_refs : ToolCall → ToolResultMessage → List String
  artifact_refs call result =
      if str_eq call.name "artifact.read"
      then refs_of_read (validate_read result.content)
      else if str_eq call.name "artifact.grep"
      then refs_of_grep (validate_grep result.content)
      else refs_of_content result.content

  unfoldable pub remember_artifact_locators : ToolCall → ToolResultMessage → History → History
  remember_artifact_locators call result h =
      if not (str_eq result.tool_call_id call.id) || not (is_ok result.status)
      then h
      else record h {
        artifact_locators =
            remember_refs h.artifact_locator_capacity call.name
              (query_hint call.arguments h.artifact_locator_hint_chars) (artifact_refs call result)
              h.artifact_locators;
      }
