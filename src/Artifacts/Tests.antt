-- ===== src/Artifacts/Tests.antt =====
-- The theorems on artifacts at concrete documents.
use dota_mind.Prelude.{
  ℕ, is_ok, ◌≡◌, refl, ◌≤◌, true, false, leb, String, none, some, List, [], ◌∷◌, ok, err, arith,
  if◌then◌else◌, drop, All,
}
use dota_mind.Prelude.Dict.{lookup}
use dota_mind.Json.{Value, str, arr, obj, end, field, of_list, serialized_size, text_size, int_size}
use dota_mind.Artifacts.Errors.{response_artifact}
use dota_mind.Artifacts.Store.{SessionArtifactStore}
use dota_mind.Artifacts.Store
use dota_mind.Artifacts.Paths.{resolve_path}
use dota_mind.Artifacts.Read.{
  ReadResult, ArtifactReader, dump, fits, read, fit_list_result, with_items, pop_until_fits, page,
  whole,
}
use dota_mind.Artifacts.Read.Budget.{read_bounded, LongestPrefix, fit_list_result-LongestPrefix}
use dota_mind.Artifacts.Read.Total.{fit_list_result-ok}
use dota_mind.Artifacts.Observation.{
  build_bounded_observation, envelope, accept, trim_root, project_value, value_budget,
}
use dota_mind.Artifacts.Observation.Bounds.{build_bounded_observation-obj}
use dota_mind.Artifacts.Process.{ProcessedToolResult, process, externalize, observe}
use dota_mind.Artifacts.Process.Retention.{process_retains, process_bounded}
use dota_mind.Artifacts.Grep.{
  Stream, ArtifactGrepMatch, ArtifactGrepResult, collect, document_nodes, match_of, matching_nodes,
  find, preview, fit_matches, grep_document, dump_grep, grep_result,
}
use dota_mind.Artifacts.Grep.Keys.{DistinctKeys}
use dota_mind.Artifacts.Grep.Paging.{list_page, collect-page}
use dota_mind.Artifacts.Grep.Resume.{
  all_matches, IsPage, grep_document-IsPage, read_pages, read_pages-all_matches,
}
use dota_mind.Artifacts.Grep.Readable.{Readable, grep_document-Readable}

abbrev teams : List Value
teams = str "Team A" ∷ str "Team B" ∷ str "Team C" ∷ []

abbrev document : Value
document = obj (field "match" (obj (field "teams" (arr (of_list teams)) end)) end)

abbrev token : String
token = "0123456789abcdef0123456789abcdef"

abbrev stored_ref : String
stored_ref = "artifact:tool:0123456789abcdef0123456789abcdef"

abbrev stored : SessionArtifactStore
stored = record { documents = (stored_ref, document) ∷ []; source_tools = [] }

abbrev reader : ArtifactReader
reader = record { store = stored; manuals = none; observation_max_bytes = 300 }

abbrev second_team : ReadResult
second_team = whole stored_ref (some "match.teams.1") (str "Team B")

read_bounded_example : serialized_size (dump second_team) ≤ 300
unfolding read resolve_path Store.get Store.validate_ref lookup fits serialized_size text_size
    int_size
read_bounded_example =
    read_bounded reader stored_ref "match.teams.1" none none {r = second_team} refl

abbrev all_teams : ReadResult
all_teams = page stored_ref "match.teams" teams 0 50

fit_list_result-LongestPrefix_example :
    LongestPrefix 158 all_teams teams 3
      (with_items all_teams (Value.str "Team A" ∷ Value.str "Team B" ∷ []))
unfolding fit_list_result pop_until_fits fits serialized_size text_size int_size
fit_list_result-LongestPrefix_example = fit_list_result-LongestPrefix 158 all_teams teams refl refl

build_bounded_observation-obj_example : build_bounded_observation document stored_ref 150 ≡ (
    if leb (serialized_size (envelope stored_ref (obj end))) 150
    then ok (envelope stored_ref (project_value document "" (value_budget stored_ref 150)))
    else err response_artifact)
build_bounded_observation-obj_example =
    build_bounded_observation-obj
      (field "match" (obj (field "teams" (arr (of_list teams)) end)) end) stored_ref 150
      (omega arith)

abbrev empty : SessionArtifactStore
empty = record { documents = []; source_tools = [] }

abbrev shown : ProcessedToolResult
shown = record { content = envelope stored_ref document; artifact_ref = some stored_ref }

process_retains_example :
    Store.get (process 500 300 token document (some "team.stats") true empty).1 stored_ref
    ≡ ok document
unfolding process externalize observe Store.put serialized_size text_size int_size
process_retains_example =
    process_retains 500 300 token document (some "team.stats") true empty {r = shown} refl refl refl

abbrev projected : Value
projected = envelope stored_ref (project_value document "" (value_budget stored_ref 150))

process_bounded_example : serialized_size projected ≤ 150
unfolding process externalize observe Store.put serialized_size text_size int_size
    build_bounded_observation project_value accept trim_root
process_bounded_example =
    process_bounded 10 150 token document (some "team.stats") false empty
      {r = record { content = projected; artifact_ref = some stored_ref }} refl refl

fit_list_result-ok_example : is_ok (fit_list_result 158 all_teams teams) ≡ true
unfolding fits serialized_size text_size int_size
fit_list_result-ok_example =
    fit_list_result-ok 158 all_teams teams 2 (omega arith) (omega arith) refl

-- The names of teams with "Team" in them, one to a page.
abbrev as_written : String → String
as_written s = s

abbrev found_team : String → String → ArtifactGrepMatch
found_team path name = record { ref = "a"; path = path; preview = name; value_type = "string" }

abbrev second_page : ArtifactGrepResult
second_page = grep_result 1 1 (found_team "match.teams.1" "Team B" ∷ []) true

collect-page_example :
    collect {A = ℕ} 1 1 0 0 (Stream.yields 5 (Stream.yields 6 (Stream.yields 7 Stream.raised)))
    ≡ list_page 1 1 (5 ∷ 6 ∷ 7 ∷ []) false
collect-page_example =
    collect-page {A = ℕ} 1 1 (Stream.yields 5 (Stream.yields 6 (Stream.yields 7 Stream.raised)))

grep_document-IsPage_example :
    IsPage (all_matches as_written "a" document "Team") 1 1 500 second_page
unfolding grep_document matching_nodes match_of document_nodes find preview collect fit_matches
    dump_grep serialized_size text_size int_size
grep_document-IsPage_example =
    grep_document-IsPage as_written "a" document "Team" 1 1 500 {r = second_page} (omega arith) refl

read_pages-all_matches_example :
    found_team "match.teams.1" "Team B" ∷ found_team "match.teams.2" "Team C" ∷ []
    ≡ drop 1 (all_matches as_written "a" document "Team")
unfolding read_pages grep_document matching_nodes match_of document_nodes find preview collect
    fit_matches dump_grep serialized_size text_size int_size
read_pages-all_matches_example =
    read_pages-all_matches as_written "a" document "Team" 1 500 3 1
      {ms = found_team "match.teams.1" "Team B" ∷ found_team "match.teams.2" "Team C" ∷ []}
      (omega arith) (omega arith) refl

grep_document-Readable_example :
    All (Readable as_written "a" "Team" document) (found_team "match.teams.1" "Team B" ∷ [])
unfolding grep_document matching_nodes match_of document_nodes find preview collect fit_matches
    dump_grep serialized_size text_size int_size DistinctKeys
grep_document-Readable_example =
    grep_document-Readable as_written "a" document "Team" 1 1 500 {r = second_page}
      (refl, (refl, (tt, (tt, (tt, tt))), tt), tt) (omega arith) refl
