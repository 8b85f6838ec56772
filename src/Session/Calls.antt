-- ===== src/Session/Calls.antt =====
-- Any caller of a session's history: a sequence of method calls, those that raise included.
use dota_mind.Prelude.{ℕ, String, Option, List, [], ◌∷◌}
use dota_mind.Json.{Value}
use dota_mind.Protocol.{ToolCall, ToolResultMessage, Message}
use dota_mind.Artifacts.Read.{ReadResult}
use dota_mind.Session.Model.{RecordKind, History}
use dota_mind.Session.Locators.{remember_artifact_locators}
use dota_mind.Session.Requests.{
  set_effective, record_message, record_tool_results, record_delivery, begin_request,
}
use dota_mind.Session.Commit.{commit_compaction}

pub data Call : Type 0 where
  begins : String → String → Option (List Message) → Call
  sets : List Message → Call
  remembers : ToolCall → ToolResultMessage → Call
  commits : String → ℕ → String → ℕ → String → ℕ → Call
  records : String → Message → RecordKind → Value → Call
  answers : String → List ToolResultMessage → Call
  delivers : String → String → Call

module _ (uuid : ℕ → String) (validate_read : Value → Option ReadResult)
    (validate_grep : Value → Option (List String)) where
  unfoldable pub apply : Call → History → History
  unfolding begin_request set_effective commit_compaction
  apply (begins id query initial) h = (begin_request uuid id query initial h).1
  apply (sets messages) h = (set_effective messages h).1
  apply (remembers call result) h =
      remember_artifact_locators validate_read validate_grep call result h
  apply (commits id base summary cut hex now) h =
      (commit_compaction id base summary cut hex now h).1
  apply (records id message kind context) h = record_message uuid id message kind context h
  apply (answers id results) h = record_tool_results uuid id results h
  apply (delivers id content) h = record_delivery uuid id content h

  unfoldable pub run : List Call → History → History
  run [] h = h
  run (call ∷ calls) h = run calls (apply call h)
