-- ===== src/Session/Model.antt =====
-- The data of session_history.py. A request id is the text of its UUID, an instant is in
-- microseconds.
use dota_mind.Prelude.{ℕ, Bool, String, Option, List}
use dota_mind.Prelude.Dict.{Dict}
use dota_mind.Json.{Value}
use dota_mind.Protocol.{ResultStatus, Message}
use dota_mind.Compaction.{HistoryError}

pub data RecordKind : Type 0 where
  user assistant_tool_call assistant_rejected execution_final tool_result delivery_answer :
      RecordKind

-- `RequestIdempotencyConflict`, the codes of `SessionCompactionError`, and what
-- `validate_compaction_cut` raises.
pub data SessionError : Type 0 where
  idempotency_conflict session_not_initialized unknown_request inactive_request : SessionError
  stale_context_revision empty_summary invalid_effective_history : SessionError
  empty_compaction_history : SessionError
  range_error : HistoryError → SessionError

pub record ExecutionRecord : Type 0 where
  pub record_id : String
  pub request_id : String
  pub sequence : ℕ
  pub kind : RecordKind
  pub message : Message
  pub tool_call_ids : List String
  pub status : Option ResultStatus
  pub context_content : Value

pub record SessionContextSnapshot : Type 0 where
  pub revision : ℕ
  pub summary : Option String
  pub messages : List Message
  pub current_request_id : Option String
  pub current_user_message : Option Message
  pub current_user_index : Option ℕ

pub record SessionCompactionRecord : Type 0 where
  pub compaction_id : String
  pub request_id : String
  pub base_revision : ℕ
  pub cut_index : ℕ
  pub source_message_count : ℕ
  pub current_user_index_before : ℕ
  pub previous_compaction_id : Option String
  pub summary : String
  pub created_at : ℕ

pub record ArtifactLocator : Type 0 where
  pub ref : String
  pub source_tool : String
  pub query_hint : String

-- The fields of `SessionExecutionHistory`.
pub record History : Type 0 where
  pub records : List ExecutionRecord
  pub effective_messages : List Message
  pub request_queries : Dict String
  pub sequence : ℕ
  pub initialized : Bool
  pub summary : Option String
  pub revision : ℕ
  pub current_request_id : Option String
  pub current_user_index : Option ℕ
  pub compaction_records : List SessionCompactionRecord
  pub artifact_locator_capacity : ℕ
  pub artifact_locator_hint_chars : ℕ
  pub artifact_locators : Dict ArtifactLocator
