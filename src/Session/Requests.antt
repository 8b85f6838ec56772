-- ===== src/Session/Requests.antt =====
-- `record`, `begin_request`, `set_effective` and the snapshot. The uuid of a record is given by its
-- number.
use Prim.Native.String.{◌++◌ as append_text}
use dota_mind.Prelude.{
  ℕ, ◌+◌, ◌-◌, ltb, not, ◌&&◌, Bool, true, false, String, str_eq, Option, none, some, is_some, List,
  [], ◌∷◌, ◌++◌, length, get_elem?, ok, err, if◌then◌else◌,
}
use dota_mind.Prelude.Dict.{Dict, lookup, insert}
use dota_mind.Prelude.Method.{Method}
use dota_mind.Json.{Value, null}
use dota_mind.Protocol.{ToolResultMessage, ResultStatus, Message}
use dota_mind.Compaction.{call_ids, raw_call_ids}
use dota_mind.Session.Model.{
  RecordKind, SessionError, idempotency_conflict, inactive_request, invalid_effective_history,
  ExecutionRecord, SessionContextSnapshot, History,
}

-- A new history; the two limits are positive.
abbrev pub fresh : ℕ → ℕ → History
fresh capacity hint_chars = record {
  records = [];
  effective_messages = [];
  request_queries = [];
  sequence = 0;
  initialized = false;
  summary = none;
  revision = 0;
  current_request_id = none;
  current_user_index = none;
  compaction_records = [];
  artifact_locator_capacity = capacity;
  artifact_locator_hint_chars = hint_chars;
  artifact_locators = [];
}

-- The tool calls that a message makes or answers.
abbrev pub tool_call_ids_of : Message → List String
tool_call_ids_of (Message.assistant content calls) = call_ids calls
tool_call_ids_of (Message.rejected content calls) = raw_call_ids calls
tool_call_ids_of (Message.tool r) = r.tool_call_id ∷ []
tool_call_ids_of _ = []

abbrev pub status_of : Message → Option ResultStatus
status_of (Message.tool r) = some r.status
status_of _ = none

-- `request_queries.get(current_request_id)`.
abbrev pub query_of : Option String → Dict String → Option String
query_of none queries = none
query_of (some id) queries = lookup id queries

-- A user message with the query as its text.
abbrev pub is_query : Option Message → Option String → Bool
is_query (some (Message.user content)) (some query) = str_eq content query
is_query _ _ = false

-- `_preserves_current_user` for the index, with the messages so far.
abbrev pub preserves_at : Option ℕ → Option String → List Message → List Message → Bool
preserves_at none query effective messages = false
preserves_at (some index) query effective messages =
    not (ltb (length messages) (length effective))
    && ltb index (length messages)
    && is_query (get_elem? messages index) query

unfoldable pub preserves_current_user : History → List Message → Bool
preserves_current_user h messages =
    preserves_at h.current_user_index (query_of h.current_request_id h.request_queries)
      h.effective_messages messages

unfoldable pub set_effective : List Message → Method SessionError History (Unit {0})
set_effective messages h =
    if (h.initialized && is_some h.current_user_index) && not (preserves_current_user h messages)
    then (err invalid_effective_history, h)
    else (ok tt, record h { effective_messages = messages; revision = h.revision + 1 })

abbrev pub user_message : Option String → Option Message
user_message none = none
user_message (some query) = some (Message.user query)

unfoldable pub context_snapshot : History → SessionContextSnapshot
context_snapshot h = record {
  revision = h.revision;
  summary = h.summary;
  messages = h.effective_messages;
  current_request_id = h.current_request_id;
  current_user_message = user_message (query_of h.current_request_id h.request_queries);
  current_user_index = h.current_user_index;
}

-- `initial_messages or []`.
abbrev pub or_empty : Option (List Message) → List Message
or_empty none = []
or_empty (some messages) = messages

-- `messages and messages[-1] == UserMessage(content=query)`.
abbrev pub ends_with_query : List Message → String → Bool
ends_with_query messages query = is_query (get_elem? messages (length messages - 1)) (some query)

-- The messages that a session starts from: the bootstrap, or those that are there.
abbrev pub base_messages : Bool → Option (List Message) → List Message → List Message
base_messages true initial effective = effective
base_messages false initial effective = or_empty initial

-- The messages of a new request. Only a bootstrap may have its query at its end.
abbrev pub begun_messages : Bool → Option (List Message) → List Message → String → List Message
begun_messages initialized initial effective query =
    if not initialized && ends_with_query (or_empty initial) query
    then base_messages initialized initial effective
    else base_messages initialized initial effective ++ Message.user query ∷ []

abbrev pub is_current : Option String → String → Bool
is_current none id = false
is_current (some current) id = str_eq id current

module _ (uuid : ℕ → String) where
  abbrev pub new_record : String → Message → RecordKind → Value → ℕ → ExecutionRecord
  new_record request_id message kind context n = record {
    record_id = append_text "record:" (uuid n);
    request_id = request_id;
    sequence = n;
    kind = kind;
    message = message;
    tool_call_ids = tool_call_ids_of message;
    status = status_of message;
    context_content = context;
  }

  -- `record`.
  unfoldable pub record_message : String → Message → RecordKind → Value → History → History
  record_message request_id message kind context h = record h {
    sequence = h.sequence + 1;
    records = h.records ++ new_record request_id message kind context (h.sequence + 1) ∷ [];
  }

  unfoldable pub record_tool_results : String → List ToolResultMessage → History → History
  record_tool_results request_id [] h = h
  record_tool_results request_id (result ∷ results) h =
      record_tool_results request_id results
        (record_message request_id (Message.tool result) RecordKind.tool_result null h)

  unfoldable pub record_delivery : String → String → History → History
  unfolding record_message
  record_delivery request_id content h =
      record_message request_id (Message.final content) RecordKind.delivery_answer null h

  -- A request whose id is new.
  unfoldable pub start_request : String → String → Option (List Message) → History → History
  unfolding record_message
  start_request request_id query initial h =
      let messages = begun_messages h.initialized initial h.effective_messages query in
      record_message request_id (Message.user query) RecordKind.user null (record h {
        effective_messages = messages;
        request_queries = insert request_id query h.request_queries;
        initialized = true;
        revision = h.revision + 1;
        current_request_id = some request_id;
        current_user_index = some (length messages - 1);
      })

  unfoldable pub begin_request :
      String → String → Option (List Message) → Method SessionError History (List Message)
  unfolding start_request
  begin_request request_id query initial h = elim (lookup request_id h.request_queries) [
    | some known ↦
        if not (str_eq known query)
        then (err idempotency_conflict, h)
        else if not (is_current h.current_request_id request_id)
        then (err inactive_request, h)
        else (ok h.effective_messages, h)
    | none ↦
        let started = start_request request_id query initial h in
        (ok started.effective_messages, started)
  ]
