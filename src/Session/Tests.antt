-- ===== src/Session/Tests.antt =====
-- The theorems on the history of a session at concrete calls.
use dota_mind.Prelude.{
  ◌≡◌, refl, true, String, Option, none, some, is_blank, List, [], ◌∷◌, ok, is_ok, arith,
}
use dota_mind.Prelude.Decimal.{repr}
use dota_mind.Prelude.Dict.{lookup, insert}
use dota_mind.Json.{
  Value, null, bool, str, obj, end, field, dumps, serialized_size, text_size, int_size,
}
use dota_mind.Protocol.{ToolCall, ToolResultMessage, ResultStatus, Message}
use dota_mind.Artifacts.Read.{ReadResult}
use dota_mind.Compaction.{
  CompactionPreparation, message_bytes, make_group, take_results, take_batch, next_group,
  groups_from, group_history, extend_retained, select_groups, select_compaction_range, turn_start,
  prepare_compaction,
}
use dota_mind.Session.Model.{RecordKind, SessionCompactionRecord, ExecutionRecord, History}
use dota_mind.Session.Locators.{
  remember_artifact_locators, remember_refs, remember_one, artifact_refs, query_hint,
}
use dota_mind.Session.Requests.{fresh, context_snapshot}
use dota_mind.Session.Commit.{commit_compaction}
use dota_mind.Session.Calls.{
  Call, begins, sets, remembers, commits, records, answers, delivers, run,
}
use dota_mind.Session.Invariant.{IsValid}
use dota_mind.Session.Laws.{Extends, run-IsValid, run-Extends}
use dota_mind.Session.Handover.{commit_compaction-prepared}

abbrev no_read : Value → Option ReadResult
no_read content = none

abbrev no_grep : Value → Option (List String)
no_grep content = none

abbrev call : ToolCall
call = record { id = "1"; name = "player.search"; arguments = str "x" }

abbrev externalized : ToolResultMessage
externalized = record {
  tool_call_id = "1";
  content = obj (
      field "externalized" (bool true)
        (field "artifact_ref" (str "artifact:tool:00000000000000000000000000000001") end));
  status = ResultStatus.ok;
  error = none;
  executed = none;
}

-- A request on a bootstrap, a tool call, a compaction, one that is stale, and a delivery.
abbrev calls : List Call
calls =
    begins "request" "c" (some (Message.user "a" ∷ Message.final "b" ∷ []))
    ∷ records "request" (Message.assistant none (call ∷ [])) RecordKind.assistant_tool_call null
    ∷ answers "request" (externalized ∷ [])
    ∷ remembers call externalized
    ∷ commits "request" 1 "summary" 2 "00" 7
    ∷ commits "request" 1 "summary" 2 "01" 8
    ∷ sets []
    ∷ delivers "request" "d"
    ∷ []

-- The ref of the externalized result is remembered, with the first characters of the arguments.
remembered :
    (remember_artifact_locators no_read no_grep call externalized (fresh 1 8)).artifact_locators
    ≡ (
      "artifact:tool:00000000000000000000000000000001",
      record {
        ref = "artifact:tool:00000000000000000000000000000001";
        source_tool = "player.search";
        query_hint = "\"x\"";
      },
    )
      ∷ []
unfolding remember_artifact_locators remember_refs remember_one artifact_refs query_hint dumps
    lookup insert
remembered = refl

run-IsValid_example : IsValid (run repr no_read no_grep calls (fresh 1 8))
run-IsValid_example = run-IsValid repr no_read no_grep 1 8 calls

-- A session with one request on a bootstrap of one turn.
abbrev first_record : ExecutionRecord
first_record = record {
  record_id = "record:1";
  request_id = "request";
  sequence = 1;
  kind = RecordKind.user;
  message = Message.user "c";
  tool_call_ids = [];
  status = none;
  context_content = null;
}

abbrev session : History
session = record {
  records = first_record ∷ [];
  effective_messages = Message.user "a" ∷ Message.final "b" ∷ Message.user "c" ∷ [];
  request_queries = ("request", "c") ∷ [];
  sequence = 1;
  initialized = true;
  summary = none;
  revision = 1;
  current_request_id = some "request";
  current_user_index = some 2;
  compaction_records = [];
  artifact_locator_capacity = 1;
  artifact_locator_hint_chars = 8;
  artifact_locators = [];
}

session-IsValid : IsValid session
unfolding lookup
session-IsValid = record {
  counted = refl;
  numbered = (refl, tt);
  current = ("c", refl, refl);
  started = refl;
  linked = tt;
  bounded = omega arith;
}

run-Extends_example : Extends session.records (run repr no_read no_grep calls session).records
run-Extends_example = run-Extends repr no_read no_grep calls session

-- Everything is cut off but the current user message.
abbrev compaction : SessionCompactionRecord
compaction = record {
  compaction_id = "compaction:00";
  request_id = "request";
  base_revision = 1;
  cut_index = 2;
  source_message_count = 3;
  current_user_index_before = 2;
  previous_compaction_id = none;
  summary = "summary";
  created_at = 7;
}

abbrev first_turn : CompactionPreparation
first_turn = record {
  cut_index = 2;
  history_messages = Message.user "a" ∷ Message.final "b" ∷ [];
  turn_prefix_messages = [];
  retained_messages = Message.user "c" ∷ [];
  split_turn_start_index = none;
  retained_estimated_tokens = 8;
}

prepared : prepare_compaction session.effective_messages 1 4 ≡ ok (some first_turn)
unfolding prepare_compaction turn_start select_compaction_range select_groups extend_retained
    group_history groups_from next_group take_batch take_results make_group message_bytes
    serialized_size text_size int_size
prepared = refl

commit_compaction-prepared_example :
    is_ok (commit_compaction "request" 1 "summary" 2 "00" 7 session).0 ≡ true
unfolding context_snapshot is_blank
commit_compaction-prepared_example =
    commit_compaction-prepared "request" "summary" "00" 1 4 7 session session-IsValid prepared refl
      refl (λ index at before. omega arith)
