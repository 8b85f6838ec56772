-- ===== src/Compaction/Tests.antt =====
-- The theorems on compaction ranges at a concrete history.
use dota_mind.Prelude.{is_blank, err, ◌≡◌, refl, none, some, List, [], ◌∷◌, ok, take, drop}
use dota_mind.Json.{str, serialized_size, text_size, int_size}
use dota_mind.Protocol.{Message, ResultStatus, ToolResultMessage}
use dota_mind.Compaction.Bytes.{message_bytes}
use dota_mind.Compaction.Groups.{
  MessageGroup, make_group, take_results, take_batch, next_group, groups_from, group_history,
}
use dota_mind.Compaction.Select.{
  HistoryCompactionRange, CompactionPreparation, flatten, extend_retained, select_groups,
  select_compaction_range,
}
use dota_mind.Compaction.Requests.{
  empty_compaction_history, summary_output_truncated, build_history_compaction_request,
  validate_compaction_response,
}
use dota_mind.Compaction.Cover.{AllWhole, group_history-cover}
use dota_mind.Compaction.Loop.{Ends, group_history-Ends}
use dota_mind.Compaction.Range.{Selected, select_compaction_range-Selected}

abbrev result : ToolResultMessage
result = record {
  tool_call_id = "1";
  content = str "r";
  status = ResultStatus.ok;
  error = none;
  executed = none;
}

abbrev batch : List Message
batch =
    Message.assistant none (record { id = "1"; name = "f"; arguments = str "x" } ∷ [])
    ∷ Message.tool result
    ∷ []

-- A turn with a batch of one call, and a second turn.
abbrev history : List Message
history =
    Message.user "a"
    ∷ Message.assistant none (record { id = "1"; name = "f"; arguments = str "x" } ∷ [])
    ∷ Message.tool result
    ∷ Message.final "b"
    ∷ Message.user "c"
    ∷ Message.final "d"
    ∷ []

abbrev history_groups : List MessageGroup
history_groups =
    make_group 4 (Message.user "a" ∷ [])
    ∷ make_group 4 batch
    ∷ make_group 4 (Message.final "b" ∷ [])
    ∷ make_group 4 (Message.user "c" ∷ [])
    ∷ make_group 4 (Message.final "d" ∷ [])
    ∷ []

grouped : group_history 4 history ≡ ok history_groups
unfolding group_history groups_from next_group take_batch take_results
grouped = refl

group_history-cover_example : (flatten history_groups ≡ history) × AllWhole history_groups
group_history-cover_example = group_history-cover 4 history grouped

group_history-Ends_example : Ends 4 history (group_history 4 history)
group_history-Ends_example = group_history-Ends 4 history

-- With a budget of one token the newest message stays.
abbrev selection : HistoryCompactionRange
selection = record {
  cut_index = 5;
  prefix_messages = take 5 history;
  retained_messages = drop 5 history;
  retained_bytes = 30;
  retained_estimated_tokens = 8;
}

selected : select_compaction_range history 1 4 ≡ ok (some selection)
unfolding select_compaction_range select_groups extend_retained group_history groups_from next_group
    take_batch take_results make_group message_bytes serialized_size text_size int_size
selected = refl

select_compaction_range-Selected_example : Selected history 4 1 selection
select_compaction_range-Selected_example = select_compaction_range-Selected history 1 4 selected

-- The second turn is split: its user message is in the cut turn.
abbrev split_turn : CompactionPreparation
split_turn = record {
  cut_index = 5;
  history_messages = take 4 history;
  turn_prefix_messages = Message.user "c" ∷ [];
  retained_messages = drop 5 history;
  split_turn_start_index = some 4;
  retained_estimated_tokens = 8;
}

-- A summary that the length limit cut off is refused, before its text is looked at.
truncated :
    validate_compaction_response
      (record { message = Message.final "a summary"; finish_reason = some "length" })
    ≡ err summary_output_truncated
unfolding validate_compaction_response is_blank
truncated = refl

confirmed :
    validate_compaction_response
      (record { message = Message.final "a summary"; finish_reason = some "stop" })
    ≡ ok "a summary"
unfolding validate_compaction_response is_blank
confirmed = refl

-- An empty history has nothing to summarize.
nothing_to_summarize :
    build_history_compaction_request "instruction" none [] 100 ≡ err empty_compaction_history
unfolding build_history_compaction_request
nothing_to_summarize = refl
