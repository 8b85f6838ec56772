-- ===== src/Compaction/Groups.antt =====
-- `_group_history`: a transcript as complete groups, a batch of tool calls with all of its results.
use dota_mind.Prelude.{
  ℕ, zero, suc, ◌+◌, ◌-◌, ◌/◌, ◌&&◌, ◌||◌, not, Bool, true, false, String, contains, Option, some,
  List, [], ◌∷◌, map, length, Outcome, ok, err, raise_if, ◌>>=◌, ◌>>◌,
}
use dota_mind.Protocol.{ToolCall, RawToolCall, ToolResultMessage, Message, is_ok}
use dota_mind.Compaction.Bytes.{message_bytes}

-- The codes of `HistoryCompactionRangeError`.
pub data HistoryError : Type 0 where
  invalid_recent_history_budget : HistoryError
  invalid_history_structure : HistoryError
  invalid_compaction_boundary : HistoryError

pub record MessageGroup : Type 0 where
  pub messages : List Message
  pub serialized_bytes : ℕ
  pub estimated_tokens : ℕ

abbrev pub total_bytes : List Message → ℕ
total_bytes [] = 0
total_bytes (m ∷ ms) = message_bytes m + total_bytes ms

-- `_make_group`.
unfoldable pub make_group : ℕ → List Message → MessageGroup
make_group bytes_per_token messages = record {
  messages = messages;
  serialized_bytes = total_bytes messages;
  estimated_tokens = (total_bytes messages + bytes_per_token - 1) / bytes_per_token;
}

-- `len(set(ids)) == len(ids)`.
abbrev pub distinct_ids : List String → Bool
distinct_ids [] = true
distinct_ids (id ∷ ids) = not (contains ids id) && distinct_ids ids

-- `result.status != "error" or result.executed is not False` is false.
abbrev pub is_unexecuted : ToolResultMessage → Bool
is_unexecuted r = not (is_ok r.status) && not_run r.executed
  where
    not_run : Option Bool → Bool
    not_run (some false) = true
    not_run _ = false

-- One round for each call that is left: the next message has to be a result of a call of the batch
-- that has none yet. `accepts` is the further test of a rejected batch.
unfoldable pub take_results :
    (ToolResultMessage → Bool)
    → List String
    → ℕ
    → List String
    → List Message
    → Outcome HistoryError (List ToolResultMessage × List Message)
take_results accepts expected zero seen source = ok ([], source)
take_results accepts expected (suc n) seen (Message.tool r ∷ source) = do
  raise_if
      (not (contains expected r.tool_call_id) || contains seen r.tool_call_id || not (accepts r))
      invalid_history_structure
  (results, rest) ← take_results accepts expected n (r.tool_call_id ∷ seen) source
  ok (r ∷ results, rest)
take_results accepts expected (suc n) seen source = err invalid_history_structure

abbrev pub all_in : List String → List String → Bool
all_in [] ids = true
all_in (x ∷ xs) ids = contains ids x && all_in xs ids

-- `result_ids == expected`.
abbrev pub same_ids : List String → List String → Bool
same_ids a b = all_in a b && all_in b a

abbrev pub result_ids : List ToolResultMessage → List String
result_ids = map (λ r. r.tool_call_id)

-- A batch of calls, and the results that follow it.
unfoldable pub take_batch :
    (ToolResultMessage → Bool)
    → Message
    → List String
    → List Message
    → Outcome HistoryError (List Message × List Message)
take_batch accepts message call_ids source = do
  raise_if (not (distinct_ids call_ids)) invalid_history_structure
  (results, rest) ← take_results accepts call_ids (length call_ids) [] source
  raise_if (not (same_ids (result_ids results) call_ids)) invalid_history_structure
  ok (message ∷ map Message.tool results, rest)

abbrev pub call_ids : List ToolCall → List String
call_ids = map (λ call. call.id)

abbrev pub raw_call_ids : List RawToolCall → List String
raw_call_ids = map (λ call. call.id)

-- One round of the loop: the messages of the next group, and the source after it.
unfoldable pub next_group :
    Message → List Message → Outcome HistoryError (List Message × List Message)
unfolding take_batch
next_group (Message.system content) rest = err invalid_history_structure
next_group (Message.user content) rest = ok (Message.user content ∷ [], rest)
next_group (Message.final content) rest = ok (Message.final content ∷ [], rest)
next_group (Message.tool r) rest = err invalid_history_structure
next_group (Message.rejected content calls) rest =
    take_batch is_unexecuted (Message.rejected content calls) (raw_call_ids calls) rest
next_group (Message.assistant content []) rest = ok (Message.assistant content [] ∷ [], rest)
next_group (Message.assistant content (call ∷ calls)) rest =
    take_batch (λ r. true) (Message.assistant content (call ∷ calls)) (call_ids (call ∷ calls)) rest

-- The loop, with as many rounds as there can be. A source that is left after the last round would
-- be an error.
unfoldable pub groups_from : ℕ → ℕ → List Message → Outcome HistoryError (List MessageGroup)
groups_from bytes_per_token rounds [] = ok []
groups_from bytes_per_token zero (message ∷ source) = err invalid_history_structure
groups_from bytes_per_token (suc rounds) (message ∷ source) = do
  (messages, rest) ← next_group message source
  groups ← groups_from bytes_per_token rounds rest
  ok (make_group bytes_per_token messages ∷ groups)

unfoldable pub group_history : ℕ → List Message → Outcome HistoryError (List MessageGroup)
group_history bytes_per_token messages = groups_from bytes_per_token (length messages) messages
