-- ===== src/Compaction/Requests.antt =====
-- The requests for the two summaries of a compaction, and the validation of their responses. The
-- two instructions are arguments; a request's step and metadata are not modelled.
use dota_mind.Prelude.{
  ℕ, ltb, Bool, true, false, String, str_eq, is_blank, Option, none, some, List, [], ◌∷◌, map,
  Outcome, ok, err, raise_if, ◌>>◌, not,
}
use dota_mind.Json.{Value, arr, obj, end, field, of_list, str_or_null, dumps}
use dota_mind.Protocol.{Message}
use dota_mind.Budget.{ModelRequest}
use dota_mind.Compaction.Bytes.{dump_message}
use dota_mind.Compaction.Groups.{HistoryError, group_history}

-- The codes of `CompactionSummaryError` that are raised here, and what `_group_history` raises.
pub data SummaryError : Type 0 where
  invalid_summary_budget empty_compaction_history : SummaryError
  invalid_summary_response summary_output_truncated : SummaryError
  summary_completion_unconfirmed empty_summary : SummaryError
  history_error : HistoryError → SummaryError

pub record ModelResponse : Type 0 where
  pub message : Message
  pub finish_reason : Option String

-- `_validate_summary_budget`.
abbrev pub validate_summary_budget : ℕ → Outcome SummaryError (Unit {0})
validate_summary_budget value = raise_if (ltb value 1) invalid_summary_budget

abbrev pub is_empty : List Message → Bool
is_empty [] = true
is_empty (m ∷ ms) = false

-- `_group_history(messages)` for its exception.
abbrev pub check_groups : List Message → Outcome SummaryError (Unit {0})
check_groups messages = elim (group_history 1 messages) [
  | ok groups ↦ ok tt
  | err e ↦ err (history_error e)
]

-- `_build_compaction_request`.
unfoldable pub build_compaction_request : String → Value → ℕ → ModelRequest
build_compaction_request instruction payload max_output_tokens = record {
  messages =
      dump_message (Message.system instruction) ∷ dump_message (Message.user (dumps payload)) ∷ [];
  tools = [];
  max_output_tokens = some max_output_tokens;
}

unfoldable pub build_history_compaction_request :
    String → Option String → List Message → ℕ → Outcome SummaryError ModelRequest
build_history_compaction_request instruction previous_summary history max_output_tokens = do
  validate_summary_budget max_output_tokens
  raise_if (is_empty history) empty_compaction_history
  check_groups history
  ok (
      build_compaction_request instruction
        (obj (
          field "previous_summary" (str_or_null previous_summary)
            (field "history" (arr (of_list (map dump_message history))) end)))
        max_output_tokens)

unfoldable pub build_turn_prefix_compaction_request :
    String → List Message → ℕ → Outcome SummaryError ModelRequest
build_turn_prefix_compaction_request instruction turn_prefix max_output_tokens = do
  validate_summary_budget max_output_tokens
  raise_if (is_empty turn_prefix) empty_compaction_history
  check_groups turn_prefix
  ok (
      build_compaction_request instruction
        (obj (field "turn_prefix" (arr (of_list (map dump_message turn_prefix))) end))
        max_output_tokens)

abbrev pub is_reason : String → Option String → Bool
is_reason text none = false
is_reason text (some reason) = str_eq reason text

-- The text of a final message whose completion has one of the finish reasons.
abbrev pub validate_final : String → Option String → Outcome SummaryError String
validate_final summary reason = do
  raise_if (is_reason "length" reason) summary_output_truncated
  raise_if (not (is_reason "stop" reason)) summary_completion_unconfirmed
  raise_if (is_blank summary) empty_summary
  ok summary

unfoldable pub validate_compaction_response : ModelResponse → Outcome SummaryError String
validate_compaction_response response = go response.message
  where
    go : Message → Outcome SummaryError String
    go (Message.final summary) = validate_final summary response.finish_reason
    go _ = err invalid_summary_response
