-- ===== src/Budget/Limits.antt =====
-- agent/limits.py, and the part of llm/protocol.py's `ModelRequest` that is measured. The time limits
-- of `AgentLimits` are left out.
use dota_mind.Prelude.{ℕ, leb, ltb, ◌&&◌, Bool, true, Option, none, some, List}
use dota_mind.Json.{Value, arr, obj, end, field, of_list, serialized_size}

pub record AgentLimits : Type 0 where
  pub compaction_keep_recent_tokens : ℕ
  pub compaction_reserve_tokens : ℕ
  pub compaction_model_max_output_tokens : Option ℕ
  pub compaction_max_retries : ℕ
  pub context_window_tokens : Option ℕ
  pub model_max_output_tokens : Option ℕ
  pub application_max_output_tokens : Option ℕ
  pub context_safety_margin_tokens : ℕ
  pub context_estimate_bytes_per_token : ℕ
  pub context_compaction_test_trigger_percent : Option ℕ

-- `Field(default=None, gt=0)`.
abbrev pub positive_opt : Option ℕ → Bool
positive_opt none = true
positive_opt (some n) = ltb 0 n

abbrev pub is_percent : Option ℕ → Bool
is_percent none = true
is_percent (some n) = leb 1 n && leb n 99

abbrev pub below_window : ℕ → Option ℕ → Bool
below_window n none = true
below_window n (some window) = ltb n window

-- What pydantic's fields and `_validate_context_reserve` check.
abbrev pub valid_limits : AgentLimits → Bool
valid_limits l =
    ltb 0 l.compaction_keep_recent_tokens
    && leb 2 l.compaction_reserve_tokens
    && positive_opt l.compaction_model_max_output_tokens
    && leb l.compaction_max_retries 3
    && positive_opt l.context_window_tokens
    && positive_opt l.model_max_output_tokens
    && positive_opt l.application_max_output_tokens
    && ltb 0 l.context_safety_margin_tokens
    && ltb 0 l.context_estimate_bytes_per_token
    && is_percent l.context_compaction_test_trigger_percent
    && below_window l.context_safety_margin_tokens l.context_window_tokens
    && below_window l.compaction_reserve_tokens l.context_window_tokens

-- The messages and the tools are what `model_dump(mode="json")` gives for them.
pub record ModelRequest : Type 0 where
  pub messages : List Value
  pub tools : List Value
  pub max_output_tokens : Option ℕ

-- context_accounting.py's `measure_request_context_bytes`.
unfoldable pub measure_request_context_bytes : ModelRequest → ℕ
measure_request_context_bytes request = serialized_size (
    obj (
      field "messages" (arr (of_list request.messages))
        (field "tools" (arr (of_list request.tools)) end)))

-- The exceptions of the budget modules.
pub data BudgetError : Type 0 where
  value_error : BudgetError
