-- ===== src/Budget/Tests.antt =====
-- The theorems on budgets at concrete limits.
use dota_mind.Prelude.{ℕ, ◌+◌, ◌≤◌, refl, false, Option, none, some, []}
use dota_mind.Json.{serialized_size, text_size, int_size}
use dota_mind.Budget.Limits.{AgentLimits, ModelRequest, measure_request_context_bytes}
use dota_mind.Budget.Output.{OutputBudget}
use dota_mind.Budget.Capacity.{assess_request_capacity, capacity}
use dota_mind.Budget.Laws.{assess_request_capacity_normal}

abbrev limits : AgentLimits
limits = record {
  compaction_keep_recent_tokens = 20;
  compaction_reserve_tokens = 30;
  compaction_model_max_output_tokens = none;
  compaction_max_retries = 1;
  context_window_tokens = some 100;
  model_max_output_tokens = some 200;
  application_max_output_tokens = some 40;
  context_safety_margin_tokens = 10;
  context_estimate_bytes_per_token = 2;
  context_compaction_test_trigger_percent = none;
}

-- Its body takes 26 bytes.
abbrev request : ModelRequest
request = record { messages = []; tools = []; max_output_tokens = some 40 }

abbrev budget : OutputBudget
budget = record {
  expected_output_tokens = 40;
  actual_output_tokens = 40;
  estimated_input_tokens = 13;
  remaining_output_tokens = some 77;
  clipped_by_context = false;
}

assess_request_capacity_normal_example :
    (capacity request limits 100 budget).estimated_input_tokens + 30 ≤ 100
unfolding assess_request_capacity measure_request_context_bytes serialized_size text_size int_size
assess_request_capacity_normal_example =
    assess_request_capacity_normal request limits 100 (some budget)
      {c = capacity request limits 100 budget} refl refl refl refl

abbrev allowance_cap : Option ℕ
allowance_cap = some 20
