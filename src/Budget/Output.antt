-- ===== src/Budget/Output.antt =====
-- agent/output_budget.py.
use dota_mind.Prelude.{
  ℕ, ◌+◌, ◌-◌, ◌/◌, ltb, min, Bool, false, Option, none, some, Outcome, ok, err, ◌>>=◌,
}
use dota_mind.Budget.Limits.{
  AgentLimits, ModelRequest, BudgetError, value_error, measure_request_context_bytes,
}

pub record OutputBudget : Type 0 where
  pub expected_output_tokens : ℕ
  pub actual_output_tokens : ℕ
  pub estimated_input_tokens : ℕ
  pub remaining_output_tokens : Option ℕ
  pub clipped_by_context : Bool

-- The cap of the model and the cap of the application.
abbrev pub smaller_cap : Option ℕ → Option ℕ → Outcome BudgetError ℕ
smaller_cap none none = err value_error
smaller_cap none (some application_cap) = ok application_cap
smaller_cap (some model_cap) none = ok model_cap
smaller_cap (some model_cap) (some application_cap) = ok (min model_cap application_cap)

unfoldable pub resolve_expected_output_tokens : AgentLimits → Outcome BudgetError ℕ
resolve_expected_output_tokens limits =
    smaller_cap limits.model_max_output_tokens limits.application_max_output_tokens

-- `(context_bytes + bytes_per_token - 1) // bytes_per_token`.
abbrev pub estimate : ℕ → ℕ → ℕ
estimate bytes bytes_per_token = (bytes + bytes_per_token - 1) / bytes_per_token

abbrev clip : ℕ → ℕ → ℕ → Option ℕ → OutputBudget
clip expected input margin none = record {
  expected_output_tokens = expected;
  actual_output_tokens = expected;
  estimated_input_tokens = input;
  remaining_output_tokens = none;
  clipped_by_context = false;
}
clip expected input margin (some window) = record {
  expected_output_tokens = expected;
  actual_output_tokens = min expected (window - input - margin);
  estimated_input_tokens = input;
  remaining_output_tokens = some (window - input - margin);
  clipped_by_context = ltb (min expected (window - input - margin)) expected;
}

unfoldable pub derive_output_budget : ModelRequest → AgentLimits → Outcome BudgetError OutputBudget
unfolding resolve_expected_output_tokens
derive_output_budget request limits = do
  expected ← resolve_expected_output_tokens limits
  ok (
      clip expected
        (estimate (measure_request_context_bytes request) limits.context_estimate_bytes_per_token)
        limits.context_safety_margin_tokens limits.context_window_tokens)
