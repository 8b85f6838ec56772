-- ===== src/Budget/Compaction.antt =====
-- agent/compaction_budget.py. The arguments are integers; the checks of their Python types are left
-- out.
use dota_mind.Prelude.{
  ℕ, ◌+◌, ◌*◌, ◌/◌, ltb, leb, not, min, Bool, Option, none, some, Outcome, ok, err, raise_if, ◌>>=◌,
  ◌>>◌,
}
use dota_mind.Budget.Limits.{
  ModelRequest, BudgetError, value_error, measure_request_context_bytes, positive_opt,
}
use dota_mind.Budget.Output.{estimate}

pub data SummaryKind : Type 0 where
  history turn_prefix : SummaryKind

pub record CompactionRequestCapacity : Type 0 where
  pub context_bytes : ℕ
  pub estimated_input_tokens : ℕ
  pub context_window_tokens : Option ℕ
  pub max_output_tokens : ℕ
  pub safety_margin_tokens : ℕ
  pub required_tokens : ℕ
  pub fits : Option Bool

abbrev pub positive_or_raise : Option ℕ → Outcome BudgetError ℕ
positive_or_raise none = err value_error
positive_or_raise (some n) = do raise_if (leb n 0) value_error; ok n

abbrev pub fits_window : ℕ → Option ℕ → Option Bool
fits_window required none = none
fits_window required (some window) = some (leb required window)

unfoldable pub assess_compaction_request_capacity :
    ModelRequest → Option ℕ → ℕ → ℕ → Outcome BudgetError CompactionRequestCapacity
assess_compaction_request_capacity request window margin bytes_per_token = do
  raise_if (not (positive_opt window)) value_error
  raise_if (leb margin 0) value_error
  raise_if (leb bytes_per_token 0) value_error
  output ← positive_or_raise request.max_output_tokens
  let bytes = measure_request_context_bytes request
  let required = estimate bytes bytes_per_token + output + margin
  ok (record {
    context_bytes = bytes;
    estimated_input_tokens = estimate bytes bytes_per_token;
    context_window_tokens = window;
    max_output_tokens = output;
    safety_margin_tokens = margin;
    required_tokens = required;
    fits = fits_window required window;
  })

abbrev pub derived_tokens : SummaryKind → ℕ → ℕ
derived_tokens SummaryKind.history reserve = reserve * 4 / 5
derived_tokens SummaryKind.turn_prefix reserve = reserve / 2

abbrev pub capped : ℕ → Option ℕ → ℕ
capped derived none = derived
capped derived (some cap) = min derived cap

unfoldable pub resolve_compaction_output_tokens : SummaryKind → ℕ → Option ℕ → Outcome BudgetError ℕ
resolve_compaction_output_tokens kind reserve cap = do
  raise_if (ltb reserve 2) value_error
  raise_if (not (positive_opt cap)) value_error
  ok (capped (derived_tokens kind reserve) cap)
