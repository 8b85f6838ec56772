-- ===== src/Budget/Capacity.antt =====
-- agent/context_capacity.py. A validated reserve is below the window, so the subtraction of the
-- trigger is exact.
use dota_mind.Prelude.{
  ℕ, ◌+◌, ◌-◌, ◌*◌, ◌/◌, ltb, leb, not, ◌&&◌, min, Bool, Option, none, some, Outcome, ok, ◌>>=◌,
  if◌then◌else◌,
}
use dota_mind.Budget.Limits.{AgentLimits, ModelRequest, BudgetError, measure_request_context_bytes}
use dota_mind.Budget.Output.{OutputBudget, derive_output_budget}

-- runtime_context.py.
pub data ContextPressure : Type 0 where
  normal high critical : ContextPressure

pub record RequestCapacity : Type 0 where
  pub context_bytes : ℕ
  pub estimated_input_tokens : ℕ
  pub expected_output_tokens : ℕ
  pub actual_output_tokens : ℕ
  pub remaining_output_tokens : Option ℕ
  pub clipped_by_context : Bool
  pub safety_margin_tokens : ℕ
  pub context_window_tokens : ℕ
  pub test_input_budget_tokens : ℕ
  pub compaction_reserve_tokens : ℕ
  pub production_trigger_input_tokens : ℕ
  pub test_trigger_percent : Option ℕ
  pub trigger_input_tokens : ℕ
  pub pressure : ContextPressure

-- The test trigger only ever lowers the production trigger.
abbrev pub trigger : ℕ → ℕ → Option ℕ → ℕ
trigger production test_budget none = production
trigger production test_budget (some percent) = min production ((test_budget * percent + 99) / 100)

abbrev pub pressure_of : ℕ → ℕ → OutputBudget → ℕ → ContextPressure
pressure_of window margin budget trigger_tokens =
    if not (
      ltb 0 budget.actual_output_tokens
      && leb (budget.estimated_input_tokens + budget.actual_output_tokens + margin) window)
    then ContextPressure.critical
    else if leb trigger_tokens budget.estimated_input_tokens
    then ContextPressure.high
    else ContextPressure.normal

abbrev pub capacity : ModelRequest → AgentLimits → ℕ → OutputBudget → RequestCapacity
capacity request limits window budget =
    let margin = limits.context_safety_margin_tokens in
    let test_budget = window - budget.expected_output_tokens - margin in
    let production = window - limits.compaction_reserve_tokens + 1 in
    let trigger_tokens =
      trigger production test_budget limits.context_compaction_test_trigger_percent in
    record {
      context_bytes = measure_request_context_bytes request;
      estimated_input_tokens = budget.estimated_input_tokens;
      expected_output_tokens = budget.expected_output_tokens;
      actual_output_tokens = budget.actual_output_tokens;
      remaining_output_tokens = budget.remaining_output_tokens;
      clipped_by_context = budget.clipped_by_context;
      safety_margin_tokens = margin;
      context_window_tokens = window;
      test_input_budget_tokens = test_budget;
      compaction_reserve_tokens = limits.compaction_reserve_tokens;
      production_trigger_input_tokens = production;
      test_trigger_percent = limits.context_compaction_test_trigger_percent;
      trigger_input_tokens = trigger_tokens;
      pressure = pressure_of window margin budget trigger_tokens;
    }

-- `output_budget or derive_output_budget(request, limits)`.
abbrev pub budget_or :
    Option OutputBudget → ModelRequest → AgentLimits → Outcome BudgetError OutputBudget
budget_or none request limits = derive_output_budget request limits
budget_or (some budget) request limits = ok budget

unfoldable pub assess_request_capacity :
    ModelRequest → AgentLimits → Option OutputBudget → Outcome BudgetError (Option RequestCapacity)
assess_request_capacity request limits budget = go limits.context_window_tokens
  where
    go : Option ℕ → Outcome BudgetError (Option RequestCapacity)
    go none = ok none
    go (some window) = do
      b ← budget_or budget request limits
      ok (some (capacity request limits window b))
