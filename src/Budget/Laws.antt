-- ===== src/Budget/Laws.antt =====
-- What the budgets guarantee.
use dota_mind.Prelude.{
  ℕ, ◌+◌, ◌-◌, ◌*◌, ◌≤◌, ◌<◌, ◌≡◌, ◌↔◌, ◌⊎◌, ap, ◌∙◌, subst, inl, inr, true, Option, none, some, ok,
  arith, Outcome-cases,
}
use dota_mind.Budget.Limits.{AgentLimits, ModelRequest, valid_limits, measure_request_context_bytes}
use dota_mind.Budget.Output.{OutputBudget, derive_output_budget, estimate}
use dota_mind.Budget.Capacity.{
  ContextPressure, RequestCapacity, assess_request_capacity, capacity, trigger, pressure_of,
  budget_or,
}
use dota_mind.Budget.Compaction.{
  SummaryKind, CompactionRequestCapacity, assess_compaction_request_capacity,
  resolve_compaction_output_tokens,
}

-- The estimate is the quotient rounded up.
pub estimate_bounds :
    (bytes n : ℕ) → 0 < n → (bytes ≤ estimate bytes n * n) × (estimate bytes n * n < bytes + n)
estimate_bounds bytes n h = (grind arith, grind arith)

-- Where a window is configured, the actual output of a derived budget is not above the expected one;
-- it is zero, or input, output and margin together stay within the window; and it is the whole
-- expected output, or it fills the window exactly, or input and margin leave no room at all.
pub derive_output_budget_fits :
    (request : ModelRequest) (limits : AgentLimits) (window : ℕ) {b : OutputBudget}
    → limits.context_window_tokens ≡ some window
    → derive_output_budget request limits ≡ ok b
    → (b.actual_output_tokens ≤ b.expected_output_tokens)
      × ((b.actual_output_tokens ≡ 0)
          ⊎ (b.estimated_input_tokens + b.actual_output_tokens + limits.context_safety_margin_tokens
              ≤ window))
      × ((b.actual_output_tokens ≡ b.expected_output_tokens)
          ⊎ (b.estimated_input_tokens + b.actual_output_tokens + limits.context_safety_margin_tokens
              ≡ window)
          ⊎ (window ≤ b.estimated_input_tokens + limits.context_safety_margin_tokens))
unfolding derive_output_budget
derive_output_budget_fits request limits window w h = ground arith

-- Where a window is configured and a budget with a positive expected output can be derived, the
-- pressure that is assessed with no budget handed in is critical exactly where the input and the
-- margin already fill the window.
pub assess_request_capacity_critical :
    (request : ModelRequest) (limits : AgentLimits) (window : ℕ) {b : OutputBudget}
    {c : RequestCapacity}
    → limits.context_window_tokens ≡ some window
    → derive_output_budget request limits ≡ ok b
    → 0 < b.expected_output_tokens
    → assess_request_capacity request limits none ≡ ok (some c)
    → (c.pressure ≡ ContextPressure.critical)
      ↔ (window ≤ c.estimated_input_tokens + limits.context_safety_margin_tokens)
unfolding assess_request_capacity derive_output_budget
assess_request_capacity_critical request limits window w d p h = (ground arith, ground arith)

valid_limits_reserve :
    (limits : AgentLimits) (window : ℕ)
    → limits.context_window_tokens ≡ some window
    → valid_limits limits ≡ true
    → limits.compaction_reserve_tokens < window
valid_limits_reserve limits window w v = ground arith

trigger-le :
    (production test_budget : ℕ) (percent : Option ℕ)
    → trigger production test_budget percent ≤ production
trigger-le production test_budget none = omega arith
trigger-le production test_budget (some percent) = omega arith

pressure_of-normal :
    (window margin : ℕ) (b : OutputBudget) (t : ℕ)
    → pressure_of window margin b t ≡ ContextPressure.normal
    → b.estimated_input_tokens < t
pressure_of-normal window margin b t h = ground arith

capacity-normal :
    (request : ModelRequest) (limits : AgentLimits) (window : ℕ) (b : OutputBudget)
    → limits.compaction_reserve_tokens < window
    → (capacity request limits window b).pressure ≡ ContextPressure.normal
    → b.estimated_input_tokens + limits.compaction_reserve_tokens ≤ window
capacity-normal request limits window b r h = omega (
  arith,
  pressure_of-normal window limits.context_safety_margin_tokens b _ h,
  trigger-le (window - limits.compaction_reserve_tokens + 1)
      (window - b.expected_output_tokens - limits.context_safety_margin_tokens)
      limits.context_compaction_test_trigger_percent,
)

-- With validated limits and a configured window, normal pressure means that the input and the
-- compaction reserve fit the window, whatever budget was handed in.
pub assess_request_capacity_normal :
    (request : ModelRequest) (limits : AgentLimits) (window : ℕ) (budget : Option OutputBudget)
    {c : RequestCapacity}
    → limits.context_window_tokens ≡ some window
    → valid_limits limits ≡ true
    → assess_request_capacity request limits budget ≡ ok (some c)
    → c.pressure ≡ ContextPressure.normal
    → c.estimated_input_tokens + limits.compaction_reserve_tokens ≤ window
unfolding assess_request_capacity
assess_request_capacity_normal request limits window budget {c} w v h p =
    elim (Outcome-cases (budget_or budget request limits)) [
      | inl (b, e) ↦
          let same : capacity request limits window b ≡ c = ground arith in
          let r = valid_limits_reserve limits window w v in
          subst
            (λ (k : RequestCapacity).
              k.estimated_input_tokens + limits.compaction_reserve_tokens ≤ window)
            same
            (capacity-normal request limits window b r
              (ap (λ (k : RequestCapacity). k.pressure) same ∙ p))
      | inr (x, e) ↦ ground arith
    ]

-- A summary's output allowance is positive, below the reserve that it is taken from, and not above
-- the model's cap.
pub resolve_compaction_output_tokens_bounds :
    (kind : SummaryKind) (reserve : ℕ) (cap : Option ℕ) {tokens : ℕ}
    → resolve_compaction_output_tokens kind reserve cap ≡ ok tokens
    → (0 < tokens) × (tokens < reserve) × ((cap ≡ none) ⊎ ((c : ℕ) × (cap ≡ some c) × (tokens ≤ c)))
unfolding resolve_compaction_output_tokens
resolve_compaction_output_tokens_bounds SummaryKind.history reserve cap h = ground arith
resolve_compaction_output_tokens_bounds SummaryKind.turn_prefix reserve cap h = ground arith

-- An assessed summary request fits a window exactly where its rounded-up input, its output
-- allowance and the margin together stay within it.
pub assess_compaction_request_capacity_fits :
    (request : ModelRequest) (window margin n : ℕ) {c : CompactionRequestCapacity}
    → assess_compaction_request_capacity request (some window) margin n ≡ ok c
    → (c.fits ≡ some true)
      ↔ (estimate (measure_request_context_bytes request) n + c.max_output_tokens + margin ≤ window)
unfolding assess_compaction_request_capacity
assess_compaction_request_capacity_fits request window margin n h = (ground arith, ground arith)
