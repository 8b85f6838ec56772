-- ===== src/RunState/Equality.antt =====
-- `==` of two snapshots.
use native.Mathlib.Decide.{ℕ_discrete}
use dota_mind.Prelude.{String, inl, inr, Bool-cases, str_eq, eq_iff}
use mathlib.Core.Bool.{false≢true}
use dota_mind.Prelude.{sym, ◌∙◌}
use dota_mind.RunState.Model.{RunState}

unfoldable pub text_discrete : Discrete String
unfolding Bool-cases
text_discrete s t = elim (Bool-cases (str_eq s t)) [
  | inl e ↦ yes ((eq_iff s t).0 e)
  | inr e ↦ no (λ p. false≢true (sym e ∙ (eq_iff s t).1 p))
]

unfoldable pub RunState-discrete : Discrete RunState
unfolding text_discrete ℕ_discrete
RunState-discrete = hlevel (text_discrete, ℕ_discrete)
