-- ===== src/Artifacts/Read/Total.antt =====
-- When a page of a list is returned at all.
use mathlib.Core.Bool.{false≢true}
use dota_mind.Prelude.{
  ℕ, zero, suc, ◌≤◌, ◌<◌, ◌≡◌, ◌≢◌, sym, subst, ◌∙◌, inl, inr, true, List, [], take, length, is_ok,
  arith, Bool-cases,
}
use dota_mind.Json.{Value, serialized_size}
use dota_mind.Artifacts.Read.{ReadResult, dump, fits, with_items, pop_until_fits, fit_list_result}

-- A page is smallest with no items.
fits-empty :
    (m : ℕ) (r : ReadResult) (xs : List Value)
    → fits m (with_items r xs) ≡ true
    → fits m (with_items r []) ≡ true
unfolding fits dump serialized_size
fits-empty m r xs h = ground arith

pop_until_fits-ok :
    (m : ℕ) (r : ReadResult) (xs : List Value) (k n : ℕ)
    → 0 < k
    → k ≤ n
    → fits m (with_items r (take k xs)) ≡ true
    → is_ok (pop_until_fits m r xs n) ≡ true
unfolding pop_until_fits
pop_until_fits-ok m r xs k zero p le h = absurd (omega arith)
pop_until_fits-ok m r xs k (suc n) p le h =
    elim (Bool-cases (fits m (with_items r (take (suc n) xs)))) [
      | inl e ↦ ground arith
      | inr e ↦
          let shorter : k ≢ suc n =
            λ q. false≢true (sym e ∙ subst (λ j. fits m (with_items r (take j xs)) ≡ true) q h) in
          rw e (pop_until_fits-ok m r xs k n p (omega arith) h)
    ]

-- A list page is returned wherever some prefix of it that is not empty fits the budget.
pub fit_list_result-ok :
    (m : ℕ) (r : ReadResult) (xs : List Value) (k : ℕ)
    → 0 < k
    → k ≤ length xs
    → fits m (with_items r (take k xs)) ≡ true
    → is_ok (fit_list_result m r xs) ≡ true
unfolding fit_list_result
fit_list_result-ok m r xs k p le h = elim (Bool-cases (fits m r)) [
  | inl e ↦ ground arith
  | inr e ↦ rw (e, fits-empty m r (take k xs) h) (pop_until_fits-ok m r xs k (length xs) p le h)
]
