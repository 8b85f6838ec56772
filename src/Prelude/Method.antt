-- ===== src/Prelude/Method.antt =====
-- Methods that mutate an object of type `S` and may raise an `E`.
use mathlib.Core.Path.{◌≡◌}
use mathlib.Core.Logic.{inl, inr}
use native.Mathlib.Omega.{arith}
use dota_mind.Prelude.Raising.{Outcome, ok, err, Outcome-cases}

abbrev pub Method : Type 0 → Type 0 → Type 0 → Type 0
Method E S A = S → Outcome E A × S

abbrev pub pure : {E S A : Type 0} → A → Method E S A
pure a s = (ok a, s)

abbrev pub raise : {E S A : Type 0} → E → Method E S A
raise e s = (err e, s)

-- `self.field = value`.
abbrev pub modify : {E S : Type 0} → (S → S) → Method E S (Unit {0})
modify f s = (ok tt, f s)

-- A pure computation that may raise.
abbrev pub lift : {E S A : Type 0} → Outcome E A → Method E S A
lift r s = (r, s)

infixl 5 ◌>>=◌ ◌>>◌
abbrev pub ◌>>=◌ : {E S A B : Type 0} → Method E S A → (A → Method E S B) → Method E S B
◌>>=◌ m f s = let (r, s') = m s in elim r [ ok a ↦ f a s' | err e ↦ (err e, s') ]

abbrev pub ◌>>◌ : {E S A B : Type 0} → Method E S A → Method E S B → Method E S B
m >> k = m >>= λ _. k

-- Where a sequence returns, each part does.
pub >>=-ok :
    {E S A B : Type 0} (m : Method E S A) (f : A → Method E S B) (s : S) {b : B}
    → ((m >>= f) s).0 ≡ ok b
    → (a : A) × ((m s).0 ≡ ok a) × ((f a (m s).1).0 ≡ ok b)
>>=-ok m f s h = elim (Outcome-cases (m s).0) [
  | inl (a, e) ↦ (a, e, rw (◌>>=◌, e) at h)
  | inr (x, e) ↦ ground arith
]
