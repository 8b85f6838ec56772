-- ===== src/Homepage/Selected.antt =====
-- `_select_candidates`: the first candidate of each series, and no more than ten.
use dota_mind.Prelude.{◌≡◌, not, Bool, List, [], ◌∷◌, All, if◌then◌else◌}
use dota_mind.Prelude.Int.{ℤ, int_eq}
use dota_mind.Homepage.Model.{SeriesLifecycle, running, past}
use dota_mind.Homepage.Select.{Selected, has_id}

-- The elements that pass a test.
abbrev pub keep {ℓ} : {A : Type ℓ} → (A → Bool) → List A → List A
keep test [] = []
keep test (x ∷ xs) = let rest = keep test xs in if test x then x ∷ rest else rest

abbrev pub other_id : Selected → Selected → Bool
other_id x y = not (int_eq y.0.id x.0.id)

-- The first candidate of each series: of what comes after a candidate, those with another id.
abbrev pub firsts : List Selected → List Selected
firsts [] = []
firsts (x ∷ xs) = x ∷ keep (other_id x) (firsts xs)

abbrev unseen : List ℤ → Selected → Bool
unseen seen x = not (has_id x.0.id seen)

abbrev IsPast : Selected → Type 0
IsPast x = x.1 ≡ past

abbrev AfterOne : SeriesLifecycle → List Selected → Type 0
AfterOne running rest = Unit
AfterOne past rest = All IsPast rest

-- After a past series there are past series only.
abbrev pub RunningFirst : List Selected → Type 0
RunningFirst [] = Unit
RunningFirst (x ∷ xs) = AfterOne x.1 xs × RunningFirst xs
