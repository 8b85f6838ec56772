-- ===== src/Prelude/Sort.antt =====
-- Python's `sorted`: a stable insertion sort by an order on keys.
use Prim.Native.Char.{code}
use Prim.Native.String.{String}
use mathlib.Core.Bool.{Bool, true, false}
use mathlib.Core.List.{List, [], ◌∷◌}
use dota_mind.Prelude.Tests.{◌==◌, ltb, if◌then◌else◌}

-- `s < t`, by code points.
abbrev pub text_lt : String → String → Bool
text_lt String.[] String.[] = false
text_lt String.[] (String.◌∷◌ d t) = true
text_lt (String.◌∷◌ c s) String.[] = false
text_lt (String.◌∷◌ c s) (String.◌∷◌ d t) =
    let rest = text_lt s t in
    if ltb (code c) (code d) then true else if code c == code d then rest else false

module _ {ℓ} {A : Type ℓ} (less : A → A → Bool) where
  -- In front of the first element that is greater.
  unfoldable pub insert_sorted : A → List A → List A
  insert_sorted a [] = a ∷ []
  insert_sorted a (x ∷ xs) = if less a x then a ∷ x ∷ xs else x ∷ insert_sorted a xs

  -- From the left, so that equal elements keep their order.
  unfoldable pub sort_onto : List A → List A → List A
  sort_onto sorted [] = sorted
  sort_onto sorted (x ∷ xs) = sort_onto (insert_sorted x sorted) xs
