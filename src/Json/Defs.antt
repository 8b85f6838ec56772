-- ===== src/Json/Defs.antt =====
-- JSON values. A dict keeps the insertion order of its keys.
use dota_mind.Prelude.{
  Bool, String, str_eq, Option, none, some, List, [], ◌∷◌, ◌≡◌, refl, ap, ℕ, suc, if◌then◌else◌,
}
use dota_mind.Prelude.Int.{ℤ}

mutual
  pub data Value : Type 0 where
    null : Value
    bool : Bool → Value
    num : ℤ → Value
    str : String → Value
    obj : Fields → Value
    arr : Items → Value

  pub data Fields : Type 0 where
    end : Fields
    field : String → Value → Fields → Fields

  pub data Items : Type 0 where
    nil : Items
    cons : Value → Items → Items

-- The elements of a Python list, and back.
abbrev pub to_list : Items → List Value
to_list nil = []
to_list (cons x xs) = x ∷ to_list xs

abbrev pub of_list : List Value → Items
of_list [] = nil
of_list (x ∷ xs) = cons x (of_list xs)

pub to_list-of_list : (xs : List Value) → to_list (of_list xs) ≡ xs
to_list-of_list [] = refl
to_list-of_list (x ∷ xs) = ap (◌∷◌ x) (to_list-of_list xs)

-- `d.get(k)`.
abbrev pub get : String → Fields → Option Value
get k end = none
get k (field j v fs) = if str_eq j k then some v else get k fs

-- `d[k] = v`: in place where the key is there, at the end where it is new.
abbrev pub put : String → Value → Fields → Fields
put k v end = field k v end
put k v (field j w fs) = if str_eq j k then field j v fs else field j w (put k v fs)

-- `len(d)`.
abbrev pub count : Fields → ℕ
count end = 0
count (field k v fs) = suc (count fs)

-- A string, or `None`.
abbrev pub str_or_null : Option String → Value
str_or_null none = null
str_or_null (some s) = str s
