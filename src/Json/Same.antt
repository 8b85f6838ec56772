-- ===== src/Json/Same.antt =====
-- Python's `==` on JSON values: dicts whatever their order, and `True == 1`.
use dota_mind.Prelude.{◌==◌, ◌&&◌, Bool, true, false, str_eq, none, some}
use dota_mind.Prelude.Int.{ℤ, pos, int_eq}
use dota_mind.Json.Defs.{
  Value, Items, Fields, null, bool, num, str, arr, obj, nil, cons, end, field, get, count,
}

abbrev pub int_of : Bool → ℤ
int_of true = pos 1
int_of false = pos 0

abbrev pub is_number : ℤ → Value → Bool
is_number n (bool b) = int_eq n (int_of b)
is_number n (num m) = int_eq n m
is_number n _ = false

unfoldable mutual
  pub same_value : Value → Value → Bool
  same_value null null = true
  same_value (bool b) w = is_number (int_of b) w
  same_value (num n) w = is_number n w
  same_value (str s) (str t) = str_eq s t
  same_value (arr xs) (arr ys) = same_items xs ys
  same_value (obj a) (obj b) = (count a == count b) && same_fields a b
  same_value _ _ = false

  pub same_items : Items → Items → Bool
  same_items nil nil = true
  same_items (cons x xs) (cons y ys) = same_value x y && same_items xs ys
  same_items _ _ = false

  -- Each field of the first has an equal one in the second.
  pub same_fields : Fields → Fields → Bool
  same_fields end b = true
  same_fields (field k v fs) b =
      elim (get k b) [ none ↦ false | some w ↦ same_value v w ] && same_fields fs b
