-- ===== src/Json/Size.antt =====
-- The number of UTF-8 bytes of `json.dumps(value, ensure_ascii=False, separators=(",", ":"))`.
-- Sorted keys do not change it.
use Prim.Native.Char.{code}
use dota_mind.Prelude.{ℕ, ◌+◌, ◌==◌, ◌||◌, ltb, true, false, String, chars, if◌then◌else◌}
use dota_mind.Prelude.Int.{ℤ, pos, negsuc}
use dota_mind.Prelude.Decimal.{repr}
use dota_mind.Json.Defs.{
  Value, Items, Fields, null, bool, num, str, arr, obj, nil, cons, end, field,
}

-- A quote, a backslash, `\b`, `\t`, `\n`, `\f` and `\r` take two bytes, the other control characters
-- six, and every other character its UTF-8 bytes.
char_size : ℕ → ℕ
char_size c =
    if c == 34 || c == 92 || c == 8 || c == 9 || c == 10 || c == 12 || c == 13
    then 2
    else if ltb c 32
    then 6
    else if ltb c 128
    then 1
    else if ltb c 2048
    then 2
    else if ltb c 65536
    then 3
    else 4

chars_size : String → ℕ
chars_size String.[] = 0
chars_size (String.◌∷◌ c s) = char_size (code c) + chars_size s

unfoldable pub text_size : String → ℕ
unfolding char_size chars_size
text_size s = 2 + chars_size s

unfoldable pub int_size : ℤ → ℕ
unfolding repr
int_size (pos n) = chars (repr n)
int_size (negsuc n) = 1 + chars (repr (n + 1))

-- The comma after an element.
abbrev pub comma : Items → ℕ
comma nil = 0
comma (cons x xs) = 1

abbrev pub comma_field : Fields → ℕ
comma_field end = 0
comma_field (field k v fs) = 1

unfoldable mutual
  pub serialized_size : Value → ℕ
  serialized_size null = 4
  serialized_size (bool true) = 4
  serialized_size (bool false) = 5
  serialized_size (num n) = int_size n
  serialized_size (str s) = text_size s
  serialized_size (arr xs) = 2 + items_size xs
  serialized_size (obj fs) = 2 + fields_size fs

  pub items_size : Items → ℕ
  items_size nil = 0
  items_size (cons x xs) = serialized_size x + comma xs + items_size xs

  pub fields_size : Fields → ℕ
  fields_size end = 0
  fields_size (field k v fs) = text_size k + 1 + serialized_size v + comma_field fs + fields_size fs
