-- ===== src/Json/Text.antt =====
-- `json.dumps(value, ensure_ascii=False, sort_keys=True, separators=(",", ":"))`.
use Prim.Native.Nat.{◌/◌, ◌%◌}
use Prim.Native.Char.{Char, code}
use Prim.Native.String.{◌++◌}
use dota_mind.Prelude.{ℕ, ◌+◌, ◌==◌, ltb, Bool, true, false, String, List, [], ◌∷◌, if◌then◌else◌}
use dota_mind.Prelude.Int.{ℤ, pos, negsuc}
use dota_mind.Prelude.Decimal.{repr}
use dota_mind.Prelude.Sort.{text_lt, sort_onto}
use dota_mind.Json.Defs.{
  Value, Items, Fields, null, bool, num, str, arr, obj, nil, cons, end, field,
}

hex_digit : ℕ → String
unfolding repr
hex_digit n =
    if ltb n 10
    then repr n
    else if n == 10
    then "a"
    else if n == 11
    then "b"
    else if n == 12
    then "c"
    else if n == 13
    then "d"
    else if n == 14
    then "e"
    else "f"

escape : Char → String
unfolding hex_digit
escape c =
    let n = code c in
    if n == 34
    then "\\\""
    else if n == 92
    then "\\\\"
    else if n == 8
    then "\\b"
    else if n == 9
    then "\\t"
    else if n == 10
    then "\\n"
    else if n == 12
    then "\\f"
    else if n == 13
    then "\\r"
    else if ltb n 32
    then "\\u00" ++ hex_digit (n / 16) ++ hex_digit (n % 16)
    else String.◌∷◌ c ""

escape_all : String → String
unfolding escape
escape_all String.[] = ""
escape_all (String.◌∷◌ c s) = escape c ++ escape_all s

quoted : String → String
unfolding escape_all
quoted s = "\"" ++ escape_all s ++ "\""

unfoldable pub int_text : ℤ → String
unfolding repr
int_text (pos n) = repr n
int_text (negsuc n) = "-" ++ repr (n + 1)

-- The texts with commas between them.
joined : List String → String
joined [] = ""
joined (s ∷ []) = s
joined (s ∷ t ∷ ts) = s ++ "," ++ joined (t ∷ ts)

-- The members of a dict, sorted by their keys.
earlier_key : String × String → String × String → Bool
earlier_key (a, _) (b, _) = text_lt a b

members : List (String × String) → List String
unfolding quoted
members [] = []
members ((key, value) ∷ rest) = (quoted key ++ ":" ++ value) ∷ members rest

object_text : List (String × String) → String
unfolding earlier_key joined members sort_onto
object_text entries = "{" ++ joined (members (sort_onto earlier_key [] entries)) ++ "}"

unfoldable mutual
  unfolding quoted int_text joined object_text

  pub dumps : Value → String
  dumps null = "null"
  dumps (bool true) = "true"
  dumps (bool false) = "false"
  dumps (num n) = int_text n
  dumps (str s) = quoted s
  dumps (arr xs) = "[" ++ joined (item_texts xs) ++ "]"
  dumps (obj fs) = object_text (field_texts fs)

  pub item_texts : Items → List String
  item_texts nil = []
  item_texts (cons x xs) = dumps x ∷ item_texts xs

  pub field_texts : Fields → List (String × String)
  field_texts end = []
  field_texts (field k v fs) = (k, dumps v) ∷ field_texts fs
