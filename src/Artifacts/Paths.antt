-- ===== src/Artifacts/Paths.antt =====
-- retrieval.py: `_resolve_path` and `_outline`.
pub mod Composition
pub mod Indices
use Prim.Native.Char.{code}
use Prim.Native.String
use dota_mind.Prelude.{
  ℕ, ◌+◌, ◌-◌, ◌*◌, leb, ◌&&◌, ◌||◌, Bool, String, str_eq, all_chars, split, Option, none, some,
  List, [], ◌∷◌, ◌++◌, get_elem?, length, any, Outcome, ok, err, ◌>>=◌, if◌then◌else◌,
}
use dota_mind.Prelude.Int.{pos}
use dota_mind.Json.{
  Value, Items, Fields, null, bool, num, str, arr, obj, nil, cons, end, field, get, put, to_list,
  of_list,
}
use dota_mind.Artifacts.Errors.{ArtifactError, path_not_found}

-- `segment.isascii() and segment.isdecimal()` for a segment that is not empty.
abbrev pub is_decimal : String → Bool
is_decimal s = all_chars (λ c. leb 48 c && leb c 57) s

-- `int(segment)` of a decimal text.
abbrev pub int_from : ℕ → String → ℕ
int_from n String.[] = n
int_from n (String.◌∷◌ c s) = int_from (n * 10 + (code c - 48)) s

abbrev pub or_missing : Option Value → Outcome ArtifactError Value
or_missing none = err path_not_found
or_missing (some v) = ok v

-- One round of the loop of `_resolve_path`.
abbrev pub child : Value → String → Outcome ArtifactError Value
child (obj fs) segment = or_missing (get segment fs)
child (arr xs) segment =
    if is_decimal segment
    then or_missing (get_elem? (to_list xs) (int_from 0 segment))
    else err path_not_found
child _ segment = err path_not_found

unfoldable pub descend : Value → List String → Outcome ArtifactError Value
descend v [] = ok v
descend v (segment ∷ rest) = do w ← child v segment; descend w rest

unfoldable pub resolve_path : Value → String → Outcome ArtifactError Value
unfolding descend split
resolve_path payload path =
    if str_eq path "" || any (λ segment. str_eq segment "") (split b'.' path)
    then err path_not_found
    else descend payload (split b'.' path)

abbrev path_entry : String → String → Value
path_entry key kind = obj (field "path" (str key) (field "kind" (str kind) end))

abbrev count_entry : String → ℕ → Value
count_entry key n =
    obj (field "path" (str key) (field "kind" (str "collection") (field "count" (num (pos n)) end)))

-- The loop of `_outline`, over the fields that are left, the scalars and the paths so far.
outline_fields : Fields → Fields → List Value → Fields
outline_fields end outline paths = put "paths" (arr (of_list paths)) outline
outline_fields (field key (obj fs) rest) outline paths =
    outline_fields rest outline (paths ++ path_entry key "object" ∷ [])
outline_fields (field key (arr xs) rest) outline paths =
    outline_fields rest outline (paths ++ count_entry key (length (to_list xs)) ∷ [])
outline_fields (field key value rest) outline paths =
    outline_fields rest (put key value outline) paths

unfoldable pub outline : Value → Value
unfolding outline_fields
outline (obj fs) = obj (outline_fields fs end [])
outline payload = payload
