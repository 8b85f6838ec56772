-- ===== src/Artifacts/Grep.antt =====
-- apps/api/app/vnext/artifacts/grep.py: literal search inside one document. Python's `casefold` is an
-- argument.
pub mod Paging
pub mod Keys
pub mod Locates
pub mod Readable
pub mod Preview
pub mod Resume
use Prim.Native.String.{◌++◌ as append_text}
use Prim.Native.Char.{code}
use dota_mind.Prelude.{
  ℕ, zero, suc, ◌+◌, ◌-◌, ◌/◌, ◌==◌, ltb, leb, min, not, ◌&&◌, ◌||◌, Bool, true, false, String,
  chars, str_eq, take_chars, drop_chars, is_blank, starts_with, split, Option, none, some, is_some,
  List, [], ◌∷◌, map, take, length, Outcome, ok, err, raise_if, ◌>>=◌, ◌>>◌, if◌then◌else◌,
}
use dota_mind.Prelude.Int.{ℤ, pos, negsuc}
use dota_mind.Prelude.Decimal.{repr}
use dota_mind.Json.{
  Value, Items, Fields, null, bool, num, str, arr, obj, nil, cons, end, field, count, to_list,
  of_list, dumps, serialized_size,
}
use dota_mind.Artifacts.Errors.{ArtifactError, artifact_not_found, read_validation}
use dota_mind.Artifacts.Store.{SessionArtifactStore}
use dota_mind.Artifacts.Store
use dota_mind.Artifacts.Read.{int_or_null}

-- What a generator yields, one after another, until it returns or raises.
pub data Stream {ℓ} (A : Type ℓ) : Type ℓ where
  returned raised : Stream A
  yields : A → Stream A → Stream A

-- `yield from`, and what comes after it.
abbrev pub yield_from {ℓ} : {A : Type ℓ} → Stream A → Stream A → Stream A
yield_from returned after = after
yield_from raised after = raised
yield_from (yields a rest) after = yields a (yield_from rest after)

pub record Node : Type 0 where
  pub path : String
  pub member : Option String
  pub value : Value

pub record ArtifactGrepMatch : Type 0 where
  pub ref : String
  pub path : String
  pub preview : String
  pub value_type : String

pub record ArtifactGrepResult : Type 0 where
  pub matches : List ArtifactGrepMatch
  pub offset : ℕ
  pub limit : ℕ
  pub returned : ℕ
  pub next_offset : Option ℕ
  pub truncated : Bool

abbrev pub max_pattern_length : ℕ
max_pattern_length = 256

abbrev pub max_grep_limit : ℕ
max_grep_limit = 100

abbrev pub max_preview_length : ℕ
max_preview_length = 200

-- `"." in key`.
abbrev pub has_dot : String → Bool
has_dot String.[] = false
has_dot (String.◌∷◌ c s) = code c == b'.' || has_dot s

-- `f"{path}.{key}" if path else key`.
abbrev pub child_path : String → String → String
child_path path key = if str_eq path "" then key else append_text path (append_text "." key)

unfoldable mutual
  unfolding repr

  -- `_document_nodes`.
  pub document_nodes : Value → String → Option String → Stream Node
  document_nodes (obj fs) path member =
      yields (record { path = path; member = member; value = obj fs }) (field_nodes fs path)
  document_nodes (arr xs) path member =
      yields (record { path = path; member = member; value = arr xs }) (item_nodes xs 0 path)
  document_nodes value path member =
      yields (record { path = path; member = member; value = value }) returned

  pub field_nodes : Fields → String → Stream Node
  field_nodes end path = returned
  field_nodes (field key child rest) path =
      let children =
        yield_from (document_nodes child (child_path path key) (some key))
          (field_nodes rest path) in
      if str_eq key "" || has_dot key then raised else children

  pub item_nodes : Items → ℕ → String → Stream Node
  item_nodes nil index path = returned
  item_nodes (cons child rest) index path =
      yield_from (document_nodes child (child_path path (repr index)) none)
        (item_nodes rest (suc index) path)

abbrev pub is_scalar : Value → Bool
is_scalar (obj fs) = false
is_scalar (arr xs) = false
is_scalar value = true

-- `_scalar_text`, and the empty text for what is no scalar.
abbrev pub scalar_text : Value → String
scalar_text (str s) = s
scalar_text (obj fs) = ""
scalar_text (arr xs) = ""
scalar_text value = dumps value

abbrev pub value_type : Value → String
value_type (obj fs) = "object"
value_type (arr xs) = "array"
value_type (str s) = "string"
value_type null = "null"
value_type (bool b) = "boolean"
value_type (num n) = "number"

-- `len(value)`.
abbrev pub size_of : Value → ℕ
size_of (obj fs) = count fs
size_of (arr xs) = length (to_list xs)
size_of value = 0

-- `s.find(pattern)`; `none` is -1.
abbrev pub one_further : Option ℕ → Option ℕ
one_further none = none
one_further (some index) = some (suc index)

unfoldable pub find : String → String → Option ℕ
find pattern String.[] = if str_eq pattern "" then some 0 else none
find pattern (String.◌∷◌ c s) =
    let rest = one_further (find pattern s) in
    if starts_with (String.◌∷◌ c s) pattern then some 0 else rest

-- `value[start:end]`.
abbrev pub slice : ℕ → ℕ → String → String
slice start stop value = take_chars (stop - start) (drop_chars start value)

-- `_preview`.
unfoldable pub preview : String → ℕ → String
preview value match_index =
    if leb (chars value) max_preview_length
    then value
    else (let available = max_preview_length - 2 in
        let stop = min (chars value) (match_index - available / 2 + available) in
        let start = stop - available in
        let prefix = if ltb 0 start then "…" else "" in
        let suffix = if ltb stop (chars value) then "…" else "" in
        append_text prefix (append_text (slice start stop value) suffix))

abbrev pub found_in : Option ℕ → ℕ
found_in none = 0
found_in (some index) = index

-- `f"{_value_type(value)} ({len(value)} items)"`.
abbrev pub items_text : Value → String
items_text value =
    append_text (value_type value) (append_text " (" (append_text (repr (size_of value)) " items)"))

module _ (casefold : String → String) where
  abbrev pub member_matches : String → Option String → Bool
  member_matches pattern none = false
  member_matches pattern (some member) = is_some (find pattern (casefold member))

  -- The match at one node, if there is one.
  unfoldable pub match_of : String → String → Node → Option ArtifactGrepMatch
  unfolding find preview repr
  match_of ref pattern node =
      let scalar = is_scalar node.value in
      let text = scalar_text node.value in
      let match_index = find pattern (casefold text) in
      if not (member_matches pattern node.member) && (not scalar || not (is_some match_index))
      then none
      else some (record {
        ref = ref;
        path = node.path;
        preview = if scalar then preview text (found_in match_index) else items_text node.value;
        value_type = value_type node.value;
      })

  -- `_matching_nodes`.
  unfoldable pub matching_nodes : String → String → Stream Node → Stream ArtifactGrepMatch
  matching_nodes ref pattern returned = returned
  matching_nodes ref pattern raised = raised
  matching_nodes ref pattern (yields node rest) =
      with_match (match_of ref pattern node) (matching_nodes ref pattern rest)
    where
      with_match : Option ArtifactGrepMatch → Stream ArtifactGrepMatch → Stream ArtifactGrepMatch
      with_match none rest = rest
      with_match (some m) rest = yields m rest

-- The loop over the matches: those from the offset on, and whether there is one more than the limit.
unfoldable pub collect {ℓ} :
    {A : Type ℓ} → ℕ → ℕ → ℕ → ℕ → Stream A → Outcome ArtifactError (List A × Bool)
collect offset limit index kept returned = ok ([], false)
collect offset limit index kept raised = err read_validation
collect offset limit index kept (yields m rest) =
    let skipped = collect offset limit (suc index) kept rest in
    let taken = (do
      (matches, more) ← collect offset limit (suc index) (suc kept) rest
      ok (m ∷ matches, more)) in
    if ltb index offset then skipped else if kept == limit then ok ([], true) else taken

abbrev pub next_of : Bool → ℕ → Option ℕ
next_of true next = some next
next_of false next = none

abbrev pub grep_result : ℕ → ℕ → List ArtifactGrepMatch → Bool → ArtifactGrepResult
grep_result offset limit matches more = record {
  matches = matches;
  offset = offset;
  limit = limit;
  returned = length matches;
  next_offset = next_of more (offset + length matches);
  truncated = more;
}

abbrev pub dump_match : ArtifactGrepMatch → Value
dump_match m = obj (
    field "ref" (str m.ref) (
      field "path" (str m.path)
        (field "preview" (str m.preview) (field "value_type" (str m.value_type) end))))

-- `result.model_dump(mode="json")`.
unfoldable pub dump_grep : ArtifactGrepResult → Value
dump_grep r = obj (
    field "matches" (arr (of_list (map dump_match r.matches))) (
      field "offset" (num (pos r.offset)) (
        field "limit" (num (pos r.limit)) (
          field "returned" (num (pos r.returned)) (
            field "next_offset" (int_or_null r.next_offset)
              (field "truncated" (bool r.truncated) end))))))

-- The loop that drops the last match until the result fits, with the first `n` matches left.
unfoldable pub fit_matches :
    ℕ → ℕ → ℕ → List ArtifactGrepMatch → ℕ → Bool → Outcome ArtifactError ArtifactGrepResult
fit_matches max_bytes offset limit matches zero more =
    let result = grep_result offset limit [] more in
    if leb (serialized_size (dump_grep result)) max_bytes then ok result else err read_validation
fit_matches max_bytes offset limit matches (suc n) more =
    let result = grep_result offset limit (take (suc n) matches) more in
    let fewer = fit_matches max_bytes offset limit matches n true in
    if leb (serialized_size (dump_grep result)) max_bytes
    then ok result
    else if leb (suc n) 1
    then err read_validation
    else fewer

-- `_grep_document`.
unfoldable pub grep_document :
    (String → String)
    → String
    → Value
    → String
    → ℕ
    → ℕ
    → ℕ
    → Outcome ArtifactError ArtifactGrepResult
grep_document casefold ref payload pattern limit offset max_bytes = do
  (matches, more) ←
      collect offset limit 0 0
        (matching_nodes casefold ref pattern (document_nodes payload "" none))
  fit_matches max_bytes offset limit matches (length matches) more

-- `_validate_search`, with the limit and the offset that it admits.
unfoldable pub validate_search : String → ℤ → ℤ → Outcome ArtifactError (ℕ × ℕ)
validate_search pattern (negsuc limit) offset = err read_validation
validate_search pattern limit (negsuc offset) = err read_validation
validate_search pattern (pos limit) (pos offset) = do
  raise_if (is_blank pattern || ltb max_pattern_length (chars pattern)) read_validation
  raise_if (ltb limit 1 || ltb max_grep_limit limit) read_validation
  ok (limit, offset)

-- The resolver of manuals may be absent; reading one may raise.
pub record ArtifactGrepper : Type 0 where
  pub store : SessionArtifactStore
  pub manuals : Option (String → Outcome ArtifactError String)
  pub max_bytes : ℕ

abbrev pub manual_document :
    Option (String → Outcome ArtifactError String) → String → Outcome ArtifactError Value
manual_document none ref = err artifact_not_found
manual_document (some resolver) ref = do
  content ← resolver ref
  ok (obj (field "content" (str content) end))

-- `grep`.
unfoldable pub grep :
    (String → String)
    → ArtifactGrepper
    → String
    → String
    → ℤ
    → ℤ
    → Outcome ArtifactError ArtifactGrepResult
grep casefold grepper ref pattern limit offset = do
  (size, start) ← validate_search pattern limit offset
  document ←
      (if starts_with ref "manual:"
        then manual_document grepper.manuals ref
        else Store.get grepper.store ref)
  grep_document casefold ref document (casefold pattern) size start grepper.max_bytes
