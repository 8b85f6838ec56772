-- ===== src/Artifacts/Read.antt =====
-- retrieval.py: `ArtifactReader`.
pub mod Budget
pub mod Total
use dota_mind.Prelude.{
  ℕ, zero, suc, ◌+◌, leb, ltb, ◌||◌, Bool, true, false, String, starts_with, Option, none, some,
  is_some, List, take, drop, length, Outcome, ok, err, ◌>>=◌, ◌>>◌, raise_if, if◌then◌else◌,
}
use dota_mind.Prelude.Int.{ℤ, pos, negsuc, is_negative}
use dota_mind.Json.{
  Value, Fields, null, bool, num, str, arr, obj, end, field, to_list, of_list, str_or_null, nil,
  cons, serialized_size,
}
use dota_mind.Artifacts.Errors.{ArtifactError, artifact_not_found, read_validation}
use dota_mind.Artifacts.Store.{SessionArtifactStore}
use dota_mind.Artifacts.Store
use dota_mind.Artifacts.Paths.{resolve_path, outline}

pub record ReadResult : Type 0 where
  pub ref : String
  pub path : Option String
  pub value : Value
  pub offset : Option ℕ
  pub limit : Option ℕ
  pub total : Option ℕ
  pub truncated : Bool

abbrev pub int_or_null : Option ℕ → Value
int_or_null none = null
int_or_null (some n) = num (pos n)

-- `result.model_dump(mode="json")`.
unfoldable pub dump : ReadResult → Value
dump r = obj (
    field "ref" (str r.ref) (
      field "path" (str_or_null r.path) (
        field "value" r.value (
          field "offset" (int_or_null r.offset) (
            field "limit" (int_or_null r.limit)
              (field "total" (int_or_null r.total) (field "truncated" (bool r.truncated) end)))))))

-- `serialized_size(result.model_dump(mode="json")) <= max_bytes`.
unfoldable pub fits : ℕ → ReadResult → Bool
unfolding dump
fits max_bytes r = leb (serialized_size (dump r)) max_bytes

-- The resolver of manuals may be absent; reading one may raise.
pub record ArtifactReader : Type 0 where
  pub store : SessionArtifactStore
  pub manuals : Option (String → Outcome ArtifactError String)
  pub observation_max_bytes : ℕ

abbrev pub max_limit : ℕ
max_limit = 100

-- `_validate_pagination`, with the two numbers that it admits.
abbrev pub validate_pagination : ℤ → ℤ → Outcome ArtifactError (ℕ × ℕ)
validate_pagination (negsuc n) limit = err read_validation
validate_pagination (pos offset) (negsuc n) = err read_validation
validate_pagination (pos offset) (pos limit) =
    if ltb limit 1 || ltb max_limit limit then err read_validation else ok (offset, limit)

unfoldable pub fit_result : ℕ → ReadResult → Outcome ArtifactError ReadResult
fit_result max_bytes r = if fits max_bytes r then ok r else err read_validation

abbrev pub with_items : ReadResult → List Value → ReadResult
with_items r xs = record r { value = arr (of_list xs); truncated = true }

-- `while candidate: ...; candidate.pop()`, with the first `n` items left in `candidate`.
unfoldable pub pop_until_fits : ℕ → ReadResult → List Value → ℕ → Outcome ArtifactError ReadResult
pop_until_fits max_bytes r xs zero = err read_validation
pop_until_fits max_bytes r xs (suc n) =
    let fitted = with_items r (take (suc n) xs) in
    let rest = pop_until_fits max_bytes r xs n in if fits max_bytes fitted then ok fitted else rest

unfoldable pub fit_list_result : ℕ → ReadResult → List Value → Outcome ArtifactError ReadResult
unfolding fit_result
fit_list_result max_bytes r xs =
    if fits max_bytes r
    then ok r
    else (let empty = with_items r (take 0 xs) in
        if fits max_bytes empty
        then pop_until_fits max_bytes r xs (length xs)
        else fit_result max_bytes empty)

unfoldable pub manual_content : ArtifactReader → String → Outcome ArtifactError String
manual_content reader ref = go reader.manuals ref
  where
    go : Option (String → Outcome ArtifactError String) → String → Outcome ArtifactError String
    go none ref = err artifact_not_found
    go (some resolver) ref = resolver ref

abbrev pub whole : String → Option String → Value → ReadResult
whole ref path value = record {
  ref = ref;
  path = path;
  value = value;
  offset = none;
  limit = none;
  total = none;
  truncated = false;
}

abbrev pub manual_outline : Value
manual_outline = obj (
    field "paths"
      (arr (cons (obj (field "path" (str "content") (field "kind" (str "text") end))) nil)) end)

-- `ArtifactReader.outline`.
unfoldable pub read_outline : ArtifactReader → String → Outcome ArtifactError ReadResult
unfolding fit_result manual_content
read_outline reader ref =
    if starts_with ref "manual:"
    then (do
      _ ← manual_content reader ref
      fit_result reader.observation_max_bytes (whole ref none manual_outline))
    else (do
      document ← Store.get reader.store ref
      fit_result reader.observation_max_bytes (whole ref none (outline document)))

abbrev pub payload_of : ArtifactReader → String → Outcome ArtifactError Value
payload_of reader ref =
    if starts_with ref "manual:"
    then (do content ← manual_content reader ref; ok (obj (field "content" (str content) end)))
    else Store.get reader.store ref

abbrev pub or_int : Option ℤ → ℕ → ℤ
or_int none d = pos d
or_int (some n) d = n

-- A page of a list, before it is fitted to the budget.
abbrev pub page : String → String → List Value → ℕ → ℕ → ReadResult
page ref path xs offset limit = record {
  ref = ref;
  path = some path;
  value = arr (of_list (take limit (drop offset xs)));
  offset = some offset;
  limit = some limit;
  total = some (length xs);
  truncated = ltb (offset + limit) (length xs);
}

-- What `read` does with the value at the path.
unfoldable pub read_value :
    ℕ → String → String → Option ℤ → Option ℤ → Value → Outcome ArtifactError ReadResult
unfolding fit_result fit_list_result
read_value max_bytes ref path offset limit (arr items) = do
  (start, size) ← validate_pagination (or_int offset 0) (or_int limit 50)
  fit_list_result max_bytes (page ref path (to_list items) start size)
      (take size (drop start (to_list items)))
read_value max_bytes ref path offset limit value =
    if is_some offset || is_some limit
    then err read_validation
    else fit_result max_bytes (whole ref (some path) value)

-- `ArtifactReader.read`.
unfoldable pub read :
    ArtifactReader → String → String → Option ℤ → Option ℤ → Outcome ArtifactError ReadResult
unfolding read_value
read reader ref path offset limit = do
  payload ← payload_of reader ref
  value ← resolve_path payload path
  read_value reader.observation_max_bytes ref path offset limit value
