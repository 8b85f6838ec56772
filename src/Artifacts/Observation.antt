-- ===== src/Artifacts/Observation.antt =====
-- observation.py: bounded projections of externalized tool responses.
pub mod Bounds
use Prim.Native.String.{◌++◌ as append_text}
use dota_mind.Prelude.{
  ℕ, zero, suc, ◌+◌, ◌-◌, leb, ltb, ◌&&◌, Bool, true, false, String, str_eq, Option, none, some,
  length, Outcome, ok, err, if◌then◌else◌,
}
use dota_mind.Prelude.Int.{pos}
use dota_mind.Json.{
  Value, Fields, null, bool, num, str, arr, obj, end, field, put, count, to_list, serialized_size,
}
use dota_mind.Artifacts.Errors.{ArtifactError, response_artifact, bad_budget}

abbrev pub with_count : Option ℕ → Fields
with_count none = end
with_count (some n) = field "count" (num (pos n)) end

-- `_pointer`.
abbrev pub pointer : String → String → Option ℕ → Value
pointer path kind n =
    obj (field "_artifact_path" (str path) (field "kind" (str kind) (with_count n)))

-- `_kind`.
abbrev pub kind_of : Value → String
kind_of (arr xs) = "collection"
kind_of (obj fs) = "object"
kind_of _ = "scalar"

abbrev pub count_of : Value → Option ℕ
count_of (arr xs) = some (length (to_list xs))
count_of _ = none

abbrev pub child_path : String → String → String
child_path path key = if str_eq path "" then key else append_text path (append_text "." key)

-- One round of the loop over a dict: the candidate, else a pointer, else `none` for `break`.
unfoldable pub accept : ℕ → String → String → Value → Value → Fields → Option Fields
accept budget path key child candidate projected =
    if leb (serialized_size (obj (put key candidate projected))) budget
    then some (put key candidate projected)
    else (let marker = pointer path (kind_of child) (count_of child) in
        if leb (serialized_size (obj (put key marker projected))) budget
        then some (put key marker projected)
        else none)

-- The rest of the loop after one round, or its `break`.
abbrev pub extend : Option Fields → Fields → (Fields → Fields) → Fields
extend none projected loop = projected
extend (some grown) projected loop = loop grown

abbrev pub project_scalar : Value → String → ℕ → Value
project_scalar v path budget =
    if leb (serialized_size v) budget then v else pointer path "scalar" none

unfoldable mutual
  -- `_project_value`.
  pub project_value : Value → String → ℕ → Value
  project_value null path budget = project_scalar null path budget
  project_value (bool b) path budget = project_scalar (bool b) path budget
  project_value (num n) path budget = project_scalar (num n) path budget
  project_value (str s) path budget = project_scalar (str s) path budget
  project_value (arr xs) path budget = pointer path "collection" (some (length (to_list xs)))
  project_value (obj fs) path budget = obj (project_fields fs path budget end)

  -- Its loop over the fields of a dict, with what is projected so far.
  pub project_fields : Fields → String → ℕ → Fields → Fields
  project_fields end path budget projected = projected
  project_fields (field key child rest) path budget projected =
      extend
        (accept budget (child_path path key) key child
          (project_value child (child_path path key) budget) projected)
        projected (λ grown. project_fields rest path budget grown)

abbrev pub envelope : String → Value → Value
envelope ref value =
    obj
      (field "artifact_ref" (str ref) (field "externalized" (bool true) (field "value" value end)))

-- `d.pop(next(reversed(d)))`.
abbrev pub drop_last : Fields → Fields
drop_last end = end
drop_last (field k v end) = end
drop_last (field k v (field j w fs)) = field k v (drop_last (field j w fs))

-- The loop of `_trim_root`; it ends after as many rounds as there are fields.
unfoldable pub trim : ℕ → String → ℕ → Fields → Fields
trim zero ref max_bytes fs = fs
trim (suc rounds) ref max_bytes fs =
    let rest = trim rounds ref max_bytes (drop_last fs) in
    if ltb 0 (count fs) && ltb max_bytes (serialized_size (envelope ref (obj fs))) then rest else fs

unfoldable pub trim_root : Fields → String → ℕ → Fields
unfolding trim
trim_root projected ref max_bytes =
    let trimmed = trim (count projected) ref max_bytes projected in
    let marked = put "_truncated" (bool true) trimmed in
    if leb (serialized_size (envelope ref (obj marked))) max_bytes then marked else trimmed

-- `if isinstance(projected, dict)`.
abbrev pub trim_value : Value → String → ℕ → Value
trim_value (obj fs) ref max_bytes = obj (trim_root fs ref max_bytes)
trim_value v ref max_bytes = v

abbrev pub value_budget : String → ℕ → ℕ
value_budget ref max_bytes = max_bytes - serialized_size (envelope ref (obj end))

unfoldable pub build_bounded_observation : Value → String → ℕ → Outcome ArtifactError Value
build_bounded_observation payload ref max_bytes =
    if ltb max_bytes 1
    then err bad_budget
    else (let projected = project_value payload "" (value_budget ref max_bytes) in
        if leb (serialized_size (envelope ref projected)) max_bytes
        then ok (envelope ref projected)
        else (let trimmed = trim_value projected ref max_bytes in
            if ltb max_bytes (serialized_size (envelope ref trimmed))
            then err response_artifact
            else ok (envelope ref trimmed)))
