-- ===== src/Artifacts/Observation/Bounds.antt =====
-- The byte bound of an observation, and when there is one.
use dota_mind.Prelude.{
  ℕ, ◌+◌, ◌≤◌, ◌<◌, ◌≡◌, refl, ◌⊎◌, inl, inr, true, leb, String, Option, none, some, ok, err,
  if◌then◌else◌, arith, Bool-cases,
}
use dota_mind.Json.{Value, Fields, bool, obj, end, field, serialized_size}
use dota_mind.Artifacts.Errors.{response_artifact}
use dota_mind.Artifacts.Observation.{
  child_path, accept, extend, project_value, project_fields, envelope, trim_root, value_budget,
  build_bounded_observation,
}

-- An envelope adds a fixed number of bytes to its value.
envelope-size :
    (ref : String) (v : Value)
    → serialized_size (envelope ref v) + 2
      ≡ serialized_size (envelope ref (obj end)) + serialized_size v
unfolding serialized_size
envelope-size ref v = omega arith

obj-size : (fs : Fields) → 2 ≤ serialized_size (obj fs)
unfolding serialized_size
obj-size fs = omega arith

accept_fits :
    (budget : ℕ) (path key : String) (child candidate : Value) (fs : Fields) {gs : Fields}
    → accept budget path key child candidate fs ≡ some gs
    → serialized_size (obj gs) ≤ budget
unfolding accept
accept_fits budget path key child candidate fs h = ground arith

-- The projected fields are those so far, or they fit the budget.
abbrev Fitting : ℕ → Fields → Fields → Type 0
Fitting budget fs gs = (gs ≡ fs) ⊎ (serialized_size (obj gs) ≤ budget)

extend-Fitting :
    (budget : ℕ) (o : Option Fields) (fs : Fields) (loop : Fields → Fields)
    → ((gs : Fields) → o ≡ some gs → serialized_size (obj gs) ≤ budget)
    → ((gs : Fields) → Fitting budget gs (loop gs))
    → Fitting budget fs (extend o fs loop)
extend-Fitting budget none fs loop accepted rest = inl refl
extend-Fitting budget (some gs) fs loop accepted rest = ground (arith, accepted gs, rest gs)

project_fields-Fitting :
    (fs : Fields) (path : String) (budget : ℕ) (acc : Fields)
    → Fitting budget acc (project_fields fs path budget acc)
unfolding project_fields
project_fields-Fitting end path budget acc = inl refl
project_fields-Fitting (field key child rest) path budget acc =
    extend-Fitting budget
      (accept budget (child_path path key) key child
        (project_value child (child_path path key) budget) acc)
      acc (λ grown. project_fields rest path budget grown)
      (λ gs e. accept_fits budget _ key child _ acc e)
      (λ gs. project_fields-Fitting rest path budget gs)

-- An observation serializes to at most the byte budget.
pub build_bounded_observation_bounded :
    (payload : Value) (ref : String) (max_bytes : ℕ) {v : Value}
    → build_bounded_observation payload ref max_bytes ≡ ok v
    → serialized_size v ≤ max_bytes
unfolding build_bounded_observation
build_bounded_observation_bounded payload ref max_bytes h = ground arith

-- Nothing is projected into a budget that is smaller than an empty object.
project_fields-tight :
    (fs : Fields) (path : String) (budget : ℕ)
    → budget < 2
    → project_fields fs path budget end ≡ end
project_fields-tight fs path budget h = elim (project_fields-Fitting fs path budget end) [
  | inl e ↦ e
  | inr le ↦ absurd (omega (arith, obj-size (project_fields fs path budget end)))
]

dict_project :
    (fs : Fields) (ref : String) (max_bytes : ℕ)
    → project_value (obj fs) "" (value_budget ref max_bytes)
      ≡ obj (project_fields fs "" (value_budget ref max_bytes) end)
unfolding project_value
dict_project fs ref max_bytes = refl

-- The projection of a dict fits whenever an empty envelope does.
dict_fits :
    (fs : Fields) (ref : String) (max_bytes : ℕ)
    → serialized_size (envelope ref (obj end)) ≤ max_bytes
    → serialized_size (envelope ref (obj (project_fields fs "" (value_budget ref max_bytes) end)))
      ≤ max_bytes
dict_fits fs ref max_bytes h =
    elim (project_fields-Fitting fs "" (value_budget ref max_bytes) end) [
      | inl e ↦ rw e h
      | inr le ↦ omega (
        arith,
        envelope-size ref (obj (project_fields fs "" (value_budget ref max_bytes) end)),
        obj-size (project_fields fs "" (value_budget ref max_bytes) end),
        envelope-size ref (obj end),
      )
    ]

envelope-grows :
    (ref : String) (gs : Fields)
    → serialized_size (envelope ref (obj end)) ≤ serialized_size (envelope ref (obj gs))
envelope-grows ref gs =
    omega
      (arith, envelope-size ref (obj gs), envelope-size ref (obj end), obj-size gs, obj-size end)

trim_root-end :
    (ref : String) (max_bytes : ℕ)
    → max_bytes < serialized_size (envelope ref (obj end))
    → trim_root end ref max_bytes ≡ end
unfolding trim_root
trim_root-end ref max_bytes h =
    ground (arith, envelope-grows ref (field "_truncated" (bool true) end))

-- For a dict there is an observation exactly where an empty envelope fits the byte budget, and it
-- is then the envelope of the projected dict: the root is never trimmed.
pub build_bounded_observation-obj :
    (fs : Fields) (ref : String) (max_bytes : ℕ)
    → 0 < max_bytes
    → build_bounded_observation (obj fs) ref max_bytes ≡ (
        if leb (serialized_size (envelope ref (obj end))) max_bytes
        then ok (envelope ref (project_value (obj fs) "" (value_budget ref max_bytes)))
        else err response_artifact)
unfolding build_bounded_observation
build_bounded_observation-obj fs ref max_bytes h =
    rw (dict_project fs ref max_bytes)
      (elim (Bool-cases (leb (serialized_size (envelope ref (obj end))) max_bytes)) [
        | inl e ↦ ground (arith, dict_fits fs ref max_bytes)
        | inr e ↦
            rw (project_fields-tight fs "" (value_budget ref max_bytes) (ground arith))
              (ground (arith, trim_root-end ref max_bytes))
      ])
