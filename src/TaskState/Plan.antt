-- ===== src/TaskState/Plan.antt =====
-- Task plans: `create_plan`, `current_item` and `_advance_plan`.
use dota_mind.Prelude.{
  ℕ, ltb, length, ◌||◌, Bool, true, false, String, str_eq, chars, contains, Option, none, some,
  List, [], ◌∷◌, map, Outcome, ok, err, ◌>>=◌, ◌>>◌, raise_if, if◌then◌else◌,
}
use dota_mind.Json.{Value, str, obj, get}
use dota_mind.TaskState.Model.{TaskItemStatus, TaskItem, TaskPlan, TaskError, value_error}

-- A non-empty string of at most `limit` characters.
abbrev pub text_field : ℕ → Option Value → Outcome TaskError String
text_field limit (some (str s)) =
    if str_eq s "" || ltb limit (chars s) then err value_error else ok s
text_field limit _ = err value_error

abbrev pub keys : List TaskItem → List String
keys = map (λ item. item.key)

-- One round of the loop of `create_plan`, after the items in `validated`; `first` tells whether
-- there is none.
abbrev pub validate_item : Bool → List String → Value → Outcome TaskError TaskItem
validate_item first seen (obj fs) = do
  key ← text_field 128 (get "key" fs)
  raise_if (contains seen key) value_error
  objective ← text_field 512 (get "objective" fs)
  ok (record {
    key = key;
    objective = objective;
    status = if first then TaskItemStatus.in_progress else TaskItemStatus.pending;
  })
validate_item first seen _ = err value_error

unfoldable pub validate_items : Bool → List String → List Value → Outcome TaskError (List TaskItem)
validate_items first seen [] = ok []
validate_items first seen (v ∷ vs) = do
  item ← validate_item first seen v
  rest ← validate_items false (item.key ∷ seen) vs
  ok (item ∷ rest)

abbrev pub head_key : List TaskItem → Option String
head_key [] = none
head_key (item ∷ rest) = some item.key

-- The plan that `create_plan` makes where there is none.
unfoldable pub make_plan : List Value → Outcome TaskError TaskPlan
unfolding validate_items
make_plan items = do
  raise_if (ltb (length items) 2 || ltb 16 (length items)) value_error
  validated ← validate_items true [] items
  ok (record { items = validated; current_key = head_key validated })

abbrev pub with_status : TaskItemStatus → TaskItem → TaskItem
with_status status item = record item { status = status }

-- The item after the completed one is started.
abbrev pub start_next : List TaskItem → TaskPlan
start_next [] = record { items = []; current_key = none }
start_next (item ∷ rest) = record {
  items = with_status TaskItemStatus.in_progress item ∷ rest;
  current_key = some item.key;
}

abbrev pub before : TaskItem → Outcome TaskError TaskPlan → Outcome TaskError TaskPlan
before item (ok plan) = ok (record plan { items = item ∷ plan.items })
before item (err e) = err e

-- `_advance_plan` at the first item with the current key.
unfoldable pub advance_from : String → List TaskItem → Outcome TaskError TaskPlan
advance_from current [] = err value_error
advance_from current (item ∷ rest) =
    if str_eq item.key current
    then before (with_status TaskItemStatus.completed item) (ok (start_next rest))
    else before item (advance_from current rest)

unfoldable pub advance_plan : TaskPlan → Outcome TaskError TaskPlan
unfolding advance_from
advance_plan plan = go plan.current_key
  where
    go : Option String → Outcome TaskError TaskPlan
    go none = err value_error
    go (some current) = advance_from current plan.items

unfoldable pub find_item : String → List TaskItem → Option TaskItem
find_item key [] = none
find_item key (item ∷ rest) = if str_eq item.key key then some item else find_item key rest

abbrev pub or_current : Option TaskPlan → Option TaskItem
or_current none = none
or_current (some plan) = go plan.current_key
  where
    go : Option String → Option TaskItem
    go none = none
    go (some key) = find_item key plan.items
