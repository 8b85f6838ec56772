-- ===== src/TaskState/Serial.antt =====
-- The serial shape of a task plan, through its creation and checkpoints.
use dota_mind.Prelude.{
  ℕ, suc, ◌≤◌, ◌≡◌, refl, subst, inl, inr, Bool, true, false, not, ◌&&◌, String, str_eq, eq_iff,
  eq_refl, contains, Option, none, some, List, [], ◌∷◌, length, ok, err, arith, Bool-cases,
  Outcome-cases, Option-cases, if◌then◌else◌,
}
use dota_mind.Json.{Value, Fields}
use dota_mind.TaskState.Model.{
  TaskItemStatus, TaskItem, TaskPlan, TaskError, TaskCheckpoint, Coordinator,
}
use dota_mind.TaskState.Plan.{
  keys, validate_item, validate_items, make_plan, with_status, advance_from, advance_plan,
}
use dota_mind.TaskState.Created.{create_checkpoint-Created}
use dota_mind.TaskState.Coordinator.{
  create_checkpoint, next_plan, available_ids, validate_checkpoint, check_current,
}

abbrev pub is_pending : TaskItemStatus → Bool
is_pending TaskItemStatus.pending = true
is_pending _ = false

abbrev pub all_pending : List TaskItem → Bool
all_pending [] = true
all_pending (item ∷ rest) = is_pending item.status && all_pending rest

abbrev pub same_as : Option String → String → Bool
same_as none key = false
same_as (some current) key = str_eq current key

abbrev pub serial_item : TaskItemStatus → Bool → Bool → Bool → Bool
serial_item TaskItemStatus.completed is_current rest_serial rest_pending =
    not is_current && rest_serial
serial_item TaskItemStatus.in_progress is_current rest_serial rest_pending =
    is_current && rest_pending
serial_item TaskItemStatus.pending is_current rest_serial rest_pending = false

-- Completed items, then the current item in progress, then pending ones; a plan with no current
-- item is completed throughout.
abbrev pub serial : List TaskItem → Option String → Bool
serial [] none = true
serial [] (some current) = false
serial (item ∷ rest) current =
    serial_item item.status (same_as current item.key) (serial rest current) (all_pending rest)

abbrev pub unique : List String → Bool
unique [] = true
unique (key ∷ rest) = not (contains rest key) && unique rest

pub record IsSerial (plan : TaskPlan) : Type 0 where
  pub in_order : serial plan.items plan.current_key ≡ true
  pub distinct : unique (keys plan.items) ≡ true

abbrev pub count_completed : TaskItemStatus → ℕ → ℕ
count_completed TaskItemStatus.completed n = suc n
count_completed _ n = n

-- How many items are completed.
abbrev pub completed_count : List TaskItem → ℕ
completed_count [] = 0
completed_count (item ∷ rest) = count_completed item.status (completed_count rest)

all_pending-count : (items : List TaskItem) → all_pending items ≡ true → completed_count items ≡ 0
all_pending-count [] h = refl
all_pending-count (item ∷ rest) h = ground (arith, all_pending-count rest)

-- What `advance_from` gives from the current item on.
record Advanced (current : String) (items : List TaskItem) : Type 0 where
  plan : TaskPlan
  result : advance_from current items ≡ ok plan
  in_order : serial plan.items plan.current_key ≡ true
  same_keys : keys plan.items ≡ keys items
  counted : completed_count plan.items ≡ suc (completed_count items)
  current_among :
      (k : String) → contains (keys items) k ≡ false → same_as plan.current_key k ≡ false

advance-here :
    (current : String) (item : TaskItem) (rest : List TaskItem)
    → str_eq item.key current ≡ true
    → serial (item ∷ rest) (some current) ≡ true
    → unique (keys (item ∷ rest)) ≡ true
    → Advanced current (item ∷ rest)
unfolding advance_from
advance-here current item [] e h u = record {
  plan = record { items = with_status TaskItemStatus.completed item ∷ []; current_key = none };
  result = ground arith;
  in_order = ground arith;
  same_keys = ground arith;
  counted = ground (arith, eq_iff item.key current, eq_iff current item.key);
  current_among = λ k c. refl;
}
advance-here current item (r ∷ rs) e h u = record {
  plan = record {
    items =
        with_status TaskItemStatus.completed item ∷ with_status TaskItemStatus.in_progress r ∷ rs;
    current_key = some r.key;
  };
  result = ground arith;
  in_order = ground (arith, eq_refl r.key, eq_iff item.key current, eq_iff current item.key);
  same_keys = ground arith;
  counted = ground (arith, eq_iff item.key current, eq_iff current item.key, all_pending-count rs);
  current_among = λ k c. ground arith;
}

advance_from-Advanced :
    (current : String) (items : List TaskItem)
    → serial items (some current) ≡ true
    → unique (keys items) ≡ true
    → Advanced current items
unfolding advance_from
advance_from-Advanced current [] h u = cc
advance_from-Advanced current (item ∷ rest) h u = elim (Bool-cases (str_eq item.key current)) [
  | inl e ↦ advance-here current item rest e h u
  | inr e ↦
      let a =
        advance_from-Advanced current rest
          (ground (arith, eq_iff item.key current, eq_iff current item.key)) (ground arith) in
      record {
        plan = record { items = item ∷ a.plan.items; current_key = a.plan.current_key };
        result = ground (arith, a.result);
        in_order = ground (
          arith,
          a.in_order,
          a.current_among item.key,
          eq_iff item.key current,
          eq_iff current item.key,
        );
        same_keys = ground (arith, a.same_keys);
        counted = ground (arith, a.counted, eq_iff item.key current, eq_iff current item.key);
        current_among = λ k c. ground (arith, a.current_among k);
      }
]

-- A successful checkpoint of a serial plan.
abbrev pub Advances : String → TaskPlan → Coordinator → Type 0
Advances key plan c =
    (next : TaskPlan) × (c.plan ≡ some next)
    × IsSerial next
    × (plan.current_key ≡ some key)
    × (keys next.items ≡ keys plan.items)
    × (completed_count next.items ≡ suc (completed_count plan.items))

check_current-key :
    (key : String) (plan : TaskPlan)
    → check_current key (some plan) ≡ ok tt
    → plan.current_key ≡ some key
check_current-key key plan h = elim (Option-cases plan.current_key) [
  | inl e ↦ ground arith
  | inr (current, e) ↦ ground (arith, eq_iff key current)
]

checked-key :
    (key : String) (value : Fields) (ids : List String) (plan : TaskPlan)
    → validate_checkpoint key value ids (some plan) ≡ ok tt
    → check_current key (some plan) ≡ ok tt
unfolding validate_checkpoint
checked-key key value ids plan h = ground arith

next_plan-Advanced :
    (key : String) (plan : TaskPlan) (a : Advanced key plan.items)
    → plan.current_key ≡ some key
    → next_plan (some plan) ≡ ok (some a.plan)
unfolding advance_plan
next_plan-Advanced key plan a e = ground (arith, a.result)

-- A checkpoint of a serial plan that succeeds completes the current item and starts the next one:
-- the plan stays serial, keeps its keys, and has one more completed item.
pub create_checkpoint-Advances :
    (uuid key : String) (value : Fields) (c : Coordinator) (plan : TaskPlan) {cp : TaskCheckpoint}
    → c.plan ≡ some plan
    → IsSerial plan
    → (create_checkpoint uuid key value c).0 ≡ ok cp
    → Advances key plan (create_checkpoint uuid key value c).1
create_checkpoint-Advances uuid key value c plan p v h =
    let made = create_checkpoint-Created uuid key value c h in
    let current = check_current-key key plan (
      checked-key key value (available_ids key c) plan (
        subst (λ q. validate_checkpoint key value (available_ids key c) q ≡ ok tt) p
          made.checked)) in
    let a =
      advance_from-Advanced key plan.items
        (subst (λ q. serial plan.items q ≡ true) current v.in_order) v.distinct in
    (
      a.plan,
      ground (arith, next_plan-Advanced key plan a current, made.moved, made.state),
      record { in_order = a.in_order; distinct = ground (arith, a.same_keys, v.distinct) },
      current,
      a.same_keys,
      a.counted,
    )

-- A checkpoint that is refused changes nothing.
pub create_checkpoint-err :
    (uuid key : String) (value : Fields) (c : Coordinator) {e : TaskError}
    → (create_checkpoint uuid key value c).0 ≡ err e
    → (create_checkpoint uuid key value c).1 ≡ c
unfolding create_checkpoint
create_checkpoint-err uuid key value c h = ground arith

validate_item_lem :
    (first : Bool) (seen : List String) (v : Value) {item : TaskItem}
    → validate_item first seen v ≡ ok item
    → (contains seen item.key ≡ false)
      × (item.status ≡ (if first then TaskItemStatus.in_progress else TaskItemStatus.pending))
validate_item_lem first seen v h = ground arith

record Fresh (seen : List String) (vs : List Value) (items : List TaskItem) : Type 0 where
  pending : all_pending items ≡ true
  distinct : unique (keys items) ≡ true
  new : (k : String) → contains seen k ≡ true → contains (keys items) k ≡ false
  same_length : length items ≡ length vs

validate_items-Fresh :
    (seen : List String) (vs : List Value) {items : List TaskItem}
    → validate_items false seen vs ≡ ok items
    → Fresh seen vs items
unfolding validate_items
validate_items-Fresh seen [] h = record {
  pending = ground arith;
  distinct = ground arith;
  new = λ k c. ground arith;
  same_length = ground arith;
}
validate_items-Fresh seen (v ∷ vs) h = elim (Outcome-cases (validate_item false seen v)) [
  | inr (x, e) ↦ ground arith
  | inl (item, e) ↦ elim (Outcome-cases (validate_items false (item.key ∷ seen) vs)) [
    | inr (x, f) ↦ ground arith
    | inl (rest, f) ↦
        let ih = validate_items-Fresh (item.key ∷ seen) vs f in
        let (fresh_key, status) = validate_item_lem false seen v e in
        subst (Fresh seen (v ∷ vs)) {x = item ∷ rest} (ground arith) (record {
          pending = ground (arith, ih.pending);
          distinct = ground (arith, ih.distinct, ih.new item.key, eq_refl item.key);
          new = λ k q. ground (arith, ih.new k, eq_iff item.key k);
          same_length = ground (arith, ih.same_length);
        })
  ]
]

-- A serial plan of 2 to 16 items, one for each of a list, with none completed.
abbrev pub Started : List Value → TaskPlan → Type 0
Started vs plan =
    IsSerial plan
    × (length plan.items ≡ length vs)
    × (completed_count plan.items ≡ 0)
    × (2 ≤ length plan.items)
    × (length plan.items ≤ 16)

-- A plan that is made from a list of items is serial, has an item for each of them, none of which is
-- completed, and has from 2 to 16 of them.
pub make_plan-IsSerial :
    (items : List Value) {plan : TaskPlan} → make_plan items ≡ ok plan → Started items plan
unfolding make_plan validate_items
make_plan-IsSerial [] h = ground arith
make_plan-IsSerial (v ∷ vs) {plan} h = elim (Outcome-cases (validate_item true [] v)) [
  | inr (x, e) ↦ ground arith
  | inl (item, e) ↦ elim (Outcome-cases (validate_items false (item.key ∷ []) vs)) [
    | inr (x, f) ↦ ground arith
    | inl (rest, f) ↦
        let ih = validate_items-Fresh (item.key ∷ []) vs f in
        let (fresh_key, status) = validate_item_lem true [] v e in
        let made : TaskPlan = record { items = item ∷ rest; current_key = some item.key } in
        let same : made ≡ plan = ground arith in
        subst (Started (v ∷ vs)) same (
          record {
            in_order = ground (arith, ih.pending, eq_refl item.key);
            distinct = ground (arith, ih.distinct, ih.new item.key, eq_refl item.key);
          },
          ground (arith, ih.same_length),
          ground (arith, all_pending-count rest ih.pending),
          ground (arith, ih.same_length),
          ground (arith, ih.same_length),
        )
  ]
]
