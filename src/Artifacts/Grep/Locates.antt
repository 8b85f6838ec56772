-- ===== src/Artifacts/Grep/Locates.antt =====
-- `_document_nodes` and `_resolve_path`: the paths of the nodes are paths that a read resolves.
use Prim.Native.Char.{code}
use dota_mind.Prelude.{
  ℕ, zero, suc, ◌==◌, leb, ◌≡◌, refl, sym, ap, ◌∙◌, ◌⊎◌, inl, inr, true, false, ◌&&◌, ◌||◌, String,
  str_eq, eq_iff, split, Option, none, some, [], ◌∷◌, get_elem?, All, ok, err, arith, Bool-cases,
  Outcome-cases,
}
use dota_mind.Prelude.Decimal.{repr}
use dota_mind.Json.{
  Value, Items, Fields, null, bool, num, str, arr, obj, nil, cons, end, field, to_list,
}
use dota_mind.Artifacts.Errors.{path_not_found}
use dota_mind.Artifacts.Paths.{is_decimal, int_from, child, or_missing, descend, resolve_path}
use dota_mind.Artifacts.Paths.Composition.{resolve_path_lem, resolve_path-join}
use dota_mind.Artifacts.Paths.Indices.{int_from-repr, is_decimal-repr}
use dota_mind.Artifacts.Grep.{
  Stream, returned, raised, yields, yield_from, Node, has_dot, child_path, document_nodes,
  field_nodes, item_nodes,
}
use dota_mind.Artifacts.Grep.Paging.{yielded}
use dota_mind.Artifacts.Grep.Keys.{
  DistinctKeys, FieldsDistinct, ItemsDistinct, AllFields, AllItems, AllFields-map, AllItems-map,
  get_each, items_each,
}

-- A segment of a path: not empty, and without dots.
abbrev pub IsSegment : String → Type 0
IsSegment key = (str_eq key "" ≡ false) × (has_dot key ≡ false)

split_segment : (s : String) → has_dot s ≡ false → split b'.' s ≡ s ∷ []
unfolding split
split_segment String.[] h = refl
split_segment (String.◌∷◌ c s) h = elim (Bool-cases (code c == b'.')) [
  | inl e ↦ ground (arith, e, h)
  | inr e ↦ rw (e, split_segment s (rw e at h)) refl
]

resolve_path-segment : (v : Value) (key : String) → IsSegment key → resolve_path v key ≡ child v key
unfolding descend
resolve_path-segment v key h =
    rw (resolve_path_lem v key, split_segment key h.1, h.0)
      (elim (Outcome-cases (child v key)) [ inl (w, e) ↦ rw e refl | inr (x, e) ↦ rw e refl ])

has_dot-decimal : (s : String) → is_decimal s ≡ true → has_dot s ≡ false
has_dot-decimal String.[] h = refl
has_dot-decimal (String.◌∷◌ c s) h = elim (Bool-cases (leb 48 (code c) && leb (code c) 57)) [
  | inl e ↦ let q = has_dot-decimal s (rw e at h) in ground (arith, e, q)
  | inr e ↦ cc (rw e at h)
]

nonempty_zero : str_eq (repr 0) "" ≡ false
unfolding repr
nonempty_zero = refl

nonempty : (n : ℕ) → str_eq (repr n) "" ≡ false
nonempty zero = nonempty_zero
nonempty (suc n) = elim (Bool-cases (str_eq (repr (suc n)) "")) [
  | inl e ↦
      let empty : repr (suc n) ≡ "" = (eq_iff (repr (suc n)) "").0 e in
      let q : 0 ≡ suc n = sym (ap (int_from 0) empty) ∙ int_from-repr (suc n) in ground (arith, q)
  | inr e ↦ e
]

repr-Segment : (n : ℕ) → IsSegment (repr n)
repr-Segment n = (nonempty n, has_dot-decimal (repr n) (is_decimal-repr n))

child-repr : (xs : Items) (n : ℕ) → child (arr xs) (repr n) ≡ or_missing (get_elem? (to_list xs) n)
child-repr xs n = rw (is_decimal-repr n, int_from-repr n) refl

-- A path that is the document's own, or that a read resolves to the value.
abbrev pub Located : Value → String → Value → Type 0
Located payload path v = ((path ≡ "") × (v ≡ payload)) ⊎ (resolve_path payload path ≡ ok v)

resolve_path-empty : (payload : Value) → resolve_path payload "" ≡ err path_not_found
unfolding resolve_path
resolve_path-empty payload = refl

Located-child :
    (payload : Value) (path key : String) (v w : Value)
    → Located payload path v
    → IsSegment key
    → child v key ≡ ok w
    → Located payload (child_path path key) w
Located-child payload path key v w (inl (empty, whole)) segment found =
    rw empty (inr (resolve_path-segment payload key segment ∙ rw whole at found))
Located-child payload path key v w (inr at) segment found = elim (Bool-cases (str_eq path "")) [
  | inl e ↦ cc (at, resolve_path-empty payload, ap (resolve_path payload) ((eq_iff path "").0 e))
  | inr e ↦ rw e (
      inr (resolve_path-join payload path key ∙ rw at (resolve_path-segment v key segment ∙ found)))
]

yielded-yield_from :
    (P : Node → Type 0) (first second : Stream Node)
    → All P (yielded first)
    → All P (yielded second)
    → All P (yielded (yield_from first second))
yielded-yield_from P returned second h k = k
yielded-yield_from P raised second h k = tt
yielded-yield_from P (yields node rest) second h k = (h.0, yielded-yield_from P rest second h.1 k)

module _ (payload : Value) where
  abbrev IsLocated : Node → Type 0
  IsLocated node = Located payload node.path node.value

  mutual
    unfolding DistinctKeys document_nodes

    pub document_nodes-IsLocated :
        (v : Value) (path : String) (member : Option String)
        → DistinctKeys v
        → Located payload path v
        → All IsLocated (yielded (document_nodes v path member))
    document_nodes-IsLocated (obj fs) path member distinct at = (
      at,
      field_nodes-IsLocated fs path distinct (
          AllFields-map
            (λ key w found.
              λ segment. Located-child payload path key (obj fs) w at segment (rw found refl))
            fs (get_each fs distinct)),
    )
    document_nodes-IsLocated (arr xs) path member distinct at = (
      at,
      item_nodes-IsLocated xs 0 path distinct (
          AllItems-map
            (λ n w found.
              Located-child payload path (repr n) (arr xs) w at (repr-Segment n)
                (child-repr xs n ∙ rw found refl))
            0 xs (items_each xs)),
    )
    document_nodes-IsLocated null path member distinct at = (at, tt)
    document_nodes-IsLocated (bool b) path member distinct at = (at, tt)
    document_nodes-IsLocated (num n) path member distinct at = (at, tt)
    document_nodes-IsLocated (str s) path member distinct at = (at, tt)

    field_nodes-IsLocated :
        (fs : Fields) (path : String)
        → FieldsDistinct fs
        → AllFields (λ key w. IsSegment key → Located payload (child_path path key) w) fs
        → All IsLocated (yielded (field_nodes fs path))
    field_nodes-IsLocated end path distinct each = tt
    field_nodes-IsLocated (field key value rest) path distinct each =
        elim (Bool-cases (str_eq key "" || has_dot key)) [
          | inl e ↦ rw e tt
          | inr e ↦ rw e (
              yielded-yield_from IsLocated _ _
                (document_nodes-IsLocated value (child_path path key) (some key) distinct.1
                  (each.0 (ground (arith, e), ground (arith, e))))
                (field_nodes-IsLocated rest path distinct.2 each.1))
        ]

    item_nodes-IsLocated :
        (xs : Items) (n : ℕ) (path : String)
        → ItemsDistinct xs
        → AllItems (λ i w. Located payload (child_path path (repr i)) w) n xs
        → All IsLocated (yielded (item_nodes xs n path))
    item_nodes-IsLocated nil n path distinct each = tt
    item_nodes-IsLocated (cons value rest) n path distinct each =
        yielded-yield_from IsLocated _ _
          (document_nodes-IsLocated value (child_path path (repr n)) none distinct.0 each.0)
          (item_nodes-IsLocated rest (suc n) path distinct.1 each.1)
