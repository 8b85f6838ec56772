-- ===== src/Json/Equality.antt =====
-- Lemmas on Python's `==` of JSON values.
use dota_mind.Prelude.{
  ◌==◌, ◌&&◌, ◌≡◌, refl, sym, ap, ◌∙◌, inl, inr, eq_iff, arith, Bool, true, false, String, str_eq,
  none, some, Bool-cases, Option-cases, ℕ,
}
use dota_mind.Prelude.Int.{ℤ, pos, negsuc, int_eq}
use dota_mind.Json.Defs.{
  Value, Items, Fields, null, bool, num, str, arr, obj, nil, cons, end, field, get, count,
}
use dota_mind.Json.Same.{int_of, is_number, same_value, same_items, same_fields}

int_eq_trans : (a b c : ℤ) → int_eq a b ≡ true → int_eq b c ≡ true → int_eq a c ≡ true
int_eq_trans (pos a) (pos b) (pos c) h k = ground arith
int_eq_trans (negsuc a) (negsuc b) (negsuc c) h k = ground arith
int_eq_trans (pos a) (pos b) (negsuc c) h k = ground arith
int_eq_trans (pos a) (negsuc b) c h k = cc
int_eq_trans (negsuc a) (pos b) c h k = cc
int_eq_trans (negsuc a) (negsuc b) (pos c) h k = ground arith

-- What equals a number is a number.
is_number-is_number :
    (n : ℤ) (v w : Value) → is_number n v ≡ true → same_value v w ≡ true → is_number n w ≡ true
unfolding same_value
is_number-is_number n null w h k = cc
is_number-is_number n (bool x) null h k = cc
is_number-is_number n (bool x) (bool y) h k = int_eq_trans n (int_of x) (int_of y) h k
is_number-is_number n (bool x) (num y) h k = int_eq_trans n (int_of x) y h k
is_number-is_number n (bool x) (str y) h k = cc
is_number-is_number n (bool x) (arr y) h k = cc
is_number-is_number n (bool x) (obj y) h k = cc
is_number-is_number n (num x) null h k = cc
is_number-is_number n (num x) (bool y) h k = int_eq_trans n x (int_of y) h k
is_number-is_number n (num x) (num y) h k = int_eq_trans n x y h k
is_number-is_number n (num x) (str y) h k = cc
is_number-is_number n (num x) (arr y) h k = cc
is_number-is_number n (num x) (obj y) h k = cc
is_number-is_number n (str x) w h k = cc
is_number-is_number n (arr x) w h k = cc
is_number-is_number n (obj x) w h k = cc

same_value-str :
    (x : String) (w : Value)
    → same_value (str x) w ≡ true
    → (y : String) × (w ≡ str y) × ((str_eq x y) ≡ true)
unfolding same_value
same_value-str x null h = cc
same_value-str x (bool y) h = cc
same_value-str x (num y) h = cc
same_value-str x (str y) h = (y, refl, h)
same_value-str x (arr y) h = cc
same_value-str x (obj y) h = cc

pub same_value-arr :
    (x : Items) (w : Value)
    → same_value (arr x) w ≡ true
    → (y : Items) × (w ≡ arr y) × ((same_items x y) ≡ true)
unfolding same_value
same_value-arr x null h = cc
same_value-arr x (bool y) h = cc
same_value-arr x (num y) h = cc
same_value-arr x (str y) h = cc
same_value-arr x (arr y) h = (y, refl, h)
same_value-arr x (obj y) h = cc

same_value-obj :
    (x : Fields) (w : Value)
    → same_value (obj x) w ≡ true
    → (y : Fields) × (w ≡ obj y) × (((count x == count y) && same_fields x y) ≡ true)
unfolding same_value
same_value-obj x null h = cc
same_value-obj x (bool y) h = cc
same_value-obj x (num y) h = cc
same_value-obj x (str y) h = cc
same_value-obj x (arr y) h = cc
same_value-obj x (obj y) h = (y, refl, h)

-- Equal dicts have equal values at each key.
same_fields-get :
    (k : String) (b c : Fields) {w : Value}
    → same_fields b c ≡ true
    → get k b ≡ some w
    → (u : Value) × (get k c ≡ some u) × (same_value w u ≡ true)
unfolding same_fields
same_fields-get k end c h g = cc
same_fields-get k (field j v fs) c {w} h g = elim (Option-cases (get j c)) [
  | inl e ↦ ground arith
  | inr (u, e) ↦ elim (Bool-cases (str_eq j k)) [
    | inl t ↦ let at : get k c ≡ some u = ground (arith, eq_iff j k, e) in (u, at, ground arith)
    | inr f ↦ same_fields-get k fs c (ground arith) (ground arith)
  ]
]

pub and_right : (p q : Bool) → p && q ≡ true → q ≡ true
and_right true q h = h
and_right false q h = cc

pub and_left : (p q : Bool) → p && q ≡ true → p ≡ true
and_left true q h = refl
and_left false q h = cc

no_value : false ≡ true → ⊥
no_value h = cc

both : (p q : Bool) → p ≡ true → q ≡ true → p && q ≡ true
both p q h k = rw (h, k)

counts_trans :
    (a b c : ℕ) (p q r : Bool)
    → (a == b) && p ≡ true
    → (b == c) && q ≡ true
    → r ≡ true
    → (a == c) && r ≡ true
counts_trans a b c p q r h k e = ground arith

-- What a test says of the value at a key, if there is one.
abbrev at_value : Fields → String → (Value → Bool) → Bool
at_value b key test = elim (get key b) [ none ↦ false | some w ↦ test w ]

at_value-some :
    (b : Fields) (key : String) (test : Value → Bool) {w : Value}
    → get key b ≡ some w
    → at_value b key test ≡ test w
at_value-some b key test e = rw (at_value, e)

at_value-none :
    (b : Fields) (key : String) (test : Value → Bool)
    → get key b ≡ none
    → at_value b key test ≡ false
at_value-none b key test e = rw (at_value, e)

mutual
  unfolding same_value same_items same_fields

  pub same_value_trans :
      (u v w : Value) → same_value u v ≡ true → same_value v w ≡ true → same_value u w ≡ true
  same_value_trans null null w h k = k
  same_value_trans null (bool y) w h k = cc
  same_value_trans null (num y) w h k = cc
  same_value_trans null (str y) w h k = cc
  same_value_trans null (arr y) w h k = cc
  same_value_trans null (obj y) w h k = cc
  same_value_trans (bool b) v w h k = is_number-is_number (int_of b) v w h k
  same_value_trans (num n) v w h k = is_number-is_number n v w h k
  same_value_trans (str s) v w h k =
      let (t, e, st) = same_value-str s v h in
      let (r, f, tr) = same_value-str t w (ap (λ x. same_value x w) (sym e) ∙ k) in
      rw f (ground (arith, eq_iff s t, eq_iff t r))
  same_value_trans (arr xs) v w h k =
      let (ys, e, xy) = same_value-arr xs v h in
      let (zs, f, yz) = same_value-arr ys w (ap (λ x. same_value x w) (sym e) ∙ k) in
      rw f (same_items_trans xs ys zs xy yz)
  same_value_trans (obj a) v w h k =
      let (b, e, ab) = same_value-obj a v h in
      let (c, f, bc) = same_value-obj b w (ap (λ x. same_value x w) (sym e) ∙ k) in
      let fields = same_fields_trans a b c (and_right _ _ ab) (and_right _ _ bc) in
      rw f (
        counts_trans (count a) (count b) (count c) (same_fields a b) (same_fields b c)
          (same_fields a c) ab bc fields)

  same_items_trans :
      (xs ys zs : Items)
      → same_items xs ys ≡ true
      → same_items ys zs ≡ true
      → same_items xs zs ≡ true
  same_items_trans nil nil zs h k = k
  same_items_trans nil (cons y ys) zs h k = cc
  same_items_trans (cons x xs) nil zs h k = cc
  same_items_trans (cons x xs) (cons y ys) nil h k = cc
  same_items_trans (cons x xs) (cons y ys) (cons z zs) h k =
      both _ _ (same_value_trans x y z (and_left _ _ h) (and_left _ _ k))
        (same_items_trans xs ys zs (and_right _ _ h) (and_right _ _ k))

  same_fields_trans :
      (a b c : Fields) → same_fields a b ≡ true → same_fields b c ≡ true → same_fields a c ≡ true
  same_fields_trans end b c h k = refl
  same_fields_trans (field key v fs) b c h k =
      let first = and_left (at_value b key (same_value v)) (same_fields fs b) h in
      elim (Option-cases (get key b)) [
        | inl e ↦ absurd (no_value (sym (at_value-none b key (same_value v) e) ∙ first))
        | inr (w, e) ↦
            let (u, f, wu) = same_fields-get key b c k e in
            let vw : same_value v w ≡ true = sym (at_value-some b key (same_value v) e) ∙ first in
            both (at_value c key (same_value v)) (same_fields fs c)
              (at_value-some c key (same_value v) f ∙ same_value_trans v w u vw wu)
              (same_fields_trans fs b c (and_right _ _ h) k)
      ]
