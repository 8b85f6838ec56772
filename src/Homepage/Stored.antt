-- ===== src/Homepage/Stored.antt =====
-- The Redis hash implements the cache entry: what is read back after any writes.
use dota_mind.Prelude.{
  ◌≡◌, refl, ap, sym, ◌∙◌, inl, inr, true, String, str_eq, eq_iff, contains, none, [], ◌∷◌, ◌++◌,
  ok, arith, Bool-cases,
}
use dota_mind.Prelude.Dict.{Dict, lookup, insert, lookup-insert}
use dota_mind.Homepage.Redis.{cache_fields, fields_of}

-- Known keys, each of them once.
abbrev pub Proper : Dict String → Type 0
Proper [] = Unit
Proper ((key, value) ∷ rest) =
    (lookup key rest ≡ none) × (contains cache_fields key ≡ true) × Proper rest

pub insert-Proper :
    (key value : String) (hash : Dict String)
    → contains cache_fields key ≡ true
    → Proper hash
    → Proper (insert key value hash)
unfolding insert lookup
insert-Proper key value [] known h = (refl, known, tt)
insert-Proper key value ((k, v) ∷ rest) known h = elim (Bool-cases (str_eq k key)) [
  | inl e ↦ rw e h
  | inr e ↦ rw e (
    lookup-insert key k value rest ∙ ground (arith, eq_iff k key, eq_iff key k, e, h.0),
    h.1,
    insert-Proper key value rest known h.2,
  )
]

-- The keys of one hash are not in another.
abbrev pub Apart : Dict String → Dict String → Type 0
Apart fields [] = Unit
Apart fields ((key, value) ∷ rest) = (lookup key fields ≡ none) × Apart fields rest

Apart-insert :
    (key value : String) (fields hash : Dict String)
    → lookup key hash ≡ none
    → Apart fields hash
    → Apart (insert key value fields) hash
unfolding lookup
Apart-insert key value fields [] h a = tt
Apart-insert key value fields ((k, v) ∷ rest) h a = elim (Bool-cases (str_eq k key)) [
  | inl e ↦ cc (rw e at h)
  | inr e ↦ (
    lookup-insert key k value fields ∙ ground (arith, eq_iff k key, eq_iff key k, e, a.0),
    Apart-insert key value fields rest (rw e at h) a.1,
  )
]

insert_new :
    (key value : String) (fields : Dict String)
    → lookup key fields ≡ none
    → insert key value fields ≡ fields ++ (key, value) ∷ []
unfolding insert lookup
insert_new key value [] h = refl
insert_new key value ((k, v) ∷ rest) h = elim (Bool-cases (str_eq k key)) [
  | inl e ↦ cc (rw e at h)
  | inr e ↦ rw e (ap (λ r. (k, v) ∷ r) (insert_new key value rest (rw e at h)))
]

append_assoc : (xs ys zs : Dict String) → (xs ++ ys) ++ zs ≡ xs ++ (ys ++ zs)
append_assoc [] ys zs = refl
append_assoc (x ∷ xs) ys zs = ap (λ r. x ∷ r) (append_assoc xs ys zs)

append_nil : (xs : Dict String) → xs ++ [] ≡ xs
append_nil [] = refl
append_nil (x ∷ xs) = ap (λ r. x ∷ r) (append_nil xs)

pub fields_of-Proper :
    (fields hash : Dict String)
    → Proper hash
    → Apart fields hash
    → fields_of fields hash ≡ ok (fields ++ hash)
unfolding fields_of
fields_of-Proper fields [] h a = ap ok (sym (append_nil fields))
fields_of-Proper fields ((key, value) ∷ rest) h a =
    rw (a.0, h.1)
      (fields_of-Proper (insert key value fields) rest h.2
          (Apart-insert key value fields rest h.0 a.1)
        ∙ ap ok (
            ap (λ r. r ++ rest) (insert_new key value fields a.0)
            ∙ append_assoc fields ((key, value) ∷ []) rest))
