-- ===== src/Artifacts/Grep/Keys.antt =====
-- Documents whose objects have distinct keys: each key and each index selects its own value.
use dota_mind.Prelude.{
  ℕ, suc, ◌≡◌, refl, ap, inl, inr, String, str_eq, eq_iff, eq_refl, none, some, get_elem?, ◌∷◌,
  Bool-cases,
}
use dota_mind.Json.{Value, Items, Fields, arr, obj, nil, cons, end, field, get, to_list}

-- Every object has a key once, as a Python dict does.
unfoldable mutual
  pub DistinctKeys : Value → Type 0
  DistinctKeys (obj fs) = FieldsDistinct fs
  DistinctKeys (arr xs) = ItemsDistinct xs
  DistinctKeys value = Unit

  pub FieldsDistinct : Fields → Type 0
  FieldsDistinct end = Unit
  FieldsDistinct (field key value rest) =
      (get key rest ≡ none) × DistinctKeys value × FieldsDistinct rest

  pub ItemsDistinct : Items → Type 0
  ItemsDistinct nil = Unit
  ItemsDistinct (cons value rest) = DistinctKeys value × ItemsDistinct rest

abbrev pub AllFields : (String → Value → Type 0) → Fields → Type 0
AllFields P end = Unit
AllFields P (field key value rest) = P key value × AllFields P rest

abbrev pub AllItems : (ℕ → Value → Type 0) → ℕ → Items → Type 0
AllItems P n nil = Unit
AllItems P n (cons value rest) = P n value × AllItems P (suc n) rest

pub AllFields-map :
    {P Q : String → Value → Type 0}
    → ((key : String) (value : Value) → P key value → Q key value)
    → (fs : Fields) → AllFields P fs
    → AllFields Q fs
AllFields-map f end h = tt
AllFields-map f (field key value rest) h = (f key value h.0, AllFields-map f rest h.1)

pub AllItems-map :
    {P Q : ℕ → Value → Type 0}
    → ((n : ℕ) (value : Value) → P n value → Q n value)
    → (n : ℕ) (xs : Items) → AllItems P n xs
    → AllItems Q n xs
AllItems-map f n nil h = tt
AllItems-map f n (cons value rest) h = (f n value h.0, AllItems-map f (suc n) rest h.1)

-- In an object each key selects its own value, and in an array each index.
pub get_each :
    (fs : Fields) → FieldsDistinct fs → AllFields (λ key value. get key fs ≡ some value) fs
unfolding DistinctKeys
get_each end h = tt
get_each (field key value rest) h = (
  rw (eq_refl key) refl,
  AllFields-map
      (λ other w found. elim (Bool-cases (str_eq key other)) [
        | inl e ↦
            let same : key ≡ other = (eq_iff key other).0 e in
            cc (h.0, found, ap (λ k. get k rest) same)
        | inr e ↦ rw e found
      ])
      rest (get_each rest h.2),
)

AllItems-shift :
    (P : ℕ → Value → Type 0) (n : ℕ) (xs : Items)
    → AllItems (λ i value. P (suc i) value) n xs
    → AllItems P (suc n) xs
AllItems-shift P n nil h = tt
AllItems-shift P n (cons value rest) h = (h.0, AllItems-shift P (suc n) rest h.1)

pub items_each : (xs : Items) → AllItems (λ n value. get_elem? (to_list xs) n ≡ some value) 0 xs
items_each nil = tt
items_each (cons value rest) = (
  refl,
  AllItems-shift (λ n w. get_elem? (value ∷ to_list rest) n ≡ some w) 0 rest (items_each rest),
)
