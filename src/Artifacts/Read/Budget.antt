-- ===== src/Artifacts/Read/Budget.antt =====
-- What a read returns: within the byte budget, and as much of a page as fits.
use dota_mind.Prelude.{
  ℕ, zero, suc, ◌≤◌, ◌<◌, ◌≡◌, refl, ap, ◌⊎◌, inl, inr, true, false, leb→le, String, Option, List,
  [], ◌∷◌, take, drop, length, length-drop, ok, arith, Bool-cases, Outcome-cases,
}
use dota_mind.Prelude.Int.{ℤ, pos, negsuc}
use dota_mind.Json.{Value, arr, to_list, of_list, serialized_size}
use dota_mind.Artifacts.Paths.{resolve_path}
use dota_mind.Artifacts.Read.{
  ReadResult, ArtifactReader, dump, fits, fit_result, with_items, pop_until_fits, fit_list_result,
  page, validate_pagination, or_int, read_value, read, read_outline, payload_of,
}

fits_le : (m : ℕ) (r : ReadResult) → fits m r ≡ true → serialized_size (dump r) ≤ m
unfolding fits
fits_le m r h = leb→le _ _ h

fit_result_fits :
    (m : ℕ) (r : ReadResult) {r' : ReadResult} → fit_result m r ≡ ok r' → fits m r' ≡ true
unfolding fit_result
fit_result_fits m r h = ground arith

pop_until_fits_fits :
    (m : ℕ) (r : ReadResult) (xs : List Value) (n : ℕ) {r' : ReadResult}
    → pop_until_fits m r xs n ≡ ok r'
    → fits m r' ≡ true
unfolding pop_until_fits
pop_until_fits_fits m r xs zero h = ground arith
pop_until_fits_fits m r xs (suc n) h = elim (Bool-cases (fits m (with_items r (take (suc n) xs)))) [
  | inl e ↦ ground arith
  | inr e ↦ pop_until_fits_fits m r xs n (rw e at h)
]

fit_list_result_fits :
    (m : ℕ) (r : ReadResult) (xs : List Value) {r' : ReadResult}
    → fit_list_result m r xs ≡ ok r'
    → fits m r' ≡ true
unfolding fit_list_result
fit_list_result_fits m r xs {r'} h = elim (Bool-cases (fits m r)) [
  | inl e ↦ ground arith
  | inr e ↦ elim (Bool-cases (fits m (with_items r (take 0 xs)))) [
    | inl f ↦ pop_until_fits_fits m r xs (length xs) (rw (e, f) at h)
    | inr f ↦ ground arith
  ]
]

read_value_fits :
    (m : ℕ) (ref path : String) (offset limit : Option ℤ) (v : Value) {r : ReadResult}
    → read_value m ref path offset limit v ≡ ok r
    → fits m r ≡ true
unfolding read_value
read_value_fits m ref path offset limit (arr items) h =
    elim (Outcome-cases (validate_pagination (or_int offset 0) (or_int limit 50))) [
      | inl ((start, size), e) ↦ fit_list_result_fits m _ _ (rw e at h)
      | inr (x, e) ↦ ground arith
    ]
read_value_fits m ref path offset limit v h = ground arith

-- What `artifact.read` returns serializes to at most the observation budget of its reader.
pub read_bounded :
    (reader : ArtifactReader) (ref path : String) (offset limit : Option ℤ) {r : ReadResult}
    → read reader ref path offset limit ≡ ok r
    → serialized_size (dump r) ≤ reader.observation_max_bytes
unfolding read
read_bounded reader ref path offset limit {r} h = elim (Outcome-cases (payload_of reader ref)) [
  | inr (x, e) ↦ ground arith
  | inl (payload, e) ↦ elim (Outcome-cases (resolve_path payload path)) [
    | inr (x, f) ↦ ground arith
    | inl (v, f) ↦
        fits_le _ r
          (read_value_fits reader.observation_max_bytes ref path offset limit v (rw (e, f) at h))
  ]
]

-- So does an outline.
pub read_outline_bounded :
    (reader : ArtifactReader) (ref : String) {r : ReadResult}
    → read_outline reader ref ≡ ok r
    → serialized_size (dump r) ≤ reader.observation_max_bytes
unfolding read_outline
read_outline_bounded reader ref {r} h = fits_le _ r (ground arith)

-- Of the prefixes with at most `n` items, none that is longer than `k` fits.
abbrev pub NoLonger : ℕ → ReadResult → List Value → ℕ → ℕ → Type 0
NoLonger m r xs k zero = Unit
NoLonger m r xs k (suc n) =
    ((suc n ≤ k) ⊎ (fits m (with_items r (take (suc n) xs)) ≡ false)) × NoLonger m r xs k n

NoLonger-below : (m : ℕ) (r : ReadResult) (xs : List Value) (k n : ℕ) → n ≤ k → NoLonger m r xs k n
NoLonger-below m r xs k zero h = tt
NoLonger-below m r xs k (suc n) h = (inl h, NoLonger-below m r xs k n (omega arith))

-- The result fits and holds a longest prefix that does, and that prefix is not empty.
abbrev pub LongestPrefix : ℕ → ReadResult → List Value → ℕ → ReadResult → Type 0
LongestPrefix m r xs n r' =
    (fits m r' ≡ true)
    × (k : ℕ) × (0 < k)
    × (k ≤ n)
    × (r' ≡ with_items r (take k xs))
    × NoLonger m r xs k n

pop_until_fits-LongestPrefix :
    (m : ℕ) (r : ReadResult) (xs : List Value) (n : ℕ) {r' : ReadResult}
    → pop_until_fits m r xs n ≡ ok r'
    → LongestPrefix m r xs n r'
unfolding pop_until_fits
pop_until_fits-LongestPrefix m r xs zero h = ground arith
pop_until_fits-LongestPrefix m r xs (suc n) {r'} h =
    elim (Bool-cases (fits m (with_items r (take (suc n) xs)))) [
      | inl e ↦ (
        pop_until_fits_fits m r xs (suc n) h,
        suc n,
        omega arith,
        omega arith,
        ground arith,
        NoLonger-below m r xs (suc n) (suc n) (omega arith),
      )
      | inr e ↦
          let (fitting, k, p, le, eq, longer) = pop_until_fits-LongestPrefix m r xs n (rw e at h) in
          (fitting, k, p, omega arith, eq, (inr e, longer))
    ]

-- Where a page does not fit and a result is returned, the result fits, and it is the page cut to
-- its longest prefix that fits, which is not empty, with `truncated` set.
pub fit_list_result-LongestPrefix :
    (m : ℕ) (r : ReadResult) (xs : List Value) {r' : ReadResult}
    → fits m r ≡ false
    → fit_list_result m r xs ≡ ok r'
    → LongestPrefix m r xs (length xs) r'
unfolding fit_list_result
fit_list_result-LongestPrefix m r xs n h = elim (Bool-cases (fits m (with_items r (take 0 xs)))) [
  | inl f ↦ pop_until_fits-LongestPrefix m r xs (length xs) (rw (n, f) at h)
  | inr f ↦ ground arith
]

take_all : (n : ℕ) (xs : List Value) → length xs ≤ n → take n xs ≡ xs
take_all zero [] h = refl
take_all zero (x ∷ xs) h = absurd (omega arith)
take_all (suc n) [] h = refl
take_all (suc n) (x ∷ xs) h = ap (◌∷◌ x) (take_all n xs (omega arith))

with_items-truncated :
    (m : ℕ) (r : ReadResult) (xs : List Value) {r' : ReadResult}
    → fit_list_result m r xs ≡ ok r'
    → r'.truncated ≡ false
    → r' ≡ r
unfolding fit_list_result
with_items-truncated m r xs {r'} h t = elim (Bool-cases (fits m r)) [
  | inl e ↦ ground arith
  | inr e ↦ let (_, k, _, _, eq, _) = fit_list_result-LongestPrefix m r xs e h in ground arith
]

validate_pagination_start :
    (offset limit : ℤ) (start size : ℕ)
    → validate_pagination offset limit ≡ ok (start, size)
    → offset ≡ pos start
validate_pagination_start (pos a) (pos b) start size h = ground arith
validate_pagination_start (pos a) (negsuc b) start size h = ground arith
validate_pagination_start (negsuc a) limit start size h = ground arith

page_complete :
    (ref path : String) (xs : List Value) (start size : ℕ)
    → (page ref path xs start size).truncated ≡ false
    → (page ref path xs start size).value ≡ arr (of_list (drop start xs))
page_complete ref path xs start size h =
    ap (λ ys. arr (of_list ys))
      (take_all size (drop start xs) (ground (arith, length-drop start xs)))

-- A read of a list that is not marked truncated holds every item from the offset on.
pub read_value_complete :
    (m : ℕ) (ref path : String) (offset limit : Option ℤ) (items : _) (start : ℕ) {r : ReadResult}
    → or_int offset 0 ≡ pos start
    → read_value m ref path offset limit (arr items) ≡ ok r
    → r.truncated ≡ false
    → r.value ≡ arr (of_list (drop start (to_list items)))
unfolding read_value
read_value_complete m ref path offset limit items start {r} o h t =
    elim (Outcome-cases (validate_pagination (or_int offset 0) (or_int limit 50))) [
      | inr (x, e) ↦ ground arith
      | inl ((first, size), e) ↦
          let full =
            with_items-truncated m (page ref path (to_list items) first size) _ (rw e at h) t in
          let same = validate_pagination_start (or_int offset 0) (or_int limit 50) first size e in
          ground (
            arith,
            page_complete ref path (to_list items) first size,
            ap (λ (p : ReadResult). p.value) full,
            ap (λ (p : ReadResult). p.truncated) full,
          )
    ]
