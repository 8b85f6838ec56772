-- ===== src/Artifacts/Grep/Paging.antt =====
-- `_grep_document`: its two loops.
use native.Mathlib.Numerals.{unary_clauses}
use dota_mind.Prelude.{
  leb→le, subst, ℕ, zero, suc, ◌+◌, ◌-◌, ◌==◌, ◌≤◌, ◌<◌, ltb, leb, ◌≡◌, refl, sym, ◌∙◌, ◌⊎◌, inl,
  inr, Bool, true, false, ◌||◌, List, [], ◌∷◌, take, drop, length, Outcome, ok, err, ◌>>=◌,
  if◌then◌else◌, arith, Bool-cases,
}
use dota_mind.Json.{serialized_size}
use dota_mind.Artifacts.Errors.{ArtifactError, read_validation}
use dota_mind.Artifacts.Grep.{
  Stream, returned, raised, yields, ArtifactGrepMatch, ArtifactGrepResult, collect, grep_result,
  fit_matches, dump_grep,
}

-- All that a generator yields, and whether it returns in the end.
abbrev pub yielded {ℓ} : {A : Type ℓ} → Stream A → List A
yielded returned = []
yielded raised = []
yielded (yields a rest) = a ∷ yielded rest

abbrev pub returns {ℓ} : {A : Type ℓ} → Stream A → Bool
returns returned = true
returns raised = false
returns (yields a rest) = returns rest

-- The page from an offset on, of at most so many elements, by the lists alone: it raises where the
-- generator raises before one element more is seen.
abbrev pub list_page {ℓ} :
    {A : Type ℓ} → ℕ → ℕ → List A → Bool → Outcome ArtifactError (List A × Bool)
list_page offset limit all complete =
    if ltb (offset + limit) (length all) || complete
    then ok (take limit (drop offset all), ltb (offset + limit) (length all))
    else err read_validation

take-nil {ℓ} : {A : Type ℓ} (n : ℕ) → take {A = A} n [] ≡ []
take-nil zero = refl
take-nil (suc n) = refl

drop-nil {ℓ} : {A : Type ℓ} (n : ℕ) → drop {A = A} n [] ≡ []
drop-nil zero = refl
drop-nil (suc n) = refl

none_below : (n : ℕ) → ltb n 0 ≡ false
none_below n = ground arith

some_above : (n : ℕ) → ltb 0 (suc n) ≡ true
some_above n = ground arith

-- One element that the offset skips, and one that the page holds.
list_page-skip {ℓ} :
    {A : Type ℓ} (offset limit : ℕ) (m : A) (all : List A) (complete : Bool)
    → list_page (suc offset) limit (m ∷ all) complete ≡ list_page offset limit all complete
list_page-skip offset limit m all complete =
    let e : ltb (suc offset + limit) (suc (length all)) ≡ ltb (offset + limit) (length all) =
      ground arith in
    rw e refl

list_page-keep {ℓ} :
    {A : Type ℓ} (limit : ℕ) (m : A) (all : List A) (complete : Bool)
    → list_page 0 (suc limit) (m ∷ all) complete
      ≡ (list_page 0 limit all complete >>= λ p. ok (m ∷ p.0, p.1))
list_page-keep limit m all complete =
    let e : ltb (0 + suc limit) (suc (length all)) ≡ ltb (0 + limit) (length all) = ground arith in
    rw e
      (elim (Bool-cases (ltb (0 + limit) (length all) || complete)) [ inl f ↦ rw f | inr f ↦ rw f ])

collect-page_from {ℓ} :
    {A : Type ℓ} (offset limit index kept : ℕ) (s : Stream A)
    → kept ≤ limit
    → collect offset limit index kept s
      ≡ list_page (offset - index) (limit - kept) (yielded s) (returns s)
unfolding collect
collect-page_from offset limit index kept returned h =
    rw (drop-nil (offset - index), take-nil (limit - kept))
      (rw (none_below (offset - index + (limit - kept))) refl)
collect-page_from offset limit index kept raised h =
    rw (drop-nil (offset - index), take-nil (limit - kept))
      (rw (none_below (offset - index + (limit - kept))) refl)
collect-page_from offset limit index kept (yields m rest) h = elim (Bool-cases (ltb index offset)) [
  | inl e ↦
      let o : offset - index ≡ suc (offset - suc index) = ground (arith, e) in
      rw (e, o)
        (collect-page_from offset limit (suc index) kept rest h
          ∙ sym
              (list_page-skip (offset - suc index) (limit - kept) m (yielded rest) (returns rest)))
  | inr e ↦
      let o : offset - index ≡ 0 = ground (arith, e) in
      elim (Bool-cases (kept == limit)) [
        | inl f ↦
            let l : limit - kept ≡ 0 = ground (arith, f) in
            rw (e, f, o, l) (rw (some_above (length (yielded rest))) refl)
        | inr f ↦
            let l : limit - kept ≡ suc (limit - suc kept) = ground (arith, f, h) in
            let o' : offset - suc index ≡ 0 = ground (arith, e) in
            rw (e, f, o, l)
              (rw
                (
                  collect-page_from offset limit (suc index) (suc kept) rest (ground (arith, h, f)),
                  o',
                )
                (sym (list_page-keep (limit - suc kept) m (yielded rest) (returns rest))))
      ]
]

-- The loop over the matches returns the slice of all of them that the offset and the limit select,
-- and whether there are more after it. It raises exactly where the generator raises before it has
-- yielded one element after the slice.
pub collect-page {ℓ} :
    {A : Type ℓ} (offset limit : ℕ) (s : Stream A)
    → collect offset limit 0 0 s ≡ list_page offset limit (yielded s) (returns s)
collect-page offset limit s =
    collect-page_from offset limit 0 0 s (omega arith) ∙ simp (unary_clauses) refl

-- What the loop that drops matches returns, for a page of which `n` matches are left: the page, or
-- fewer of its matches, at least one; and it fits.
pub fit_matches-Page :
    (max_bytes offset limit : ℕ) (matches : List ArtifactGrepMatch) (n : ℕ) (more : Bool)
    {r : ArtifactGrepResult}
    → fit_matches max_bytes offset limit matches n more ≡ ok r
    → ((r ≡ grep_result offset limit (take n matches) more)
        ⊎ ((k : ℕ) × (1 ≤ k) × (k < n) × (r ≡ grep_result offset limit (take k matches) true)))
      × (serialized_size (dump_grep r) ≤ max_bytes)
unfolding fit_matches
fit_matches-Page max_bytes offset limit matches zero more {r} h =
    let result = grep_result offset limit [] more in
    elim (Bool-cases (leb (serialized_size (dump_grep result)) max_bytes)) [
      | inl e ↦
          let q : result ≡ r = cc (rw e at h) in
          (inl (sym q), subst (λ x. serialized_size (dump_grep x) ≤ max_bytes) q (leb→le _ _ e))
      | inr e ↦ cc (rw e at h)
    ]
fit_matches-Page max_bytes offset limit matches (suc n) more {r} h =
    let result = grep_result offset limit (take (suc n) matches) more in
    elim (Bool-cases (leb (serialized_size (dump_grep result)) max_bytes)) [
      | inl e ↦
          let q : result ≡ r = cc (rw e at h) in
          (inl (sym q), subst (λ x. serialized_size (dump_grep x) ≤ max_bytes) q (leb→le _ _ e))
      | inr e ↦ elim (Bool-cases (leb (suc n) 1)) [
        | inl f ↦ cc (rw (e, f) at h)
        | inr f ↦
            let (which, fits) =
              fit_matches-Page max_bytes offset limit matches n true (rw (e, f) at h) in
            let many : 1 ≤ n = ground (arith, f) in
            (
              inr (elim which [
                | inl q ↦ (n, many, omega arith, q)
                | inr (k, few, less, q) ↦ (k, few, omega (arith, less), q)
              ]),
              fits,
            )
      ]
    ]
