-- ===== src/Artifacts/Grep/Resume.antt =====
-- `_grep_document`: what a page holds, and pages read one after another from each `next_offset`.
use native.Mathlib.Numerals.{unary_clauses}
use dota_mind.Prelude.{
  ℕ, zero, suc, ◌+◌, ◌-◌, ◌≤◌, ◌<◌, min, ltb, ◌≡◌, refl, ap, sym, subst, ◌∙◌, inl, inr, Bool, true,
  ◌||◌, String, none, some, List, [], ◌∷◌, ◌++◌, take, drop, length, length-take, length-drop,
  take-append-drop, Outcome, ok, ◌>>=◌, arith, Bool-cases, Outcome-cases,
}
use dota_mind.Json.{Value, serialized_size}
use dota_mind.Artifacts.Errors.{ArtifactError}
use dota_mind.Artifacts.Grep.{
  ArtifactGrepMatch, ArtifactGrepResult, grep_result, fit_matches, grep_document, matching_nodes,
  document_nodes, next_of, dump_grep,
}
use dota_mind.Artifacts.Grep.Paging.{yielded, returns, collect-page, fit_matches-Page}

take-take {ℓ} : {A : Type ℓ} (k n : ℕ) (xs : List A) → k ≤ n → take k (take n xs) ≡ take k xs
take-take zero n xs h = refl
take-take (suc k) zero xs h = ground (arith, h)
take-take (suc k) (suc n) [] h = refl
take-take (suc k) (suc n) (x ∷ xs) h = rw (take-take k n xs (omega (arith, h)))

length-page {ℓ} :
    {A : Type ℓ} (offset limit : ℕ) (all : List A)
    → length (take limit (drop offset all)) ≡ min limit (length all - offset)
length-page offset limit all = rw (length-take limit (drop offset all), length-drop offset all) refl

-- All the matches of a document, in its order.
abbrev pub all_matches : (String → String) → String → Value → String → List ArtifactGrepMatch
all_matches casefold ref payload pattern =
    yielded (matching_nodes casefold ref pattern (document_nodes payload "" none))

-- A page of the matches from an offset on.
abbrev pub IsPage : List ArtifactGrepMatch → ℕ → ℕ → ℕ → ArtifactGrepResult → Type 0
IsPage all offset limit max_bytes r =
    (r.matches ≡ take r.returned (drop offset all))
    × (r.returned ≡ length r.matches)
    × (r.returned ≤ limit)
    × (r.truncated ≡ ltb (offset + r.returned) (length all))
    × (r.next_offset ≡ next_of r.truncated (offset + r.returned))
    × (r.truncated ≡ true → 1 ≤ r.returned)
    × (serialized_size (dump_grep r) ≤ max_bytes)

part-IsPage :
    (all : List ArtifactGrepMatch) (offset limit max_bytes k : ℕ) (more : Bool)
    → k ≤ length (take limit (drop offset all))
    → more ≡ ltb (offset + k) (length all)
    → (more ≡ true → 1 ≤ k)
    → serialized_size
        (dump_grep (grep_result offset limit (take k (take limit (drop offset all))) more))
      ≤ max_bytes
    → IsPage all offset limit max_bytes
        (grep_result offset limit (take k (take limit (drop offset all))) more)
part-IsPage all offset limit max_bytes k more few whole filled fits =
    let kept : length (take k (take limit (drop offset all))) ≡ k =
      omega (arith, length-take k (take limit (drop offset all)), few) in
    let within : k ≤ limit = omega (arith, few, length-take limit (drop offset all)) in
    rw kept (
      take-take k limit (drop offset all) within,
      refl,
      within,
      whole,
      refl,
      filled,
      rw kept at fits,
    )

whole-IsPage :
    (all : List ArtifactGrepMatch) (offset limit max_bytes : ℕ) {r : ArtifactGrepResult}
    → 1 ≤ limit
    → fit_matches max_bytes offset limit
        (take limit (drop offset all))
        (length (take limit (drop offset all)))
        (ltb (offset + limit) (length all))
      ≡ ok r
    → IsPage all offset limit max_bytes r
whole-IsPage all offset limit max_bytes {r} positive h =
    let ms = take limit (drop offset all) in
    let (which, fits) =
      fit_matches-Page max_bytes offset limit ms (length ms) (ltb (offset + limit) (length all))
        h in
    let size : length ms ≡ min limit (length all - offset) = length-page offset limit all in
    elim which [
      | inl q ↦ subst (IsPage all offset limit max_bytes) (sym q) (
          part-IsPage all offset limit max_bytes (length ms) (ltb (offset + limit) (length all))
            (omega arith) (ground (arith, size)) (λ t. ground (arith, size, t, positive))
            (subst (λ x. serialized_size (dump_grep x) ≤ max_bytes) q fits))
      | inr (k, some_left, fewer, q) ↦ subst (IsPage all offset limit max_bytes) (sym q) (
          part-IsPage all offset limit max_bytes k true (omega (arith, fewer))
            (ground (arith, size, fewer)) (λ t. some_left)
            (subst (λ x. serialized_size (dump_grep x) ≤ max_bytes) q fits))
    ]

-- A page of a search with a positive limit: its matches are those of the document from the offset
-- on, as many as it says and no more than the limit; it says that there are more exactly when there
-- are, and where to go on; then it holds at least one match; and it fits the byte limit.
pub grep_document-IsPage :
    (casefold : String → String) (ref : String) (payload : Value) (pattern : String)
    (limit offset max_bytes : ℕ) {r : ArtifactGrepResult}
    → 1 ≤ limit
    → grep_document casefold ref payload pattern limit offset max_bytes ≡ ok r
    → IsPage (all_matches casefold ref payload pattern) offset limit max_bytes r
unfolding grep_document
grep_document-IsPage casefold ref payload pattern limit offset max_bytes {r} positive h =
    let s = matching_nodes casefold ref pattern (document_nodes payload "" none) in
    elim (Bool-cases (ltb (offset + limit) (length (yielded s)) || returns s)) [
      | inl e ↦
          whole-IsPage (yielded s) offset limit max_bytes positive
            (rw (collect-page offset limit s, e) at h)
      | inr e ↦ cc (rw (collect-page offset limit s, e) at h)
    ]

-- Pages read one after another, each from the `next_offset` of the one before, at most so many.
unfoldable pub read_pages :
    (String → String)
    → String
    → Value
    → String
    → ℕ
    → ℕ
    → ℕ
    → ℕ
    → Outcome ArtifactError (List ArtifactGrepMatch)
unfolding grep_document
read_pages casefold ref payload pattern limit max_bytes zero offset = ok []
read_pages casefold ref payload pattern limit max_bytes (suc fuel) offset = do
  r ← grep_document casefold ref payload pattern limit offset max_bytes
  rest ← elim r.next_offset [
    | none ↦ ok []
    | some next ↦ read_pages casefold ref payload pattern limit max_bytes fuel next
  ]
  ok (r.matches ++ rest)

drop-drop {ℓ} : {A : Type ℓ} (m n : ℕ) (xs : List A) → drop m (drop n xs) ≡ drop (n + m) xs
drop-drop m zero xs = let e : m ≡ 0 + m = omega arith in ap (λ k. drop k xs) e
drop-drop zero (suc n) [] = simp unary_clauses refl
drop-drop (suc m) (suc n) [] = simp unary_clauses refl
drop-drop m (suc n) (x ∷ xs) =
    let e : suc n + m ≡ suc (n + m) = omega arith in rw e (drop-drop m n xs)

drop_beyond {ℓ} : {A : Type ℓ} (n : ℕ) (xs : List A) → length xs ≤ n → drop n xs ≡ []
drop_beyond zero [] h = refl
drop_beyond zero (x ∷ xs) h = ground (arith, h)
drop_beyond (suc n) [] h = refl
drop_beyond (suc n) (x ∷ xs) h = drop_beyond n xs (omega (arith, h))

-- A page and what comes after it.
page-append :
    (all : List ArtifactGrepMatch) (offset k : ℕ)
    → take k (drop offset all) ++ drop (offset + k) all ≡ drop offset all
page-append all offset k =
    ap (λ xs. take k (drop offset all) ++ xs) (sym (drop-drop k offset all))
    ∙ take-append-drop k (drop offset all)

module _ (casefold : String → String) (ref : String) (payload : Value) (pattern : String)
    (limit max_bytes : ℕ) where
  -- Pages of a search with a positive limit, read one after another from an offset, each from the
  -- `next_offset` of the one before, are together all the matches of the document from that offset
  -- on, unless one of them raises: one page for each match and one more are enough.
  pub read_pages-all_matches :
      (fuel offset : ℕ) {ms : List ArtifactGrepMatch}
      → 1 ≤ limit
      → length (all_matches casefold ref payload pattern) < offset + fuel
      → read_pages casefold ref payload pattern limit max_bytes fuel offset ≡ ok ms
      → ms ≡ drop offset (all_matches casefold ref payload pattern)
  unfolding read_pages
  read_pages-all_matches zero offset positive enough h =
      let nothing =
        drop_beyond offset (all_matches casefold ref payload pattern) (omega (arith, enough)) in
      cc (h, nothing)
  read_pages-all_matches (suc fuel) offset {ms} positive enough h =
      let all = all_matches casefold ref payload pattern in
      elim (Outcome-cases (grep_document casefold ref payload pattern limit offset max_bytes)) [
        | inl (r, e) ↦
            let (ms_eq, size, within, whole, next, filled, fits) =
              grep_document-IsPage casefold ref payload pattern limit offset max_bytes positive e in
            elim (Bool-cases r.truncated) [
              | inl t ↦
                  elim (Outcome-cases (
                    read_pages casefold ref payload pattern limit max_bytes fuel
                      (offset + r.returned))) [
                        | inl (rest, f) ↦
                            let IH =
                              read_pages-all_matches fuel (offset + r.returned) positive
                                (omega (arith, enough, filled t)) f in
                            let h' = rw (e, next, t, f) at h in
                            let q : ms ≡ r.matches ++ rest = cc (h') in
                            q ∙ rw (ms_eq, IH) (page-append all offset r.returned)
                        | inr (x, f) ↦ cc (rw (e, next, t, f) at h)
                      ]
              | inr t ↦
                  let h' = rw (e, next, t) at h in
                  let q : ms ≡ r.matches ++ [] = cc (h') in
                  let beyond = drop_beyond (offset + r.returned) all (ground (arith, whole, t)) in
                  q
                  ∙ rw ms_eq (
                      ap (λ xs. take r.returned (drop offset all) ++ xs) (sym beyond)
                      ∙ page-append all offset r.returned)
            ]
        | inr (x, e) ↦ cc (rw e at h)
      ]
