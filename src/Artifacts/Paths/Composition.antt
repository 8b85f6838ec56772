-- ===== src/Artifacts/Paths/Composition.antt =====
-- Paths compose: what a nested path selects.
use Prim.Native.Char.{Char, code}
use Prim.Native.String.{◌++◌ as append_text}
use Prim.Native.String.append
use dota_mind.Prelude.{
  ℕ, ◌==◌, Bool, false, ◌||◌, ◌≡◌, refl, sym, ap, ◌∙◌, inl, inr, String, str_eq, split, push_char,
  List, [], ◌∷◌, ◌++◌, any, err, ◌>>=◌, if◌then◌else◌, arith, Bool-cases, Outcome-cases, eq_iff,
}
use dota_mind.Json.{Value, obj}
use dota_mind.Artifacts.Errors.{ArtifactError, path_not_found}
use dota_mind.Artifacts.Paths.{child, descend, resolve_path}

push_char_twice :
    (x y : Char) (ss ts : List String)
    → push_char x (push_char y ss) ++ ts ≡ push_char x (push_char y ss ++ ts)
push_char_twice x y [] ts = refl
push_char_twice x y (s ∷ ss) ts = refl

push_char-append :
    (sep : ℕ) (x : Char) (p : String) (ts : List String)
    → push_char x (split sep p) ++ ts ≡ push_char x (split sep p ++ ts)
unfolding split
push_char-append sep x String.[] ts = refl
push_char-append sep x (String.◌∷◌ y p) ts = elim (Bool-cases (code y == sep)) [
  | inl e ↦ rw e
  | inr e ↦ rw e (push_char_twice x y (split sep p) ts)
]

-- Splitting a text at a separator gives the parts before it and the parts after it.
split-append :
    (c : Char) (p q : String)
    → split (code c) (append_text p (String.◌∷◌ c q)) ≡ split (code c) p ++ split (code c) q
unfolding split
split-append c String.[] q = rw append.nil (ground arith)
split-append c (String.◌∷◌ d p) q = rw append.cons (elim (Bool-cases (code d == code c)) [
  | inl e ↦ rw (e, split-append c p q)
  | inr e ↦ rw (e, split-append c p q) (sym (push_char-append (code c) d p (split (code c) q)))
])

any-append : (t : String → Bool) (xs ys : List String) → any t (xs ++ ys) ≡ (any t xs || any t ys)
any-append t [] ys = refl
any-append t (x ∷ xs) ys = ground (arith, any-append t xs ys)

descend-append :
    (v : Value) (xs ys : List String) → descend v (xs ++ ys) ≡ (descend v xs >>= λ w. descend w ys)
unfolding descend
descend-append v [] ys = refl
descend-append v (x ∷ xs) ys = elim (Outcome-cases (child v x)) [
  | inl (w, e) ↦ rw e (descend-append w xs ys)
  | inr (x', e) ↦ rw e
]

-- The only error of a path is that it is not found.
child_err : (v : Value) (x : String) {e : ArtifactError} → child v x ≡ err e → e ≡ path_not_found
child_err (obj fs) x h = ground arith
child_err v x h = ground arith

descend_err :
    (v : Value) (xs : List String) {e : ArtifactError} → descend v xs ≡ err e → e ≡ path_not_found
unfolding descend
descend_err v [] h = ground arith
descend_err v (x ∷ xs) h = elim (Outcome-cases (child v x)) [
  | inl (w, q) ↦ descend_err w xs (rw q at h)
  | inr (x', q) ↦ child_err v x (q ∙ rw q at h)
]

abbrev blank : String → Bool
blank segment = str_eq segment ""

str_eq-cons : (c : Char) (p : String) → str_eq (String.◌∷◌ c p) "" ≡ false
str_eq-cons c p = elim (Bool-cases (str_eq (String.◌∷◌ c p) "")) [
  | inl e ↦ cc ((eq_iff (String.◌∷◌ c p) "").0 e)
  | inr e ↦ e
]

-- The test of the empty path is one of the test of its segments.
pub resolve_path_lem :
    (v : Value) (p : String)
    → resolve_path v p
      ≡ (if any blank (split b'.' p) then err path_not_found else descend v (split b'.' p))
unfolding resolve_path split
resolve_path_lem v String.[] = refl
resolve_path_lem v (String.◌∷◌ c p) = rw (str_eq-cons c p)

split-join :
    (p q : String) → split b'.' (append_text p (append_text "." q)) ≡ split b'.' p ++ split b'.' q
split-join p q =
    ap (λ r. split b'.' (append_text p r))
      (append.cons "." "" q ∙ ap (String.◌∷◌ ".") (append.nil q))
    ∙ split-append "." p q

-- A path that joins two paths by a dot selects what the second selects in what the first selects,
-- and fails where either fails.
pub resolve_path-join :
    (v : Value) (p q : String)
    → resolve_path v (append_text p (append_text "." q))
      ≡ (resolve_path v p >>= λ w. resolve_path w q)
resolve_path-join v p q =
    rw
      (
        resolve_path_lem v (append_text p (append_text "." q)),
        resolve_path_lem v p,
        split-join p q,
        any-append blank (split b'.' p) (split b'.' q),
        descend-append v (split b'.' p) (split b'.' q),
      )
      (elim (Bool-cases (any blank (split b'.' p))) [
        | inl e ↦ rw e
        | inr e ↦ rw e (elim (Outcome-cases (descend v (split b'.' p))) [
          | inl (w, f) ↦ rw f (sym (resolve_path_lem w q))
          | inr (x, f) ↦ rw f (ground (arith, descend_err v (split b'.' p) f))
        ])
      ])
