-- ===== src/Lifecycle/Within.antt =====
-- When one observation covers another.
use dota_mind.Prelude.{
  ℕ, zero, suc, ◌+◌, ◌-◌, ◌≤◌, ◌≡◌, refl, sym, subst, ap, ◌∙◌, true, Option, none, some, List, [],
  ◌∷◌, length, take, drop, get_elem?, arith,
}
use dota_mind.Json.{
  Value, Items, null, bool, num, str, obj, arr, nil, cons, to_list, of_list, to_list-of_list,
  same_value, same_items,
}
use dota_mind.Json.Equality.{same_value_trans, same_value-arr, and_left, and_right}
use dota_mind.Session.Invariant.{get_elem?-drop}
use dota_mind.Lifecycle.Observe.{ArtifactObservation}
use dota_mind.Lifecycle.Cover.{items_of, slice_matches}

-- The items `old` are equal to those of `new` from the position `n` on.
abbrev pub Within : ℕ → List Value → List Value → Type 0
Within n new [] = Unit
Within n new (x ∷ xs) =
    ((y : Value) × (get_elem? new n ≡ some y) × (same_value x y ≡ true)) × Within (suc n) new xs

-- The items of a slice are within those of a later one, at their place; other values are equal.
abbrev pub CoversValue : Option ℕ → Option ℕ → Value → Value → Type 0
CoversValue (some s) (some n) old new = (n ≤ s) × Within (s - n) (items_of new) (items_of old)
CoversValue none none old new = same_value old new ≡ true
CoversValue none (some n) old new = ⊥
CoversValue (some s) none old new = ⊥

-- Whatever the observation `old` shows, `new` shows too.
abbrev pub Covers : ArtifactObservation → ArtifactObservation → Type 0
Covers old new =
    (old.ref ≡ new.ref)
    × (old.path ≡ new.path)
    × (old.kind ≡ new.kind)
    × CoversValue old.actual_start new.actual_start old.value new.value

Within-get :
    (n i : ℕ) (new old : List Value) {x : Value}
    → Within n new old
    → get_elem? old i ≡ some x
    → (y : Value) × (get_elem? new (n + i) ≡ some y) × (same_value x y ≡ true)
Within-get n i new [] w h = cc
Within-get n zero new (z ∷ old) {x} ((y, at, e), w) h = (
  y,
  subst (λ k. get_elem? new k ≡ some y) {x = n} {y = n + 0} (omega arith) at,
  subst (λ v. same_value v y ≡ true) (ground arith) e,
)
Within-get n (suc i) new (z ∷ old) (first, w) h =
    let (y, at, e) = Within-get (suc n) i new old w h in
    (y, subst (λ k. get_elem? new k ≡ some y) {x = suc n + i} {y = n + suc i} (omega arith) at, e)

Within-trans :
    (m n : ℕ) (new mid old : List Value)
    → Within m mid old
    → Within n new mid
    → Within (n + m) new old
Within-trans m n new mid [] h k = tt
Within-trans m n new mid (x ∷ old) ((y, at, e), h) k =
    let (z, there, f) = Within-get n m new mid k at in
    (
      (z, there, same_value_trans x y z e f),
      subst (λ i. Within i new old) {x = n + suc m} {y = suc (n + m)} (omega arith)
          (Within-trans (suc m) n new mid old h k),
    )

CoversValue-trans :
    (a b c : Option ℕ) (u v w : Value)
    → CoversValue a b u v
    → CoversValue b c v w
    → CoversValue a c u w
CoversValue-trans (some a) (some b) (some c) u v w (le, h) (le2, k) = (
  omega arith,
  subst (λ i. Within i (items_of w) (items_of u)) {x = (b - c) + (a - b)} {y = a - c} (omega arith)
      (Within-trans (a - b) (b - c) (items_of w) (items_of v) (items_of u) h k),
)
CoversValue-trans none none none u v w h k = same_value_trans u v w h k
CoversValue-trans (some a) (some b) none u v w h k = absurd k
CoversValue-trans (some a) none c u v w h k = absurd h
CoversValue-trans none (some b) c u v w h k = absurd h
CoversValue-trans none none (some c) u v w h k = absurd k

pub Covers-trans : (a b c : ArtifactObservation) → Covers a b → Covers b c → Covers a c
Covers-trans a b c (r, p, k, v) (r', p', k', v') = (
  r ∙ r',
  p ∙ p',
  k ∙ k',
  CoversValue-trans a.actual_start b.actual_start c.actual_start a.value b.value c.value v v',
)

-- Items that equal some of `new` from the position `s` on.
same_items-Within :
    (s : ℕ) (new : List Value) (xs ms : Items)
    → same_items xs ms ≡ true
    → ((i : ℕ) (y : Value) → get_elem? (to_list ms) i ≡ some y → get_elem? new (s + i) ≡ some y)
    → Within s new (to_list xs)
unfolding same_items
same_items-Within s new nil ms h at = tt
same_items-Within s new (cons x xs) nil h at = cc
same_items-Within s new (cons x xs) (cons m ms) h at = (
  (
    m,
    subst (λ k. get_elem? new k ≡ some m) {x = s + 0} {y = s} (omega arith) (at 0 m refl),
    and_left _ _ h,
  ),
  same_items-Within (suc s) new xs ms (and_right _ _ h) (λ i y e.
      subst (λ k. get_elem? new k ≡ some y) {x = s + suc i} {y = suc s + i} (omega arith)
        (at (suc i) y e)),
)

get_elem?-take {ℓ} :
    {A : Type ℓ} (k i : ℕ) (xs : List A) {y : A}
    → get_elem? (take k xs) i ≡ some y
    → get_elem? xs i ≡ some y
get_elem?-take zero i xs h = cc
get_elem?-take (suc k) i [] h = h
get_elem?-take (suc k) zero (x ∷ xs) h = h
get_elem?-take (suc k) (suc i) (x ∷ xs) h = get_elem?-take k i xs h

pub slice_matches-Within :
    (s : ℕ) (new old : List Value) → slice_matches s new old ≡ true → Within s new old
slice_matches-Within s new old h =
    let part = take (length old) (drop s new) in
    subst (Within s new) (to_list-of_list old) (
      same_items-Within s new (of_list old) (of_list part) h (λ i y e.
        sym (get_elem?-drop s i (s + i) new (omega arith))
        ∙ get_elem?-take (length old) i (drop s new)
            (ap (λ xs. get_elem? xs i) (sym (to_list-of_list part)) ∙ e)))

pub same_value-Within : (v w : Value) → same_value v w ≡ true → Within 0 (items_of w) (items_of v)
same_value-Within (arr xs) w h =
    let (ys, e, same) = same_value-arr xs w h in
    rw e (
      same_items-Within 0 (to_list ys) xs ys same (λ i y at.
        subst (λ k. get_elem? (to_list ys) k ≡ some y) {x = i} {y = 0 + i} (omega arith) at))
same_value-Within null w h = tt
same_value-Within (bool b) w h = tt
same_value-Within (num b) w h = tt
same_value-Within (str b) w h = tt
same_value-Within (obj b) w h = tt
