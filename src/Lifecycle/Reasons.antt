-- ===== src/Lifecycle/Reasons.antt =====
-- What the reasons of `_replacement_reason` mean.
use dota_mind.Prelude.{
  ℕ, ◌-◌, ◌≡◌, refl, sym, subst, ap, ◌∙◌, inl, inr, ltb, ◌==◌, ◌&&◌, ◌||◌, not, Bool, true, eq_iff,
  String, str_eq, Bool-cases, Option, none, some, arith,
}
use dota_mind.Json.{Value, same_value}
use dota_mind.Json.Equality.{and_left, and_right}
use dota_mind.Lifecycle.Observe.{ObservationKind, ArtifactObservation}
use dota_mind.Lifecycle.Cover.{
  Reason, same_path, same_index, same_observation_kind, is_slice, is_exact_duplicate, items_of,
  slice_matches, range_covers, is_full_superset, replacement_reason,
}
use dota_mind.Lifecycle.Within.{
  Within, CoversValue, Covers, slice_matches-Within, same_value-Within,
}

same_path-same : (p q : Option String) → same_path p q ≡ true → p ≡ q
same_path-same none none h = refl
same_path-same (some p) (some q) h = ap some (ground (arith, eq_iff p q))
same_path-same none (some q) h = cc
same_path-same (some p) none h = cc

observation_kind_same : (a b : ObservationKind) → same_observation_kind a b ≡ true → a ≡ b
observation_kind_same ObservationKind.outline ObservationKind.outline h = refl
observation_kind_same ObservationKind.outline ObservationKind.list_slice h = cc
observation_kind_same ObservationKind.outline ObservationKind.value h = cc
observation_kind_same ObservationKind.list_slice ObservationKind.outline h = cc
observation_kind_same ObservationKind.list_slice ObservationKind.list_slice h = refl
observation_kind_same ObservationKind.list_slice ObservationKind.value h = cc
observation_kind_same ObservationKind.value ObservationKind.outline h = cc
observation_kind_same ObservationKind.value ObservationKind.list_slice h = cc
observation_kind_same ObservationKind.value ObservationKind.value h = refl

slice_kind : (a : ObservationKind) → is_slice a ≡ true → a ≡ ObservationKind.list_slice
slice_kind ObservationKind.outline h = cc
slice_kind ObservationKind.list_slice h = refl
slice_kind ObservationKind.value h = cc

duplicate-CoversValue :
    (a b : Option ℕ) (v w : Value)
    → same_index a b ≡ true
    → same_value v w ≡ true
    → CoversValue a b v w
duplicate-CoversValue none none v w h k = k
duplicate-CoversValue none (some b) v w h k = cc
duplicate-CoversValue (some a) none v w h k = cc
duplicate-CoversValue (some a) (some b) v w h k = (
  ground arith,
  subst (λ n. Within n (items_of w) (items_of v)) {x = 0} {y = a - b} (ground arith)
      (same_value-Within v w k),
)

superset-CoversValue :
    (a a' b b' : Option ℕ) (v w : Value)
    → range_covers a a' b b' (items_of v) (items_of w) ≡ true
    → CoversValue a b v w
superset-CoversValue none a' b b' v w h = cc
superset-CoversValue (some a) none b b' v w h = cc
superset-CoversValue (some a) (some a') none b' v w h = cc
superset-CoversValue (some a) (some a') (some b) none v w h = cc
superset-CoversValue (some a) (some a') (some b) (some b') v w h = (
  ground arith,
  slice_matches-Within (a - b) (items_of w) (items_of v) (
      and_right (not (a == b && a' == b') && not (ltb a b || ltb b' a'))
        (slice_matches (a - b) (items_of w) (items_of v)) h),
)

-- The tests of a duplicate before those of its range and its value.
abbrev heads : ArtifactObservation → ArtifactObservation → Bool
heads old new =
    str_eq old.ref new.ref && same_path old.path new.path && same_observation_kind old.kind new.kind

abbrev places : ArtifactObservation → ArtifactObservation → Bool
places old new =
    heads old new
    && same_index old.actual_start new.actual_start
    && same_index old.actual_end new.actual_end

ref_and_path :
    (old new : ArtifactObservation)
    → str_eq old.ref new.ref && same_path old.path new.path ≡ true
    → (old.ref ≡ new.ref) × (old.path ≡ new.path)
ref_and_path old new h = (
  (eq_iff old.ref new.ref).0 (and_left (str_eq old.ref new.ref) (same_path old.path new.path) h),
  same_path-same old.path new.path
      (and_right (str_eq old.ref new.ref) (same_path old.path new.path) h),
)

heads-same :
    (old new : ArtifactObservation)
    → heads old new ≡ true
    → (old.ref ≡ new.ref) × (old.path ≡ new.path) × (old.kind ≡ new.kind)
heads-same old new h =
    let pair = str_eq old.ref new.ref && same_path old.path new.path in
    let kind = same_observation_kind old.kind new.kind in
    let (ref, path) = ref_and_path old new (and_left pair kind h) in
    (ref, path, observation_kind_same old.kind new.kind (and_right pair kind h))

is_exact_duplicate-Covers :
    (old new : ArtifactObservation) → is_exact_duplicate old new ≡ true → Covers old new
unfolding is_exact_duplicate
is_exact_duplicate-Covers old new h =
    let values = and_right (places old new) (same_value old.value new.value) h in
    let starts =
      and_left (heads old new && same_index old.actual_start new.actual_start)
        (same_index old.actual_end new.actual_end)
        (and_left (places old new) (same_value old.value new.value) h) in
    let (ref, path, kind) =
      heads-same old new
        (and_left (heads old new) (same_index old.actual_start new.actual_start) starts) in
    (
      ref,
      path,
      kind,
      duplicate-CoversValue old.actual_start new.actual_start old.value new.value
          (and_right (heads old new) (same_index old.actual_start new.actual_start) starts) values,
    )

is_full_superset-Covers :
    (old new : ArtifactObservation) → is_full_superset old new ≡ true → Covers old new
unfolding is_full_superset
is_full_superset-Covers old new h =
    let ranges =
      range_covers old.actual_start old.actual_end new.actual_start new.actual_end
        (items_of old.value) (items_of new.value) in
    let pair = str_eq old.ref new.ref && same_path old.path new.path in
    let kinds = and_left (pair && is_slice old.kind && is_slice new.kind) ranges h in
    let first = and_left (pair && is_slice old.kind) (is_slice new.kind) kinds in
    let (ref, path) = ref_and_path old new (and_left pair (is_slice old.kind) first) in
    let old_slice = slice_kind old.kind (and_right pair (is_slice old.kind) first) in
    let new_slice =
      slice_kind new.kind (and_right (pair && is_slice old.kind) (is_slice new.kind) kinds) in
    (
      ref,
      path,
      old_slice ∙ sym new_slice,
      superset-CoversValue old.actual_start old.actual_end new.actual_start new.actual_end old.value
          new.value (and_right (pair && is_slice old.kind && is_slice new.kind) ranges h),
    )

pub replacement_reason-Covers :
    (old new : ArtifactObservation) {r : Reason}
    → replacement_reason old new ≡ some r
    → Covers old new
unfolding replacement_reason
replacement_reason-Covers old new h = elim (Bool-cases (is_exact_duplicate old new)) [
  | inl e ↦ is_exact_duplicate-Covers old new e
  | inr e ↦ elim (Bool-cases (is_full_superset old new)) [
    | inl f ↦ is_full_superset-Covers old new f
    | inr f ↦ ground arith
  ]
]
