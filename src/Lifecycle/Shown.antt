-- ===== src/Lifecycle/Shown.antt =====
-- The observations that a rewrite leaves, and those that it replaces.
use dota_mind.Prelude.{
  ℕ, zero, suc, ◌+◌, ◌≤◌, ◌<◌, ◌≡◌, refl, sym, subst, ap, ◌∙◌, ◌⊎◌, inl, inr, leb, ltb, ◌||◌, Bool,
  Bool-cases, Option, none, some, Option-cases, List, [], ◌∷◌, arith,
}
use dota_mind.Prelude.Dict.{Dict}
use dota_mind.Json.{Value}
use dota_mind.Protocol.{Message, dequeue}
use dota_mind.Artifacts.Read.{ReadResult}
use dota_mind.Lifecycle.Observe.{
  ArtifactObservation, is_read, observed, observations_from, collect_active_artifact_observations,
}
use dota_mind.Lifecycle.Cover.{Reason, replacement_reason}
use dota_mind.Lifecycle.Rewrite.{
  Replacement, is_replaced, find_reason, replacements, replacement_at, rewrite,
}
use dota_mind.Lifecycle.Kept.{unreplaced, observed-index, rewrite-unreplaced}
use dota_mind.Lifecycle.Within.{Covers, Covers-trans}
use dota_mind.Lifecycle.Reasons.{replacement_reason-Covers}

abbrev pub In : ArtifactObservation → List ArtifactObservation → Type 0
In o [] = ⊥
In o (x ∷ xs) = (x ≡ o) ⊎ In o xs

-- A later observation that covers `o`.
abbrev CoveredBy : ArtifactObservation → List ArtifactObservation → Type 0
CoveredBy o all =
    (new : ArtifactObservation) × In new all × (o.message_index < new.message_index) × Covers o new

find_reason-CoveredBy :
    (replaced : List ℕ) (old : ArtifactObservation) (all : List ArtifactObservation) {r : Reason}
    → find_reason replaced old all ≡ some r
    → CoveredBy old all
unfolding find_reason
find_reason-CoveredBy replaced old [] h = cc
find_reason-CoveredBy replaced old (new ∷ rest) {r} h =
    let weaken : CoveredBy old rest → CoveredBy old (new ∷ rest) =
      λ (n, i, lt, c). (n, inr i, lt, c) in
    elim (Bool-cases
      (leb new.message_index old.message_index || is_replaced new.message_index replaced)) [
        | inl e ↦ weaken (find_reason-CoveredBy replaced old rest {r = r} (rw e at h))
        | inr e ↦ elim (Option-cases (replacement_reason old new)) [
          | inl f ↦ weaken (find_reason-CoveredBy replaced old rest {r = r} (ground arith))
          | inr (why, f) ↦ (new, inl refl, ground arith, replacement_reason-Covers old new f)
        ]
      ]

-- The observations have increasing indices, from `n` on.
abbrev Increasing : ℕ → List ArtifactObservation → Type 0
Increasing n [] = Unit
Increasing n (o ∷ os) = (n ≤ o.message_index) × Increasing (suc o.message_index) os

Increasing-lower :
    (n k : ℕ) (os : List ArtifactObservation) → n ≤ k → Increasing k os → Increasing n os
Increasing-lower n k [] le h = tt
Increasing-lower n k (o ∷ os) le (h, t) = (omega arith, t)

Increasing-In :
    (n : ℕ) (os : List ArtifactObservation) (o : ArtifactObservation)
    → Increasing n os
    → In o os
    → n ≤ o.message_index
Increasing-In n [] o h i = absurd i
Increasing-In n (x ∷ xs) o (h, t) (inl e) =
    subst (λ (y : ArtifactObservation). n ≤ y.message_index) e h
Increasing-In n (x ∷ xs) o (h, t) (inr i) =
    omega (arith, Increasing-In (suc x.message_index) xs o t i)

-- An index below those of the observations is not replaced.
replacement_at-below :
    (start : ℕ) (all : List ArtifactObservation) (replaced : List ℕ) (n index : ℕ)
    (todo : List ArtifactObservation)
    → index < n
    → Increasing n todo
    → replacement_at index (replacements start all replaced todo) ≡ none
unfolding replacements
replacement_at-below start all replaced n index [] lt h = refl
replacement_at-below start all replaced n index (old ∷ rest) lt (h, t) =
    let kept =
      replacement_at-below start all replaced (suc old.message_index) index rest (omega arith) t in
    let dropped =
      replacement_at-below start all (old.message_index ∷ replaced) (suc old.message_index) index
        rest (omega arith) t in
    elim (Bool-cases (ltb old.message_index start)) [
      | inl e ↦ rw e kept
      | inr e ↦ elim (Option-cases (find_reason replaced old all)) [
        | inl f ↦ rw (e, f) kept
        | inr (r, f) ↦ rw (e, f) (ground (arith, dropped))
      ]
    ]

-- What is replaced is covered by a later observation.
replacements-CoveredBy :
    (start : ℕ) (all : List ArtifactObservation) (replaced : List ℕ) (n : ℕ)
    (todo : List ArtifactObservation) (o : ArtifactObservation)
    → Increasing n todo
    → In o todo
    → (replacement_at o.message_index (replacements start all replaced todo) ≡ none)
      ⊎ CoveredBy o all
unfolding replacements
replacements-CoveredBy start all replaced n [] o h i = absurd i
replacements-CoveredBy start all replaced n (old ∷ rest) o (h, t) (inl same) =
    let below =
      replacement_at-below start all replaced (suc old.message_index) old.message_index rest
        (omega arith) t in
    subst
      (λ (y : ArtifactObservation).
        (replacement_at y.message_index (replacements start all replaced (old ∷ rest)) ≡ none)
        ⊎ CoveredBy y all)
      same
      (elim (Bool-cases (ltb old.message_index start)) [
        | inl e ↦ inl (rw e below)
        | inr e ↦ elim (Option-cases (find_reason replaced old all)) [
          | inl f ↦ inl (rw (e, f) below)
          | inr (r, f) ↦ inr (find_reason-CoveredBy replaced old all f)
        ]
      ])
replacements-CoveredBy start all replaced n (old ∷ rest) o (h, t) (inr i) =
    let above = Increasing-In (suc old.message_index) rest o t i in
    let kept = replacements-CoveredBy start all replaced (suc old.message_index) rest o t i in
    let dropped =
      replacements-CoveredBy start all (old.message_index ∷ replaced) (suc old.message_index) rest o
        t i in
    elim (Bool-cases (ltb old.message_index start)) [
      | inl e ↦ rw e kept
      | inr e ↦ elim (Option-cases (find_reason replaced old all)) [
        | inl f ↦ rw (e, f) kept
        | inr (r, f) ↦ elim dropped [ inl d ↦ inl (rw (e, f) (ground (arith, d))) | inr c ↦ inr c ]
      ]
    ]

In-unreplaced :
    (rs : List Replacement) (os : List ArtifactObservation) (o : ArtifactObservation)
    → In o os
    → replacement_at o.message_index rs ≡ none
    → In o (unreplaced rs os)
In-unreplaced rs [] o i h = absurd i
In-unreplaced rs (x ∷ xs) o (inl e) h =
    let here : replacement_at x.message_index rs ≡ none =
      ap (λ (y : ArtifactObservation). replacement_at y.message_index rs) e ∙ h in
    rw here (inl e)
In-unreplaced rs (x ∷ xs) o (inr i) h = elim (Option-cases (replacement_at x.message_index rs)) [
  | inl e ↦ rw e (inr (In-unreplaced rs xs o i h))
  | inr (r, e) ↦ rw e (In-unreplaced rs xs o i h)
]

-- An observation that is among `os`, or covered by one of them.
abbrev pub Shown : List ArtifactObservation → ArtifactObservation → Type 0
Shown os o = In o os ⊎ ((new : ArtifactObservation) × In new os × Covers o new)

abbrev bound_of : List ArtifactObservation → ℕ
bound_of [] = 0
bound_of (o ∷ os) = o.message_index + bound_of os

In-bound :
    (os : List ArtifactObservation) (o : ArtifactObservation)
    → In o os
    → o.message_index ≤ bound_of os
In-bound [] o i = absurd i
In-bound (x ∷ xs) o (inl e) = omega (arith, ap (λ (y : ArtifactObservation). y.message_index) e)
In-bound (x ∷ xs) o (inr i) = omega (arith, In-bound xs o i)

-- Among observations with increasing indices each is kept, or covered by one that is: the later
-- observation that covers it may be replaced itself, but only by one that is later still.
replacements-Shown :
    (fuel start : ℕ) (all : List ArtifactObservation) (o : ArtifactObservation)
    → Increasing 0 all
    → In o all
    → bound_of all < o.message_index + fuel
    → Shown (unreplaced (replacements start all [] all) all) o
replacements-Shown zero start all o h i lt = absurd (omega (arith, In-bound all o i))
replacements-Shown (suc fuel) start all o h i lt =
    elim (replacements-CoveredBy start all [] 0 all o h i) [
      | inl kept ↦ inl (In-unreplaced (replacements start all [] all) all o i kept)
      | inr (new, at, later, covers) ↦
          elim (replacements-Shown fuel start all new h at (omega arith)) [
            | inl here ↦ inr (new, here, covers)
            | inr (last, here, more) ↦ inr (last, here, Covers-trans o new last covers more)
          ]
    ]

module _ (validate : Value → Option ReadResult) where
  observations_from-Increasing :
      (index : ℕ) (messages : List Message) (calls : Dict (List Bool))
      → Increasing index (observations_from validate index messages calls)
  unfolding observations_from
  observations_from-Increasing index [] calls = tt
  observations_from-Increasing index (Message.tool m ∷ ms) calls =
      let read = is_read (dequeue m.tool_call_id calls).0 in
      let rest = observations_from-Increasing (suc index) ms (dequeue m.tool_call_id calls).1 in
      elim (Option-cases (observed validate index m read)) [
        | inl e ↦ rw e (Increasing-lower index (suc index) _ (omega arith) rest)
        | inr (o, e) ↦
            let at = observed-index validate index m read e in
            rw e (
              omega (arith, at),
              subst
                  (λ k.
                    Increasing (suc k)
                      (observations_from validate (suc index) ms (dequeue m.tool_call_id calls).1))
                  (sym at) rest,
            )
      ]
  observations_from-Increasing index (Message.system c ∷ ms) calls =
      Increasing-lower index (suc index) _ (omega arith)
        (observations_from-Increasing (suc index) ms calls)
  observations_from-Increasing index (Message.user c ∷ ms) calls =
      Increasing-lower index (suc index) _ (omega arith)
        (observations_from-Increasing (suc index) ms calls)
  observations_from-Increasing index (Message.final c ∷ ms) calls =
      Increasing-lower index (suc index) _ (omega arith)
        (observations_from-Increasing (suc index) ms calls)
  observations_from-Increasing index (Message.assistant c b ∷ ms) calls =
      Increasing-lower index (suc index) _ (omega arith)
        (observations_from-Increasing (suc index) ms calls)
  observations_from-Increasing index (Message.rejected c b ∷ ms) calls =
      Increasing-lower index (suc index) _ (omega arith)
        (observations_from-Increasing (suc index) ms calls)

  -- A rewrite loses nothing: each observation of the transcript is an observation of the rewritten
  -- one, or one of these covers it, of the same artifact and path, with an equal value or with each
  -- item of the slice at its place.
  pub rewrite-Shown :
      (start : ℕ) (messages : List Message) (o : ArtifactObservation)
      → In o (collect_active_artifact_observations validate messages)
      → Shown
          (collect_active_artifact_observations validate (rewrite validate start messages).messages)
          o
  unfolding collect_active_artifact_observations
  rewrite-Shown start messages o i =
      let all = collect_active_artifact_observations validate messages in
      rw (rewrite-unreplaced validate start messages) (
        replacements-Shown (suc (bound_of all)) start all o
          (observations_from-Increasing 0 messages _) i (omega arith))
