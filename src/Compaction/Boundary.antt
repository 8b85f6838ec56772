-- ===== src/Compaction/Boundary.antt =====
-- Cuts between groups.
use dota_mind.Prelude.{
  ℕ, zero, suc, ◌+◌, ◌≤◌, ◌≡◌, refl, sym, subst, ◌∙◌, inl, inr, true, List, [], ◌∷◌, ◌++◌, map,
  length, length-append, ok, arith, Outcome-cases,
}
use dota_mind.Protocol.{Message}
use dota_mind.Compaction.Groups.{MessageGroup, make_group, next_group, groups_from, group_history}
use dota_mind.Compaction.Select.{flatten, is_boundary}
use dota_mind.Compaction.Cover.{groups_from-cover, groups_from-enough, next_group-shorter}

-- The groups do not depend on the number of bytes in a token, their estimates do.
abbrev pub regroup : ℕ → List MessageGroup → List MessageGroup
regroup bytes_per_token = map (λ g. make_group bytes_per_token g.messages)

groups_from-regroup :
    (b c rounds : ℕ) (source : List Message) {gs : List MessageGroup}
    → groups_from b rounds source ≡ ok gs
    → groups_from c rounds source ≡ ok (regroup c gs)
unfolding groups_from make_group
groups_from-regroup b c rounds [] {gs} h =
    let same : [] ≡ gs = ground arith in
    subst (λ (k : List MessageGroup). groups_from c rounds [] ≡ ok (regroup c k)) same refl
groups_from-regroup b c zero (message ∷ source) h = ground arith
groups_from-regroup b c (suc rounds) (message ∷ source) {gs} h =
    elim (Outcome-cases (next_group message source)) [
      | inr (x, e) ↦ ground arith
      | inl ((group, rest), e) ↦ elim (Outcome-cases (groups_from b rounds rest)) [
        | inr (x, f) ↦ ground arith
        | inl (later, f) ↦
            let same : make_group b group ∷ later ≡ gs = ground arith in
            subst
              (λ (k : List MessageGroup).
                groups_from c (suc rounds) (message ∷ source) ≡ ok (regroup c k))
              same (rw (e, groups_from-regroup b c rounds rest f))
      ]
    ]

pub group_history-regroup :
    (b c : ℕ) (messages : List Message) {gs : List MessageGroup}
    → group_history b messages ≡ ok gs
    → group_history c messages ≡ ok (regroup c gs)
unfolding group_history
group_history-regroup b c messages h = groups_from-regroup b c (length messages) messages h

-- What is left after some groups has the groups that are left.
groups_from-rest :
    (b rounds : ℕ) (source : List Message) (older kept : List MessageGroup)
    → groups_from b rounds source ≡ ok (older ++ kept)
    → length source ≤ rounds
    → group_history b (flatten kept) ≡ ok kept
unfolding groups_from group_history
groups_from-rest b rounds source [] kept h le =
    let (cover, _) = groups_from-cover b rounds source h in
    subst (λ (ms : List Message). group_history b ms ≡ ok kept) (sym cover)
      (sym (groups_from-enough b rounds (length source) source le (omega arith)) ∙ h)
groups_from-rest b rounds [] (g ∷ older) kept h le = ground arith
groups_from-rest b zero (m ∷ source) (g ∷ older) kept h le = absurd (omega arith)
groups_from-rest b (suc rounds) (m ∷ source) (g ∷ older) kept h le =
    elim (Outcome-cases (next_group m source)) [
      | inr (x, e) ↦ ground arith
      | inl ((group, rest), e) ↦ elim (Outcome-cases (groups_from b rounds rest)) [
        | inr (x, f) ↦ ground arith
        | inl (later, f) ↦
            groups_from-rest b rounds rest older kept (f ∙ ground arith)
              (omega (arith, next_group-shorter m source e))
      ]
    ]

pub group_history-rest :
    (b : ℕ) (messages : List Message) (older kept : List MessageGroup)
    → group_history b messages ≡ ok (older ++ kept)
    → group_history b (flatten kept) ≡ ok kept
unfolding group_history
group_history-rest b messages older kept h =
    groups_from-rest b (length messages) messages older kept h (omega arith)

pub is_boundary-older :
    (c boundary cut : ℕ) (g : MessageGroup) (older kept : List MessageGroup)
    → boundary + length (flatten (g ∷ older)) ≡ cut
    → is_boundary boundary cut (regroup c ((g ∷ older) ++ kept)) ≡ true
unfolding is_boundary make_group
is_boundary-older c boundary cut g [] kept h = ground (arith, length-append g.messages [])
is_boundary-older c boundary cut g (g' ∷ older) kept h = ground (
  arith,
  is_boundary-older c (boundary + length g.messages) cut g' older kept,
  length-append g.messages (flatten (g' ∷ older)),
)
