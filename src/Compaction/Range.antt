-- ===== src/Compaction/Range.antt =====
-- The range that is selected for a compaction, and its use as a cut.
use mathlib.Core.List.{append_assoc, append-nil}
use dota_mind.Prelude.{
  ℕ, ◌≤◌, ◌<◌, ◌≡◌, refl, sym, subst, ap, ◌∙◌, ◌⊎◌, inl, inr, ltb, List, [], ◌∷◌, ◌++◌, length,
  length-append, reverse_onto, reverse_onto_twice, reverse_onto-append, some, ok, arith,
  Outcome-cases, Bool-cases,
}
use dota_mind.Protocol.{Message}
use dota_mind.Compaction.Groups.{MessageGroup, group_history}
use dota_mind.Compaction.Select.{
  HistoryCompactionRange, flatten, sum_bytes, sum_tokens, extend_retained, select_groups,
  select_compaction_range,
}
use dota_mind.Compaction.Cover.{AllWhole, group_history-cover, length-IsWhole}

pub flatten-append : (gs hs : List MessageGroup) → flatten (gs ++ hs) ≡ flatten gs ++ flatten hs
flatten-append [] hs = refl
flatten-append (g ∷ gs) hs =
    rw (flatten-append gs hs) (sym (append_assoc g.messages (flatten gs) (flatten hs)))

-- The oldest retained group is needed: without it the estimate is below the budget, unless it is
-- the newest group.
abbrev pub IsNeeded : ℕ → List MessageGroup → Type 0
IsNeeded recent [] = ⊥
IsNeeded recent (g ∷ later) = (later ≡ []) ⊎ (sum_tokens later < recent)

record Extended (recent : ℕ) (earlier retained before kept : List MessageGroup) : Type 0 where
  pub same : reverse_onto before kept ≡ reverse_onto earlier retained
  pub needed : IsNeeded recent kept
  pub enough : (before ≡ []) ⊎ (recent ≤ sum_tokens kept)

extend_retained-Extended :
    (recent : ℕ) (earlier retained : List MessageGroup)
    → IsNeeded recent retained
    → Extended recent earlier retained
        (extend_retained recent earlier retained).0
        (extend_retained recent earlier retained).1
unfolding extend_retained
extend_retained-Extended recent [] retained h = record {
  same = refl;
  needed = h;
  enough = inl refl;
}
extend_retained-Extended recent (g ∷ earlier) retained h =
    elim (Bool-cases (ltb (sum_tokens retained) recent)) [
      | inl e ↦
          let ih = extend_retained-Extended recent earlier (g ∷ retained) (inr (ground arith)) in
          rw e (record { same = ih.same; needed = ih.needed; enough = ih.enough })
      | inr e ↦ rw e (record { same = refl; needed = h; enough = inr (ground arith) })
    ]

-- What is selected from some groups.
record Picked (recent : ℕ) (gs : List MessageGroup) (s : HistoryCompactionRange) : Type 0 where
  pub older : List MessageGroup
  pub kept : List MessageGroup
  pub whole : older ++ kept ≡ gs
  pub prefix : s.prefix_messages ≡ flatten older
  pub retained : s.retained_messages ≡ flatten kept
  pub cut : s.cut_index ≡ length s.prefix_messages
  pub nonempty : 0 < s.cut_index
  pub estimate : s.retained_estimated_tokens ≡ sum_tokens kept
  pub enough : recent ≤ s.retained_estimated_tokens
  pub needed : IsNeeded recent kept

enough_retained :
    (recent tokens : ℕ) (before : List MessageGroup)
    → (before ≡ []) ⊎ (recent ≤ tokens)
    → 0 < length (flatten (reverse_onto before []))
    → recent ≤ tokens
enough_retained recent tokens [] h n = absurd (omega arith)
enough_retained recent tokens (g ∷ before) (inl e) n = cc
enough_retained recent tokens (g ∷ before) (inr le) n = le

select_groups-Picked :
    (recent : ℕ) (reversed : List MessageGroup) {s : HistoryCompactionRange}
    → select_groups recent reversed ≡ some s
    → Picked recent (reverse_onto reversed []) s
unfolding select_groups
select_groups-Picked recent [] h = ground arith
select_groups-Picked recent (newest ∷ earlier) {s} h =
    let before = (extend_retained recent earlier (newest ∷ [])).0 in
    let kept = (extend_retained recent earlier (newest ∷ [])).1 in
    let ext = extend_retained-Extended recent earlier (newest ∷ []) (inl refl) in
    let older = reverse_onto before [] in
    let made : HistoryCompactionRange = record {
      cut_index = length (flatten older);
      prefix_messages = flatten older;
      retained_messages = flatten kept;
      retained_bytes = sum_bytes kept;
      retained_estimated_tokens = sum_tokens kept;
    } in
    let same : made ≡ s = ground arith in
    let nonempty : 0 < length (flatten older) = ground arith in
    subst (Picked recent (reverse_onto earlier (newest ∷ []))) same (record {
      older = older;
      kept = kept;
      whole = reverse_onto-append before [] kept ∙ ext.same;
      prefix = refl;
      retained = refl;
      cut = refl;
      nonempty = nonempty;
      estimate = refl;
      enough = enough_retained recent (sum_tokens kept) before ext.enough nonempty;
      needed = ext.needed;
    })

-- A selected range of a history: the messages of its older groups are cut off and those of the
-- others retained, whose estimate reaches the budget, and no retained group is there for nothing.
pub record Selected (messages : List Message) (bytes_per_token recent : ℕ)
    (s : HistoryCompactionRange) : Type 0 where
  pub older : List MessageGroup
  pub kept : List MessageGroup
  pub grouped : group_history bytes_per_token messages ≡ ok (older ++ kept)
  pub prefix : s.prefix_messages ≡ flatten older
  pub retained : s.retained_messages ≡ flatten kept
  pub split : s.prefix_messages ++ s.retained_messages ≡ messages
  pub cut : s.cut_index ≡ length s.prefix_messages
  pub nonempty : 0 < s.cut_index
  pub proper : s.cut_index < length messages
  pub estimate : s.retained_estimated_tokens ≡ sum_tokens kept
  pub enough : recent ≤ s.retained_estimated_tokens
  pub needed : IsNeeded recent kept

length-kept :
    (recent : ℕ) (older kept : List MessageGroup)
    → AllWhole (older ++ kept)
    → IsNeeded recent kept
    → 0 < length (flatten kept)
length-kept recent [] [] w n = absurd n
length-kept recent [] (g ∷ kept) w n =
    omega (arith, length-IsWhole g.messages w.0, length-append g.messages (flatten kept))
length-kept recent (o ∷ older) kept w n = length-kept recent older kept w.1 n

-- A range that is selected splits the history between complete groups, and both parts are there. The
-- retained part is the shortest suffix of complete groups whose estimate reaches the budget, and
-- at least the newest group.
pub select_compaction_range-Selected :
    (messages : List Message) (recent bytes_per_token : ℕ) {s : HistoryCompactionRange}
    → select_compaction_range messages recent bytes_per_token ≡ ok (some s)
    → Selected messages bytes_per_token recent s
unfolding select_compaction_range
select_compaction_range-Selected messages recent b {s} h =
    elim (Outcome-cases (group_history b messages)) [
      | inr (x, e) ↦ ground arith
      | inl (gs, e) ↦
          let picks : select_groups recent (reverse_onto gs []) ≡ some s = ground arith in
          let p = select_groups-Picked recent (reverse_onto gs []) picks in
          let order : reverse_onto (reverse_onto gs []) [] ≡ gs =
            reverse_onto_twice gs [] [] ∙ append-nil gs in
          let whole : p.older ++ p.kept ≡ gs = p.whole ∙ order in
          let (cover, all_whole) = group_history-cover b messages e in
          let split : s.prefix_messages ++ s.retained_messages ≡ messages =
            cc (p.prefix, p.retained, flatten-append p.older p.kept, whole, cover) in
          let kept_pos =
            length-kept recent p.older p.kept (subst AllWhole (sym whole) all_whole) p.needed in
          record {
            older = p.older;
            kept = p.kept;
            grouped = e ∙ ap ok (sym whole);
            prefix = p.prefix;
            retained = p.retained;
            split = split;
            cut = p.cut;
            nonempty = p.nonempty;
            proper = omega (
              arith,
              p.cut,
              ap length split,
              length-append s.prefix_messages s.retained_messages,
              ap length p.retained,
              kept_pos,
            );
            estimate = p.estimate;
            enough = p.enough;
            needed = p.needed;
          }
    ]
