-- ===== src/Compaction/Cover.antt =====
-- The groups of a history, and the rounds of the loop.
use dota_mind.Prelude.{
  ℕ, zero, suc, ◌≤◌, ◌<◌, ◌≡◌, refl, sym, subst, ap, ◌∙◌, inl, inr, Bool, true, false, String,
  contains, List, [], ◌∷◌, ◌++◌, map, length, length-append, All, ok, arith, Outcome-cases, eq_iff,
}
use dota_mind.Protocol.{ToolResultMessage, Message}
use dota_mind.Compaction.Groups.{
  MessageGroup, make_group, distinct_ids, is_unexecuted, take_results, all_in, result_ids,
  take_batch, call_ids, raw_call_ids, next_group, groups_from, group_history,
}
use dota_mind.Compaction.Select.{flatten}

abbrev pub append_tools : List ToolResultMessage → List Message → List Message
append_tools rs rest = map Message.tool rs ++ rest

-- What the results of a batch have to be, beside the ids of those before them.
pub record Results (accepts : ToolResultMessage → Bool) (expected : List String) (n : ℕ)
    (seen : List String) (source rest : List Message) (rs : List ToolResultMessage) : Type 0 where
  pub cover : append_tools rs rest ≡ source
  pub count : length rs ≡ n
  pub expected_ids : all_in (result_ids rs) expected ≡ true
  pub distinct : distinct_ids (result_ids rs) ≡ true
  pub unseen : All (λ id. contains seen id ≡ false) (result_ids rs)
  pub accepted : All (λ r. accepts r ≡ true) rs

unseen-tail :
    (id : String) (seen ids : List String)
    → All (λ x. contains (id ∷ seen) x ≡ false) ids
    → All (λ x. contains seen x ≡ false) ids
unseen-tail id seen [] h = tt
unseen-tail id seen (x ∷ ids) h = (ground (arith, h.0), unseen-tail id seen ids h.1)

unseen-head :
    (id : String) (seen ids : List String)
    → All (λ x. contains (id ∷ seen) x ≡ false) ids
    → contains ids id ≡ false
unseen-head id seen [] h = refl
unseen-head id seen (x ∷ ids) h =
    ground (arith, eq_iff id x, eq_iff x id, unseen-head id seen ids h.1)

take_results-Results :
    (accepts : ToolResultMessage → Bool) (expected : List String) (n : ℕ) (seen : List String)
    (source : List Message) {rs : List ToolResultMessage} {rest : List Message}
    → take_results accepts expected n seen source ≡ ok (rs, rest)
    → Results accepts expected n seen source rest rs
unfolding take_results
take_results-Results accepts expected zero seen source {rs} {rest} h =
    let same : ([], source) ≡ (rs, rest) = ground arith in
    subst
      (λ (p : List ToolResultMessage × List Message).
        Results accepts expected zero seen source p.1 p.0)
      same
      (record {
        cover = refl;
        count = refl;
        expected_ids = refl;
        distinct = refl;
        unseen = tt;
        accepted = tt;
      })
take_results-Results accepts expected (suc n) seen [] h = ground arith
take_results-Results accepts expected (suc n) seen (Message.tool r ∷ source) {rs} {rest} h =
    elim (Outcome-cases (take_results accepts expected n (r.tool_call_id ∷ seen) source)) [
      | inr (x, e) ↦ ground arith
      | inl ((more, left), e) ↦
          let ih = take_results-Results accepts expected n (r.tool_call_id ∷ seen) source e in
          let same : (r ∷ more, left) ≡ (rs, rest) = ground arith in
          subst
            (λ (p : List ToolResultMessage × List Message).
              Results accepts expected (suc n) seen (Message.tool r ∷ source) p.1 p.0)
            same
            (record {
              cover = ap (◌∷◌ (Message.tool r)) ih.cover;
              count = omega (arith, ih.count);
              expected_ids = ground (arith, ih.expected_ids);
              distinct =
                  ground (
                    arith,
                    ih.distinct,
                    unseen-head r.tool_call_id seen (result_ids more) ih.unseen,
                  );
              unseen = (ground arith, unseen-tail r.tool_call_id seen (result_ids more) ih.unseen);
              accepted = (ground arith, ih.accepted);
            })
    ]
take_results-Results accepts expected (suc n) seen (Message.system c ∷ source) h = ground arith
take_results-Results accepts expected (suc n) seen (Message.user c ∷ source) h = ground arith
take_results-Results accepts expected (suc n) seen (Message.final c ∷ source) h = ground arith
take_results-Results accepts expected (suc n) seen (Message.assistant c b ∷ source) h = ground arith
take_results-Results accepts expected (suc n) seen (Message.rejected c b ∷ source) h = ground arith

-- A batch of calls with distinct ids, and for each call exactly one result.
abbrev pub Answers : (ToolResultMessage → Bool) → List String → List Message → Type 0
Answers accepts ids messages =
    (rs : List ToolResultMessage) × (messages ≡ map Message.tool rs)
    × (length rs ≡ length ids)
    × (distinct_ids ids ≡ true)
    × (distinct_ids (result_ids rs) ≡ true)
    × (all_in (result_ids rs) ids ≡ true)
    × All (λ r. accepts r ≡ true) rs

-- A group that can be kept or replaced as a whole: one message, or a batch with its results.
abbrev pub IsWhole : List Message → Type 0
IsWhole [] = ⊥
IsWhole (Message.system c ∷ rest) = ⊥
IsWhole (Message.tool r ∷ rest) = ⊥
IsWhole (Message.user c ∷ rest) = rest ≡ []
IsWhole (Message.final c ∷ rest) = rest ≡ []
IsWhole (Message.assistant c calls ∷ rest) = Answers (λ r. true) (call_ids calls) rest
IsWhole (Message.rejected c calls ∷ rest) = Answers is_unexecuted (raw_call_ids calls) rest

take_batch-Answers :
    (accepts : ToolResultMessage → Bool) (message : Message) (ids : List String)
    (source : List Message) {group rest : List Message}
    → take_batch accepts message ids source ≡ ok (group, rest)
    → (tail : List Message) × (group ≡ message ∷ tail)
      × (group ++ rest ≡ message ∷ source)
      × Answers accepts ids tail
unfolding take_batch
take_batch-Answers accepts message ids source {group} {rest} h =
    elim (Outcome-cases (take_results accepts ids (length ids) [] source)) [
      | inr (x, e) ↦ ground arith
      | inl ((rs, left), e) ↦
          let made = take_results-Results accepts ids (length ids) [] source e in
          let checked : distinct_ids ids ≡ true = ground arith in
          let same : (message ∷ map Message.tool rs, left) ≡ (group, rest) = ground arith in
          (
            map Message.tool rs,
            sym (ap (λ (p : List Message × List Message). p.0) same),
            subst (λ (p : List Message × List Message). p.0 ++ p.1 ≡ message ∷ source) same
                (ap (◌∷◌ message) made.cover),
            (rs, refl, made.count, checked, made.distinct, made.expected_ids, made.accepted),
          )
    ]

-- One round splits the source at the end of a whole group.
pub next_group-IsWhole :
    (message : Message) (source : List Message) {group rest : List Message}
    → next_group message source ≡ ok (group, rest)
    → IsWhole group × (group ++ rest ≡ message ∷ source)
unfolding next_group
next_group-IsWhole (Message.system c) source h = ground arith
next_group-IsWhole (Message.tool r) source h = ground arith
next_group-IsWhole (Message.user c) source {group} {rest} h =
    let same : (Message.user c ∷ [], source) ≡ (group, rest) = ground arith in
    subst
      (λ (p : List Message × List Message). IsWhole p.0 × (p.0 ++ p.1 ≡ Message.user c ∷ source))
      same (refl, refl)
next_group-IsWhole (Message.final c) source {group} {rest} h =
    let same : (Message.final c ∷ [], source) ≡ (group, rest) = ground arith in
    subst
      (λ (p : List Message × List Message). IsWhole p.0 × (p.0 ++ p.1 ≡ Message.final c ∷ source))
      same (refl, refl)
next_group-IsWhole (Message.assistant c []) source {group} {rest} h =
    let same : (Message.assistant c [] ∷ [], source) ≡ (group, rest) = ground arith in
    subst
      (λ (p : List Message × List Message).
        IsWhole p.0 × (p.0 ++ p.1 ≡ Message.assistant c [] ∷ source))
      same (([], refl, refl, refl, refl, refl, tt), refl)
next_group-IsWhole (Message.assistant c (call ∷ calls)) source {group} {rest} h =
    let (tail, e, cover, whole) =
      take_batch-Answers (λ r. true) (Message.assistant c (call ∷ calls)) (call_ids (call ∷ calls))
        source h in
    (subst IsWhole (sym e) whole, cover)
next_group-IsWhole (Message.rejected c calls) source {group} {rest} h =
    let (tail, e, cover, whole) =
      take_batch-Answers is_unexecuted (Message.rejected c calls) (raw_call_ids calls) source h in
    (subst IsWhole (sym e) whole, cover)

pub length-IsWhole : (group : List Message) → IsWhole group → 0 < length group
length-IsWhole [] h = absurd h
length-IsWhole (m ∷ ms) h = omega arith

-- A round consumes a message at least.
pub next_group-shorter :
    (message : Message) (source : List Message) {group rest : List Message}
    → next_group message source ≡ ok (group, rest)
    → length rest ≤ length source
next_group-shorter message source {group} {rest} h =
    let (whole, cover) = next_group-IsWhole message source h in
    omega (arith, ap length cover, length-append group rest, length-IsWhole group whole)

-- Every group is whole.
abbrev pub AllWhole : List MessageGroup → Type 0
AllWhole [] = Unit
AllWhole (g ∷ gs) = IsWhole g.messages × AllWhole gs

pub groups_from-cover :
    (bytes_per_token rounds : ℕ) (source : List Message) {gs : List MessageGroup}
    → groups_from bytes_per_token rounds source ≡ ok gs
    → (flatten gs ≡ source) × AllWhole gs
unfolding groups_from make_group
groups_from-cover b rounds [] {gs} h =
    let same : [] ≡ gs = ground arith in
    subst (λ (k : List MessageGroup). (flatten k ≡ []) × AllWhole k) same (refl, tt)
groups_from-cover b zero (message ∷ source) h = ground arith
groups_from-cover b (suc rounds) (message ∷ source) {gs} h =
    elim (Outcome-cases (next_group message source)) [
      | inr (x, e) ↦ ground arith
      | inl ((group, rest), e) ↦ elim (Outcome-cases (groups_from b rounds rest)) [
        | inr (x, f) ↦ ground arith
        | inl (later, f) ↦
            let same : make_group b group ∷ later ≡ gs = ground arith in
            let (whole, split) = next_group-IsWhole message source e in
            let (cover, all_whole) = groups_from-cover b rounds rest f in
            subst (λ (k : List MessageGroup). (flatten k ≡ message ∷ source) × AllWhole k) same
              (ap (◌++◌ group) cover ∙ split, (whole, all_whole))
      ]
    ]

-- A number of rounds that is not below the length of the source gives the same groups as any other
-- such number.
pub groups_from-enough :
    (bytes_per_token rounds more : ℕ) (source : List Message)
    → length source ≤ rounds
    → length source ≤ more
    → groups_from bytes_per_token rounds source ≡ groups_from bytes_per_token more source
unfolding groups_from
groups_from-enough b rounds more [] h k = refl
groups_from-enough b zero more (message ∷ source) h k = absurd (omega arith)
groups_from-enough b (suc rounds) zero (message ∷ source) h k = absurd (omega arith)
groups_from-enough b (suc rounds) (suc more) (message ∷ source) h k =
    elim (Outcome-cases (next_group message source)) [
      | inr (x, e) ↦ rw e
      | inl ((group, rest), e) ↦
          let shorter = next_group-shorter message source e in
          rw e (rw (groups_from-enough b rounds more rest (omega arith) (omega arith)))
    ]

-- The groups of a history are whole, and in order they are the history.
pub group_history-cover :
    (bytes_per_token : ℕ) (messages : List Message) {gs : List MessageGroup}
    → group_history bytes_per_token messages ≡ ok gs
    → (flatten gs ≡ messages) × AllWhole gs
unfolding group_history
group_history-cover b messages h = groups_from-cover b (length messages) messages h
