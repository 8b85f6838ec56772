-- ===== src/Compaction/Prepare.antt =====
-- What a prepared compaction hands on: a valid cut, and the parts that are summarized.
use mathlib.Core.List.{append-nil}
use dota_mind.Prelude.{
  ltb, ◌&&◌, ℕ, zero, suc, ◌≤◌, ◌<◌, ◌≡◌, refl, sym, subst, ap, ◌∙◌, ◌⊎◌, inl, inr, String, List,
  [], ◌∷◌, ◌++◌, true, length, length-take, take, drop, get_elem?, take-append-drop, Option, none,
  some, ok, arith, Outcome-cases, Bool-cases,
}
use dota_mind.Prelude.Int.{pos}
use dota_mind.Protocol.{Message}
use dota_mind.Compaction.Groups.{MessageGroup, group_history}
use dota_mind.Compaction.Select.{
  HistoryCompactionRange, CompactionPreparation, flatten, select_compaction_range,
  validate_compaction_cut, prepare_compaction, preparation, split_start, history_end, turn_start,
  turn_start_at, is_boundary, is_user,
}
use dota_mind.Compaction.Boundary.{regroup, group_history-regroup, is_boundary-older}
use dota_mind.Compaction.Range.{Selected, select_compaction_range-Selected}

pub validate_compaction_cut_positive :
    (messages : List Message) (cut : ℕ)
    → validate_compaction_cut messages (pos cut) ≡ ok tt
    → 0 < cut
unfolding validate_compaction_cut
validate_compaction_cut_positive messages cut h = elim (Outcome-cases (group_history 1 messages)) [
  | inr (x, e) ↦ cc (rw e at h)
  | inl (groups, e) ↦ elim (Bool-cases (ltb 0 cut && ltb cut (length messages))) [
    | inl f ↦ ground (arith, f)
    | inr f ↦ cc (rw (e, f) at h)
  ]
]

boundary_of :
    (cut : ℕ) (older kept : List MessageGroup)
    → 0 < cut
    → length (flatten older) ≡ cut
    → is_boundary 0 cut (regroup 1 (older ++ kept)) ≡ true
boundary_of cut [] kept p e = absurd (omega arith)
boundary_of cut (g ∷ older) kept p e = is_boundary-older 1 0 cut g older kept (omega (arith, e))

Selected-valid :
    (messages : List Message) (b recent : ℕ) (s : HistoryCompactionRange)
    → Selected messages b recent s
    → validate_compaction_cut messages (pos s.cut_index) ≡ ok tt
unfolding validate_compaction_cut
Selected-valid messages b recent s p =
    let groups = group_history-regroup b 1 messages p.grouped in
    let at = boundary_of s.cut_index p.older p.kept p.nonempty (sym (p.cut ∙ ap length p.prefix)) in
    rw (groups, at) (ground (arith, p.nonempty, p.proper))

module _ {ℓ} {A : Type ℓ} where
  take_all_of : (xs ys : List A) → take (length xs) (xs ++ ys) ≡ xs
  take_all_of [] ys = refl
  take_all_of (x ∷ xs) ys = ap (◌∷◌ x) (take_all_of xs ys)

  drop_all_of : (xs ys : List A) → drop (length xs) (xs ++ ys) ≡ ys
  drop_all_of [] ys = refl
  drop_all_of (x ∷ xs) ys = drop_all_of xs ys

  take-take : (n k : ℕ) (xs : List A) → n ≤ k → take n (take k xs) ≡ take n xs
  take-take zero k xs h = refl
  take-take (suc n) zero xs h = absurd (omega arith)
  take-take (suc n) (suc k) [] h = refl
  take-take (suc n) (suc k) (x ∷ xs) h = ap (◌∷◌ x) (take-take n k xs (omega arith))

  drop_all : (n : ℕ) (xs : List A) → length xs ≤ n → drop n xs ≡ []
  drop_all zero [] h = refl
  drop_all zero (x ∷ xs) h = absurd (omega arith)
  drop_all (suc n) [] h = refl
  drop_all (suc n) (x ∷ xs) h = drop_all n xs (omega arith)

  get_elem?-drop :
      (n k : ℕ) (xs : List A) {x : A}
      → n < k
      → get_elem? xs n ≡ some x
      → (rest : List A) × (drop n (take k xs) ≡ x ∷ rest)
  get_elem?-drop n zero xs h e = absurd (omega arith)
  get_elem?-drop n (suc k) [] h e = cc
  get_elem?-drop zero (suc k) (x ∷ xs) h e = (take k xs, ground arith)
  get_elem?-drop (suc n) (suc k) (x ∷ xs) h e = get_elem?-drop n k xs (omega arith) e

turn_start_at-user :
    (n : ℕ) (o : Option Message) (earlier : Option ℕ) {i : ℕ}
    → turn_start_at n o earlier ≡ some i
    → ((content : String) × (o ≡ some (Message.user content)) × (n ≡ i)) ⊎ (earlier ≡ some i)
turn_start_at-user n none earlier h = inr h
turn_start_at-user n (some (Message.final c)) earlier h = cc
turn_start_at-user n (some (Message.user c)) earlier h = inl (c, refl, cc)
turn_start_at-user n (some (Message.system c)) earlier h = inr h
turn_start_at-user n (some (Message.tool r)) earlier h = inr h
turn_start_at-user n (some (Message.assistant c b)) earlier h = inr h
turn_start_at-user n (some (Message.rejected c b)) earlier h = inr h

-- Where the start of a turn is found, a user message stands there.
turn_start-user :
    (messages : List Message) (cut : ℕ) {i : ℕ}
    → turn_start messages cut ≡ some i
    → (i < cut) × ((content : String) × (get_elem? messages i ≡ some (Message.user content)))
unfolding turn_start
turn_start-user messages zero h = cc
turn_start-user messages (suc n) {i} h =
    elim (turn_start_at-user n (get_elem? messages n) (turn_start messages n) h) [
      | inl (c, e, q) ↦
          (omega arith, (c, subst (λ j. get_elem? messages j ≡ some (Message.user c)) q e))
      | inr e ↦ let (le, at) = turn_start-user messages n e in (omega arith, at)
    ]

split_start-user :
    (messages : List Message) (cut : ℕ) {i : ℕ}
    → split_start messages cut ≡ some i
    → (i < cut) × ((content : String) × (get_elem? messages i ≡ some (Message.user content)))
split_start-user messages cut h = elim (Bool-cases (is_user (get_elem? messages cut))) [
  | inl e ↦ ground arith
  | inr e ↦ turn_start-user messages cut (rw e at h)
]

-- Where a turn is split, its cut part starts with the user message at the index that is given; where
-- none is, there is no such part.
abbrev pub StartsTurn : Option ℕ → List Message → List Message → Type 0
StartsTurn none history turn = turn ≡ []
StartsTurn (some start) history turn =
    (length history ≡ start)
    × ((content : String) × (rest : List Message) × (turn ≡ Message.user content ∷ rest))

split_parts :
    (messages : List Message) (cut : ℕ) (start : Option ℕ)
    → cut ≤ length messages
    → ((i : ℕ)
        → start ≡ some i
        → (i < cut) × ((content : String) × (get_elem? messages i ≡ some (Message.user content))))
    → (take (history_end start cut) messages ++ drop (history_end start cut) (take cut messages)
        ≡ take cut messages)
      × StartsTurn start
          (take (history_end start cut) messages)
          (drop (history_end start cut) (take cut messages))
split_parts messages cut none le found =
    let nothing : drop cut (take cut messages) ≡ [] =
      drop_all cut (take cut messages) (omega (arith, length-take cut messages)) in
    (rw nothing (append-nil (take cut messages)), nothing)
split_parts messages cut (some i) le found =
    let (lt, (c, at)) = found i refl in
    let (rest, turn) = get_elem?-drop i cut messages lt at in
    (
      rw (← take-take i cut messages (omega arith)) (take-append-drop i (take cut messages)),
      (omega (arith, length-take i messages), (c, rest, turn)),
    )

-- What the summaries of a compaction are built from.
abbrev pub Prepared : List Message → CompactionPreparation → Type 0
Prepared messages p =
    (p.history_messages ++ p.turn_prefix_messages ≡ take p.cut_index messages)
    × (p.retained_messages ≡ drop p.cut_index messages)
    × (validate_compaction_cut messages (pos p.cut_index) ≡ ok tt)
    × StartsTurn p.split_turn_start_index p.history_messages p.turn_prefix_messages

preparation-Prepared :
    (messages : List Message) (b recent : ℕ) (s : HistoryCompactionRange)
    → Selected messages b recent s
    → Prepared messages (preparation messages s)
preparation-Prepared messages b recent s q =
    let cut_rest : drop s.cut_index messages ≡ s.retained_messages =
      rw (q.cut, ← q.split) (drop_all_of s.prefix_messages s.retained_messages) in
    let (parts, starts) =
      split_parts messages s.cut_index (split_start messages s.cut_index) (omega (arith, q.proper))
        (λ i. split_start-user messages s.cut_index) in
    (parts, sym cut_rest, Selected-valid messages b recent s q, starts)

pub prepare_compaction-Prepared :
    (messages : List Message) (recent bytes_per_token : ℕ) {p : CompactionPreparation}
    → prepare_compaction messages recent bytes_per_token ≡ ok (some p)
    → Prepared messages p
unfolding prepare_compaction
prepare_compaction-Prepared messages recent b {p} h =
    elim (Outcome-cases (select_compaction_range messages recent b)) [
      | inr (x, e) ↦ ground arith
      | inl (none, e) ↦ ground arith
      | inl (some s, e) ↦
          let same : preparation messages s ≡ p = ground arith in
          subst (Prepared messages) same (
            preparation-Prepared messages b recent s
              (select_compaction_range-Selected messages recent b e))
    ]
