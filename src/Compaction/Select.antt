-- ===== src/Compaction/Select.antt =====
-- `select_compaction_range`, `prepare_compaction` and `validate_compaction_cut`.
use dota_mind.Prelude.{
  ℕ, zero, suc, ◌+◌, ◌==◌, ltb, leb, not, ◌&&◌, ◌||◌, Bool, true, false, Option, none, some, List,
  [], ◌∷◌, ◌++◌, length, take, drop, get_elem?, reverse_onto, Outcome, ok, err, raise_if, ◌>>=◌,
  ◌>>◌, if◌then◌else◌,
}
use dota_mind.Prelude.Int.{ℤ, pos, negsuc}
use dota_mind.Protocol.{Message}
use dota_mind.Compaction.Groups.{
  HistoryError, invalid_recent_history_budget, invalid_compaction_boundary, MessageGroup,
  group_history,
}

pub record HistoryCompactionRange : Type 0 where
  pub cut_index : ℕ
  pub prefix_messages : List Message
  pub retained_messages : List Message
  pub retained_bytes : ℕ
  pub retained_estimated_tokens : ℕ

pub record CompactionPreparation : Type 0 where
  pub cut_index : ℕ
  pub history_messages : List Message
  pub turn_prefix_messages : List Message
  pub retained_messages : List Message
  pub split_turn_start_index : Option ℕ
  pub retained_estimated_tokens : ℕ

-- The messages of some groups, in order.
abbrev pub flatten : List MessageGroup → List Message
flatten [] = []
flatten (g ∷ gs) = g.messages ++ flatten gs

abbrev pub sum_bytes : List MessageGroup → ℕ
sum_bytes [] = 0
sum_bytes (g ∷ gs) = g.serialized_bytes + sum_bytes gs

abbrev pub sum_tokens : List MessageGroup → ℕ
sum_tokens [] = 0
sum_tokens (g ∷ gs) = g.estimated_tokens + sum_tokens gs

-- The loop that moves `first_retained_group` down, with the groups before it, the last one first,
-- and the retained groups.
unfoldable pub extend_retained :
    ℕ → List MessageGroup → List MessageGroup → List MessageGroup × List MessageGroup
extend_retained recent [] retained = ([], retained)
extend_retained recent (g ∷ earlier) retained =
    let longer = extend_retained recent earlier (g ∷ retained) in
    if ltb (sum_tokens retained) recent then longer else (g ∷ earlier, retained)

-- What is selected from the groups before the last one, in reverse, and the last one.
unfoldable pub select_groups : ℕ → List MessageGroup → Option HistoryCompactionRange
unfolding extend_retained
select_groups recent [] = none
select_groups recent (newest ∷ earlier) =
    let (before, retained) = extend_retained recent earlier (newest ∷ []) in
    let prefix = flatten (reverse_onto before []) in
    if leb (length prefix) 0
    then none
    else some (record {
      cut_index = length prefix;
      prefix_messages = prefix;
      retained_messages = flatten retained;
      retained_bytes = sum_bytes retained;
      retained_estimated_tokens = sum_tokens retained;
    })

unfoldable pub select_compaction_range :
    List Message → ℕ → ℕ → Outcome HistoryError (Option HistoryCompactionRange)
unfolding select_groups
select_compaction_range messages recent bytes_per_token = do
  raise_if (leb recent 0 || leb bytes_per_token 0) invalid_recent_history_budget
  groups ← group_history bytes_per_token messages
  ok (if leb (length groups) 1 then none else select_groups recent (reverse_onto groups []))

-- One round at the index `n`, with what the rounds after it find.
abbrev pub turn_start_at : ℕ → Option Message → Option ℕ → Option ℕ
turn_start_at n (some (Message.final content)) earlier = none
turn_start_at n (some (Message.user content)) earlier = some n
turn_start_at n other earlier = earlier

-- The loop of `prepare_compaction` from the index before `n` down: the user message that starts the
-- turn, unless a final message ends the turn before it.
unfoldable pub turn_start : List Message → ℕ → Option ℕ
turn_start messages zero = none
turn_start messages (suc n) = turn_start_at n (get_elem? messages n) (turn_start messages n)

abbrev pub is_user : Option Message → Bool
is_user (some (Message.user content)) = true
is_user _ = false

abbrev pub split_start : List Message → ℕ → Option ℕ
split_start messages cut =
    if is_user (get_elem? messages cut) then none else turn_start messages cut

-- `messages[:start]`, or the whole prefix where no turn is split.
abbrev pub history_end : Option ℕ → ℕ → ℕ
history_end none cut = cut
history_end (some start) cut = start

abbrev pub preparation : List Message → HistoryCompactionRange → CompactionPreparation
preparation messages selected =
    let start = split_start messages selected.cut_index in
    let stop = history_end start selected.cut_index in
    record {
      cut_index = selected.cut_index;
      history_messages = take stop messages;
      turn_prefix_messages = drop stop (take selected.cut_index messages);
      retained_messages = selected.retained_messages;
      split_turn_start_index = start;
      retained_estimated_tokens = selected.retained_estimated_tokens;
    }

abbrev pub prepare : List Message → Option HistoryCompactionRange → Option CompactionPreparation
prepare messages none = none
prepare messages (some selected) = some (preparation messages selected)

unfoldable pub prepare_compaction :
    List Message → ℕ → ℕ → Outcome HistoryError (Option CompactionPreparation)
prepare_compaction messages recent bytes_per_token = do
  selected ← select_compaction_range messages recent bytes_per_token
  ok (prepare messages selected)

-- The loop of `validate_compaction_cut` from one boundary on.
unfoldable pub is_boundary : ℕ → ℕ → List MessageGroup → Bool
is_boundary boundary cut [] = false
is_boundary boundary cut (g ∷ gs) =
    let next = boundary + length g.messages in (next == cut) || is_boundary next cut gs

unfoldable pub validate_compaction_cut : List Message → ℤ → Outcome HistoryError (Unit {0})
validate_compaction_cut messages (negsuc n) = do
  groups ← group_history 1 messages
  err invalid_compaction_boundary
validate_compaction_cut messages (pos cut) = do
  groups ← group_history 1 messages
  raise_if (not (ltb 0 cut && ltb cut (length messages))) invalid_compaction_boundary
  raise_if (not (is_boundary 0 cut groups)) invalid_compaction_boundary
