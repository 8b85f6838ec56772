-- ===== src/Recovery/Paired.antt =====
-- The history of a rejected batch as one group of a transcript.
use dota_mind.Prelude.{
  ◌≡◌, refl, ap, Bool, true, false, not, ◌&&◌, String, eq_iff, eq_refl, contains, List, [], ◌∷◌,
  ◌++◌, map, length, ok, arith,
}
use dota_mind.Protocol.{RawToolCall, RejectedToolCallBatch, ToolResultMessage, Message}
use dota_mind.Compaction.{
  distinct_ids, is_unexecuted, take_results, take_batch, all_in, result_ids, raw_call_ids,
  next_group,
}
use dota_mind.Recovery.Rejected.{rejected_result, build_rejected_tool_call_history}

result_ids-rejected :
    (batch : RejectedToolCallBatch) (calls : List RawToolCall)
    → result_ids (map (rejected_result batch) calls) ≡ raw_call_ids calls
result_ids-rejected batch [] = refl
result_ids-rejected batch (call ∷ calls) = ap (◌∷◌ call.id) (result_ids-rejected batch calls)

-- The ids of `xs` are among `ids`.
contains-cons : (x : String) (ids : List String) → contains (x ∷ ids) x ≡ true
contains-cons x ids = ground (arith, eq_refl x)

all_in-cons :
    (x : String) (xs ids : List String) → all_in xs ids ≡ true → all_in xs (x ∷ ids) ≡ true
all_in-cons x [] ids h = refl
all_in-cons x (y ∷ xs) ids h = ground (arith, all_in-cons x xs ids)

all_in_self : (xs : List String) → all_in xs xs ≡ true
all_in_self [] = refl
all_in_self (x ∷ xs) = ground (arith, contains-cons x xs, all_in-cons x xs xs, all_in_self xs)

-- None of the ids is among those seen.
abbrev none_seen : List String → List String → Bool
none_seen seen [] = true
none_seen seen (id ∷ ids) = not (contains seen id) && none_seen seen ids

none_seen-cons :
    (id : String) (seen ids : List String)
    → contains ids id ≡ false
    → none_seen seen ids ≡ true
    → none_seen (id ∷ seen) ids ≡ true
none_seen-cons id seen [] h k = refl
none_seen-cons id seen (x ∷ ids) h k =
    ground (arith, eq_iff x id, eq_iff id x, none_seen-cons id seen ids)

none_seen-nil : (ids : List String) → none_seen [] ids ≡ true
none_seen-nil [] = refl
none_seen-nil (id ∷ ids) = none_seen-nil ids

take_results-rejected :
    (batch : RejectedToolCallBatch) (calls : List RawToolCall) (expected seen : List String)
    (rest : List Message)
    → all_in (raw_call_ids calls) expected ≡ true
    → distinct_ids (raw_call_ids calls) ≡ true
    → none_seen seen (raw_call_ids calls) ≡ true
    → take_results is_unexecuted expected
        (length (raw_call_ids calls))
        seen
        (map Message.tool (map (rejected_result batch) calls) ++ rest)
      ≡ ok (map (rejected_result batch) calls, rest)
unfolding take_results
take_results-rejected batch [] expected seen rest a d n = refl
take_results-rejected batch (call ∷ calls) expected seen rest a d n =
    let ih =
      take_results-rejected batch calls expected (call.id ∷ seen) rest (ground arith) (ground arith)
        (none_seen-cons call.id seen (raw_call_ids calls) (ground arith) (ground arith)) in
    rw ih (ground arith)

take_batch-ok :
    (message : Message) (ids : List String) (source : List Message) {rs : List ToolResultMessage}
    {rest : List Message}
    → distinct_ids ids ≡ true
    → take_results is_unexecuted ids (length ids) [] source ≡ ok (rs, rest)
    → result_ids rs ≡ ids
    → take_batch is_unexecuted message ids source ≡ ok (message ∷ map Message.tool rs, rest)
unfolding take_batch
take_batch-ok message ids source d taken same =
    let complete = all_in_self ids in rw (d, taken, same, complete)

-- The history of a rejected batch whose calls have distinct ids is one complete group of a
-- transcript, whatever follows: for each call, in order, one result with its id, marked as not
-- executed.
pub build_rejected_tool_call_history-next_group :
    (batch : RejectedToolCallBatch) (rest : List Message)
    → distinct_ids (raw_call_ids batch.calls) ≡ true
    → (result_ids (build_rejected_tool_call_history batch).1 ≡ raw_call_ids batch.calls)
      × (next_group
            (build_rejected_tool_call_history batch).0
            (map Message.tool (build_rejected_tool_call_history batch).1 ++ rest)
          ≡ ok (
            (build_rejected_tool_call_history batch).0
                ∷ map Message.tool (build_rejected_tool_call_history batch).1,
            rest,
          ))
unfolding build_rejected_tool_call_history next_group
build_rejected_tool_call_history-next_group batch rest d =
    let ids = raw_call_ids batch.calls in
    let taken =
      take_results-rejected batch batch.calls ids [] rest (all_in_self ids) d (none_seen-nil ids) in
    (
      result_ids-rejected batch batch.calls,
      take_batch-ok (build_rejected_tool_call_history batch).0 ids _ d taken
          (result_ids-rejected batch batch.calls),
    )
