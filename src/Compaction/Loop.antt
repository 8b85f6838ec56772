-- ===== src/Compaction/Loop.antt =====
-- The loop of `_group_history`, round by round, without a number of rounds.
use dota_mind.Prelude.{
  ℕ, zero, suc, ◌≤◌, ◌≡◌, inl, inr, List, [], ◌∷◌, length, Outcome, ok, err, arith, Outcome-cases,
}
use dota_mind.Protocol.{Message}
use dota_mind.Compaction.Groups.{
  HistoryError, MessageGroup, make_group, next_group, groups_from, group_history,
}
use dota_mind.Compaction.Cover.{next_group-shorter}

-- A run of the loop that ends: at the end of the source, at a round that raises, or after a round and
-- the run of the loop on what that round left.
pub data Ends (bytes_per_token : ℕ)
    : List Message → Outcome HistoryError (List MessageGroup) → Type 0 where
  at_end : Ends bytes_per_token [] (ok [])
  raises :
      {message : Message} {source : List Message} {e : HistoryError}
      → next_group message source ≡ err e
      → Ends bytes_per_token (message ∷ source) (err e)
  raises_later :
      {message : Message} {source group rest : List Message} {e : HistoryError}
      → next_group message source ≡ ok (group, rest)
      → Ends bytes_per_token rest (err e)
      → Ends bytes_per_token (message ∷ source) (err e)
  goes_on :
      {message : Message} {source group rest : List Message} {groups : List MessageGroup}
      → next_group message source ≡ ok (group, rest)
      → Ends bytes_per_token rest (ok groups)
      → Ends bytes_per_token (message ∷ source) (ok (make_group bytes_per_token group ∷ groups))

groups_from-Ends :
    (bytes_per_token rounds : ℕ) (source : List Message)
    → length source ≤ rounds
    → Ends bytes_per_token source (groups_from bytes_per_token rounds source)
unfolding groups_from
groups_from-Ends b rounds [] h = at_end
groups_from-Ends b zero (message ∷ source) h = absurd (omega (arith, h))
groups_from-Ends b (suc rounds) (message ∷ source) h =
    elim (Outcome-cases (next_group message source)) [
      | inr (x, e) ↦ rw e (raises e)
      | inl ((group, rest), e) ↦
          let shorter = next_group-shorter message source e in
          let ih = groups_from-Ends b rounds rest (omega (arith, h, shorter)) in
          elim (Outcome-cases (groups_from b rounds rest)) [
            | inr (x, f) ↦ rw (e, f) (raises_later e (rw f at ih))
            | inl (groups, f) ↦ rw (e, f) (goes_on e (rw f at ih))
          ]
    ]

-- On every history the loop of `_group_history` ends, and what it returns or raises is the result
-- of the model, whose rounds thus never run out.
pub group_history-Ends :
    (bytes_per_token : ℕ) (messages : List Message)
    → Ends bytes_per_token messages (group_history bytes_per_token messages)
unfolding group_history
group_history-Ends b messages = groups_from-Ends b (length messages) messages (omega arith)
