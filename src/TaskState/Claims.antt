-- ===== src/TaskState/Claims.antt =====
-- The sources that checkpoints claim, through refreshes and checkpoints.
use dota_mind.Prelude.{
  ℕ, suc, ◌≡◌, ◌≢◌, refl, sym, subst, ap, inl, inr, false, ◌||◌, String, eq_iff, contains, Option,
  none, some, List, [], ◌∷◌, ◌++◌, map, drop, All, ok, arith, Bool-cases,
}
use dota_mind.Prelude.Int.{ℤ}
use dota_mind.Prelude.Dict.{Dict, lookup, insert, remove}
use dota_mind.Prelude.Sort.{insert_sorted, sort_onto}
use dota_mind.Json.{Value, Fields}
use dota_mind.Artifacts.Read.{ReadResult}
use dota_mind.Protocol.{ToolCall, ToolResultMessage, Message, dequeue}
use dota_mind.Lifecycle.{ArtifactObservation, collect_active_artifact_observations}
use dota_mind.TaskState.Model.{TaskCheckpoint, TaskPlan, CheckpointSource, SourceOwner, Coordinator}
use dota_mind.TaskState.Sources.{inline_from, inline_of, matching, cons_some}
use dota_mind.TaskState.Coordinator.{
  scope_start, read_source, add_reads, add_inline, earlier, ids_with_key, available_ids, wanted_key,
  remove_all, create_checkpoint, refresh, validate_checkpoint, same_key,
}
use dota_mind.TaskState.Created.{create_checkpoint-Created}

-- A source that no checkpoint has claimed.
abbrev pub IsFree : List String → CheckpointSource → Type 0
IsFree claimed source = contains claimed source.tool_call_id ≡ false

-- Every active source stands under its tool call, which is not claimed.
abbrev pub AllFree : List String → Dict CheckpointSource → Type 0
AllFree claimed [] = Unit
AllFree claimed ((id, source) ∷ d) =
    (source.tool_call_id ≡ id) × (contains claimed id ≡ false) × AllFree claimed d

insert-AllFree :
    (claimed : List String) (source : CheckpointSource) (d : Dict CheckpointSource)
    → IsFree claimed source
    → AllFree claimed d
    → AllFree claimed (insert source.tool_call_id source d)
unfolding insert
insert-AllFree claimed source [] f h = (refl, f, tt)
insert-AllFree claimed source ((id, s) ∷ d) f h =
    ground (arith, eq_iff id source.tool_call_id, insert-AllFree claimed source d f)

add_reads-AllFree :
    (start : ℕ) (owners : Dict SourceOwner) (claimed : List String) (os : List ArtifactObservation)
    (d : Dict CheckpointSource)
    → AllFree claimed d
    → AllFree claimed (add_reads start owners claimed os d)
unfolding add_reads
add_reads-AllFree start owners claimed [] d h = h
add_reads-AllFree start owners claimed (o ∷ os) d h =
    add_reads-AllFree start owners claimed os _
      (ground (arith, insert-AllFree claimed (read_source start owners o) d))

add_inline-AllFree :
    (claimed : List String) (sources : List CheckpointSource) (d : Dict CheckpointSource)
    → All (IsFree claimed) sources
    → AllFree claimed d
    → AllFree claimed (add_inline sources d)
unfolding add_inline
add_inline-AllFree claimed [] d a h = h
add_inline-AllFree claimed (s ∷ ss) d a h =
    add_inline-AllFree claimed ss _ a.1 (insert-AllFree claimed s d a.0 h)

inline_of-IsFree :
    (index : ℕ) (claimed : List String) (message : ToolResultMessage) (call : Option ToolCall)
    (owner : Option SourceOwner) {source : CheckpointSource}
    → inline_of index claimed message call owner ≡ some source
    → IsFree claimed source
inline_of-IsFree index claimed message none owner h = ground arith
inline_of-IsFree index claimed message (some call) none h = ground arith
inline_of-IsFree index claimed message (some call) (some owner) h =
    elim (Bool-cases (contains claimed message.tool_call_id)) [
      | inl e ↦ ground arith
      | inr e ↦ ground arith
    ]

cons_some-IsFree :
    (claimed : List String) (o : Option CheckpointSource) (sources : List CheckpointSource)
    → ((source : CheckpointSource) → o ≡ some source → IsFree claimed source)
    → All (IsFree claimed) sources
    → All (IsFree claimed) (cons_some o sources)
cons_some-IsFree claimed none sources f a = a
cons_some-IsFree claimed (some source) sources f a = (f source refl, a)

inline_from-IsFree :
    (index : ℕ) (messages : List Message) (owners : Dict SourceOwner) (claimed : List String)
    (calls : Dict (List (Option ToolCall)))
    → All (IsFree claimed) (inline_from index messages owners claimed calls)
unfolding inline_from
inline_from-IsFree index [] owners claimed calls = tt
inline_from-IsFree index (Message.assistant content batch ∷ messages) owners claimed calls =
    inline_from-IsFree (suc index) messages owners claimed _
inline_from-IsFree index (Message.rejected content batch ∷ messages) owners claimed calls =
    inline_from-IsFree (suc index) messages owners claimed _
inline_from-IsFree index (Message.tool message ∷ messages) owners claimed calls =
    cons_some-IsFree claimed _ _
      (λ source.
        inline_of-IsFree index claimed message (matching (dequeue message.tool_call_id calls).0)
          (lookup message.tool_call_id owners))
      (inline_from-IsFree (suc index) messages owners claimed
        (dequeue message.tool_call_id calls).1)
inline_from-IsFree index (message ∷ messages) owners claimed calls =
    inline_from-IsFree (suc index) messages owners claimed calls

pub refresh-AllFree :
    (validate : Value → Option ReadResult) (messages : List Message) (start : Option ℤ)
    (c : Coordinator)
    → AllFree c.claimed (refresh validate messages start c).active_sources
unfolding refresh
refresh-AllFree validate messages start c =
    let first = scope_start start c.request_start in
    add_inline-AllFree c.claimed _ _
      (inline_from-IsFree first (drop first messages) c.source_owners c.claimed [])
      (add_reads-AllFree first c.source_owners c.claimed
        (collect_active_artifact_observations validate (drop first messages)) [] tt)

contains-append :
    (xs ys : List String) (k : String) → contains (xs ++ ys) k ≡ (contains xs k || contains ys k)
contains-append [] ys k = refl
contains-append (x ∷ xs) ys k = ground (arith, contains-append xs ys k)

AllFree-mono :
    (a b : List String) (d : Dict CheckpointSource)
    → ((k : String) → contains a k ≡ false → contains b k ≡ false)
    → AllFree a d
    → AllFree b d
AllFree-mono a b [] f h = tt
AllFree-mono a b ((id, s) ∷ d) f h = (h.0, f id h.1, AllFree-mono a b d f h.2)

remove-AllFree :
    (claimed : List String) (id : String) (d : Dict CheckpointSource)
    → AllFree claimed d
    → AllFree (id ∷ claimed) (remove id d)
unfolding remove
remove-AllFree claimed id [] h = tt
remove-AllFree claimed id ((j, s) ∷ d) h =
    ground (arith, eq_iff j id, eq_iff id j, remove-AllFree claimed id d)

remove_all-AllFree :
    (ids claimed : List String) (d : Dict CheckpointSource)
    → AllFree claimed d
    → AllFree (ids ++ claimed) (remove_all ids d)
unfolding remove_all
remove_all-AllFree [] claimed d h = h
remove_all-AllFree (id ∷ ids) claimed d h =
    AllFree-mono (ids ++ id ∷ claimed) (id ∷ ids ++ claimed) _
      (λ k q. ground (arith, contains-append ids (id ∷ claimed) k, contains-append ids claimed k))
      (remove_all-AllFree ids (id ∷ claimed) (remove id d) (remove-AllFree claimed id d h))

-- The ids of free sources.
abbrev pub NoneIn : List String → List String → Type 0
NoneIn claimed [] = Unit
NoneIn claimed (id ∷ ids) = (contains claimed id ≡ false) × NoneIn claimed ids

module _ (claimed : List String) where
  insert_sorted-IsFree :
      (s : CheckpointSource) (ss : List CheckpointSource)
      → IsFree claimed s
      → All (IsFree claimed) ss
      → All (IsFree claimed) (insert_sorted earlier s ss)
  unfolding insert_sorted
  insert_sorted-IsFree s [] f a = (f, tt)
  insert_sorted-IsFree s (x ∷ ss) f a = elim (Bool-cases (earlier s x)) [
    | inl e ↦ rw e (f, a)
    | inr e ↦ rw e (a.0, insert_sorted-IsFree s ss f a.1)
  ]

  sort_onto-IsFree :
      (sorted ss : List CheckpointSource)
      → All (IsFree claimed) sorted
      → All (IsFree claimed) ss
      → All (IsFree claimed) (sort_onto earlier sorted ss)
  unfolding sort_onto
  sort_onto-IsFree sorted [] h a = h
  sort_onto-IsFree sorted (s ∷ ss) h a =
      sort_onto-IsFree (insert_sorted earlier s sorted) ss (insert_sorted-IsFree s sorted a.0 h) a.1

  AllFree-map :
      (d : Dict CheckpointSource)
      → AllFree claimed d
      → All (IsFree claimed) (map (λ (entry : String × CheckpointSource). entry.1) d)
  AllFree-map [] h = tt
  AllFree-map ((id, s) ∷ d) h = (ground (arith, h.0, h.1), AllFree-map d h.2)

  ids_with_key-NoneIn :
      (key : Option String) (ss : List CheckpointSource)
      → All (IsFree claimed) ss
      → NoneIn claimed (ids_with_key key ss)
  unfolding ids_with_key
  ids_with_key-NoneIn key [] a = tt
  ids_with_key-NoneIn key (s ∷ ss) a = elim (Bool-cases (same_key s.task_key key)) [
    | inl e ↦ rw e (a.0, ids_with_key-NoneIn key ss a.1)
    | inr e ↦ rw e (ids_with_key-NoneIn key ss a.1)
  ]

available_ids-NoneIn :
    (key : String) (c : Coordinator)
    → AllFree c.claimed c.active_sources
    → NoneIn c.claimed (available_ids key c)
unfolding available_ids
available_ids-NoneIn key c h =
    ids_with_key-NoneIn c.claimed (wanted_key c.plan key) _
      (sort_onto-IsFree c.claimed [] _ tt (AllFree-map c.claimed c.active_sources h))

-- What a checkpoint does to the claims.
abbrev pub ClaimsOnce : Coordinator → TaskCheckpoint → Coordinator → Type 0
ClaimsOnce c cp c' =
    (cp.source_tool_call_ids ≢ [])
    × NoneIn c.claimed cp.source_tool_call_ids
    × (c'.claimed ≡ cp.source_tool_call_ids ++ c.claimed)
    × AllFree c'.claimed c'.active_sources

checked-sources :
    (key : String) (value : Fields) (ids : List String) (plan : Option TaskPlan)
    → validate_checkpoint key value ids plan ≡ ok tt
    → ids ≢ []
unfolding validate_checkpoint
checked-sources key value [] plan h e = ground arith
checked-sources key value (id ∷ ids) plan h e = cc

-- Where the active sources are free, a checkpoint that succeeds has at least one source, none of
-- which an earlier checkpoint claimed; it claims them all, and the sources that stay active are free.
pub create_checkpoint-ClaimsOnce :
    (uuid key : String) (value : Fields) (c : Coordinator) {cp : TaskCheckpoint}
    → AllFree c.claimed c.active_sources
    → (create_checkpoint uuid key value c).0 ≡ ok cp
    → ClaimsOnce c cp (create_checkpoint uuid key value c).1
create_checkpoint-ClaimsOnce uuid key value c {cp} f h =
    let made = create_checkpoint-Created uuid key value c h in
    (
      subst (λ ids. ids ≢ []) (sym made.sources)
          (checked-sources key value (available_ids key c) c.plan made.checked),
      subst (NoneIn c.claimed) (sym made.sources) (available_ids-NoneIn key c f),
      ap (λ (s : Coordinator). s.claimed) made.state,
      subst (λ (s : Coordinator). AllFree s.claimed s.active_sources) (sym made.state)
          (remove_all-AllFree cp.source_tool_call_ids c.claimed c.active_sources f),
    )
