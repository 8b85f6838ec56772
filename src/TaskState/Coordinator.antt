-- ===== src/TaskState/Coordinator.antt =====
-- The methods of `TaskStateCoordinator` that change its state. The validation of `artifact.read`
-- results is an argument, and so is the `uuid4` text of a new checkpoint.
use Prim.Native.String.{◌++◌ as append_text}
use dota_mind.Prelude.{
  ℕ, ◌+◌, ◌==◌, ltb, ◌&&◌, ◌||◌, not, Bool, true, false, String, str_eq, chars, contains, Option,
  none, some, is_some, List, [], ◌∷◌, ◌++◌, map, any, drop, Outcome, ok, err, raise_if,
  if◌then◌else◌,
}
use dota_mind.Prelude.Int.{ℤ, pos, negsuc}
use dota_mind.Prelude.Dict.{Dict, lookup, insert, remove}
use dota_mind.Prelude.Sort.{text_lt, sort_onto}
use dota_mind.Prelude.Method.{Method, pure, modify, lift, ◌>>=◌, ◌>>◌}
use dota_mind.Json.{Value, Fields, end, field}
use dota_mind.Artifacts.Read.{ReadResult}
use dota_mind.Protocol.{ToolCall, ToolResultMessage, Message, is_ok}
use dota_mind.Lifecycle.{ArtifactObservation, collect_active_artifact_observations}
use dota_mind.TaskState.Model.{
  TaskCheckpoint, TaskItem, TaskPlan, SourceKind, CheckpointSource, SourceOwner, TaskError,
  value_error, no_eligible_observations, plan_complete, current_task_mismatch, Coordinator,
}
use dota_mind.TaskState.Sources.{
  is_checkpointable_inline_tool, is_checkpointable_inline_content, inline_from,
}
use dota_mind.TaskState.Plan.{make_plan, advance_plan}

-- `max(0, n)`.
abbrev pub at_least_zero : ℤ → ℕ
at_least_zero (pos n) = n
at_least_zero (negsuc n) = 0

unfoldable pub reset : Coordinator → Coordinator
reset c = record {
  store = [];
  plan = none;
  active_sources = [];
  source_owners = [];
  claimed = [];
  request_start = 0;
}

unfoldable pub set_request_scope : ℤ → Coordinator → Coordinator
set_request_scope index c = record c { request_start = at_least_zero index }

abbrev pub read_owner : Option SourceOwner → Option String
read_owner none = none
read_owner (some owner) = if str_eq owner.tool_name "artifact.read" then owner.task_key else none

abbrev pub read_source : ℕ → Dict SourceOwner → ArtifactObservation → CheckpointSource
read_source start owners o = record {
  tool_call_id = o.tool_call_id;
  tool_name = "artifact.read";
  source_kind = SourceKind.artifact_read;
  message_index = start + o.message_index;
  task_key = read_owner (lookup o.tool_call_id owners);
  ref = some o.ref;
  path = o.path;
  actual_start = o.actual_start;
  actual_end = o.actual_end;
}

-- The sources of `artifact.read` observations, added to those so far.
unfoldable pub add_reads :
    ℕ
    → Dict SourceOwner
    → List String
    → List ArtifactObservation
    → Dict CheckpointSource
    → Dict CheckpointSource
add_reads start owners claimed [] sources = sources
add_reads start owners claimed (o ∷ os) sources = add_reads start owners claimed os (
    if contains claimed o.tool_call_id
    then sources
    else insert o.tool_call_id (read_source start owners o) sources)

-- `sources.update(...)`.
unfoldable pub add_inline : List CheckpointSource → Dict CheckpointSource → Dict CheckpointSource
add_inline [] sources = sources
add_inline (source ∷ rest) sources = add_inline rest (insert source.tool_call_id source sources)

abbrev pub is_owned : Option CheckpointSource → SourceOwner → Bool
is_owned none owner = false
is_owned (some source) owner = str_eq source.tool_name owner.tool_name

-- The owners whose source is still active.
unfoldable pub keep_owners : Dict CheckpointSource → Dict SourceOwner → Dict SourceOwner
keep_owners sources [] = []
keep_owners sources ((id, owner) ∷ rest) =
    let kept = keep_owners sources rest in
    if is_owned (lookup id sources) owner then (id, owner) ∷ kept else kept

abbrev pub scope_start : Option ℤ → ℕ → ℕ
scope_start none request_start = request_start
scope_start (some n) request_start = at_least_zero n

abbrev pub earlier : CheckpointSource → CheckpointSource → Bool
earlier a b =
    ltb a.message_index b.message_index
    || (a.message_index == b.message_index && text_lt a.tool_call_id b.tool_call_id)

-- `_ordered_active_sources`.
unfoldable pub ordered_active_sources : Coordinator → List CheckpointSource
ordered_active_sources c =
    sort_onto earlier [] (map (λ (entry : String × CheckpointSource). entry.1) c.active_sources)

abbrev pub same_key : Option String → Option String → Bool
same_key none none = true
same_key (some a) (some b) = str_eq a b
same_key _ _ = false

abbrev pub wanted_key : Option TaskPlan → String → Option String
wanted_key none key = none
wanted_key (some plan) key = some key

unfoldable pub ids_with_key : Option String → List CheckpointSource → List String
ids_with_key key [] = []
ids_with_key key (source ∷ rest) =
    let ids = ids_with_key key rest in
    if same_key source.task_key key then source.tool_call_id ∷ ids else ids

-- `_available_checkpoint_source_ids`.
unfoldable pub available_ids : String → Coordinator → List String
unfolding ordered_active_sources ids_with_key
available_ids key c = ids_with_key (wanted_key c.plan key) (ordered_active_sources c)

abbrev pub check_current : String → Option TaskPlan → Outcome TaskError (Unit {0})
check_current key none = ok tt
check_current key (some plan) = go plan.current_key
  where
    go : Option String → Outcome TaskError (Unit {0})
    go none = err plan_complete
    go (some current) = if str_eq key current then ok tt else err current_task_mismatch

abbrev pub is_empty : Fields → Bool
is_empty end = true
is_empty (field k v fs) = false

abbrev pub no_ids : List String → Bool
no_ids [] = true
no_ids (id ∷ ids) = false

abbrev pub next_plan : Option TaskPlan → Outcome TaskError (Option TaskPlan)
next_plan none = ok none
next_plan (some plan) = elim (advance_plan plan) [ ok p ↦ ok (some p) | err e ↦ err e ]

-- `_validate_checkpoint`.
unfoldable pub validate_checkpoint :
    String → Fields → List String → Option TaskPlan → Outcome TaskError (Unit {0})
validate_checkpoint key value sources plan =
    if str_eq key "" || ltb 128 (chars key) || is_empty value
    then err value_error
    else elim (check_current key plan) [
      | err e ↦ err e
      | ok _ ↦ raise_if (no_ids sources) no_eligible_observations
    ]

unfoldable pub remove_all {ℓ} : {V : Type ℓ} → List String → Dict V → Dict V
remove_all [] d = d
remove_all (id ∷ ids) d = remove_all ids (remove id d)

-- What `create_checkpoint` writes.
abbrev pub saved : TaskCheckpoint → Option TaskPlan → Coordinator → Coordinator
saved checkpoint plan c = record {
  store = insert checkpoint.key checkpoint c.store;
  plan = plan;
  active_sources = remove_all checkpoint.source_tool_call_ids c.active_sources;
  source_owners = remove_all checkpoint.source_tool_call_ids c.source_owners;
  claimed = checkpoint.source_tool_call_ids ++ c.claimed;
  request_start = c.request_start;
}

unfoldable pub create_checkpoint :
    String → String → Fields → Method TaskError Coordinator TaskCheckpoint
create_checkpoint uuid key value c =
    (do
      let sources = available_ids key c
      lift (validate_checkpoint key value sources c.plan)
      plan ← lift (next_plan c.plan)
      let checkpoint : TaskCheckpoint = record {
        checkpoint_id = append_text "checkpoint:" uuid;
        key = key;
        value = value;
        source_tool_call_ids = sources;
      }
      modify (saved checkpoint plan)
      pure checkpoint)
      c

unfoldable pub create_plan : List Value → Method TaskError Coordinator TaskPlan
create_plan items c =
    if is_some c.plan
    then (err value_error, c)
    else (do plan ← lift (make_plan items); modify λ c'. record c' { plan = some plan }; pure plan)
        c

-- `resolve_source_task_key`.
unfoldable pub resolve_source_task_key :
    Option String → Option TaskPlan → Outcome TaskError (Option String)
resolve_source_task_key key none = ok none
resolve_source_task_key none (some plan) = ok plan.current_key
resolve_source_task_key (some key) (some plan) =
    if any (λ (item : TaskItem). str_eq item.key key) plan.items
    then ok (some key)
    else err value_error

module _ (validate : Value → Option ReadResult) where
  unfoldable pub refresh : List Message → Option ℤ → Coordinator → Coordinator
  unfolding add_reads add_inline keep_owners
  refresh messages start_index c =
      let start = scope_start start_index c.request_start in
      let scoped = drop start messages in
      let reads =
        add_reads start c.source_owners c.claimed
          (collect_active_artifact_observations validate scoped) [] in
      let sources = add_inline (inline_from start scoped c.source_owners c.claimed []) reads in
      record c { active_sources = sources; source_owners = keep_owners sources c.source_owners }

  -- Whether the result of a call can own a source.
  abbrev pub is_recordable : ToolCall → ToolResultMessage → Bool
  is_recordable call result =
      if str_eq call.name "artifact.read"
      then not (
          no_observations (
            collect_active_artifact_observations validate
              (Message.assistant none (call ∷ []) ∷ Message.tool result ∷ [])))
      else is_checkpointable_inline_tool call.name
        && is_checkpointable_inline_content result.content
    where
      no_observations : List ArtifactObservation → Bool
      no_observations [] = true
      no_observations (o ∷ os) = false

  unfoldable pub record_tool_result :
      ToolCall → ToolResultMessage → Option String → Coordinator → Coordinator
  record_tool_result call result task_key c =
      if not (is_ok result.status)
        || not (str_eq call.id result.tool_call_id)
        || not (is_recordable call result)
      then c
      else record c {
        source_owners =
            insert call.id (record { tool_name = call.name; task_key = task_key }) c.source_owners;
      }
