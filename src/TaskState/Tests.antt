-- ===== src/TaskState/Tests.antt =====
-- The theorems on task state at concrete plans and checkpoints.
use dota_mind.Prelude.{◌≡◌, refl, String, Option, none, some, List, [], ◌∷◌}
use dota_mind.Prelude.Int.{pos}
use dota_mind.Prelude.Sort.{insert_sorted, sort_onto}
use dota_mind.Json.{Value, Fields, num, str, obj, end, field}
use dota_mind.Artifacts.Read.{ReadResult}
use dota_mind.Protocol.{ToolCall, ToolResultMessage, ResultStatus, Message}
use dota_mind.TaskState.Model.{
  TaskCheckpoint, TaskPlan, TaskItem, TaskItemStatus, CheckpointSource, SourceKind, Coordinator,
  fresh, no_eligible_observations,
}
use dota_mind.TaskState.Plan.{advance_plan}
use dota_mind.TaskState.Coordinator.{create_checkpoint, available_ids, validate_checkpoint}
use dota_mind.TaskState.Serial.{
  Advances, IsSerial, create_checkpoint-Advances, create_checkpoint-err,
}
use dota_mind.TaskState.Claims.{ClaimsOnce, create_checkpoint-ClaimsOnce}
use dota_mind.TaskState.History.{
  Call, plans, records, refreshes, checkpoints, IsConsistent, run, run-IsConsistent,
}

abbrev item : String → Value
item key = obj (field "key" (str key) (field "objective" (str "find the winner") end))

abbrev two_items : List Value
two_items = item "2024" ∷ item "2025" ∷ []

abbrev facts : Fields
facts = field "winner" (str "Team A") end

abbrev task_item : String → TaskItemStatus → TaskItem
task_item key status = record { key = key; objective = "find the winner"; status = status }

abbrev two_year_plan : TaskPlan
two_year_plan = record {
  items =
      task_item "2024" TaskItemStatus.in_progress ∷ task_item "2025" TaskItemStatus.pending ∷ [];
  current_key = some "2024";
}

abbrev search_source : CheckpointSource
search_source = record {
  tool_call_id = "t1";
  tool_name = "web.search";
  source_kind = SourceKind.inline_tool_result;
  message_index = 3;
  task_key = some "2024";
  ref = none;
  path = none;
  actual_start = none;
  actual_end = none;
}

-- One search was made for the first item.
abbrev searched : Coordinator
searched = record fresh { plan = some two_year_plan; active_sources = ("t1", search_source) ∷ [] }

abbrev two_year_plan-IsSerial : IsSerial two_year_plan
two_year_plan-IsSerial = record { in_order = refl; distinct = refl }

abbrev first_checkpoint : TaskCheckpoint
first_checkpoint = record {
  checkpoint_id = "checkpoint:u1";
  key = "2024";
  value = facts;
  source_tool_call_ids = "t1" ∷ [];
}

create_checkpoint-Advances_example :
    Advances "2024" two_year_plan (create_checkpoint "u1" "2024" facts searched).1
unfolding create_checkpoint available_ids sort_onto insert_sorted validate_checkpoint advance_plan
create_checkpoint-Advances_example =
    create_checkpoint-Advances "u1" "2024" facts searched two_year_plan {cp = first_checkpoint} refl
      two_year_plan-IsSerial refl

create_checkpoint-ClaimsOnce_example :
    ClaimsOnce searched first_checkpoint (create_checkpoint "u1" "2024" facts searched).1
unfolding create_checkpoint available_ids sort_onto insert_sorted validate_checkpoint advance_plan
create_checkpoint-ClaimsOnce_example =
    create_checkpoint-ClaimsOnce "u1" "2024" facts searched {cp = first_checkpoint} (refl, refl, tt)
      refl

-- The second item has no observation yet and is not current.
create_checkpoint-err_example : (create_checkpoint "u1" "2024" facts fresh).1 ≡ fresh
unfolding create_checkpoint available_ids sort_onto validate_checkpoint
create_checkpoint-err_example =
    create_checkpoint-err "u1" "2024" facts fresh {e = no_eligible_observations} refl

abbrev search_call : ToolCall
search_call = record { id = "t1"; name = "web.search"; arguments = obj end }

abbrev search_result : ToolResultMessage
search_result = record {
  tool_call_id = "t1";
  content = obj (field "hits" (num (pos 3)) end);
  status = ResultStatus.ok;
  error = none;
  executed = none;
}

-- No content of this history is a read of an artifact.
abbrev no_reads : Value → Option ReadResult
no_reads v = none

abbrev one_item_done : List Call
one_item_done =
    plans two_items
    ∷ records search_call search_result (some "2024")
    ∷ refreshes (Message.assistant none (search_call ∷ []) ∷ Message.tool search_result ∷ []) none
    ∷ checkpoints "u1" "2024" facts
    ∷ []

run-IsConsistent_example : IsConsistent (run no_reads one_item_done fresh)
run-IsConsistent_example = run-IsConsistent no_reads one_item_done
