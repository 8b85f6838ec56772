-- ===== src/TaskState/Model.antt =====
-- The data of task_state.py.
use dota_mind.Prelude.{ℕ, String, Option, none, List, []}
use dota_mind.Prelude.Dict.{Dict}
use dota_mind.Json.{Fields}

pub record TaskCheckpoint : Type 0 where
  pub checkpoint_id : String
  pub key : String
  pub value : Fields
  pub source_tool_call_ids : List String

pub data TaskItemStatus : Type 0 where
  pending in_progress completed : TaskItemStatus

pub record TaskItem : Type 0 where
  pub key : String
  pub objective : String
  pub status : TaskItemStatus

pub record TaskPlan : Type 0 where
  pub items : List TaskItem
  pub current_key : Option String

pub data SourceKind : Type 0 where
  inline_tool_result artifact_read : SourceKind

pub record CheckpointSource : Type 0 where
  pub tool_call_id : String
  pub tool_name : String
  pub source_kind : SourceKind
  pub message_index : ℕ
  pub task_key : Option String
  pub ref : Option String
  pub path : Option String
  pub actual_start : Option ℕ
  pub actual_end : Option ℕ

pub record SourceOwner : Type 0 where
  pub tool_name : String
  pub task_key : Option String

-- `ValueError`, `CheckpointSourceError` and the two reasons of `TaskStateError`.
pub data TaskError : Type 0 where
  value_error no_eligible_observations plan_complete current_task_mismatch : TaskError

-- The fields of `TaskStateCoordinator`; `store` is the dict of its `TaskStateStore`.
pub record Coordinator : Type 0 where
  pub store : Dict TaskCheckpoint
  pub plan : Option TaskPlan
  pub active_sources : Dict CheckpointSource
  pub source_owners : Dict SourceOwner
  pub claimed : List String
  pub request_start : ℕ

abbrev pub fresh : Coordinator
fresh = record {
  store = [];
  plan = none;
  active_sources = [];
  source_owners = [];
  claimed = [];
  request_start = 0;
}
