-- ===== src/TaskState/Created.antt =====
-- What a successful `create_checkpoint` went through, in one record.
use dota_mind.Prelude.{◌≡◌, inl, inr, String, Option, ok, arith, Outcome-cases}
use dota_mind.Json.{Fields}
use dota_mind.TaskState.Model.{TaskPlan, TaskCheckpoint, Coordinator}
use dota_mind.TaskState.Coordinator.{
  create_checkpoint, next_plan, saved, available_ids, validate_checkpoint,
}

pub record Created (key : String) (value : Fields) (c : Coordinator) (cp : TaskCheckpoint)
    (c' : Coordinator) : Type 0 where
  pub checked : validate_checkpoint key value (available_ids key c) c.plan ≡ ok tt
  pub next : Option TaskPlan
  pub moved : next_plan c.plan ≡ ok next
  pub sources : cp.source_tool_call_ids ≡ available_ids key c
  pub same_key : cp.key ≡ key
  pub state : c' ≡ saved cp next c

pub create_checkpoint-Created :
    (uuid key : String) (value : Fields) (c : Coordinator) {cp : TaskCheckpoint}
    → (create_checkpoint uuid key value c).0 ≡ ok cp
    → Created key value c cp (create_checkpoint uuid key value c).1
unfolding create_checkpoint
create_checkpoint-Created uuid key value c h =
    elim (Outcome-cases (validate_checkpoint key value (available_ids key c) c.plan)) [
      | inr (x, e) ↦ ground arith
      | inl (_, e) ↦ elim (Outcome-cases (next_plan c.plan)) [
        | inr (x, f) ↦ ground arith
        | inl (plan, f) ↦ record {
          checked = e;
          next = plan;
          moved = f;
          sources = ground arith;
          same_key = ground arith;
          state = ground arith;
        }
      ]
    ]
