-- ===== src/TaskState/History.antt =====
-- Any caller of a `TaskStateCoordinator`: a history of calls from a fresh one.
use dota_mind.Prelude.{
  ◌≡◌, sym, subst, inl, inr, String, Option, none, some, List, [], ◌∷◌, arith, Outcome-cases,
  Option-cases,
}
use dota_mind.Prelude.Int.{ℤ}
use dota_mind.Json.{Value, Fields}
use dota_mind.Artifacts.Read.{ReadResult}
use dota_mind.Protocol.{ToolCall, ToolResultMessage, Message}
use dota_mind.TaskState.Model.{TaskPlan, Coordinator, fresh}
use dota_mind.TaskState.Plan.{make_plan}
use dota_mind.TaskState.Coordinator.{
  reset, set_request_scope, create_checkpoint, create_plan, refresh, record_tool_result,
}
use dota_mind.TaskState.Created.{create_checkpoint-Created}
use dota_mind.TaskState.Serial.{
  IsSerial, make_plan-IsSerial, create_checkpoint-Advances, create_checkpoint-err,
}
use dota_mind.TaskState.Claims.{AllFree, refresh-AllFree, create_checkpoint-ClaimsOnce}

pub data Call : Type 0 where
  resets : Call
  scopes : ℤ → Call
  refreshes : List Message → Option ℤ → Call
  records : ToolCall → ToolResultMessage → Option String → Call
  plans : List Value → Call
  checkpoints : String → String → Fields → Call

-- A plan, if there is one, is serial.
abbrev pub PlanFits : Option TaskPlan → Type 0
PlanFits none = Unit
PlanFits (some plan) = IsSerial plan

pub record IsConsistent (c : Coordinator) : Type 0 where
  pub free : AllFree c.claimed c.active_sources
  pub plan_fits : PlanFits c.plan

create_plan-PlanFits :
    (items : List Value) (c : Coordinator) → PlanFits c.plan → PlanFits (create_plan items c).1.plan
unfolding create_plan
create_plan-PlanFits items c h = elim (Outcome-cases (make_plan items)) [
  | inl (p, e) ↦ ground (arith, make_plan-IsSerial items e)
  | inr (x, e) ↦ ground arith
]

create_plan-AllFree :
    (items : List Value) (c : Coordinator)
    → AllFree c.claimed c.active_sources
    → AllFree (create_plan items c).1.claimed (create_plan items c).1.active_sources
unfolding create_plan
create_plan-AllFree items c h = ground arith

checkpoint-PlanFits :
    (uuid key : String) (value : Fields) (c : Coordinator)
    → PlanFits c.plan
    → PlanFits (create_checkpoint uuid key value c).1.plan
checkpoint-PlanFits uuid key value c h =
    elim (Outcome-cases (create_checkpoint uuid key value c).0) [
      | inr (x, e) ↦
          subst (λ (s : Coordinator). PlanFits s.plan)
            (sym (create_checkpoint-err uuid key value c e)) h
      | inl (cp, e) ↦ elim (Option-cases c.plan) [
        | inl q ↦
            let made = create_checkpoint-Created uuid key value c e in
            let unplanned : (create_checkpoint uuid key value c).1.plan ≡ none =
              ground (arith, made.moved, made.state) in
            subst PlanFits (sym unplanned) tt
        | inr (plan, q) ↦
            let (next, moved, v, _, _, _) =
              create_checkpoint-Advances uuid key value c plan q (subst PlanFits q h) e in
            subst PlanFits (sym moved) v
      ]
    ]

checkpoint-AllFree :
    (uuid key : String) (value : Fields) (c : Coordinator)
    → AllFree c.claimed c.active_sources
    → AllFree
        (create_checkpoint uuid key value c).1.claimed
        (create_checkpoint uuid key value c).1.active_sources
checkpoint-AllFree uuid key value c h =
    elim (Outcome-cases (create_checkpoint uuid key value c).0) [
      | inr (x, e) ↦
          subst (λ (s : Coordinator). AllFree s.claimed s.active_sources)
            (sym (create_checkpoint-err uuid key value c e)) h
      | inl (cp, e) ↦ (create_checkpoint-ClaimsOnce uuid key value c h e).3
    ]

module _ (validate : Value → Option ReadResult) where
  refresh-IsConsistent :
      (messages : List Message) (start : Option ℤ) (c : Coordinator)
      → IsConsistent c
      → IsConsistent (refresh validate messages start c)
  unfolding refresh
  refresh-IsConsistent messages start c h = record {
    free = refresh-AllFree validate messages start c;
    plan_fits = h.plan_fits;
  }

  record-IsConsistent :
      (call : ToolCall) (result : ToolResultMessage) (key : Option String) (c : Coordinator)
      → IsConsistent c
      → IsConsistent (record_tool_result validate call result key c)
  unfolding record_tool_result
  record-IsConsistent call result key c h = ground arith

  unfoldable pub apply : Call → Coordinator → Coordinator
  apply resets c = reset c
  apply (scopes index) c = set_request_scope index c
  apply (refreshes messages start) c = refresh validate messages start c
  apply (records call result key) c = record_tool_result validate call result key c
  apply (plans items) c = (create_plan items c).1
  apply (checkpoints uuid key value) c = (create_checkpoint uuid key value c).1

  unfoldable pub run : List Call → Coordinator → Coordinator
  run [] c = c
  run (call ∷ calls) c = run calls (apply call c)

  apply-IsConsistent :
      (call : Call) (c : Coordinator) → IsConsistent c → IsConsistent (apply call c)
  unfolding apply reset set_request_scope
  apply-IsConsistent resets c h = record { free = tt; plan_fits = tt }
  apply-IsConsistent (scopes index) c h = record { free = h.free; plan_fits = h.plan_fits }
  apply-IsConsistent (refreshes messages start) c h = refresh-IsConsistent messages start c h
  apply-IsConsistent (records call result key) c h = record-IsConsistent call result key c h
  apply-IsConsistent (plans items) c h = record {
    free = create_plan-AllFree items c h.free;
    plan_fits = create_plan-PlanFits items c h.plan_fits;
  }
  apply-IsConsistent (checkpoints uuid key value) c h = record {
    free = checkpoint-AllFree uuid key value c h.free;
    plan_fits = checkpoint-PlanFits uuid key value c h.plan_fits;
  }

  run-from : (calls : List Call) (c : Coordinator) → IsConsistent c → IsConsistent (run calls c)
  unfolding run
  run-from [] c h = h
  run-from (call ∷ calls) c h = run-from calls (apply call c) (apply-IsConsistent call c h)

  -- After any history of calls from a fresh coordinator, refused ones included, the plan is serial
  -- and no active source has been claimed by a checkpoint.
  pub run-IsConsistent : (calls : List Call) → IsConsistent (run calls fresh)
  run-IsConsistent calls = run-from calls fresh (record { free = tt; plan_fits = tt })
