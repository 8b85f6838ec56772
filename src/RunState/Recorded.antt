-- ===== src/RunState/Recorded.antt =====
-- What a call does to the recorded activities.
use Prim.Native.String.{◌++◌ as append_text}
use dota_mind.Prelude.Decimal.{repr}
use dota_mind.Prelude.{
  ℕ, ◌+◌, ◌-◌, ltb, ◌≡◌, refl, sym, subst, ◌⊎◌, inl, inr, String, str_eq, Option, none, List, [],
  ◌∷◌, ◌++◌, length, drop, Outcome, ok, err, arith, Bool-cases, Outcome-cases, not, chars,
  take_chars,
}
use dota_mind.Prelude.Int.{ℤ}
use dota_mind.RunState.Model.{RunState, RunError, RunStage, ToolStatus, Timestamp, ActivityItem}
use dota_mind.RunState.Fields.{
  append_activity, max_commentary_code_points, max_activity_items, is_running, min_lengths,
  min_length_opt,
}
use dota_mind.RunState.Execution.{
  start_execution, add_commentary, enter_stage, tool_started, tool_finished, finish_activity,
  finish_execution, finish_one, replace_head, push, negative_duration, finished_status,
}
use dota_mind.RunState.Answer.{
  start_answer_attempt, append_answer_text, complete_answer, cancel, fail_execution,
}
use dota_mind.RunState.Persistence.{start_persistence, persistence_succeeded, persistence_failed}
use dota_mind.RunState.Calls.{Call, comments, enters, tool_starts, tool_finishes, apply}

-- An activity that is as it was, or a running tool activity that has got its outcome.
abbrev pub Progressed : ActivityItem → ActivityItem → Type 0
Progressed x y =
    (x ≡ y)
    ⊎ ((id name : String) × (before after : Option ℤ × Option String) × (status : ToolStatus) × (x
          ≡ ActivityItem.tool id name ToolStatus.running before.0 before.1)
        × (y ≡ ActivityItem.tool id name status after.0 after.1))

abbrev pub AllProgressed : List ActivityItem → List ActivityItem → Type 0
AllProgressed [] [] = Unit
AllProgressed (x ∷ xs) (y ∷ ys) = Progressed x y × AllProgressed xs ys
AllProgressed [] (y ∷ ys) = ⊥
AllProgressed (x ∷ xs) [] = ⊥

AllProgressed-refl : (xs : List ActivityItem) → AllProgressed xs xs
AllProgressed-refl [] = tt
AllProgressed-refl (x ∷ xs) = (inl refl, AllProgressed-refl xs)

-- The new activity comes last, the newest ones stay, and those that are dropped are counted.
abbrev pub Added : ActivityItem → RunState → RunState → Type 0
Added x s t =
    let grown = s.activity ++ x ∷ [] in
    let excess = length grown - max_activity_items in
    (t.activity ≡ drop excess grown)
    × (t.omitted_activity_count ≡ s.omitted_activity_count + excess)

abbrev Kept : RunState → RunState → Type 0
Kept s t = (t.activity ≡ s.activity) × (t.omitted_activity_count ≡ s.omitted_activity_count)

append_activity-Added : (x : ActivityItem) (s : RunState) → Added x s (append_activity x s)
unfolding append_activity
append_activity-Added x s =
    elim (Bool-cases (ltb 0 (length (s.activity ++ x ∷ []) - max_activity_items))) [
      | inl e ↦ rw e (refl, refl)
      | inr e ↦
          let none_over : length (s.activity ++ x ∷ []) - max_activity_items ≡ 0 =
            ground (arith, e) in
          rw (e, none_over) (refl, omega arith)
    ]

-- What all calls but `tool_finished` do to the activities.
abbrev Appends : ActivityItem → RunState → RunState → Type 0
Appends x s t = Kept s t ⊎ Added x s t

add_commentary-Appends :
    (step : ℕ) (text : String) (s : RunState)
    → Appends
        (ActivityItem.commentary
          (append_text "commentary:" (repr step))
          (take_chars max_commentary_code_points text)
          (ltb max_commentary_code_points (chars text)))
        s
        (add_commentary step text s).1
unfolding add_commentary
add_commentary-Appends step text s = grind (arith, append_activity-Added)

tool_started-Appends :
    (id name : String) (s : RunState)
    → Appends (ActivityItem.tool id name ToolStatus.running none none) s (tool_started id name s).1
unfolding tool_started
tool_started-Appends id name s = grind (arith, append_activity-Added)

enter_stage-Appends :
    (now : ℕ) (stage : RunStage) (t : Option Timestamp) (s : RunState)
    → Appends (ActivityItem.stage "stage:answer" RunStage.answer) s (enter_stage now stage t s).1
unfolding enter_stage finish_execution
enter_stage-Appends now stage t s = grind (arith, append_activity-Added)

abbrev FinishedAs : List ActivityItem → Outcome RunError (List ActivityItem) → Type 0
FinishedAs xs (ok ys) = AllProgressed xs ys
FinishedAs xs (err e) = Unit

push-FinishedAs :
    (x : ActivityItem) (xs : List ActivityItem) (r : Outcome RunError (List ActivityItem))
    → FinishedAs xs r
    → FinishedAs (x ∷ xs) (push x r)
push-FinishedAs x xs (ok ys) h = (inl refl, h)
push-FinishedAs x xs (err e) h = tt

finish_one-FinishedAs :
    (d : Option ℤ) (code : Option String) (i name : String) (status : ToolStatus) (d0 : Option ℤ)
    (e0 : Option String) (xs : List ActivityItem)
    → FinishedAs
        (ActivityItem.tool i name status d0 e0 ∷ xs)
        (replace_head (finish_one d code i name status d0 e0) xs)
finish_one-FinishedAs d code i name ToolStatus.completed d0 e0 xs =
    (inl refl, AllProgressed-refl xs)
finish_one-FinishedAs d code i name ToolStatus.failed d0 e0 xs = (inl refl, AllProgressed-refl xs)
finish_one-FinishedAs d code i name ToolStatus.running d0 e0 xs =
    elim (Outcome-cases (min_lengths i name)) [
      | inr (x, e) ↦ rw e tt
      | inl (u, e) ↦ elim (Outcome-cases (min_length_opt code)) [
        | inr (x, f) ↦ rw (e, f) tt
        | inl (v, f) ↦
            rw (e, f)
              (
                inr (i, name, (d0, e0), (d, code), finished_status code, refl, refl),
                AllProgressed-refl xs,
              )
      ]
    ]

finish_activity-FinishedAs :
    (id : String) (d : Option ℤ) (code : Option String) (xs : List ActivityItem)
    → FinishedAs xs (finish_activity id d code xs)
unfolding finish_activity
finish_activity-FinishedAs id d code [] = tt
finish_activity-FinishedAs id d code (ActivityItem.stage i at ∷ xs) =
    push-FinishedAs (ActivityItem.stage i at) xs _ (finish_activity-FinishedAs id d code xs)
finish_activity-FinishedAs id d code (ActivityItem.commentary i text truncated ∷ xs) =
    push-FinishedAs (ActivityItem.commentary i text truncated) xs _
      (finish_activity-FinishedAs id d code xs)
finish_activity-FinishedAs id d code (ActivityItem.tool i name status d0 e0 ∷ xs) =
    elim (Bool-cases (str_eq i id)) [
      | inl e ↦ rw e (finish_one-FinishedAs d code i name status d0 e0 xs)
      | inr e ↦ rw e (
          push-FinishedAs (ActivityItem.tool i name status d0 e0) xs _
            (finish_activity-FinishedAs id d code xs))
    ]

-- The activities as they were, some of them with their outcome, and no new count.
abbrev pub InPlace : RunState → RunState → Type 0
InPlace s t =
    AllProgressed s.activity t.activity × (t.omitted_activity_count ≡ s.omitted_activity_count)

Kept-InPlace : (s t : RunState) → Kept s t → InPlace s t
Kept-InPlace s t (same, count) =
    (subst (AllProgressed s.activity) (sym same) (AllProgressed-refl s.activity), count)

tool_finished-InPlace :
    (id : String) (d : Option ℤ) (code : Option String) (s : RunState)
    → InPlace s (tool_finished id d code s).1
unfolding tool_finished
tool_finished-InPlace id d code s = elim (Bool-cases (negative_duration d)) [
  | inl n ↦ rw n (AllProgressed-refl s.activity, refl)
  | inr n ↦ elim (Bool-cases (not (is_running s.status))) [
    | inl r ↦ rw (n, r) (AllProgressed-refl s.activity, refl)
    | inr r ↦ elim (Outcome-cases (finish_activity id d code s.activity)) [
      | inl (ys, e) ↦
          let done = finish_activity-FinishedAs id d code s.activity in
          rw (n, r, e) (rw e at done, refl)
      | inr (x, e) ↦ rw (n, r, e) (AllProgressed-refl s.activity, refl)
    ]
  ]
]

Appends-or :
    (x : ActivityItem) (s t : RunState)
    → Appends x s t
    → InPlace s t ⊎ ((y : ActivityItem) × Added y s t)
Appends-or x s t (inl kept) = inl (Kept-InPlace s t kept)
Appends-or x s t (inr added) = inr (x, added)

-- Each call adds at most one activity at the end and drops, with a count, those at the front that are
-- more than a hundred; or it adds none, drops none, and changes no activity but a running tool's,
-- which stays where it is.
pub apply-Activity :
    (now : ℕ) (c : Call) (s : RunState)
    → InPlace s (apply now c s).1 ⊎ ((x : ActivityItem) × Added x s (apply now c s).1)
unfolding apply start_execution start_answer_attempt append_answer_text complete_answer cancel
    fail_execution start_persistence persistence_succeeded persistence_failed
apply-Activity now (comments step text) s =
    Appends-or
      (ActivityItem.commentary (append_text "commentary:" (repr step))
        (take_chars max_commentary_code_points text) (ltb max_commentary_code_points (chars text)))
      s (add_commentary step text s).1 (add_commentary-Appends step text s)
apply-Activity now (enters stage t) s =
    Appends-or (ActivityItem.stage "stage:answer" RunStage.answer) s (enter_stage now stage t s).1
      (enter_stage-Appends now stage t s)
apply-Activity now (tool_starts id name) s =
    Appends-or (ActivityItem.tool id name ToolStatus.running none none) s (tool_started id name s).1
      (tool_started-Appends id name s)
apply-Activity now (tool_finishes id d code) s = inl (tool_finished-InPlace id d code s)
apply-Activity now c s = inl (Kept-InPlace s (apply now c s).1 (ground arith))
