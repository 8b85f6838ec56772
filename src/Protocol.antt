-- ===== src/Protocol.antt =====
-- apps/api/app/vnext/llm/protocol.py: the messages of a transcript, and how tool results are paired
-- with the calls before them.
use dota_mind.Prelude.{ℕ, Bool, true, false, String, Option, none, some, List, [], ◌∷◌, ◌++◌}
use dota_mind.Prelude.Dict.{Dict, lookup, insert}
use dota_mind.Json.{Value, Fields}

pub record ToolCall : Type 0 where
  pub id : String
  pub name : String
  pub arguments : Value

pub record RawToolCall : Type 0 where
  pub index : ℕ
  pub id : String
  pub name : String
  pub provider_name : String
  pub raw_arguments : String

pub data FailureKind : Type 0 where
  invalid_json non_object_json : FailureKind

pub record ToolArgumentFailure : Type 0 where
  pub call_index : ℕ
  pub kind : FailureKind
  pub message : String
  pub position : Option ℕ
  pub line : Option ℕ
  pub column : Option ℕ

pub data RejectionReason : Type 0 where
  invalid_tool_arguments tool_response_truncated : RejectionReason

-- Without the finish reason and the usage, which are only reported.
pub record RejectedToolCallBatch : Type 0 where
  pub reason : RejectionReason
  pub content : Option String
  pub calls : List RawToolCall
  pub argument_failures : List ToolArgumentFailure

pub data ResultStatus : Type 0 where
  ok error : ResultStatus

-- tools/errors.py.
pub record ToolError : Type 0 where
  pub code : String
  pub message : String
  pub details : Fields

pub record ToolResultMessage : Type 0 where
  pub tool_call_id : String
  pub content : Value
  pub status : ResultStatus
  pub error : Option ToolError
  pub executed : Option Bool

pub data Message : Type 0 where
  system user final : String → Message
  assistant : Option String → List ToolCall → Message
  rejected : Option String → List RawToolCall → Message
  tool : ToolResultMessage → Message

abbrev pub is_ok : ResultStatus → Bool
is_ok ResultStatus.ok = true
is_ok ResultStatus.error = false

module _ {ℓ} {A : Type ℓ} where
  abbrev pub queue : Option (List A) → List A
  queue none = []
  queue (some q) = q

  -- `calls.setdefault(id, []).append(a)`.
  unfoldable pub enqueue : String → A → Dict (List A) → Dict (List A)
  enqueue id a calls = insert id (queue (lookup id calls) ++ a ∷ []) calls

  abbrev pub head_of : List A → Option A
  head_of [] = none
  head_of (a ∷ q) = some a

  abbrev pub rest_of : List A → List A
  rest_of [] = []
  rest_of (a ∷ q) = q

  -- `queue.pop(0) if queue else None` for the calls with one id, and the calls that are left.
  unfoldable pub dequeue : String → Dict (List A) → Option A × Dict (List A)
  dequeue id calls = elim (lookup id calls) [
    | none ↦ (none, calls)
    | some q ↦ (head_of q, insert id (rest_of q) calls)
  ]
