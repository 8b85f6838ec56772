-- ===== src/Lifecycle/Rewrite.antt =====
-- `ArtifactObservationTranscriptRewriter.rewrite` and agent/transcript_rewrite.py.
use dota_mind.Prelude.{
  ℕ, suc, ◌-◌, ◌==◌, leb, ltb, ◌||◌, Bool, true, false, String, Option, none, some, List, [], ◌∷◌,
  map, get_elem?, if◌then◌else◌,
}
use dota_mind.Prelude.Int.{ℤ, pos, negsuc}
use dota_mind.Json.{Value, Fields, bool, num, str, obj, end, field, str_or_null}
use dota_mind.Protocol.{ToolResultMessage, Message}
use dota_mind.Artifacts.Read.{ReadResult}
use dota_mind.Compaction.{message_bytes}
use dota_mind.Lifecycle.Observe.{
  ObservationKind, ArtifactObservation, collect_active_artifact_observations,
}
use dota_mind.Lifecycle.Cover.{Reason, replacement_reason}

-- `set_request_scope`: the start of the request.
abbrev pub start_scope : ℤ → ℕ
start_scope (pos n) = n
start_scope (negsuc n) = 0

pub record TranscriptRewriteEvent : Type 0 where
  pub kind : String
  pub tool_call_id : String
  pub reason : Reason
  pub metadata : Fields

pub record TranscriptRewriteResult : Type 0 where
  pub messages : List Message
  pub events : List TranscriptRewriteEvent

-- An observation that is replaced, and why.
pub record Replacement : Type 0 where
  pub observation : ArtifactObservation
  pub reason : Reason

abbrev pub reason_text : Reason → String
reason_text Reason.duplicate = "duplicate"
reason_text Reason.superseded = "superseded"

abbrev pub optional_num : String → Option ℕ → Fields
optional_num key none = end
optional_num key (some n) = field key (num (pos n)) end

abbrev pub window_of : Option ℕ → Option ℕ → Fields
window_of none limit = optional_num "limit" limit
window_of (some n) limit = field "offset" (num (pos n)) (optional_num "limit" limit)

abbrev pub place_of : ObservationKind → ArtifactObservation → Fields
place_of ObservationKind.outline o = end
place_of _ o = field "path" (str_or_null o.path) (window_of o.offset o.requested_limit)

-- `_receipt_source`.
abbrev pub receipt_source : ArtifactObservation → Fields
receipt_source o = field "ref" (str o.ref) (place_of o.kind o)

abbrev pub mode_of : ObservationKind → String
mode_of ObservationKind.outline = "outline"
mode_of _ = "read"

-- `_receipt`.
abbrev pub receipt : ArtifactObservation → Reason → Value
receipt o reason = obj (
    field "_artifact_observation"
      (obj (
        field "state" (str "receipt_only") (
          field "reason" (str (reason_text reason)) (
            field "re_readable" (bool true)
              (field "mode" (str (mode_of o.kind)) (receipt_source o))))))
      end)

abbrev pub with_receipt : Replacement → ToolResultMessage → ToolResultMessage
with_receipt r message = record message { content = receipt r.observation r.reason }

abbrev pub sizes : ℕ → ℕ → ℕ → Fields
sizes index raw_bytes receipt_bytes = field "message_index" (num (pos index)) (
    field "raw_bytes" (num (pos raw_bytes)) (
      field "receipt_bytes" (num (pos receipt_bytes))
        (field "saved_bytes" (num (pos (raw_bytes - receipt_bytes))) end)))

-- `_rewrite_sizes`.
unfoldable pub rewrite_sizes : Option Message → Replacement → Fields
rewrite_sizes (some (Message.tool message)) r =
    sizes r.observation.message_index (message_bytes (Message.tool message))
      (message_bytes (Message.tool (with_receipt r message)))
rewrite_sizes _ r = sizes r.observation.message_index 0 0

unfoldable pub event_of : List Message → Replacement → TranscriptRewriteEvent
event_of original r = record {
  kind = "artifact_observation";
  tool_call_id = r.observation.tool_call_id;
  reason = r.reason;
  metadata =
      field "source" (obj (receipt_source r.observation))
        (rewrite_sizes (get_elem? original r.observation.message_index) r);
}

abbrev pub is_replaced : ℕ → List ℕ → Bool
is_replaced index [] = false
is_replaced index (n ∷ ns) = (n == index) || is_replaced index ns

-- The inner loop: the first later observation that is not replaced and makes `old` redundant.
unfoldable pub find_reason : List ℕ → ArtifactObservation → List ArtifactObservation → Option Reason
find_reason replaced old [] = none
find_reason replaced old (new ∷ rest) =
    let later = find_reason replaced old rest in
    if leb new.message_index old.message_index || is_replaced new.message_index replaced
    then later
    else or_later (replacement_reason old new) later
  where
    or_later : Option Reason → Option Reason → Option Reason
    or_later none later = later
    or_later (some reason) later = some reason

-- The outer loop from one observation on, with the indices that are replaced so far.
unfoldable pub replacements :
    ℕ → List ArtifactObservation → List ℕ → List ArtifactObservation → List Replacement
unfolding find_reason
replacements start all replaced [] = []
replacements start all replaced (old ∷ rest) =
    let kept = replacements start all replaced rest in
    let dropped = replacements start all (old.message_index ∷ replaced) rest in
    if ltb old.message_index start then kept else go (find_reason replaced old all) kept dropped
  where
    go : Option Reason → List Replacement → List Replacement → List Replacement
    go none kept dropped = kept
    go (some reason) kept dropped = record { observation = old; reason = reason } ∷ dropped

-- `replaced.get(index)`, with the observation of that index.
abbrev pub replacement_at : ℕ → List Replacement → Option Replacement
replacement_at index [] = none
replacement_at index (r ∷ rs) =
    if r.observation.message_index == index then some r else replacement_at index rs

abbrev pub rewrite_message : Message → Option Replacement → Message
rewrite_message (Message.tool message) (some r) = Message.tool (with_receipt r message)
rewrite_message message _ = message

-- The loop that builds the new transcript, from one index on.
unfoldable pub rewrite_from : List Replacement → ℕ → List Message → List Message
rewrite_from rs index [] = []
rewrite_from rs index (message ∷ messages) =
    rewrite_message message (replacement_at index rs) ∷ rewrite_from rs (suc index) messages

module _ (validate : Value → Option ReadResult) where
  abbrev pub replacements_of : ℕ → List Message → List Replacement
  replacements_of start messages =
      let observations = collect_active_artifact_observations validate messages in
      replacements start observations [] observations

  -- `rewrite` in the request that starts at `start`.
  unfoldable pub rewrite : ℕ → List Message → TranscriptRewriteResult
  rewrite start messages =
      let rs = replacements_of start messages in
      record { messages = rewrite_from rs 0 messages; events = map (event_of messages) rs }
