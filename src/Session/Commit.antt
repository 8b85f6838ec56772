-- ===== src/Session/Commit.antt =====
-- `commit_compaction`. The hexadecimal digits of the new id and the clock's reading are arguments; a
-- cut index is not negative.
use Prim.Native.String.{◌++◌ as append_text}
use dota_mind.Prelude.{
  ℕ, ◌+◌, ◌-◌, ◌==◌, ltb, not, String, is_blank, Option, none, some, is_some, List, [], ◌∷◌, ◌++◌,
  length, drop, get_elem?, Outcome, ok, err, raise_if, ◌>>=◌, ◌>>◌, if◌then◌else◌,
}
use dota_mind.Prelude.Int.{pos}
use dota_mind.Prelude.Dict.{lookup}
use dota_mind.Prelude.Method.{Method}
use dota_mind.Protocol.{Message}
use dota_mind.Compaction.{HistoryError, validate_compaction_cut}
use dota_mind.Session.Model.{
  SessionError, session_not_initialized, unknown_request, inactive_request, stale_context_revision,
  empty_summary, invalid_effective_history, empty_compaction_history, range_error,
  SessionCompactionRecord, History,
}
use dota_mind.Session.Requests.{is_current, preserves_current_user}

abbrev pub user_in : ℕ → Option Message → Outcome SessionError (ℕ × String)
user_in index (some (Message.user content)) = ok (index, content)
user_in index _ = err invalid_effective_history

-- The index and the text of the current user message.
abbrev pub user_at : Option ℕ → List Message → Outcome SessionError (ℕ × String)
user_at none messages = err invalid_effective_history
user_at (some index) messages = user_in index (get_elem? messages index)

-- `_validated_current_user`.
unfoldable pub validated_current_user : History → Outcome SessionError (ℕ × String)
unfolding preserves_current_user
validated_current_user h =
    if not (preserves_current_user h h.effective_messages)
    then err invalid_effective_history
    else user_at h.current_user_index h.effective_messages

abbrev pub in_session : Outcome HistoryError (Unit {0}) → Outcome SessionError (Unit {0})
in_session (ok _) = ok tt
in_session (err e) = err (range_error e)

-- The checks of `commit_compaction`, and the index and the text of the current user message.
unfoldable pub check_commit : String → ℕ → String → ℕ → History → Outcome SessionError (ℕ × String)
check_commit request_id base_revision summary cut h = do
  raise_if (not h.initialized) session_not_initialized
  raise_if (not (is_some (lookup request_id h.request_queries))) unknown_request
  raise_if (not (is_current h.current_request_id request_id)) inactive_request
  raise_if (not (base_revision == h.revision)) stale_context_revision
  raise_if (is_blank summary) empty_summary
  (index, content) ← validated_current_user h
  in_session (validate_compaction_cut h.effective_messages (pos cut))
  raise_if (ltb (cut - (if ltb index cut then 1 else 0)) 1) empty_compaction_history
  ok (index, content)

-- The messages that stay: those after the cut, behind the current user message where that is cut.
abbrev pub retained_after : ℕ → String → ℕ → List Message → List Message
retained_after index content cut messages =
    if ltb index cut then Message.user content ∷ drop cut messages else drop cut messages

abbrev pub index_after : ℕ → ℕ → ℕ
index_after index cut = if ltb index cut then 0 else index - cut

-- `compaction_records[-1].compaction_id`, if there is one.
abbrev pub last_id : List SessionCompactionRecord → Option String
last_id [] = none
last_id (r ∷ []) = some r.compaction_id
last_id (r ∷ s ∷ rs) = last_id (s ∷ rs)

abbrev pub compaction_record :
    String → ℕ → String → ℕ → String → ℕ → ℕ → History → SessionCompactionRecord
compaction_record request_id base_revision summary cut hex now index h = record {
  compaction_id = append_text "compaction:" hex;
  request_id = request_id;
  base_revision = base_revision;
  cut_index = cut;
  source_message_count = length h.effective_messages;
  current_user_index_before = index;
  previous_compaction_id = last_id h.compaction_records;
  summary = summary;
  created_at = now;
}

-- What `commit_compaction` writes.
abbrev pub committed : SessionCompactionRecord → ℕ → String → History → History
committed r index content h = record h {
  summary = some r.summary;
  effective_messages = retained_after index content r.cut_index h.effective_messages;
  current_user_index = some (index_after index r.cut_index);
  revision = h.revision + 1;
  compaction_records = h.compaction_records ++ r ∷ [];
}

unfoldable pub commit_compaction :
    String → ℕ → String → ℕ → String → ℕ → Method SessionError History SessionCompactionRecord
commit_compaction request_id base_revision summary cut hex now h =
    elim (check_commit request_id base_revision summary cut h) [
      | err e ↦ (err e, h)
      | ok (index, content) ↦
          let r = compaction_record request_id base_revision summary cut hex now index h in
          (ok r, committed r index content h)
    ]
