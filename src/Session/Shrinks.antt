-- ===== src/Session/Shrinks.antt =====
-- What a compaction leaves of the effective history.
use dota_mind.Prelude.{ℕ, ◌+◌, ◌<◌, ◌≡◌, String, some, List, length, get_elem?, ok}
use dota_mind.Protocol.{Message}
use dota_mind.Compaction.{MessageGroup, group_history}
use dota_mind.Session.Model.{History}
use dota_mind.Session.Commit.{retained_after, index_after}

-- A compaction that is committed: the current user message is kept, behind which only the messages
-- after the cut are left, and these are fewer than before.
pub record Compacts (cut : ℕ) (summary : String) (h h' : History) : Type 0 where
  pub index : ℕ
  pub content : String
  pub before : h.current_user_index ≡ some index
  pub user : get_elem? h.effective_messages index ≡ some (Message.user content)
  pub messages : h'.effective_messages ≡ retained_after index content cut h.effective_messages
  pub after : h'.current_user_index ≡ some (index_after index cut)
  pub kept_user :
      get_elem? h'.effective_messages (index_after index cut) ≡ some (Message.user content)
  pub fewer : length h'.effective_messages < length h.effective_messages
  pub grouped : (gs : List MessageGroup) × (group_history 1 h'.effective_messages ≡ ok gs)
  pub summarized : h'.summary ≡ some summary
  pub revised : h'.revision ≡ h.revision + 1
  pub records : h'.records ≡ h.records
