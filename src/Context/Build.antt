-- ===== src/Context/Build.antt =====
-- `ConversationContextBuilder`. Of a dialogue turn only its two texts are read.
use dota_mind.Prelude.{
  ℕ, ◌+◌, leb, ltb, ◌||◌, String, chars, List, [], ◌∷◌, ◌++◌, reverse_onto, Outcome, ok, raise_if,
  ◌>>◌, if◌then◌else◌,
}
use dota_mind.Protocol.{Message}

pub record DialogueTurn : Type 0 where
  pub user_message : String
  pub assistant_message : String

pub record ConversationContextBuilder : Type 0 where
  pub max_turns : ℕ
  pub max_history_chars : ℕ

-- The `ValueError` of `__init__`.
pub data ContextError : Type 0 where
  limit_below_one : ContextError

unfoldable pub builder : ℕ → ℕ → Outcome ContextError ConversationContextBuilder
builder max_turns max_history_chars = do
  raise_if (ltb max_turns 1) limit_below_one
  raise_if (ltb max_history_chars 1) limit_below_one
  ok (record { max_turns = max_turns; max_history_chars = max_history_chars })

abbrev pub turn_chars : DialogueTurn → ℕ
turn_chars turn = chars turn.user_message + chars turn.assistant_message

-- The loop over the turns from the newest on, with the number and the characters of those selected.
unfoldable pub select_turns :
    ConversationContextBuilder → ℕ → ℕ → List DialogueTurn → List DialogueTurn
select_turns b selected history_chars [] = []
select_turns b selected history_chars (turn ∷ turns) =
    let rest = select_turns b (selected + 1) (history_chars + turn_chars turn) turns in
    if leb b.max_turns selected || ltb b.max_history_chars (history_chars + turn_chars turn)
    then []
    else turn ∷ rest

abbrev pub dialogue : List DialogueTurn → List Message
dialogue [] = []
dialogue (turn ∷ turns) =
    Message.user turn.user_message ∷ Message.final turn.assistant_message ∷ dialogue turns

unfoldable pub build : ConversationContextBuilder → List DialogueTurn → String → List Message
build b turns query =
    dialogue (reverse_onto (select_turns b 0 0 (reverse_onto turns [])) [])
    ++ Message.user query ∷ []
