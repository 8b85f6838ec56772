-- ===== src/Context/Tests.antt =====
-- The theorems on built contexts at concrete turns.
use dota_mind.Prelude.{◌≡◌, refl, String, List, [], ◌∷◌, ◌++◌, ok}
use dota_mind.Protocol.{Message}
use dota_mind.Context.Build.{
  DialogueTurn, ConversationContextBuilder, builder, select_turns, dialogue, build,
}
use dota_mind.Context.Suffix.{IsLongestSuffix, build-IsLongestSuffix}

abbrev turn : String → DialogueTurn
turn text = record { user_message = text; assistant_message = "answer" }

-- The first turn is too long for the limit of characters.
abbrev turns : List DialogueTurn
turns = turn "a long question" ∷ turn "b" ∷ turn "c" ∷ []

abbrev limits : ConversationContextBuilder
limits = record { max_turns = 3; max_history_chars = 20 }

limits_built : builder 3 20 ≡ ok limits
unfolding builder
limits_built = refl

last_two :
    build limits turns "query"
    ≡ Message.user "b"
      ∷ Message.final "answer"
      ∷ Message.user "c"
      ∷ Message.final "answer"
      ∷ Message.user "query"
      ∷ []
unfolding build select_turns
last_two = refl

build-IsLongestSuffix_example :
    (kept : List DialogueTurn) × IsLongestSuffix limits turns kept
    × (build limits turns "query" ≡ dialogue kept ++ Message.user "query" ∷ [])
build-IsLongestSuffix_example = build-IsLongestSuffix limits turns "query"
