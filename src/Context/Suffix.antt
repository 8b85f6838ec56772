-- ===== src/Context/Suffix.antt =====
-- Which turns the built context holds, and what a session makes of it.
use mathlib.Core.List.{append-nil}
use dota_mind.Prelude.{
  ℕ, suc, ◌+◌, ◌≤◌, ◌<◌, ◌≡◌, refl, sym, subst, ap, ◌∙◌, ◌⊎◌, inl, inr, leb, ltb, ◌||◌, true, false,
  String, eq_refl, none, some, List, [], ◌∷◌, ◌++◌, length, get_elem?-last, reverse_onto,
  reverse_onto_twice, ok, arith, Bool-cases,
}
use dota_mind.Prelude.Dict.{lookup}
use dota_mind.Protocol.{Message}
use dota_mind.Context.Build.{
  DialogueTurn, ConversationContextBuilder, turn_chars, select_turns, dialogue, build,
}
use dota_mind.Session.{History, begin_request, start_request, record_message, ends_with_query}

abbrev pub total_chars : List DialogueTurn → ℕ
total_chars [] = 0
total_chars (turn ∷ turns) = turn_chars turn + total_chars turns

-- Why no older turn is taken, the older ones from the newest on: there is none, the number of turns
-- is reached, or the newest of them does not fit.
abbrev pub Stopped : ConversationContextBuilder → ℕ → ℕ → List DialogueTurn → Type 0
Stopped b selected history_chars [] = Unit
Stopped b selected history_chars (turn ∷ older) =
    (b.max_turns ≤ selected) ⊎ (b.max_history_chars < history_chars + turn_chars turn)

record Taken (b : ConversationContextBuilder) (n c : ℕ) (turns taken : List DialogueTurn)
    : Type 0 where
  pub older : List DialogueTurn
  pub split : turns ≡ taken ++ older
  pub few : (taken ≡ []) ⊎ (n + length taken ≤ b.max_turns)
  pub short : (taken ≡ []) ⊎ (c + total_chars taken ≤ b.max_history_chars)
  pub stopped : Stopped b (n + length taken) (c + total_chars taken) older

taken_few :
    (n m : ℕ) (xs : List DialogueTurn)
    → (xs ≡ []) ⊎ (n + 1 + length xs ≤ m)
    → n < m
    → n + suc (length xs) ≤ m
taken_few n m xs (inl e) h = omega (arith, ap length e)
taken_few n m xs (inr le) h = omega arith

taken_short :
    (c m : ℕ) (turn : DialogueTurn) (xs : List DialogueTurn)
    → (xs ≡ []) ⊎ (c + turn_chars turn + total_chars xs ≤ m)
    → c + turn_chars turn ≤ m
    → c + (turn_chars turn + total_chars xs) ≤ m
taken_short c m turn xs (inl e) h = omega (arith, ap total_chars e)
taken_short c m turn xs (inr le) h = omega arith

select_turns-Taken :
    (b : ConversationContextBuilder) (n c : ℕ) (turns : List DialogueTurn)
    → Taken b n c turns (select_turns b n c turns)
unfolding select_turns
select_turns-Taken b n c [] = record {
  older = [];
  split = refl;
  few = inl refl;
  short = inl refl;
  stopped = tt;
}
select_turns-Taken b n c (turn ∷ turns) =
    elim (Bool-cases (leb b.max_turns n || ltb b.max_history_chars (c + turn_chars turn))) [
      | inl e ↦ rw e (record {
        older = turn ∷ turns;
        split = refl;
        few = inl refl;
        short = inl refl;
        stopped = ground arith;
      })
      | inr e ↦
          let ih = select_turns-Taken b (n + 1) (c + turn_chars turn) turns in
          let rest = select_turns b (n + 1) (c + turn_chars turn) turns in
          rw e (record {
            older = ih.older;
            split = ap (◌∷◌ turn) ih.split;
            few = inr (taken_few n b.max_turns rest ih.few (ground arith));
            short = inr (taken_short c b.max_history_chars turn rest ih.short (ground arith));
            stopped =
                subst (λ (p : ℕ × ℕ). Stopped b p.0 p.1 ih.older)
                  {x = (n + 1 + length rest, c + turn_chars turn + total_chars rest)}
                  {y = (n + length (turn ∷ rest), c + total_chars (turn ∷ rest))} (ground arith)
                  ih.stopped;
          })
    ]

-- The newest turns, oldest first, and why there are no more of them.
pub record IsLongestSuffix (b : ConversationContextBuilder) (turns kept : List DialogueTurn)
    : Type 0 where
  pub older : List DialogueTurn
  pub split : turns ≡ reverse_onto older kept
  pub few : length kept ≤ b.max_turns
  pub short : total_chars kept ≤ b.max_history_chars
  pub stopped : Stopped b (length kept) (total_chars kept) older

total_chars-reverse :
    (xs ys : List DialogueTurn) → total_chars (reverse_onto xs ys) ≡ total_chars xs + total_chars ys
total_chars-reverse [] ys = omega arith
total_chars-reverse (x ∷ xs) ys = omega (arith, total_chars-reverse xs (x ∷ ys))

length-reverse : (xs ys : List DialogueTurn) → length (reverse_onto xs ys) ≡ length xs + length ys
length-reverse [] ys = omega arith
length-reverse (x ∷ xs) ys = omega (arith, length-reverse xs (x ∷ ys))

reverse_onto-split :
    (xs ys zs : List DialogueTurn)
    → reverse_onto (xs ++ ys) zs ≡ reverse_onto ys (reverse_onto xs zs)
reverse_onto-split [] ys zs = refl
reverse_onto-split (x ∷ xs) ys zs = reverse_onto-split xs ys (x ∷ zs)

few_or_none : (m : ℕ) (xs : List DialogueTurn) → (xs ≡ []) ⊎ (0 + length xs ≤ m) → length xs ≤ m
few_or_none m xs (inl e) = omega (arith, ap length e)
few_or_none m xs (inr le) = omega arith

short_or_none :
    (m : ℕ) (xs : List DialogueTurn) → (xs ≡ []) ⊎ (0 + total_chars xs ≤ m) → total_chars xs ≤ m
short_or_none m xs (inl e) = omega (arith, ap total_chars e)
short_or_none m xs (inr le) = omega arith

-- The built context is the longest run of the newest turns that keeps within both limits, each turn
-- as its user message and its final answer in their order, followed by the query.
pub build-IsLongestSuffix :
    (b : ConversationContextBuilder) (turns : List DialogueTurn) (query : String)
    → (kept : List DialogueTurn) × IsLongestSuffix b turns kept
      × (build b turns query ≡ dialogue kept ++ Message.user query ∷ [])
unfolding build
build-IsLongestSuffix b turns query =
    let taken = select_turns b 0 0 (reverse_onto turns []) in
    let t = select_turns-Taken b 0 0 (reverse_onto turns []) in
    let kept = reverse_onto taken [] in
    let whole : turns ≡ reverse_onto t.older kept =
      sym (append-nil turns)
      ∙ sym (reverse_onto_twice turns [] [])
      ∙ ap (λ xs. reverse_onto xs []) t.split
      ∙ reverse_onto-split taken t.older [] in
    let size : length kept ≡ length taken = omega (arith, length-reverse taken []) in
    let text : total_chars kept ≡ total_chars taken = omega (arith, total_chars-reverse taken []) in
    (
      kept,
      record {
        older = t.older;
        split = whole;
        few = omega (arith, size, few_or_none b.max_turns taken t.few);
        short = omega (arith, text, short_or_none b.max_history_chars taken t.short);
        stopped =
            subst (λ (p : ℕ × ℕ). Stopped b p.0 p.1 t.older)
              {x = (0 + length taken, 0 + total_chars taken)} {y = (length kept, total_chars kept)}
              (ground (arith, size, text)) t.stopped;
      },
      refl,
    )

ends_with_query-append :
    (messages : List Message) (query : String)
    → ends_with_query (messages ++ Message.user query ∷ []) query ≡ true
ends_with_query-append messages query =
    rw (get_elem?-last messages (Message.user query)) (eq_refl query)

-- A session that is not initialized takes a built context as it is: the query at its end is the
-- current user message, and is not appended again.
pub begin_request-build :
    (uuid : ℕ → String) (id query : String) (b : ConversationContextBuilder)
    (turns : List DialogueTurn) (h : History)
    → h.initialized ≡ false
    → lookup id h.request_queries ≡ none
    → (begin_request uuid id query (some (build b turns query)) h).0 ≡ ok (build b turns query)
unfolding begin_request start_request record_message build
begin_request-build uuid id query b turns h fresh_session fresh_id = ground (
  arith,
  ends_with_query-append (dialogue (reverse_onto (select_turns b 0 0 (reverse_onto turns [])) []))
      query,
)
