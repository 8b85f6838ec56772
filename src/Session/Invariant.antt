-- ===== src/Session/Invariant.antt =====
-- Which histories a session can reach.
use dota_mind.Prelude.{
  ℕ, zero, suc, ◌+◌, ◌-◌, ◌≤◌, ◌<◌, ◌≡◌, refl, sym, subst, inl, inr, Bool, true, false, String,
  eq_iff, eq_refl, Option, none, some, is_some, List, [], ◌∷◌, ◌++◌, length, length-append, drop,
  get_elem?, get_elem?-last, arith, Bool-cases, Option-cases,
}
use dota_mind.Prelude.Dict.{Dict, lookup, lookup-insert}
use dota_mind.Json.{Value}
use dota_mind.Protocol.{ToolResultMessage, Message}
use dota_mind.Session.Model.{ExecutionRecord, SessionCompactionRecord, History, RecordKind}
use dota_mind.Session.Requests.{
  is_query, begun_messages, ends_with_query, or_empty, record_message, record_tool_results,
  start_request, begin_request, new_record,
}
use dota_mind.Session.Commit.{last_id}

-- The records from the number `n + 1` on are numbered one by one.
abbrev pub Numbered : ℕ → List ExecutionRecord → Type 0
Numbered n [] = Unit
Numbered n (r ∷ rs) = (r.sequence ≡ suc n) × Numbered (suc n) rs

-- Each compaction names the one before it, and was made from an earlier revision.
abbrev pub Linked : Option String → ℕ → List SessionCompactionRecord → Type 0
Linked previous revision [] = Unit
Linked previous revision (r ∷ rs) =
    (r.previous_compaction_id ≡ previous)
    × (r.base_revision < revision)
    × Linked (some r.compaction_id) revision rs

-- The current user message stands at its index, with the query of the current request as its text;
-- there is neither before the first request.
abbrev pub CurrentUser : Option ℕ → Option String → Dict String → List Message → Type 0
CurrentUser none none queries messages = Unit
CurrentUser (some index) (some id) queries messages =
    (query : String) × (lookup id queries ≡ some query)
    × (get_elem? messages index ≡ some (Message.user query))
CurrentUser none (some id) queries messages = ⊥
CurrentUser (some index) none queries messages = ⊥

pub record IsValid (h : History) : Type 0 where
  pub counted : length h.records ≡ h.sequence
  pub numbered : Numbered 0 h.records
  pub current :
      CurrentUser h.current_user_index h.current_request_id h.request_queries h.effective_messages
  pub started : h.initialized ≡ is_some h.current_request_id
  pub linked : Linked none h.revision h.compaction_records
  pub bounded : length h.artifact_locators ≤ h.artifact_locator_capacity

Numbered-append :
    (n : ℕ) (rs : List ExecutionRecord) (r : ExecutionRecord)
    → Numbered n rs
    → r.sequence ≡ n + length rs + 1
    → Numbered n (rs ++ r ∷ [])
Numbered-append n [] r h e = (omega arith, tt)
Numbered-append n (x ∷ rs) r h e = (h.0, Numbered-append (suc n) rs r h.1 (omega arith))

pub Linked-later :
    (previous : Option String) (n k : ℕ) (rs : List SessionCompactionRecord)
    → n ≤ k
    → Linked previous n rs
    → Linked previous k rs
Linked-later previous n k [] le h = tt
Linked-later previous n k (r ∷ rs) le h =
    (h.0, omega (arith, h.1), Linked-later (some r.compaction_id) n k rs le h.2)

abbrev pub or_previous : Option String → List SessionCompactionRecord → Option String
or_previous previous [] = previous
or_previous previous (r ∷ rs) = last_id (r ∷ rs)

pub Linked-append :
    (previous : Option String) (n : ℕ) (rs : List SessionCompactionRecord)
    (r : SessionCompactionRecord)
    → Linked previous n rs
    → r.previous_compaction_id ≡ or_previous previous rs
    → r.base_revision < n
    → Linked previous n (rs ++ r ∷ [])
Linked-append previous n [] r h e lt = (e, lt, tt)
Linked-append previous n (x ∷ []) r h e lt = (h.0, h.1, (e, lt, tt))
Linked-append previous n (x ∷ y ∷ rs) r h e lt =
    (h.0, h.1, Linked-append (some x.compaction_id) n (y ∷ rs) r h.2 e lt)

pub get_elem?-drop {ℓ} :
    {A : Type ℓ} (n j i : ℕ) (xs : List A) → j + n ≡ i → get_elem? (drop n xs) j ≡ get_elem? xs i
get_elem?-drop zero j i xs h = let e : j ≡ i = omega arith in rw e
get_elem?-drop (suc n) j zero xs h = absurd (omega arith)
get_elem?-drop (suc n) j (suc i) [] h = refl
get_elem?-drop (suc n) j (suc i) (x ∷ xs) h = get_elem?-drop n j i xs (omega arith)

pub is_query-user :
    (o : Option Message) (query : String)
    → is_query o (some query) ≡ true
    → o ≡ some (Message.user query)
is_query-user none query h = cc
is_query-user (some (Message.user c)) query h = ground (arith, eq_iff c query)
is_query-user (some (Message.final c)) query h = cc
is_query-user (some (Message.system c)) query h = cc
is_query-user (some (Message.tool r)) query h = cc
is_query-user (some (Message.assistant c b)) query h = cc
is_query-user (some (Message.rejected c b)) query h = cc

begun_messages-last :
    (initialized : Bool) (initial : Option (List Message)) (effective : List Message)
    (query : String)
    → get_elem?
        (begun_messages initialized initial effective query)
        (length (begun_messages initialized initial effective query) - 1)
      ≡ some (Message.user query)
begun_messages-last true initial effective query = get_elem?-last effective (Message.user query)
begun_messages-last false initial effective query =
    elim (Bool-cases (ends_with_query (or_empty initial) query)) [
      | inl e ↦
          rw e
            (is_query-user (get_elem? (or_empty initial) (length (or_empty initial) - 1)) query e)
      | inr e ↦ rw e (get_elem?-last (or_empty initial) (Message.user query))
    ]

pub record_message-IsValid :
    (uuid : ℕ → String) (id : String) (message : Message) (kind : RecordKind) (context : Value)
    (h : History)
    → IsValid h
    → IsValid (record_message uuid id message kind context h)
unfolding record_message
record_message-IsValid uuid id message kind context h v = record {
  counted = omega (
    arith,
    v.counted,
    length-append h.records (new_record uuid id message kind context (h.sequence + 1) ∷ []),
  );
  numbered = Numbered-append 0 h.records _ v.numbered (omega (arith, v.counted));
  current = v.current;
  started = v.started;
  linked = v.linked;
  bounded = v.bounded;
}

pub record_tool_results-IsValid :
    (uuid : ℕ → String) (id : String) (results : List ToolResultMessage) (h : History)
    → IsValid h
    → IsValid (record_tool_results uuid id results h)
unfolding record_tool_results
record_tool_results-IsValid uuid id [] h v = v
record_tool_results-IsValid uuid id (r ∷ rs) h v =
    record_tool_results-IsValid uuid id rs _ (record_message-IsValid uuid id _ _ _ h v)

start_request-IsValid :
    (uuid : ℕ → String) (id query : String) (initial : Option (List Message)) (h : History)
    → IsValid h
    → IsValid (start_request uuid id query initial h)
unfolding start_request
start_request-IsValid uuid id query initial h v = record_message-IsValid uuid id _ _ _ _ (record {
  counted = v.counted;
  numbered = v.numbered;
  current = (
    query,
    ground (arith, lookup-insert id id query h.request_queries, eq_refl id),
    begun_messages-last h.initialized initial h.effective_messages query,
  );
  started = refl;
  linked =
      Linked-later none h.revision (h.revision + 1) h.compaction_records (omega arith) v.linked;
  bounded = v.bounded;
})

-- A request that is known changes nothing, whether it is admitted or refused.
pub begin_request-known :
    (uuid : ℕ → String) (id query : String) (initial : Option (List Message)) (h : History)
    {known : String}
    → lookup id h.request_queries ≡ some known
    → (begin_request uuid id query initial h).1 ≡ h
unfolding begin_request
begin_request-known uuid id query initial h e = ground arith

pub begin_request-new :
    (uuid : ℕ → String) (id query : String) (initial : Option (List Message)) (h : History)
    → lookup id h.request_queries ≡ none
    → (begin_request uuid id query initial h).1 ≡ start_request uuid id query initial h
unfolding begin_request
begin_request-new uuid id query initial h e = ground arith

pub begin_request-IsValid :
    (uuid : ℕ → String) (id query : String) (initial : Option (List Message)) (h : History)
    → IsValid h
    → IsValid (begin_request uuid id query initial h).1
begin_request-IsValid uuid id query initial h v =
    elim (Option-cases (lookup id h.request_queries)) [
      | inl e ↦
          subst IsValid (sym (begin_request-new uuid id query initial h e))
            (start_request-IsValid uuid id query initial h v)
      | inr (known, e) ↦ subst IsValid (sym (begin_request-known uuid id query initial h e)) v
    ]
