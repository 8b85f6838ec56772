-- ===== src/Session/Keeps.antt =====
-- `set_effective` and `remember_artifact_locators` on valid histories.
use dota_mind.Prelude.{
  ℕ, ◌+◌, ◌≤◌, ◌≡◌, inl, inr, Bool, true, false, not, ◌&&◌, String, Option, none, some, is_some,
  List, [], ◌∷◌, length, length-drop, get_elem?, arith, Bool-cases,
}
use dota_mind.Prelude.Dict.{Dict, insert, length-insert}
use dota_mind.Json.{Value}
use dota_mind.Protocol.{ToolCall, ToolResultMessage, Message}
use dota_mind.Artifacts.Read.{ReadResult}
use dota_mind.Session.Model.{ArtifactLocator, History}
use dota_mind.Session.Locators.{
  remember_one, remember_refs, remember_artifact_locators, artifact_refs, query_hint,
}
use dota_mind.Session.Requests.{query_of, preserves_at, preserves_current_user, set_effective}
use dota_mind.Session.Invariant.{IsValid, CurrentUser, is_query-user, Linked-later}

preserved-current :
    (index : Option ℕ) (id : Option String) (queries : Dict String)
    (effective messages : List Message)
    → CurrentUser index id queries effective
    → preserves_at index (query_of id queries) effective messages ≡ true
    → CurrentUser index id queries messages
preserved-current none id q e m c h = cc
preserved-current (some i) none q e m c h = absurd c
preserved-current (some i) (some id) q e m (query, known, at) h =
    (query, known, is_query-user (get_elem? m i) query (ground arith))

-- Messages that `set_effective` admits have the current user message at its index.
admitted-current :
    (initialized : Bool) (index : Option ℕ) (id : Option String) (queries : Dict String)
    (effective messages : List Message)
    → CurrentUser index id queries effective
    → initialized ≡ is_some id
    → ((initialized && is_some index)
        && not (preserves_at index (query_of id queries) effective messages))
      ≡ false
    → CurrentUser index id queries messages
admitted-current b none none q e m c s h = tt
admitted-current b none (some id) q e m c s h = absurd c
admitted-current b (some i) none q e m c s h = absurd c
admitted-current b (some i) (some id) q e m c s h =
    preserved-current (some i) (some id) q e m c (ground arith)

pub set_effective-IsValid :
    (messages : List Message) (h : History) → IsValid h → IsValid (set_effective messages h).1
unfolding set_effective preserves_current_user
set_effective-IsValid messages h v =
    elim (Bool-cases (
      (h.initialized && is_some h.current_user_index) && not (preserves_current_user h messages))) [
        | inl e ↦ rw e v
        | inr e ↦ rw e (record {
          counted = v.counted;
          numbered = v.numbered;
          current =
              admitted-current h.initialized h.current_user_index h.current_request_id
                h.request_queries h.effective_messages messages v.current v.started e;
          started = v.started;
          linked =
              Linked-later none h.revision (h.revision + 1) h.compaction_records (omega arith)
                v.linked;
          bounded = v.bounded;
        })
      ]

length-remember_one :
    (capacity : ℕ) (locator : ArtifactLocator) (locators : Dict ArtifactLocator)
    → length locators ≤ capacity
    → length (remember_one capacity locator locators) ≤ capacity
unfolding remember_one
length-remember_one capacity locator locators h = ground (
  arith,
  length-insert locator.ref locator locators,
  length-drop 1 (insert locator.ref locator locators),
)

length-remember_refs :
    (capacity : ℕ) (tool hint : String) (refs : List String) (locators : Dict ArtifactLocator)
    → length locators ≤ capacity
    → length (remember_refs capacity tool hint refs locators) ≤ capacity
unfolding remember_refs
length-remember_refs capacity tool hint [] locators h = h
length-remember_refs capacity tool hint (ref ∷ refs) locators h =
    length-remember_refs capacity tool hint refs _ (length-remember_one capacity _ locators h)

pub remember-IsValid :
    (validate_read : Value → Option ReadResult) (validate_grep : Value → Option (List String))
    (call : ToolCall) (result : ToolResultMessage) (h : History)
    → IsValid h
    → IsValid (remember_artifact_locators validate_read validate_grep call result h)
unfolding remember_artifact_locators
remember-IsValid vr vg call result h v = ground (
  arith,
  length-remember_refs h.artifact_locator_capacity call.name
      (query_hint call.arguments h.artifact_locator_hint_chars) (artifact_refs vr vg call result)
      h.artifact_locators,
)
