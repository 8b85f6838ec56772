-- ===== src/Session/Laws.antt =====
-- Any history of calls on a session.
use mathlib.Core.List.{append_assoc, append-nil}
use dota_mind.Prelude.{
  ℕ, ◌≡◌, refl, sym, ap, ◌∙◌, inl, inr, String, Option, List, [], ◌∷◌, ◌++◌, arith, Option-cases,
}
use dota_mind.Prelude.Dict.{lookup}
use dota_mind.Json.{Value}
use dota_mind.Protocol.{ToolResultMessage, Message}
use dota_mind.Artifacts.Read.{ReadResult}
use dota_mind.Session.Model.{ExecutionRecord, History}
use dota_mind.Session.Locators.{remember_artifact_locators}
use dota_mind.Session.Requests.{
  fresh, set_effective, record_message, record_tool_results, record_delivery, start_request,
  begin_request,
}
use dota_mind.Session.Commit.{commit_compaction}
use dota_mind.Session.Calls.{
  Call, begins, sets, remembers, commits, records, answers, delivers, apply, run,
}
use dota_mind.Session.Invariant.{
  IsValid, record_message-IsValid, record_tool_results-IsValid, begin_request-IsValid,
  begin_request-known, begin_request-new,
}
use dota_mind.Session.Keeps.{set_effective-IsValid, remember-IsValid}
use dota_mind.Session.Committed.{commit_compaction-IsValid}

-- The records before are the first records after.
abbrev pub Extends : List ExecutionRecord → List ExecutionRecord → Type 0
Extends old new = (more : List ExecutionRecord) × (new ≡ old ++ more)

same_records : {old new : List ExecutionRecord} → new ≡ old → Extends old new
same_records {old} e = ([], e ∙ sym (append-nil old))

module _ (uuid : ℕ → String) (validate_read : Value → Option ReadResult)
    (validate_grep : Value → Option (List String)) where
  apply-IsValid :
      (c : Call) (h : History) → IsValid h → IsValid (apply uuid validate_read validate_grep c h)
  unfolding apply record_delivery
  apply-IsValid (begins id query initial) h v = begin_request-IsValid uuid id query initial h v
  apply-IsValid (sets messages) h v = set_effective-IsValid messages h v
  apply-IsValid (remembers call result) h v =
      remember-IsValid validate_read validate_grep call result h v
  apply-IsValid (commits id base summary cut hex now) h v =
      commit_compaction-IsValid id base summary cut hex now h v
  apply-IsValid (records id message kind context) h v =
      record_message-IsValid uuid id message kind context h v
  apply-IsValid (answers id results) h v = record_tool_results-IsValid uuid id results h v
  apply-IsValid (delivers id content) h v = record_message-IsValid uuid id _ _ _ h v

  run-from :
      (cs : List Call) (h : History)
      → IsValid h
      → IsValid (run uuid validate_read validate_grep cs h)
  unfolding run
  run-from [] h v = v
  run-from (c ∷ cs) h v = run-from cs _ (apply-IsValid c h v)

  -- After any calls on a new session, those that raise included: the records are numbered one by one
  -- up to the sequence number; there is a current user message once the session is initialized, and
  -- it stands at the current index with the query of the current request as its text; each compaction
  -- names the one before it and was made from an earlier revision; and there are at most as many
  -- artifact locators as the capacity allows.
  pub run-IsValid :
      (capacity hint_chars : ℕ) (cs : List Call)
      → IsValid (run uuid validate_read validate_grep cs (fresh capacity hint_chars))
  run-IsValid capacity hint_chars cs = run-from cs _ (record {
    counted = refl;
    numbered = tt;
    current = tt;
    started = refl;
    linked = tt;
    bounded = omega arith;
  })

  record_tool_results-Extends :
      (id : String) (rs : List ToolResultMessage) (h : History)
      → Extends h.records (record_tool_results uuid id rs h).records
  unfolding record_tool_results record_message
  record_tool_results-Extends id [] h = ([], sym (append-nil h.records))
  record_tool_results-Extends id (r ∷ rs) h =
      let (more, e) = record_tool_results-Extends id rs _ in
      (_ ∷ more, e ∙ append_assoc h.records (_ ∷ []) more)

  begin_request-Extends :
      (id query : String) (initial : Option (List Message)) (h : History)
      → Extends h.records (begin_request uuid id query initial h).1.records
  unfolding start_request record_message
  begin_request-Extends id query initial h = elim (Option-cases (lookup id h.request_queries)) [
    | inl e ↦
        (_ ∷ [], ap (λ (k : History). k.records) (begin_request-new uuid id query initial h e))
    | inr (known, e) ↦
        same_records
          (ap (λ (k : History). k.records) (begin_request-known uuid id query initial h e))
  ]

  commit_records :
      (id : String) (base : ℕ) (summary : String) (cut : ℕ) (hex : String) (now : ℕ) (h : History)
      → (commit_compaction id base summary cut hex now h).1.records ≡ h.records
  unfolding commit_compaction
  commit_records id base summary cut hex now h = ground arith

  set_records :
      (messages : List Message) (h : History) → (set_effective messages h).1.records ≡ h.records
  unfolding set_effective
  set_records messages h = ground arith

  remember_records :
      (call : _) (result : ToolResultMessage) (h : History)
      → (remember_artifact_locators validate_read validate_grep call result h).records ≡ h.records
  unfolding remember_artifact_locators
  remember_records call result h = ground arith

  apply-Extends :
      (c : Call) (h : History)
      → Extends h.records (apply uuid validate_read validate_grep c h).records
  unfolding apply record_delivery record_message
  apply-Extends (begins id query initial) h = begin_request-Extends id query initial h
  apply-Extends (sets messages) h = same_records (set_records messages h)
  apply-Extends (remembers call result) h = same_records (remember_records call result h)
  apply-Extends (commits id base summary cut hex now) h =
      same_records (commit_records id base summary cut hex now h)
  apply-Extends (records id message kind context) h = (_ ∷ [], refl)
  apply-Extends (answers id results) h = record_tool_results-Extends id results h
  apply-Extends (delivers id content) h = (_ ∷ [], refl)

  -- The records are append-only: whatever is called, compactions included, those that there are stay
  -- the first ones, unchanged and in order.
  pub run-Extends :
      (cs : List Call) (h : History)
      → Extends h.records (run uuid validate_read validate_grep cs h).records
  unfolding run
  run-Extends [] h = ([], sym (append-nil h.records))
  run-Extends (c ∷ cs) h =
      let (first, e) = apply-Extends c h in
      let (second, f) = run-Extends cs (apply uuid validate_read validate_grep c h) in
      (first ++ second, f ∙ ap (λ rs. rs ++ second) e ∙ append_assoc h.records first second)
