-- ===== src/Artifacts/Process/Retention.antt =====
-- process and the artifact store: reading back, inline responses, and the byte budget.
use Prim.Native.String.{◌++◌ as append_text}
use Prim.Native.String.append
use dota_mind.Prelude.{
  ℕ, ◌≤◌, ◌≡◌, ◌≢◌, inl, inr, Bool, true, leb, not, ◌&&◌, String, str_eq, eq_iff, eq_refl,
  strip_prefix, Option, none, some, Outcome, ok, ◌>>◌, if◌then◌else◌, arith, Bool-cases,
  Outcome-cases, sym, ◌∙◌,
}
use dota_mind.Prelude.Dict.{lookup, lookup-insert}
use dota_mind.Json.{Value, serialized_size}
use dota_mind.Artifacts.Errors.{ArtifactError}
use dota_mind.Artifacts.Store.{SessionArtifactStore, prefix, is_token, validate_ref, or_not_found}
use dota_mind.Artifacts.Store
use dota_mind.Artifacts.Observation.{build_bounded_observation}
use dota_mind.Artifacts.Observation.Bounds.{build_bounded_observation_bounded}
use dota_mind.Artifacts.Process.{
  ProcessedToolResult, ExternalizedToolResponse, process, externalize, observe,
}

strip_prefix-append : (p t : String) → strip_prefix p (append_text p t) ≡ some t
strip_prefix-append String.[] t = rw append.nil
strip_prefix-append (String.◌∷◌ c p) t = rw append.cons (ground (arith, strip_prefix-append p t))

-- A reference that `put` makes is one that `get` admits.
validate_ref-put :
    (token : String)
    → is_token (some token) ≡ true
    → validate_ref (append_text prefix token) ≡ ok tt
unfolding validate_ref
validate_ref-put token h = rw (strip_prefix-append prefix token, h)

-- Reading after a write: the new document under its reference, and the others as before.
get-put :
    (token ref : String) (document : Value) (source : Option String) (store : SessionArtifactStore)
    → Store.get (Store.put token document source store).1 ref ≡ (
        validate_ref ref
        >> (if str_eq (append_text prefix token) ref
            then ok document
            else or_not_found (lookup ref store.documents)))
unfolding Store.get Store.put
get-put token ref document source store = rw lookup-insert (ground arith)

read_back :
    (token ref : String) (output : Value) (other : Outcome ArtifactError Value)
    → is_token (some token) ≡ true
    → append_text prefix token ≡ ref
    → (validate_ref ref >> (if str_eq (append_text prefix token) ref then ok output else other))
      ≡ ok output
read_back token ref output other v p =
    rw (← p) (rw (validate_ref-put token v, eq_refl (append_text prefix token)))

module _ (inline_max_bytes : ℕ) (token : String) (output : Value) (source : Option String)
    (force : Bool) (store : SessionArtifactStore) where
  externalize_retains :
      {ref : String}
      → is_token (some token) ≡ true
      → (externalize inline_max_bytes token output source force store).0.artifact_ref ≡ some ref
      → Store.get (externalize inline_max_bytes token output source force store).1 ref ≡ ok output
  unfolding externalize Store.put
  externalize_retains {ref} v q =
      elim (Bool-cases (leb (serialized_size output) inline_max_bytes && not force)) [
        | inl e ↦ ground arith
        | inr e ↦ rw e (
            rw (get-put token ref output source store)
              (read_back token ref output _ v (ground arith)))
      ]

observe_ref :
    (max_bytes : ℕ) (output : Value) (d : ExternalizedToolResponse) {r : ProcessedToolResult}
    → observe max_bytes output d ≡ ok r
    → r.artifact_ref ≡ d.artifact_ref
unfolding observe
observe_ref max_bytes output d h = ground arith

observe_bounded :
    (max_bytes : ℕ) (output : Value) (d : ExternalizedToolResponse) (ref : String)
    {r : ProcessedToolResult}
    → observe max_bytes output d ≡ ok r
    → d.artifact_ref ≡ some ref
    → serialized_size r.content ≤ max_bytes
unfolding observe
observe_bounded max_bytes output d ref h q =
    elim (Outcome-cases (build_bounded_observation output ref max_bytes)) [
      | inl (v, e) ↦ ground (arith, build_bounded_observation_bounded output ref max_bytes e)
      | inr (x, e) ↦ ground arith
    ]

-- A response that becomes an artifact can be read back whole under the returned reference.
pub process_retains :
    (inline_max_bytes max_bytes : ℕ) (token : String) (output : Value) (source : Option String)
    (force : Bool) (store : SessionArtifactStore) {r : ProcessedToolResult} {ref : String}
    → is_token (some token) ≡ true
    → (process inline_max_bytes max_bytes token output source force store).0 ≡ ok r
    → r.artifact_ref ≡ some ref
    → Store.get (process inline_max_bytes max_bytes token output source force store).1 ref
      ≡ ok output
unfolding process
process_retains inline_max_bytes max_bytes token output source force store {r} {ref} v h q =
    externalize_retains inline_max_bytes token output source force store v
      (sym (observe_ref max_bytes output _ h) ∙ q)

-- Every document that was stored before is still read back.
pub process_keeps :
    (inline_max_bytes max_bytes : ℕ) (token : String) (output : Value) (source : Option String)
    (force : Bool) (store : SessionArtifactStore) (ref : String)
    → ref ≢ append_text prefix token
    → Store.get (process inline_max_bytes max_bytes token output source force store).1 ref
      ≡ Store.get store ref
unfolding process externalize Store.get Store.put
process_keeps inline_max_bytes max_bytes token output source force store ref h = ground (
  arith,
  lookup-insert (append_text prefix token) ref output store.documents,
  eq_iff (append_text prefix token) ref,
)

-- A response that stays inline is returned as it is, within the inline budget, and stores nothing.
pub process_inline :
    (inline_max_bytes max_bytes : ℕ) (token : String) (output : Value) (source : Option String)
    (force : Bool) (store : SessionArtifactStore) {r : ProcessedToolResult}
    → (process inline_max_bytes max_bytes token output source force store).0 ≡ ok r
    → r.artifact_ref ≡ none
    → (r.content ≡ output)
      × (serialized_size output ≤ inline_max_bytes)
      × ((process inline_max_bytes max_bytes token output source force store).1 ≡ store)
unfolding process externalize observe
process_inline inline_max_bytes max_bytes token output source force store h q = ground arith

-- A response that becomes an artifact is shown within the observation budget.
pub process_bounded :
    (inline_max_bytes max_bytes : ℕ) (token : String) (output : Value) (source : Option String)
    (force : Bool) (store : SessionArtifactStore) {r : ProcessedToolResult} {ref : String}
    → (process inline_max_bytes max_bytes token output source force store).0 ≡ ok r
    → r.artifact_ref ≡ some ref
    → serialized_size r.content ≤ max_bytes
unfolding process externalize observe
process_bounded inline_max_bytes max_bytes token output source force store {r} {ref} h q =
    observe_bounded max_bytes output _ ref h (sym (observe_ref max_bytes output _ h) ∙ q)
