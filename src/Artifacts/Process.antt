-- ===== src/Artifacts/Process.antt =====
-- externalize.py and processor.py: small responses stay inline, large ones become artifacts. The
-- random token of a new reference is an argument. The in-memory `put` does not fail, so the handler
-- of its exceptions is not modelled.
pub mod Retention
use dota_mind.Prelude.{
  ℕ, leb, not, ◌&&◌, Bool, true, false, String, Option, none, some, Outcome, ok, err, if◌then◌else◌,
}
use dota_mind.Json.{Value, serialized_size}
use dota_mind.Artifacts.Errors.{ArtifactError}
use dota_mind.Artifacts.Store.{SessionArtifactStore}
use dota_mind.Artifacts.Store
use dota_mind.Artifacts.Observation.{envelope, build_bounded_observation}

pub record ExternalizedToolResponse : Type 0 where
  pub artifact_ref : Option String
  pub inline_eligible : Bool

-- `ToolResponseExternalizer.externalize`.
unfoldable pub externalize :
    ℕ
    → String
    → Value
    → Option String
    → Bool
    → SessionArtifactStore
    → ExternalizedToolResponse × SessionArtifactStore
externalize inline_max_bytes token response source_tool force_artifact store =
    let inline_eligible = leb (serialized_size response) inline_max_bytes in
    if inline_eligible && not force_artifact
    then (record { artifact_ref = none; inline_eligible = true }, store)
    else (let (ref, store') = Store.put token response source_tool store in
        (record { artifact_ref = some ref; inline_eligible = inline_eligible }, store'))

pub record ProcessedToolResult : Type 0 where
  pub content : Value
  pub artifact_ref : Option String

abbrev pub with_ref :
    String → Outcome ArtifactError Value → Outcome ArtifactError ProcessedToolResult
with_ref ref (ok content) = ok (record { content = content; artifact_ref = some ref })
with_ref ref (err e) = err e

-- What `process` returns for the decision of the externalizer.
unfoldable pub observe :
    ℕ → Value → ExternalizedToolResponse → Outcome ArtifactError ProcessedToolResult
observe max_bytes output decision = go decision.artifact_ref
  where
    go : Option String → Outcome ArtifactError ProcessedToolResult
    go none = ok (record { content = output; artifact_ref = none })
    go (some ref) =
        if decision.inline_eligible && leb (serialized_size (envelope ref output)) max_bytes
        then ok (record { content = envelope ref output; artifact_ref = some ref })
        else with_ref ref (build_bounded_observation output ref max_bytes)

-- `ArtifactBackedToolResultProcessor.process`. The artifact stays stored where it raises.
unfoldable pub process :
    ℕ
    → ℕ
    → String
    → Value
    → Option String
    → Bool
    → SessionArtifactStore
    → Outcome ArtifactError ProcessedToolResult × SessionArtifactStore
unfolding externalize observe
process inline_max_bytes max_bytes token output source_tool force_artifact store =
    let (decision, store') =
      externalize inline_max_bytes token output source_tool force_artifact store in
    (observe max_bytes output decision, store')
