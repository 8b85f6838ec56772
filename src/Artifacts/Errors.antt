-- ===== src/Artifacts/Errors.antt =====
-- The exceptions of the artifact modules.
pub data ArtifactError : Type 0 where
  artifact_not_found invalid_ref path_not_found read_validation response_artifact bad_budget :
      ArtifactError
