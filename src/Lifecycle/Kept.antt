-- ===== src/Lifecycle/Kept.antt =====
-- Which observations are left in a rewritten transcript.
use dota_mind.Prelude.{
  ℕ, suc, ◌≡◌, refl, inl, inr, Bool, Option, none, some, is_some, Option-cases, List, [], ◌∷◌,
  if◌then◌else◌, arith, String,
}
use dota_mind.Prelude.Dict.{Dict}
use dota_mind.Json.{Value}
use dota_mind.Protocol.{ToolResultMessage, Message, dequeue}
use dota_mind.Artifacts.Read.{ReadResult}
use dota_mind.Lifecycle.Observe.{
  ArtifactObservation, artifact_read_calls, is_read, observed, observation, cons_some,
  observations_from, collect_active_artifact_observations,
}
use dota_mind.Lifecycle.Rewrite.{
  Replacement, with_receipt, replacement_at, rewrite_from, replacements_of, rewrite,
}

-- The observations that are not replaced.
abbrev pub unreplaced : List Replacement → List ArtifactObservation → List ArtifactObservation
unreplaced rs [] = []
unreplaced rs (o ∷ os) =
    let rest = unreplaced rs os in
    if is_some (replacement_at o.message_index rs) then rest else o ∷ rest

-- Only tool results are rewritten, so the calls are the same.
artifact_read_calls-rewrite :
    (rs : List Replacement) (index : ℕ) (messages : List Message) (calls : Dict (List Bool))
    → artifact_read_calls (rewrite_from rs index messages) calls
      ≡ artifact_read_calls messages calls
unfolding rewrite_from artifact_read_calls
artifact_read_calls-rewrite rs index [] calls = refl
artifact_read_calls-rewrite rs index (Message.tool m ∷ ms) calls =
    elim (Option-cases (replacement_at index rs)) [
      | inl e ↦ rw e (artifact_read_calls-rewrite rs (suc index) ms calls)
      | inr (r, e) ↦ rw e (artifact_read_calls-rewrite rs (suc index) ms calls)
    ]
artifact_read_calls-rewrite rs index (Message.system c ∷ ms) calls =
    artifact_read_calls-rewrite rs (suc index) ms calls
artifact_read_calls-rewrite rs index (Message.user c ∷ ms) calls =
    artifact_read_calls-rewrite rs (suc index) ms calls
artifact_read_calls-rewrite rs index (Message.final c ∷ ms) calls =
    artifact_read_calls-rewrite rs (suc index) ms calls
artifact_read_calls-rewrite rs index (Message.assistant c b ∷ ms) calls =
    artifact_read_calls-rewrite rs (suc index) ms _
artifact_read_calls-rewrite rs index (Message.rejected c b ∷ ms) calls =
    artifact_read_calls-rewrite rs (suc index) ms _

observation-index :
    (id : String) (index : ℕ) (r : ReadResult) → (observation id index r).message_index ≡ index
observation-index id index r = ground arith

module _ (validate : Value → Option ReadResult) where
  -- A receipt is no observation.
  observed-receipt :
      (index : ℕ) (m : ToolResultMessage) (r : Replacement) (read : Bool)
      → observed validate index (with_receipt r m) read ≡ none
  observed-receipt index m r read = ground arith

  -- An observation has the index of its message.
  pub observed-index :
      (index : ℕ) (m : ToolResultMessage) (read : Bool) {o : ArtifactObservation}
      → observed validate index m read ≡ some o
      → o.message_index ≡ index
  observed-index index m read {o} h = elim (Option-cases (validate m.content)) [
    | inl e ↦ ground arith
    | inr (r, e) ↦ let at = observation-index m.tool_call_id index r in ground arith
  ]

  cons_some-kept :
      (rs : List Replacement) (index : ℕ) (m : ToolResultMessage) (read : Bool)
      (rest : List ArtifactObservation)
      → replacement_at index rs ≡ none
      → cons_some validate (observed validate index m read) (unreplaced rs rest)
        ≡ unreplaced rs (cons_some validate (observed validate index m read) rest)
  cons_some-kept rs index m read rest e = elim (Option-cases (observed validate index m read)) [
    | inl f ↦ rw f
    | inr (o, f) ↦ let at = observed-index index m read f in ground arith
  ]

  cons_some-replaced :
      (rs : List Replacement) (index : ℕ) (m : ToolResultMessage) (read : Bool)
      (rest : List ArtifactObservation) {r : Replacement}
      → replacement_at index rs ≡ some r
      → unreplaced rs rest
        ≡ unreplaced rs (cons_some validate (observed validate index m read) rest)
  cons_some-replaced rs index m read rest e = elim (Option-cases (observed validate index m read)) [
    | inl f ↦ rw f
    | inr (o, f) ↦ let at = observed-index index m read f in ground arith
  ]

  observations_from-rewrite :
      (rs : List Replacement) (index : ℕ) (messages : List Message) (calls : Dict (List Bool))
      → observations_from validate index (rewrite_from rs index messages) calls
        ≡ unreplaced rs (observations_from validate index messages calls)
  unfolding observations_from rewrite_from
  observations_from-rewrite rs index [] calls = refl
  observations_from-rewrite rs index (Message.tool m ∷ ms) calls =
      let read = is_read (dequeue m.tool_call_id calls).0 in
      let left = (dequeue m.tool_call_id calls).1 in
      let ih = observations_from-rewrite rs (suc index) ms left in
      let rest = observations_from validate (suc index) ms left in
      elim (Option-cases (replacement_at index rs)) [
        | inl e ↦ rw (e, ih) (cons_some-kept rs index m read rest e)
        | inr (r, e) ↦
            rw (e, observed-receipt index m r read, ih) (cons_some-replaced rs index m read rest e)
      ]
  observations_from-rewrite rs index (Message.system c ∷ ms) calls =
      observations_from-rewrite rs (suc index) ms calls
  observations_from-rewrite rs index (Message.user c ∷ ms) calls =
      observations_from-rewrite rs (suc index) ms calls
  observations_from-rewrite rs index (Message.final c ∷ ms) calls =
      observations_from-rewrite rs (suc index) ms calls
  observations_from-rewrite rs index (Message.assistant c b ∷ ms) calls =
      observations_from-rewrite rs (suc index) ms calls
  observations_from-rewrite rs index (Message.rejected c b ∷ ms) calls =
      observations_from-rewrite rs (suc index) ms calls

  -- The observations of a rewritten transcript are those of the transcript that are not replaced.
  pub rewrite-unreplaced :
      (start : ℕ) (messages : List Message)
      → collect_active_artifact_observations validate (rewrite validate start messages).messages
        ≡ unreplaced
            (replacements_of validate start messages)
            (collect_active_artifact_observations validate messages)
  unfolding collect_active_artifact_observations rewrite
  rewrite-unreplaced start messages =
      let rs = replacements_of validate start messages in
      rw (artifact_read_calls-rewrite rs 0 messages [])
        (observations_from-rewrite rs 0 messages (artifact_read_calls messages []))
