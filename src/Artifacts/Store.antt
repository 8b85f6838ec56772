-- ===== src/Artifacts/Store.antt =====
-- store.py: `SessionArtifactStore`. The random token of a new reference, `uuid4().hex`, is an
-- argument of `put`.
use Prim.Native.String.{◌++◌ as append_text}
use dota_mind.Prelude.{
  ℕ, ◌==◌, leb, ◌&&◌, ◌||◌, Bool, false, not, String, chars, strip_prefix, all_chars, Option, none,
  some, Outcome, ok, err, ◌>>=◌, ◌>>◌, raise_if,
}
use dota_mind.Prelude.Dict.{Dict, lookup, insert}
use dota_mind.Json.{Value}
use dota_mind.Artifacts.Errors.{ArtifactError, artifact_not_found, invalid_ref}

abbrev pub prefix : String
prefix = "artifact:tool:"

pub record SessionArtifactStore : Type 0 where
  pub documents : Dict Value
  pub source_tools : Dict String

abbrev pub is_hex : ℕ → Bool
is_hex c = (leb 48 c && leb c 57) || (leb 97 c && leb c 102)

abbrev pub is_token : Option String → Bool
is_token none = false
is_token (some token) = chars token == 32 && all_chars is_hex token

-- `_validate_ref`.
unfoldable pub validate_ref : String → Outcome ArtifactError (Unit {0})
validate_ref ref = raise_if (not (is_token (strip_prefix prefix ref))) invalid_ref

abbrev pub record_source : String → Option String → Dict String → Dict String
record_source ref none sources = sources
record_source ref (some tool) sources = insert ref tool sources

unfoldable pub put :
    String → Value → Option String → SessionArtifactStore → String × SessionArtifactStore
put token document source_tool store =
    let ref = append_text prefix token in
    (
      ref,
      record {
        documents = insert ref document store.documents;
        source_tools = record_source ref source_tool store.source_tools;
      },
    )

abbrev pub or_not_found {ℓ} : {A : Type ℓ} → Option A → Outcome ArtifactError A
or_not_found none = err artifact_not_found
or_not_found (some a) = ok a

unfoldable pub get : SessionArtifactStore → String → Outcome ArtifactError Value
get store ref = do validate_ref ref; or_not_found (lookup ref store.documents)

unfoldable pub get_source_tool :
    SessionArtifactStore → String → Outcome ArtifactError (Option String)
get_source_tool store ref = do
  validate_ref ref
  _ ← or_not_found (lookup ref store.documents)
  ok (lookup ref store.source_tools)
