-- ===== src/Homepage/Redis.antt =====
-- recent_series.py: `RedisRecentSeriesCache` and `_decode_entry`. The hash in Redis is a dict of texts; the
-- texts of instants and of snapshots are arguments.
use dota_mind.Prelude.{
  ℕ, ◌==◌, not, ◌||◌, Bool, false, String, str_eq, contains, Option, none, some, is_some, List, [],
  ◌∷◌, length, Outcome, ok, err, raise_if, ◌>>=◌, ◌>>◌, if◌then◌else◌,
}
use dota_mind.Prelude.Dict.{Dict, lookup, insert}
use dota_mind.Homepage.Model.{RecentSeriesSnapshot, RecentSeriesCacheEntry}

pub data RedisCacheError : Type 0 where
  redis_unavailable malformed_entry unsupported_code : RedisCacheError

-- `isoformat` and `fromisoformat`, `model_dump_json` and `model_validate_json`.
pub record Codec : Type 0 where
  pub isoformat : ℕ → String
  pub fromisoformat : String → Option ℕ
  pub dump_snapshot : RecentSeriesSnapshot → String
  pub validate_snapshot : String → Option RecentSeriesSnapshot

abbrev pub cache_fields : List String
cache_fields = "snapshot" ∷ "last_attempt_at" ∷ "last_error" ∷ "manual_refresh_available_at" ∷ []

abbrev pub error_codes : List String
error_codes =
    "configuration_error" ∷ "http_error" ∷ "transport_error" ∷ "timeout" ∷ "invalid_response"
    ∷ "cache_unavailable" ∷ []

abbrev pub empty_entry : RecentSeriesCacheEntry
empty_entry = record {
  snapshot = none;
  last_attempt_at = none;
  last_error = none;
  manual_refresh_available_at = none;
}

-- `hset(key, mapping=mapping)`.
unfoldable pub insert_all : Dict String → Dict String → Dict String
insert_all [] hash = hash
insert_all ((key, value) ∷ mapping) hash = insert_all mapping (insert key value hash)

-- `_hset`; `reachable` is whether Redis answers.
abbrev pub hset :
    Bool → Dict String → Dict String → Outcome RedisCacheError (Unit {0}) × Dict String
hset reachable mapping hash =
    if reachable then (ok tt, insert_all mapping hash) else (err redis_unavailable, hash)

-- The loop of `_decode_entry`: the fields, each of which is known and there once.
unfoldable pub fields_of : Dict String → Dict String → Outcome RedisCacheError (Dict String)
fields_of fields [] = ok fields
fields_of fields ((key, value) ∷ rest) = do
  raise_if (is_some (lookup key fields) || not (contains cache_fields key)) malformed_entry
  fields_of (insert key value fields) rest

-- A text that is read, where it is there.
abbrev pub or_malformed {ℓ} : {A : Type ℓ} → Option A → Outcome RedisCacheError A
or_malformed none = err malformed_entry
or_malformed (some a) = ok a

abbrev pub some_read {ℓ} : {A : Type ℓ} → Option A → Outcome RedisCacheError (Option A)
some_read none = err malformed_entry
some_read (some a) = ok (some a)

abbrev pub read_if_there {ℓ} :
    {A : Type ℓ} → (String → Option A) → Option String → Outcome RedisCacheError (Option A)
read_if_there read none = ok none
read_if_there read (some text) = some_read (read text)

-- `fields["last_error"] or None`.
abbrev pub error_of : String → Option String
error_of text = if str_eq text "" then none else some text

abbrev pub is_unknown_error : Option String → Bool
is_unknown_error none = false
is_unknown_error (some code) = not (contains error_codes code)

module _ (codec : Codec) where
  abbrev pub cooldown_entry : Option ℕ → RecentSeriesCacheEntry
  cooldown_entry available_at = record empty_entry { manual_refresh_available_at = available_at }

  abbrev pub full_entry :
      Dict String → String → String → Outcome RedisCacheError RecentSeriesCacheEntry
  full_entry fields attempt_text error_text = do
    snapshot ← read_if_there codec.validate_snapshot (lookup "snapshot" fields)
    last_attempt_at ← or_malformed (codec.fromisoformat attempt_text)
    manual_refresh_available_at ←
        read_if_there codec.fromisoformat (lookup "manual_refresh_available_at" fields)
    raise_if (is_unknown_error (error_of error_text)) malformed_entry
    ok (record {
      snapshot = snapshot;
      last_attempt_at = some last_attempt_at;
      last_error = error_of error_text;
      manual_refresh_available_at = manual_refresh_available_at;
    })

  -- A hash without an attempt holds the cooldown of manual requests and nothing else.
  abbrev pub cooldown_only :
      Dict String → Option String → Outcome RedisCacheError RecentSeriesCacheEntry
  cooldown_only fields none = err malformed_entry
  cooldown_only fields (some text) =
      if length fields == 1
      then (do
        available_at ← or_malformed (codec.fromisoformat text)
        ok (cooldown_entry (some available_at)))
      else err malformed_entry

  abbrev pub entry_of_fields :
      Dict String → Option String → Option String → Outcome RedisCacheError RecentSeriesCacheEntry
  entry_of_fields fields (some attempt_text) (some error_text) =
      full_entry fields attempt_text error_text
  entry_of_fields fields attempt_text error_text =
      cooldown_only fields (lookup "manual_refresh_available_at" fields)

  -- `_decode_entry` of a hash.
  unfoldable pub decode_entry : Dict String → Outcome RedisCacheError RecentSeriesCacheEntry
  unfolding fields_of
  decode_entry [] = ok empty_entry
  decode_entry (item ∷ hash) = do
    fields ← fields_of [] (item ∷ hash)
    entry_of_fields fields (lookup "last_attempt_at" fields) (lookup "last_error" fields)

  -- The methods of `RedisRecentSeriesCache`.
  unfoldable pub redis_get : Bool → Dict String → Outcome RedisCacheError RecentSeriesCacheEntry
  unfolding decode_entry
  redis_get reachable hash = if reachable then decode_entry hash else err redis_unavailable

  unfoldable pub redis_publish :
      Bool
      → RecentSeriesSnapshot
      → ℕ
      → Dict String
      → Outcome RedisCacheError (Unit {0}) × Dict String
  redis_publish reachable snapshot attempted_at hash =
      hset reachable
        (("snapshot", codec.dump_snapshot snapshot)
          ∷ ("last_attempt_at", codec.isoformat attempted_at)
          ∷ ("last_error", "")
          ∷ [])
        hash

  unfoldable pub redis_record_failure :
      Bool → ℕ → String → Dict String → Outcome RedisCacheError (Unit {0}) × Dict String
  redis_record_failure reachable attempted_at error_code hash =
      if contains error_codes error_code
      then hset reachable
          (("last_attempt_at", codec.isoformat attempted_at) ∷ ("last_error", error_code) ∷ []) hash
      else (err unsupported_code, hash)

  unfoldable pub redis_set_manual :
      Bool → ℕ → Dict String → Outcome RedisCacheError (Unit {0}) × Dict String
  redis_set_manual reachable value hash =
      hset reachable (("manual_refresh_available_at", codec.isoformat value) ∷ []) hash
