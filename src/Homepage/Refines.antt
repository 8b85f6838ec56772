-- ===== src/Homepage/Refines.antt =====
-- The Redis hash and the cache entry that it stands for.
use dota_mind.Prelude.{ℕ, ◌≡◌, refl, true, String, contains, Option, none, some, []}
use dota_mind.Prelude.Dict.{Dict, lookup, lookup-insert}
use dota_mind.Homepage.Model.{RecentSeriesSnapshot, RecentSeriesCacheEntry}
use dota_mind.Homepage.Service.{publish, record_failure, set_manual_refresh_available_at}
use dota_mind.Homepage.Redis.{
  Codec, error_codes, insert_all, empty_entry, redis_publish, redis_record_failure,
  redis_set_manual,
}
use dota_mind.Homepage.Stored.{Proper, insert-Proper}

abbrev pub text_of {ℓ} : {A : Type ℓ} → (A → String) → Option A → Option String
text_of text none = none
text_of text (some a) = some (text a)

-- The text of the last error: there with an attempt, and empty where that did not fail.
abbrev pub error_text : Option ℕ → Option String → Option String
error_text none error = none
error_text (some attempt) none = some ""
error_text (some attempt) (some code) = some code

-- Without an attempt there is neither a snapshot nor an error, and an error is a known code.
abbrev pub Coherent : RecentSeriesCacheEntry → Type 0
Coherent entry = coherent entry.last_attempt_at entry.snapshot entry.last_error
  where
    coherent : Option ℕ → Option RecentSeriesSnapshot → Option String → Type 0
    coherent none snapshot error = (snapshot ≡ none) × (error ≡ none)
    coherent (some attempt) snapshot none = Unit
    coherent (some attempt) snapshot (some code) = contains error_codes code ≡ true

module _ (codec : Codec) where
  -- A hash that stands for an entry.
  abbrev pub Represents : Dict String → RecentSeriesCacheEntry → Type 0
  Represents hash entry =
      Proper hash
      × (lookup "snapshot" hash ≡ text_of codec.dump_snapshot entry.snapshot)
      × (lookup "last_attempt_at" hash ≡ text_of codec.isoformat entry.last_attempt_at)
      × (lookup "last_error" hash ≡ error_text entry.last_attempt_at entry.last_error)
      × (lookup "manual_refresh_available_at" hash
          ≡ text_of codec.isoformat entry.manual_refresh_available_at)
      × Coherent entry

  pub empty-Represents : Represents [] empty_entry
  unfolding lookup
  empty-Represents = (tt, refl, refl, refl, refl, (refl, refl))

  pub publish-Represents :
      (snapshot : RecentSeriesSnapshot) (at : ℕ) (hash : Dict String)
      (entry : RecentSeriesCacheEntry)
      → Represents hash entry
      → Represents (redis_publish codec true snapshot at hash).1 (publish snapshot at entry)
  unfolding redis_publish insert_all
  publish-Represents snapshot at hash entry (proper, s, a, e, m, c) = (
    insert-Proper "last_error" "" _ refl (
        insert-Proper "last_attempt_at" (codec.isoformat at) _ refl
          (insert-Proper "snapshot" (codec.dump_snapshot snapshot) hash refl proper)),
    rw (lookup-insert, lookup-insert, lookup-insert) refl,
    rw (lookup-insert, lookup-insert) refl,
    rw lookup-insert refl,
    rw (lookup-insert, lookup-insert, lookup-insert) m,
    tt,
  )

  pub failure-Represents :
      (at : ℕ) (code : String) (hash : Dict String) (entry : RecentSeriesCacheEntry)
      → contains error_codes code ≡ true
      → Represents hash entry
      → Represents (redis_record_failure codec true at code hash).1 (record_failure at code entry)
  unfolding redis_record_failure insert_all
  failure-Represents at code hash entry known (proper, s, a, e, m, c) = rw known (
    insert-Proper "last_error" code _ refl
        (insert-Proper "last_attempt_at" (codec.isoformat at) hash refl proper),
    rw (lookup-insert, lookup-insert) s,
    rw (lookup-insert, lookup-insert) refl,
    rw lookup-insert refl,
    rw (lookup-insert, lookup-insert) m,
    refl,
  )

  pub manual-Represents :
      (at : ℕ) (hash : Dict String) (entry : RecentSeriesCacheEntry)
      → Represents hash entry
      → Represents
          (redis_set_manual codec true at hash).1
          (set_manual_refresh_available_at at entry)
  unfolding redis_set_manual insert_all
  manual-Represents at hash entry (proper, s, a, e, m, c) = (
    insert-Proper "manual_refresh_available_at" (codec.isoformat at) hash refl proper,
    rw lookup-insert s,
    rw lookup-insert a,
    rw lookup-insert e,
    rw lookup-insert refl,
    c,
  )
