-- ===== src/Homepage/Writes.antt =====
-- The Redis hash implements the cache entry: what is read back after any writes.
use dota_mind.Prelude.{
  ℕ, ◌≡◌, refl, sym, subst, inl, inr, Bool, true, false, String, contains, some, List, [], All, ◌∷◌,
  ok, Bool-cases, if◌then◌else◌,
}
use dota_mind.Prelude.Dict.{Dict}
use dota_mind.Homepage.Model.{RecentSeriesSnapshot, RecentSeriesCacheEntry}
use dota_mind.Homepage.Service.{publish, record_failure, set_manual_refresh_available_at}
use dota_mind.Homepage.Redis.{
  Codec, error_codes, empty_entry, redis_get, redis_publish, redis_record_failure, redis_set_manual,
}
use dota_mind.Homepage.Decoded.{ReadsBack, decode_entry-made}
use dota_mind.Homepage.Refines.{
  Represents, empty-Represents, publish-Represents, failure-Represents, manual-Represents,
}

pub data Write : Type 0 where
  publication : RecentSeriesSnapshot → ℕ → Write
  failed_attempt : ℕ → String → Write
  cooldown : ℕ → Write

-- A write of the hash, and of the entry; Redis answers or does not.
unfoldable pub write_hash : Codec → Bool → Write → Dict String → Dict String
unfolding redis_publish redis_record_failure redis_set_manual
write_hash codec reachable (publication snapshot at) hash =
    (redis_publish codec reachable snapshot at hash).1
write_hash codec reachable (failed_attempt at code) hash =
    (redis_record_failure codec reachable at code hash).1
write_hash codec reachable (cooldown at) hash = (redis_set_manual codec reachable at hash).1

abbrev pub write_entry : Bool → Write → RecentSeriesCacheEntry → RecentSeriesCacheEntry
write_entry false write entry = entry
write_entry true (publication snapshot at) entry = publish snapshot at entry
write_entry true (failed_attempt at code) entry =
    if contains error_codes code then record_failure at code entry else entry
write_entry true (cooldown at) entry = set_manual_refresh_available_at at entry

unfoldable pub write_hashes : Codec → List (Bool × Write) → Dict String → Dict String
unfolding write_hash
write_hashes codec [] hash = hash
write_hashes codec ((reachable, write) ∷ writes) hash =
    write_hashes codec writes (write_hash codec reachable write hash)

abbrev pub write_entries : List (Bool × Write) → RecentSeriesCacheEntry → RecentSeriesCacheEntry
write_entries [] entry = entry
write_entries ((reachable, write) ∷ writes) entry =
    write_entries writes (write_entry reachable write entry)

-- The text of what is published is read back.
abbrev pub Printed : Codec → Bool × Write → Type 0
Printed codec (reachable, publication snapshot at) = ReadsBack codec (some snapshot)
Printed codec (reachable, failed_attempt at code) = Unit
Printed codec (reachable, cooldown at) = Unit

module _ (codec : Codec) where
  failure_refused :
      (reachable : Bool) (at : ℕ) (code : String) (hash : Dict String)
      → contains error_codes code ≡ false
      → (redis_record_failure codec reachable at code hash).1 ≡ hash
  unfolding redis_record_failure
  failure_refused reachable at code hash unknown = rw unknown refl

  failure_unreachable :
      (at : ℕ) (code : String) (hash : Dict String)
      → (redis_record_failure codec false at code hash).1 ≡ hash
  unfolding redis_record_failure
  failure_unreachable at code hash = elim (Bool-cases (contains error_codes code)) [
    | inl known ↦ rw known refl
    | inr unknown ↦ rw unknown refl
  ]

  if_known :
      {test : Bool} (x y : RecentSeriesCacheEntry) → test ≡ true → (if test then x else y) ≡ x
  if_known x y h = rw h refl

  if_unknown :
      {test : Bool} (x y : RecentSeriesCacheEntry) → test ≡ false → (if test then x else y) ≡ y
  if_unknown x y h = rw h refl

  write-Represents :
      (reachable : Bool) (write : Write) (hash : Dict String) (entry : RecentSeriesCacheEntry)
      → Represents codec hash entry
      → Represents codec (write_hash codec reachable write hash) (write_entry reachable write entry)
  unfolding write_hash
  write-Represents true (publication snapshot at) hash entry r =
      publish-Represents codec snapshot at hash entry r
  write-Represents true (cooldown at) hash entry r = manual-Represents codec at hash entry r
  write-Represents true (failed_attempt at code) hash entry r =
      elim (Bool-cases (contains error_codes code)) [
        | inl known ↦
            subst (λ e. Represents codec (redis_record_failure codec true at code hash).1 e)
              (sym (if_known (record_failure at code entry) entry known))
              (failure-Represents codec at code hash entry known r)
        | inr unknown ↦
            subst
              (λ h.
                Represents codec h
                  (if contains error_codes code then record_failure at code entry else entry))
              (sym (failure_refused true at code hash unknown))
              (subst (Represents codec hash)
                (sym (if_unknown (record_failure at code entry) entry unknown)) r)
      ]
  write-Represents false (publication snapshot at) hash entry r = r
  write-Represents false (cooldown at) hash entry r = r
  write-Represents false (failed_attempt at code) hash entry r =
      subst (λ h. Represents codec h entry) (sym (failure_unreachable at code hash)) r

  writes-Represents :
      (writes : List (Bool × Write)) (hash : Dict String) (entry : RecentSeriesCacheEntry)
      → Represents codec hash entry
      → Represents codec (write_hashes codec writes hash) (write_entries writes entry)
  unfolding write_hashes
  writes-Represents [] hash entry r = r
  writes-Represents ((reachable, write) ∷ writes) hash entry r =
      writes-Represents writes (write_hash codec reachable write hash)
        (write_entry reachable write entry) (write-Represents reachable write hash entry r)

  failure-ReadsBack :
      (test : Bool) (at : ℕ) (code : String) (entry : RecentSeriesCacheEntry)
      → ReadsBack codec entry.snapshot
      → ReadsBack codec (if test then record_failure at code entry else entry).snapshot
  failure-ReadsBack true at code entry h = h
  failure-ReadsBack false at code entry h = h

  writes-ReadsBack :
      (writes : List (Bool × Write)) (entry : RecentSeriesCacheEntry)
      → All (Printed codec) writes
      → ReadsBack codec entry.snapshot
      → ReadsBack codec (write_entries writes entry).snapshot
  writes-ReadsBack [] entry printed h = h
  writes-ReadsBack ((false, write) ∷ writes) entry printed h =
      writes-ReadsBack writes entry printed.1 h
  writes-ReadsBack ((true, publication snapshot at) ∷ writes) entry printed h =
      writes-ReadsBack writes (publish snapshot at entry) printed.1 printed.0
  writes-ReadsBack ((true, cooldown at) ∷ writes) entry printed h =
      writes-ReadsBack writes (set_manual_refresh_available_at at entry) printed.1 h
  writes-ReadsBack ((true, failed_attempt at code) ∷ writes) entry printed h =
      writes-ReadsBack writes (write_entry true (failed_attempt at code) entry) printed.1
        (failure-ReadsBack (contains error_codes code) at code entry h)

  -- After any writes of an empty cache, whether or not Redis answers to each, a read that it answers
  -- gives the entry that the writes it answered to make; where the texts of instants and of the
  -- published snapshots are read back as what was written.
  pub write_hashes-redis_get :
      (writes : List (Bool × Write))
      → ((at : ℕ) → codec.fromisoformat (codec.isoformat at) ≡ some at)
      → All (Printed codec) writes
      → redis_get codec true (write_hashes codec writes []) ≡ ok (write_entries writes empty_entry)
  unfolding redis_get
  write_hashes-redis_get writes reads printed =
      let entry = write_entries writes empty_entry in
      decode_entry-made codec reads (write_hashes codec writes []) entry.snapshot
        entry.last_attempt_at entry.last_error entry.manual_refresh_available_at
        (writes-ReadsBack writes empty_entry printed tt)
        (writes-Represents writes [] empty_entry (empty-Represents codec))
