-- ===== src/Homepage/Tests.antt =====
-- The theorems on the recent series at concrete requests.
use dota_mind.Prelude.{
  Bool, ok, ap, ℕ, ◌+◌, ◌≤◌, ◌≡◌, refl, inl, inr, true, false, none, some, List, [], ◌∷◌, All,
  arith,
}
use dota_mind.Prelude.Int.{pos}
use dota_mind.Prelude.Decimal.{repr}
use dota_mind.Artifacts.Paths.{int_from}
use dota_mind.Artifacts.Paths.Indices.{int_from-repr}
use dota_mind.Homepage.Redis.{Codec, empty_entry, redis_get}
use dota_mind.Homepage.Writes.{
  Write, publication, failed_attempt, cooldown, write_hashes, write_entries, write_hashes-redis_get,
}
use dota_mind.Homepage.Model.{
  RecentSeriesSnapshot, refresh_time, RecentSeriesCacheEntry, failure_cooldown_active,
  manual_available,
}
use dota_mind.Homepage.Select.{SeriesLifecycleItem}
use dota_mind.Homepage.Service.{
  HomepageRecentSeriesService, loaded, provider_error, new_task, get_recent_series,
  refresh_recent_series, finish_refresh, perform_refresh,
}
use dota_mind.Homepage.Calls.{Call, get, manual_refresh, finish, apply_call}
use dota_mind.Homepage.Cooldown.{manual_starts, Spaced}
use dota_mind.Homepage.Joins.{Joins, manual_starts-Joins}
use dota_mind.Homepage.Quiet.{Quiet, all_starts, finish_refresh-all_starts}

abbrev no_entry : RecentSeriesCacheEntry
no_entry = record {
  snapshot = none;
  last_attempt_at = none;
  last_error = none;
  manual_refresh_available_at = none;
}

abbrev new_service : HomepageRecentSeriesService
new_service = record { cache = no_entry; refresh_task = none; local_failure = none; closed = false }

-- A refresh, which publishes, a second one within the cooldown, and one after it.
abbrev calls : List Call
calls =
    manual_refresh true 1000 1000
    ∷ finish (loaded []) true 2000 2000
    ∷ manual_refresh true 3000 3000
    ∷ manual_refresh true 60001000 60001000
    ∷ []

two_starts : manual_starts calls new_service ≡ 1000 ∷ 60001000 ∷ []
unfolding manual_starts apply_call refresh_recent_series finish_refresh perform_refresh
    manual_available
two_starts = refl

manual_starts-Joins_example : Spaced (manual_starts calls new_service) × Joins calls new_service
manual_starts-Joins_example = manual_starts-Joins calls new_service

abbrev refreshing : HomepageRecentSeriesService
refreshing = record new_service { refresh_task = some (new_task 500 no_entry) }

-- A request soon after the failure, one much later, the failure of its refresh, which the cache
-- records, and a request that read the cache before that.
abbrev later_calls : List Call
later_calls =
    get 5000 5000 5000 no_entry no_entry
    ∷ get 600002000 600002000 600002000 no_entry no_entry
    ∷ finish (provider_error "timeout") true 600003000 600003000
    ∷ get 600004000 600004000 600004000 no_entry no_entry
    ∷ []

-- The service after the failure, which the cache does not record.
abbrev failed_service : HomepageRecentSeriesService
failed_service = (finish_refresh 2000 (provider_error "timeout") 2000 false refreshing).1

later_calls-Quiet : Quiet 2000 [] later_calls failed_service
unfolding apply_call get_recent_series finish_refresh perform_refresh failure_cooldown_active
later_calls-Quiet = (
  omega arith,
  inl refl,
  (omega arith, inl refl, (omega arith, (omega arith, inr (inl refl), tt))),
)

finish_refresh-all_starts_example :
    All (λ start. 2000 + refresh_time ≤ start) (all_starts later_calls failed_service)
finish_refresh-all_starts_example =
    finish_refresh-all_starts 2000 2000 (provider_error "timeout") false later_calls refreshing
      {task = new_task 500 no_entry} refl refl tt later_calls-Quiet

two_later_starts : all_starts later_calls failed_service ≡ 600002000 ∷ 600004000 ∷ []
unfolding all_starts apply_call get_recent_series finish_refresh perform_refresh
    failure_cooldown_active
two_later_starts = refl

abbrev item : ℕ → ℕ → SeriesLifecycleItem
item id begin_at = record {
  id = pos id;
  name = none;
  full_name = none;
  league_name = none;
  begin_at = some begin_at;
  end_at = some begin_at;
  winner_id = none;
  winner_type = none;
}

abbrev going_on : List SeriesLifecycleItem
going_on = item 1 10 ∷ item 2 20 ∷ []

abbrev ended : List SeriesLifecycleItem
ended = item 1 10 ∷ item 3 30 ∷ []

abbrev no_series : RecentSeriesSnapshot
no_series = record { items = []; retrieved_at = 2000 }

-- Instants as decimal texts, and one snapshot.
abbrev decimal_codec : Codec
decimal_codec = record {
  isoformat = repr;
  fromisoformat = λ text. some (int_from 0 text);
  dump_snapshot = λ s. "no series";
  validate_snapshot = λ text. some no_series;
}

abbrev writes : List (Bool × Write)
writes =
    (true, cooldown 61000)
    ∷ (true, publication no_series 2000)
    ∷ (true, failed_attempt 5000 "timeout")
    ∷ (false, failed_attempt 6000 "timeout")
    ∷ []

write_hashes-redis_get_example :
    redis_get decimal_codec true (write_hashes decimal_codec writes [])
    ≡ ok (write_entries writes empty_entry)
write_hashes-redis_get_example =
    write_hashes-redis_get decimal_codec writes (λ at. ap some (int_from-repr at))
      (tt, (refl, (tt, (tt, tt))))
