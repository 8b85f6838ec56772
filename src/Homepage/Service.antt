-- ===== src/Homepage/Service.antt =====
-- recent_series.py: `HomepageRecentSeriesService`. A section under the lock is one step; the task that
-- refreshes runs beside the requests and ends in a step of its own.
use dota_mind.Prelude.{
  ℕ, ◌+◌, ltb, not, Bool, true, false, String, Option, none, some, List, Outcome, ok, err,
  if◌then◌else◌,
}
use dota_mind.Homepage.Model.{
  manual_refresh_cooldown, RecentSeriesCandidate, RecentSeriesSnapshot, RecentSeriesCacheEntry,
  RefreshStatus, fresh, unavailable, RecentSeriesResponse, LocalFailure, is_fresh,
  is_current_failure, failure_cooldown_active, old_status, entry_status, manual_available, response,
}

-- The task of a refresh, with the entry it was made for; `done` once it was cancelled.
pub record RefreshTask : Type 0 where
  pub started_at : ℕ
  pub previous : RecentSeriesCacheEntry
  pub done : Bool

-- The service, and the entry that the shared cache holds.
pub record HomepageRecentSeriesService : Type 0 where
  pub cache : RecentSeriesCacheEntry
  pub refresh_task : Option RefreshTask
  pub local_failure : LocalFailure
  pub closed : Bool

-- A request is answered, or waits for the task.
pub data Reply : Type 0 where
  replied : RecentSeriesResponse → Reply
  waits : Reply

pub data CacheError : Type 0 where
  cache_unavailable : CacheError

-- What the provider gives a refresh: candidates, an error with its code, or any other exception.
pub data LoadResult : Type 0 where
  loaded : List RecentSeriesCandidate → LoadResult
  provider_error : String → LoadResult
  crashed : LoadResult

-- The writes of `RecentSeriesCache`.
abbrev pub publish : RecentSeriesSnapshot → ℕ → RecentSeriesCacheEntry → RecentSeriesCacheEntry
publish snapshot attempted_at entry = record entry {
  snapshot = some snapshot;
  last_attempt_at = some attempted_at;
  last_error = none;
}

abbrev pub record_failure : ℕ → String → RecentSeriesCacheEntry → RecentSeriesCacheEntry
record_failure attempted_at error_code entry = record entry {
  last_attempt_at = some attempted_at;
  last_error = some error_code;
}

abbrev pub set_manual_refresh_available_at : ℕ → RecentSeriesCacheEntry → RecentSeriesCacheEntry
set_manual_refresh_available_at value entry = record entry {
  manual_refresh_available_at = some value;
}

-- `_entry_response`.
unfoldable pub entry_response :
    LocalFailure
    → RecentSeriesCacheEntry
    → RefreshStatus
    → ℕ
    → Option ℕ
    → Option String
    → RecentSeriesResponse
unfolding manual_available
entry_response none entry status now last_attempt_at last_error =
    response entry status now (manual_available entry now none) last_attempt_at last_error
entry_response (some (failed_at, code)) entry status now last_attempt_at last_error =
    let available = manual_available entry now (some (failed_at, code)) in
    if is_current_failure failed_at entry.last_attempt_at
    then response entry status now available (some failed_at) (some code)
    else response entry status now available last_attempt_at last_error

-- The task, unless it is done.
abbrev pub unfinished : RefreshTask → Option RefreshTask
unfinished task = if task.done then none else some task

abbrev pub live_task : Option RefreshTask → Option RefreshTask
live_task none = none
live_task (some task) = unfinished task

abbrev pub new_task : ℕ → RecentSeriesCacheEntry → RefreshTask
new_task started_at previous = record { started_at = started_at; previous = previous; done = false }

-- An answer, or the wait of a request that finds no snapshot.
abbrev pub stale_reply : Option RecentSeriesSnapshot → RecentSeriesResponse → Reply
stale_reply none answer = waits
stale_reply (some snapshot) answer = replied answer

-- A write of the cooldown, where it is later than the one there is.
abbrev pub extends : Option ℕ → ℕ → Bool
extends none available_at = true
extends (some old) available_at = ltb old available_at

abbrev pub start_or_join :
    Option RefreshTask → ℕ → HomepageRecentSeriesService → HomepageRecentSeriesService
start_or_join (some task) now s = s
start_or_join none now s = record s { refresh_task = some (new_task now s.cache) }

abbrev pub failed_status : Option RecentSeriesSnapshot → RefreshStatus → RefreshStatus
failed_status none status = unavailable
failed_status (some snapshot) status = status

module _ (server_time : ℕ) where
  abbrev pub answer_with :
      HomepageRecentSeriesService → RecentSeriesCacheEntry → RefreshStatus → RecentSeriesResponse
  answer_with s entry status = entry_response s.local_failure entry status server_time none none

  -- `get_recent_series` under the lock, with the entry it read there, from the task that is not done on.
  abbrev pub get_with :
      ℕ
      → Option RefreshTask
      → RecentSeriesCacheEntry
      → HomepageRecentSeriesService
      → Reply × HomepageRecentSeriesService
  get_with now (some task) entry s =
      (stale_reply entry.snapshot (answer_with s entry (old_status entry.snapshot)), s)
  get_with now none entry s =
      let s' = record s { refresh_task = none } in
      if failure_cooldown_active entry now s.local_failure
      then (replied (answer_with s entry (old_status entry.snapshot)), s')
      else (
        stale_reply entry.snapshot (answer_with s entry (old_status entry.snapshot)),
        record s { refresh_task = some (new_task now entry) },
      )

  -- `get_recent_series`: it reads the clock and the cache before the lock, and both again under it.
  -- What the cache holds may have changed when the request goes on from a read.
  unfoldable pub get_recent_series :
      ℕ
      → ℕ
      → RecentSeriesCacheEntry
      → RecentSeriesCacheEntry
      → HomepageRecentSeriesService
      → Reply × HomepageRecentSeriesService
  unfolding entry_response failure_cooldown_active
  get_recent_series requested_at now first entry s =
      if is_fresh first.snapshot requested_at
      then (replied (answer_with s first fresh), s)
      else if is_fresh entry.snapshot now
      then (replied (answer_with s entry fresh), s)
      else if s.closed
      then (replied (answer_with s entry (old_status entry.snapshot)), s)
      else get_with now (live_task s.refresh_task) entry s

  -- `refresh_recent_series` under the lock, once it is to start a task or to join one. A task that it
  -- starts keeps the entry from before the write.
  abbrev pub request_refresh :
      Bool
      → Option RefreshTask
      → ℕ
      → HomepageRecentSeriesService
      → Outcome CacheError Reply × HomepageRecentSeriesService
  request_refresh writable task started_at s =
      let s' = start_or_join task started_at (record s { refresh_task = task }) in
      let available_at = started_at + manual_refresh_cooldown in
      if not (extends s.cache.manual_refresh_available_at available_at)
      then (ok waits, s')
      else if writable
      then (ok waits, record s' { cache = set_manual_refresh_available_at available_at s.cache })
      else (err cache_unavailable, record s { refresh_task = task })

  abbrev pub refresh_unless :
      Bool
      → Option ℕ
      → ℕ
      → HomepageRecentSeriesService
      → Outcome CacheError Reply × HomepageRecentSeriesService
  refresh_unless writable (some available_at) now s = (
    ok (replied (answer_with s s.cache (entry_status s.cache now))),
    record s { refresh_task = none },
  )
  refresh_unless writable none now s = request_refresh writable none now s

  abbrev pub refresh_with :
      Bool
      → Option RefreshTask
      → ℕ
      → HomepageRecentSeriesService
      → Outcome CacheError Reply × HomepageRecentSeriesService
  refresh_with writable none now s =
      refresh_unless writable (manual_available s.cache now s.local_failure) now s
  refresh_with writable (some task) now s = request_refresh writable (some task) task.started_at s

  unfoldable pub refresh_recent_series :
      Bool
      → ℕ
      → HomepageRecentSeriesService
      → Outcome CacheError Reply × HomepageRecentSeriesService
  unfolding entry_response manual_available
  refresh_recent_series writable now s =
      if s.closed
      then (ok (replied (answer_with s s.cache (entry_status s.cache now))), s)
      else refresh_with writable (live_task s.refresh_task) now s

  -- The answer of a request that waited for a refresh.
  abbrev pub joined_response : RefreshStatus → HomepageRecentSeriesService → RecentSeriesResponse
  joined_response status s = answer_with s s.cache status

  -- A failure that the cache cannot record.
  abbrev pub fail_locally :
      RecentSeriesCacheEntry
      → ℕ
      → String
      → HomepageRecentSeriesService
      → Option RecentSeriesResponse × HomepageRecentSeriesService
  fail_locally previous at code s =
      let status = failed_status previous.snapshot (entry_status previous at) in
      (
        some (entry_response (some (at, code)) previous status server_time (some at) (some code)),
        record s { local_failure = some (at, code) },
      )

  -- `_perform_refresh`, which reads the clock once the provider has answered.
  unfoldable pub perform_refresh :
      RecentSeriesCacheEntry
      → LoadResult
      → ℕ
      → Bool
      → HomepageRecentSeriesService
      → Option RecentSeriesResponse × HomepageRecentSeriesService
  unfolding entry_response
  perform_refresh previous crashed at writable s = (none, s)
  perform_refresh previous (provider_error code) at writable s =
      let s' = record s { cache = record_failure at code s.cache } in
      if writable
      then (some (answer_with s' s'.cache (entry_status s'.cache server_time)), s')
      else fail_locally previous at code s
  perform_refresh previous (loaded items) at writable s =
      let snapshot : RecentSeriesSnapshot = record { items = items; retrieved_at = at } in
      let s' = record s { cache = publish snapshot at s.cache; local_failure = none } in
      if writable
      then (some (answer_with s' s'.cache fresh), s')
      else fail_locally previous at "cache_unavailable" s

  -- `_refresh`: the task ends.
  abbrev pub end_task :
      Option RefreshTask
      → LoadResult
      → ℕ
      → Bool
      → HomepageRecentSeriesService
      → Option RecentSeriesResponse × HomepageRecentSeriesService
  end_task none load at writable s = (none, s)
  end_task (some task) load at writable s =
      let (reply, s') = perform_refresh task.previous load at writable s in
      (reply, record s' { refresh_task = none })

  unfoldable pub finish_refresh :
      LoadResult
      → ℕ
      → Bool
      → HomepageRecentSeriesService
      → Option RecentSeriesResponse × HomepageRecentSeriesService
  unfolding perform_refresh
  finish_refresh load at writable s = end_task (live_task s.refresh_task) load at writable s

-- `aclose`.
abbrev pub cancelled_task : Option RefreshTask → Option RefreshTask
cancelled_task none = none
cancelled_task (some task) = some (record task { done = true })

unfoldable pub aclose : HomepageRecentSeriesService → HomepageRecentSeriesService
aclose s = record s { closed = true; refresh_task = cancelled_task s.refresh_task }
