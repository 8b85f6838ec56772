-- ===== src/Homepage/Calls.antt =====
-- Any history of requests, ends of refreshes and a close of the service, each with its instants.
use dota_mind.Prelude.{ℕ, Bool, Option, none, some, List, [], ◌∷◌}
use dota_mind.Homepage.Model.{RecentSeriesCacheEntry}
use dota_mind.Homepage.Service.{
  RefreshTask, HomepageRecentSeriesService, LoadResult, get_recent_series, refresh_recent_series,
  finish_refresh, aclose, live_task,
}

-- `get requested_at now server_time first entry`, with the two entries it read, `manual_refresh writable now server_time` and
-- `finish load writable now server_time`; `writable` is whether the cache takes a write.
pub data Call : Type 0 where
  get : ℕ → ℕ → ℕ → RecentSeriesCacheEntry → RecentSeriesCacheEntry → Call
  manual_refresh : Bool → ℕ → ℕ → Call
  finish : LoadResult → Bool → ℕ → ℕ → Call
  close : Call

unfoldable pub apply_call : Call → HomepageRecentSeriesService → HomepageRecentSeriesService
unfolding get_recent_series refresh_recent_series finish_refresh aclose
apply_call (get requested_at now server_time first entry) s =
    (get_recent_series server_time requested_at now first entry s).1
apply_call (manual_refresh writable now server_time) s =
    (refresh_recent_series server_time writable now s).1
apply_call (finish load writable now server_time) s =
    (finish_refresh server_time load now writable s).1
apply_call close s = aclose s

-- The start of a task that was not there before.
abbrev pub started_at_of : Option RefreshTask → List ℕ
started_at_of none = []
started_at_of (some task) = task.started_at ∷ []

abbrev pub started : Option RefreshTask → Option RefreshTask → List ℕ
started none after = started_at_of after
started (some task) after = []

abbrev pub new_starts : HomepageRecentSeriesService → HomepageRecentSeriesService → List ℕ
new_starts before after = started (live_task before.refresh_task) (live_task after.refresh_task)
