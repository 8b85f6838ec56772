-- ===== src/Homepage/Model.antt =====
-- recent_series.py: the cache entry, the responses, and what they say of freshness and cooldowns.
use dota_mind.Prelude.{
  ℕ, ◌+◌, ltb, leb, Bool, true, false, String, Option, none, some, List, [], ◌∷◌, ◌++◌, any,
  if◌then◌else◌,
}
use dota_mind.Prelude.Int.{ℤ}

-- Instants and durations are whole microseconds.
abbrev pub refresh_time : ℕ
refresh_time = 600000000

abbrev pub manual_refresh_cooldown : ℕ
manual_refresh_cooldown = 60000000

abbrev pub candidate_limit : ℕ
candidate_limit = 10

pub data SeriesLifecycle : Type 0 where
  running past : SeriesLifecycle

pub data ChampionSource : Type 0 where
  series tournament : ChampionSource

pub record RecentSeriesCandidate : Type 0 where
  pub series_id : ℤ
  pub name : Option String
  pub league_name : Option String
  pub lifecycle : SeriesLifecycle
  pub begin_at : Option ℕ
  pub end_at : Option ℕ
  pub champion_name : Option String
  pub champion_source : Option ChampionSource
  pub champion_tournament_id : Option ℤ

pub record RecentSeriesSnapshot : Type 0 where
  pub items : List RecentSeriesCandidate
  pub retrieved_at : ℕ

pub record RecentSeriesCacheEntry : Type 0 where
  pub snapshot : Option RecentSeriesSnapshot
  pub last_attempt_at : Option ℕ
  pub last_error : Option String
  pub manual_refresh_available_at : Option ℕ

pub data RefreshStatus : Type 0 where
  fresh stale unavailable : RefreshStatus

pub record RecentSeriesResponse : Type 0 where
  pub status : RefreshStatus
  pub items : List RecentSeriesCandidate
  pub retrieved_at : Option ℕ
  pub last_attempt_at : Option ℕ
  pub last_error : Option String
  pub server_time : ℕ
  pub manual_refresh_available_at : Option ℕ

-- When a refresh failed without a record in the cache, and why.
abbrev pub LocalFailure : Type 0
LocalFailure = Option (ℕ × String)

-- `(now - instant).total_seconds() < _REFRESH_SECONDS`.
abbrev pub is_recent : ℕ → ℕ → Bool
is_recent now instant = ltb now (instant + refresh_time)

abbrev pub is_fresh : Option RecentSeriesSnapshot → ℕ → Bool
is_fresh none now = false
is_fresh (some snapshot) now = is_recent now snapshot.retrieved_at

-- The instant of a failure that the cache entry records.
abbrev pub recorded_failure : Option String → Option ℕ → List ℕ
recorded_failure (some error) (some instant) = instant ∷ []
recorded_failure error attempt = []

-- A local failure counts unless the cache records a later attempt.
abbrev pub is_current_failure : ℕ → Option ℕ → Bool
is_current_failure failed_at none = true
is_current_failure failed_at (some attempt) = leb attempt failed_at

abbrev pub current_local : LocalFailure → Option ℕ → List ℕ
current_local none attempt = []
current_local (some (failed_at, code)) attempt =
    if is_current_failure failed_at attempt then failed_at ∷ [] else []

abbrev pub failure_times : RecentSeriesCacheEntry → LocalFailure → List ℕ
failure_times entry local_failure =
    recorded_failure entry.last_error entry.last_attempt_at
    ++ current_local local_failure entry.last_attempt_at

-- `_failure_cooldown_active`.
unfoldable pub failure_cooldown_active : RecentSeriesCacheEntry → ℕ → LocalFailure → Bool
failure_cooldown_active entry now local_failure =
    any (is_recent now) (failure_times entry local_failure)

-- `_entry_status`, and the status where the entry is known not to be fresh.
abbrev pub old_status : Option RecentSeriesSnapshot → RefreshStatus
old_status none = unavailable
old_status (some snapshot) = stale

abbrev pub entry_status : RecentSeriesCacheEntry → ℕ → RefreshStatus
entry_status entry now = if is_fresh entry.snapshot now then fresh else old_status entry.snapshot

abbrev pub one_or_none : Option ℕ → List ℕ
one_or_none none = []
one_or_none (some n) = n ∷ []

abbrev pub later_by : ℕ → List ℕ → List ℕ
later_by time [] = []
later_by time (instant ∷ rest) = (instant + time) ∷ later_by time rest

-- `max(value for value in values if value > now)`, or `None`.
abbrev pub later_of : ℕ → Option ℕ → Option ℕ
later_of value none = some value
later_of value (some other) = if ltb other value then some value else some other

abbrev pub latest_after : ℕ → List ℕ → Option ℕ
latest_after now [] = none
latest_after now (value ∷ rest) =
    if ltb now value then later_of value (latest_after now rest) else latest_after now rest

-- `_manual_refresh_available_at`.
unfoldable pub manual_available : RecentSeriesCacheEntry → ℕ → LocalFailure → Option ℕ
manual_available entry now local_failure = latest_after now (
    one_or_none entry.manual_refresh_available_at
    ++ later_by refresh_time (failure_times entry local_failure))

abbrev pub items_of : Option RecentSeriesSnapshot → List RecentSeriesCandidate
items_of none = []
items_of (some snapshot) = snapshot.items

abbrev pub retrieved_of : Option RecentSeriesSnapshot → Option ℕ
retrieved_of none = none
retrieved_of (some snapshot) = some snapshot.retrieved_at

abbrev pub or_else {ℓ} : {A : Type ℓ} → Option A → Option A → Option A
or_else none default = default
or_else (some a) default = some a

-- `_response`.
abbrev pub response :
    RecentSeriesCacheEntry
    → RefreshStatus
    → ℕ
    → Option ℕ
    → Option ℕ
    → Option String
    → RecentSeriesResponse
response entry status server_time available last_attempt_at last_error = record {
  status = status;
  items = items_of entry.snapshot;
  retrieved_at = retrieved_of entry.snapshot;
  last_attempt_at = or_else last_attempt_at entry.last_attempt_at;
  last_error = or_else last_error entry.last_error;
  server_time = server_time;
  manual_refresh_available_at = available;
}
