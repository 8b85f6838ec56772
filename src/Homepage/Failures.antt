-- ===== src/Homepage/Failures.antt =====
-- What a failed refresh holds off.
use dota_mind.Prelude.{
  ℕ, ◌+◌, ◌≤◌, ◌≡◌, refl, inl, inr, ltb, leb, not, Bool, true, false, Option, none, some,
  Option-cases, List, [], ◌∷◌, ◌++◌, any, arith, Bool-cases, All,
}
use dota_mind.Homepage.Model.{
  refresh_time, manual_refresh_cooldown, manual_available, failure_cooldown_active, failure_times,
  is_recent, RecentSeriesCacheEntry, LocalFailure, latest_after, later_by, one_or_none,
}
use dota_mind.Homepage.Service.{
  RefreshTask, HomepageRecentSeriesService, LoadResult, loaded, provider_error, crashed,
  get_recent_series, refresh_recent_series, refresh_with, request_refresh, get_with, live_task,
  extends,
}
use dota_mind.Homepage.Calls.{started}
use dota_mind.Homepage.Requests.{get_recent_series_cases}
use dota_mind.Homepage.Cooldown.{
  later_of-none, refresh_recent_series_open, refresh_recent_series_closed, started_self,
}

-- The instants of the failures that count.
abbrev pub times : HomepageRecentSeriesService → List ℕ
times s = failure_times s.cache s.local_failure

-- A refresh that ends with an error of the provider, or with a publication that the cache does not take.
abbrev pub fails : LoadResult → Bool → Bool
fails crashed writable = false
fails (provider_error code) writable = true
fails (loaded items) writable = not writable

-- The cache records no attempt after an instant.
abbrev pub NoneAfter : ℕ → Option ℕ → Type 0
NoneAfter instant none = Unit
NoneAfter instant (some attempt) = attempt ≤ instant

-- A failure since an instant.
abbrev pub Cooling : ℕ → List ℕ → Type 0
Cooling instant failures = any (leb instant) failures ≡ true

pub any-append_right : (t : ℕ → Bool) (xs ys : List ℕ) → any t ys ≡ true → any t (xs ++ ys) ≡ true
any-append_right t [] ys h = h
any-append_right t (x ∷ xs) ys h = ground (arith, any-append_right t xs ys h)

-- A failure that is no longer recent is over.
over :
    (instant now : ℕ) (failures : List ℕ)
    → Cooling instant failures
    → any (is_recent now) failures ≡ false
    → instant + refresh_time ≤ now
over instant now [] h e = cc h
over instant now (x ∷ xs) h e = elim (Bool-cases (leb instant x)) [
  | inl q ↦ ground (arith, q, e)
  | inr q ↦ over instant now xs (rw q at h) (ground (arith, e))
]

latest_after-later_by :
    (now : ℕ) (xs : List ℕ)
    → latest_after now (later_by refresh_time xs) ≡ none
    → any (is_recent now) xs ≡ false
latest_after-later_by now [] h = refl
latest_after-later_by now (x ∷ xs) h = elim (Bool-cases (ltb now (x + refresh_time))) [
  | inl e ↦
      elim (later_of-none (x + refresh_time) (latest_after now (later_by refresh_time xs))
        (rw e at h)) [ ]
  | inr e ↦ rw e (latest_after-later_by now xs (rw e at h))
]

latest_after-append :
    (now : ℕ) (xs ys : List ℕ) → latest_after now (xs ++ ys) ≡ none → latest_after now ys ≡ none
latest_after-append now [] ys h = h
latest_after-append now (x ∷ xs) ys h = elim (Bool-cases (ltb now x)) [
  | inl e ↦ elim (later_of-none x (latest_after now (xs ++ ys)) (rw e at h)) [ ]
  | inr e ↦ latest_after-append now xs ys (rw e at h)
]

manual_available-over :
    (instant now : ℕ) (s : HomepageRecentSeriesService)
    → Cooling instant (times s)
    → manual_available s.cache now s.local_failure ≡ none
    → instant + refresh_time ≤ now
unfolding manual_available
manual_available-over instant now s h e = over instant now (times s) h (
    latest_after-later_by now (times s) (
      latest_after-append now (one_or_none s.cache.manual_refresh_available_at)
        (later_by refresh_time (times s)) e))

cooldown_over :
    (instant now : ℕ) (entry : RecentSeriesCacheEntry) (local : LocalFailure)
    → Cooling instant (failure_times entry local)
    → failure_cooldown_active entry now local ≡ false
    → instant + refresh_time ≤ now
unfolding failure_cooldown_active
cooldown_over instant now entry local h e = over instant now (failure_times entry local) h e

-- Starts that respect some failures, from a state to one that keeps its failures.
abbrev pub Respects :
    ℕ
    → List ℕ
    → HomepageRecentSeriesService
    → Option RefreshTask
    → HomepageRecentSeriesService
    → Type 0
Respects instant failures s before s' =
    (Cooling instant failures
      → All (λ start. instant + refresh_time ≤ start) (started before (live_task s'.refresh_task)))
    × (times s' ≡ times s)
    × (s'.cache.last_attempt_at ≡ s.cache.last_attempt_at)
    × (s'.local_failure ≡ s.local_failure)

unchanged-Respects :
    (instant : ℕ) (failures : List ℕ) (s : HomepageRecentSeriesService)
    → Respects instant failures s (live_task s.refresh_task) s
unchanged-Respects instant failures s =
    (λ h. rw (started_self (live_task s.refresh_task)) tt, refl, refl, refl)

-- A request that decides with some entry respects the failures that the entry records.
module _ (instant server now : ℕ) (s : HomepageRecentSeriesService)
    (entry : RecentSeriesCacheEntry) where
  get_with-Respects :
      (task : Option RefreshTask)
      → Respects instant
          (failure_times entry s.local_failure)
          s
          task
          (get_with server now task entry s).1
  get_with-Respects (some task) = (λ h. tt, refl, refl, refl)
  get_with-Respects none = elim (Bool-cases (failure_cooldown_active entry now s.local_failure)) [
    | inl f ↦ rw f (λ h. tt, refl, refl, refl)
    | inr f ↦
        rw f (λ h. (cooldown_over instant now entry s.local_failure h f, tt), refl, refl, refl)
  ]

  pub get_recent_series-Respects :
      (requested_at : ℕ) (first : RecentSeriesCacheEntry)
      → Respects instant
          (failure_times entry s.local_failure)
          s
          (live_task s.refresh_task)
          (get_recent_series server requested_at now first entry s).1
  get_recent_series-Respects requested_at first =
      elim (get_recent_series_cases server requested_at now first entry s) [
        | inl e ↦ rw e (unchanged-Respects instant (failure_times entry s.local_failure) s)
        | inr e ↦ rw e (get_with-Respects (live_task s.refresh_task))
      ]

module _ (instant server now : ℕ) (s : HomepageRecentSeriesService) where
  request_refresh-Respects :
      (writable : Bool) (started_at : ℕ) (task : Option RefreshTask)
      → (task ≡ none → Cooling instant (times s) → instant + refresh_time ≤ started_at)
      → Respects instant (times s) s task (request_refresh server writable task started_at s).1
  request_refresh-Respects writable started_at none h =
      elim (Bool-cases
        (extends s.cache.manual_refresh_available_at (started_at + manual_refresh_cooldown))) [
          | inr e ↦ rw e (λ k. (h refl k, tt), refl, refl, refl)
          | inl e ↦ elim (Bool-cases writable) [
            | inl w ↦ rw (e, w) (λ k. (h refl k, tt), refl, refl, refl)
            | inr w ↦ rw (e, w) (λ k. tt, refl, refl, refl)
          ]
        ]
  request_refresh-Respects writable started_at (some task) h =
      elim (Bool-cases
        (extends s.cache.manual_refresh_available_at (started_at + manual_refresh_cooldown))) [
          | inr e ↦ rw e (λ k. tt, refl, refl, refl)
          | inl e ↦ elim (Bool-cases writable) [
            | inl w ↦ rw (e, w) (λ k. tt, refl, refl, refl)
            | inr w ↦ rw (e, w) (λ k. tt, refl, refl, refl)
          ]
        ]

  refresh_with-Respects :
      (writable : Bool) (task : Option RefreshTask)
      → Respects instant (times s) s task (refresh_with server writable task now s).1
  refresh_with-Respects writable (some task) =
      request_refresh-Respects writable task.started_at (some task) (λ e. cc e)
  refresh_with-Respects writable none =
      elim (Option-cases (manual_available s.cache now s.local_failure)) [
        | inr (at, a) ↦ rw a (λ k. tt, refl, refl, refl)
        | inl a ↦ rw a (
            request_refresh-Respects writable now none
              (λ e k. manual_available-over instant now s k a))
      ]

  pub refresh_recent_series-Respects :
      (writable : Bool)
      → Respects instant
          (times s)
          s
          (live_task s.refresh_task)
          (refresh_recent_series server writable now s).1
  refresh_recent_series-Respects writable = elim (Bool-cases s.closed) [
    | inl c ↦
        rw (refresh_recent_series_closed server writable now s c)
          (unchanged-Respects instant (times s) s)
    | inr c ↦
        rw (refresh_recent_series_open server writable now s c)
          (refresh_with-Respects writable (live_task s.refresh_task))
  ]
