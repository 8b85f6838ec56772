-- ===== src/Homepage/Cooldown.antt =====
-- How often refreshes start.
use dota_mind.Prelude.{
  ℕ, ◌+◌, ◌≤◌, ◌≡◌, ◌≢◌, refl, ◌⊎◌, inl, inr, ltb, Bool, true, false, Option, none, some,
  Option-cases, List, [], ◌∷◌, ◌++◌, arith, Bool-cases,
}
use dota_mind.Homepage.Model.{
  manual_refresh_cooldown, manual_available, RecentSeriesCacheEntry, latest_after, later_of,
}
use dota_mind.Homepage.Service.{
  RefreshTask, HomepageRecentSeriesService, LoadResult, loaded, provider_error, crashed,
  refresh_recent_series, finish_refresh, perform_refresh, aclose, live_task, extends,
  request_refresh, refresh_with,
}
use dota_mind.Homepage.Requests.{if_false, get_recent_series_cache}
use dota_mind.Homepage.Calls.{
  Call, get, manual_refresh, finish, close, apply_call, new_starts, started,
}

-- The starts that manual requests make.
unfoldable pub manual_starts : List Call → HomepageRecentSeriesService → List ℕ
manual_starts [] s = []
manual_starts (manual_refresh writable now server_time ∷ calls) s =
    let s' = apply_call (manual_refresh writable now server_time) s in
    new_starts s s' ++ manual_starts calls s'
manual_starts (call ∷ calls) s = manual_starts calls (apply_call call s)

-- Each start is a cooldown after the one before it, and the first one after an instant.
abbrev pub SpacedAfter : ℕ → List ℕ → Type 0
SpacedAfter instant [] = Unit
SpacedAfter instant (start ∷ starts) =
    (instant + manual_refresh_cooldown ≤ start) × SpacedAfter start starts

abbrev pub Spaced : List ℕ → Type 0
Spaced [] = Unit
Spaced (start ∷ starts) = SpacedAfter start starts

-- The cache keeps manual requests off until a cooldown after an instant.
abbrev Held : ℕ → Option ℕ → Type 0
Held instant available = (at : ℕ) × (available ≡ some at) × (instant + manual_refresh_cooldown ≤ at)

abbrev IsHeld : ℕ → HomepageRecentSeriesService → Type 0
IsHeld instant s = Held instant s.cache.manual_refresh_available_at

-- The end of a refresh leaves the cooldown of manual requests alone.
perform_refresh_manual :
    (server : ℕ) (previous : RecentSeriesCacheEntry) (load : LoadResult) (now : ℕ) (writable : Bool)
    (s : HomepageRecentSeriesService)
    → (perform_refresh server previous load now writable s).1.cache.manual_refresh_available_at
      ≡ s.cache.manual_refresh_available_at
unfolding perform_refresh
perform_refresh_manual server previous crashed now writable s = refl
perform_refresh_manual server previous (provider_error code) now true s = refl
perform_refresh_manual server previous (provider_error code) now false s = refl
perform_refresh_manual server previous (loaded items) now true s = refl
perform_refresh_manual server previous (loaded items) now false s = refl

finish_refresh_manual :
    (server : ℕ) (load : LoadResult) (now : ℕ) (writable : Bool) (s : HomepageRecentSeriesService)
    → (finish_refresh server load now writable s).1.cache.manual_refresh_available_at
      ≡ s.cache.manual_refresh_available_at
unfolding finish_refresh
finish_refresh_manual server load now writable s = elim (Option-cases (live_task s.refresh_task)) [
  | inl t ↦ rw t refl
  | inr (task, t) ↦ rw t (perform_refresh_manual server task.previous load now writable s)
]

-- The cooldown that `refresh_recent_series` writes is later than the one there is.
extends-Held :
    (instant available_at : ℕ) (old : Option ℕ)
    → Held instant old
    → extends old available_at ≡ true
    → Held instant (some available_at)
extends-Held instant available_at none h e = cc (h.1)
extends-Held instant available_at (some old) (at, same, later) e =
    let q : old ≡ at = cc (same) in (available_at, refl, ground (arith, q, later, e))

pub later_of-none : (value : ℕ) (other : Option ℕ) → later_of value other ≢ none
later_of-none value none h = cc h
later_of-none value (some other) h = elim (Bool-cases (ltb other value)) [
  | inl e ↦ cc (rw e at h)
  | inr e ↦ cc (rw e at h)
]

-- A cooldown that is not written is there already.
extended :
    (now : ℕ) (old : Option ℕ) → extends old (now + manual_refresh_cooldown) ≡ false → Held now old
extended now none h = cc h
extended now (some old) h = (old, refl, ground (arith, h))

latest_after-none : (now at : ℕ) (rest : List ℕ) → latest_after now (at ∷ rest) ≡ none → at ≤ now
latest_after-none now at rest h = elim (Bool-cases (ltb now at)) [
  | inl e ↦ elim (later_of-none at (latest_after now rest) (rw e at h)) [ ]
  | inr e ↦ ground (arith, e)
]

-- Where manual requests are admitted, no cooldown of one is left.
manual_available-Held :
    (instant now : ℕ) (s : HomepageRecentSeriesService)
    → manual_available s.cache now s.local_failure ≡ none
    → IsHeld instant s
    → instant + manual_refresh_cooldown ≤ now
unfolding manual_available
manual_available-Held instant now s h (at, same, later) =
    let h' = rw same at h in let q = latest_after-none now at _ h' in omega (arith, q, later)

pub started_self : (task : Option RefreshTask) → started task task ≡ []
started_self none = refl
started_self (some task) = refl

module _ (server : ℕ) (writable : Bool) (now : ℕ) (s : HomepageRecentSeriesService) where
  -- The write of a manual request, whether or not it starts a refresh.
  request_refresh-Held :
      (instant started_at : ℕ) (task : Option RefreshTask)
      → IsHeld instant s
      → IsHeld instant (request_refresh server writable task started_at s).1
  request_refresh-Held instant started_at none h =
      elim (Bool-cases
        (extends s.cache.manual_refresh_available_at (started_at + manual_refresh_cooldown))) [
          | inr e ↦ rw e h
          | inl e ↦ elim (Bool-cases writable) [
            | inl w ↦
                rw (e, w)
                  (extends-Held instant (started_at + manual_refresh_cooldown)
                    s.cache.manual_refresh_available_at h e)
            | inr w ↦ rw (e, w) h
          ]
        ]
  request_refresh-Held instant started_at (some task) h =
      elim (Bool-cases
        (extends s.cache.manual_refresh_available_at (started_at + manual_refresh_cooldown))) [
          | inr e ↦ rw e h
          | inl e ↦ elim (Bool-cases writable) [
            | inl w ↦
                rw (e, w)
                  (extends-Held instant (started_at + manual_refresh_cooldown)
                    s.cache.manual_refresh_available_at h e)
            | inr w ↦ rw (e, w) h
          ]
        ]

  pub refresh_recent_series_open :
      s.closed ≡ false
      → refresh_recent_series server writable now s
        ≡ refresh_with server writable (live_task s.refresh_task) now s
  unfolding refresh_recent_series
  refresh_recent_series_open c = if_false _ c

  pub refresh_recent_series_closed :
      s.closed ≡ true → (refresh_recent_series server writable now s).1 ≡ s
  unfolding refresh_recent_series
  refresh_recent_series_closed c = simp c refl

  refresh_recent_series-Held :
      (instant : ℕ)
      → IsHeld instant s
      → IsHeld instant (refresh_recent_series server writable now s).1
  refresh_recent_series-Held instant h = elim (Bool-cases s.closed) [
    | inl c ↦ rw (refresh_recent_series_closed c) h
    | inr c ↦ elim (Option-cases (live_task s.refresh_task)) [
      | inr (task, t) ↦
          rw (refresh_recent_series_open c, t)
            (request_refresh-Held instant task.started_at (some task) h)
      | inl t ↦ elim (Option-cases (manual_available s.cache now s.local_failure)) [
        | inl a ↦ rw (refresh_recent_series_open c, t, a) (request_refresh-Held instant now none h)
        | inr (at, a) ↦ rw (refresh_recent_series_open c, t, a) h
      ]
    ]
  ]

  -- A manual request starts nothing, or a refresh now, which holds off the next one.
  abbrev Paced : Option RefreshTask → HomepageRecentSeriesService → Type 0
  Paced before s' =
      (started before (live_task s'.refresh_task) ≡ [])
      ⊎ ((started before (live_task s'.refresh_task) ≡ now ∷ [])
          × IsHeld now s'
          × ((instant : ℕ) → IsHeld instant s → instant + manual_refresh_cooldown ≤ now))

  request_refresh-Paced :
      manual_available s.cache now s.local_failure ≡ none
      → Paced none (request_refresh server writable none now s).1
  request_refresh-Paced a =
      elim (Bool-cases
        (extends s.cache.manual_refresh_available_at (now + manual_refresh_cooldown))) [
          | inr e ↦ rw e (
              inr (
                refl,
                extended now s.cache.manual_refresh_available_at e,
                λ instant h. manual_available-Held instant now s a h,
              ))
          | inl e ↦ elim (Bool-cases writable) [
            | inl w ↦
                rw (e, w)
                  (inr (
                    refl,
                    (now + manual_refresh_cooldown, refl, omega arith),
                    λ instant h. manual_available-Held instant now s a h,
                  ))
            | inr w ↦ rw (e, w) (inl refl)
          ]
        ]

  refresh_recent_series-Paced :
      Paced (live_task s.refresh_task) (refresh_recent_series server writable now s).1
  refresh_recent_series-Paced = elim (Bool-cases s.closed) [
    | inl c ↦ rw (refresh_recent_series_closed c) (inl (started_self (live_task s.refresh_task)))
    | inr c ↦ elim (Option-cases (live_task s.refresh_task)) [
      | inr (task, t) ↦ inl (rw t refl)
      | inl t ↦ elim (Option-cases (manual_available s.cache now s.local_failure)) [
        | inr (at, a) ↦ inl (rw (refresh_recent_series_open c, t, a) refl)
        | inl a ↦ rw (refresh_recent_series_open c, t, a) (request_refresh-Paced a)
      ]
    ]
  ]

apply_call-Held :
    (instant : ℕ) (call : Call) (s : HomepageRecentSeriesService)
    → IsHeld instant s
    → IsHeld instant (apply_call call s)
unfolding apply_call aclose
apply_call-Held instant (get requested_at now server first entry) s h =
    rw (get_recent_series_cache server requested_at now first entry s) h
apply_call-Held instant (manual_refresh writable now server) s h =
    refresh_recent_series-Held server writable now s instant h
apply_call-Held instant (finish load writable now server) s h =
    rw (finish_refresh_manual server load now writable s) h
apply_call-Held instant close s h = h

manual_starts-SpacedAfter :
    (calls : List Call) (instant : ℕ) (s : HomepageRecentSeriesService)
    → IsHeld instant s
    → SpacedAfter instant (manual_starts calls s)
unfolding manual_starts apply_call
manual_starts-SpacedAfter [] instant s h = tt
manual_starts-SpacedAfter (manual_refresh writable now server ∷ calls) instant s h =
    elim (refresh_recent_series-Paced server writable now s) [
      | inl q ↦ rw q (
          manual_starts-SpacedAfter calls instant _
            (refresh_recent_series-Held server writable now s instant h))
      | inr (q, holds, paced) ↦ rw q (paced instant h, manual_starts-SpacedAfter calls now _ holds)
    ]
manual_starts-SpacedAfter (get requested_at now server first entry ∷ calls) instant s h =
    manual_starts-SpacedAfter calls instant _
      (apply_call-Held instant (get requested_at now server first entry) s h)
manual_starts-SpacedAfter (finish load writable now server ∷ calls) instant s h =
    manual_starts-SpacedAfter calls instant _
      (apply_call-Held instant (finish load writable now server) s h)
manual_starts-SpacedAfter (close ∷ calls) instant s h =
    manual_starts-SpacedAfter calls instant _ (apply_call-Held instant close s h)

pub manual_starts-Spaced :
    (calls : List Call) (s : HomepageRecentSeriesService) → Spaced (manual_starts calls s)
unfolding manual_starts apply_call
manual_starts-Spaced [] s = tt
manual_starts-Spaced (manual_refresh writable now server ∷ calls) s =
    elim (refresh_recent_series-Paced server writable now s) [
      | inl q ↦ rw q (manual_starts-Spaced calls _)
      | inr (q, holds, paced) ↦ rw q (manual_starts-SpacedAfter calls now _ holds)
    ]
manual_starts-Spaced (get requested_at now server first entry ∷ calls) s =
    manual_starts-Spaced calls _
manual_starts-Spaced (finish load writable now server ∷ calls) s = manual_starts-Spaced calls _
manual_starts-Spaced (close ∷ calls) s = manual_starts-Spaced calls _
