-- ===== src/Homepage/Quiet.antt =====
-- Histories without a publication: what a failed refresh holds off.
use dota_mind.Prelude.{
  ℕ, ◌+◌, ◌≤◌, ◌≡◌, refl, sym, subst, ◌⊎◌, inl, inr, Bool, true, false, Option, none, some, List,
  [], ◌∷◌, ◌++◌, arith, All, All-append,
}
use dota_mind.Homepage.Model.{refresh_time, RecentSeriesCacheEntry, failure_times}
use dota_mind.Homepage.Service.{
  RefreshTask, HomepageRecentSeriesService, LoadResult, loaded, provider_error, crashed,
  get_recent_series, refresh_recent_series, finish_refresh, perform_refresh, aclose, live_task,
  end_task, cancelled_task,
}
use dota_mind.Homepage.Calls.{
  Call, get, manual_refresh, finish, close, apply_call, new_starts, started,
}
use dota_mind.Homepage.Failures.{
  times, fails, NoneAfter, Cooling, Respects, get_recent_series-Respects,
  refresh_recent_series-Respects,
}
use dota_mind.Homepage.Ends.{
  perform_refresh-Cooling, NoneAfter-later, perform_refresh_local, Cools, Cools-later,
}

-- Every start, of a manual request or of another one.
unfoldable pub all_starts : List Call → HomepageRecentSeriesService → List ℕ
unfolding apply_call
all_starts [] s = []
all_starts (call ∷ calls) s = let s' = apply_call call s in new_starts s s' ++ all_starts calls s'

-- One of the entries that the cache held.
abbrev pub IsOneOf : RecentSeriesCacheEntry → List RecentSeriesCacheEntry → Type 0
IsOneOf entry [] = ⊥
IsOneOf entry (x ∷ xs) = (entry ≡ x) ⊎ IsOneOf entry xs

-- The calls come one after another, none before an instant, no refresh publishes, and each request
-- decides with an entry that the cache holds or held before, in this history.
abbrev pub Quiet :
    ℕ → List RecentSeriesCacheEntry → List Call → HomepageRecentSeriesService → Type 0
Quiet from held [] s = Unit
Quiet from held (get requested_at now server first entry ∷ calls) s =
    (from ≤ now)
    × IsOneOf entry (s.cache ∷ held)
    × Quiet now (s.cache ∷ held) calls (apply_call (get requested_at now server first entry) s)
Quiet from held (manual_refresh writable now server ∷ calls) s =
    (from ≤ now)
    × Quiet now (s.cache ∷ held) calls (apply_call (manual_refresh writable now server) s)
Quiet from held (finish (loaded items) writable now server ∷ calls) s =
    (from ≤ now)
    × (writable ≡ false)
    × Quiet now (s.cache ∷ held) calls (apply_call (finish (loaded items) writable now server) s)
Quiet from held (finish load writable now server ∷ calls) s =
    (from ≤ now) × Quiet now (s.cache ∷ held) calls (apply_call (finish load writable now server) s)
Quiet from held (close ∷ calls) s = Quiet from (s.cache ∷ held) calls (apply_call close s)

All-IsOneOf :
    (P : RecentSeriesCacheEntry → Type 0) (entry : RecentSeriesCacheEntry)
    (entries : List RecentSeriesCacheEntry)
    → All P entries
    → IsOneOf entry entries
    → P entry
All-IsOneOf P entry [] all one = absurd one
All-IsOneOf P entry (x ∷ xs) (h, all) (inl e) = subst P (sym e) h
All-IsOneOf P entry (x ∷ xs) (h, all) (inr one) = All-IsOneOf P entry xs all one

-- Failures since an instant go on to count, under every entry so far, and what starts is a refresh
-- time after the instant.
abbrev Keeps :
    ℕ → ℕ → Option RefreshTask → List RecentSeriesCacheEntry → HomepageRecentSeriesService → Type 0
Keeps instant now before held s =
    All (λ start. instant + refresh_time ≤ start) (started before (live_task s.refresh_task))
    × All (Cools instant now s.local_failure) (s.cache ∷ held)

module _ (instant from : ℕ) (held : List RecentSeriesCacheEntry) (s : HomepageRecentSeriesService)
    (before : instant ≤ from) (h : All (Cools instant from s.local_failure) (s.cache ∷ held)) where
  Respects-Keeps :
      (now : ℕ) (failures : List ℕ) (s' : HomepageRecentSeriesService)
      → from ≤ now
      → Cooling instant failures
      → Respects instant failures s (live_task s.refresh_task) s'
      → Keeps instant now (live_task s.refresh_task) (s.cache ∷ held) s'
  Respects-Keeps now failures s' later cool (starts, same, attempt, local) = (
    starts cool,
    (
      (rw same h.0.0, rw attempt (NoneAfter-later from now s.cache.last_attempt_at later h.0.1)),
      Cools-later instant from now s.local_failure s'.local_failure (omega (arith, before, later))
          later (inl local) (s.cache ∷ held) h,
    ),
  )

  end_task-Keeps :
      (now server : ℕ) (load : LoadResult) (writable : Bool) (task : Option RefreshTask)
      → live_task s.refresh_task ≡ task
      → (fails load writable ≡ true) ⊎ (load ≡ crashed)
      → from ≤ now
      → Keeps instant now task (s.cache ∷ held) (end_task server task load now writable s).1
  end_task-Keeps now server load writable none t why later = (
    rw t tt,
    (
      (h.0.0, NoneAfter-later from now s.cache.last_attempt_at later h.0.1),
      Cools-later instant from now s.local_failure s.local_failure (omega (arith, before, later))
          later (inl refl) (s.cache ∷ held) h,
    ),
  )
  end_task-Keeps now server load writable (some task) t why later =
      let cooling =
        perform_refresh-Cooling instant server now s task.previous load writable
          (omega (arith, before, later))
          (NoneAfter-later from now s.cache.last_attempt_at later h.0.1)
          (elim why [ inl e ↦ inl e | inr e ↦ inr (h.0.0, e) ]) in
      (
        tt,
        (
          cooling,
          Cools-later instant from now s.local_failure
              (perform_refresh server task.previous load now writable s).1.local_failure
              (omega (arith, before, later)) later
              (perform_refresh_local server now s task.previous load writable why) (s.cache ∷ held)
              h,
        ),
      )

  finish_refresh-Keeps :
      (now server : ℕ) (load : LoadResult) (writable : Bool)
      → (fails load writable ≡ true) ⊎ (load ≡ crashed)
      → from ≤ now
      → Keeps instant now
          (live_task s.refresh_task)
          (s.cache ∷ held)
          (finish_refresh server load now writable s).1
  unfolding finish_refresh
  finish_refresh-Keeps now server load writable why later =
      end_task-Keeps now server load writable (live_task s.refresh_task) refl why later

  aclose-Keeps : Keeps instant from (live_task s.refresh_task) (s.cache ∷ held) (aclose s)
  unfolding aclose
  aclose-Keeps = (nothing (live_task s.refresh_task) s.refresh_task, (h.0, h))
    where
      nothing :
          (live task : Option RefreshTask)
          → All
              (λ start. instant + refresh_time ≤ start)
              (started live (live_task (cancelled_task task)))
      nothing none none = tt
      nothing none (some task) = tt
      nothing (some live) task = tt

module _ (instant from : ℕ) (calls : List Call) (held : List RecentSeriesCacheEntry)
    (s : HomepageRecentSeriesService) (before : instant ≤ from)
    (h : All (Cools instant from s.local_failure) (s.cache ∷ held)) where
  -- One call of a history without a publication, and when it is made.
  apply_call-Keeps :
      (call : Call)
      → Quiet from held (call ∷ calls) s
      → (now : ℕ) × (from ≤ now)
        × Quiet now (s.cache ∷ held) calls (apply_call call s)
        × Keeps instant now (live_task s.refresh_task) (s.cache ∷ held) (apply_call call s)
  unfolding apply_call
  apply_call-Keeps (get requested_at now server first entry) (later, one, quiet) = (
    now,
    later,
    quiet,
    Respects-Keeps instant from held s before h now (failure_times entry s.local_failure)
        (get_recent_series server requested_at now first entry s).1 later
        (All-IsOneOf (Cools instant from s.local_failure) entry (s.cache ∷ held) h one).0
        (get_recent_series-Respects instant server now s entry requested_at first),
  )
  apply_call-Keeps (manual_refresh writable now server) (later, quiet) = (
    now,
    later,
    quiet,
    Respects-Keeps instant from held s before h now (times s)
        (refresh_recent_series server writable now s).1 later h.0.0
        (refresh_recent_series-Respects instant server now s writable),
  )
  apply_call-Keeps (finish (loaded items) writable now server) (later, w, quiet) = (
    now,
    later,
    quiet,
    finish_refresh-Keeps instant from held s before h now server (loaded items) writable
        (inl (rw w refl)) later,
  )
  apply_call-Keeps (finish (provider_error code) writable now server) (later, quiet) = (
    now,
    later,
    quiet,
    finish_refresh-Keeps instant from held s before h now server (provider_error code) writable
        (inl refl) later,
  )
  apply_call-Keeps (finish crashed writable now server) (later, quiet) = (
    now,
    later,
    quiet,
    finish_refresh-Keeps instant from held s before h now server crashed writable (inr refl) later,
  )
  apply_call-Keeps close quiet =
      (from, omega arith, quiet, aclose-Keeps instant from held s before h)

-- In a history without a publication no refresh starts within the refresh time of a failure.
starts_after_failure :
    (instant from : ℕ) (calls : List Call) (held : List RecentSeriesCacheEntry)
    (s : HomepageRecentSeriesService)
    → instant ≤ from
    → Quiet from held calls s
    → All (Cools instant from s.local_failure) (s.cache ∷ held)
    → All (λ start. instant + refresh_time ≤ start) (all_starts calls s)
unfolding all_starts
starts_after_failure instant from [] held s before quiet h = tt
starts_after_failure instant from (call ∷ calls) held s before quiet h =
    let (now, later, rest, (starts, kept)) =
      apply_call-Keeps instant from calls held s before h call quiet in
    let s' = apply_call call s in
    All-append (λ start. instant + refresh_time ≤ start) (new_starts s s') (all_starts calls s')
      starts
      (starts_after_failure instant now calls (s.cache ∷ held) s' (omega (arith, before, later))
        rest kept)

-- A refresh that runs ends at an instant with an error of the provider, or with a publication that the
-- cache does not take; the cache, before, records no attempt after that instant. Then each refresh
-- that starts later starts at least 600 seconds after the instant, as long as the clock goes on, no
-- refresh publishes, and each request decides with an entry that the cache has held since, be it the
-- one it holds or one from before the end of a later refresh.
pub finish_refresh-all_starts :
    (server at : ℕ) (load : LoadResult) (writable : Bool) (calls : List Call)
    (s : HomepageRecentSeriesService) {task : RefreshTask}
    → live_task s.refresh_task ≡ some task
    → fails load writable ≡ true
    → NoneAfter at s.cache.last_attempt_at
    → Quiet at [] calls (finish_refresh server load at writable s).1
    → All
        (λ start. at + refresh_time ≤ start)
        (all_starts calls (finish_refresh server load at writable s).1)
unfolding finish_refresh
finish_refresh-all_starts server at load writable calls s {task} t failed past quiet =
    let now =
      perform_refresh-Cooling at server at s task.previous load writable (omega arith) past
        (inl failed) in
    let end = (end_task server (some task) load at writable s).1 in
    let quiet' : Quiet at [] calls end = rw t at quiet in
    rw t (starts_after_failure at at calls [] end (omega arith) quiet' (now, tt))
