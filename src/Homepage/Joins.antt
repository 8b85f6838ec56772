-- ===== src/Homepage/Joins.antt =====
-- Requests beside a running refresh.
use dota_mind.Prelude.{
  ℕ, ◌+◌, ◌≡◌, refl, sym, ◌∙◌, inl, inr, Bool, Option, none, some, Option-cases, List, [], ◌∷◌,
  Bool-cases,
}
use dota_mind.Homepage.Model.{manual_refresh_cooldown, RecentSeriesCacheEntry}
use dota_mind.Homepage.Service.{
  RefreshTask, HomepageRecentSeriesService, get_recent_series, refresh_recent_series, live_task,
  extends, request_refresh,
}
use dota_mind.Homepage.Calls.{Call, get, manual_refresh, finish, close, apply_call}
use dota_mind.Homepage.Requests.{if_false, get_recent_series_cases}
use dota_mind.Homepage.Cooldown.{
  manual_starts, manual_starts-Spaced, Spaced, refresh_recent_series_open,
  refresh_recent_series_closed,
}

-- A task that runs goes on to be the one that runs.
abbrev pub Joined : Option RefreshTask → Option RefreshTask → Type 0
Joined none after = Unit
Joined (some task) after = after ≡ some task

-- No request replaces the task that runs when it comes.
abbrev pub Joins : List Call → HomepageRecentSeriesService → Type 0
Joins [] s = Unit
Joins (get requested_at now server first entry ∷ calls) s =
    let s' = apply_call (get requested_at now server first entry) s in
    Joined (live_task s.refresh_task) (live_task s'.refresh_task) × Joins calls s'
Joins (manual_refresh writable now server ∷ calls) s =
    let s' = apply_call (manual_refresh writable now server) s in
    Joined (live_task s.refresh_task) (live_task s'.refresh_task) × Joins calls s'
Joins (call ∷ calls) s = Joins calls (apply_call call s)

Joined-same : (task : Option RefreshTask) → Joined task task
Joined-same none = tt
Joined-same (some task) = refl

Joined-none : (before after : Option RefreshTask) → before ≡ none → Joined before after
Joined-none before after h = rw h tt

live_task-some :
    (o : Option RefreshTask) (task : RefreshTask)
    → live_task o ≡ some task
    → live_task (some task) ≡ some task
live_task-some none task h = cc h
live_task-some (some t) task h = elim (Bool-cases t.done) [
  | inl e ↦ cc (rw e at h)
  | inr e ↦
      let same : some t ≡ some task = sym (if_false none e) ∙ h in
      let q : t ≡ task = cc same in rw (sym q) (if_false none e)
]

request_refresh_task :
    (server : ℕ) (writable : Bool) (task : RefreshTask) (started_at : ℕ)
    (s : HomepageRecentSeriesService)
    → (request_refresh server writable (some task) started_at s).1.refresh_task ≡ some task
request_refresh_task server writable task started_at s =
    elim (Bool-cases
      (extends s.cache.manual_refresh_available_at (started_at + manual_refresh_cooldown))) [
        | inr e ↦ rw e refl
        | inl e ↦ elim (Bool-cases writable) [ inl w ↦ rw (e, w) refl | inr w ↦ rw (e, w) refl ]
      ]

refresh_recent_series-Joined :
    (server : ℕ) (writable : Bool) (now : ℕ) (s : HomepageRecentSeriesService)
    → Joined
        (live_task s.refresh_task)
        (live_task (refresh_recent_series server writable now s).1.refresh_task)
refresh_recent_series-Joined server writable now s =
    elim (Option-cases (live_task s.refresh_task)) [
      | inl t ↦ Joined-none (live_task s.refresh_task) _ t
      | inr (task, t) ↦ elim (Bool-cases s.closed) [
        | inl c ↦
            rw (refresh_recent_series_closed server writable now s c)
              (Joined-same (live_task s.refresh_task))
        | inr c ↦
            rw
              (
                refresh_recent_series_open server writable now s c,
                t,
                request_refresh_task server writable task task.started_at s,
              )
              (live_task-some s.refresh_task task t)
      ]
    ]

get_recent_series-Joined :
    (server requested_at now : ℕ) (first entry : RecentSeriesCacheEntry)
    (s : HomepageRecentSeriesService)
    → Joined
        (live_task s.refresh_task)
        (live_task (get_recent_series server requested_at now first entry s).1.refresh_task)
get_recent_series-Joined server requested_at now first entry s =
    elim (Option-cases (live_task s.refresh_task)) [
      | inl t ↦ Joined-none (live_task s.refresh_task) _ t
      | inr (task, t) ↦ elim (get_recent_series_cases server requested_at now first entry s) [
        | inl e ↦ rw e (Joined-same (live_task s.refresh_task))
        | inr e ↦ rw (e, t) t
      ]
    ]

requests-Joins : (calls : List Call) (s : HomepageRecentSeriesService) → Joins calls s
unfolding apply_call
requests-Joins [] s = tt
requests-Joins (get requested_at now server first entry ∷ calls) s =
    (get_recent_series-Joined server requested_at now first entry s, requests-Joins calls _)
requests-Joins (manual_refresh writable now server ∷ calls) s =
    (refresh_recent_series-Joined server writable now s, requests-Joins calls _)
requests-Joins (finish load writable now server ∷ calls) s = requests-Joins calls _
requests-Joins (close ∷ calls) s = requests-Joins calls _

-- Whatever is called, and whether or not the cache takes the writes: any two refreshes that manual
-- requests start one after the other start at least 60 seconds apart, as the requests read the clock,
-- and no request, manual or not, replaces a refresh that is running when it comes.
pub manual_starts-Joins :
    (calls : List Call) (s : HomepageRecentSeriesService)
    → Spaced (manual_starts calls s) × Joins calls s
manual_starts-Joins calls s = (manual_starts-Spaced calls s, requests-Joins calls s)
