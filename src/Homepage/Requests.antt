-- ===== src/Homepage/Requests.antt =====
-- What a request for the recent series makes of the state.
use dota_mind.Prelude.{
  ℕ, ◌≡◌, refl, ap, ◌∙◌, ◌⊎◌, inl, inr, Bool, true, false, Option, none, some, if◌then◌else◌,
  Bool-cases,
}
use dota_mind.Homepage.Model.{failure_cooldown_active, is_fresh, RecentSeriesCacheEntry}
use dota_mind.Homepage.Service.{
  RefreshTask, HomepageRecentSeriesService, Reply, get_recent_series, get_with, live_task,
}

pub if_false {ℓ} :
    {A : Type ℓ} {test : Bool} (x : A) {y : A} → test ≡ false → (if test then x else y) ≡ y
if_false x h = rw h refl

if_true {ℓ} : {A : Type ℓ} {test : Bool} {x : A} (y : A) → test ≡ true → (if test then x else y) ≡ x
if_true y h = rw h refl

-- The state after a request for what there is: the one before, or what its decision under the lock
-- makes of it.
pub get_recent_series_cases :
    (server requested_at now : ℕ) (first entry : RecentSeriesCacheEntry)
    (s : HomepageRecentSeriesService)
    → ((get_recent_series server requested_at now first entry s).1 ≡ s)
      ⊎ ((get_recent_series server requested_at now first entry s).1
          ≡ (get_with server now (live_task s.refresh_task) entry s).1)
unfolding get_recent_series
get_recent_series_cases server requested_at now first entry s =
    elim (Bool-cases (is_fresh first.snapshot requested_at)) [
      | inl e ↦ inl (rw e refl)
      | inr e ↦ elim (Bool-cases (is_fresh entry.snapshot now)) [
        | inl f ↦
            inl (ap (λ (r : Reply × HomepageRecentSeriesService). r.1) (if_false _ e ∙ if_true _ f))
        | inr f ↦ elim (Bool-cases s.closed) [
          | inl c ↦ inl (
              ap (λ (r : Reply × HomepageRecentSeriesService). r.1)
                (if_false _ e ∙ if_false _ f ∙ if_true _ c))
          | inr c ↦ inr (
              ap (λ (r : Reply × HomepageRecentSeriesService). r.1)
                (if_false _ e ∙ if_false _ f ∙ if_false _ c))
        ]
      ]
    ]

get_with_cache :
    (server now : ℕ) (task : Option RefreshTask) (entry : RecentSeriesCacheEntry)
    (s : HomepageRecentSeriesService)
    → (get_with server now task entry s).1.cache ≡ s.cache
get_with_cache server now (some task) entry s = refl
get_with_cache server now none entry s =
    elim (Bool-cases (failure_cooldown_active entry now s.local_failure)) [
      | inl f ↦ rw f refl
      | inr f ↦ rw f refl
    ]

-- A request for what there is leaves the cache alone.
pub get_recent_series_cache :
    (server requested_at now : ℕ) (first entry : RecentSeriesCacheEntry)
    (s : HomepageRecentSeriesService)
    → (get_recent_series server requested_at now first entry s).1.cache ≡ s.cache
get_recent_series_cache server requested_at now first entry s =
    elim (get_recent_series_cases server requested_at now first entry s) [
      | inl e ↦ rw e refl
      | inr e ↦ rw e (get_with_cache server now (live_task s.refresh_task) entry s)
    ]
