-- ===== src/Homepage/Ends.antt =====
-- How the end of a refresh leaves the failures that count.
use dota_mind.Prelude.{
  ℕ, ◌≤◌, ◌≡◌, refl, ◌⊎◌, inl, inr, leb, Bool, true, false, String, Option, none, some, List, [],
  ◌∷◌, ◌++◌, arith, All,
}
use dota_mind.Homepage.Model.{
  failure_times, RecentSeriesCacheEntry, LocalFailure, recorded_failure, current_local,
}
use dota_mind.Homepage.Service.{
  HomepageRecentSeriesService, LoadResult, loaded, provider_error, crashed, perform_refresh,
}
use dota_mind.Homepage.Failures.{times, fails, NoneAfter, Cooling, any-append_right}

module _ (instant now : ℕ) where
  -- A failure counts at once.
  pub local_failure-Cooling :
      (recorded : List ℕ) (attempt : Option ℕ)
      → instant ≤ now
      → NoneAfter now attempt
      → (code : String) → Cooling instant (recorded ++ current_local (some (now, code)) attempt)
  local_failure-Cooling recorded none h past code =
      any-append_right (leb instant) recorded (now ∷ []) (ground (arith, h))
  local_failure-Cooling recorded (some attempt) h past code =
      let e : leb attempt now ≡ true = ground (arith, past) in
      any-append_right (leb instant) recorded _ (rw e (ground (arith, h)))

  recorded_failure-Cooling : (later : List ℕ) → instant ≤ now → Cooling instant (now ∷ later)
  recorded_failure-Cooling later h = let e : leb instant now ≡ true = ground (arith, h) in rw e refl

module _ (instant server now : ℕ) (s : HomepageRecentSeriesService) where
  pub perform_refresh-Cooling :
      (previous : RecentSeriesCacheEntry) (load : LoadResult) (writable : Bool)
      → instant ≤ now
      → NoneAfter now s.cache.last_attempt_at
      → (fails load writable ≡ true) ⊎ (Cooling instant (times s) × (load ≡ crashed))
      → Cooling instant (times (perform_refresh server previous load now writable s).1)
        × NoneAfter now
            (perform_refresh server previous load now writable s).1.cache.last_attempt_at
  unfolding perform_refresh
  perform_refresh-Cooling previous crashed writable h past (inl e) = cc e
  perform_refresh-Cooling previous crashed writable h past (inr k) = (k.0, past)
  perform_refresh-Cooling previous (provider_error code) true h past why =
      (recorded_failure-Cooling instant now _ h, omega arith)
  perform_refresh-Cooling previous (provider_error code) false h past why = (
    local_failure-Cooling instant now (recorded_failure s.cache.last_error s.cache.last_attempt_at)
        s.cache.last_attempt_at h past code,
    past,
  )
  perform_refresh-Cooling previous (loaded items) true h past (inl e) = cc e
  perform_refresh-Cooling previous (loaded items) true h past (inr k) = cc (k.1)
  perform_refresh-Cooling previous (loaded items) false h past why = (
    local_failure-Cooling instant now (recorded_failure s.cache.last_error s.cache.last_attempt_at)
        s.cache.last_attempt_at h past "cache_unavailable",
    past,
  )

pub NoneAfter-later :
    (instant now : ℕ) (attempt : Option ℕ)
    → instant ≤ now
    → NoneAfter instant attempt
    → NoneAfter now attempt
NoneAfter-later instant now none h past = tt
NoneAfter-later instant now (some attempt) h past = omega (arith, h, past)

-- An end without a publication leaves the failure that the service keeps, or keeps one of now.
pub perform_refresh_local :
    (server now : ℕ) (s : HomepageRecentSeriesService) (previous : RecentSeriesCacheEntry)
    (load : LoadResult) (writable : Bool)
    → (fails load writable ≡ true) ⊎ (load ≡ crashed)
    → ((perform_refresh server previous load now writable s).1.local_failure ≡ s.local_failure)
      ⊎ ((code : String) × ((perform_refresh server previous load now writable s).1.local_failure
            ≡ some (now, code)))
unfolding perform_refresh
perform_refresh_local server now s previous crashed writable why = inl refl
perform_refresh_local server now s previous (provider_error code) true why = inl refl
perform_refresh_local server now s previous (provider_error code) false why = inr (code, refl)
perform_refresh_local server now s previous (loaded items) true (inl e) = cc e
perform_refresh_local server now s previous (loaded items) true (inr e) = cc e
perform_refresh_local server now s previous (loaded items) false why =
    inr ("cache_unavailable", refl)

-- Under an entry of the cache a failure since an instant counts, and it records no attempt after now.
abbrev pub Cools : ℕ → ℕ → LocalFailure → RecentSeriesCacheEntry → Type 0
Cools instant now local entry =
    Cooling instant (failure_times entry local) × NoneAfter now entry.last_attempt_at

pub Cools-later :
    (instant from now : ℕ) (before after : LocalFailure)
    → instant ≤ now
    → from ≤ now
    → (after ≡ before) ⊎ ((code : String) × (after ≡ some (now, code)))
    → (entries : List RecentSeriesCacheEntry) → All (Cools instant from before) entries
    → All (Cools instant now after) entries
Cools-later instant from now before after h later why [] all = tt
Cools-later instant from now before after h later (inl same) (entry ∷ entries) ((cool, past), all) =
    (
      (rw same cool, NoneAfter-later from now entry.last_attempt_at later past),
      Cools-later instant from now before after h later (inl same) entries all,
    )
Cools-later instant from now before after h later (inr (code, new)) (entry ∷ entries)
      ((cool, past), all) =
    let past' = NoneAfter-later from now entry.last_attempt_at later past in
    (
      (
        rw new (
            local_failure-Cooling instant now
              (recorded_failure entry.last_error entry.last_attempt_at) entry.last_attempt_at h
              past' code),
        past',
      ),
      Cools-later instant from now before after h later (inr (code, new)) entries all,
    )
