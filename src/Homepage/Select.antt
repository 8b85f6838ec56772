-- ===== src/Homepage/Select.antt =====
-- recent_series.py: `_select_candidates`.
use dota_mind.Prelude.{
  ℕ, zero, suc, ltb, Bool, true, false, String, Option, none, some, List, [], ◌∷◌, ◌++◌, map, any,
  if◌then◌else◌,
}
use dota_mind.Prelude.Int.{ℤ, int_eq}
use dota_mind.Prelude.Sort.{sort_onto}
use dota_mind.Homepage.Model.{SeriesLifecycle, running, past, candidate_limit}

-- What is read of a series of the provider.
pub record SeriesLifecycleItem : Type 0 where
  pub id : ℤ
  pub name : Option String
  pub full_name : Option String
  pub league_name : Option String
  pub begin_at : Option ℕ
  pub end_at : Option ℕ
  pub winner_id : Option ℤ
  pub winner_type : Option String

-- The order of `_sort_by_date`: the latest first, and those without a date last.
abbrev pub later_date : Option ℕ → Option ℕ → Bool
later_date none date = false
later_date (some instant) none = true
later_date (some instant) (some other) = ltb other instant

abbrev pub sort_by_date :
    (SeriesLifecycleItem → Option ℕ) → List SeriesLifecycleItem → List SeriesLifecycleItem
sort_by_date field items = sort_onto (λ a b. later_date (field a) (field b)) [] items

abbrev pub Selected : Type 0
Selected = SeriesLifecycleItem × SeriesLifecycle

abbrev pub has_id : ℤ → List ℤ → Bool
has_id id seen = any (int_eq id) seen

-- The loop over the ordered candidates, with the ids that were seen and how many it may still take.
unfoldable pub select_from : List ℤ → ℕ → List Selected → List Selected
select_from seen left [] = []
select_from seen zero (candidate ∷ rest) = []
select_from seen (suc left) (candidate ∷ rest) =
    let skipped = select_from seen (suc left) rest in
    let more = select_from (candidate.0.id ∷ seen) left rest in
    if has_id candidate.0.id seen then skipped else candidate ∷ more

abbrev pub ordered : List SeriesLifecycleItem → List SeriesLifecycleItem → List Selected
ordered in_progress finished =
    map (λ item. (item, running))
      (sort_by_date (λ (i : SeriesLifecycleItem). i.begin_at) in_progress)
    ++ map (λ item. (item, past)) (sort_by_date (λ (i : SeriesLifecycleItem). i.end_at) finished)

-- `_select_candidates`.
unfoldable pub select_candidates :
    List SeriesLifecycleItem → List SeriesLifecycleItem → List Selected
unfolding select_from
select_candidates in_progress finished =
    select_from [] candidate_limit (ordered in_progress finished)
