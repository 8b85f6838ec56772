-- ===== src/Lifecycle/Cover.antt =====
-- `_replacement_reason`: whether a later observation shows what an earlier one does.
use dota_mind.Prelude.{
  ℕ, ◌-◌, ◌==◌, ltb, ◌&&◌, ◌||◌, not, Bool, true, false, String, str_eq, Option, none, some, List,
  [], length, take, drop, if◌then◌else◌,
}
use dota_mind.Json.{Value, arr, to_list, of_list, same_value, same_items}
use dota_mind.Lifecycle.Observe.{ObservationKind, ArtifactObservation}

pub data Reason : Type 0 where
  duplicate superseded : Reason

abbrev pub same_path : Option String → Option String → Bool
same_path none none = true
same_path (some p) (some q) = str_eq p q
same_path _ _ = false

abbrev pub same_index : Option ℕ → Option ℕ → Bool
same_index none none = true
same_index (some n) (some k) = n == k
same_index _ _ = false

abbrev pub same_observation_kind : ObservationKind → ObservationKind → Bool
same_observation_kind ObservationKind.outline ObservationKind.outline = true
same_observation_kind ObservationKind.list_slice ObservationKind.list_slice = true
same_observation_kind ObservationKind.value ObservationKind.value = true
same_observation_kind _ _ = false

abbrev pub is_slice : ObservationKind → Bool
is_slice ObservationKind.list_slice = true
is_slice _ = false

-- `_is_exact_duplicate`.
unfoldable pub is_exact_duplicate : ArtifactObservation → ArtifactObservation → Bool
is_exact_duplicate old new =
    str_eq old.ref new.ref
    && same_path old.path new.path
    && same_observation_kind old.kind new.kind
    && same_index old.actual_start new.actual_start
    && same_index old.actual_end new.actual_end
    && same_value old.value new.value

abbrev pub items_of : Value → List Value
items_of (arr items) = to_list items
items_of _ = []

-- `new[start:end] == old` for `end = start + len(old)`. Python's `==` on lists of JSON values is
-- symmetric; the earlier value stands first, as it does for duplicates.
abbrev pub slice_matches : ℕ → List Value → List Value → Bool
slice_matches start new old =
    same_items (of_list old) (of_list (take (length old) (drop start new)))

-- The ranges of two slices, and their items.
abbrev pub range_covers : Option ℕ → Option ℕ → Option ℕ → Option ℕ → List Value → List Value → Bool
range_covers (some old_start) (some old_end) (some new_start) (some new_end) old new =
    not (old_start == new_start && old_end == new_end)
    && not (ltb old_start new_start || ltb new_end old_end)
    && slice_matches (old_start - new_start) new old
range_covers _ _ _ _ old new = false

-- `_is_full_superset`.
unfoldable pub is_full_superset : ArtifactObservation → ArtifactObservation → Bool
is_full_superset old new =
    str_eq old.ref new.ref
    && same_path old.path new.path
    && is_slice old.kind
    && is_slice new.kind
    && range_covers old.actual_start old.actual_end new.actual_start new.actual_end
        (items_of old.value) (items_of new.value)

-- `_replacement_reason`.
unfoldable pub replacement_reason : ArtifactObservation → ArtifactObservation → Option Reason
replacement_reason old new =
    if is_exact_duplicate old new
    then some Reason.duplicate
    else if is_full_superset old new
    then some Reason.superseded
    else none
