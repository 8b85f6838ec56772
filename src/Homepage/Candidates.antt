-- ===== src/Homepage/Candidates.antt =====
-- recent_series.py: `_build_candidate` and `_resolve_team_name`. What the provider answers is given by
-- functions; `none` is an error of the provider.
use dota_mind.Prelude.{
  Bool, false, String, str_eq, Option, none, some, List, [], ◌∷◌, if◌then◌else◌,
}
use dota_mind.Prelude.Int.{ℤ, int_eq}
use dota_mind.Homepage.Model.{
  SeriesLifecycle, running, past, ChampionSource, series, tournament, RecentSeriesCandidate,
}
use dota_mind.Homepage.Select.{SeriesLifecycleItem}

pub record TournamentWinnerSource : Type 0 where
  pub id : ℤ
  pub name : Option String
  pub winner_id : Option ℤ
  pub winner_type : Option String

-- What is read of a team that a search finds.
pub record TeamItem : Type 0 where
  pub id : ℤ
  pub name : String

abbrev pub team_named : ℤ → List TeamItem → Option String
team_named team_id [] = none
team_named team_id (team ∷ teams) =
    let rest = team_named team_id teams in if int_eq team.id team_id then some team.name else rest

abbrev pub text_or_none : String → Option String
text_or_none name = if str_eq name "" then none else some name

abbrev pub stripped : (String → String) → Option String → Option String
stripped strip none = none
stripped strip (some name) = text_or_none (strip name)

abbrev pub named_of : (String → String) → ℤ → Option (List TeamItem) → Option String
named_of strip team_id none = none
named_of strip team_id (some teams) = stripped strip (team_named team_id teams)

-- `_resolve_team_name`.
abbrev pub resolve_team_name : (String → String) → (ℤ → Option (List TeamItem)) → ℤ → Option String
resolve_team_name strip search_team team_id = named_of strip team_id (search_team team_id)

-- The name of the champion, where it is from, and the tournament.
pub record Champion : Type 0 where
  pub champion_name : Option String
  pub source : Option ChampionSource
  pub tournament_id : Option ℤ

abbrev pub no_champion : Champion
no_champion = record { champion_name = none; source = none; tournament_id = none }

abbrev pub series_champion : Option String → Champion
series_champion none = no_champion
series_champion (some name) = record {
  champion_name = some name;
  source = some series;
  tournament_id = none;
}

abbrev pub tournament_champion : ℤ → Option String → Champion
tournament_champion id none = no_champion
tournament_champion id (some name) = record {
  champion_name = some name;
  source = some tournament;
  tournament_id = some id;
}

abbrev pub is_team : Option String → Bool
is_team none = false
is_team (some winner_type) = str_eq winner_type "Team"

-- `value or other`, of texts that may be absent.
abbrev pub text_or : Option String → Option String → Option String
text_or none other = other
text_or (some text) other = if str_eq text "" then other else some text

module _ (strip casefold : String → String) (team_name : ℤ → Option String) where
  -- `(source.name or "").strip().casefold() == "playoffs"`.
  abbrev pub is_playoffs : Option String → Bool
  is_playoffs none = str_eq (casefold (strip "")) "playoffs"
  is_playoffs (some name) = str_eq (casefold (strip name)) "playoffs"

  abbrev pub playoffs_of : List TournamentWinnerSource → Option TournamentWinnerSource
  playoffs_of [] = none
  playoffs_of (source ∷ sources) =
      let rest = playoffs_of sources in if is_playoffs source.name then some source else rest

  abbrev pub champion_of_winner : ℤ → Option ℤ → Champion
  champion_of_winner id none = no_champion
  champion_of_winner id (some winner_id) = tournament_champion id (team_name winner_id)

  abbrev pub champion_of_playoffs : Option TournamentWinnerSource → Champion
  champion_of_playoffs none = no_champion
  champion_of_playoffs (some source) =
      if is_team source.winner_type
      then champion_of_winner source.id source.winner_id
      else no_champion

  abbrev pub or_no_sources : Option (List TournamentWinnerSource) → List TournamentWinnerSource
  or_no_sources none = []
  or_no_sources (some sources) = sources

  module _ (list_tournament_winner_sources : ℤ → Option (List TournamentWinnerSource)) where
    abbrev pub past_champion : SeriesLifecycleItem → Option ℤ → Champion
    past_champion item (some winner_id) =
        if is_team item.winner_type then series_champion (team_name winner_id) else no_champion
    past_champion item none =
        champion_of_playoffs (playoffs_of (or_no_sources (list_tournament_winner_sources item.id)))

    abbrev pub champion_of : SeriesLifecycleItem → SeriesLifecycle → Champion
    champion_of item running = no_champion
    champion_of item past = past_champion item item.winner_id

    -- `_build_candidate`.
    unfoldable pub build_candidate : SeriesLifecycleItem → SeriesLifecycle → RecentSeriesCandidate
    build_candidate item lifecycle =
        let champion = champion_of item lifecycle in
        record {
          series_id = item.id;
          name = text_or item.full_name item.name;
          league_name = item.league_name;
          lifecycle = lifecycle;
          begin_at = item.begin_at;
          end_at = item.end_at;
          champion_name = champion.champion_name;
          champion_source = champion.source;
          champion_tournament_id = champion.tournament_id;
        }
