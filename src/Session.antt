-- ===== src/Session.antt =====
-- plugins/session/logic.go: the matches of a session and what is counted of them. A time is a number
-- of nanoseconds, 0 the zero time; integers have no bound.
pub mod Split
pub mod Requests
use oof_rl.Prelude.{
  ℕ, ℤ, pos, ◌+ℤ◌, is_neg, Text, codes, Bool, true, false, not, ◌&&◌, ◌||◌, Option, none, some,
  List, [], ◌∷◌, ◌==◌, int_comparable, text_comparable, ltb, nat_beq, lookup, if◌then◌else◌,
}
use oof_rl.Wire.{Float64}
use oof_rl.Dejavu.History.{Value, value_string, value_float64, Row}

-- A row of the table sessions.
pub record SessionRow : Type 0 where
  pub id : ℤ
  pub player_id : Text
  pub started_at : Text
  pub ended_at : Text

pub record Summary : Type 0 where
  pub games : ℤ
  pub wins : ℤ
  pub losses : ℤ
  pub goals : ℤ
  pub assists : ℤ
  pub saves : ℤ
  pub shots : ℤ
  pub demos : ℤ

-- The counters of a SavedSession are its summary.
pub record SavedSession : Type 0 where
  pub row : SessionRow
  pub stats : Summary

pub record SessionMatch : Type 0 where
  pub match_id : ℤ
  pub arena : Text
  pub started_at : Text
  pub winner_team_num : ℤ
  pub incomplete : Bool
  pub forfeit : Bool
  pub player_team : ℤ
  pub goals : ℤ
  pub assists : ℤ
  pub saves : ℤ
  pub shots : ℤ
  pub demos : ℤ
  pub score : ℤ
  pub playlist_type : Option ℤ
  pub player_count : ℤ

-- Code outside: conversion and test of a float64, sdk.ParseTime, time.Parse and Format with RFC 3339,
-- strconv.ParseInt, the JSON of a request's body, the JSON row that the host makes of a row, and the
-- order and limit of the list of sessions.
pub record Runtime : Type 0 where
  pub int_of_float : Float64 → ℤ
  pub is_float_zero : Float64 → Bool
  pub parse_time : Text → ℕ
  pub parse_rfc3339 : Text → Option ℕ
  pub format_rfc3339 : ℕ → Text
  pub parse_id : Text → Option ℤ
  pub body_field : Text → Text → Text
  pub body_error : Text → Option Text
  pub host_row : SessionRow → Row
  pub newest : List SessionRow → List SessionRow

abbrev float_of : Runtime → Option Value → ℤ
float_of rt (some (value_float64 v)) = rt.int_of_float v
float_of rt other = pos 0

abbrev string_of : Option Value → Text
string_of (some (value_string v)) = v
string_of other = []

abbrev bool_of : Runtime → Option Value → Bool
bool_of rt (some (value_float64 v)) = not (rt.is_float_zero v)
bool_of rt other = false

abbrev playlist_of : Runtime → Option Value → Option ℤ
playlist_of rt (some (value_float64 v)) = some (rt.int_of_float v)
playlist_of rt other = none

unfoldable pub row_int : Runtime → Row → Text → ℤ
row_int rt row key = float_of rt (lookup key row)

unfoldable pub row_str : Row → Text → Text
row_str row key = string_of (lookup key row)

-- A float64 that is not there is 0, and so no true.
unfoldable pub row_bool : Runtime → Row → Text → Bool
row_bool rt row key = bool_of rt (lookup key row)

-- The bounds of a session: from `start` on and, unless it is the zero time, before `end`.
unfoldable pub in_session : ℕ → ℕ → ℕ → Bool
in_session start end at = not (ltb at start) && (nat_beq end 0 || ltb at end)

unfoldable pub match_of_row : Runtime → Row → SessionMatch
unfolding row_int row_str row_bool
match_of_row rt row = record {
  match_id = row_int rt row (codes "match_id");
  arena = row_str row (codes "arena");
  started_at = row_str row (codes "started_at");
  winner_team_num = row_int rt row (codes "winner_team_num");
  incomplete = row_bool rt row (codes "incomplete");
  forfeit = row_bool rt row (codes "forfeit");
  player_team = row_int rt row (codes "team_num");
  goals = row_int rt row (codes "goals");
  assists = row_int rt row (codes "assists");
  saves = row_int rt row (codes "saves");
  shots = row_int rt row (codes "shots");
  demos = row_int rt row (codes "demos");
  score = row_int rt row (codes "score");
  playlist_type = playlist_of rt (lookup (codes "playlist_type") row);
  player_count = row_int rt row (codes "player_count");
}

-- sessionMatchesBetween on the rows that the query returned.
unfoldable pub session_matches_between : Runtime → ℕ → ℕ → List Row → List SessionMatch
unfolding in_session match_of_row
session_matches_between rt start end [] = []
session_matches_between rt start end (row ∷ rows) =
    let later = session_matches_between rt start end rows in
    if in_session start end (rt.parse_time (row_str row (codes "started_at")))
    then match_of_row rt row ∷ later
    else later

abbrev pub zero_summary : Summary
zero_summary = record {
  games = pos 0;
  wins = pos 0;
  losses = pos 0;
  goals = pos 0;
  assists = pos 0;
  saves = pos 0;
  shots = pos 0;
  demos = pos 0;
}

-- One round of the loops that sum up matches; `decided` is their test of the winner.
unfoldable pub add_match : Bool → SessionMatch → Summary → Summary
add_match decided m sum =
    let won = m.player_team == m.winner_team_num in
    record {
      games = sum.games +ℤ pos 1;
      wins = if decided && won then sum.wins +ℤ pos 1 else sum.wins;
      losses = if decided && not won then sum.losses +ℤ pos 1 else sum.losses;
      goals = sum.goals +ℤ m.goals;
      assists = sum.assists +ℤ m.assists;
      saves = sum.saves +ℤ m.saves;
      shots = sum.shots +ℤ m.shots;
      demos = sum.demos +ℤ m.demos;
    }

-- The loop of handleStats.
unfoldable pub summarize : List SessionMatch → Summary → Summary
unfolding add_match
summarize [] sum = sum
summarize (m ∷ ms) sum = summarize ms (add_match (not (is_neg m.winner_team_num)) m sum)

-- The loop of populateSessionStatsFromMatches.
unfoldable pub populate : List SessionMatch → Summary → Summary
unfolding add_match
populate [] sum = sum
populate (m ∷ ms) sum =
    populate ms (add_match (not m.incomplete && not (is_neg m.winner_team_num)) m sum)

unfoldable pub populate_session_stats_from_matches : SavedSession → List SessionMatch → SavedSession
unfolding populate
populate_session_stats_from_matches sess matches = record sess {
  stats = populate matches sess.stats;
}

unfoldable pub session_from_row : Runtime → Row → SavedSession
unfolding row_int row_str
session_from_row rt row = record {
  row = record {
    id = row_int rt row (codes "id");
    player_id = row_str row (codes "player_id");
    started_at = row_str row (codes "started_at");
    ended_at = row_str row (codes "ended_at");
  };
  stats = zero_summary;
}
