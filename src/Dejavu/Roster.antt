-- ===== src/Dejavu/Roster.antt =====
-- plugins/dejavu/logic.go: the live roster, and which of its ids have a history.
pub mod Rows
use oof_rl.Prelude.{
  ℕ, ℤ, pos, zero, suc, ◌+◌, Text, codes, Bool, true, false, not, ◌&&◌, ◌||◌, Option, none, some,
  List, [], ◌∷◌, ◌++◌, ◌==◌, int_comparable, text_comparable, is_empty, itoa, has_prefix,
  trim_space, to_lower, if◌then◌else◌,
}

pub record LivePlayer : Type 0 where
  pub primary_id : Text
  pub name : Text
  pub team_num : ℤ
  pub shortcut : ℤ

pub record LiveState : Type 0 where
  pub match_guid : Text
  pub players : List LivePlayer

pub data Side : Type 0 where
  unclassified teammate opponent : Side

pub record RecallPlayer : Type 0 where
  pub row_id : Text
  pub primary_id : Text
  pub name : Text
  pub team_num : ℤ
  pub current_side : Side
  pub stable_id : Bool
  pub history_available : Bool
  pub prior_count : ℕ
  pub with_count : ℕ
  pub against_count : ℕ
  pub with_wins : ℕ
  pub with_losses : ℕ
  pub against_wins : ℕ
  pub against_losses : ℕ
  pub with_no_result : ℕ
  pub against_no_result : ℕ
  pub last_seen : Text

unfoldable pub normalize_primary_id : Text → Text
normalize_primary_id primary_id = trim_space primary_id

-- validTeam, and validTeam64.
unfoldable pub valid_team : ℤ → Bool
valid_team team_num = team_num == pos 0 || team_num == pos 1

unfoldable pub is_usable_stable_id : Text → Bool
unfolding normalize_primary_id
is_usable_stable_id primary_id =
    let id = normalize_primary_id primary_id in
    let lower = to_lower id in
    if is_empty id
    then false
    else not (has_prefix lower (codes "unknown|")) && not (has_prefix lower (codes "bot:"))

unfoldable pub stable_id_for_response : Text → Bool → Text
stable_id_for_response primary_id stable = if not stable then [] else primary_id

unfoldable pub current_side : ℤ → ℤ → Side
current_side team_num selected_team =
    if not (valid_team team_num)
    then unclassified
    else if team_num == selected_team
    then teammate
    else opponent

-- The Sprintf with the format "live:%s:%d:%d:%s:%d".
unfoldable pub live_row_id : Text → LivePlayer → ℕ → Bool → Text
live_row_id match_guid p index stable =
    if stable
    then normalize_primary_id p.primary_id
    else codes "live:"
      ++ match_guid
      ++ codes ":"
      ++ itoa p.team_num
      ++ codes ":"
      ++ itoa p.shortcut
      ++ codes ":"
      ++ p.name
      ++ codes ":"
      ++ itoa (pos index)

-- The value at a key of a set.
unfoldable pub member : Text → List Text → Bool
member id [] = false
member id (other ∷ ids) = other == id || member id ids

unfoldable pub find_selected_player : List LivePlayer → Text → Option LivePlayer
find_selected_player [] selected_id = none
find_selected_player (p ∷ ps) selected_id =
    if normalize_primary_id p.primary_id == selected_id
    then some p
    else find_selected_player ps selected_id

abbrev pub row_of : Text → ℤ → LivePlayer → ℕ → RecallPlayer
row_of match_guid selected_team p index =
    let pid = normalize_primary_id p.primary_id in
    let stable = is_usable_stable_id pid in
    record {
      row_id = live_row_id match_guid p index stable;
      primary_id = stable_id_for_response pid stable;
      name = p.name;
      team_num = p.team_num;
      current_side = current_side p.team_num selected_team;
      stable_id = stable;
      history_available = stable;
      prior_count = 0;
      with_count = 0;
      against_count = 0;
      with_wins = 0;
      with_losses = 0;
      against_wins = 0;
      against_losses = 0;
      with_no_result = 0;
      against_no_result = 0;
      last_seen = [];
    }

-- seenStable and stableIDs hold the same ids.
abbrev pub note_id : Text → List Text → List Text
note_id pid stable_ids =
    if is_usable_stable_id pid && not (member pid stable_ids)
    then stable_ids ++ (pid ∷ [])
    else stable_ids

-- The loop of buildRosterRows from the player of the index on.
unfoldable pub roster_rows :
    Text
    → Text
    → ℤ
    → List LivePlayer
    → ℕ
    → List RecallPlayer
    → List Text
    → List RecallPlayer × List Text
roster_rows match_guid selected_id selected_team [] index rows stable_ids = (rows, stable_ids)
roster_rows match_guid selected_id selected_team (p ∷ ps) index rows stable_ids =
    let pid = normalize_primary_id p.primary_id in
    let own = pid == selected_id in
    roster_rows match_guid selected_id selected_team ps (index + 1)
      (if own then rows else rows ++ (row_of match_guid selected_team p index ∷ []))
      (if own then stable_ids else note_id pid stable_ids)

unfoldable pub build_roster_rows : LiveState → Text → ℤ → List RecallPlayer × List Text
build_roster_rows st selected_id selected_team =
    roster_rows st.match_guid selected_id selected_team st.players 0 [] []
