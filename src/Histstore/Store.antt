-- ===== src/Histstore/Store.antt =====
-- internal/histstore/store.go, the statements that write, and models.go: the tables of schema.go as
-- lists of rows. Which statements fail is data, `faults`; a failed one changes nothing. Foreign keys
-- are declared but not enforced, as SQLite does by default.
use oof_rl.Prelude.{
  ℕ, ℤ, ◌+◌, Text, Bool, true, false, ◌&&◌, Option, none, some, List, [], ◌∷◌, ◌++◌, ◌==◌,
  Comparable, nat_comparable, text_comparable, is_empty, nat_beq, text_beq, ◌≡◌, ◌↔◌, arith,
  nat_beq_iff, text_beq_iff, lookup, insert, if◌then◌else◌,
}
use oof_rl.Wire.{Float64}

-- The key of UNIQUE(match_id, primary_id).
abbrev pub StatsKey : Type 0
StatsKey = ℕ × Text

abbrev pub key_beq : StatsKey → StatsKey → Bool
key_beq (m, p) (n, q) = nat_beq m n && text_beq p q

pub key_beq_iff : (k j : StatsKey) → (key_beq k j ≡ true) ↔ (k ≡ j)
key_beq_iff (m, p) (n, q) = ground (arith, nat_beq_iff m n, text_beq_iff p q)

instance abbrev pub key_comparable : Comparable StatsKey
key_comparable = record { same = key_beq; same_iff = key_beq_iff }

-- A row of hist_players.
pub record PlayerRow : Type 0 where
  pub name : Text
  pub last_seen : ℕ

-- A row of hist_matches; NULL is `none`.
pub record MatchRow : Type 0 where
  pub guid : Option Text
  pub arena : Text
  pub started_at : ℕ
  pub ended_at : Option ℕ
  pub winner_team_num : Option ℤ
  pub overtime : Bool
  pub incomplete : Bool
  pub forfeit : Bool
  pub playlist_type : Option ℤ
  pub team_score_0 : Option ℤ
  pub team_score_1 : Option ℤ

-- A row of hist_player_match_stats, without its key.
pub record StatsRow : Type 0 where
  pub player_name : Text
  pub team_num : ℤ
  pub score : ℤ
  pub goals : ℤ
  pub shots : ℤ
  pub assists : ℤ
  pub saves : ℤ
  pub touches : ℤ
  pub car_touches : ℤ
  pub demos : ℤ

pub record GoalRow : Type 0 where
  pub match_id : ℕ
  pub scorer_id : Text
  pub scorer_name : Text
  pub assister_id : Option Text
  pub assister_name : Text
  pub ball_last_touch_id : Option Text
  pub goal_speed : Float64
  pub goal_time : Float64
  pub game_time_seconds : Option ℤ
  pub game_overtime : Bool
  pub impact_x : Float64
  pub impact_y : Float64
  pub impact_z : Float64
  pub scored_at : ℕ

pub record BallHitRow : Type 0 where
  pub match_id : ℕ
  pub player_id : Text
  pub pre_hit_speed : Float64
  pub post_hit_speed : Float64
  pub loc_x : Float64
  pub loc_y : Float64
  pub loc_z : Float64
  pub hit_at : ℕ

pub record StatfeedRow : Type 0 where
  pub match_id : ℕ
  pub player_id : Text
  pub player_name : Text
  pub team_num : ℤ
  pub event_type : Text
  pub target_id : Text
  pub target_name : Text
  pub game_time_seconds : Option ℤ
  pub game_overtime : Bool
  pub occurred_at : ℕ

-- `next_match_id` is the AUTOINCREMENT counter of hist_matches.
pub record Db : Type 0 where
  pub players : List (Text × PlayerRow)
  pub matches : List (ℕ × MatchRow)
  pub next_match_id : ℕ
  pub stats : List (StatsKey × StatsRow)
  pub goals : List GoalRow
  pub ball_hits : List BallHitRow
  pub statfeed : List StatfeedRow
  pub faults : List Bool

abbrev pub empty_db : Db
empty_db = record {
  players = [];
  matches = [];
  next_match_id = 1;
  stats = [];
  goals = [];
  ball_hits = [];
  statfeed = [];
  faults = [];
}

exec_with : List Bool → (Db → Db) → Db → Db × Bool
exec_with [] statement db = (statement db, true)
exec_with (false ∷ later) statement db = (statement (record db { faults = later }), true)
exec_with (true ∷ later) statement db = (record db { faults = later }, false)

-- conn.Exec: the Boolean is whether the statement succeeded.
unfoldable pub exec : (Db → Db) → Db → Db × Bool
unfolding exec_with
exec statement db = exec_with db.faults statement db

unfoldable pub upsert_player : ℕ → Text → Text → Db → Db × Bool
unfolding exec
upsert_player now primary_id name = exec (λ db. record db {
  players = insert primary_id (record { name = name; last_seen = now }) db.players;
})

abbrev is_guid : Text → Option Text → Bool
is_guid guid none = false
is_guid guid (some other) = other == guid

-- SELECT id FROM hist_matches WHERE match_guid=?
unfoldable pub id_of_guid : Text → List (ℕ × MatchRow) → Option ℕ
id_of_guid guid [] = none
id_of_guid guid ((id, row) ∷ rows) = if is_guid guid row.guid then some id else id_of_guid guid rows

abbrev pub null_if_empty : Text → Option Text
null_if_empty text = if is_empty text then none else some text

abbrev pub new_match_row : Text → Text → ℕ → MatchRow
new_match_row guid arena started_at = record {
  guid = null_if_empty guid;
  arena = arena;
  started_at = started_at;
  ended_at = none;
  winner_team_num = none;
  overtime = false;
  incomplete = false;
  forfeit = false;
  playlist_type = none;
  team_score_0 = none;
  team_score_1 = none;
}

insert_match : Text → Text → ℕ → Db → Db
insert_match guid arena started_at db = record db {
  matches = insert db.next_match_id (new_match_row guid arena started_at) db.matches;
  next_match_id = db.next_match_id + 1;
}

abbrev on_row :
    (MatchRow → MatchRow) → ℕ → Option MatchRow → List (ℕ × MatchRow) → List (ℕ × MatchRow)
on_row change id none rows = rows
on_row change id (some row) rows = insert id (change row) rows

-- UPDATE hist_matches SET … WHERE id=?
unfoldable pub update_match : (MatchRow → MatchRow) → ℕ → Db → Db
update_match change id db = record db {
  matches = on_row change id (lookup id db.matches) db.matches;
}

-- The row that an INSERT with this GUID would conflict with; NULL conflicts with nothing.
abbrev pub conflict : Text → Db → Option ℕ
conflict guid db = if is_empty guid then none else id_of_guid guid db.matches

abbrev pub keep_arena : Text → MatchRow → MatchRow
keep_arena arena row = record row { arena = if is_empty arena then row.arena else arena }

-- `last_insert_id` is what the driver's LastInsertId reports after a statement that inserted no row,
-- given the id of the row that the statement met. It is code of the SQLite driver.
module _ (last_insert_id : Db → ℕ → ℕ) where
  unfoldable pub upserted : Option ℕ → Text → Text → ℕ → Db → Db × Option ℕ
  unfolding insert_match update_match
  upserted none guid arena started_at db =
      (insert_match guid arena started_at db, some db.next_match_id)
  upserted (some id) guid arena started_at db =
      (update_match (keep_arena arena) id db, some (last_insert_id db id))

  ignored : Option ℕ → Text → Text → ℕ → Db → Db × Option ℕ
  unfolding insert_match
  ignored none guid arena started_at db =
      (insert_match guid arena started_at db, some db.next_match_id)
  ignored (some id) guid arena started_at db =
      let reported = last_insert_id db id in
      (db, if nat_beq reported 0 then id_of_guid guid db.matches else some reported)

  retry_with : List Bool → Text → Text → ℕ → Db → Db × Option ℕ
  unfolding ignored
  retry_with [] guid arena started_at db = ignored (conflict guid db) guid arena started_at db
  retry_with (false ∷ later) guid arena started_at db =
      ignored (conflict guid db) guid arena started_at (record db { faults = later })
  retry_with (true ∷ later) guid arena started_at db = (record db { faults = later }, none)

  unfoldable pub upsert_with : List Bool → Text → Text → ℕ → Db → Db × Option ℕ
  unfolding upserted retry_with
  upsert_with [] guid arena started_at db = upserted (conflict guid db) guid arena started_at db
  upsert_with (false ∷ later) guid arena started_at db =
      upserted (conflict guid db) guid arena started_at (record db { faults = later })
  upsert_with (true ∷ later) guid arena started_at db =
      retry_with later guid arena started_at (record db { faults = later })

  -- UpsertMatch: the upsert, and after an error the INSERT OR IGNORE; `none` is an error. The SELECT of
  -- the second attempt is taken not to fail.
  unfoldable pub upsert_match : Text → Text → ℕ → Db → Db × Option ℕ
  unfolding upsert_with
  upsert_match guid arena started_at db = upsert_with db.faults guid arena started_at db

unfoldable pub update_match_playlist : ℕ → ℤ → Db → Db × Bool
unfolding exec update_match
update_match_playlist id playlist =
    exec (update_match (λ row. record row { playlist_type = some playlist }) id)

unfoldable pub end_match : ℕ → ℕ → ℤ → Bool → Bool → Bool → Db → Db × Bool
unfolding exec update_match
end_match now id winner overtime incomplete forfeit = exec (
    update_match
      (λ row. record row {
        ended_at = some now;
        winner_team_num = some winner;
        overtime = overtime;
        incomplete = incomplete;
        forfeit = forfeit;
      })
      id)

unfoldable pub update_team_scores : ℕ → ℤ → ℤ → Db → Db × Bool
unfolding exec update_match
update_team_scores id score0 score1 =
    exec (
      update_match (λ row. record row { team_score_0 = some score0; team_score_1 = some score1 })
        id)

-- The name that DO UPDATE leaves: the old one where the new one is empty.
unfoldable pub upserted_stats : Option StatsRow → StatsRow → StatsRow
upserted_stats none row = row
upserted_stats (some old) row = record row {
  player_name = if is_empty row.player_name then old.player_name else row.player_name;
}

unfoldable pub upsert_player_match_stats_with_name : ℕ → Text → StatsRow → Db → Db × Bool
unfolding exec
upsert_player_match_stats_with_name id primary_id row = exec (λ db. record db {
  stats = insert (id, primary_id) (upserted_stats (lookup (id, primary_id) db.stats) row) db.stats;
})

unfoldable pub insert_goal_with_game_clock : GoalRow → Db → Db × Bool
unfolding exec
insert_goal_with_game_clock row = exec (λ db. record db { goals = db.goals ++ (row ∷ []) })

unfoldable pub insert_ball_hit : BallHitRow → Db → Db × Bool
unfolding exec
insert_ball_hit row = exec (λ db. record db { ball_hits = db.ball_hits ++ (row ∷ []) })

unfoldable pub insert_statfeed_event_with_game_clock : StatfeedRow → Db → Db × Bool
unfolding exec
insert_statfeed_event_with_game_clock row =
    exec (λ db. record db { statfeed = db.statfeed ++ (row ∷ []) })
