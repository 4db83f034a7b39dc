-- ===== src/Histstore/Recorder/Flush.antt =====
-- What the end of a match leaves in the database.
use oof_rl.Prelude.{
  ℕ, ℤ, minus_one, is_neg, ◌≡◌, ◌≢◌, refl, ap, ◌∙◌, Text, Bool, true, false, not, ◌&&◌, Option,
  none, some, List, [], ◌∷◌, nat_comparable, text_comparable, nat_beq, text_beq, text_beq_iff,
  text_beq_refl, nat_beq_iff, lookup, lookup-insert, Bool-cases, inl, inr, if◌then◌else◌,
}
use oof_rl.Oofevents.Types.{Base, match_ended, PlayerSnapshot, TeamSnapshot}
use oof_rl.Histstore.Store.{
  Db, MatchRow, StatsRow, StatsKey, key_comparable, key_beq, end_match, update_team_scores,
  upsert_player, upsert_player_match_stats_with_name, upserted_stats, update_match, exec,
}
use oof_rl.Histstore.Players.{Players}
use oof_rl.Histstore.Recorder.{
  Recorder, stats_of, flush_player, flush_players, flush_scores, flush_match, final_scores,
  reset_match_state, on_match_ended, on_end, is_active_match, is_likely_forfeit, on_match_destroyed,
}

-- A map holds each key once, and each player under the player's own id.
abbrev pub IsRoster : Players → Type 0
IsRoster [] = Unit
IsRoster ((id, pl) ∷ rest) = (pl.primary_id ≡ id) × (lookup id rest ≡ none) × IsRoster rest

-- The row of a player after the match: the player's numbers, and the old name where the new is empty.
abbrev pub final_stats : Option StatsRow → Option PlayerSnapshot → Option StatsRow
final_stats old none = old
final_stats old (some pl) = some (upserted_stats old (stats_of pl))

module _ (now : ℕ) (range : Players → Players) (last_insert_id : Db → ℕ → ℕ) where
  flush_player-faults :
      (id : ℕ) (pl : PlayerSnapshot) (db : Db)
      → db.faults ≡ []
      → (flush_player now range last_insert_id id pl db).faults ≡ []
  unfolding flush_player upsert_player upsert_player_match_stats_with_name
  flush_player-faults id pl db f = rw f

  stats-flush_player :
      (id : ℕ) (pl : PlayerSnapshot) (db : Db) (k : StatsKey)
      → db.faults ≡ []
      → lookup k (flush_player now range last_insert_id id pl db).stats ≡ (
          if key_beq (id, pl.primary_id) k
          then some (upserted_stats (lookup (id, pl.primary_id) db.stats) (stats_of pl))
          else lookup k db.stats)
  unfolding flush_player upsert_player upsert_player_match_stats_with_name
  stats-flush_player id pl db k f = rw f (rw lookup-insert)

  same_player :
      (id : ℕ) (pl : PlayerSnapshot) (db : Db) (p : Text)
      → db.faults ≡ []
      → pl.primary_id ≡ p
      → lookup (id, p) (flush_player now range last_insert_id id pl db).stats
        ≡ some (upserted_stats (lookup (id, p) db.stats) (stats_of pl))
  same_player id pl db p f e =
      stats-flush_player id pl db (id, p) f
      ∙ rw e (rw ((nat_beq_iff id id).1 refl, text_beq_refl p))

  other_player :
      (id : ℕ) (pl : PlayerSnapshot) (db : Db) (p : Text)
      → db.faults ≡ []
      → text_beq pl.primary_id p ≡ false
      → lookup (id, p) (flush_player now range last_insert_id id pl db).stats
        ≡ lookup (id, p) db.stats
  other_player id pl db p f e =
      stats-flush_player id pl db (id, p) f ∙ rw ((nat_beq_iff id id).1 refl, e)

  stats-flush_players :
      (id : ℕ) (pls : Players) (db : Db) (p : Text)
      → db.faults ≡ []
      → IsRoster pls
      → lookup (id, p) (flush_players now range last_insert_id id pls db).stats
        ≡ final_stats (lookup (id, p) db.stats) (lookup p pls)
  unfolding flush_players lookup
  stats-flush_players id [] db p f h = refl
  stats-flush_players id ((j, pl) ∷ pls) db p f (own, once, rest) =
      let db' = flush_player now range last_insert_id id pl db in
      let later = stats-flush_players id pls db' p (flush_player-faults id pl db f) rest in
      elim (Bool-cases (text_beq j p)) [
        | inl same ↦
            later
            ∙ rw (same_player id pl db p f (own ∙ (text_beq_iff j p).0 same))
                (rw (same, ← (text_beq_iff j p).0 same) (rw once))
        | inr other ↦ later ∙ rw (other_player id pl db p f (rw own other)) (rw other)
      ]

  matches-flush_player :
      (id : ℕ) (pl : PlayerSnapshot) (db : Db)
      → db.faults ≡ []
      → (flush_player now range last_insert_id id pl db).matches ≡ db.matches
  unfolding flush_player upsert_player upsert_player_match_stats_with_name
  matches-flush_player id pl db f = rw f

  matches-flush_players :
      (id : ℕ) (pls : Players) (db : Db)
      → db.faults ≡ []
      → (flush_players now range last_insert_id id pls db).matches ≡ db.matches
  unfolding flush_players
  matches-flush_players id [] db f = refl
  matches-flush_players id ((j, pl) ∷ pls) db f =
      matches-flush_players id pls (flush_player now range last_insert_id id pl db)
        (flush_player-faults id pl db f)
      ∙ matches-flush_player id pl db f

-- The scores that a match ends with, if both teams were seen.
abbrev pub with_scores : ℤ × ℤ → MatchRow → MatchRow
with_scores (score0, score1) row =
    if not (is_neg score0) && not (is_neg score1)
    then record row { team_score_0 = some score0; team_score_1 = some score1 }
    else row

abbrev pub closed_row : ℕ → ℤ → Bool → Bool → Recorder → MatchRow → MatchRow
closed_row now winner incomplete forfeit r row =
    with_scores (final_scores r.last_teams (minus_one, minus_one)) (record row {
      ended_at = some now;
      winner_team_num = some winner;
      overtime = r.overtime;
      incomplete = incomplete;
      forfeit = forfeit;
    })

-- The order of a range statement visits the map, each entry once.
abbrev pub Visits : (Players → Players) → Players → Type 0
Visits range m = IsRoster (range m) × ((p : Text) → lookup p (range m) ≡ lookup p m)

-- What an UPDATE of one row by its id leaves behind.
abbrev RowIs : ℕ → MatchRow → Db → Db → Type 0
RowIs id row db db' =
    (db'.faults ≡ []) × (db'.stats ≡ db.stats) × (lookup id db'.matches ≡ some row)

changed_match :
    (change : MatchRow → MatchRow) (id : ℕ) (row : MatchRow) (db : Db)
    → db.faults ≡ []
    → lookup id db.matches ≡ some row
    → RowIs id (change row) db (exec (update_match change id) db).0
unfolding exec update_match
changed_match change id row db f found =
    (rw f refl, rw f refl, rw (f, found) (rw lookup-insert (rw ((nat_beq_iff id id).1 refl))))

module _ (now : ℕ) (range : Players → Players) (last_insert_id : Db → ℕ → ℕ) where
  scored_match :
      (id : ℕ) (teams : List TeamSnapshot) (row : MatchRow) (db : Db)
      → db.faults ≡ []
      → lookup id db.matches ≡ some row
      → RowIs id
          (with_scores (final_scores teams (minus_one, minus_one)) row)
          db
          (flush_scores now range last_insert_id id teams db)
  unfolding flush_scores update_team_scores
  scored_match id teams row db f found =
      let (score0, score1) = final_scores teams (minus_one, minus_one) in
      elim (Bool-cases (not (is_neg score0) && not (is_neg score1))) [
        | inl both ↦ rw both (
            changed_match (λ m. record m { team_score_0 = some score0; team_score_1 = some score1 })
              id row db f found)
        | inr missing ↦ rw missing (f, refl, found)
      ]

  flushed :
      (winner : ℤ) (incomplete forfeit : Bool) (r : Recorder) (row : MatchRow) (db : Db)
      → db.faults ≡ []
      → lookup r.match_id db.matches ≡ some row
      → Visits range r.last_players
      → let (r', db') = flush_match now range last_insert_id winner incomplete forfeit r db in
        (r' ≡ reset_match_state)
        × (lookup r.match_id db'.matches ≡ some (closed_row now winner incomplete forfeit r row))
        × ((p : Text)
            → lookup (r.match_id, p) db'.stats
              ≡ final_stats (lookup (r.match_id, p) db.stats) (lookup p r.last_players))
  unfolding flush_match end_match
  flushed winner incomplete forfeit r row db f found (roster, visited) =
      let close = λ (m : MatchRow). record m {
        ended_at = some now;
        winner_team_num = some winner;
        overtime = r.overtime;
        incomplete = incomplete;
        forfeit = forfeit;
      } in
      let (f1, s1, m1) = changed_match close r.match_id row db f found in
      let ended = (end_match now r.match_id winner r.overtime incomplete forfeit db).0 in
      let (f2, s2, m2) = scored_match r.match_id r.last_teams (close row) ended f1 m1 in
      let scored = flush_scores now range last_insert_id r.match_id r.last_teams ended in
      (
        refl,
        ap (lookup r.match_id) (
              matches-flush_players now range last_insert_id r.match_id (range r.last_players)
                scored f2)
            ∙ m2,
        λ p.
            stats-flush_players now range last_insert_id r.match_id (range r.last_players) scored p
              f2 roster
            ∙ rw (s2, s1, visited p),
      )

  -- If no statement fails, the match has its row and the range over the players visits each once, the
  -- end of the recorded match closes its row with the winner, the overtime
  -- flag, the forfeit decision and the final scores if both teams were seen, marks it complete, leaves
  -- for every player of the match a row with that player's numbers and no other row of the match
  -- changed, and resets the recorder.
  pub match_ended_records :
      (b : Base) (winner : ℤ) (r : Recorder) (row : MatchRow) (db : Db)
      → r.match_id ≢ 0
      → is_active_match b.guid r ≡ true
      → db.faults ≡ []
      → lookup r.match_id db.matches ≡ some row
      → Visits range r.last_players
      → let (r', db') = on_match_ended now range last_insert_id (match_ended b winner) r db in
        (r' ≡ reset_match_state)
        × (lookup r.match_id db'.matches
            ≡ some (closed_row now winner false (is_likely_forfeit winner r) r row))
        × ((p : Text)
            → lookup (r.match_id, p) db'.stats
              ≡ final_stats (lookup (r.match_id, p) db.stats) (lookup p r.last_players))
  unfolding on_match_ended on_end
  match_ended_records b winner r row db open_match active f found visits =
      elim (Bool-cases (nat_beq r.match_id 0)) [
        | inl closed ↦ absurd (open_match ((nat_beq_iff r.match_id 0).0 closed))
        | inr opened ↦
            rw (opened, active)
              (flushed winner false (is_likely_forfeit winner r) r row db f found visits)
      ]

  -- Under the same conditions a match that is torn down while it is recorded is closed in the same way, with no winner, marked
  -- incomplete and no forfeit.
  pub match_destroyed_records :
      (r : Recorder) (row : MatchRow) (db : Db)
      → r.match_id ≢ 0
      → db.faults ≡ []
      → lookup r.match_id db.matches ≡ some row
      → Visits range r.last_players
      → let (r', db') = on_match_destroyed now range last_insert_id r db in
        (r' ≡ reset_match_state)
        × (lookup r.match_id db'.matches ≡ some (closed_row now minus_one true false r row))
        × ((p : Text)
            → lookup (r.match_id, p) db'.stats
              ≡ final_stats (lookup (r.match_id, p) db.stats) (lookup p r.last_players))
  unfolding on_match_destroyed
  match_destroyed_records r row db open_match f found visits =
      elim (Bool-cases (nat_beq r.match_id 0)) [
        | inl closed ↦ absurd (open_match ((nat_beq_iff r.match_id 0).0 closed))
        | inr opened ↦ rw opened (flushed minus_one true false r row db f found visits)
      ]
