-- ===== src/SessionTests.antt =====
-- The theorems about the session plugin at concrete inputs.
use oof_rl.Prelude.{
  ℕ, ℤ, pos, negsuc, ◌≡◌, refl, Text, codes, text_beq, false, none, some, List, [], ◌∷◌, arith,
  lookup, nat_beq, ◌-◌, ◌%◌,
}
use oof_rl.Dejavu.History.{value_string, value_float64, Row}
use oof_rl.Session.{
  Runtime, SavedSession, zero_summary, session_matches_between, summarize, populate, match_of_row,
  session_from_row,
}
use oof_rl.Session.Split.{add_summary, sessions_add_up}
use oof_rl.Session.Requests.{
  State, HttpRequest, Outside, handle_new, session_by_id, populate_session_stats,
}
use oof_rl.Session.Requests.NewSession.{saved, handle_new-keeps_counts}

abbrev to_bits : ℤ → ℕ
to_bits (pos n) = n
to_bits (negsuc n) = 0

abbrev first_code : Text → ℕ
first_code [] = 0
first_code (c ∷ s) = c

-- A time is written as one character.
abbrev runtime : Runtime
runtime = record {
  int_of_float = λ bits. pos bits;
  is_float_zero = λ bits. nat_beq bits 0;
  parse_time = first_code;
  parse_rfc3339 = λ s. some (first_code s);
  format_rfc3339 = λ t. t ∷ [];
  parse_id = λ s. some (pos (first_code s));
  body_field = λ name body. body;
  body_error = λ body. none;
  host_row = λ r.
      (codes "id", value_float64 (to_bits r.id))
      ∷ (codes "player_id", value_string r.player_id)
      ∷ (codes "started_at", value_string r.started_at)
      ∷ (codes "ended_at", value_string r.ended_at)
      ∷ [];
  newest = λ rs. rs;
}

abbrev match_row : ℕ → ℕ → ℕ → Row
match_row at winner goals =
    (codes "started_at", value_string (at ∷ []))
    ∷ (codes "winner_team_num", value_float64 winner)
    ∷ (codes "team_num", value_float64 1)
    ∷ (codes "goals", value_float64 goals)
    ∷ []

abbrev rows : List Row
rows = match_row 5 1 3 ∷ match_row 20 0 2 ∷ match_row 30 1 0 ∷ []

sessions_add_up_example :
    (summarize (session_matches_between runtime 4 0 rows) zero_summary
      ≡ add_summary
          (summarize (session_matches_between runtime 4 20 rows) zero_summary)
          (summarize (session_matches_between runtime 20 0 rows) zero_summary))
    × (populate (session_matches_between runtime 4 0 rows) zero_summary
        ≡ add_summary
            (populate (session_matches_between runtime 4 20 rows) zero_summary)
            (populate (session_matches_between runtime 20 0 rows) zero_summary))
sessions_add_up_example = sessions_add_up runtime 4 20 0 (omega arith) (omega arith) refl rows

-- Its times lose their fraction of ten when they are formatted.
abbrev rounding : Runtime
rounding = record runtime { format_rfc3339 = λ t. (t - t % 10) ∷ [] }

abbrev running : State
running = record { since = 14; sessions = []; next_id = pos 1 }

abbrev matches : List Row
matches = match_row 5 1 3 ∷ match_row 16 0 2 ∷ match_row 33 1 0 ∷ []

-- The session runs from 14 to 27; the clock is read again at 29.
abbrev outside : Outside
outside = record {
  now = 27;
  now_later = 29;
  exec_fails = false;
  select_fails = false;
  match_rows = λ player_id. matches;
  player_rows = [];
}

abbrev post_new : HttpRequest
post_new = record {
  method = codes "POST";
  path = codes "/api/session/new";
  query_param = λ name. [];
  body = codes "ann";
}

abbrev saved_ann : SavedSession
saved_ann = saved rounding outside outside post_new running (codes "ann")

handle_new-keeps_counts_example :
    (session_by_id rounding outside (pos 1) (handle_new rounding outside post_new running).0
      ≡ some saved_ann)
    × (summarize (session_matches_between rounding 14 0 matches) zero_summary
        ≡ add_summary (populate_session_stats rounding outside saved_ann).0.stats (
            summarize
              (session_matches_between rounding
                (handle_new rounding outside post_new running).0.since
                0
                matches)
              zero_summary))
unfolding session_from_row match_of_row lookup text_beq
handle_new-keeps_counts_example =
    handle_new-keeps_counts rounding outside outside post_new running (codes "ann") refl refl refl
      refl refl refl (omega arith) (omega arith) refl refl
      ((refl, refl), ((refl, refl), ((refl, refl), tt)))
      ((refl, refl), ((refl, refl), ((refl, refl), tt))) (refl, (refl, (refl, tt)))
