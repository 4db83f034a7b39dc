-- ===== src/Session/Requests.antt =====
-- plugins/session/logic.go: the plugin's state, its events and its requests.
pub mod NewSession
use oof_rl.Prelude.{
  ℕ, ℤ, pos, inc_ℤ, Text, codes, Bool, true, false, not, ◌&&◌, ◌||◌, Option, none, some, List, [],
  ◌∷◌, ◌++◌, ◌==◌, int_comparable, text_comparable, is_empty, has_prefix, has_suffix, itoa, keep,
  map, length, drop, ltb, leb, nat_beq, if◌then◌else◌,
}
use mathlib.Core.List.{reverse}
use oof_rl.Dejavu.History.{Row}
use oof_rl.Session.{
  Runtime, SessionRow, Summary, SavedSession, SessionMatch, row_str, session_matches_between,
  zero_summary, summarize, populate_session_stats_from_matches, session_from_row,
}

-- `since` and the table sessions with its next id.
pub record State : Type 0 where
  pub since : ℕ
  pub sessions : List SessionRow
  pub next_id : ℤ

-- initPlugin on an empty database.
abbrev pub init_plugin : State
init_plugin = record { since = 0; sessions = []; next_id = pos 1 }

-- onEvent
unfoldable pub on_event : ℕ → Text → State → State
on_event now event_type s =
    if event_type == codes "match.started" && nat_beq s.since 0 then record s { since = now } else s

pub record HttpRequest : Type 0 where
  pub method : Text
  pub path : Text
  pub query_param : Text → Text
  pub body : Text

pub data HttpResponse : Type 0 where
  json_error : ℕ → Text → HttpResponse
  no_stats status_ok : HttpResponse
  stats : List SessionMatch → Summary → HttpResponse
  session_start : (since : Text) → (is_active : Bool) → HttpResponse
  suggestion : (primary_id name : Text) → HttpResponse
  history : List SavedSession → HttpResponse
  session_item : SavedSession → List SessionMatch → HttpResponse

-- What the request meets outside: the successive values of time.Now(), whether the statement and the
-- query of the sessions fail, and the rows of the other two queries.
pub record Outside : Type 0 where
  pub now : ℕ
  pub now_later : ℕ
  pub exec_fails : Bool
  pub select_fails : Bool
  pub match_rows : Text → List Row
  pub player_rows : List Row

unfoldable pub handle_stats : Runtime → Outside → HttpRequest → State → HttpResponse
unfolding session_matches_between summarize
handle_stats rt out req s =
    let player_id = req.query_param (codes "player") in
    let matches = session_matches_between rt s.since 0 (out.match_rows player_id) in
    if is_empty player_id
    then json_error 400 (codes "player parameter required")
    else if nat_beq s.since 0
    then no_stats
    else stats matches (summarize matches zero_summary)

abbrev since_text : Runtime → ℕ → Text
since_text rt since = if nat_beq since 0 then [] else rt.format_rfc3339 since

abbrev start_at : Runtime → Option ℕ → State → State × HttpResponse
start_at rt none s = (s, json_error 400 (codes "invalid since, use RFC3339"))
start_at rt (some t) s = (record s { since = t }, session_start (rt.format_rfc3339 t) true)

unfoldable pub handle_start : Runtime → Outside → HttpRequest → State → State × HttpResponse
handle_start rt out req s =
    let since = rt.body_field (codes "since") req.body in
    if req.method == codes "GET"
    then (s, session_start (since_text rt s.since) (not (nat_beq s.since 0)))
    else if req.method == codes "POST"
    then start_at rt (if is_empty since then some out.now else rt.parse_rfc3339 since) s
    else (s, json_error 405 (codes "method not allowed"))

-- INSERT INTO sessions
unfoldable pub insert_session : Bool → Text → Text → Text → State → State
insert_session fails player_id started_at ended_at s = if fails then s else record s {
  sessions =
      s.sessions
      ++ (record {
        id = s.next_id;
        player_id = player_id;
        started_at = started_at;
        ended_at = ended_at;
      }
          ∷ []);
  next_id = inc_ℤ s.next_id;
}

unfoldable pub handle_new : Runtime → Outside → HttpRequest → State → State × HttpResponse
unfolding insert_session
handle_new rt out req s =
    let player_id = rt.body_field (codes "player_id") req.body in
    let s' = record s { since = out.now } in
    let saved =
      insert_session out.exec_fails player_id (rt.format_rfc3339 s.since)
        (rt.format_rfc3339 out.now_later) s' in
    if req.method == codes "POST"
    then (
      if not (is_empty player_id) && not (nat_beq s.since 0) then saved else s',
      session_start (rt.format_rfc3339 out.now) true,
    )
    else (s, json_error 405 (codes "method not allowed"))

abbrev pub select_where : Bool → (SessionRow → Bool) → State → List SessionRow
select_where fails test s = if fails then [] else keep test s.sessions

unfoldable pub populate_session_stats :
    Runtime → Outside → SavedSession → SavedSession × List SessionMatch
unfolding session_matches_between populate_session_stats_from_matches
populate_session_stats rt out sess =
    let matches =
      session_matches_between rt (rt.parse_time sess.row.started_at)
        (rt.parse_time sess.row.ended_at) (out.match_rows sess.row.player_id) in
    (populate_session_stats_from_matches sess matches, matches)

unfoldable pub list_sessions_with_stats : Runtime → Outside → Text → State → List SavedSession
unfolding populate_session_stats session_from_row
list_sessions_with_stats rt out player_id s =
    map
      (λ (r : SessionRow). (populate_session_stats rt out (session_from_row rt (rt.host_row r))).0)
      (rt.newest (select_where out.select_fails (λ (r : SessionRow). r.player_id == player_id) s))

unfoldable pub handle_history : Runtime → Outside → HttpRequest → State → HttpResponse
unfolding list_sessions_with_stats
handle_history rt out req s =
    let player_id = req.query_param (codes "player") in
    if not (req.method == codes "GET")
    then json_error 405 (codes "method not allowed")
    else if is_empty player_id
    then json_error 400 (codes "player parameter required")
    else history (list_sessions_with_stats rt out player_id s)

abbrev first_session : Runtime → List SessionRow → Option SavedSession
first_session rt [] = none
first_session rt (r ∷ rs) = some (session_from_row rt (rt.host_row r))

unfoldable pub session_by_id : Runtime → Outside → ℤ → State → Option SavedSession
unfolding session_from_row
session_by_id rt out id s =
    first_session rt (select_where out.select_fails (λ (r : SessionRow). r.id == id) s)

abbrev show_item : Runtime → Outside → Option SavedSession → HttpResponse
show_item rt out none = json_error 404 (codes "session not found")
show_item rt out (some sess) =
    let (filled, matches) = populate_session_stats rt out sess in session_item filled matches

-- DELETE FROM sessions
unfoldable pub delete_session : ℤ → State → State
delete_session id s = record s { sessions = keep (λ (r : SessionRow). not (r.id == id)) s.sessions }

-- UPDATE sessions
unfoldable pub update_session : ℤ → Text → Text → State → State
update_session id started_at ended_at s = record s {
  sessions =
      map
        (λ (r : SessionRow).
          if r.id == id then record r { started_at = started_at; ended_at = ended_at } else r)
        s.sessions;
}

abbrev put_times : Runtime → Outside → ℤ → Option ℕ → Option ℕ → State → State × HttpResponse
put_times rt out id (some start) (some end) s =
    if leb end start
    then (s, json_error 400 (codes "ended_at must be after started_at"))
    else if out.exec_fails
    then (s, json_error 500 (codes "update failed"))
    else (update_session id (rt.format_rfc3339 start) (rt.format_rfc3339 end) s, status_ok)
put_times rt out id start end s = (s, json_error 400 (codes "invalid time format, use RFC3339"))

abbrev put_body : Option Text → State × HttpResponse → State → State × HttpResponse
put_body none done s = done
put_body (some message) done s = (s, json_error 400 message)

abbrev item_request : Runtime → Outside → Option ℤ → HttpRequest → State → State × HttpResponse
item_request rt out none req s = (s, json_error 400 (codes "invalid id"))
item_request rt out (some id) req s =
    if req.method == codes "GET"
    then (s, show_item rt out (session_by_id rt out id s))
    else if req.method == codes "DELETE"
    then (if out.exec_fails
        then (s, json_error 500 (codes "delete failed"))
        else (delete_session id s, status_ok))
    else if req.method == codes "PUT"
    then put_body (rt.body_error req.body)
        (put_times rt out id (rt.parse_rfc3339 (rt.body_field (codes "started_at") req.body))
          (rt.parse_rfc3339 (rt.body_field (codes "ended_at") req.body)) s)
        s
    else (s, json_error 405 (codes "method not allowed"))

abbrev pub history_prefix : Text
history_prefix = codes "/api/session/history/"

-- strings.TrimPrefix and strings.TrimSuffix
unfoldable pub trim_prefix : Text → Text → Text
trim_prefix s prefix = if has_prefix s prefix then drop (length prefix) s else s

unfoldable pub trim_suffix : Text → Text → Text
trim_suffix s suffix = if has_suffix s suffix then reverse (drop (length suffix) (reverse s)) else s

unfoldable pub handle_history_item : Runtime → Outside → HttpRequest → State → State × HttpResponse
unfolding session_by_id populate_session_stats delete_session update_session trim_prefix trim_suffix
handle_history_item rt out req s =
    item_request rt out
      (rt.parse_id (trim_suffix (trim_prefix req.path history_prefix) (codes "/"))) req s

abbrev suggest : List Row → HttpResponse
suggest [] = suggestion [] []
suggest (row ∷ rows) = suggestion (row_str row (codes "primary_id")) (row_str row (codes "name"))

unfoldable pub handle_suggest_player : Outside → HttpResponse
unfolding row_str
handle_suggest_player out = suggest out.player_rows

-- handleHTTP
unfoldable pub handle_http : Runtime → Outside → HttpRequest → State → State × HttpResponse
unfolding handle_stats handle_start handle_new handle_suggest_player handle_history
    handle_history_item
handle_http rt out req s =
    if req.path == codes "/api/session/stats"
    then (s, handle_stats rt out req s)
    else if req.path == codes "/api/session/start"
    then handle_start rt out req s
    else if req.path == codes "/api/session/new"
    then handle_new rt out req s
    else if req.path == codes "/api/session/suggest-player"
    then (s, handle_suggest_player out)
    else if req.path == codes "/api/session/history"
    then (s, handle_history rt out req s)
    else if has_prefix req.path history_prefix
    then handle_history_item rt out req s
    else (s, json_error 404 (codes "not found"))
