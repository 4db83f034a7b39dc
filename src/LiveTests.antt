-- ===== src/LiveTests.antt =====
-- The theorem about the live plugin at a concrete input.
use oof_rl.Prelude.{
  ◌≡◌, refl, Text, codes, text_beq, ◌==◌, text_comparable, Option, none, some, List, [], ◌∷◌,
  lookup, insert,
}
use oof_rl.Live.{
  AnyValue, any_nil, any_string, any_other, Player, StateUpdatedPayload, Codec, field_of,
  player_cache_key, reset_state_locked, handle_http,
}
use oof_rl.Live.Replay.{after_frames, replay_shows_live_touches}

abbrev player : Text → Player
player touches =
    (codes "PrimaryId", any_string (codes "ann"))
    ∷ (codes "Touches", any_other touches)
    ∷ (codes "CarTouches", any_other touches)
    ∷ []

abbrev text_of : AnyValue → Text
text_of any_nil = codes "<nil>"
text_of (any_string s) = s
text_of (any_other s) = s

abbrev encode : List Player → Option Text
encode [] = some []
encode (pl ∷ players) = some (text_of (field_of pl (codes "Touches")))

-- One player, written as her touches; a game is written as whether it is a replay.
abbrev codec : Codec
codec = record {
  decode_event = λ payload. none;
  decode_is_replay = λ game. some (game == codes "replay");
  decode_players = λ players. some (player players ∷ []);
  encode_players = encode;
  sprint = text_of;
}

abbrev frame : Text → Text → StateUpdatedPayload
frame players game = record { guid = codes "g"; players = players; game = game }

-- The replay's own count is 0.
replay_shows_live_touches_example :
    handle_http (
      after_frames codec
        (frame (codes "0") (codes "replay")
          ∷ frame (codes "7") (codes "live")
          ∷ frame (codes "3") (codes "live")
          ∷ [])
        reset_state_locked)
    ≡ some (record { match_guid = codes "g"; players = codes "7"; game = codes "replay" })
unfolding text_beq lookup insert field_of player_cache_key
replay_shows_live_touches_example =
    replay_shows_live_touches codec
      (frame (codes "7") (codes "live") ∷ frame (codes "3") (codes "live") ∷ [])
      (frame (codes "0") (codes "replay")) (player (codes "0") ∷ []) (codes "7") refl refl refl
      (refl, tt) refl
