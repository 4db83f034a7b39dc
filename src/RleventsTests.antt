-- ===== src/RleventsTests.antt =====
-- The theorems about the translator at concrete inputs, and a run of it.
use oof_rl.Prelude.{
  ℕ, pos, ◌≡◌, refl, codes, text_beq, true, false, Option, none, some, List, [], ◌∷◌, All,
}
use oof_rl.Wire.{Json, Envelope, RawMessage, MatchGuidData, PlayerRef, UpdateStateData}
use oof_rl.Rlevents.{new, translate_all}
use oof_rl.Rlevents.Certainties.{IsPublishable, translate_all-IsPublishable}
use oof_rl.Rlevents.Overtime.{translate_all-rising_edges, count_starts, rising_edges}
use oof_rl.Rlevents.Lifecycle.{translate_all-Agrees, all_allowed, listen_all, listener_of}
use oof_rl.Rlevents.Actions.{translate_all-actions, actions, messages_actions}

abbrev guid_of : RawMessage → Option MatchGuidData
guid_of [] = none
guid_of raw = some (record { match_guid = raw })

abbrev scorer : PlayerRef
scorer = record {
  name = codes "Ann";
  primary_id = codes "Steam|1|0";
  shortcut = pos 1;
  team_num = pos 1;
}

-- A decoder for messages whose content is their GUID: each clock message is one of an overtime, each
-- stat an own goal of `scorer`.
abbrev toy : Json
toy = record {
  match_guid_data = guid_of;
  match_ended_data = λ raw. some (record { match_guid = raw; winner_team_num = pos 0 });
  goal_scored_data = λ raw. none;
  statfeed_data = λ raw. some (record {
    match_guid = raw;
    event_name = codes "OwnGoal";
    main_target = scorer;
    secondary_target = none;
  });
  clock_data = λ raw. some (record { match_guid = raw; time_seconds = pos 3; overtime = true });
  ball_hit_data = λ raw. none;
  crossbar_hit_data = λ raw. none;
  update_state_data = λ raw. none;
}

abbrev messages : List Envelope
messages =
    record { event = codes "MatchCreated"; content = codes "m1" }
    ∷ record { event = codes "ClockUpdatedSeconds"; content = codes "m1" }
    ∷ record { event = codes "ClockUpdatedSeconds"; content = codes "m1" }
    ∷ record { event = codes "StatfeedEvent"; content = codes "m1" }
    ∷ record { event = codes "MatchEnded"; content = codes "m1" }
    ∷ record { event = codes "ClockUpdatedSeconds"; content = codes "m1" }
    ∷ []

abbrev clock : ℕ → ℕ
clock n = n

two_edges : rising_edges toy false messages ≡ 2
unfolding text_beq
two_edges = refl

translate_all-rising_edges_example :
    count_starts (translate_all clock toy messages new).1 ≡ rising_edges toy false messages
unfolding new
translate_all-rising_edges_example = translate_all-rising_edges clock toy messages new

translate_all-IsPublishable_example : All IsPublishable (translate_all clock toy messages new).1
translate_all-IsPublishable_example = translate_all-IsPublishable clock toy messages new

translate_all-Agrees_example :
    (all_allowed (listener_of new) (translate_all clock toy messages new).1 ≡ true)
    × (listen_all (listener_of new) (translate_all clock toy messages new).1
        ≡ listener_of (translate_all clock toy messages new).0)
translate_all-Agrees_example = translate_all-Agrees clock toy messages new

translate_all-actions_example :
    actions (translate_all clock toy messages new).1 ≡ messages_actions toy messages
translate_all-actions_example = translate_all-actions clock toy messages new

abbrev first_state : UpdateStateData
first_state = record {
  match_guid = codes "m2";
  players = [];
  game = record {
    teams = [];
    time_seconds = pos 300;
    overtime = false;
    frame = none;
    elapsed = none;
    ball = record { speed = 0; team_num = pos 0 };
    replay = false;
    has_winner = false;
    winner = [];
    arena = codes "Stadium_P";
    has_target = false;
    target = none;
    playlist = some (pos 2);
  };
}
