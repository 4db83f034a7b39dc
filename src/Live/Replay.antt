-- ===== src/Live/Replay.antt =====
-- A replay shows the touches of live play.
use oof_rl.Prelude.{
  ◌≡◌, refl, ap, sym, ◌∙◌, Text, Bool, true, false, Option, none, some, List, [], ◌∷◌, ◌==◌, All,
  text_comparable, text_beq, text_beq_iff, text_beq_refl, is_empty, lookup, insert, lookup-insert,
  arith, Bool-cases, inl, inr, if◌then◌else◌,
}
use oof_rl.Live.{
  Player, StateUpdatedPayload, TouchSnapshot, Codec, TouchCache, State, player_cache_key, snapshot,
  refresh_live_touch_cache, restore, apply_live_touch_cache, cache_for, normalized,
  normalize_state_updated, update_state, reset_state_locked, handle_http,
}

-- The last player of a list with this key.
abbrev or_later : Option TouchSnapshot → Option TouchSnapshot → Option TouchSnapshot
or_later first none = first
or_later first (some later) = some later

abbrev pub touches_in : Codec → List Player → Text → Option TouchSnapshot
touches_in codec [] key = none
touches_in codec (pl ∷ players) key =
    or_later (if player_cache_key codec pl == key then some (snapshot pl) else none)
      (touches_in codec players key)

-- The touches of the last live frame in which the player was seen since the match of the last frame
-- became the current one; the frames come newest first.
abbrev pub last_guid : List StateUpdatedPayload → Text
last_guid [] = []
last_guid (ev ∷ older) = ev.guid

abbrev pub frame_touches : Codec → Option Bool → Option (List Player) → Text → Option TouchSnapshot
frame_touches codec (some false) (some players) key = touches_in codec players key
frame_touches codec game players key = none

abbrev pub live_touches : Codec → List StateUpdatedPayload → Text → Option TouchSnapshot
live_touches codec [] key = none
live_touches codec (ev ∷ older) key =
    let before = live_touches codec older key in
    or_later (if ev.guid == last_guid older then before else none)
      (frame_touches codec (codec.decode_is_replay ev.game) (codec.decode_players ev.players) key)

-- The plugin after these frames, the newest first.
unfoldable pub after_frames : Codec → List StateUpdatedPayload → State → State
unfolding normalize_state_updated
after_frames codec [] s = s
after_frames codec (ev ∷ older) s = update_state codec (some ev) (after_frames codec older s)

or_later-override :
    (test : Bool) (new : TouchSnapshot) (old later : Option TouchSnapshot)
    → or_later (if test then some new else old) later
      ≡ or_later old (or_later (if test then some new else none) later)
or_later-override true new none none = refl
or_later-override true new (some t) none = refl
or_later-override true new old (some later) = refl
or_later-override false new old none = refl
or_later-override false new old (some later) = refl

other_key : (s key : Text) → is_empty s ≡ true → is_empty key ≡ false → (s == key) ≡ false
unfolding text_beq
other_key [] [] h k = absurd (ground (arith, k))
other_key [] (c ∷ key) h k = refl
other_key (d ∷ s) key h k = absurd (ground (arith, h))

refresh-lookup :
    (codec : Codec) (players : List Player) (cache : TouchCache) (key : Text)
    → is_empty key ≡ false
    → lookup key (refresh_live_touch_cache codec players cache)
      ≡ or_later (lookup key cache) (touches_in codec players key)
unfolding refresh_live_touch_cache
refresh-lookup codec [] cache key named = refl
refresh-lookup codec (pl ∷ players) cache key named =
    elim (Bool-cases (is_empty (player_cache_key codec pl))) [
      | inl nameless ↦
          rw (nameless, other_key (player_cache_key codec pl) key nameless named)
            (refresh-lookup codec players cache key named
              ∙ ap (or_later (lookup key cache)) (sym (drop_none (touches_in codec players key))))
      | inr has_name ↦ rw has_name (
          refresh-lookup codec players (insert (player_cache_key codec pl) (snapshot pl) cache) key
            named
          ∙ ap (λ found. or_later found (touches_in codec players key))
              (lookup-insert (player_cache_key codec pl) key (snapshot pl) cache)
          ∙ or_later-override (player_cache_key codec pl == key) (snapshot pl) (lookup key cache)
              (touches_in codec players key))
    ]
  where
    drop_none : (t : Option TouchSnapshot) → or_later none t ≡ t
    drop_none none = refl
    drop_none (some t) = refl

normalized-cache :
    (codec : Codec) (ev : StateUpdatedPayload) (game : Option Bool) (players : Option (List Player))
    (s : State) (key : Text)
    → is_empty key ≡ false
    → lookup key (normalized codec ev game players s).0.touch_cache
      ≡ or_later (lookup key s.touch_cache) (frame_touches codec game players key)
normalized-cache codec ev (some false) (some players) s key named =
    refresh-lookup codec players s.touch_cache key named
normalized-cache codec ev (some true) (some players) s key named = refl
normalized-cache codec ev (some false) none s key named = refl
normalized-cache codec ev (some true) none s key named = refl
normalized-cache codec ev none (some players) s key named = refl
normalized-cache codec ev none none s key named = refl

normalized-guid :
    (codec : Codec) (ev : StateUpdatedPayload) (game : Option Bool) (players : Option (List Player))
    (s : State)
    → (normalized codec ev game players s).0.touch_cache_guid ≡ s.touch_cache_guid
normalized-guid codec ev (some false) (some players) s = refl
normalized-guid codec ev (some true) (some players) s = refl
normalized-guid codec ev (some false) none s = refl
normalized-guid codec ev (some true) none s = refl
normalized-guid codec ev none (some players) s = refl
normalized-guid codec ev none none s = refl

cache_for-guid : (guid : Text) (s : State) → (cache_for guid s).touch_cache_guid ≡ guid
cache_for-guid guid s = elim (Bool-cases (guid == s.touch_cache_guid)) [
  | inl same ↦ rw same (sym ((text_beq_iff guid s.touch_cache_guid).0 same))
  | inr other ↦ rw other refl
]

after_frames-guid :
    (codec : Codec) (evs : List StateUpdatedPayload)
    → (after_frames codec evs reset_state_locked).touch_cache_guid ≡ last_guid evs
unfolding after_frames normalize_state_updated
after_frames-guid codec [] = refl
after_frames-guid codec (ev ∷ older) =
    normalized-guid codec ev (codec.decode_is_replay ev.game) (codec.decode_players ev.players)
      (cache_for ev.guid (after_frames codec older reset_state_locked))
    ∙ cache_for-guid ev.guid (after_frames codec older reset_state_locked)

cache_for-lookup :
    (guid : Text) (s : State) (last : Text) (touches : Option TouchSnapshot) (key : Text)
    → s.touch_cache_guid ≡ last
    → lookup key s.touch_cache ≡ touches
    → lookup key (cache_for guid s).touch_cache ≡ (if guid == last then touches else none)
unfolding lookup
cache_for-lookup guid s last touches key g h = elim (Bool-cases (guid == last)) [
  | inl same ↦ rw (g, same) h
  | inr other ↦ rw (g, other) refl
]

after_frames-cache :
    (codec : Codec) (evs : List StateUpdatedPayload) (key : Text)
    → is_empty key ≡ false
    → lookup key (after_frames codec evs reset_state_locked).touch_cache
      ≡ live_touches codec evs key
unfolding after_frames normalize_state_updated lookup
after_frames-cache codec [] key named = refl
after_frames-cache codec (ev ∷ older) key named =
    normalized-cache codec ev (codec.decode_is_replay ev.game) (codec.decode_players ev.players)
      (cache_for ev.guid (after_frames codec older reset_state_locked)) key named
    ∙ ap
        (λ found. or_later found (
          frame_touches codec (codec.decode_is_replay ev.game) (codec.decode_players ev.players)
            key))
        (cache_for-lookup ev.guid (after_frames codec older reset_state_locked) (last_guid older)
          (live_touches codec older key) key (after_frames-guid codec older)
          (after_frames-cache codec older key named))

-- The players of a replay with the touches of live play.
abbrev pub with_live_touches : Codec → List StateUpdatedPayload → List Player → List Player
with_live_touches codec evs [] = []
with_live_touches codec evs (pl ∷ players) =
    restore (live_touches codec evs (player_cache_key codec pl)) pl
    ∷ with_live_touches codec evs players

apply-with_live_touches :
    (codec : Codec) (evs : List StateUpdatedPayload) (cache : TouchCache) (players : List Player)
    → ((key : Text) → is_empty key ≡ false → lookup key cache ≡ live_touches codec evs key)
    → All (λ (pl : Player). is_empty (player_cache_key codec pl) ≡ false) players
    → apply_live_touch_cache codec players cache ≡ with_live_touches codec evs players
unfolding apply_live_touch_cache
apply-with_live_touches codec evs cache [] h named = refl
apply-with_live_touches codec evs cache (pl ∷ players) h named =
    rw
      (
        h (player_cache_key codec pl) named.0,
        apply-with_live_touches codec evs cache players h named.1,
      )
      refl

-- If, after any frames since the start or a reset, a frame of a replay of the same match comes, it can
-- be decoded, its players have keys and can be encoded again, then the state that is served has each
-- player with the touches of the last live frame of this match in which that player was seen, and
-- unchanged if there is none.
pub replay_shows_live_touches :
    (codec : Codec) (evs : List StateUpdatedPayload) (ev : StateUpdatedPayload)
    (players : List Player) (shown : Text)
    → codec.decode_is_replay ev.game ≡ some true
    → codec.decode_players ev.players ≡ some players
    → ev.guid ≡ last_guid evs
    → All (λ (pl : Player). is_empty (player_cache_key codec pl) ≡ false) players
    → codec.encode_players (with_live_touches codec evs players) ≡ some shown
    → handle_http (after_frames codec (ev ∷ evs) reset_state_locked)
      ≡ some (record { match_guid = ev.guid; players = shown; game = ev.game })
unfolding after_frames normalize_state_updated handle_http
replay_shows_live_touches codec evs ev players shown replay decoded same named encoded =
    rw
      (
        replay,
        decoded,
        apply-with_live_touches codec evs
            (cache_for ev.guid (after_frames codec evs reset_state_locked)).touch_cache players
            cached named,
        encoded,
      )
      refl
  where
    cached :
        (key : Text)
        → is_empty key ≡ false
        → lookup key (cache_for ev.guid (after_frames codec evs reset_state_locked)).touch_cache
          ≡ live_touches codec evs key
    cached key has_name =
        cache_for-lookup ev.guid (after_frames codec evs reset_state_locked) (last_guid evs)
          (live_touches codec evs key) key (after_frames-guid codec evs)
          (after_frames-cache codec evs key has_name)
        ∙ rw (same, text_beq_refl (last_guid evs)) refl
