-- ===== src/Mmr.antt =====
-- internal/mmr: mmr.go, identity.go, strutil.go and the reading of a request in handler.go. A float64
-- is an opaque bit pattern.
pub mod Fallback
pub mod Cache
pub mod Requests
use oof_rl.Prelude.{
  ℕ, ℤ, Text, codes, Bool, true, false, not, ◌&&◌, ◌||◌, Option, none, some, List, [], ◌∷◌, ◌++◌,
  ◌==◌, text_comparable, nat_beq, is_empty, to_lower, contains, if◌then◌else◌,
}
use oof_rl.Prelude.Results.{Result, ok, err}

pub record PlayerIdentity : Type 0 where
  pub primary_id : Text
  pub display_name : Text
  pub platform : Text

pub record PlaylistRank : Type 0 where
  pub playlist_id : ℤ
  pub playlist_name : Text
  pub mmr : ℕ
  pub tier : ℤ
  pub tier_name : Text
  pub division : ℤ
  pub icon_url : Text

-- A nil slice is `none`.
abbrev pub Ranks : Type 0
Ranks = Option (List PlaylistRank)

-- The errors of the package; `cancelled` is what ctx.Err() gives, `upstream` a provider's own error.
pub data LookupError : Type 0 where
  no_providers : LookupError
  unsupported : Text → LookupError
  cancelled : Text → LookupError
  upstream : (is_permanent : Bool) → Text → LookupError

unfoldable pub is_permanent_error : LookupError → Bool
is_permanent_error (upstream permanent message) = permanent
is_permanent_error other = false

-- NormalizePlatform
unfoldable pub normalize_platform : Text → Text
normalize_platform raw =
    let slug = to_lower raw in
    if slug == codes "steam"
    then codes "steam"
    else if contains (codes "epic" ∷ codes "epicgames" ∷ []) slug
    then codes "epic"
    else if contains (codes "ps4" ∷ codes "ps5" ∷ codes "psn" ∷ codes "playstation" ∷ []) slug
    then codes "psn"
    else if contains (codes "xboxone" ∷ codes "xbox" ∷ codes "xbl" ∷ []) slug
    then codes "xbox"
    else if contains (codes "nintendo" ∷ codes "switch" ∷ []) slug
    then codes "switch"
    else slug

unfoldable pub or_fallback : Text → Text → Text
or_fallback s fallback = if is_empty s then fallback else s

-- NewPlayerIdentity
unfoldable pub new_player_identity : Text → Text → Text → PlayerIdentity
unfolding normalize_platform
new_player_identity platform primary_id display_name = record {
  primary_id = primary_id;
  display_name = if is_empty display_name then primary_id else display_name;
  platform = normalize_platform platform;
}

-- The loop of IsAllAsterisks; 42 is '*'.
unfoldable pub are_asterisks : Text → Bool
are_asterisks [] = true
are_asterisks (c ∷ s) = nat_beq c 42 && are_asterisks s

unfoldable pub is_all_asterisks : Text → Bool
unfolding are_asterisks
is_all_asterisks s = not (is_empty s) && are_asterisks s

-- A Provider; `answer` is what Lookup returns in the call at hand.
pub record Provider : Type 0 where
  pub name : Text
  pub supports : Text → Bool
  pub answer : PlayerIdentity → Result LookupError Ranks
