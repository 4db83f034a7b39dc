-- ===== src/Mmr/Requests.antt =====
-- internal/mmr/handler.go: how a request names a player.
pub mod Identity
use oof_rl.Prelude.{
  ℕ, Text, codes, Bool, true, false, not, ◌&&◌, ◌||◌, Option, none, some, List, [], ◌∷◌, ◌==◌,
  text_comparable, nat_beq, is_empty, to_lower, if◌then◌else◌,
}
use oof_rl.Prelude.Results.{Result, ok, err}
use oof_rl.Mmr.{PlayerIdentity, new_player_identity, is_all_asterisks}

pub data RequestError : Type 0 where
  missing_id invalid_id masked_name : RequestError

-- '|', ':' and '_'
unfoldable pub is_separator : ℕ → Bool
is_separator c = nat_beq c 124 || nat_beq c 58 || nat_beq c 95

-- The text before the first of these characters, and the text after it, if there is one.
unfoldable pub cut_any : Text → Text × Option Text
unfolding is_separator
cut_any [] = ([], none)
cut_any (c ∷ s) =
    let (before, after) = cut_any s in if is_separator c then ([], some s) else (c ∷ before, after)

abbrev pub identity_of : Text → Text → Text → Result RequestError PlayerIdentity
identity_of raw_platform primary_id name =
    if is_all_asterisks primary_id
      || (not (to_lower raw_platform == codes "steam") && is_all_asterisks name)
    then err masked_name
    else ok (new_player_identity raw_platform primary_id name)

abbrev pub parse_cut : Text × Option Text → Text → Result RequestError PlayerIdentity
parse_cut (raw_platform, none) name = err invalid_id
parse_cut (raw_platform, some tail) name =
    if is_empty raw_platform then err invalid_id else identity_of raw_platform (cut_any tail).0 name

-- Handler, up to the identity that it looks up.
unfoldable pub parse_request : Text → Text → Result RequestError PlayerIdentity
unfolding cut_any is_all_asterisks new_player_identity
parse_request id name = if is_empty id then err missing_id else parse_cut (cut_any id) name
