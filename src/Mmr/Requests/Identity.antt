-- ===== src/Mmr/Requests/Identity.antt =====
-- A request names the player that its id was made from.
use oof_rl.Prelude.{
  ℕ, ◌≡◌, refl, Text, codes, Bool, true, false, not, ◌&&◌, ◌||◌, none, some, [], ◌∷◌, ◌++◌, ◌==◌,
  text_comparable, is_empty, to_lower, arith,
}
use oof_rl.Prelude.Results.{ok}
use oof_rl.Mmr.{new_player_identity, is_all_asterisks}
use oof_rl.Mmr.Requests.{is_separator, cut_any, parse_request}

abbrev pub has_separator : Text → Bool
has_separator [] = false
has_separator (c ∷ s) = is_separator c || has_separator s

-- The id of a player as a request spells it.
abbrev pub composite_id : Text → ℕ → Text → Text
composite_id platform separator primary_id = platform ++ (separator ∷ primary_id)

cut_any-append :
    (before tail : Text) (c : ℕ)
    → has_separator before ≡ false
    → is_separator c ≡ true
    → cut_any (before ++ (c ∷ tail)) ≡ (before, some tail)
unfolding cut_any
cut_any-append [] tail c h k = rw k refl
cut_any-append (d ∷ before) tail c h k =
    let d_is_none : is_separator d ≡ false = ground (arith, h) in
    let none_follows : has_separator before ≡ false = ground (arith, h) in
    rw (cut_any-append before tail c none_follows k, d_is_none) refl

cut_any-plain : (s : Text) → has_separator s ≡ false → cut_any s ≡ (s, none)
unfolding cut_any
cut_any-plain [] h = refl
cut_any-plain (d ∷ s) h =
    let d_is_none : is_separator d ≡ false = ground (arith, h) in
    let none_follows : has_separator s ≡ false = ground (arith, h) in
    rw (cut_any-plain s none_follows, d_is_none) refl

and_false : (b : Bool) → (b && false) ≡ false
and_false b = ground arith

-- If neither the platform nor the primary id has a separator, the platform is not empty and no name
-- is masked, a request with the platform, a separator and the primary id looks up this very player.
pub parse_request-composite_id :
    (platform primary_id name : Text) (separator : ℕ)
    → is_empty platform ≡ false
    → has_separator platform ≡ false
    → has_separator primary_id ≡ false
    → is_separator separator ≡ true
    → is_all_asterisks primary_id ≡ false
    → is_all_asterisks name ≡ false
    → parse_request (composite_id platform separator primary_id) name
      ≡ ok (new_player_identity platform primary_id name)
unfolding parse_request new_player_identity
parse_request-composite_id [] primary_id name separator e h k s m n = absurd (empty e)
  where
    empty : true ≡ false → ⊥
    empty f = ground (arith, f)
parse_request-composite_id (c ∷ platform) primary_id name separator e h k s m n =
    rw
      (
        cut_any-append (c ∷ platform) primary_id separator h s,
        cut_any-plain primary_id k,
        m,
        n,
        and_false (not (to_lower (c ∷ platform) == codes "steam")),
      )
      refl
