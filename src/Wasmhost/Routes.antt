-- ===== src/Wasmhost/Routes.antt =====
-- The routes of plugins that pass the checks.
use oof_rl.Prelude.{
  ◌≡◌, refl, ap, sym, ◌∙◌, Text, codes, Bool, true, false, ◌||◌, Option, none, some, List, [], ◌∷◌,
  ◌++◌, ◌==◌, text_comparable, text_beq_iff, text_beq_refl, drop, nat_beq, has_prefix, trim_space,
  contains, are_distinct, arith, Bool-cases, inl, inr,
}
use oof_rl.Wasmhost.{
  RouteMeta, PluginMeta, MetaError, is_id_rune, are_id_runes, validate_plugin_id, api_prefix,
  validate_route, or_next, validate_routes_from, validate_route_meta, validate_metadata,
}

-- The paths as they are checked.
abbrev pub checked_paths : List RouteMeta → List Text
checked_paths [] = []
checked_paths (r ∷ rs) = trim_space r.path ∷ checked_paths rs

or_next-none : (a b : Option MetaError) → or_next a b ≡ none → (a ≡ none) × (b ≡ none)
or_next-none none b h = (refl, h)
or_next-none (some e) b h = absurd (no_error h)
  where
    no_error : ◌≡◌ {A = Option MetaError} (some e) none → ⊥
    no_error k = cc

has_prefix-rest : (s p : Text) → has_prefix s p ≡ true → (rest : Text) × (s ≡ p ++ rest)
unfolding has_prefix
has_prefix-rest s [] h = (s, refl)
has_prefix-rest [] (c ∷ p) h = absurd (ground (arith, h))
has_prefix-rest (d ∷ s) (c ∷ p) h =
    let here : d ≡ c = ground (arith, h) in
    let later : has_prefix s p ≡ true = ground (arith, h) in
    let (rest, e) = has_prefix-rest s p later in (rest, rw (here, e) refl)

-- What a path that passes looks like.
validate_route-passes :
    (prefix : Text) (r : RouteMeta) (seen_path : List Text)
    → validate_route prefix r seen_path ≡ none
    → (has_prefix (trim_space r.path) prefix ≡ true)
      × (contains seen_path (trim_space r.path) ≡ false)
unfolding validate_route
validate_route-passes prefix r seen_path h = (ground (arith, h), ground (arith, h))

-- Two ids of plugins are equal if their prefixes have a path in common.
has_slash : Text → Bool
has_slash [] = false
has_slash (c ∷ s) = nat_beq c 47 || has_slash s

id_without_slash : (id : Text) → are_id_runes id ≡ true → has_slash id ≡ false
unfolding are_id_runes is_id_rune has_slash
id_without_slash [] h = refl
id_without_slash (c ∷ id) h =
    let later : are_id_runes id ≡ true = ground (arith, h) in
    ground (arith, h, id_without_slash id later)

same_segment :
    (a b x y : Text)
    → has_slash a ≡ false
    → has_slash b ≡ false
    → a ++ (47 ∷ x) ≡ b ++ (47 ∷ y)
    → a ≡ b
unfolding has_slash
same_segment [] [] x y h k e = refl
same_segment [] (d ∷ b) x y h k e = absurd (first e)
  where
    first : 47 ∷ x ≡ d ∷ (b ++ (47 ∷ y)) → ⊥
    first f = ground (arith, f, k)
same_segment (c ∷ a) [] x y h k e = absurd (first e)
  where
    first : c ∷ (a ++ (47 ∷ x)) ≡ 47 ∷ y → ⊥
    first f = ground (arith, f, h)
same_segment (c ∷ a) (d ∷ b) x y h k e =
    let here : c ≡ d = ground (arith, e) in
    let tails : a ++ (47 ∷ x) ≡ b ++ (47 ∷ y) = ground (arith, e) in
    let h' : has_slash a ≡ false = ground (arith, h) in
    let k' : has_slash b ≡ false = ground (arith, k) in
    rw (here, same_segment a b x y h' k' tails) refl

checked_paths-prefix :
    (prefix : Text) (rs : List RouteMeta) (seen_path : List Text) (path : Text)
    → validate_routes_from prefix rs seen_path ≡ none
    → contains (checked_paths rs) path ≡ true
    → has_prefix path prefix ≡ true
unfolding validate_routes_from contains
checked_paths-prefix prefix [] seen_path path h k = absurd (ground (arith, k))
checked_paths-prefix prefix (r ∷ rs) seen_path path h k =
    let (this, later) =
      or_next-none (validate_route prefix r seen_path)
        (validate_routes_from prefix rs (trim_space r.path ∷ seen_path)) h in
    elim (Bool-cases (trim_space r.path == path)) [
      | inl same ↦
          rw (← (text_beq_iff (trim_space r.path) path).0 same)
            (validate_route-passes prefix r seen_path this).0
      | inr other ↦
          checked_paths-prefix prefix rs (trim_space r.path ∷ seen_path) path later (rw other at k)
    ]

-- A path that was seen does not come again.
checked_paths-seen :
    (prefix : Text) (rs : List RouteMeta) (seen_path : List Text) (path : Text)
    → validate_routes_from prefix rs seen_path ≡ none
    → contains seen_path path ≡ true
    → contains (checked_paths rs) path ≡ false
unfolding validate_routes_from contains
checked_paths-seen prefix [] seen_path path h k = refl
checked_paths-seen prefix (r ∷ rs) seen_path path h k =
    let (this, later) =
      or_next-none (validate_route prefix r seen_path)
        (validate_routes_from prefix rs (trim_space r.path ∷ seen_path)) h in
    elim (Bool-cases (trim_space r.path == path)) [
      | inl same ↦
          let equal = (text_beq_iff (trim_space r.path) path).0 same in
          absurd (both (rw equal at ((validate_route-passes prefix r seen_path this).1)))
      | inr other ↦
          rw other
            (checked_paths-seen prefix rs (trim_space r.path ∷ seen_path) path later (rw other k))
    ]
  where
    both : contains seen_path path ≡ false → ⊥
    both e = ground (arith, e, k)

checked_paths-distinct :
    (prefix : Text) (rs : List RouteMeta) (seen_path : List Text)
    → validate_routes_from prefix rs seen_path ≡ none
    → are_distinct (checked_paths rs) ≡ true
unfolding validate_routes_from contains are_distinct
checked_paths-distinct prefix [] seen_path h = refl
checked_paths-distinct prefix (r ∷ rs) seen_path h =
    let (this, later) =
      or_next-none (validate_route prefix r seen_path)
        (validate_routes_from prefix rs (trim_space r.path ∷ seen_path)) h in
    rw
      (
        checked_paths-seen prefix rs (trim_space r.path ∷ seen_path) (trim_space r.path) later
            (rw (text_beq_refl (trim_space r.path)) refl),
        checked_paths-distinct prefix rs (trim_space r.path ∷ seen_path) later,
      )
      refl

validate_plugin_id-runes : (id : Text) → validate_plugin_id id ≡ none → are_id_runes id ≡ true
unfolding validate_plugin_id
validate_plugin_id-runes id h = ground (arith, h)

append_slash : (id rest : Text) → (id ++ codes "/") ++ rest ≡ id ++ (47 ∷ rest)
append_slash [] rest = refl
append_slash (c ∷ id) rest = ap (λ s. c ∷ s) (append_slash id rest)

same_prefix :
    (a b path : Text)
    → has_slash a ≡ false
    → has_slash b ≡ false
    → has_prefix path (api_prefix a) ≡ true
    → has_prefix path (api_prefix b) ≡ true
    → a ≡ b
same_prefix a b path h k p q =
    let (x, e) = has_prefix-rest path (api_prefix a) p in
    let (y, f) = has_prefix-rest path (api_prefix b) q in
    same_segment a b x y h k (sym (append_slash a x) ∙ ap (drop 5) (sym e ∙ f) ∙ append_slash b y)

-- Of plugins whose metadata pass the checks, none declares a path twice and no two with different ids
-- declare the same path, the spaces around a path left out.
pub routes_never_collide :
    (m n : PluginMeta) (path : Text)
    → validate_metadata m ≡ none
    → validate_metadata n ≡ none
    → contains (checked_paths m.routes) path ≡ true
    → contains (checked_paths n.routes) path ≡ true
    → (are_distinct (checked_paths m.routes) ≡ true) × (m.id ≡ n.id)
unfolding validate_metadata validate_route_meta
routes_never_collide m n path valid_m valid_n in_m in_n =
    let (id_m, rest_m) = or_next-none (validate_plugin_id m.id) _ valid_m in
    let (id_n, rest_n) = or_next-none (validate_plugin_id n.id) _ valid_n in
    let routes_m = (or_next-none (validate_route_meta m.id m.routes) _ rest_m).0 in
    let routes_n = (or_next-none (validate_route_meta n.id n.routes) _ rest_n).0 in
    (
      checked_paths-distinct (api_prefix m.id) m.routes [] routes_m,
      same_prefix m.id n.id path (id_without_slash m.id (validate_plugin_id-runes m.id id_m))
          (id_without_slash n.id (validate_plugin_id-runes n.id id_n))
          (checked_paths-prefix (api_prefix m.id) m.routes [] path routes_m in_m)
          (checked_paths-prefix (api_prefix n.id) n.routes [] path routes_n in_n),
    )
