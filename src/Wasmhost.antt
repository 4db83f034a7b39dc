-- ===== src/Wasmhost.antt =====
-- internal/wasmhost/metadata_validation.go: the checks of what a plugin declares before the host
-- takes it, and the paths of routes.go.
pub mod Routes
use oof_rl.Prelude.{
  ℕ, ℤ, pos, ltb_ℤ, Text, codes, Bool, true, false, not, ◌&&◌, ◌||◌, Option, none, some, List, [],
  ◌∷◌, ◌++◌, ◌==◌, text_comparable, nat_beq, ltb, leb, ◌-◌, is_empty, has_prefix, trim_space,
  length, map, contains, if◌then◌else◌,
}

pub record RouteMeta : Type 0 where
  pub path : Text
  pub method : Text

pub record DeclaredEvent : Type 0 where
  pub event_type : Text
  pub certainty : ℤ

-- The fields of sdk.PluginMeta that are checked.
pub record PluginMeta : Type 0 where
  pub id : Text
  pub routes : List RouteMeta
  pub declared_events : List DeclaredEvent

pub data MetaError : Type 0 where
  plugin_id_required route_path_required event_type_required : MetaError
  plugin_id_reserved plugin_id_characters : Text → MetaError
  route_path_outside route_path_characters duplicate_route_path : Text → MetaError
  unsupported_route_method : Text → Text → MetaError
  duplicate_event_type : Text → MetaError
  invalid_certainty : ℤ → Text → MetaError

abbrev pub reserved_plugin_ids : List Text
reserved_plugin_ids =
    codes "config"
    ∷ codes "data-dir"
    ∷ codes "db"
    ∷ codes "debug"
    ∷ codes "history"
    ∷ codes "matches"
    ∷ codes "nav"
    ∷ codes "overlay"
    ∷ codes "players"
    ∷ codes "plugins"
    ∷ codes "settings"
    ∷ codes "tracker"
    ∷ codes "update"
    ∷ codes "ws"
    ∷ []

-- a to z, 0 to 9, '-' and '_'
unfoldable pub is_id_rune : ℕ → Bool
is_id_rune r = (leb 97 r && leb r 122) || (leb 48 r && leb r 57) || nat_beq r 45 || nat_beq r 95

unfoldable pub are_id_runes : Text → Bool
unfolding is_id_rune
are_id_runes [] = true
are_id_runes (r ∷ id) = is_id_rune r && are_id_runes id

unfoldable pub validate_plugin_id : Text → Option MetaError
unfolding are_id_runes
validate_plugin_id id =
    if is_empty id
    then some plugin_id_required
    else if contains reserved_plugin_ids id
    then some (plugin_id_reserved id)
    else if are_id_runes id
    then none
    else some (plugin_id_characters id)

-- strings.ToUpper on the letters that have an ASCII upper case: a to z, the Turkish dotless i and the
-- long s. No other letter is mapped to ASCII, and the result is only compared with ASCII words.
unfoldable pub to_upper_rune : ℕ → ℕ
to_upper_rune c =
    if leb 97 c && leb c 122
    then c - 32
    else if nat_beq c 305
    then 73
    else if nat_beq c 383
    then 83
    else c

abbrev pub route_methods : List Text
route_methods =
    codes "GET"
    ∷ codes "POST"
    ∷ codes "PUT"
    ∷ codes "PATCH"
    ∷ codes "DELETE"
    ∷ codes "HEAD"
    ∷ codes "OPTIONS"
    ∷ []

-- strings.Contains(path, "..")
unfoldable pub has_dots : Text → Bool
has_dots [] = false
has_dots (c ∷ s) = has_prefix (c ∷ s) (codes "..") || has_dots s

-- strings.ContainsAny(path, "%\\")
unfoldable pub has_escape : Text → Bool
has_escape [] = false
has_escape (c ∷ s) = nat_beq c 37 || nat_beq c 92 || has_escape s

abbrev pub api_prefix : Text → Text
api_prefix plugin_id = codes "/api/" ++ (plugin_id ++ codes "/")

-- The checks of one route; the error of the method comes after the path is noted as seen.
unfoldable pub validate_route : Text → RouteMeta → List Text → Option MetaError
unfolding has_dots has_escape to_upper_rune
validate_route prefix r seen_path =
    let path = trim_space r.path in
    let method = map to_upper_rune (trim_space r.method) in
    if is_empty path
    then some route_path_required
    else if not (has_prefix path prefix) || nat_beq (length path) (length prefix)
    then some (route_path_outside path)
    else if has_dots path || has_escape path
    then some (route_path_characters path)
    else if contains seen_path path
    then some (duplicate_route_path path)
    else if is_empty method || contains route_methods method
    then none
    else some (unsupported_route_method method path)

abbrev pub or_next : Option MetaError → Option MetaError → Option MetaError
or_next none next = next
or_next (some e) next = some e

unfoldable pub validate_routes_from : Text → List RouteMeta → List Text → Option MetaError
unfolding validate_route
validate_routes_from prefix [] seen_path = none
validate_routes_from prefix (r ∷ rs) seen_path =
    or_next (validate_route prefix r seen_path)
      (validate_routes_from prefix rs (trim_space r.path ∷ seen_path))

unfoldable pub validate_route_meta : Text → List RouteMeta → Option MetaError
unfolding validate_routes_from
validate_route_meta plugin_id routes = validate_routes_from (api_prefix plugin_id) routes []

-- Authoritative is 0 and Signal 2.
unfoldable pub validate_event : DeclaredEvent → List Text → Option MetaError
validate_event e seen =
    let type_name = trim_space e.event_type in
    if is_empty type_name
    then some event_type_required
    else if contains seen type_name
    then some (duplicate_event_type type_name)
    else if ltb_ℤ e.certainty (pos 0) || ltb_ℤ (pos 2) e.certainty
    then some (invalid_certainty e.certainty type_name)
    else none

unfoldable pub validate_events_from : List DeclaredEvent → List Text → Option MetaError
unfolding validate_event
validate_events_from [] seen = none
validate_events_from (e ∷ es) seen =
    or_next (validate_event e seen) (validate_events_from es (trim_space e.event_type ∷ seen))

-- validateDeclaredEventsMeta
unfoldable pub validate_declared_events_meta : List DeclaredEvent → Option MetaError
unfolding validate_events_from
validate_declared_events_meta events = validate_events_from events []

-- The three checks of a plugin's metadata at the end of its loading.
unfoldable pub validate_metadata : PluginMeta → Option MetaError
unfolding validate_plugin_id validate_route_meta validate_declared_events_meta
validate_metadata meta = or_next (validate_plugin_id meta.id) (
    or_next (validate_route_meta meta.id meta.routes)
      (validate_declared_events_meta meta.declared_events))

-- RoutePaths, which are also the patterns that Routes registers.
unfoldable pub route_paths : List RouteMeta → List Text
route_paths [] = []
route_paths (r ∷ rs) = let rest = route_paths rs in if is_empty r.path then rest else r.path ∷ rest
