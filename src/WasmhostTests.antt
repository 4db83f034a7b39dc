-- ===== src/WasmhostTests.antt =====
-- The theorem about the routes of plugins at a concrete input, and a test.
use oof_rl.Prelude.{
  ◌≡◌, refl, pos, Text, codes, text_beq, true, text_comparable, none, [], ◌∷◌, has_prefix,
  trim_space, contains, are_distinct,
}
use oof_rl.Wasmhost.{PluginMeta, RouteMeta, validate_route_meta, validate_metadata, route_paths}
use oof_rl.Wasmhost.Routes.{checked_paths, routes_never_collide}

abbrev route : Text → RouteMeta
route path = record { path = path; method = codes "get" }

abbrev meta : PluginMeta
meta = record {
  id = codes "live";
  routes = route (codes "/api/live/state") ∷ route (codes "/api/live/b") ∷ [];
  declared_events = record { event_type = codes "live.up"; certainty = pos 2 } ∷ [];
}

routes_never_collide_example :
    (are_distinct (checked_paths meta.routes) ≡ true)
    × (◌≡◌ {A = Text} (codes "live") (codes "live"))
unfolding validate_metadata contains text_beq trim_space are_distinct has_prefix
routes_never_collide_example =
    routes_never_collide meta meta (codes "/api/live/b") refl refl refl refl

-- A path with a space before it passes, and is registered with the space.
space_kept :
    (validate_route_meta (codes "live") (route (codes " /api/live/a") ∷ []) ≡ none)
    × (route_paths (route (codes " /api/live/a") ∷ []) ≡ codes " /api/live/a" ∷ [])
unfolding validate_route_meta contains text_beq trim_space route_paths has_prefix
space_kept = (refl, refl)
