-- ===== src/Core/Plugins.antt =====
-- internal/core/server.go: the plugins of the server, and the order in which they are initialised.
-- A method that changes the Server returns it; of a plugin the model keeps ID() and Requires().
pub mod Graph
pub mod Index
pub mod Kahn
pub mod Loop
pub mod Rounds
pub mod Settings
pub mod Sorted
pub mod TopoSort
use oof_rl.Prelude.{
  ℕ, ℤ, pos, inc_ℤ, dec_ℤ, zero, suc, ◌+◌, Text, codes, Bool, true, false, not, ◌&&◌, ◌||◌, Option,
  none, some, List, [], ◌∷◌, ◌++◌, ◌==◌, int_comparable, text_comparable, nat_beq, is_empty,
  trim_space, has_suffix, length, keep, lookup, insert, contains, if◌then◌else◌,
}
use oof_rl.Prelude.Results.{Result, ok, err, ◌>>=◌}

pub record Plugin : Type 0 where
  pub id : Text
  pub requires : List Text

pub data PluginError : Type 0 where
  requires_unknown requires_disabled : Text → Text → PluginError
  circular_dependency out_of_fuel : PluginError
  duplicate_id init_failed : Text → PluginError

-- The fields that the plugins are about; `active_by_id` is a map.
pub record Server : Type 0 where
  pub plugins : List Plugin
  pub disabled : List Text
  pub active_cached : List Plugin
  pub active_by_id : List (Text × Plugin)
  pub active_dirty : Bool

unfoldable pub is_host_core_plugin_id : Text → Bool
is_host_core_plugin_id plugin_id = plugin_id == codes "history"

-- NewServer
unfoldable pub new_server : List Text → Server
new_server disabled_plugins = record {
  plugins = [];
  disabled = disabled_plugins;
  active_cached = [];
  active_by_id = [];
  active_dirty = true;
}

unfoldable pub is_plugin_disabled_in_set : Text → List Text → Bool
is_plugin_disabled_in_set plugin_id disabled = contains disabled plugin_id

-- Use
unfoldable pub use_plugin : Plugin → Server → Server
use_plugin p s = record s { plugins = s.plugins ++ (p ∷ []); active_dirty = true }

unfoldable pub get : Text → List Plugin → Option Plugin
get id [] = none
get id (p ∷ ps) = if p.id == id then some p else get id ps

-- The loop of sanitizeDisabledPlugins; `out` is also the set `seen`.
unfoldable pub sanitize_from : List Text → List Text → List Text
sanitize_from [] out = out
sanitize_from (raw ∷ ids) out =
    let id = trim_space raw in
    sanitize_from ids (
      if is_empty id || is_host_core_plugin_id id || contains out id then out else out ++ (id ∷ []))

-- A nil slice and an empty one are the same list.
unfoldable pub sanitize_disabled_plugins : List Text → List Text
unfolding sanitize_from
sanitize_disabled_plugins ids = sanitize_from ids []

unfoldable pub index_plugins : List Plugin → List (Text × Plugin) → List (Text × Plugin)
index_plugins [] by_id = by_id
index_plugins (p ∷ ps) by_id = index_plugins ps (insert p.id p by_id)

unfoldable pub rebuild_active_plugin_cache : Server → Server
unfolding index_plugins is_plugin_disabled_in_set
rebuild_active_plugin_cache s =
    let active = keep (λ (p : Plugin). not (is_plugin_disabled_in_set p.id s.disabled)) s.plugins in
    record s {
      active_cached = active;
      active_by_id = index_plugins active [];
      active_dirty = false;
    }

unfoldable pub active_plugins : Server → Server × List Plugin
unfolding rebuild_active_plugin_cache
active_plugins s =
    let s' = if s.active_dirty then rebuild_active_plugin_cache s else s in (s', s'.active_cached)

unfoldable pub find_plugin_target : Text → Server → Server × Option Plugin
unfolding active_plugins
find_plugin_target plugin_id s =
    let (s', _) = active_plugins s in (s', lookup plugin_id s'.active_by_id)

unfoldable pub ids : List Plugin → List Text
ids [] = []
ids (p ∷ ps) = p.id ∷ ids ps

-- The loops of validateActivePluginDependencies.
unfoldable pub validate_requirements :
    List Text → List Text → List Text → Text → List Text → Option PluginError
validate_requirements active_set all_set disabled id [] = none
validate_requirements active_set all_set disabled id (req ∷ reqs) =
    let rest = validate_requirements active_set all_set disabled id reqs in
    if contains active_set req
    then rest
    else if contains all_set req && is_plugin_disabled_in_set req disabled
    then some (requires_disabled id req)
    else rest

abbrev first_error {ℓ} : {E : Type ℓ} → Option E → Option E → Option E
first_error none later = later
first_error (some e) later = some e

unfoldable pub validate_from : List Text → List Text → List Text → List Plugin → Option PluginError
unfolding validate_requirements
validate_from active_set all_set disabled [] = none
validate_from active_set all_set disabled (p ∷ ps) =
    first_error (validate_requirements active_set all_set disabled p.id p.requires)
      (validate_from active_set all_set disabled ps)

unfoldable pub validate_active_plugin_dependencies : List Plugin → Server → Option PluginError
unfolding validate_from ids
validate_active_plugin_dependencies active s =
    validate_from (ids active) (ids s.plugins) s.disabled active

-- inDegree and dependants.
abbrev pub Degrees : Type 0
Degrees = List (Text × ℤ)

abbrev pub Dependants : Type 0
Dependants = List (Text × List Text)

abbrev int_or_zero : Option ℤ → ℤ
int_or_zero none = pos 0
int_or_zero (some n) = n

abbrev list_or_nil : Option (List Text) → List Text
list_or_nil none = []
list_or_nil (some texts) = texts

-- inDegree[id] and dependants[id]
unfoldable pub degree : Text → Degrees → ℤ
degree id degrees = int_or_zero (lookup id degrees)

unfoldable pub dependants_of : Text → Dependants → List Text
dependants_of id dependants = list_or_nil (lookup id dependants)

abbrev pub is_some {ℓ} : {A : Type ℓ} → Option A → Bool
is_some none = false
is_some (some _) = true

-- The body of the loop over Requires().
unfoldable pub add_requirement : Text → Text → Degrees × Dependants → Degrees × Dependants
unfolding degree dependants_of
add_requirement id req (degrees, dependants) = (
  insert id (inc_ℤ (degree id degrees)) degrees,
  insert req (dependants_of req dependants ++ (id ∷ [])) dependants,
)

unfoldable pub add_requirements :
    List (Text × Plugin)
    → Text
    → List Text
    → Degrees × Dependants
    → Result PluginError (Degrees × Dependants)
unfolding add_requirement
add_requirements by_id id [] maps = ok maps
add_requirements by_id id (req ∷ reqs) maps =
    let rest = add_requirements by_id id reqs (add_requirement id req maps) in
    if is_some (lookup req by_id) then rest else err (requires_unknown id req)

abbrev with_degree : Text → Degrees × Dependants → Degrees × Dependants
with_degree id (degrees, dependants) =
    (if is_some (lookup id degrees) then degrees else insert id (pos 0) degrees, dependants)

unfoldable pub add_plugins :
    List (Text × Plugin)
    → List Plugin
    → Degrees × Dependants
    → Result PluginError (Degrees × Dependants)
unfolding add_requirements
add_plugins by_id [] maps = ok maps
add_plugins by_id (p ∷ ps) maps =
    add_requirements by_id p.id p.requires (with_degree p.id maps) >>= add_plugins by_id ps

-- byID[id] appended to the queue; every dependant is the id of a plugin of the map.
abbrev pub queue_plugin : Option Plugin → List Plugin → List Plugin
queue_plugin none queue = queue
queue_plugin (some p) queue = queue ++ (p ∷ [])

-- The loop over the dependants of the plugin that was taken.
unfoldable pub release_dependants :
    List (Text × Plugin) → List Text → Degrees → List Plugin → Degrees × List Plugin
unfolding degree
release_dependants by_id [] degrees queue = (degrees, queue)
release_dependants by_id (dep ∷ deps) degrees queue =
    let left = dec_ℤ (degree dep degrees) in
    release_dependants by_id deps (insert dep left degrees)
      (if left == pos 0 then queue_plugin (lookup dep by_id) queue else queue)

-- The loop over the queue; `none` means that the fuel ran out.
unfoldable pub sort_queue :
    ℕ
    → List (Text × Plugin)
    → Dependants
    → Degrees
    → List Plugin
    → List Plugin
    → Option (List Plugin)
unfolding release_dependants dependants_of
sort_queue fuel by_id dependants degrees [] sorted = some sorted
sort_queue zero by_id dependants degrees (p ∷ queue) sorted = none
sort_queue (suc fuel) by_id dependants degrees (p ∷ queue) sorted =
    let (degrees', queue') =
      release_dependants by_id (dependants_of p.id dependants) degrees queue in
    sort_queue fuel by_id dependants degrees' queue' (sorted ++ (p ∷ []))

abbrev pub all_sorted : ℕ → Option (List Plugin) → Result PluginError (List Plugin)
all_sorted n none = err out_of_fuel
all_sorted n (some sorted) =
    if nat_beq (length sorted) n then ok sorted else err circular_dependency

abbrev pub sort_graph :
    List (Text × Plugin) → List Plugin → Degrees × Dependants → Result PluginError (List Plugin)
sort_graph by_id plugins (degrees, dependants) = all_sorted (length plugins) (
    sort_queue (length plugins) by_id dependants degrees
      (keep (λ (p : Plugin). degree p.id degrees == pos 0) plugins) [])

unfoldable pub topo_sort : List Plugin → Result PluginError (List Plugin)
unfolding index_plugins add_plugins
topo_sort plugins =
    let by_id = index_plugins plugins [] in
    add_plugins by_id plugins ([], []) >>= sort_graph by_id plugins
