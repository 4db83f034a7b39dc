-- ===== src/Core/Loading.antt =====
-- internal/core/server.go: LoadPlugins, LoadWASMPlugins, InitPlugins and ShutdownPlugins. What a
-- plugin's Init and the WASM loader do is outside: `starts` says whether Init succeeds, and an entry
-- of the folder carries the plugin that wasmhost.Load returned, if any.
pub mod Startup
use oof_rl.Prelude.{
  Text, codes, Bool, true, false, not, ◌&&◌, ◌||◌, Option, none, some, List, [], ◌∷◌, ◌++◌,
  has_suffix, if◌then◌else◌,
}
use oof_rl.Prelude.Results.{Result, ok, err}
use mathlib.Core.List.{reverse}
use oof_rl.Core.Plugins.{
  Plugin, PluginError, Server, init_failed, duplicate_id, is_some, get, use_plugin, active_plugins,
  validate_active_plugin_dependencies, topo_sort,
}

-- LoadPlugins, in the order in which the range visits the factories.
unfoldable pub load_plugins : List Plugin → Server → Server × Option PluginError
load_plugins [] s = (s, none)
load_plugins (p ∷ ps) s =
    let rest = load_plugins ps (use_plugin p s) in
    if is_some (get p.id s.plugins) then (s, some (duplicate_id p.id)) else rest

pub record DirEntry : Type 0 where
  pub name : Text
  pub is_dir : Bool
  pub loaded : Option Plugin

abbrev use_new : Option Plugin → Server → Server
use_new none s = s
use_new (some p) s = if is_some (get p.id s.plugins) then s else use_plugin p s

-- The loop of LoadWASMPlugins.
unfoldable pub load_wasm_plugins : List DirEntry → Server → Server
load_wasm_plugins [] s = s
load_wasm_plugins (e ∷ es) s =
    load_wasm_plugins es
      (if e.is_dir || not (has_suffix e.name (codes ".wasm")) then s else use_new e.loaded s)

-- The plugins whose Init was called and succeeded, and the error that ended the loop.
unfoldable pub init_each : (Plugin → Bool) → List Plugin → List Plugin × Option PluginError
init_each starts [] = ([], none)
init_each starts (p ∷ ps) =
    let (started, error) = init_each starts ps in
    if starts p then (p ∷ started, error) else ([], some (init_failed p.id))

abbrev init_sorted :
    (Plugin → Bool) → Result PluginError (List Plugin) → List Plugin × Option PluginError
init_sorted starts (ok sorted) = init_each starts sorted
init_sorted starts (err e) = ([], some e)

abbrev init_valid :
    (Plugin → Bool) → List Plugin → Option PluginError → List Plugin × Option PluginError
init_valid starts active none = init_sorted starts (topo_sort active)
init_valid starts active (some e) = ([], some e)

-- InitPlugins
unfoldable pub init_plugins : (Plugin → Bool) → Server → Server × List Plugin × Option PluginError
unfolding init_each
init_plugins starts s =
    let (s', active) = active_plugins s in
    let (started, error) =
      init_valid starts active (validate_active_plugin_dependencies active s') in
    (s', started, error)

-- ShutdownPlugins: the plugins in the order of the calls.
unfoldable pub shutdown_plugins : Server → List Plugin
shutdown_plugins s = reverse s.plugins
