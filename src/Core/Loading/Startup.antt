-- ===== src/Core/Loading/Startup.antt =====
-- The plugins from loading to Init.
use oof_rl.Prelude.{
  ◌≡◌, refl, ◌∙◌, Text, codes, Bool, true, false, not, ◌||◌, Option, none, some, List, [], ◌∷◌,
  ◌++◌, text_comparable, has_suffix, keep, are_distinct, are_distinct-snoc, arith, Bool-cases, inl,
  inr, if◌then◌else◌,
}
use oof_rl.Prelude.Results.{Result, ok, err}
use oof_rl.Core.Plugins.{
  Plugin, PluginError, Server, ids, get, is_some, new_server, use_plugin, active_plugins,
  rebuild_active_plugin_cache, is_plugin_disabled_in_set, validate_active_plugin_dependencies,
  topo_sort,
}
use oof_rl.Core.Plugins.Index.{ids-snoc, get_unknown}
use oof_rl.Core.Plugins.Kahn.{is_ordered}
use oof_rl.Core.Plugins.Sorted.{kept, are_distinct-kept}
use oof_rl.Core.Plugins.TopoSort.{topo_sort-IsOrder}
use oof_rl.Core.Loading.{
  DirEntry, load_plugins, load_wasm_plugins, use_new, init_each, init_sorted, init_valid,
  init_plugins,
}

distinct-use_plugin :
    (p : Plugin) (s : Server)
    → is_some (get p.id s.plugins) ≡ false
    → are_distinct (ids s.plugins) ≡ true
    → are_distinct (ids (use_plugin p s).plugins) ≡ true
unfolding use_plugin
distinct-use_plugin p s new d =
    rw (ids-snoc s.plugins p)
      (are_distinct-snoc (ids s.plugins) p.id ∙ rw (d, ← get_unknown p.id s.plugins, new) refl)

load_plugins-distinct :
    (ps : List Plugin) (s : Server)
    → are_distinct (ids s.plugins) ≡ true
    → are_distinct (ids (load_plugins ps s).0.plugins) ≡ true
unfolding load_plugins
load_plugins-distinct [] s d = d
load_plugins-distinct (p ∷ ps) s d = elim (Bool-cases (is_some (get p.id s.plugins))) [
  | inl there ↦ rw there d
  | inr new ↦ rw new (load_plugins-distinct ps (use_plugin p s) (distinct-use_plugin p s new d))
]

use_new-distinct :
    (loaded : Option Plugin) (s : Server)
    → are_distinct (ids s.plugins) ≡ true
    → are_distinct (ids (use_new loaded s).plugins) ≡ true
use_new-distinct none s d = d
use_new-distinct (some p) s d = elim (Bool-cases (is_some (get p.id s.plugins))) [
  | inl there ↦ rw there d
  | inr new ↦ rw new (distinct-use_plugin p s new d)
]

load_wasm_plugins-distinct :
    (es : List DirEntry) (s : Server)
    → are_distinct (ids s.plugins) ≡ true
    → are_distinct (ids (load_wasm_plugins es s).plugins) ≡ true
unfolding load_wasm_plugins
load_wasm_plugins-distinct [] s d = d
load_wasm_plugins-distinct (e ∷ es) s d =
    load_wasm_plugins-distinct es
      (if e.is_dir || not (has_suffix e.name (codes ".wasm")) then s else use_new e.loaded s)
      (choose (e.is_dir || not (has_suffix e.name (codes ".wasm"))) d
        (use_new-distinct e.loaded s d))
  where
    choose :
        (test : Bool)
        → are_distinct (ids s.plugins) ≡ true
        → are_distinct (ids (use_new e.loaded s).plugins) ≡ true
        → are_distinct (ids (if test then s else use_new e.loaded s).plugins) ≡ true
    choose true h k = h
    choose false h k = k

-- However the factories and the files overlap, a server without two plugins of one id still has none
-- after LoadPlugins and LoadWASMPlugins.
loaded-distinct :
    (factories : List Plugin) (es : List DirEntry) (s : Server)
    → are_distinct (ids s.plugins) ≡ true
    → are_distinct (ids (load_wasm_plugins es (load_plugins factories s).0).plugins) ≡ true
loaded-distinct factories es s d =
    load_wasm_plugins-distinct es (load_plugins factories s).0 (load_plugins-distinct factories s d)

init_each-is_ordered :
    (starts : Plugin → Bool) (done : List Text) (ps : List Plugin)
    → is_ordered done ps ≡ true
    → is_ordered done (init_each starts ps).0 ≡ true
unfolding init_each is_ordered
init_each-is_ordered starts done [] h = refl
init_each-is_ordered starts done (p ∷ ps) h = elim (Bool-cases (starts p)) [
  | inr fails ↦ rw fails refl
  | inl starts_well ↦
      rw starts_well (ground (arith, h, init_each-is_ordered starts (done ++ (p.id ∷ [])) ps))
]

init_sorted-is_ordered :
    (starts : Plugin → Bool) (active : List Plugin) (r : Result PluginError (List Plugin))
    → are_distinct (ids active) ≡ true
    → topo_sort active ≡ r
    → is_ordered [] (init_sorted starts r).0 ≡ true
unfolding is_ordered
init_sorted-is_ordered starts active (ok sorted) d h =
    init_each-is_ordered starts [] sorted (topo_sort-IsOrder active sorted d h).3
init_sorted-is_ordered starts active (err e) d h = refl

init_valid-is_ordered :
    (starts : Plugin → Bool) (active : List Plugin) (error : Option PluginError)
    → are_distinct (ids active) ≡ true
    → is_ordered [] (init_valid starts active error).0 ≡ true
unfolding is_ordered
init_valid-is_ordered starts active none d =
    init_sorted-is_ordered starts active (topo_sort active) d refl
init_valid-is_ordered starts active (some e) d = refl

-- On a server whose plugins were not yet asked for and have distinct ids, each plugin whose Init
-- InitPlugins called comes after all that it requires, however the loop ends.
init_plugins_in_order :
    (starts : Plugin → Bool) (s : Server)
    → s.active_dirty ≡ true
    → are_distinct (ids s.plugins) ≡ true
    → is_ordered [] (init_plugins starts s).1 ≡ true
unfolding init_plugins active_plugins rebuild_active_plugin_cache kept
init_plugins_in_order starts s dirty d = rw dirty (
    init_valid-is_ordered starts
      (keep (λ (p : Plugin). not (is_plugin_disabled_in_set p.id s.disabled)) s.plugins)
      (validate_active_plugin_dependencies
        (keep (λ (p : Plugin). not (is_plugin_disabled_in_set p.id s.disabled)) s.plugins) _)
      (are_distinct-kept (λ (id : Text). not (is_plugin_disabled_in_set id s.disabled)) s.plugins
        d))

load_plugins-dirty :
    (ps : List Plugin) (s : Server)
    → s.active_dirty ≡ true
    → (load_plugins ps s).0.active_dirty ≡ true
unfolding load_plugins use_plugin
load_plugins-dirty [] s h = h
load_plugins-dirty (p ∷ ps) s h = elim (Bool-cases (is_some (get p.id s.plugins))) [
  | inl there ↦ rw there h
  | inr new ↦ rw new (load_plugins-dirty ps (use_plugin p s) refl)
]

use_new-dirty :
    (skip : Bool) (loaded : Option Plugin) (s : Server)
    → s.active_dirty ≡ true
    → (if skip then s else use_new loaded s).active_dirty ≡ true
unfolding use_plugin
use_new-dirty true loaded s h = h
use_new-dirty false none s h = h
use_new-dirty false (some p) s h = elim (Bool-cases (is_some (get p.id s.plugins))) [
  | inl there ↦ rw there h
  | inr new ↦ rw new refl
]

load_wasm_plugins-dirty :
    (es : List DirEntry) (s : Server)
    → s.active_dirty ≡ true
    → (load_wasm_plugins es s).active_dirty ≡ true
unfolding load_wasm_plugins
load_wasm_plugins-dirty [] s h = h
load_wasm_plugins-dirty (e ∷ es) s h =
    let skip = e.is_dir || not (has_suffix e.name (codes ".wasm")) in
    load_wasm_plugins-dirty es (if skip then s else use_new e.loaded s)
      (use_new-dirty skip e.loaded s h)

-- From a new server on, whatever factories and files LoadPlugins and LoadWASMPlugins meet and whatever
-- plugins are disabled, each plugin whose Init InitPlugins called with success comes after all that
-- it requires, however the loop ends.
pub startup_in_order :
    (starts : Plugin → Bool) (factories : List Plugin) (es : List DirEntry) (disabled : List Text)
    → is_ordered []
        (init_plugins starts
          (load_wasm_plugins es (load_plugins factories (new_server disabled)).0)).1
      ≡ true
unfolding new_server ids are_distinct
startup_in_order starts factories es disabled =
    let loaded = (load_plugins factories (new_server disabled)).0 in
    init_plugins_in_order starts (load_wasm_plugins es loaded)
      (load_wasm_plugins-dirty es loaded (load_plugins-dirty factories (new_server disabled) refl))
      (loaded-distinct factories es (new_server disabled) refl)
