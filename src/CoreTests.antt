-- ===== src/CoreTests.antt =====
-- The theorems about the server's plugins at concrete inputs.
use oof_rl.Prelude.{
  ℕ, ◌≡◌, ◌≢◌, refl, Text, codes, true, false, not, ◌==◌, text_comparable, some, List, [], ◌∷◌,
  length, contains, are_distinct, if◌then◌else◌, arith, text_beq, lookup, insert,
}
use oof_rl.Prelude.Results.{ok, err}
use oof_rl.Core.Plugins.{Plugin, out_of_fuel, ids, new_server, topo_sort, sort_queue}
use oof_rl.Core.Plugins.Kahn.{is_ordered}
use oof_rl.Core.Plugins.Rounds.{AreOf}
use oof_rl.Core.Plugins.TopoSort.{IsRank, topo_sort-IsOrder, topo_sort_finds, topo_sort_terminates}
use oof_rl.Core.Loading.{DirEntry, load_plugins, load_wasm_plugins, init_plugins}
use oof_rl.Core.Loading.Startup.{startup_in_order}

abbrev plugin : Text → List Text → Plugin
plugin id requires = record { id = id; requires = requires }

abbrev live : Plugin
live = plugin (codes "live") (codes "history" ∷ codes "ranks" ∷ [])

abbrev ranks : Plugin
ranks = plugin (codes "ranks") (codes "history" ∷ [])

abbrev history : Plugin
history = plugin (codes "history") []

abbrev installed : List Plugin
installed = live ∷ ranks ∷ history ∷ []

topo_sort-IsOrder_example :
    (length (history ∷ ranks ∷ live ∷ []) ≡ 3)
    × (are_distinct (ids (history ∷ ranks ∷ live ∷ [])) ≡ true)
    × AreOf installed (history ∷ ranks ∷ live ∷ [])
    × (is_ordered [] (history ∷ ranks ∷ live ∷ []) ≡ true)
unfolding are_distinct ids text_beq topo_sort lookup insert sort_queue
topo_sort-IsOrder_example = topo_sort-IsOrder installed (history ∷ ranks ∷ live ∷ []) refl refl

-- No requirements, one, or two.
abbrev rank : Text → ℕ
rank id = if id == codes "live" then 2 else if id == codes "ranks" then 1 else 0

installed-IsRank : IsRank installed rank installed
unfolding ids contains text_beq
installed-IsRank =
    (((refl, omega arith), ((refl, omega arith), tt)), (((refl, omega arith), tt), (tt, tt)))

topo_sort_finds_example : (sorted : List Plugin) × (topo_sort installed ≡ ok sorted)
unfolding are_distinct ids text_beq
topo_sort_finds_example = topo_sort_finds installed rank refl installed-IsRank

topo_sort_terminates_example :
    topo_sort (plugin (codes "a") (codes "b" ∷ []) ∷ plugin (codes "b") (codes "a" ∷ []) ∷ [])
    ≢ err out_of_fuel
unfolding are_distinct ids text_beq
topo_sort_terminates_example =
    topo_sort_terminates
      (plugin (codes "a") (codes "b" ∷ []) ∷ plugin (codes "b") (codes "a" ∷ []) ∷ []) refl

abbrev wasm_file : DirEntry
wasm_file = record { name = codes "live.wasm"; is_dir = false; loaded = some live }

startup_in_order_example :
    is_ordered []
      (init_plugins
        (λ p. not (p.id == codes "live"))
        (load_wasm_plugins
          (wasm_file ∷ [])
          (load_plugins (ranks ∷ history ∷ []) (new_server [])).0)).1
    ≡ true
startup_in_order_example =
    startup_in_order (λ p. not (p.id == codes "live")) (ranks ∷ history ∷ []) (wasm_file ∷ []) []
