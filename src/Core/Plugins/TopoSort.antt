-- ===== src/Core/Plugins/TopoSort.antt =====
-- topoSort: the order is right, it is found if there is one, and the search ends.
use mathlib.Core.List.{append-nil}
use oof_rl.Prelude.{
  ℕ, zero, suc, ◌<◌, ◌≡◌, ◌≢◌, refl, ap, sym, ◌∙◌, Text, true, false, none, some, List, [], ◌∷◌,
  ◌==◌, text_comparable, nat_beq, nat_beq_iff, length, lookup, contains, are_distinct, occurrences,
  length-le_of_contains, All, arith, Bool-cases, Option-cases, inl, inr,
}
use oof_rl.Prelude.Results.{Result, ok, err, ◌>>=◌}
use oof_rl.Core.Plugins.{
  Plugin, PluginError, out_of_fuel, Degrees, Dependants, ids, get, is_some, index_plugins,
  add_requirement, add_requirements, with_degree, add_plugins, sort_graph, all_sorted, topo_sort,
}
use oof_rl.Core.Plugins.Graph.{pending, plugins_known, all_known, add_plugins-ok}
use oof_rl.Core.Plugins.Index.{length-ids, get_unknown, get_id, lookup-index_plugins, pending-get}
use oof_rl.Core.Plugins.Kahn.{waits, is_ordered, are_met, pending-are_met}
use oof_rl.Core.Plugins.Rounds.{IsEnd, AreOf}
use oof_rl.Core.Plugins.Sorted.{graph, counted_start, queue_ends, topo_sort_known}

bind-ok :
    (m : Result PluginError (Degrees × Dependants))
    (f : Degrees × Dependants → Result PluginError (List Plugin)) (b : List Plugin)
    → (m >>= f) ≡ ok b
    → (a : Degrees × Dependants) × (m ≡ ok a)
bind-ok (ok a) f b h = (a, refl)
bind-ok (err e) f b h = cc

topo_sort-known :
    (ps sorted : List Plugin)
    → topo_sort ps ≡ ok sorted
    → plugins_known (index_plugins ps []) ps ≡ true
unfolding topo_sort
topo_sort-known ps sorted h =
    let (maps, first) =
      bind-ok (add_plugins (index_plugins ps []) ps ([], [])) (sort_graph (index_plugins ps []) ps)
        sorted h in
    add_plugins-ok (index_plugins ps []) ps ([], []) maps first

all_sorted-ok :
    (n : ℕ) (end sorted : List Plugin)
    → all_sorted n (some end) ≡ ok sorted
    → (length end ≡ n) × (end ≡ sorted)
all_sorted-ok n end sorted h = (ground (arith, h), ground (arith, h))

-- If no two plugins share an id, the list that topoSort returns has as many plugins as it was given,
-- each of them one of these and none twice, and each comes after all that it requires.
pub topo_sort-IsOrder :
    (ps sorted : List Plugin)
    → are_distinct (ids ps) ≡ true
    → topo_sort ps ≡ ok sorted
    → (length sorted ≡ length ps)
      × (are_distinct (ids sorted) ≡ true)
      × AreOf ps sorted
      × (is_ordered [] sorted ≡ true)
unfolding ids
topo_sort-IsOrder ps sorted distinct h =
    let (end, _, at_end) = queue_ends ps distinct in
    let (full, same) =
      all_sorted-ok (length ps) end sorted
        (sym (topo_sort_known ps distinct (topo_sort-known ps sorted h)) ∙ h) in
    rw (← same) (full, rw append-nil at at_end.inv.once, at_end.own, at_end.ordered)

-- The requirements of a plugin are plugins of the list, and a rank falls along them.
abbrev pub Falls : List Plugin → (Text → ℕ) → Text → List Text → Type 0
Falls ps rank id reqs =
    All (λ (req : Text). (contains (ids ps) req ≡ true) × (rank req < rank id)) reqs

abbrev pub IsRank : List Plugin → (Text → ℕ) → List Plugin → Type 0
IsRank ps rank qs = All (λ (p : Plugin). Falls ps rank p.id p.requires) qs

requirements_known :
    (ps : List Plugin) (rank : Text → ℕ) (id : Text) (reqs : List Text)
    → are_distinct (ids ps) ≡ true
    → Falls ps rank id reqs
    → all_known (index_plugins ps []) reqs ≡ true
requirements_known ps rank id [] d h = refl
requirements_known ps rank id (req ∷ reqs) d h =
    rw (lookup-index_plugins ps req d, get_unknown req ps, h.0.0)
      (requirements_known ps rank id reqs d h.1)

plugins_known_of_IsRank :
    (ps : List Plugin) (rank : Text → ℕ) (qs : List Plugin)
    → are_distinct (ids ps) ≡ true
    → IsRank ps rank qs
    → plugins_known (index_plugins ps []) qs ≡ true
unfolding plugins_known
plugins_known_of_IsRank ps rank [] d h = refl
plugins_known_of_IsRank ps rank (q ∷ qs) d h =
    rw (requirements_known ps rank q.id q.requires d h.0) (plugins_known_of_IsRank ps rank qs d h.1)

IsRank-get :
    (ps : List Plugin) (rank : Text → ℕ) (qs : List Plugin) (id : Text) (p : Plugin)
    → IsRank ps rank qs
    → get id qs ≡ some p
    → Falls ps rank p.id p.requires
unfolding get
IsRank-get ps rank [] id p h found = absurd (none_found found)
  where
    none_found : none ≡ some p → ⊥
    none_found e = cc
IsRank-get ps rank (q ∷ qs) id p h found = elim (Bool-cases (q.id == id)) [
  | inl same ↦ same_plugin (rw same at found)
  | inr other ↦ IsRank-get ps rank qs id p h.1 (rw other at found)
]
  where
    same_plugin : some q ≡ some p → Falls ps rank p.id p.requires
    same_plugin e = let equal : q ≡ p = ground (arith, e) in rw (← equal) h.0

-- Every requirement is met where all of a lower rank are there.
are_met_below :
    (ps : List Plugin) (rank : Text → ℕ) (done : List Text) (id : Text) (reqs : List Text)
    → ((req : Text) → contains (ids ps) req ≡ true → rank req < rank id → contains done req ≡ true)
    → Falls ps rank id reqs
    → are_met done reqs ≡ true
are_met_below ps rank done id [] below h = refl
are_met_below ps rank done id (req ∷ reqs) below h =
    rw (below req h.0.0 h.0.1) (are_met_below ps rank done id reqs below h.1)

module _ (ps : List Plugin) (rank : Text → ℕ) (distinct : are_distinct (ids ps) ≡ true)
    (ranked : IsRank ps rank ps) where
  -- With an empty queue each plugin is sorted, by induction on its rank.
  all_reached :
      (bound : ℕ) (end : List Plugin) (id : Text)
      → IsEnd ps distinct
          (index_plugins ps [])
          (λ i. lookup-index_plugins ps i distinct)
          (graph ps distinct).1
          (counted_start ps distinct)
          end
      → rank id < bound
      → contains (ids ps) id ≡ true
      → contains (ids end) id ≡ true
  unfolding ids occurrences
  all_reached zero end id at_end r k = absurd (omega arith)
  all_reached (suc bound) end id at_end r k = elim (Option-cases (get id ps)) [
    | inl missing ↦ absurd (unknown (sym (get_unknown id ps) ∙ ap is_some missing))
    | inr (p, found) ↦
        let met =
          are_met_below ps rank (ids end) p.id p.requires
            (λ req known lower.
              all_reached bound end req at_end (omega (arith, ap rank (get_id id ps p found)))
                known)
            (IsRank-get ps rank ps id p ranked found) in
        let none_waits =
          (nat_beq_iff (pending (ids end) p.requires) 0).0
            (pending-are_met (ids end) p.requires ∙ met) in
        rw append-nil at (at_end.inv.listed id k)
        ∙ (nat_beq_iff (waits ps distinct (ids end) [] id) 0).1
            (omega (arith, pending-get ps id p (ids end) distinct found, none_waits))
  ]
    where
      unknown : contains (ids ps) id ≡ false → ⊥
      unknown h = ground (arith, h, k)

  -- If no two plugins share an id, every requirement is one of them, and a rank falls along the
  -- requirements, so that there is no cycle, then topoSort returns an order.
  pub topo_sort_finds : (sorted : List Plugin) × (topo_sort ps ≡ ok sorted)
  unfolding ids
  topo_sort_finds =
      let (end, _, at_end) = queue_ends ps distinct in
      let reached = λ (id : Text) (k : contains (ids ps) id ≡ true).
        all_reached (suc (rank id)) end id at_end (omega arith) k in
      let up = length-le_of_contains (ids ps) (ids end) distinct reached in
      let down =
        length-le_of_contains (ids end) (ids ps) (rw append-nil at at_end.inv.once)
          (λ id m. at_end.inv.known id (rw append-nil m)) in
      let full : nat_beq (length end) (length ps) ≡ true =
        (nat_beq_iff (length end) (length ps)).1
          (omega (arith, up, down, length-ids ps, length-ids end)) in
      (
        end,
        topo_sort_known ps distinct (plugins_known_of_IsRank ps rank ps distinct ranked)
            ∙ rw full refl,
      )

add_requirements-ends :
    (by_id : List (Text × Plugin)) (id : Text) (reqs : List Text) (maps : Degrees × Dependants)
    → add_requirements by_id id reqs maps ≢ err out_of_fuel
unfolding add_requirements
add_requirements-ends by_id id [] maps = λ h. cc
add_requirements-ends by_id id (req ∷ reqs) maps = elim (Bool-cases (is_some (lookup req by_id))) [
  | inl known ↦ rw known (add_requirements-ends by_id id reqs (add_requirement id req maps))
  | inr unknown ↦ rw unknown (λ h. cc)
]

bind-ends {ℓ} :
    {A : Type ℓ} (m : Result PluginError (Degrees × Dependants))
    (f : Degrees × Dependants → Result PluginError A)
    → m ≢ err out_of_fuel
    → ((maps : Degrees × Dependants) → m ≡ ok maps → f maps ≢ err out_of_fuel)
    → (m >>= f) ≢ err out_of_fuel
bind-ends (ok maps) f ends later = later maps refl
bind-ends (err e) f ends later = λ h. ends (ground (arith, h))

add_plugins-ends :
    (by_id : List (Text × Plugin)) (ps : List Plugin) (maps : Degrees × Dependants)
    → add_plugins by_id ps maps ≢ err out_of_fuel
unfolding add_plugins
add_plugins-ends by_id [] maps = λ h. cc
add_plugins-ends by_id (p ∷ ps) maps =
    bind-ends (add_requirements by_id p.id p.requires (with_degree p.id maps))
      (add_plugins by_id ps) (add_requirements-ends by_id p.id p.requires (with_degree p.id maps))
      (λ maps' _. add_plugins-ends by_id ps maps')

all_sorted-ends : (n : ℕ) (end : List Plugin) → all_sorted n (some end) ≢ err out_of_fuel
all_sorted-ends n end = elim (Bool-cases (nat_beq (length end) n)) [
  | inl full ↦ rw full (λ h. cc)
  | inr partial ↦ rw partial (λ h. cc)
]

-- The queue is empty after at most one round for each plugin, if no two plugins share an id.
pub topo_sort_terminates :
    (ps : List Plugin) → are_distinct (ids ps) ≡ true → topo_sort ps ≢ err out_of_fuel
unfolding topo_sort
topo_sort_terminates ps distinct = elim (Bool-cases (plugins_known (index_plugins ps []) ps)) [
  | inl known ↦ λ h.
      all_sorted-ends (length ps) (queue_ends ps distinct).0
        (sym (topo_sort_known ps distinct known) ∙ h)
  | inr unknown ↦
      bind-ends (add_plugins (index_plugins ps []) ps ([], []))
        (sort_graph (index_plugins ps []) ps) (add_plugins-ends (index_plugins ps []) ps ([], []))
        (λ maps first.
          absurd (not_both unknown (add_plugins-ok (index_plugins ps []) ps ([], []) maps first)))
]
  where
    not_both :
        plugins_known (index_plugins ps []) ps ≡ false
        → plugins_known (index_plugins ps []) ps ≡ true
        → ⊥
    not_both h k = ground (arith, h, k)
