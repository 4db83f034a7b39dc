-- ===== src/Core/Plugins/Sorted.antt =====
-- topoSort: what it returns.
use oof_rl.Prelude.{
  ℕ, pos, ◌≡◌, refl, ap, ◌∙◌, Text, Bool, true, ◌&&◌, some, List, [], ◌∷◌, ◌==◌, text_comparable,
  int_comparable, nat_beq, text_beq_iff, length, keep, lookup, contains, are_distinct, occurrences,
  same_self, arith, Bool-cases, inl, inr,
}
use oof_rl.Core.Plugins.{
  Plugin, Degrees, Dependants, ids, get, degree, dependants_of, index_plugins, sort_queue,
  all_sorted, topo_sort,
}
use oof_rl.Core.Plugins.Graph.{
  pending_of, naming, plugins_known, every_plugin, add_plugins_known, Adds-every_plugin,
}
use oof_rl.Core.Plugins.Index.{lookup-index_plugins}
use oof_rl.Core.Plugins.Kahn.{Inv, is_ordered}
use oof_rl.Core.Plugins.Rounds.{IsEnd, AreOf, sort_queue-IsEnd}

module _ (test : Text → Bool) where
  unfoldable pub kept : List Plugin → List Plugin
  kept ps = keep (λ (p : Plugin). test p.id) ps

  contains-kept :
      (ps : List Plugin) (id : Text)
      → contains (ids (kept ps)) id ≡ (contains (ids ps) id && test id)
  unfolding kept contains ids
  contains-kept [] id = refl
  contains-kept (p ∷ ps) id = ground (arith, contains-kept ps id, text_beq_iff p.id id)

  pub are_distinct-kept :
      (ps : List Plugin) → are_distinct (ids ps) ≡ true → are_distinct (ids (kept ps)) ≡ true
  unfolding kept are_distinct ids
  are_distinct-kept [] d = refl
  are_distinct-kept (p ∷ ps) d = ground (arith, d, are_distinct-kept ps, contains-kept ps p.id)

  AreOf-kept : (all ps : List Plugin) → AreOf all ps → AreOf all (kept ps)
  unfolding kept
  AreOf-kept all [] h = h
  AreOf-kept all (p ∷ ps) h = elim (Bool-cases (test p.id)) [
    | inl stays ↦ rw stays (h.0, AreOf-kept all ps h.1)
    | inr goes ↦ rw goes (AreOf-kept all ps h.1)
  ]

AreOf-from :
    (all ps : List Plugin)
    → are_distinct (ids ps) ≡ true
    → ((id : Text) → contains (ids ps) id ≡ true → get id all ≡ get id ps)
    → AreOf all ps
unfolding are_distinct contains ids get
AreOf-from all [] d h = tt
AreOf-from all (p ∷ ps) d h = (
  h p.id (ground (arith, same_self p.id)) ∙ rw (same_self p.id) refl,
  AreOf-from all ps (ground (arith, d))
      (λ id m. h id (ground (arith, m)) ∙ ground (arith, d, m, text_beq_iff p.id id)),
)

module _ (ps : List Plugin) (distinct_ids : are_distinct (ids ps) ≡ true) where
  pub graph : Degrees × Dependants
  graph = every_plugin ps ([], [])

  degree_start : (id : Text) → degree id graph.0 ≡ pos (pending_of ps id [])
  unfolding graph degree lookup
  degree_start id = (Adds-every_plugin ps ([], []) id).0 0 refl ∙ ap pos (omega arith)

  pub counted_start :
      (id req : Text) → occurrences id (dependants_of req graph.1) ≡ naming ps id req
  unfolding graph dependants_of lookup occurrences
  counted_start id req = (Adds-every_plugin ps ([], []) id).1 req ∙ omega arith

  pub queue_start : List Plugin
  queue_start = keep (λ (p : Plugin). degree p.id graph.0 == pos 0) ps

  start-Inv : Inv ps distinct_ids graph.0 queue_start [] []
  unfolding queue_start kept occurrences
  start-Inv =
      let test = λ (id : Text). degree id graph.0 == pos 0 in
      record {
        degree_is = λ id. degree_start id ∙ ap pos (omega arith);
        listed = λ id k.
            contains-kept test ps id
            ∙ rw (k, degree_start id) (ap (λ (n : ℕ). nat_beq n 0) (omega arith));
        once = are_distinct-kept test ps distinct_ids;
        known = λ id m. ground (arith, m, contains-kept test ps id);
        rest_known = λ id k. refl;
        queue_plugins = AreOf-kept test ps ps (AreOf-from ps ps distinct_ids (λ id m. refl));
      }

  pub queue_ends :
      (end : List Plugin) × (sort_queue
          (length ps)
          (index_plugins ps [])
          graph.1
          graph.0
          queue_start
          []
        ≡ some end)
      × IsEnd ps distinct_ids
          (index_plugins ps [])
          (λ id. lookup-index_plugins ps id distinct_ids)
          graph.1
          counted_start
          end
  unfolding ids is_ordered
  queue_ends =
      sort_queue-IsEnd ps distinct_ids (index_plugins ps [])
        (λ id. lookup-index_plugins ps id distinct_ids) graph.1 counted_start (length ps) graph.0
        queue_start [] start-Inv refl tt (omega arith)

  pub topo_sort_known :
      plugins_known (index_plugins ps []) ps ≡ true
      → topo_sort ps ≡ all_sorted (length ps) (some queue_ends.0)
  unfolding topo_sort graph queue_start
  topo_sort_known h =
      rw (add_plugins_known (index_plugins ps []) ps ([], []) h)
        (ap (all_sorted (length ps)) queue_ends.1)
