-- ===== src/Core/Plugins/Rounds.antt =====
-- The loop of topoSort over the queue: it ends, and what holds then.
use oof_rl.Prelude.{
  ℕ, pos, zero, suc, ◌+◌, ◌≤◌, ◌≡◌, refl, ap, sym, ◌∙◌, Text, true, false, some, List, [], ◌∷◌,
  ◌++◌, text_comparable, nat_beq, length, length-append, lookup, contains, contains-middle,
  are_distinct-middle, are_distinct, occurrences, length-le_of_contains, All, All-append, arith,
}
use mathlib.Core.List.{append_assoc}
use oof_rl.Core.Plugins.{
  Plugin, Degrees, Dependants, ids, get, dependants_of, release_dependants, sort_queue,
}
use oof_rl.Core.Plugins.Graph.{naming}
use oof_rl.Core.Plugins.Index.{ids-snoc, length-ids, naming_unknown, pending-get, pending_of-snoc}
use oof_rl.Core.Plugins.Kahn.{Inv, are_met, is_ordered, is_ordered-snoc, pending-are_met}
use oof_rl.Core.Plugins.Loop.{release_dependants-Inv}

-- Each is the plugin of its id.
abbrev pub AreOf : List Plugin → List Plugin → Type 0
AreOf ps qs = All (λ (q : Plugin). get q.id ps ≡ some q) qs

module _ (ps : List Plugin) (distinct_ids : are_distinct (ids ps) ≡ true)
    (by_id : List (Text × Plugin)) (indexed : (id : Text) → lookup id by_id ≡ get id ps)
    (dependants : Dependants)
    (counted : (id req : Text)
      → occurrences id (dependants_of req dependants) ≡ naming ps id req) where
  -- The head of the queue is sorted, and its dependants are to be released.
  taken :
      (degrees : Degrees) (p : Plugin) (queue : List Plugin) (done : List Text)
      → Inv ps distinct_ids degrees (p ∷ queue) done []
      → Inv ps distinct_ids degrees queue (done ++ (p.id ∷ [])) (dependants_of p.id dependants)
  unfolding ids occurrences
  taken degrees p queue done inv =
      let all : ((done ++ (p.id ∷ [])) ++ ids queue) ≡ (done ++ (p.id ∷ ids queue)) =
        append_assoc done (p.id ∷ []) (ids queue) in
      let new : contains done p.id ≡ false = are_distinct-middle done (ids queue) p.id inv.once in
      record {
        degree_is = λ id.
            inv.degree_is id
            ∙ ap pos (omega (arith, pending_of-snoc ps done p.id id new, counted id p.id));
        listed = λ id k. rw all (
            inv.listed id k
            ∙ ap (λ (n : ℕ). nat_beq n 0)
                (omega (arith, pending_of-snoc ps done p.id id new, counted id p.id)));
        once = rw all inv.once;
        known = λ id m. inv.known id (rw all at m);
        rest_known = λ id k. counted id p.id ∙ naming_unknown ps id p.id k;
        queue_plugins = inv.queue_plugins.1;
      }

  -- What the head of the queue requires is sorted.
  ready :
      (degrees : Degrees) (p : Plugin) (queue : List Plugin) (done : List Text)
      → Inv ps distinct_ids degrees (p ∷ queue) done []
      → are_met done p.requires ≡ true
  unfolding ids occurrences
  ready degrees p queue done inv =
      let listed = contains-middle done (ids queue) p.id in
      let zero_waits = sym (inv.listed p.id (inv.known p.id listed)) ∙ listed in
      sym (pending-are_met done p.requires)
      ∙ ap (λ (n : ℕ). nat_beq n 0)
          (omega (arith, pending-get ps p.id p done distinct_ids inv.queue_plugins.0))
      ∙ zero_waits

  -- What holds at the end.
  pub record IsEnd (sorted : List Plugin) : Type 0 where
    pub degrees_left : Degrees
    pub inv : Inv ps distinct_ids degrees_left [] (ids sorted) []
    pub ordered : is_ordered [] sorted ≡ true
    pub own : AreOf ps sorted

  full :
      (degrees : Degrees) (p : Plugin) (queue sorted : List Plugin)
      → Inv ps distinct_ids degrees (p ∷ queue) (ids sorted) []
      → suc (length sorted) ≤ length ps
  unfolding ids
  full degrees p queue sorted inv = omega (
    arith,
    length-le_of_contains (ids sorted ++ (p.id ∷ ids queue)) (ids ps) inv.once inv.known,
    length-append (ids sorted) (p.id ∷ ids queue),
    length-ids sorted,
    length-ids ps,
  )

  pub sort_queue-IsEnd :
      (fuel : ℕ) (degrees : Degrees) (queue sorted : List Plugin)
      → Inv ps distinct_ids degrees queue (ids sorted) []
      → is_ordered [] sorted ≡ true
      → AreOf ps sorted
      → length sorted + fuel ≡ length ps
      → (end : List Plugin) × (sort_queue fuel by_id dependants degrees queue sorted ≡ some end)
        × IsEnd end
  unfolding sort_queue
  sort_queue-IsEnd zero degrees [] sorted inv ordered own left =
      (sorted, refl, record { degrees_left = degrees; inv = inv; ordered = ordered; own = own })
  sort_queue-IsEnd (suc fuel) degrees [] sorted inv ordered own left =
      (sorted, refl, record { degrees_left = degrees; inv = inv; ordered = ordered; own = own })
  sort_queue-IsEnd zero degrees (p ∷ queue) sorted inv ordered own left =
      absurd (omega (arith, full degrees p queue sorted inv))
  sort_queue-IsEnd (suc fuel) degrees (p ∷ queue) sorted inv ordered own left =
      let grown = ids-snoc sorted p in
      let next =
        release_dependants-Inv ps distinct_ids by_id indexed degrees queue
          (ids sorted ++ (p.id ∷ [])) (dependants_of p.id dependants)
          (taken degrees p queue (ids sorted) inv) in
      sort_queue-IsEnd fuel
        (release_dependants by_id (dependants_of p.id dependants) degrees queue).0
        (release_dependants by_id (dependants_of p.id dependants) degrees queue).1
        (sorted ++ (p ∷ [])) (rw grown next)
        (is_ordered-snoc [] sorted p ∙ rw (ordered, ready degrees p queue (ids sorted) inv) refl)
        (All-append (λ (q : Plugin). get q.id ps ≡ some q) sorted (p ∷ []) own
          (inv.queue_plugins.0, tt))
        (omega (arith, length-append sorted (p ∷ [])))
