-- ===== src/Core/Plugins/Kahn.antt =====
-- The loop of topoSort over the queue: its invariant.
use oof_rl.Prelude.{
  ℕ, pos, ◌+◌, ◌≡◌, refl, ap, sym, ◌∙◌, Text, Bool, true, false, ◌&&◌, ◌||◌, some, List, [], ◌∷◌,
  ◌++◌, ◌==◌, text_comparable, int_comparable, nat_beq, text_beq_iff, insert, contains,
  contains-append, are_distinct, are_distinct-snoc, occurrences, All, arith,
}
use mathlib.Core.List.{append_assoc, append-nil}
use oof_rl.Core.Plugins.{Plugin, Degrees, ids, get, degree}
use oof_rl.Core.Plugins.Graph.{pending, pending_of, degree-insert}
use oof_rl.Core.Plugins.Index.{ids-snoc, get_unknown, get_id}

-- Every requirement is among the ids.
abbrev pub are_met : List Text → List Text → Bool
are_met done [] = true
are_met done (req ∷ reqs) = contains done req && are_met done reqs

-- Each plugin comes after what it requires.
unfoldable pub is_ordered : List Text → List Plugin → Bool
is_ordered done [] = true
is_ordered done (p ∷ ps) = are_met done p.requires && is_ordered (done ++ (p.id ∷ [])) ps

pub is_ordered-snoc :
    (done : List Text) (ps : List Plugin) (p : Plugin)
    → is_ordered done (ps ++ (p ∷ [])) ≡ (is_ordered done ps && are_met (done ++ ids ps) p.requires)
unfolding is_ordered ids
is_ordered-snoc done [] p = rw append-nil (ground arith)
is_ordered-snoc done (q ∷ ps) p =
    rw (is_ordered-snoc (done ++ (q.id ∷ [])) ps p) (rw append_assoc (ground arith))

pub pending-are_met : (done reqs : List Text) → nat_beq (pending done reqs) 0 ≡ are_met done reqs
unfolding pending
pending-are_met done [] = refl
pending-are_met done (req ∷ reqs) = ground (arith, pending-are_met done reqs)

module _ (ps : List Plugin) (distinct_ids : are_distinct (ids ps) ≡ true) where
  -- What is left to wait for: the requirements of the plugin that are not sorted, and its places
  -- among the dependants that the loop has still to release.
  abbrev pub waits : List Text → List Text → Text → ℕ
  waits done rest id = pending_of ps id done + occurrences id rest

  -- `done` are the ids taken from the queue, `rest` the dependants still to release.
  pub record Inv (degrees : Degrees) (queue : List Plugin) (done rest : List Text) : Type 0 where
    pub degree_is : (id : Text) → degree id degrees ≡ pos (waits done rest id)
    pub listed :
        (id : Text)
        → contains (ids ps) id ≡ true
        → contains (done ++ ids queue) id ≡ nat_beq (waits done rest id) 0
    pub once : are_distinct (done ++ ids queue) ≡ true
    pub known : (id : Text) → contains (done ++ ids queue) id ≡ true → contains (ids ps) id ≡ true
    pub rest_known : (id : Text) → contains (ids ps) id ≡ false → occurrences id rest ≡ 0
    pub queue_plugins : All (λ (p : Plugin). get p.id ps ≡ some p) queue

  All-snoc :
      (queue : List Plugin) (p : Plugin)
      → All (λ (q : Plugin). get q.id ps ≡ some q) queue
      → get p.id ps ≡ some p
      → All (λ (q : Plugin). get q.id ps ≡ some q) (queue ++ (p ∷ []))
  All-snoc [] p h k = (k, tt)
  All-snoc (q ∷ queue) p h k = (h.0, All-snoc queue p h.1 k)

  -- The dependant still waits for another plugin.
  pub Inv-waiting :
      (degrees : Degrees) (queue : List Plugin) (done rest : List Text) (dep : Text)
      → Inv degrees queue done (dep ∷ rest)
      → nat_beq (waits done rest dep) 0 ≡ false
      → Inv (insert dep (pos (waits done rest dep)) degrees) queue done rest
  unfolding occurrences
  Inv-waiting degrees queue done rest dep inv more = record {
    degree_is = λ id.
        degree-insert dep id (pos (waits done rest dep)) degrees
        ∙ ground (arith, inv.degree_is id, text_beq_iff dep id);
    listed = λ id k. inv.listed id k ∙ ground (arith, more, text_beq_iff dep id);
    once = inv.once;
    known = inv.known;
    rest_known = λ id k. ground (arith, inv.rest_known id k);
    queue_plugins = inv.queue_plugins;
  }

  -- The dependant joins the queue.
  pub Inv-ready :
      (degrees : Degrees) (queue : List Plugin) (done rest : List Text) (dep : Text) (p : Plugin)
      → Inv degrees queue done (dep ∷ rest)
      → nat_beq (waits done rest dep) 0 ≡ true
      → get dep ps ≡ some p
      → Inv (insert dep (pos (waits done rest dep)) degrees) (queue ++ (p ∷ [])) done rest
  unfolding occurrences contains
  Inv-ready degrees queue done rest dep p inv last found =
      let own = get_id dep ps p found in
      let there : contains (ids ps) dep ≡ true = ground (arith, get_unknown dep ps, found) in
      let grown : ids (queue ++ (p ∷ [])) ≡ ids queue ++ (dep ∷ []) =
        ids-snoc queue p ∙ rw own refl in
      let all : (done ++ ids (queue ++ (p ∷ []))) ≡ ((done ++ ids queue) ++ (dep ∷ [])) =
        rw grown (sym (append_assoc done (ids queue) (dep ∷ []))) in
      let member : (id : Text)
          → contains (done ++ ids (queue ++ (p ∷ []))) id
            ≡ (contains (done ++ ids queue) id || dep == id) =
        λ id. rw all (contains-append (done ++ ids queue) (dep ∷ []) id ∙ ground arith) in
      record {
        degree_is = λ id.
            degree-insert dep id (pos (waits done rest dep)) degrees
            ∙ ground (arith, inv.degree_is id, text_beq_iff dep id);
        listed = λ id k. member id ∙ ground (arith, inv.listed id k, last, text_beq_iff dep id);
        once = rw all (
            are_distinct-snoc (done ++ ids queue) dep
            ∙ ground (arith, inv.once, inv.listed dep there, text_beq_iff dep dep));
        known = λ id m. ground (arith, member id, m, inv.known id, there, text_beq_iff dep id);
        rest_known = λ id k. ground (arith, inv.rest_known id k);
        queue_plugins =
            All-snoc queue p inv.queue_plugins (ap (λ (i : Text). get i ps) own ∙ found);
      }
