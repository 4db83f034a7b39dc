-- ===== src/Core/Plugins/Loop.antt =====
-- The loop of topoSort over the queue: its rounds, and its end.
use oof_rl.Prelude.{
  pos, dec_ℤ, ◌≡◌, refl, Text, true, Option, none, some, List, [], ◌∷◌, ◌==◌, text_comparable,
  int_comparable, nat_beq, text_beq_iff, lookup, insert, are_distinct, occurrences, same_self,
  arith, Bool-cases, Option-cases, inl, inr, if◌then◌else◌,
}
use native.Mathlib.Nat.{add-suc}
use oof_rl.Core.Plugins.{
  Plugin, Degrees, ids, get, degree, is_some, queue_plugin, release_dependants,
}
use oof_rl.Core.Plugins.Index.{get_unknown}
use oof_rl.Core.Plugins.Kahn.{Inv, Inv-waiting, Inv-ready, waits}

module _ (ps : List Plugin) (distinct_ids : are_distinct (ids ps) ≡ true)
    (by_id : List (Text × Plugin)) (indexed : (id : Text) → lookup id by_id ≡ get id ps) where
  known_dependant :
      (degrees : Degrees) (queue : List Plugin) (done rest : List Text) (dep : Text)
      → Inv ps distinct_ids degrees queue done (dep ∷ rest)
      → is_some (get dep ps) ≡ true
  unfolding occurrences
  known_dependant degrees queue done rest dep inv =
      ground (arith, get_unknown dep ps, inv.rest_known dep, text_beq_iff dep dep)

  lowered :
      (degrees : Degrees) (queue : List Plugin) (done rest : List Text) (dep : Text)
      → Inv ps distinct_ids degrees queue done (dep ∷ rest)
      → dec_ℤ (degree dep degrees) ≡ pos (waits ps distinct_ids done rest dep)
  unfolding occurrences
  lowered degrees queue done rest dep inv =
      rw (inv.degree_is dep) (rw (same_self dep) (rw add-suc refl))

  is_none : (o : Option Plugin) → is_some o ≡ true → o ≡ none → ⊥
  is_none none h k = cc
  is_none (some p) h k = cc

  released :
      (degrees : Degrees) (queue : List Plugin) (done rest : List Text) (dep : Text)
      → Inv ps distinct_ids degrees queue done (dep ∷ rest)
      → Inv ps distinct_ids
          (insert dep (dec_ℤ (degree dep degrees)) degrees)
          (if dec_ℤ (degree dep degrees) == pos 0
            then queue_plugin (lookup dep by_id) queue
            else queue)
          done
          rest
  released degrees queue done rest dep inv =
      let n = waits ps distinct_ids done rest dep in
      rw (lowered degrees queue done rest dep inv) (elim (Bool-cases (nat_beq n 0)) [
        | inr more ↦ rw more (Inv-waiting ps distinct_ids degrees queue done rest dep inv more)
        | inl last ↦ elim (Option-cases (get dep ps)) [
          | inl missing ↦
              absurd
                (is_none (get dep ps) (known_dependant degrees queue done rest dep inv) missing)
          | inr (p, found) ↦ rw last (
              rw (indexed dep)
                (rw found (Inv-ready ps distinct_ids degrees queue done rest dep p inv last found)))
        ]
      ])

  pub release_dependants-Inv :
      (degrees : Degrees) (queue : List Plugin) (done deps : List Text)
      → Inv ps distinct_ids degrees queue done deps
      → let (degrees', queue') = release_dependants by_id deps degrees queue in
        Inv ps distinct_ids degrees' queue' done []
  unfolding release_dependants
  release_dependants-Inv degrees queue done [] inv = inv
  release_dependants-Inv degrees queue done (dep ∷ deps) inv =
      release_dependants-Inv (insert dep (dec_ℤ (degree dep degrees)) degrees)
        (if dec_ℤ (degree dep degrees) == pos 0
          then queue_plugin (lookup dep by_id) queue
          else queue)
        done deps (released degrees queue done deps dep inv)
