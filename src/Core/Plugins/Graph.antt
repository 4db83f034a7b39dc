-- ===== src/Core/Plugins/Graph.antt =====
-- What the first loop of topoSort leaves in its maps.
use oof_rl.Prelude.{
  ℕ, ℤ, pos, inc_ℤ, suc, ◌+◌, ◌≡◌, refl, ap, ◌∙◌, Text, Bool, true, ◌&&◌, List, [], ◌∷◌, ◌==◌,
  text_comparable, text_beq, text_beq_iff, length, lookup, insert, lookup-insert, contains,
  occurrences, occurrences-snoc, arith, Bool-cases, inl, inr, if◌then◌else◌,
}
use oof_rl.Prelude.Results.{Result, ok, err, ◌>>=◌}
use oof_rl.Core.Plugins.{
  Plugin, PluginError, Degrees, Dependants, degree, dependants_of, is_some, add_requirement,
  add_requirements, add_plugins, with_degree,
}

-- The requirements that are not among the ids, repetitions counted.
unfoldable pub pending : List Text → List Text → ℕ
pending done [] = 0
pending done (req ∷ reqs) =
    let rest = pending done reqs in if contains done req then rest else suc rest

-- The same for the plugins of an id.
unfoldable pub pending_of : List Plugin → Text → List Text → ℕ
pending_of [] id done = 0
pending_of (p ∷ ps) id done =
    (if p.id == id then pending done p.requires else 0) + pending_of ps id done

-- How often the plugins of an id name a requirement.
unfoldable pub naming : List Plugin → Text → Text → ℕ
naming [] id req = 0
naming (p ∷ ps) id req = (if p.id == id then occurrences req p.requires else 0) + naming ps id req

abbrev pub all_known : List (Text × Plugin) → List Text → Bool
all_known by_id [] = true
all_known by_id (req ∷ reqs) = is_some (lookup req by_id) && all_known by_id reqs

unfoldable pub plugins_known : List (Text × Plugin) → List Plugin → Bool
plugins_known by_id [] = true
plugins_known by_id (p ∷ ps) = all_known by_id p.requires && plugins_known by_id ps

pub degree-insert :
    (id probe : Text) (n : ℤ) (degrees : Degrees)
    → degree probe (insert id n degrees) ≡ (if id == probe then n else degree probe degrees)
unfolding degree
degree-insert id probe n degrees = rw lookup-insert (ground arith)

-- What a loop adds to the maps for an id: to its degree, and to its places among the dependants.
abbrev pub Adds : Degrees × Dependants → Degrees × Dependants → Text → ℕ → (Text → ℕ) → Type 0
Adds maps maps' id n times =
    ((k : ℕ) → degree id maps.0 ≡ pos k → degree id maps'.0 ≡ pos (k + n))
    × ((req : Text)
        → occurrences id (dependants_of req maps'.1)
          ≡ occurrences id (dependants_of req maps.1) + times req)

degree-add_requirement :
    (id req probe : Text) (maps : Degrees × Dependants) (k : ℕ)
    → degree probe maps.0 ≡ pos k
    → degree probe (add_requirement id req maps).0 ≡ pos (k + (if id == probe then 1 else 0))
unfolding add_requirement
degree-add_requirement id req probe (degrees, dependants) k h =
    degree-insert id probe (inc_ℤ (degree id degrees)) degrees
    ∙ ground (arith, text_beq_iff id probe)

dependants-add_requirement :
    (id req probe name : Text) (maps : Degrees × Dependants)
    → occurrences probe (dependants_of name (add_requirement id req maps).1)
      ≡ occurrences probe (dependants_of name maps.1)
        + (if req == name && id == probe then 1 else 0)
unfolding add_requirement dependants_of
dependants-add_requirement id req probe name (degrees, dependants) =
    elim (Bool-cases (text_beq req name)) [
      | inl same ↦
          rw lookup-insert
            (rw same (occurrences-snoc probe id _ ∙ rw ((text_beq_iff req name).0 same) refl))
      | inr other ↦ rw lookup-insert (rw other (omega arith))
    ]

-- The loops without their test.
unfoldable pub every_requirement : Text → List Text → Degrees × Dependants → Degrees × Dependants
every_requirement id [] maps = maps
every_requirement id (req ∷ reqs) maps = every_requirement id reqs (add_requirement id req maps)

unfoldable pub every_plugin : List Plugin → Degrees × Dependants → Degrees × Dependants
unfolding every_requirement
every_plugin [] maps = maps
every_plugin (p ∷ ps) maps =
    every_plugin ps (every_requirement p.id p.requires (with_degree p.id maps))

add_requirements_known :
    (by_id : List (Text × Plugin)) (id : Text) (reqs : List Text) (maps : Degrees × Dependants)
    → all_known by_id reqs ≡ true
    → add_requirements by_id id reqs maps ≡ ok (every_requirement id reqs maps)
unfolding add_requirements every_requirement
add_requirements_known by_id id [] maps h = refl
add_requirements_known by_id id (req ∷ reqs) maps h =
    let first : is_some (lookup req by_id) ≡ true = ground (arith, h) in
    rw first
      (add_requirements_known by_id id reqs (add_requirement id req maps) (ground (arith, h)))

pub add_plugins_known :
    (by_id : List (Text × Plugin)) (ps : List Plugin) (maps : Degrees × Dependants)
    → plugins_known by_id ps ≡ true
    → add_plugins by_id ps maps ≡ ok (every_plugin ps maps)
unfolding add_plugins every_plugin plugins_known
add_plugins_known by_id [] maps h = refl
add_plugins_known by_id (p ∷ ps) maps h =
    rw (add_requirements_known by_id p.id p.requires (with_degree p.id maps) (ground (arith, h))) (
      add_plugins_known by_id ps (every_requirement p.id p.requires (with_degree p.id maps))
        (ground (arith, h)))

add_requirements-ok :
    (by_id : List (Text × Plugin)) (id : Text) (reqs : List Text)
    (maps maps' : Degrees × Dependants)
    → add_requirements by_id id reqs maps ≡ ok maps'
    → all_known by_id reqs ≡ true
unfolding add_requirements
add_requirements-ok by_id id [] maps maps' h = refl
add_requirements-ok by_id id (req ∷ reqs) maps maps' h =
    elim (Bool-cases (is_some (lookup req by_id))) [
      | inl known ↦
          rw known
            (add_requirements-ok by_id id reqs (add_requirement id req maps) maps' (rw known at h))
      | inr unknown ↦ absurd (not_ok (rw unknown at h))
    ]
  where
    not_ok : {e : PluginError} → err e ≡ ok maps' → ⊥
    not_ok h = cc

bind-ok :
    (m : Result PluginError (Degrees × Dependants))
    (f : Degrees × Dependants → Result PluginError (Degrees × Dependants))
    (b : Degrees × Dependants)
    → (m >>= f) ≡ ok b
    → (a : Degrees × Dependants) × (m ≡ ok a) × (f a ≡ ok b)
bind-ok (ok a) f b h = (a, refl, h)
bind-ok (err e) f b h = cc

pub add_plugins-ok :
    (by_id : List (Text × Plugin)) (ps : List Plugin) (maps maps' : Degrees × Dependants)
    → add_plugins by_id ps maps ≡ ok maps'
    → plugins_known by_id ps ≡ true
unfolding add_plugins plugins_known
add_plugins-ok by_id [] maps maps' h = refl
add_plugins-ok by_id (p ∷ ps) maps maps' h =
    let (mid, first, later) =
      bind-ok (add_requirements by_id p.id p.requires (with_degree p.id maps))
        (add_plugins by_id ps) maps' h in
    rw
      (
        add_requirements-ok by_id p.id p.requires (with_degree p.id maps) mid first,
        add_plugins-ok by_id ps mid maps' later,
      )
      refl

Adds-every_requirement :
    (id : Text) (reqs : List Text) (maps : Degrees × Dependants) (probe : Text)
    → Adds maps
        (every_requirement id reqs maps)
        probe
        (if id == probe then length reqs else 0)
        (λ name. if id == probe then occurrences name reqs else 0)
unfolding every_requirement occurrences
Adds-every_requirement id [] maps probe = (λ k h. ground (arith, h), λ name. ground arith)
Adds-every_requirement id (req ∷ reqs) maps probe =
    let (later, later') = Adds-every_requirement id reqs (add_requirement id req maps) probe in
    (
      λ k h.
          later (k + (if id == probe then 1 else 0)) (degree-add_requirement id req probe maps k h)
          ∙ ground arith,
      λ name. later' name ∙ ground (arith, dependants-add_requirement id req probe name maps),
    )

degree-with_degree :
    (id probe : Text) (maps : Degrees × Dependants)
    → degree probe (with_degree id maps).0 ≡ degree probe maps.0
unfolding degree
degree-with_degree id probe (degrees, dependants) =
    elim (Bool-cases (is_some (lookup id degrees))) [
      | inl there ↦ rw there refl
      | inr missing ↦
          rw missing (rw lookup-insert (ground (arith, text_beq_iff id probe, lookup id degrees)))
    ]

pending-nil : (reqs : List Text) → pending [] reqs ≡ length reqs
unfolding pending contains
pending-nil [] = refl
pending-nil (req ∷ reqs) = ap suc (pending-nil reqs)

pub Adds-every_plugin :
    (ps : List Plugin) (maps : Degrees × Dependants) (probe : Text)
    → Adds maps (every_plugin ps maps) probe (pending_of ps probe []) (naming ps probe)
unfolding every_plugin pending_of naming
Adds-every_plugin [] maps probe = (λ k h. ground (arith, h), λ name. ground arith)
Adds-every_plugin (p ∷ ps) maps probe =
    let (now, now') = Adds-every_requirement p.id p.requires (with_degree p.id maps) probe in
    let (later, later') =
      Adds-every_plugin ps (every_requirement p.id p.requires (with_degree p.id maps)) probe in
    (
      λ k h.
          later _ (now k (degree-with_degree p.id probe maps ∙ h))
          ∙ ground (arith, pending-nil p.requires),
      λ name. later' name ∙ ground (arith, now' name),
    )
