-- ===== src/Core/Plugins/Index.antt =====
-- The plugins by their ids, where no two share one.
use oof_rl.Prelude.{
  suc, ◌+◌, ◌≡◌, refl, ap, ◌∙◌, Text, true, false, Option, none, some, List, [], ◌∷◌, ◌++◌,
  text_comparable, text_beq_iff, length, lookup, insert, lookup-insert, contains, are_distinct,
  occurrences, contains-append, arith,
}
use oof_rl.Core.Plugins.{Plugin, ids, get, index_plugins, is_some}
use oof_rl.Core.Plugins.Graph.{pending, pending_of, naming}

pub ids-snoc : (ps : List Plugin) (p : Plugin) → ids (ps ++ (p ∷ [])) ≡ ids ps ++ (p.id ∷ [])
unfolding ids
ids-snoc [] p = refl
ids-snoc (q ∷ ps) p = ap (λ (l : List Text). q.id ∷ l) (ids-snoc ps p)

pub length-ids : (ps : List Plugin) → length (ids ps) ≡ length ps
unfolding ids
length-ids [] = refl
length-ids (p ∷ ps) = ap suc (length-ids ps)

pub get_unknown : (id : Text) (ps : List Plugin) → is_some (get id ps) ≡ contains (ids ps) id
unfolding get ids contains
get_unknown id [] = refl
get_unknown id (p ∷ ps) = ground (arith, get_unknown id ps)

pub get_id : (id : Text) (ps : List Plugin) (p : Plugin) → get id ps ≡ some p → p.id ≡ id
unfolding get
get_id id [] p h = ground (arith, h)
get_id id (q ∷ ps) p h = ground (arith, h, get_id id ps p, text_beq_iff q.id id)

abbrev or_else {ℓ} : {A : Type ℓ} → Option A → Option A → Option A
or_else none b = b
or_else (some a) b = some a

get-none : (id : Text) (ps : List Plugin) → contains (ids ps) id ≡ false → get id ps ≡ none
unfolding get ids contains
get-none id [] h = refl
get-none id (p ∷ ps) h = ground (arith, get-none id ps)

lookup-index_from :
    (ps : List Plugin) (by_id : List (Text × Plugin)) (id : Text)
    → are_distinct (ids ps) ≡ true
    → lookup id (index_plugins ps by_id) ≡ or_else (get id ps) (lookup id by_id)
unfolding index_plugins get ids are_distinct
lookup-index_from [] by_id id d = refl
lookup-index_from (p ∷ ps) by_id id d =
    lookup-index_from ps (insert p.id p by_id) id (ground (arith, d))
    ∙ rw lookup-insert (ground (arith, d, text_beq_iff p.id id, get-none p.id ps, get-none id ps))

pub lookup-index_plugins :
    (ps : List Plugin) (id : Text)
    → are_distinct (ids ps) ≡ true
    → lookup id (index_plugins ps []) ≡ get id ps
unfolding lookup
lookup-index_plugins ps id d = lookup-index_from ps [] id d ∙ or_none (get id ps)
  where
    or_none : (o : Option Plugin) → or_else o none ≡ o
    or_none none = refl
    or_none (some p) = refl

pending_of_unknown :
    (ps : List Plugin) (id : Text) (done : List Text)
    → contains (ids ps) id ≡ false
    → pending_of ps id done ≡ 0
unfolding pending_of ids contains
pending_of_unknown [] id done h = refl
pending_of_unknown (p ∷ ps) id done h = ground (arith, pending_of_unknown ps id done)

pub naming_unknown :
    (ps : List Plugin) (id req : Text) → contains (ids ps) id ≡ false → naming ps id req ≡ 0
unfolding naming ids contains
naming_unknown [] id req h = refl
naming_unknown (p ∷ ps) id req h = ground (arith, naming_unknown ps id req)

-- The only plugin of an id.
pub pending-get :
    (ps : List Plugin) (id : Text) (p : Plugin) (done : List Text)
    → are_distinct (ids ps) ≡ true
    → get id ps ≡ some p
    → pending_of ps id done ≡ pending done p.requires
unfolding pending_of get ids are_distinct
pending-get [] id p done d h = ground (arith, h)
pending-get (q ∷ ps) id p done d h =
    ground
      (arith, d, h, pending-get ps id p done, pending_of_unknown ps id done, text_beq_iff q.id id)

pending-snoc :
    (done reqs : List Text) (id : Text)
    → contains done id ≡ false
    → pending done reqs ≡ pending (done ++ (id ∷ [])) reqs + occurrences id reqs
unfolding pending occurrences contains
pending-snoc done [] id h = refl
pending-snoc done (req ∷ reqs) id h = ground (
  arith,
  pending-snoc done reqs id,
  contains-append done (id ∷ []) req,
  text_beq_iff id req,
  text_beq_iff req id,
)

pub pending_of-snoc :
    (ps : List Plugin) (done : List Text) (id probe : Text)
    → contains done id ≡ false
    → pending_of ps probe done ≡ pending_of ps probe (done ++ (id ∷ [])) + naming ps probe id
unfolding pending_of naming
pending_of-snoc [] done id probe h = refl
pending_of-snoc (p ∷ ps) done id probe h =
    ground (arith, pending_of-snoc ps done id probe, pending-snoc done p.requires id)
