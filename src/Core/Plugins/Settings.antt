-- ===== src/Core/Plugins/Settings.antt =====
-- sanitizeDisabledPlugins: what is left of the ids of the settings.
use oof_rl.Prelude.{
  ◌≡◌, refl, ◌∙◌, Text, Bool, true, false, not, ◌&&◌, ◌||◌, List, [], ◌∷◌, ◌++◌, ◌==◌,
  text_comparable, text_beq_iff, is_empty, trim_space, contains, contains-append, are_distinct,
  are_distinct-snoc, arith, Bool-cases, inl, inr,
}
use oof_rl.Core.Plugins.{is_host_core_plugin_id, sanitize_from, sanitize_disabled_plugins}

abbrev pub trimmed : List Text → List Text
trimmed [] = []
trimmed (raw ∷ ids) = trim_space raw ∷ trimmed ids

-- Ids that a user may disable.
abbrev pub can_disable : Text → Bool
can_disable id = not (is_empty id || is_host_core_plugin_id id)

sanitize_from-distinct :
    (ids out : List Text) → are_distinct out ≡ true → are_distinct (sanitize_from ids out) ≡ true
unfolding sanitize_from
sanitize_from-distinct [] out d = d
sanitize_from-distinct (raw ∷ ids) out d =
    elim (Bool-cases (
      is_empty (trim_space raw)
      || is_host_core_plugin_id (trim_space raw)
      || contains out (trim_space raw))) [
        | inl skip ↦ rw skip (sanitize_from-distinct ids out d)
        | inr new ↦ rw new (
            sanitize_from-distinct ids (out ++ (trim_space raw ∷ []))
              (are_distinct-snoc out (trim_space raw) ∙ rw d (ground (arith, new))))
      ]

known_or_barred :
    (out : List Text) (a id : Text) (rest : Bool)
    → (is_empty a || is_host_core_plugin_id a || contains out a) ≡ true
    → (contains out id || (can_disable id && rest))
      ≡ (contains out id || (can_disable id && (a == id || rest)))
known_or_barred out a id rest skip = elim (Bool-cases (a == id)) [
  | inr other ↦ rw other refl
  | inl same ↦ let equal = (text_beq_iff a id).0 same in rw same (known (rw equal at skip))
]
  where
    known :
        (is_empty id || is_host_core_plugin_id id || contains out id) ≡ true
        → (contains out id || (can_disable id && rest))
          ≡ (contains out id || (can_disable id && true))
    known h = ground (arith, h)

new_id :
    (out : List Text) (a id : Text) (rest : Bool)
    → (is_empty a || is_host_core_plugin_id a || contains out a) ≡ false
    → (contains (out ++ (a ∷ [])) id || (can_disable id && rest))
      ≡ (contains out id || (can_disable id && (a == id || rest)))
unfolding contains
new_id out a id rest new = elim (Bool-cases (a == id)) [
  | inr other ↦ rw (contains-append out (a ∷ []) id, other) (ground arith)
  | inl same ↦
      let equal = (text_beq_iff a id).0 same in
      rw (contains-append out (a ∷ []) id, same) (can (rw equal at new))
]
  where
    can :
        (is_empty id || is_host_core_plugin_id id || contains out id) ≡ false
        → ((contains out id || true) || (can_disable id && rest))
          ≡ (contains out id || (can_disable id && true))
    can h = ground (arith, h)

sanitize_from-contains :
    (ids out : List Text) (id : Text)
    → contains (sanitize_from ids out) id
      ≡ (contains out id || (can_disable id && contains (trimmed ids) id))
unfolding sanitize_from contains
sanitize_from-contains [] out id = ground arith
sanitize_from-contains (raw ∷ ids) out id =
    elim (Bool-cases (
      is_empty (trim_space raw)
      || is_host_core_plugin_id (trim_space raw)
      || contains out (trim_space raw))) [
        | inl skip ↦ rw skip (
            sanitize_from-contains ids out id
            ∙ known_or_barred out (trim_space raw) id (contains (trimmed ids) id) skip)
        | inr new ↦ rw new (
            sanitize_from-contains ids (out ++ (trim_space raw ∷ [])) id
            ∙ new_id out (trim_space raw) id (contains (trimmed ids) id) new)
      ]

-- Of the ids of the settings sanitizeDisabledPlugins keeps each at most once, and exactly those
-- which, trimmed, are neither empty nor the id of the core plugin.
sanitize_disabled_plugins_lem :
    (ids : List Text)
    → (are_distinct (sanitize_disabled_plugins ids) ≡ true)
      × ((id : Text)
          → contains (sanitize_disabled_plugins ids) id
            ≡ (not (is_empty id || is_host_core_plugin_id id) && contains (trimmed ids) id))
unfolding sanitize_disabled_plugins contains are_distinct
sanitize_disabled_plugins_lem ids =
    (sanitize_from-distinct ids [] refl, λ id. sanitize_from-contains ids [] id)
