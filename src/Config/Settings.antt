-- ===== src/Config/Settings.antt =====
-- What Lookup reads after Set.
use oof_rl.Prelude.{
  ◌≡◌, refl, sym, ◌∙◌, Text, codes, Bool, true, false, not, ◌&&◌, ◌||◌, ◌==◌, text_comparable,
  text_beq, text_beq_iff, text_beq_refl, lookup-insert, arith, Bool-cases, inl, inr, if◌then◌else◌,
}
use oof_rl.Config.{
  Config, Env, is_on, set, set_plugin_setting, plugin_setting, bool_text, lookup_setting,
}

abbrev pub is_read_only : Text → Bool
is_read_only key = key == codes "replay_dir" || key == codes "app_version"

-- What a setting reads as once it is set.
abbrev pub stored : Text → Text → Text
stored key val = if key == codes "dev_mode" then bool_text (is_on val) else val

plugin_setting-set :
    (key probe val : Text) (c : Config)
    → plugin_setting probe (set_plugin_setting key val c)
      ≡ (if key == probe then val else plugin_setting probe c)
unfolding plugin_setting set_plugin_setting
plugin_setting-set key probe val c = elim (Bool-cases (key == probe)) [
  | inl same ↦ rw (lookup-insert key probe val c.plugin_settings, same) refl
  | inr other ↦ rw (lookup-insert key probe val c.plugin_settings, other) refl
]

beq_sym : (s t : Text) (b : Bool) → (s == t) ≡ b → (t == s) ≡ b
beq_sym s t true h = (text_beq_iff t s).1 (sym ((text_beq_iff s t).0 h))
beq_sym s t false h = elim (Bool-cases (t == s)) [
  | inr other ↦ other
  | inl same ↦ absurd (both ((text_beq_iff s t).1 (sym ((text_beq_iff t s).0 same))))
]
  where
    both : (s == t) ≡ true → ⊥
    both k = ground (arith, h, k)

module _ (env : Env) (probe val : Text) (c : Config) where
  -- Lookup of any setting after Set of this one.
  abbrev pub ReadsBack : Text → Type 0
  ReadsBack key = lookup_setting env probe (set key val c) ≡ (
      if not (is_read_only key) && key == probe then stored key val else lookup_setting env probe c)

  data_dir-ReadsBack : ReadsBack (codes "data_dir")
  unfolding lookup_setting set text_beq
  data_dir-ReadsBack = elim (Bool-cases (probe == codes "data_dir")) [
    | inl same ↦ let equal = (text_beq_iff probe (codes "data_dir")).0 same in rw equal refl
    | inr other ↦ rw (other, beq_sym probe (codes "data_dir") false other) refl
  ]

  dev_mode-ReadsBack : ReadsBack (codes "dev_mode")
  unfolding lookup_setting set text_beq
  dev_mode-ReadsBack = elim (Bool-cases (probe == codes "dev_mode")) [
    | inl same ↦ let equal = (text_beq_iff probe (codes "dev_mode")).0 same in rw equal refl
    | inr other ↦ rw (other, beq_sym probe (codes "dev_mode") false other) refl
  ]

  plugin_setting-ReadsBack :
      (key : Text)
      → (key == codes "data_dir") ≡ false
      → (key == codes "dev_mode") ≡ false
      → (key == codes "replay_dir") ≡ false
      → (key == codes "app_version") ≡ false
      → ReadsBack key
  unfolding lookup_setting set
  plugin_setting-ReadsBack key d m r a = elim (Bool-cases (key == probe)) [
    | inl same ↦
        let equal = sym ((text_beq_iff key probe).0 same) in
        rw (equal, d, m, r, a, text_beq_refl key)
          (plugin_setting-set key key val c ∙ rw (text_beq_refl key) refl)
    | inr other ↦ rw (d, m, r, a, other, plugin_setting-set key probe val c, other) refl
  ]

  -- After Set of any key, Lookup of the same key reads the value, for dev_mode as true or false, and of
  -- any other key, and of all keys after Set of one of the two read-only ones, what it read before; so
  -- a key that the program does not know is stored too.
  pub set-lookup_setting : (key : Text) → ReadsBack key
  unfolding lookup_setting set text_beq
  set-lookup_setting key = elim (Bool-cases (key == codes "data_dir")) [
    | inl is_d ↦ let e = (text_beq_iff key (codes "data_dir")).0 is_d in rw e data_dir-ReadsBack
    | inr d ↦ elim (Bool-cases (key == codes "dev_mode")) [
      | inl is_m ↦ let e = (text_beq_iff key (codes "dev_mode")).0 is_m in rw e dev_mode-ReadsBack
      | inr m ↦ elim (Bool-cases (key == codes "replay_dir")) [
        | inl is_r ↦ let e = (text_beq_iff key (codes "replay_dir")).0 is_r in rw e refl
        | inr r ↦ elim (Bool-cases (key == codes "app_version")) [
          | inl is_a ↦ let e = (text_beq_iff key (codes "app_version")).0 is_a in rw e refl
          | inr a ↦ plugin_setting-ReadsBack key d m r a
        ]
      ]
    ]
  ]
