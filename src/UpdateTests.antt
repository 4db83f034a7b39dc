-- ===== src/UpdateTests.antt =====
-- The theorems about the update checker at concrete versions, and tests.
use oof_rl.Prelude.{
  pos, ◌≡◌, refl, codes, text_beq, true, false, some, [], ◌∷◌, trim_space, trim_left, trim_right,
  is_space,
}
use oof_rl.Update.Versions.{
  Semver, atoi_strict, digits_value, int64, cut, split, parse_semver, compare_int, compare_text,
  compare_pre_numbers, compare_pre_id, compare_ids, compare_pre, compare_semver, newer_parsed,
  is_newer,
}
use oof_rl.Update.Versions.Order.{flip, chain, compare_semver_lem}
use oof_rl.Update.Versions.Newer.{version, updates_never_return}

abbrev dev_build : Semver
dev_build = record {
  major = pos 1;
  minor = pos 2;
  patch = pos 3;
  pre = codes "dev" ∷ codes "2" ∷ [];
}

abbrev later_build : Semver
later_build = record dev_build { pre = codes "dev" ∷ codes "11" ∷ [] }

abbrev release : Semver
release = record dev_build { pre = [] }

dev_parsed : version (codes "v1.2.3-dev.2") ≡ some dev_build
unfolding parse_semver trim_space trim_left trim_right is_space cut split atoi_strict digits_value
    int64
dev_parsed = refl

later_parsed : version (codes "1.2.3-dev.11+b7") ≡ some later_build
unfolding parse_semver trim_space trim_left trim_right is_space cut split atoi_strict digits_value
    int64
later_parsed = refl

release_parsed : version (codes " v1.2.3 ") ≡ some release
unfolding parse_semver trim_space trim_left trim_right is_space cut split atoi_strict digits_value
    int64
release_parsed = refl

-- A numeric identifier beyond int64 wraps around.
wraps : atoi_strict (codes "18446744073709551617") ≡ some (pos 1)
unfolding atoi_strict digits_value int64
wraps = refl

build_after_build : is_newer (codes "v1.2.3-dev.2") (codes "1.2.3-dev.11+b7") ≡ true
unfolding is_newer newer_parsed parse_semver trim_space trim_left trim_right is_space cut split
    atoi_strict digits_value int64 text_beq compare_semver compare_int compare_pre compare_ids
    compare_pre_id compare_pre_numbers compare_text
build_after_build = refl

release_after_build : is_newer (codes "1.2.3-dev.11+b7") (codes " v1.2.3 ") ≡ true
unfolding is_newer newer_parsed parse_semver trim_space trim_left trim_right is_space cut split
    atoi_strict digits_value int64 text_beq compare_semver compare_int compare_pre compare_ids
    compare_pre_id compare_pre_numbers compare_text
release_after_build = refl

updates_never_return_example :
    (is_newer (codes "v1.2.3-dev.2") (codes " v1.2.3 ") ≡ true)
    × (is_newer (codes " v1.2.3 ") (codes "v1.2.3-dev.2") ≡ false)
updates_never_return_example =
    updates_never_return (codes "v1.2.3-dev.2") (codes "1.2.3-dev.11+b7") (codes " v1.2.3 " ∷ [])
      (dev_build, dev_parsed)
      (
        (later_build, later_parsed),
        build_after_build,
        ((release, release_parsed), release_after_build, tt),
      )

compare_semver_lem_example :
    (compare_semver later_build dev_build ≡ flip (compare_semver dev_build later_build))
    × (chain
          (compare_semver dev_build later_build)
          (compare_semver later_build release)
          (compare_semver dev_build release)
        ≡ true)
compare_semver_lem_example = compare_semver_lem dev_build later_build release
