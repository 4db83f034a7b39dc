-- ===== src/ConfigTests.antt =====
-- The theorem about the settings at a concrete input.
use oof_rl.Prelude.{◌≡◌, codes, not, ◌&&◌, ◌==◌, text_comparable, [], if◌then◌else◌}
use oof_rl.Config.{Env, defaults, set, lookup_setting}
use oof_rl.Config.Settings.{is_read_only, stored, set-lookup_setting}

abbrev env : Env
env = record {
  default_data_dir = codes "C:/oof";
  rl_path = [];
  replay_dir = codes "C:/demos";
  app_version = codes "dev";
  one = 1;
}

set-lookup_setting_example :
    lookup_setting env (codes "dev_mode") (set (codes "dev_mode") (codes "on") (defaults env)) ≡ (
      if not (is_read_only (codes "dev_mode")) && codes "dev_mode" == codes "dev_mode"
      then stored (codes "dev_mode") (codes "on")
      else lookup_setting env (codes "dev_mode") (defaults env))
set-lookup_setting_example =
    set-lookup_setting env (codes "dev_mode") (codes "on") (defaults env) (codes "dev_mode")
