-- ===== src/Config.antt =====
-- internal/config/config.go: the settings by key, and the migration and the defaults of Load. What the
-- environment, the file system and the build say is the parameter `Env`; the overlay's opacity is an
-- opaque float64 whose zero is 0.
pub mod Settings
use oof_rl.Prelude.{
  ℕ, ℤ, pos, negsuc, Text, codes, Bool, true, false, not, ◌&&◌, ◌||◌, Option, none, some, List, [],
  ◌∷◌, ◌++◌, ◌==◌, int_comparable, text_comparable, nat_beq, is_empty, has_prefix, trim_space,
  lookup, insert, contains, if◌then◌else◌,
}
use oof_rl.Wire.{Float64}

pub record StorageSettings : Type 0 where
  pub ball_hit_events : Bool
  pub raw_packets : Bool

-- `plugin_settings` is a map; a nil map and an empty one read the same.
pub record Config : Type 0 where
  pub app_port : ℤ
  pub data_dir : Text
  pub rl_install_path : Text
  pub plugin_settings : List (Text × Text)
  pub overlay_hotkey : Text
  pub overlay_x : ℤ
  pub overlay_y : ℤ
  pub overlay_width : ℤ
  pub overlay_height : ℤ
  pub overlay_opacity : Float64
  pub overlay_hold_mode : Bool
  pub storage : StorageSettings
  pub disabled_plugins : List Text
  pub dev_mode : Bool

pub record Env : Type 0 where
  pub default_data_dir : Text
  pub rl_path : Text
  pub replay_dir : Text
  pub app_version : Text
  pub one : Float64

unfoldable pub defaults : Env → Config
defaults env = record {
  app_port = pos 8080;
  data_dir = env.default_data_dir;
  rl_install_path = env.rl_path;
  plugin_settings = [];
  overlay_hotkey = codes "F9";
  overlay_x = negsuc 0;
  overlay_y = negsuc 0;
  overlay_width = pos 860;
  overlay_height = pos 620;
  overlay_opacity = env.one;
  overlay_hold_mode = false;
  storage = record { ball_hit_events = false; raw_packets = false };
  disabled_plugins = [];
  dev_mode = false;
}

abbrev text_or_empty : Option Text → Text
text_or_empty none = []
text_or_empty (some v) = v

-- c.PluginSettings[key]
unfoldable pub plugin_setting : Text → Config → Text
plugin_setting key c = text_or_empty (lookup key c.plugin_settings)

unfoldable pub set_plugin_setting : Text → Text → Config → Config
set_plugin_setting key val c = record c { plugin_settings = insert key val c.plugin_settings }

-- What Load does to the decoded file: the legacy keys, then the fields that older files lack.
unfoldable pub migrate : Text → Bool → Config → Config
unfolding plugin_setting set_plugin_setting
migrate legacy_key legacy_delete c =
    let c' =
      if not (is_empty legacy_key) && is_empty (plugin_setting (codes "ballchasing_api_key") c)
      then set_plugin_setting (codes "ballchasing_api_key") legacy_key c
      else c in
    if legacy_delete && is_empty (plugin_setting (codes "ballchasing_delete_after_upload") c')
    then set_plugin_setting (codes "ballchasing_delete_after_upload") (codes "true") c'
    else c'

unfoldable pub back_fill : Env → Config → Config
back_fill env c = record c {
  data_dir = if is_empty c.data_dir then env.default_data_dir else c.data_dir;
  overlay_opacity = if nat_beq c.overlay_opacity 0 then env.one else c.overlay_opacity;
  overlay_width = if c.overlay_width == pos 0 then pos 860 else c.overlay_width;
  overlay_height = if c.overlay_height == pos 0 then pos 620 else c.overlay_height;
}

-- Set, with the parsing of dev_mode.
unfoldable pub is_on : Text → Bool
is_on val = val == codes "true" || val == codes "1" || val == codes "on"

unfoldable pub set : Text → Text → Config → Config
unfolding is_on set_plugin_setting
set key val c =
    if key == codes "data_dir"
    then record c { data_dir = val }
    else if key == codes "dev_mode"
    then record c { dev_mode = is_on val }
    else if key == codes "replay_dir"
    then c
    else if key == codes "app_version"
    then c
    else set_plugin_setting key val c

abbrev pub bool_text : Bool → Text
bool_text true = codes "true"
bool_text false = codes "false"

-- Lookup
unfoldable pub lookup_setting : Env → Text → Config → Text
unfolding plugin_setting
lookup_setting env key c =
    if key == codes "data_dir"
    then c.data_dir
    else if key == codes "dev_mode"
    then bool_text c.dev_mode
    else if key == codes "replay_dir"
    then env.replay_dir
    else if key == codes "app_version"
    then env.app_version
    else plugin_setting key c
