-- ===== src/Config/Defaults.antt =====
-- swayr/src/config.rs: the sections of the configuration and their defaults.
use swayr.Base.{ℕ, ℤ, pos, Bool, true, false, Option, none, some, String, List, [], ◌∷◌}

pub record Menu : Type 0 where
  pub executable : Option String
  pub args : Option (List String)

pub record Format : Type 0 where
  pub output_format : Option String
  pub workspace_format : Option String
  pub container_format : Option String
  pub window_format : Option String
  pub indent : Option String
  pub urgency_start : Option String
  pub urgency_end : Option String
  pub html_escape : Option Bool
  pub icon_dirs : Option (List String)
  pub fallback_icon : Option String

pub record Layout : Type 0 where
  pub auto_tile : Option Bool
  pub auto_tile_min_window_width_per_output_width : Option (List (ℤ × ℤ))

pub record Focus : Type 0 where
  pub lockin_delay : Option ℕ

pub record Misc : Type 0 where
  pub auto_nop_delay : Option ℕ
  pub seq_inhibit : Option Bool

pub record Config : Type 0 where
  pub menu : Option Menu
  pub format : Option Format
  pub layout : Option Layout
  pub focus : Option Focus
  pub misc : Option Misc

abbrev pub default_menu : Menu
default_menu = record {
  executable = some "wofi";
  args = some (
      "--show=dmenu" ∷ "--allow-markup" ∷ "--allow-images" ∷ "--insensitive"
      ∷ "--cache-file=/dev/null" ∷ "--parse-search" ∷ "--height=40%" ∷ "--prompt={prompt}" ∷ []);
}

abbrev pub default_format : Format
default_format = record {
  output_format = some "{indent}<b>Output {name}</b>    <span alpha=\"20000\">({id})</span>";
  workspace_format =
      some
        "{indent}<b>Workspace {name} [{layout}]</b> on output {output_name}    <span alpha=\"20000\">({id})</span>";
  container_format =
      some
        "{indent}<b>Container [{layout}]</b> <i>{marks}</i> on workspace {workspace_name}    <span alpha=\"20000\">({id})</span>";
  window_format =
      some
        "img:{app_icon}:text:{indent}<i>{app_name}</i> — {urgency_start}<b>“{title}”</b>{urgency_end} <i>{marks}</i> on workspace {workspace_name} / {output_name}    <span alpha=\"20000\">({id})</span>";
  indent = some "    ";
  urgency_start = some "<span background=\"darkred\" foreground=\"yellow\">";
  urgency_end = some "</span>";
  html_escape = some true;
  icon_dirs = some (
      "/usr/share/icons/hicolor/scalable/apps" ∷ "/usr/share/icons/hicolor/64x64/apps"
      ∷ "/usr/share/icons/hicolor/48x48/apps" ∷ "/usr/share/icons/Adwaita/64x64/apps"
      ∷ "/usr/share/icons/Adwaita/48x48/apps" ∷ "/usr/share/pixmaps" ∷ []);
  fallback_icon = none;
}

abbrev pub default_layout : Layout
default_layout = record {
  auto_tile = some false;
  auto_tile_min_window_width_per_output_width = some (
      (pos 800, pos 400)
      ∷ (pos 1024, pos 500)
      ∷ (pos 1280, pos 600)
      ∷ (pos 1400, pos 680)
      ∷ (pos 1440, pos 700)
      ∷ (pos 1600, pos 780)
      ∷ (pos 1920, pos 920)
      ∷ (pos 2560, pos 1000)
      ∷ (pos 3440, pos 1000)
      ∷ (pos 4096, pos 1200)
      ∷ []);
}

abbrev pub default_focus : Focus
default_focus = record { lockin_delay = some 750 }

abbrev pub default_misc : Misc
default_misc = record { auto_nop_delay = none; seq_inhibit = some false }

abbrev pub default_config : Config
default_config = record {
  menu = some default_menu;
  format = some default_format;
  layout = some default_layout;
  focus = some default_focus;
  misc = some default_misc;
}
