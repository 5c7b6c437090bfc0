-- ===== src/Bar/Defaults.antt =====
-- swayrbar: the `default_config` of each module, and the default of swayrbar/src/config.rs.
use swayr.Base.{true, false, none, some, String, [], ◌∷◌}
use swayr.Bar.Config.{ModuleConfig, Config}

abbrev pub window : String → ModuleConfig
window inst = record {
  name = "window";
  instance_name = inst;
  format = "🪟 {title} — {app_name}";
  html_escape = some false;
  on_click = some (
      ("Left", "swayr" ∷ "switch-to-urgent-or-lru-window" ∷ [])
      ∷ ("Right", "kill" ∷ "{pid}" ∷ [])
      ∷ []);
}

abbrev pub sysinfo : String → ModuleConfig
sysinfo inst = record {
  name = "sysinfo";
  instance_name = inst;
  format =
      "💻 CPU: {cpu_usage:{:5.1}}% Mem: {mem_usage:{:5.1}}% Load: {load_avg_1:{:5.2}} / {load_avg_5:{:5.2}} / {load_avg_15:{:5.2}}";
  html_escape = some false;
  on_click = some (("Left", "foot" ∷ "htop" ∷ []) ∷ []);
}

abbrev pub battery : String → ModuleConfig
battery inst = record {
  name = "battery";
  instance_name = inst;
  format = "🔋 Bat: {state_of_charge:{:5.1}}%, {state}, Health: {state_of_health:{:5.1}}%";
  html_escape = some false;
  on_click = none;
}

abbrev pub pactl : String → ModuleConfig
pactl inst = record {
  name = "pactl";
  instance_name = inst;
  format = "🔈 Vol: {volume:{:3}}%{muted}";
  html_escape = some true;
  on_click = some (
      ("Left", "pavucontrol" ∷ [])
      ∷ ("Right", "pactl" ∷ "set-sink-mute" ∷ "@DEFAULT_SINK@" ∷ "toggle" ∷ [])
      ∷ ("WheelUp", "pactl" ∷ "set-sink-volume" ∷ "@DEFAULT_SINK@" ∷ "+1%" ∷ [])
      ∷ ("WheelDown", "pactl" ∷ "set-sink-volume" ∷ "@DEFAULT_SINK@" ∷ "-1%" ∷ [])
      ∷ []);
}

abbrev pub nmcli : String → ModuleConfig
nmcli inst = record {
  name = "nmcli";
  instance_name = inst;
  format = "📡 Wi-fi: {name}{bars}{signal}";
  html_escape = some false;
  on_click = none;
}

abbrev pub date : String → ModuleConfig
date inst = record {
  name = "date";
  instance_name = inst;
  format = "⏰ %F %X";
  html_escape = some false;
  on_click = none;
}

abbrev pub default : Config
default = record {
  refresh_interval = 1000;
  modules = window "0" ∷ sysinfo "0" ∷ battery "0" ∷ pactl "0" ∷ date "0" ∷ [];
}
