-- ===== src/Examples/Starts.antt =====
-- The theorems on what surrounds the commands: the configuration file, the icons, the clients.
use swayr.Base.{
  ◌≡◌, refl, Bool, true, false, Option, none, some, String, [], ◌∷◌, ret, ◌||◌, string_eq, ◌==◌,
  if◌then◌else◌,
}
use swayr.Base.Exec.{pure, ◌>>=◌}
use swayr.Base.Dict.{get}
use swayr.Cfg.{Disk, Platform, exists, load_config}
use swayr.Cfg.Laws.{made, load_config-first}
use swayr.Util.Icons.{Files, get_icon, get_app_id_to_icon_map}
use swayr.Util.Icons.Laws.{IsIcon, get_icon-later}
use swayr.Cmds.Command.{SwayrCommand, nop}
use swayr.Cmds.Exec.{exec_swayr_cmd}
use swayr.Daemon.Serve.{serve_client_requests, requests, run_all, serve_client_requests-commands}
use swayr.Examples.Commands.{env, world}

-- A configuration that is one switch.
abbrev platform : Platform Bool
platform = record {
  config_dir = λ project. some "/home/u/.config/swayr";
  creates_dir = λ dir. true;
  write = λ content old. some content;
  read = λ content. some content;
  to_toml = λ b. some (if b then "on = true" else "on = false");
  from_toml = λ s. if s == "on = true" then some true else some false;
  default = true;
}

abbrev empty_disk : Disk
empty_disk = record { files = []; dirs = []; ran = [] }

load_config-first_example :
    (load_config platform "swayr" empty_disk ≡ (
      ret true,
      made platform "swayr" {dir = "/home/u/.config/swayr"} refl empty_disk "on = true",
    ))
    × (load_config platform "swayr"
          (made platform "swayr" {dir = "/home/u/.config/swayr"} refl empty_disk "on = true")
        ≡ (
          ret true,
          made platform "swayr" {dir = "/home/u/.config/swayr"} refl empty_disk "on = true",
        ))
unfolding exists
load_config-first_example = load_config-first platform "swayr" refl empty_disk "on = true" (record {
  no_dir = refl;
  no_sys = refl;
  no_file = refl;
  may_create = refl;
  serialized = refl;
  written = refl;
  readable = refl;
  parses = refl;
})

-- One desktop file, with an icon that is there.
abbrev files : Files
files = record {
  data_local_dir = none;
  xdg_data_dirs = none;
  read_dir = λ dir. if dir == "/usr/share/applications/" then some ("foot.desktop" ∷ []) else none;
  is_file = λ p. p == "/usr/share/applications/foot.desktop" || p == "/icons/foot.png";
  read_lines = λ p. some (some "Name=Foot" ∷ some "Icon=foot" ∷ []);
}

-- Later there are none.
abbrev no_files : Files
no_files = record files { read_dir = λ dir. none; is_file = λ p. false }

get_icon-later_example :
    let c = (get_icon files "other" ("/icons" ∷ []) none).1 in
    (get_icon no_files "foot" [] c
      ≡ (ret (get "foot" (get_app_id_to_icon_map files ("/icons" ∷ []))), c))
    × IsIcon files (get "foot" (get_app_id_to_icon_map files ("/icons" ∷ [])))
get_icon-later_example = get_icon-later files no_files "other" "foot" ("/icons" ∷ []) []

-- The icon is found.
found : get "foot" (get_app_id_to_icon_map files ("/icons" ∷ [])) ≡ some "/icons/foot.png"
unfolding get_app_id_to_icon_map get
found = refl

abbrev to_json : SwayrCommand → String
to_json cmd = "\"Nop\""

abbrev from_json : String → Option SwayrCommand
from_json s = if s == "\"Nop\"" then some nop else none

serve_client_requests-commands_example :
    serve_client_requests from_json
      (exec_swayr_cmd env 0 2)
      true
      true
      (requests from_json (exec_swayr_cmd env 0 2) to_json (nop ∷ nop ∷ []))
      world
    ≡ (run_all from_json (exec_swayr_cmd env 0 2) (nop ∷ nop ∷ []) >>= λ _. pure 2) world
serve_client_requests-commands_example =
    serve_client_requests-commands from_json (exec_swayr_cmd env 0 2) to_json true (nop ∷ nop ∷ [])
      world (refl, (refl, tt))
