-- ===== src/Bar/Status.antt =====
-- swayrbar/src/bar.rs: `create_modules`, `generate_status`, and the trait object of a module. No lock of
-- a module is found poisoned: a panic that holds one is that of the main thread, which ends the program.
pub mod Laws
pub mod Blocks
pub mod Shows
use swayr.Base.{
  Option, none, some, String, List, [], ◌∷◌, ◌++◌, ret, if◌then◌else◌, string_eq, ◌==◌,
}
use swayr.Base.Exec.{Exec, pure, modify, ◌>>=◌, ◌>>◌}
use swayr.Bar.Config.{ModuleConfig}
use swayr.Bar.Module.{NameInstanceAndReason, Block}
use swayr.Bar.Outside.{Crates, World, Printed, line, status, ask}
use swayr.Bar.Window
use swayr.Bar.Battery
use swayr.Bar.Pactl
use swayr.Bar.Nmcli
use swayr.Bar.Date
use swayr.Bar.Sysinfo

-- `Box<dyn BarModuleFn>`: the configuration and the state of each kind of module.
pub data BarModule (c : Crates) : Type 0 where
  window : ModuleConfig → Window.State → BarModule c
  sysinfo : ModuleConfig → c.System → Sysinfo.State c → BarModule c
  battery : ModuleConfig → Battery.State c → BarModule c
  date : ModuleConfig → Date.State → BarModule c
  pactl : ModuleConfig → Pactl.State → BarModule c
  nmcli : ModuleConfig → Nmcli.State → BarModule c

abbrev pub get_config : {c : Crates} → BarModule c → ModuleConfig
get_config (window cfg state) = cfg
get_config (sysinfo cfg sys state) = cfg
get_config (battery cfg state) = cfg
get_config (date cfg state) = cfg
get_config (pactl cfg state) = cfg
get_config (nmcli cfg state) = cfg

-- The module that a configuration names, if that is known.
unfoldable pub create_module : {c : Crates} → ModuleConfig → Exec (World c) (Option (BarModule c))
create_module {c} mc =
    if mc.name == "window"
    then pure (some (window mc Window.create))
    else if mc.name == "sysinfo"
    then ask (λ o. some (sysinfo mc o.new_system (Sysinfo.create c)))
    else if mc.name == "battery"
    then pure (some (battery mc (Battery.create c)))
    else if mc.name == "date"
    then pure (some (date mc Date.create))
    else if mc.name == "pactl"
    then pure (some (pactl mc Pactl.create))
    else if mc.name == "nmcli"
    then pure (some (nmcli mc Nmcli.create))
    else pure none

abbrev pub push_some : {c : Crates} → Option (BarModule c) → List (BarModule c) → List (BarModule c)
push_some none mods = mods
push_some (some m) mods = m ∷ mods

unfoldable pub create_modules :
    {c : Crates} → List ModuleConfig → Exec (World c) (List (BarModule c))
unfolding create_module
create_modules [] = pure []
create_modules (mc ∷ l) = do m ← create_module mc; mods ← create_modules l; pure (push_some m mods)

unfoldable pub build :
    {c : Crates} → BarModule c → Option NameInstanceAndReason → Exec (World c) (BarModule c × Block)
unfolding Window.build Sysinfo.build Battery.build Date.build Pactl.build Nmcli.build
build (window cfg state) nai = do r ← Window.build cfg state nai; pure (window cfg r.0, r.1)
build (sysinfo cfg sys state) nai = do
  r ← Sysinfo.build cfg sys state nai
  pure (sysinfo cfg r.0.0 r.0.1, r.1)
build (battery cfg state) nai = do r ← Battery.build cfg state nai; pure (battery cfg r.0, r.1)
build (date cfg state) nai = do r ← Date.build cfg state nai; pure (date cfg r.0, r.1)
build (pactl cfg state) nai = do r ← Pactl.build cfg state nai; pure (pactl cfg r.0, r.1)
build (nmcli cfg state) nai = do r ← Nmcli.build cfg state nai; pure (nmcli cfg r.0, r.1)

-- The `for` loop: the modules behind it, and their blocks.
unfoldable pub build_all :
    {c : Crates}
    → List (BarModule c)
    → Option NameInstanceAndReason
    → Exec (World c) (List (BarModule c) × List Block)
unfolding build
build_all [] nai = pure ([], [])
build_all (m ∷ mods) nai = do
  r ← build m nai
  rest ← build_all mods nai
  pure (r.0 ∷ rest.0, r.1 ∷ rest.1)

-- `println!`.
abbrev pub print : {c : Crates} → Printed → Exec (World c) (Unit {0})
print x = modify (λ w. record w { output = w.output ++ x ∷ [] })

unfoldable pub generate_status_1 :
    {c : Crates}
    → List (BarModule c)
    → Option NameInstanceAndReason
    → Exec (World c) (List (BarModule c))
unfolding build_all
generate_status_1 mods nai = do r ← build_all mods nai; print (status r.1); pure r.0

-- The loop over the events that the threads have sent.
unfoldable pub status_loop :
    {c : Crates}
    → List (BarModule c)
    → List (Option NameInstanceAndReason)
    → Exec (World c) (List (BarModule c))
unfolding generate_status_1
status_loop mods [] = pure mods
status_loop mods (ev ∷ l) = do mods' ← generate_status_1 mods ev; status_loop mods' l

unfoldable pub generate_status :
    {c : Crates}
    → List (BarModule c)
    → List (Option NameInstanceAndReason)
    → Exec (World c) (List (BarModule c))
unfolding status_loop
generate_status mods received = do
  print (line "{\"version\": 1, \"click_events\": true}")
  print (line "[")
  status_loop mods received
