-- ===== src/Bar/Status/Blocks.antt =====
-- swayrbar/src/bar.rs: what building the modules leaves alone outside, and which blocks it makes.
use swayr.Base.{◌≡◌, refl, Bool, Option, String, List, [], ◌∷◌, map}
use swayr.Bar.Module.{NameInstanceAndReason, Block, block}
use swayr.Bar.Outside.{Crates}
use swayr.Bar.Quiet.{
  Quiet, Any, pure-Quiet, lift-Quiet, ask-Quiet, if-Quiet, bind-Quiet, then-Quiet,
}
use swayr.Bar.Status.{
  BarModule, window, sysinfo, battery, date, pactl, nmcli, get_config, build, build_all,
}
use swayr.Bar.Status.Laws.{shown}
use swayr.Bar.Window
use swayr.Bar.Battery
use swayr.Bar.Pactl
use swayr.Bar.Nmcli
use swayr.Bar.Date
use swayr.Bar.Sysinfo

ruleset quiet = (then-Quiet, ask-Quiet, lift-Quiet, if-Quiet, pure-Quiet)

module _ {c : Crates} where
  window-Quiet :
      (state : Window.State) (fmt : String) (esc : Bool)
      → Quiet {c = c} Any (Window.refresh_state state fmt esc)
  unfolding Window.refresh_state
  window-Quiet state fmt esc = search quiet

  battery-Quiet :
      (state : Battery.State c) (fmt : String) (esc : Bool)
      → Quiet {c = c} Any (Battery.refresh_state state fmt esc)
  unfolding Battery.refresh_state
  battery-Quiet state fmt esc = search quiet

  nmcli-Quiet :
      (state : Nmcli.State) (fmt : String) (esc : Bool)
      → Quiet {c = c} Any (Nmcli.refresh_state state fmt esc)
  unfolding Nmcli.refresh_state
  nmcli-Quiet state fmt esc = search quiet

  pactl-Quiet :
      (state : Pactl.State) (fmt : String) (esc : Bool)
      → Quiet {c = c} Any (Pactl.refresh_state state fmt esc)
  unfolding Pactl.refresh_state Pactl.get_volume Pactl.get_mute_state Pactl.run_pactl
  pactl-Quiet state fmt esc = search quiet

  sysinfo-Quiet :
      (sys : c.System) (state : Sysinfo.State c) (fmt : String) (esc : Bool)
      → Quiet {c = c} Any (Sysinfo.refresh_state sys state fmt esc)
  unfolding Sysinfo.refresh_state Sysinfo.get_cpu_usage Sysinfo.get_memory_usage
      Sysinfo.get_load_average Sysinfo.refresh_cpu Sysinfo.refresh_memory
  sysinfo-Quiet sys state fmt esc = search quiet

  date-Quiet : (fmt : String) → Quiet {c = c} Any (Date.chrono_format fmt)
  unfolding Date.chrono_format
  date-Quiet fmt = search quiet

ruleset refreshing =
    (quiet, window-Quiet, battery-Quiet, nmcli-Quiet, pactl-Quiet, sysinfo-Quiet, date-Quiet)

-- The block shows what the module has cached, under the configuration that it had.
abbrev pub IsShown : {c : Crates} → BarModule c → BarModule c × Block → Type 0
IsShown m r = (r.1 ≡ shown r.0) × (get_config r.0 ≡ get_config m)

module _ {c : Crates} where
  pub build-Quiet :
      (m : BarModule c) (nai : Option NameInstanceAndReason) → Quiet (IsShown m) (build m nai)
  unfolding build Window.build Sysinfo.build Battery.build Date.build Pactl.build Nmcli.build
  build-Quiet (window cfg state) nai =
      bind-Quiet (λ r. r.1 ≡ block "window" cfg r.0.cached_text) (IsShown (window cfg state))
        {m = Window.build cfg state nai} (search refreshing) (search pure-Quiet)
  build-Quiet (sysinfo cfg sys state) nai =
      bind-Quiet (λ r. r.1 ≡ block "sysinfo" cfg r.0.1.cached_text)
        (IsShown (sysinfo cfg sys state)) {m = Sysinfo.build cfg sys state nai} (search refreshing)
        (search pure-Quiet)
  build-Quiet (battery cfg state) nai =
      bind-Quiet (λ r. r.1 ≡ block "battery" cfg r.0.cached_text) (IsShown (battery cfg state))
        {m = Battery.build cfg state nai} (search refreshing) (search pure-Quiet)
  build-Quiet (date cfg state) nai =
      bind-Quiet (λ r. r.1 ≡ block "date" cfg r.0.cached_text) (IsShown (date cfg state))
        {m = Date.build cfg state nai} (search refreshing) (search pure-Quiet)
  build-Quiet (pactl cfg state) nai =
      bind-Quiet (λ r. r.1 ≡ block "pactl" cfg r.0.cached_text) (IsShown (pactl cfg state))
        {m = Pactl.build cfg state nai} (search refreshing) (search pure-Quiet)
  build-Quiet (nmcli cfg state) nai =
      bind-Quiet (λ r. r.1 ≡ block "nmcli" cfg r.0.cached_text) (IsShown (nmcli cfg state))
        {m = Nmcli.build cfg state nai} (search refreshing) (search pure-Quiet)

  -- The blocks of all modules, and their configurations.
  abbrev pub AreShown : List (BarModule c) → List (BarModule c) × List Block → Type 0
  AreShown mods r = (r.1 ≡ map shown r.0) × (map get_config r.0 ≡ map get_config mods)

  pub build_all-Quiet :
      (mods : List (BarModule c)) (nai : Option NameInstanceAndReason)
      → Quiet (AreShown mods) (build_all mods nai)
  unfolding build_all
  build_all-Quiet [] nai = pure-Quiet _ ([], []) (refl, refl)
  build_all-Quiet (m ∷ mods) nai =
      bind-Quiet (IsShown m) (AreShown (m ∷ mods)) {m = build m nai} (build-Quiet m nai) λ r p.
        bind-Quiet (AreShown mods) (AreShown (m ∷ mods)) {m = build_all mods nai}
          (build_all-Quiet mods nai)
          λ rest q.
            pure-Quiet _ (r.0 ∷ rest.0, r.1 ∷ rest.1) (rw (p.0, q.0) refl, rw (p.1, q.1) refl)
