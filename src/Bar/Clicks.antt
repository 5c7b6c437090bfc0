-- ===== src/Bar/Clicks.antt =====
-- swayrbar/src/bar.rs: `handle_input` and `handle_click`. The crate that reads a click from its JSON text
-- is the parameter `parse_click`.
pub mod Laws
pub mod Shown
use Prim.Native.Char.{code}
use Prim.Native.String as Text
use swayr.Base.{
  Bool, true, false, Option, none, some, String, List, [], ◌∷◌, ◌++◌, Outcome, ret, panic, is_some,
  nat_beq, if◌then◌else◌, string_eq, ◌==◌,
}
use swayr.Base.Exec.{Exec, pure, lift, modify, ◌>>=◌, ◌>>◌}
use swayr.Base.Dict.{get}
use swayr.Bar.Config.{ModuleConfig}
use swayr.Bar.Module.{NameInstanceAndReason, click_event, get_on_click_map}
use swayr.Bar.Outside.{Crates, World}
use swayr.Bar.Status.{BarModule, window, sysinfo, battery, date, pactl, nmcli, get_config}
use swayr.Bar.Window
use swayr.Bar.Sysinfo
use swayr.Bar.Battery
use swayr.Bar.Date
use swayr.Bar.Pactl
use swayr.Bar.Nmcli

-- `swaybar_types::Click`; `button` is the Debug form of the button.
pub record Click : Type 0 where
  pub name : Option String
  pub instance_name : Option String
  pub button : String

unfoldable pub subst_args : {c : Crates} → BarModule c → List String → Exec (World c) (List String)
unfolding Window.subst_args Sysinfo.subst_args Battery.subst_args Date.subst_args Pactl.subst_args
    Nmcli.subst_args
subst_args {c} (window cfg state) cmd = pure (Window.subst_args c state cmd)
subst_args {c} (sysinfo cfg sys state) cmd = pure (Sysinfo.subst_args c state cmd)
subst_args {c} (battery cfg state) cmd = pure (Battery.subst_args c state cmd)
subst_args (date cfg state) cmd = Date.subst_args cmd
subst_args {c} (pactl cfg state) cmd = pure (Pactl.subst_args c state cmd)
subst_args {c} (nmcli cfg state) cmd = pure (Nmcli.subst_args c state cmd)

-- How the command ends is only logged.
unfoldable pub execute_command : {c : Crates} → List String → Exec (World c) (Unit {0})
execute_command [] = lift (panic "index out of bounds: the len is 0 but the index is 0")
execute_command (prog ∷ args) = modify (λ w. record w { ran = w.ran ++ (prog ∷ args) ∷ [] })

-- `on_click.get(&button_str)`, where there is a map.
abbrev pub get_command : String → Option (List (String × List String)) → Option (List String)
get_command button none = none
get_command button (some on_click) = get button on_click

-- The command of a module for a click.
unfoldable pub on_click_command : ModuleConfig → String → String → String → Option (List String)
unfolding get_on_click_map get
on_click_command cfg name inst button = get_command button (get_on_click_map cfg name inst)

-- The event behind a click on a module with a command.
unfoldable pub click_refresh : ModuleConfig → Option NameInstanceAndReason
click_refresh cfg =
    if cfg.name == "window" then none else some (cfg.name, cfg.instance_name, click_event)

unfoldable pub run_click :
    {c : Crates} → BarModule c → List String → Exec (World c) (Option NameInstanceAndReason)
unfolding subst_args execute_command click_refresh
run_click m cmd = do
  args ← subst_args m cmd
  execute_command args
  pure (click_refresh (get_config m))

-- The body of the loop: a command is run and ends it.
unfoldable pub on_command :
    {c : Crates}
    → Option (List String)
    → BarModule c
    → Exec (World c) (Option NameInstanceAndReason)
    → Exec (World c) (Option NameInstanceAndReason)
unfolding run_click
on_command (some cmd) m rest = run_click m cmd
on_command none m rest = rest

-- The `for` loop over the modules.
unfoldable pub click_on :
    {c : Crates}
    → List (BarModule c)
    → String
    → String
    → String
    → Exec (World c) (Option NameInstanceAndReason)
unfolding on_click_command on_command
click_on [] name inst button = pure none
click_on (m ∷ mods) name inst button =
    on_command (on_click_command (get_config m) name inst button) m (click_on mods name inst button)

-- Behind `click.name?`.
unfoldable pub click_named :
    {c : Crates}
    → Option String
    → String
    → String
    → List (BarModule c)
    → Exec (World c) (Option NameInstanceAndReason)
unfolding click_on
click_named none name button mods = pure none
click_named (some inst) name button mods = click_on mods name inst button

unfoldable pub handle_click :
    {c : Crates} → Click → List (BarModule c) → Exec (World c) (Option NameInstanceAndReason)
unfolding click_named
handle_click click mods = elim click.name [
  | none ↦ pure none
  | some name ↦ click_named click.instance_name name click.button mods
]

-- `buf.strip_prefix(',').unwrap_or(&buf)`.
unfoldable pub without_comma : String → String
without_comma Text.[] = ""
without_comma (Text.◌∷◌ c s) = if nat_beq (code c) b',' then s else Text.◌∷◌ c s

-- What `read_line` gives, and the modules as they stand when the line has been read. At the end of the
-- input it is an empty text, again and again.
pub data Input (c : Crates) : Type 0 where
  text : String → List (BarModule c) → Input c
  unreadable : Input c

-- `send_refresh_event`, for an event that is there, on the events sent so far.
abbrev pub send_if_some :
    Option NameInstanceAndReason → List NameInstanceAndReason → List NameInstanceAndReason
send_if_some none sent = sent
send_if_some (some ev) sent = sent ++ ev ∷ []

module _ {c : Crates} (parse_click : String → Option Click) where
  -- One line. What cannot be read or parsed is skipped.
  unfoldable pub handle_line : Input c → Exec (World c) (Option NameInstanceAndReason)
  unfolding without_comma handle_click
  handle_line unreadable = pure none
  handle_line (text buf mods) = elim (parse_click (without_comma buf)) [
    | none ↦ pure none
    | some click ↦ handle_click click mods
  ]

  -- The loop over the lines: the events that are sent.
  unfoldable pub input_loop :
      List (Input c) → List NameInstanceAndReason → Exec (World c) (List NameInstanceAndReason)
  unfolding handle_line
  input_loop [] sent = pure sent
  input_loop (x ∷ l) sent = do ev ← handle_line x; input_loop l (send_if_some ev sent)

  -- The first line must open an array.
  unfoldable pub handle_input : List (Input c) → Exec (World c) (List NameInstanceAndReason)
  unfolding input_loop
  handle_input [] = pure []
  handle_input (unreadable ∷ l) = lift (panic "Could not read from stdin")
  handle_input (text sb mods ∷ l) = if sb == "[\n" then input_loop l [] else pure []
