-- ===== src/Bar/Window.antt =====
-- swayrbar/src/module/window.rs: the title of the window that has the focus.
pub mod Laws
use swayr.Base.{
  Bool, true, false, ◌||◌, Option, none, some, String, List, map, ℤ, negsuc, Outcome, ret, expect,
  find_m, unwrap_or, string_eq, int_eq, ◌==◌, [], ◌∷◌, if◌then◌else◌,
}
use swayr.Base.Exec.{Exec, pure, lift, ◌>>=◌}
use swayr.Swayipc.{Node, info}
use swayr.Ipc.{Kind, get_root_node, has_type, get_name, get_app_name, iter, get_type}
use swayr.Fmt.{FmtArg, i32, string}
use swayr.Fmt.Placeholders as Placeholders
use swayr.Bar.Config.{ModuleConfig, is_html_escape}
use swayr.Bar.Outside.{Crates, World, ask}
use swayr.Bar.Module.{
  RefreshReason, sway_event, NameInstanceAndReason, should_refresh, Block, block,
}

abbrev pub name : String
name = "window"

abbrev pub initial_pid : ℤ
initial_pid = negsuc 127

abbrev pub no_window_pid : ℤ
no_window_pid = negsuc 0

abbrev pub unknown_pid : ℤ
unknown_pid = negsuc 1

pub record State : Type 0 where
  pub name : String
  pub app_name : String
  pub pid : ℤ
  pub cached_text : String

abbrev pub create : State
create = record { name = ""; app_name = ""; pid = initial_pid; cached_text = "" }

abbrev pub args : (c : Crates) → State → String → Option (FmtArg c.floats)
args c state key =
    if key == "title" || key == "name"
    then some (string state.name)
    else if key == "app_name"
    then some (string state.app_name)
    else if key == "pid"
    then some (i32 state.pid)
    else none

unfoldable pub subst_placeholders : Crates → String → Bool → State → String
unfolding Placeholders.subst_placeholders
subst_placeholders c s html_escape state =
    Placeholders.subst_placeholders c.format s html_escape (args c state)

-- `n.focused && n.get_type() == ipc::Type::Window`.
abbrev pub is_focused_window : Node → Outcome Bool
is_focused_window n = if (info n).focused then has_type Kind.window n else ret false

abbrev pub with_window : Node → State → State
with_window win state = record state {
  name = get_name win;
  app_name = get_app_name win;
  pid = unwrap_or (info win).pid unknown_pid;
}

unfoldable pub show_window : Crates → Option Node → State → String → Bool → State
unfolding subst_placeholders
show_window c (some win) state fmt_str html_escape = record (with_window win state) {
  cached_text = subst_placeholders c fmt_str html_escape (with_window win state);
}
show_window c none state fmt_str html_escape = record {
  name = "";
  app_name = "";
  pid = no_window_pid;
  cached_text = "";
}

unfoldable pub refresh_state : {c : Crates} → State → String → Bool → Exec (World c) State
unfolding show_window get_root_node iter get_type
refresh_state {c} state fmt_str html_escape = do
  answer ← ask (λ o. o.tree)
  reported ← lift (expect answer "Couldn't get tree")
  focused_win ← lift (find_m is_focused_window (iter (get_root_node reported false)))
  pure (show_window c focused_win state fmt_str html_escape)

unfoldable pub build :
    {c : Crates}
    → ModuleConfig
    → State
    → Option NameInstanceAndReason
    → Exec (World c) (State × Block)
unfolding refresh_state should_refresh is_html_escape block
build cfg state nai = do
  state' ←
      if state.pid == initial_pid || should_refresh cfg nai false (sway_event ∷ [])
      then refresh_state state cfg.format (is_html_escape cfg)
      else pure state
  pure (state', block name cfg state'.cached_text)

unfoldable pub subst_args : Crates → State → List String → List String
unfolding subst_placeholders
subst_args c state cmd = map (λ arg. subst_placeholders c arg false state) cmd
