-- ===== src/Cmds/Swaymsg.antt =====
-- swayr/src/cmds.rs: the menus of sway's own commands and of the commands that configure outputs.
use Prim.Native.Nat.{compare, Ordering}
use Prim.Native.Char.{code}
use swayr.Base.{
  ℕ, zero, suc, String, List, [], ◌∷◌, ◌++◌, map, ret, panic, if◌then◌else◌, ◌==◌, string_eq,
}
use swayr.Base.Exec.{pure, lift, ◌>>=◌, ◌>>◌}
use swayr.Base.Sort.{sort_by}
use swayr.Base.Texts.{◌<>◌, show_nat}
use swayr.Util.{Selected, chosen, typed}
use swayr.Cmds.World.{M, Env, Output, select_from_menu}
use swayr.Cmds.Run.{run_sway_command_1, chop_sway_shortcut}

abbrev then_by : Ordering → Ordering → Ordering
then_by Ordering.eq o = o
then_by Ordering.lt o = Ordering.lt
then_by Ordering.gt o = Ordering.gt

-- `str::cmp`, which agrees with the order of the code points.
compare_text : String → String → Ordering
compare_text String.[] String.[] = Ordering.eq
compare_text String.[] (String.◌∷◌ d t) = Ordering.lt
compare_text (String.◌∷◌ c s) String.[] = Ordering.gt
compare_text (String.◌∷◌ c s) (String.◌∷◌ d t) =
    then_by (compare (code c) (code d)) (compare_text s t)

unfoldable pub sorted : List String → List String
unfolding sort_by compare_text
sorted cmds = sort_by compare_text cmds

-- The commands with each of the arguments.
abbrev with_each : String → List String → List String
with_each prefix args = map (λ a. prefix <> a) args

unfoldable pub get_swaymsg_commands : List String
unfolding sorted
get_swaymsg_commands = sorted (
    with_each "border " ("none" ∷ "normal" ∷ "csd" ∷ "pixel" ∷ [])
    ++ ("exit" ∷ "floating toggle" ∷ "focus child" ∷ "focus parent" ∷ "focus tiling"
        ∷ "focus floating" ∷ "focus mode_toggle" ∷ "fullscreen toggle" ∷ "reload" ∷ "sticky toggle"
        ∷ "kill" ∷ "tiling_drag toggle" ∷ [])
    ++ with_each "inhibit_idle " ("focus" ∷ "fullscreen" ∷ "open" ∷ "none" ∷ "visible" ∷ [])
    ++ with_each "layout " ("default" ∷ "splith" ∷ "splitv" ∷ "stacking" ∷ "tiling" ∷ [])
    ++ with_each "shortcuts_inhibitor " ("enable" ∷ "disable" ∷ [])
    ++ with_each "focus_follows_mouse " ("yes" ∷ "no" ∷ "always" ∷ [])
    ++ with_each "focus_on_window_activation " ("smart" ∷ "urgent" ∷ "focus" ∷ "none" ∷ [])
    ++ with_each "focus_wrapping " ("yes" ∷ "no" ∷ "force" ∷ "workspace" ∷ [])
    ++ with_each "hide_edge_borders "
        ("none" ∷ "vertical" ∷ "horizontal" ∷ "both" ∷ "smart" ∷ "smart_no_gaps" ∷ [])
    ++ with_each "smart_borders " ("on" ∷ "no_gaps" ∷ "off" ∷ [])
    ++ with_each "smart_gaps " ("on" ∷ "off" ∷ [])
    ++ with_each "mouse_warping " ("output" ∷ "container" ∷ "none" ∷ [])
    ++ with_each "popup_during_fullscreen " ("smart" ∷ "ignore" ∷ "leave_fullscreen" ∷ [])
    ++ ("show_marks yes" ∷ "workspace_auto_back_and_forth yes" ∷ "show_marks no"
        ∷ "workspace_auto_back_and_forth no" ∷ [])
    ++ with_each "title_align " ("left" ∷ "center" ∷ "right" ∷ [])
    ++ with_each "urgent " ("enable" ∷ "disable" ∷ "allow" ∷ "deny" ∷ []))

both_ways : String → List String → List String
both_ways prefix [] = []
both_ways prefix (t ∷ l) =
    (prefix <> t <> " clockwise") ∷ (prefix <> t <> " anticlockwise") ∷ both_ways prefix l

-- The commands for one output.
output_commands : Output → List String
unfolding show_nat both_ways
output_commands o =
    let name = "output " <> o.name in
    (name <> " toggle") ∷ map (λ m. name <> " mode " <> show_nat m.0 <> "x" <> show_nat m.1) o.modes
    ++ ((name <> " dpms on")
        ∷ (name <> " adaptive_sync on")
        ∷ (name <> " dpms off")
        ∷ (name <> " adaptive_sync off")
        ∷ [])
    ++ both_ways (name <> " transform ") (
        "normal" ∷ "90" ∷ "180" ∷ "270" ∷ "360" ∷ "flipped" ∷ "flipped-90" ∷ "flipped-180"
        ∷ "flipped-270" ∷ [])
    ++ with_each (name <> " subpixel ") ("rgb" ∷ "bgr" ∷ "vrbg" ∷ "vbgr" ∷ "none" ∷ [])
    ++ with_each (name <> " scale_filter ") ("linear" ∷ "nearest" ∷ "smart" ∷ [])

all_output_commands : List Output → List String
unfolding output_commands
all_output_commands [] = []
all_output_commands (o ∷ outputs) = output_commands o ++ all_output_commands outputs

module _ (env : Env) where
  run_swaymsg : Selected String → M (Unit {0})
  unfolding run_sway_command_1 chop_sway_shortcut
  run_swaymsg (chosen cmd) = run_sway_command_1 cmd
  run_swaymsg (typed cmd) =
      if cmd == "" then pure tt else run_sway_command_1 (chop_sway_shortcut env cmd)

  unfoldable pub exec_swaymsg_command : M (Unit {0})
  unfolding get_swaymsg_commands run_swaymsg select_from_menu
  exec_swaymsg_command = select_from_menu (λ c. ret c) get_swaymsg_commands >>= run_swaymsg

  run_output_command : M (Unit {0}) → Selected String → M (Unit {0})
  unfolding run_sway_command_1
  run_output_command again (chosen cmd) = run_sway_command_1 cmd >> again
  run_output_command again (typed s) = pure tt

  -- The `while` loop, with fuel for the rounds: it runs until the user leaves the menu.
  output_rounds : ℕ → List String → M (Unit {0})
  unfolding run_output_command select_from_menu
  output_rounds zero cmds = lift (panic "the menu is still open")
  output_rounds (suc rounds) cmds =
      select_from_menu (λ c. ret c) cmds >>= run_output_command (output_rounds rounds cmds)

  unfoldable pub configure_outputs : ℕ → M (Unit {0})
  unfolding all_output_commands sorted output_rounds
  configure_outputs rounds = do
    outputs ← lift env.get_outputs
    output_rounds rounds (sorted (all_output_commands outputs))
