-- ===== src/Cmds/Run.antt =====
-- swayr/src/cmds.rs: running sway commands, and what is done with the entry that was selected.
use Prim.Native.Char.{code, Char}
use swayr.Base.{
  ℤ, Bool, ◌||◌, Option, none, some, String, List, [], ◌∷◌, ◌++◌, ret, panic, nat_beq,
  if◌then◌else◌, string_eq, ◌==◌,
}
use swayr.Base.Exec.{pure, lift, ◌>>=◌, ◌>>◌}
use swayr.Base.Texts.{◌<>◌, join, show_int}
use swayr.Swayipc.{Node, info}
use swayr.Ipc.{Kind, get_type, get_name, is_scratchpad, has_type, iter}
use swayr.Wire.{connect, run_command}
use swayr.Tree.Listing.{DisplayNode}
use swayr.Criteria.Syntax.{Externs}
use swayr.Util.{Selected, chosen, typed}
use swayr.Cmds.World.{M, on_wire, Env, select_from_menu}

-- An error of the command is logged only; without a connection the program panics.
unfoldable pub run_sway_command_1 : String → M (Unit {0})
unfolding connect run_command
run_sway_command_1 cmd = do
  connected ← on_wire connect
  if connected
      then (on_wire (run_command cmd) >> pure tt)
      else lift (panic "Could not open a connection")

unfoldable pub run_sway_command : List String → M (Unit {0})
unfolding run_sway_command_1
run_sway_command args = run_sway_command_1 (join " " args)

unfoldable pub steal_window_by_id : ℤ → M (Unit {0})
unfolding run_sway_command show_int
steal_window_by_id id =
    run_sway_command (("[con_id=" <> show_int id <> "]") ∷ "move to workspace current" ∷ [])

unfoldable pub focus_window_by_id : ℤ → M (Unit {0})
unfolding run_sway_command show_int
focus_window_by_id id = run_sway_command (("[con_id=" <> show_int id <> "]") ∷ "focus" ∷ [])

unfoldable pub quit_window_by_id : ℤ → M (Unit {0})
unfolding run_sway_command show_int
quit_window_by_id id = run_sway_command (("[con_id=" <> show_int id <> "]") ∷ "kill" ∷ [])

abbrev digit_and_name : String
digit_and_name = "^(\\d):(.*)"

abbrev special_workspace : String
special_workspace = "^#*w:(.*)"

abbrev special_sway : String
special_sway = "^#*s:(.*)"

is_ascii_whitespace : Char → Bool
is_ascii_whitespace c =
    nat_beq (code c) b' '
    || nat_beq (code c) 9
    || nat_beq (code c) 10
    || nat_beq (code c) 12
    || nat_beq (code c) 13

-- A word and the words behind it.
push_word : String → List String → List String
push_word w l = if w == "" then l else w ∷ l

-- The word that the text begins with (empty at a blank), and the words behind it.
words : String → String × List String
unfolding is_ascii_whitespace push_word
words String.[] = ("", [])
words (String.◌∷◌ c s) =
    let (w, l) = words s in
    if is_ascii_whitespace c then ("", push_word w l) else (String.◌∷◌ c w, l)

unfoldable pub split_ascii_whitespace : String → List String
unfolding words
split_ascii_whitespace s = let (w, l) = words s in push_word w l

module _ (env : Env) where
  abbrev x : Externs
  x = env.externs

  unfoldable pub create_workspace : String → M (Unit {0})
  unfolding run_sway_command
  create_workspace ws_name =
      if x.is_match digit_and_name ws_name
      then run_sway_command ("workspace" ∷ "number" ∷ ws_name ∷ [])
      else run_sway_command ("workspace" ∷ ws_name ∷ [])

  unfoldable pub chop_workspace_shortcut : String → String
  chop_workspace_shortcut input = elim (x.first_group special_workspace input) [
    | some ws ↦ ws
    | none ↦ input
  ]

  unfoldable pub chop_sway_shortcut : String → String
  chop_sway_shortcut input = elim (x.first_group special_sway input) [
    | some cmd ↦ cmd
    | none ↦ input
  ]

  unfoldable pub handle_non_matching_input : String → M (Unit {0})
  unfolding run_sway_command split_ascii_whitespace create_workspace chop_workspace_shortcut
  handle_non_matching_input input =
      if input == "" then pure tt else elim (x.first_group special_sway input) [
        | some cmd ↦ run_sway_command (split_ascii_whitespace cmd)
        | none ↦ create_workspace (chop_workspace_shortcut input)
      ]

  -- The match on the type of the node that was selected in `select_and_focus`.
  focus_node : Node → Kind → M (Unit {0})
  unfolding run_sway_command focus_window_by_id is_scratchpad get_name
  focus_node n Kind.output =
      if is_scratchpad n then pure tt else run_sway_command ("focus output" ∷ get_name n ∷ [])
  focus_node n Kind.workspace =
      if is_scratchpad n then pure tt else run_sway_command ("workspace" ∷ get_name n ∷ [])
  focus_node n Kind.window = focus_window_by_id (info n).id
  focus_node n Kind.container = focus_window_by_id (info n).id
  focus_node n Kind.root = pure tt

  focus_selected : Selected DisplayNode → M (Unit {0})
  unfolding focus_node handle_non_matching_input get_type
  focus_selected (chosen tn) = do k ← lift (get_type tn.shown); focus_node tn.shown k
  focus_selected (typed input) = handle_non_matching_input input

  unfoldable pub select_and_focus : List DisplayNode → M (Unit {0})
  unfolding select_from_menu focus_selected
  select_and_focus choices = do s ← select_from_menu env.display choices; focus_selected s

  steal_node : Node → Kind → M (Unit {0})
  unfolding steal_window_by_id
  steal_node n Kind.window = steal_window_by_id (info n).id
  steal_node n Kind.container = steal_window_by_id (info n).id
  steal_node n _ = pure tt

  steal_selected : Selected DisplayNode → M (Unit {0})
  unfolding steal_node get_type
  steal_selected (chosen tn) = do k ← lift (get_type tn.shown); steal_node tn.shown k
  steal_selected (typed input) = pure tt

  unfoldable pub select_and_steal : List DisplayNode → M (Unit {0})
  unfolding select_from_menu steal_selected
  select_and_steal choices = do s ← select_from_menu env.display choices; steal_selected s

  -- `kill -9` is another program, whose errors are logged only.
  kill_process_by_pid : Option ℤ → M (Unit {0})
  kill_process_by_pid none w = (ret tt, w)
  kill_process_by_pid (some pid) w = (ret tt, record w { killed = w.killed ++ pid ∷ [] })

  -- The `for` loop over the windows below a node.
  quit_windows : List Node → M (Unit {0})
  unfolding quit_window_by_id get_type
  quit_windows [] = pure tt
  quit_windows (n ∷ l) = do
    is_win ← lift (has_type Kind.window n)
    if is_win then quit_window_by_id (info n).id else pure tt
    quit_windows l

  quit_node : Bool → Node → Kind → M (Unit {0})
  unfolding quit_windows kill_process_by_pid quit_window_by_id iter
  quit_node kill n Kind.workspace = quit_windows (iter n)
  quit_node kill n Kind.container = quit_windows (iter n)
  quit_node kill n Kind.window =
      if kill then kill_process_by_pid (info n).pid else quit_window_by_id (info n).id
  quit_node kill n _ = pure tt

  quit_selected : Bool → Selected DisplayNode → M (Unit {0})
  unfolding quit_node get_type
  quit_selected kill (chosen tn) = do k ← lift (get_type tn.shown); quit_node kill tn.shown k
  quit_selected kill (typed input) = pure tt

  unfoldable pub select_and_quit : List DisplayNode → Bool → M (Unit {0})
  unfolding select_from_menu quit_selected
  select_and_quit choices kill = do s ← select_from_menu env.display choices; quit_selected kill s

  unfoldable pub move_focused_to_workspace_1 : String → M (Unit {0})
  unfolding run_sway_command
  move_focused_to_workspace_1 ws_name =
      if x.is_match digit_and_name ws_name
      then run_sway_command ("move" ∷ "container" ∷ "to" ∷ "workspace" ∷ "number" ∷ ws_name ∷ [])
      else run_sway_command ("move" ∷ "container" ∷ "to" ∷ "workspace" ∷ ws_name ∷ [])

  unfoldable pub move_focused_to_container_or_window : ℤ → M (Unit {0})
  unfolding run_sway_command show_int
  move_focused_to_container_or_window id = do
    run_sway_command
        (("[con_id=\"" <> show_int id <> "\"]") ∷ "mark" ∷ "--add" ∷ "__SWAYR_MOVE_TARGET__" ∷ [])
    run_sway_command ("move" ∷ "to" ∷ "mark" ∷ "__SWAYR_MOVE_TARGET__" ∷ [])
    run_sway_command ("unmark" ∷ "__SWAYR_MOVE_TARGET__" ∷ [])

  move_to_node : Node → Kind → M (Unit {0})
  unfolding run_sway_command_1 run_sway_command move_focused_to_workspace_1
      move_focused_to_container_or_window is_scratchpad get_name
  move_to_node n Kind.output =
      if is_scratchpad n
      then run_sway_command_1 "move container to scratchpad"
      else run_sway_command ("move container to output" ∷ get_name n ∷ [])
  move_to_node n Kind.workspace =
      if is_scratchpad n
      then run_sway_command_1 "move container to scratchpad"
      else move_focused_to_workspace_1 (get_name n)
  move_to_node n Kind.container = move_focused_to_container_or_window (info n).id
  move_to_node n Kind.window = move_focused_to_container_or_window (info n).id
  move_to_node n Kind.root = pure tt

  move_to_selected : Selected DisplayNode → M (Unit {0})
  unfolding move_to_node move_focused_to_workspace_1 chop_workspace_shortcut get_type
  move_to_selected (chosen tn) = do k ← lift (get_type tn.shown); move_to_node tn.shown k
  move_to_selected (typed input) = move_focused_to_workspace_1 (chop_workspace_shortcut input)

  unfoldable pub select_and_move_focused_to : List DisplayNode → M (Unit {0})
  unfolding select_from_menu move_to_selected
  select_and_move_focused_to choices = do
    s ← select_from_menu env.display choices
    move_to_selected s

  swap_with_node : Node → Kind → M (Unit {0})
  unfolding run_sway_command show_int
  swap_with_node n Kind.output = pure tt
  swap_with_node n Kind.root = pure tt
  swap_with_node n _ =
      run_sway_command ("swap" ∷ "container" ∷ "with" ∷ "con_id" ∷ show_int (info n).id ∷ [])

  unfoldable pub swap_with_selected : Selected DisplayNode → M (Unit {0})
  unfolding swap_with_node move_focused_to_workspace_1 chop_workspace_shortcut get_type
  swap_with_selected (chosen tn) = do k ← lift (get_type tn.shown); swap_with_node tn.shown k
  swap_with_selected (typed input) = move_focused_to_workspace_1 (chop_workspace_shortcut input)
