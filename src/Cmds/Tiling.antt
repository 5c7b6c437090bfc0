-- ===== src/Cmds/Tiling.antt =====
-- swayr/src/cmds.rs: the commands that tile or tab the current workspace, and their toggle. The
-- pauses between the commands are left out.
pub mod Laws
use swayr.Base.{
  Bool, true, false, List, [], ◌∷◌, ◌++◌, Option, none, some, expect, find, if◌then◌else◌,
}
use swayr.Base.Exec.{Exec, pure, lift, ◌>>=◌, ◌>>◌}
use swayr.Swayipc.{Node, NodeLayout, info, layout_beq}
use swayr.Ipc.{Kind, nodes_of_type, is_current, is_floating}
use swayr.Wire.{Wire, Fallible, ok, failed, run_command, ◌>>?◌}
use swayr.Layout.Tiling.{con_command}
use swayr.Layout.Relayout.{ask_root, relayout_current_workspace}
use swayr.Cmds.Command.{ConsiderFloating, include_floating, exclude_floating}
use swayr.Cmds.World.{Env}

abbrev pub rev : List Node → List Node
rev [] = []
rev (w ∷ wins) = rev wins ++ w ∷ []

abbrev pub includes : ConsiderFloating → Bool
includes include_floating = true
includes exclude_floating = false

abbrev pub Try : Type 0
Try = Exec Wire (Fallible (Unit {0}))

unfoldable pub move_back : Node → Try
unfolding run_command con_command is_floating
move_back win =
    (if is_floating win
      then run_command (con_command (info win).id "floating disable")
      else pure (ok tt))
    >>? run_command (con_command (info win).id "move to workspace current")

-- An error of the relayout is logged only.
unfoldable pub logged : Try → Exec Wire (Unit {0})
logged m = m >> pure tt

module _ (env : Env) where
  unfoldable pub focus_one : Option Node → Try
  unfolding run_command con_command
  focus_one none = pure (ok tt)
  focus_one (some win) = run_command (con_command (info win).id "focus")

  -- The loop over the windows, with those placed so far.
  unfoldable pub place_wins : Bool → List Node → List Node → Try
  unfolding move_back focus_one
  place_wins shuffle placed_wins [] = pure (ok tt)
  place_wins shuffle placed_wins (win ∷ wins) =
      let placed = placed_wins ++ win ∷ [] in
      move_back win
      >>? (if shuffle then focus_one (env.choose placed) else pure (ok tt))
      >>? place_wins shuffle placed wins

  unfoldable pub insert_tiled : Bool → List Node → Try
  unfolding run_command place_wins
  insert_tiled shuffle wins =
      run_command "focus parent"
      >>? run_command "layout splith"
      >>? place_wins shuffle [] (if shuffle then env.shuffle wins else rev wins)

  unfoldable pub tile_current_workspace : ConsiderFloating → Bool → Exec Wire (Unit {0})
  unfolding relayout_current_workspace insert_tiled logged
  tile_current_workspace floating shuffle =
      logged (relayout_current_workspace (includes floating) (insert_tiled shuffle))

unfoldable pub place_tabbed : List Node → Try
unfolding move_back
place_tabbed [] = pure (ok tt)
place_tabbed (win ∷ wins) = move_back win >>? place_tabbed wins

unfoldable pub insert_tabbed : List Node → Try
unfolding run_command place_tabbed
insert_tabbed wins =
    run_command "focus parent" >>? run_command "layout tabbed" >>? place_tabbed (rev wins)

unfoldable pub tab_current_workspace : ConsiderFloating → Exec Wire (Unit {0})
unfolding relayout_current_workspace insert_tabbed logged
tab_current_workspace floating =
    logged (relayout_current_workspace (includes floating) insert_tabbed)

unfoldable pub toggle_tab_tile_current_workspace : Env → ConsiderFloating → Exec Wire (Unit {0})
unfolding ask_root nodes_of_type is_current tile_current_workspace tab_current_workspace
toggle_tab_tile_current_workspace env floating = do
  tree ← ask_root false
  workspaces ← lift (nodes_of_type tree Kind.workspace)
  cur_ws ← lift (expect (find is_current workspaces) "called `Option::unwrap()` on a `None` value")
  if layout_beq (info cur_ws).layout NodeLayout.tabbed
      then tile_current_workspace env floating true
      else tab_current_workspace floating
