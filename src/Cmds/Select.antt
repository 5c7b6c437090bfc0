-- ===== src/Cmds/Select.antt =====
-- swayr/src/cmds.rs: the commands that let the user select an entry.
use swayr.Base.{Bool, true, false}
use swayr.Base.Exec.{◌>>=◌}
use swayr.Tree.Listing.{
  get_windows, get_workspaces, get_outputs, get_workspaces_and_windows,
  get_workspaces_containers_and_windows, get_outputs_workspaces_containers_and_windows,
}
use swayr.Cmds.World.{M, Env, ask_for, select_from_menu}
use swayr.Cmds.Run.{
  select_and_focus, select_and_steal, select_and_quit, select_and_move_focused_to,
  swap_with_selected,
}

module _ (env : Env) where
  unfoldable pub switch_window : M (Unit {0})
  unfolding ask_for get_windows select_and_focus
  switch_window = ask_for true get_windows >>= select_and_focus env

  unfoldable pub steal_window : M (Unit {0})
  unfolding ask_for get_windows select_and_steal
  steal_window = ask_for true get_windows >>= select_and_steal env

  unfoldable pub steal_window_or_container : M (Unit {0})
  unfolding ask_for get_workspaces_containers_and_windows select_and_steal
  steal_window_or_container =
      ask_for true get_workspaces_containers_and_windows >>= select_and_steal env

  unfoldable pub switch_workspace : M (Unit {0})
  unfolding ask_for get_workspaces select_and_focus
  switch_workspace = ask_for false get_workspaces >>= select_and_focus env

  unfoldable pub switch_output : M (Unit {0})
  unfolding ask_for get_outputs select_and_focus
  switch_output = ask_for false (λ t fdata. get_outputs t) >>= select_and_focus env

  unfoldable pub switch_workspace_or_window : M (Unit {0})
  unfolding ask_for get_workspaces_and_windows select_and_focus
  switch_workspace_or_window = ask_for true get_workspaces_and_windows >>= select_and_focus env

  unfoldable pub switch_workspace_container_or_window : M (Unit {0})
  unfolding ask_for get_workspaces_containers_and_windows select_and_focus
  switch_workspace_container_or_window =
      ask_for true get_workspaces_containers_and_windows >>= select_and_focus env

  unfoldable pub switch_to : M (Unit {0})
  unfolding ask_for get_outputs_workspaces_containers_and_windows select_and_focus
  switch_to = ask_for true get_outputs_workspaces_containers_and_windows >>= select_and_focus env

  unfoldable pub quit_window : Bool → M (Unit {0})
  unfolding ask_for get_windows select_and_quit
  quit_window kill = ask_for true get_windows >>= λ l. select_and_quit env l kill

  unfoldable pub quit_workspace_or_window : M (Unit {0})
  unfolding ask_for get_workspaces_and_windows select_and_quit
  quit_workspace_or_window =
      ask_for true get_workspaces_and_windows >>= λ l. select_and_quit env l false

  unfoldable pub quit_workspace_container_or_window : M (Unit {0})
  unfolding ask_for get_workspaces_containers_and_windows select_and_quit
  quit_workspace_container_or_window =
      ask_for true get_workspaces_containers_and_windows >>= λ l. select_and_quit env l false

  unfoldable pub move_focused_to_workspace : M (Unit {0})
  unfolding ask_for get_workspaces select_and_move_focused_to
  move_focused_to_workspace = ask_for true get_workspaces >>= select_and_move_focused_to env

  unfoldable pub move_focused_to : M (Unit {0})
  unfolding ask_for get_outputs_workspaces_containers_and_windows select_and_move_focused_to
  move_focused_to =
      ask_for true get_outputs_workspaces_containers_and_windows >>= select_and_move_focused_to env

  unfoldable pub swap_focused_with : M (Unit {0})
  unfolding ask_for get_workspaces_containers_and_windows select_from_menu swap_with_selected
  swap_focused_with = ask_for true get_workspaces_containers_and_windows >>= λ l.
      select_from_menu env.display l >>= swap_with_selected env
