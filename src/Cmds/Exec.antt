-- ===== src/Cmds/Exec.antt =====
-- swayr/src/cmds.rs: `exec_swayr_cmd`, with the locks of the two statics.
pub mod Laws
use swayr.Base.{
  Bool, true, false, not, ℕ, zero, suc, List, [], ◌∷◌, String, ret, panic, if◌then◌else◌, Outcome,
  Option, none, some,
}
use swayr.Base.Exec.{pure, lift, gets, modify, ◌>>=◌, ◌>>◌}
use swayr.Focus.{FocusMessage}
use swayr.Tree.Build.{is_child_of_tiled_container, is_child_of_tabbed_or_stacked_container}
use swayr.Util.{Selected, chosen, typed}
use swayr.Cmds.Command.{
  SwayrCommand, SwayrCommand-discrete, is_prev_next_window_variant, Direction, Skip,
  ConsiderFloating, ConsiderWindows, include_floating, exclude_floating, all_workspaces,
  current_workspace,
}
use swayr.Cmds.World.{
  M, Env, World, SwitchToMatchingData, reset, on_wire, send_message, select_from_menu,
}
use swayr.Cmds.Direction.{always_true, floats, tiled_and}
use swayr.Cmds.Walk.{focus_window_in_direction, focus_window_of_same_layout_in_direction}
use swayr.Cmds.SwitchTo.{
  switch_to_urgent_or_lru_window, switch_to_app_or_urgent_or_lru_window,
  switch_to_mark_or_urgent_or_lru_window, switch_to_matching_or_urgent_or_lru_window,
  focus_matching_window_in_direction,
}
use swayr.Cmds.Tiling.{
  tile_current_workspace, tab_current_workspace, toggle_tab_tile_current_workspace,
}
use swayr.Cmds.Swaymsg.{exec_swaymsg_command, configure_outputs}
use swayr.Cmds.Select.{
  switch_window, steal_window, steal_window_or_container, switch_workspace, switch_output,
  switch_workspace_or_window, switch_workspace_container_or_window, switch_to, quit_window,
  quit_workspace_or_window, quit_workspace_container_or_window, move_focused_to_workspace,
  move_focused_to, swap_focused_with,
}

abbrev flags_of : Skip → SwitchToMatchingData → SwitchToMatchingData
flags_of s d = record d {
  skip_urgent = s.skip_urgent;
  skip_lru = s.skip_lru;
  skip_origin = s.skip_origin;
}

set_flags : Skip → M (Unit {0})
set_flags s = modify (λ w. record w { stm_data = flags_of s w.stm_data })

-- The commands that `ExecuteSwayrCommand` offers for one choice of floating windows, of killing, and
-- of the windows to consider.
floating_commands : ConsiderFloating → List SwayrCommand → List SwayrCommand
floating_commands f rest =
    SwayrCommand.toggle_tab_shuffle_tile_workspace f
    ∷ SwayrCommand.tile_workspace f
    ∷ SwayrCommand.tab_workspace f
    ∷ SwayrCommand.shuffle_tile_workspace f
    ∷ rest

walk_commands : ConsiderWindows → List SwayrCommand → List SwayrCommand
walk_commands w rest =
    SwayrCommand.next_window w
    ∷ SwayrCommand.prev_window w
    ∷ SwayrCommand.next_tiled_window w
    ∷ SwayrCommand.prev_tiled_window w
    ∷ SwayrCommand.next_tabbed_or_stacked_window w
    ∷ SwayrCommand.prev_tabbed_or_stacked_window w
    ∷ SwayrCommand.next_floating_window w
    ∷ SwayrCommand.prev_floating_window w
    ∷ rest

unfoldable pub offered : List SwayrCommand
unfolding floating_commands walk_commands
offered =
    SwayrCommand.move_focused_to_workspace
    ∷ SwayrCommand.move_focused_to
    ∷ SwayrCommand.swap_focused_with
    ∷ SwayrCommand.quit_workspace_or_window
    ∷ SwayrCommand.switch_window
    ∷ SwayrCommand.steal_window
    ∷ SwayrCommand.steal_window_or_container
    ∷ SwayrCommand.switch_workspace
    ∷ SwayrCommand.switch_output
    ∷ SwayrCommand.switch_workspace_or_window
    ∷ SwayrCommand.switch_to_urgent_or_lru_window
        (record { skip_urgent = false; skip_lru = false; skip_origin = false })
    ∷ SwayrCommand.configure_outputs
    ∷ SwayrCommand.execute_swaymsg_command
    ∷ floating_commands exclude_floating (
        floating_commands include_floating (
          SwayrCommand.quit_window false
          ∷ SwayrCommand.quit_window true
          ∷ walk_commands all_workspaces (walk_commands current_workspace [])))

-- A command that is not the last one starts a new sequence.
unfoldable pub restart_unless : {A : Type 0} → Dec A → M (Unit {0})
unfolding reset
restart_unless (yes p) = pure tt
restart_unless (no n) = modify (λ w. record w { stm_data = reset w.stm_data true })

-- What is done under the locks before the command itself.
unfoldable pub prepare : SwayrCommand → M (Unit {0})
unfolding restart_unless SwayrCommand-discrete is_prev_next_window_variant send_message reset
prepare cmd = do
  last_command ← gets (λ w. w.last_command)
  restart_unless (SwayrCommand-discrete cmd last_command)
  send_message (
      if is_prev_next_window_variant cmd
      then FocusMessage.tick_update_inhibit
      else FocusMessage.tick_update_activate)

abbrev pub lock : M (Unit {0})
lock w =
    if w.locked
    then (panic "locked by the same thread", w)
    else (ret tt, record w { locked = true })

-- `rounds` is fuel for the menu of `configure_outputs`, which the user may use for ever.
module _ (env : Env) (rounds : ℕ) where
  unfoldable pub run_chosen : (SwayrCommand → M (Unit {0})) → Selected SwayrCommand → M (Unit {0})
  run_chosen exec (chosen c) = exec c
  run_chosen exec (typed s) = pure tt

  -- The `match` on the command; `exec` is the recursive call.
  unfoldable pub dispatch : (SwayrCommand → M (Unit {0})) → SwayrCommand → M (Unit {0})
  unfolding exec_swaymsg_command configure_outputs set_flags run_chosen offered select_from_menu
      switch_to_urgent_or_lru_window switch_to_app_or_urgent_or_lru_window
      switch_to_mark_or_urgent_or_lru_window switch_to_matching_or_urgent_or_lru_window
      focus_matching_window_in_direction focus_window_in_direction
      focus_window_of_same_layout_in_direction floats tiled_and is_child_of_tiled_container
      is_child_of_tabbed_or_stacked_container tile_current_workspace tab_current_workspace
      toggle_tab_tile_current_workspace switch_window steal_window steal_window_or_container
      switch_workspace switch_output switch_workspace_or_window switch_workspace_container_or_window
      switch_to quit_window quit_workspace_or_window quit_workspace_container_or_window
      move_focused_to_workspace move_focused_to swap_focused_with
  dispatch exec SwayrCommand.nop = pure tt
  dispatch exec (SwayrCommand.switch_to_urgent_or_lru_window s) =
      set_flags s >> switch_to_urgent_or_lru_window
  dispatch exec (SwayrCommand.switch_to_app_or_urgent_or_lru_window name s) =
      set_flags s >> switch_to_app_or_urgent_or_lru_window name
  dispatch exec (SwayrCommand.switch_to_mark_or_urgent_or_lru_window con_mark s) =
      set_flags s >> switch_to_mark_or_urgent_or_lru_window con_mark
  dispatch exec (SwayrCommand.switch_to_matching_or_urgent_or_lru_window criteria s) =
      set_flags s >> switch_to_matching_or_urgent_or_lru_window env.externs criteria
  dispatch exec SwayrCommand.switch_window = switch_window env
  dispatch exec SwayrCommand.steal_window = steal_window env
  dispatch exec SwayrCommand.steal_window_or_container = steal_window_or_container env
  dispatch exec SwayrCommand.switch_workspace = switch_workspace env
  dispatch exec SwayrCommand.switch_output = switch_output env
  dispatch exec SwayrCommand.switch_workspace_or_window = switch_workspace_or_window env
  dispatch exec SwayrCommand.switch_workspace_container_or_window =
      switch_workspace_container_or_window env
  dispatch exec SwayrCommand.switch_to = switch_to env
  dispatch exec (SwayrCommand.quit_window kill) = quit_window env kill
  dispatch exec SwayrCommand.quit_workspace_or_window = quit_workspace_or_window env
  dispatch exec SwayrCommand.quit_workspace_container_or_window =
      quit_workspace_container_or_window env
  dispatch exec SwayrCommand.move_focused_to_workspace = move_focused_to_workspace env
  dispatch exec SwayrCommand.move_focused_to = move_focused_to env
  dispatch exec SwayrCommand.swap_focused_with = swap_focused_with env
  dispatch exec (SwayrCommand.next_window windows) =
      focus_window_in_direction Direction.forward windows always_true
  dispatch exec (SwayrCommand.prev_window windows) =
      focus_window_in_direction Direction.backward windows always_true
  dispatch exec (SwayrCommand.next_tiled_window windows) =
      focus_window_in_direction Direction.forward windows (tiled_and is_child_of_tiled_container)
  dispatch exec (SwayrCommand.prev_tiled_window windows) =
      focus_window_in_direction Direction.backward windows (tiled_and is_child_of_tiled_container)
  dispatch exec (SwayrCommand.next_tabbed_or_stacked_window windows) =
      focus_window_in_direction Direction.forward windows
        (tiled_and is_child_of_tabbed_or_stacked_container)
  dispatch exec (SwayrCommand.prev_tabbed_or_stacked_window windows) =
      focus_window_in_direction Direction.backward windows
        (tiled_and is_child_of_tabbed_or_stacked_container)
  dispatch exec (SwayrCommand.next_floating_window windows) =
      focus_window_in_direction Direction.forward windows floats
  dispatch exec (SwayrCommand.prev_floating_window windows) =
      focus_window_in_direction Direction.backward windows floats
  dispatch exec (SwayrCommand.next_window_of_same_layout windows) =
      focus_window_of_same_layout_in_direction Direction.forward windows
  dispatch exec (SwayrCommand.prev_window_of_same_layout windows) =
      focus_window_of_same_layout_in_direction Direction.backward windows
  dispatch exec (SwayrCommand.next_matching_window criteria) =
      focus_matching_window_in_direction env.externs Direction.forward criteria
  dispatch exec (SwayrCommand.prev_matching_window criteria) =
      focus_matching_window_in_direction env.externs Direction.backward criteria
  dispatch exec (SwayrCommand.tile_workspace floating) =
      on_wire (tile_current_workspace env floating false)
  dispatch exec (SwayrCommand.tab_workspace floating) = on_wire (tab_current_workspace floating)
  dispatch exec (SwayrCommand.shuffle_tile_workspace floating) =
      on_wire (tile_current_workspace env floating true)
  dispatch exec (SwayrCommand.toggle_tab_shuffle_tile_workspace floating) =
      on_wire (toggle_tab_tile_current_workspace env floating)
  dispatch exec SwayrCommand.configure_outputs = configure_outputs env rounds
  dispatch exec SwayrCommand.execute_swaymsg_command = exec_swaymsg_command env
  dispatch exec SwayrCommand.execute_swayr_command = do
    s ← select_from_menu (λ c. ret (env.debug c)) offered
    run_chosen exec s

  -- A thread that locks what it has locked never comes back, which is a panic here. So the recursive
  -- call does nothing else, and fuel 2 is enough. The guards are dropped at the end.
  unfoldable pub exec_swayr_cmd : ℕ → SwayrCommand → M (Unit {0})
  unfolding prepare dispatch
  exec_swayr_cmd zero cmd = lift (panic "endless recursion")
  exec_swayr_cmd (suc fuel) cmd = do
    lock
    prepare cmd
    dispatch (exec_swayr_cmd fuel) cmd
    modify (λ w. record w { last_command = cmd; locked = false })
