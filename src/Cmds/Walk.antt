-- ===== src/Cmds/Walk.antt =====
-- swayr/src/cmds.rs: the commands that focus the next or previous window.
use swayr.Base.{Bool, false, Outcome, List, Option, none, some, ℤ, find}
use swayr.Base.Exec.{pure, lift, gets, ◌>>=◌}
use swayr.Focus.{FocusData}
use swayr.Tree.Listing.{DisplayNode, get_windows}
use swayr.Cmds.Command.{Direction, ConsiderWindows}
use swayr.Cmds.World.{M, ask_for, ask_tree}
use swayr.Cmds.Run.{focus_window_by_id}
use swayr.Cmds.Matching.{has_focus}
use swayr.Cmds.Direction.{target_in_direction, considered, layout_test}

abbrev pub focus_if_some : Option ℤ → M (Unit {0})
focus_if_some none = pure tt
focus_if_some (some id) = focus_window_by_id id

unfoldable pub focus_window_in_direction_1 :
    List DisplayNode → Direction → FocusData → (DisplayNode → Outcome Bool) → M (Unit {0})
unfolding target_in_direction focus_window_by_id
focus_window_in_direction_1 wins dir fdata pred =
    lift (target_in_direction wins dir fdata pred) >>= focus_if_some

unfoldable pub focus_window_in_direction :
    Direction → ConsiderWindows → (DisplayNode → Outcome Bool) → M (Unit {0})
unfolding considered focus_window_in_direction_1 ask_tree get_windows
focus_window_in_direction dir consider_wins pred = do
  tree ← ask_tree false
  fdata ← gets (λ w. w.fdata)
  all_wins ← lift (get_windows tree fdata)
  wins ← lift (considered tree consider_wins all_wins)
  focus_window_in_direction_1 wins dir fdata pred

same_layout_as : Direction → ConsiderWindows → Option DisplayNode → M (Unit {0})
unfolding layout_test focus_window_in_direction
same_layout_as dir consider_wins none = pure tt
same_layout_as dir consider_wins (some cur_win) = do
  test ← lift (layout_test cur_win)
  focus_window_in_direction dir consider_wins test

unfoldable pub focus_window_of_same_layout_in_direction : Direction → ConsiderWindows → M (Unit {0})
unfolding ask_for same_layout_as get_windows
focus_window_of_same_layout_in_direction dir consider_wins = do
  wins ← ask_for false get_windows
  same_layout_as dir consider_wins (find has_focus wins)
