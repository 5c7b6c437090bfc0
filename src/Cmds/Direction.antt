-- ===== src/Cmds/Direction.antt =====
-- swayr/src/cmds.rs: which window the commands for the next and previous window focus.
pub mod Laws
pub mod Neighbours
use Prim.Native.Nat.{compare, Ordering}
use swayr.Base.{
  [], any, some, filter_m, none, not, true, ◌++◌, ◌==◌, expect, false, if◌then◌else◌, panic, ret, ℤ,
  ◌∷◌, int_eq, Bool, List, Outcome, Option, ◌>>=◌,
}
use swayr.Base.Sort.{sort_by}
use swayr.Ipc.{Kind, kind_eq, is_floating}
use swayr.Swayipc.{Node, info}
use swayr.Focus.{FocusData, last_focus_tick}
use swayr.Tree.Build.{
  Tree, get_parent_node_of_type, get_current_workspace, is_child_of_tiled_container,
  is_child_of_tabbed_or_stacked_container,
}
use swayr.Tree.Listing.{DisplayNode}
use swayr.Cmds.Command.{Direction, ConsiderWindows}
use swayr.Cmds.Matching.{id_of, has_focus}

abbrev reversed : Ordering → Ordering
reversed Ordering.lt = Ordering.gt
reversed Ordering.eq = Ordering.eq
reversed Ordering.gt = Ordering.lt

unfoldable pub by_tick : FocusData → DisplayNode → DisplayNode → Ordering
unfolding last_focus_tick
by_tick fdata a b =
    reversed (compare (last_focus_tick fdata (id_of a)) (last_focus_tick fdata (id_of b)))

abbrev pub head_has_id : List DisplayNode → DisplayNode → Bool
head_has_id [] dn = false
head_has_id (w ∷ wins) dn = id_of dn == id_of w

-- `is_focused_window`, for the sorted windows.
unfoldable pub is_focused_window : List DisplayNode → DisplayNode → Bool
is_focused_window wins = if not (any has_focus wins) then head_has_id wins else has_focus

abbrev pub first_or : DisplayNode → List DisplayNode → DisplayNode
first_or w [] = w
first_or w (v ∷ wins) = v

-- The loop over the cycled windows: the one behind the first that passes the test, where `first`
-- follows the last. A round without such a window is followed by equal rounds only.
unfoldable pub behind : (DisplayNode → Bool) → DisplayNode → List DisplayNode → Outcome DisplayNode
behind p first [] = panic "endless loop"
behind p first (w ∷ wins) =
    let rest = behind p first wins in if p w then ret (first_or first wins) else rest

abbrev pub around : (DisplayNode → Bool) → List DisplayNode → Outcome (Option ℤ)
around p [] = ret none
around p (w ∷ wins) = do v ← behind p w (w ∷ wins); ret (some (id_of v))

abbrev pub rev : List DisplayNode → List DisplayNode
rev [] = []
rev (w ∷ wins) = rev wins ++ w ∷ []

unfoldable pub in_direction : Direction → List DisplayNode → List DisplayNode
in_direction Direction.forward wins = rev wins
in_direction Direction.backward wins = wins

-- The window that `focus_window_in_direction_1` focuses.
unfoldable pub target_in_direction :
    List DisplayNode → Direction → FocusData → (DisplayNode → Outcome Bool) → Outcome (Option ℤ)
unfolding by_tick is_focused_window behind in_direction sort_by
target_in_direction all_wins dir fdata pred = do
  kept ← filter_m pred all_wins
  let wins = sort_by (by_tick fdata) kept
  around (is_focused_window wins) (in_direction dir wins)

is_on : Tree → Node → DisplayNode → Outcome Bool
unfolding get_parent_node_of_type
is_on tree cur_ws w = do
  parent ← get_parent_node_of_type tree (id_of w) Kind.workspace
  ws ← expect parent "called `Option::unwrap()` on a `None` value"
  ret ((info ws).id == (info cur_ws).id)

unfoldable pub considered : Tree → ConsiderWindows → List DisplayNode → Outcome (List DisplayNode)
unfolding is_on get_current_workspace
considered tree ConsiderWindows.all_workspaces wins = ret wins
considered tree ConsiderWindows.current_workspace wins = do
  cur_ws ← get_current_workspace tree
  filter_m (is_on tree cur_ws) wins

abbrev pub always_true : DisplayNode → Outcome Bool
always_true x = ret true

-- The tests that the commands for some of the windows pass on.
unfoldable pub floats : DisplayNode → Outcome Bool
unfolding is_floating
floats dn = ret (is_floating dn.shown)

-- `!dn.node.is_floating() && test`.
unfoldable pub tiled_and : (Tree → ℤ → Outcome Bool) → DisplayNode → Outcome Bool
unfolding is_floating
tiled_and test dn = if is_floating dn.shown then ret false else test dn.tree (id_of dn)

-- The predicate that the focused window stands for.
unfoldable pub layout_test : DisplayNode → Outcome (DisplayNode → Outcome Bool)
unfolding is_floating floats tiled_and is_child_of_tabbed_or_stacked_container
    is_child_of_tiled_container
layout_test cur_win = do
  in_tabbed ← tiled_and is_child_of_tabbed_or_stacked_container cur_win
  (if is_floating cur_win.shown
      then ret floats
      else if in_tabbed
      then ret (tiled_and is_child_of_tabbed_or_stacked_container)
      else (do
        in_tiled ← tiled_and is_child_of_tiled_container cur_win
        ret (if in_tiled then tiled_and is_child_of_tiled_container else always_true)))
