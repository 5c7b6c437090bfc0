-- ===== src/Layout/Relayout.antt =====
-- swayr/src/layout.rs: `relayout_current_workspace`. The pauses between the commands are left out.
pub mod Moves
use swayr.Base.{
  Bool, true, false, not, ◌&&◌, Option, none, some, String, List, [], ◌∷◌, ◌++◌, Outcome, ret,
  expect, filter_m, find, if◌then◌else◌, suc,
}
use swayr.Base.Exec.{Exec, pure, lift, ◌>>=◌, ◌>>◌}
use swayr.Base.Texts.{◌<>◌}
use swayr.Swayipc.{Node, info}
use swayr.Ipc.{Kind, get_root_node, has_type, iter, is_current, is_floating, nodes_of_type}
use swayr.Wire.{Wire, Fallible, ok, failed, connect, request_tree, run_command, ◌>>?◌}
use swayr.Layout.Tiling.{con_command}

-- `ipc::get_root_node` over the shared connection.
unfoldable pub ask_root : Bool → Exec Wire Node
unfolding request_tree get_root_node
ask_root include_scratchpad = do
  answer ← request_tree
  tree ← lift (expect answer "Couldn't get tree")
  pure (get_root_node tree include_scratchpad)

abbrev pub swayr_tmp_workspace : String
swayr_tmp_workspace = "✨"

unfoldable pub move_away : Node → Exec Wire (Fallible (Unit {0}))
unfolding run_command con_command
move_away win =
    run_command (con_command (info win).id ("move to workspace " <> swayr_tmp_workspace))

-- The windows that were moved so far, and the window that has the focus.
pub record Moved : Type 0 where
  pub moved_wins : List Node
  pub focused_win : Option Node

abbrev pub note_focus : Node → Moved → Moved
note_focus win m = record m { focused_win = if (info win).focused then some win else m.focused_win }

abbrev pub note_moved : Node → Moved → Moved
note_moved win m = record m { moved_wins = m.moved_wins ++ win ∷ [] }

-- What follows a command that may have failed.
abbrev pub or_fail :
    {A : Type 0} → Fallible (Unit {0}) → Exec Wire (Fallible A) → Exec Wire (Fallible A)
or_fail (ok _) n = n
or_fail (failed e) n = pure (failed e)

-- The `for` loop over `cur_ws.iter()`; the type of a node is asked for when it is reached.
move_windows : Bool → List Node → Moved → Exec Wire (Fallible Moved)
unfolding move_away
move_windows include_floating [] m = pure (ok m)
move_windows include_floating (n ∷ l) m =
    let skipped = move_windows include_floating l m in
    let kept = move_windows include_floating l (note_focus n m) in
    let moved = move_windows include_floating l (note_moved n (note_focus n m)) in
    do
      is_win ← lift (has_type Kind.window n)
      (if not is_win
          then skipped
          else if not include_floating && is_floating n
          then kept
          else (do r ← move_away n; or_fail r moved))

abbrev refocus : Option Node → Exec Wire (Fallible (Unit {0}))
refocus none = pure (ok tt)
refocus (some win) = run_command (con_command (info win).id "focus")

abbrev finish :
    (List Node → Exec Wire (Fallible (Unit {0}))) → Fallible Moved → Exec Wire (Fallible (Unit {0}))
finish insert_win_fn (failed e) = pure (failed e)
finish insert_win_fn (ok m) =
    insert_win_fn m.moved_wins >>? (refocus m.focused_win >>? pure (ok tt))

abbrev relayout_of :
    Bool
    → (List Node → Exec Wire (Fallible (Unit {0})))
    → Option Node
    → Exec Wire (Fallible (Unit {0}))
relayout_of include_floating insert_win_fn none = pure (failed "No workspace is focused.")
relayout_of include_floating insert_win_fn (some cur_ws) = do
  connected ← connect
  (if connected
      then (do
        r ←
            move_windows include_floating (iter cur_ws)
              (record { moved_wins = []; focused_win = none })
        finish insert_win_fn r)
      else pure (failed "Cannot create connection."))

unfoldable pub relayout_current_workspace :
    Bool → (List Node → Exec Wire (Fallible (Unit {0}))) → Exec Wire (Fallible (Unit {0}))
unfolding ask_root nodes_of_type connect move_windows run_command con_command is_current
relayout_current_workspace include_floating insert_win_fn = do
  root ← ask_root false
  workspaces ← lift (nodes_of_type root Kind.workspace)
  relayout_of include_floating insert_win_fn (find is_current workspaces)
