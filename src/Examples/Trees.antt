-- ===== src/Examples/Trees.antt =====
-- The theorems on trees, lists and layouts at the small tree.
use mathlib.Core.List.{Perm}
use swayr.Base.Exec.{pure}
use swayr.Base.Sort.{IsOrdered}
use swayr.Base.{pos, true, none, false, some, List, [], ◌∷◌, ◌++◌, ret, refl, ◌≡◌, filter, find}
use swayr.Swayipc.{Node, nodes}
use swayr.Ipc.{is_scratchpad, Kind, iter, get_type, is_current, get_root_node}
use swayr.Ipc.Preorder.{preorder, iter-preorder}
use swayr.Ipc.Kinds.{nodes-IsTypedTree, IsTypedTree, is_kind}
use swayr.Wire.{ok, Wire}
use swayr.Tree.Build.{get_tree}
use swayr.Tree.Listing.{
  tree_depth, get_workspaces_containers_and_windows, get_windows, as_display_nodes, fixed,
  sort_by_urgency_and_lru_time,
}
use swayr.Tree.Listing.Windows.{IsArranged, get_windows_lem}
use swayr.Tree.Listing.Subtrees.{below, get_workspaces_containers_and_windows_lem}
use swayr.Tree.Listing.Order.{Before, sort_by_urgency_and_lru_time_lem}
use swayr.Layout.Tiling.{auto_tile}
use swayr.Layout.Tiling.Splits.{concat_map, output_splits, auto_tile-splits}
use swayr.Layout.Relayout.{relayout_current_workspace}
use swayr.Layout.Relayout.Moves.{Obeys-ok, relayout_commands, relayout_current_workspace-runs}
use swayr.Config.Defaults.{Config}
use swayr.Config.Getters.Returns.{Returns}
use swayr.Util.Icons.{Files}
use swayr.Tree.Arms.{Printing}
use swayr.Tree.Display.{format_for_display}
use swayr.Tree.Display.Returns.{format_for_display-Returns}
use swayr.Fmt.{to_string}
use swayr.Tree.Build.{get_parent_node_of_type}
use swayr.Tree.Listing.{DisplayNode, get_indent_level}
use swayr.Examples.Data.{root, workspace, wire, fdata, output, window, floats}

-- Every node of the small tree has a known type.
root-IsTypedTree : IsTypedTree root
unfolding get_type
root-IsTypedTree = (
  (Kind.root, refl),
  (
    (
      (Kind.output, refl),
      (
        (
          (Kind.workspace, refl),
          (
            ((Kind.window, refl), tt, tt),
            (((Kind.window, refl), tt, tt), (((Kind.window, refl), tt, tt), tt)),
          ),
          tt,
        ),
        tt,
      ),
      tt,
    ),
    tt,
  ),
  tt,
)

iter-preorder_example : iter root ≡ preorder root
iter-preorder_example = iter-preorder root

get_windows_lem_example :
    (wins : List Node) × (get_windows (get_tree root) fdata
      ≡ ret (as_display_nodes (get_tree root) wins (fixed 0)))
    × IsArranged fdata wins (filter (is_kind Kind.window) (preorder root))
unfolding get_tree
get_windows_lem_example = get_windows_lem (get_tree root) fdata root-IsTypedTree

sort_by_urgency_and_lru_time_lem_example :
    Perm (sort_by_urgency_and_lru_time (preorder root) fdata) (preorder root)
    × IsOrdered (Before fdata) (sort_by_urgency_and_lru_time (preorder root) fdata)
sort_by_urgency_and_lru_time_lem_example = sort_by_urgency_and_lru_time_lem fdata (preorder root)

auto_tile-splits_example :
    (w' : Wire) × (auto_tile ((pos 1000, pos 500) ∷ []) wire ≡ (ret tt, w'))
    × (w'.sent ≡ [] ++ concat_map (output_splits ((pos 1000, pos 500) ∷ [])) (nodes root))
auto_tile-splits_example =
    auto_tile-splits ((pos 1000, pos 500) ∷ []) wire root refl refl (refl, tt)
      (nodes-IsTypedTree root root-IsTypedTree)

get_workspaces_containers_and_windows_lem_example :
    (v : List Node) × (get_workspaces_containers_and_windows (get_tree root) fdata
      ≡ ret (as_display_nodes (get_tree root) v (tree_depth 2)))
    × Perm v (below root Kind.workspace)
unfolding get_tree
get_workspaces_containers_and_windows_lem_example =
    get_workspaces_containers_and_windows_lem (get_tree root) fdata root-IsTypedTree

-- The tree that the commands see is the small tree.
pub shown-IsTypedTree : IsTypedTree (get_root_node root false)
unfolding get_root_node is_scratchpad
shown-IsTypedTree = root-IsTypedTree

pub shown-current :
    find is_current (filter (is_kind Kind.workspace) (preorder (get_root_node root false)))
    ≡ some workspace
unfolding get_root_node is_scratchpad preorder get_type is_current iter
shown-current = refl

relayout_current_workspace-runs_example :
    (w' : Wire) × (relayout_current_workspace false (λ l. pure (ok tt)) wire ≡ (ret (ok tt), w'))
    × (w'.sent ≡ [] ++ relayout_commands false (λ l. []) workspace)
relayout_current_workspace-runs_example =
    relayout_current_workspace-runs false (λ l. pure (ok tt)) (λ l. []) (λ l. Obeys-ok) wire root
      workspace (λ n cmd. refl) refl refl shown-IsTypedTree shown-current

abbrev printing : Printing
printing = record {
  floats = floats;
  format = λ fmt arg. some (to_string arg);
  debug_layout = λ l. "SplitH";
  to_lowercase = λ s. s;
}

abbrev no_settings : Config
no_settings = record { menu = none; format = none; layout = none; focus = none; misc = none }

abbrev no_desktop_files : Files
no_desktop_files = record {
  data_local_dir = none;
  xdg_data_dirs = none;
  read_dir = λ dir. none;
  is_file = λ p. false;
  read_lines = λ p. none;
}

-- The focused window in a list of windows.
abbrev entry : DisplayNode
entry = record { shown = window 1 true false; tree = get_tree root; indent_level = fixed 1 }

format_for_display-Returns_example :
    Returns (format_for_display printing no_settings (some "/home/u") no_desktop_files entry none).0
unfolding get_type get_indent_level get_parent_node_of_type get_tree
format_for_display-Returns_example =
    format_for_display-Returns printing no_settings "/home/u" no_desktop_files entry none
      (Kind.window, refl) (1, refl) (some output, refl) (some workspace, refl)
