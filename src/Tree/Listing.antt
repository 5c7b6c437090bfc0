-- ===== src/Tree/Listing.antt =====
-- swayr/src/tree.rs: the lists of nodes that the commands choose from, and the indentation of an
-- entry. The texts that are shown for an entry are not modelled here.
pub mod Order
pub mod Windows
pub mod Subtrees
use Prim.Native.Nat.{compare, Ordering}
use swayr.Base.{
  ℕ, zero, suc, ◌+◌, ◌-◌, ℤ, Bool, true, false, not, ◌&&◌, Option, none, some, String, List, [],
  ◌∷◌, ◌++◌, map, Outcome, ret, panic, ◌>>=◌, filter_m, is_empty, ltb, rotate_left_one,
  if◌then◌else◌, ◌==◌,
}
use swayr.Base.Sort.{sort_by}
use swayr.Swayipc.{Node, Nodes, node, nil, cons, info, nodes, floating_nodes}
use swayr.Ipc.{Kind, kind_eq, get_type, has_type, iter, is_scratchpad, nodes_of_type, size}
use swayr.Focus.{FocusData, last_focus_tick}
use swayr.Tree.Build.{Tree, get_parent_node}

pub data IndentLevel : Type 0 where
  fixed : ℕ → IndentLevel
  workspaces_zero_windows_one : IndentLevel
  tree_depth : ℕ → IndentLevel

pub record DisplayNode : Type 0 where
  pub shown : Node
  pub tree : Tree
  pub indent_level : IndentLevel

unfoldable pub as_display_nodes : Tree → List Node → IndentLevel → List DisplayNode
as_display_nodes t v level = map (λ n. record { shown = n; tree = t; indent_level = level }) v

abbrev reversed : Ordering → Ordering
reversed Ordering.lt = Ordering.gt
reversed Ordering.eq = Ordering.eq
reversed Ordering.gt = Ordering.lt

-- The comparison of `sort_by_urgency_and_lru_time_1`.
unfoldable pub compare_nodes : FocusData → Node → Node → Ordering
unfolding last_focus_tick
compare_nodes fdata a b =
    if (info a).urgent && not (info b).urgent
    then Ordering.lt
    else if not (info a).urgent && (info b).urgent
    then Ordering.gt
    else let lru_a = last_focus_tick fdata (info a).id in
      let lru_b = last_focus_tick fdata (info b).id in reversed (compare lru_a lru_b)

unfoldable pub sort_by_urgency_and_lru_time : List Node → FocusData → List Node
unfolding compare_nodes sort_by
sort_by_urgency_and_lru_time v fdata = sort_by (compare_nodes fdata) v

unfoldable pub sorted_nodes_of_type_1 : Node → Kind → FocusData → Outcome (List Node)
unfolding nodes_of_type sort_by_urgency_and_lru_time
sorted_nodes_of_type_1 n t fdata = do
  v ← nodes_of_type n t
  ret (sort_by_urgency_and_lru_time v fdata)

unfoldable pub sorted_nodes_of_type : Tree → Kind → FocusData → Outcome (List Node)
unfolding sorted_nodes_of_type_1
sorted_nodes_of_type t k fdata = sorted_nodes_of_type_1 t.root k fdata

abbrev is_shown_output : Node → Outcome Bool
is_shown_output n = do k ← get_type n; ret (k == Kind.output && not (is_scratchpad n))

unfoldable pub get_outputs : Tree → Outcome (List DisplayNode)
unfolding get_type is_scratchpad iter as_display_nodes
get_outputs t = do
  outputs ← filter_m is_shown_output (iter t.root)
  ret (as_display_nodes t outputs (fixed 0))

unfoldable pub get_workspaces : Tree → FocusData → Outcome (List DisplayNode)
unfolding sorted_nodes_of_type as_display_nodes
get_workspaces t fdata = do
  v ← sorted_nodes_of_type t Kind.workspace fdata
  ret (as_display_nodes t (rotate_left_one v) (fixed 0))

-- The `loop` of `get_windows`: the urgent windows at the front, and the list that is left.
unfoldable pub split_urgent : List Node → List Node × List Node
split_urgent [] = ([], [])
split_urgent (n ∷ v) =
    let (x, rest) = split_urgent v in if (info n).urgent then (n ∷ x, rest) else ([], n ∷ v)

unfoldable pub arrange_windows : List Node → List Node
unfolding split_urgent
arrange_windows v = let (x, rest) = split_urgent v in x ++ rotate_left_one rest

unfoldable pub get_windows : Tree → FocusData → Outcome (List DisplayNode)
unfolding sorted_nodes_of_type arrange_windows as_display_nodes
get_windows t fdata = do
  v ← sorted_nodes_of_type t Kind.window fdata
  ret (as_display_nodes t (arrange_windows v) (fixed 0))

-- The `for` loop of `get_workspaces_and_windows`; `first` holds until a workspace has windows.
with_windows : FocusData → Bool → List Node → Outcome (List Node)
unfolding sorted_nodes_of_type_1
with_windows fdata first [] = ret []
with_windows fdata first (ws ∷ workspaces) = do
  wins ← sorted_nodes_of_type_1 ws Kind.window fdata
  let rotate = first && not (is_empty wins)
  rest ← with_windows fdata (first && not rotate) workspaces
  ret (ws ∷ ((if rotate then rotate_left_one wins else wins) ++ rest))

unfoldable pub get_workspaces_and_windows : Tree → FocusData → Outcome (List DisplayNode)
unfolding sorted_nodes_of_type with_windows as_display_nodes
get_workspaces_and_windows t fdata = do
  workspaces ← sorted_nodes_of_type t Kind.workspace fdata
  v ← with_windows fdata true workspaces
  ret (as_display_nodes t v workspaces_zero_windows_one)

-- The `for` loop of `push_subtree_sorted`, with what it does to a child.
abbrev push_all_sorted : (Node → List Node) → List Node → List Node
push_all_sorted push [] = []
push_all_sorted push (c ∷ l) = push c ++ push_all_sorted push l

-- `push_subtree_sorted`, with fuel for the depth of the subtree.
unfoldable pub push_subtree_sorted : ℕ → FocusData → Node → List Node
unfolding sort_by_urgency_and_lru_time
push_subtree_sorted zero fdata n = []
push_subtree_sorted (suc fuel) fdata n =
    n
    ∷ push_all_sorted (push_subtree_sorted fuel fdata)
        (sort_by_urgency_and_lru_time (nodes n ++ floating_nodes n) fdata)

unfoldable pub subtrees_sorted : FocusData → List Node → List Node
unfolding push_subtree_sorted size
subtrees_sorted fdata [] = []
subtrees_sorted fdata (n ∷ l) = push_subtree_sorted (size n) fdata n ++ subtrees_sorted fdata l

unfoldable pub get_outputs_workspaces_containers_and_windows :
    Tree → FocusData → Outcome (List DisplayNode)
unfolding sorted_nodes_of_type subtrees_sorted as_display_nodes
get_outputs_workspaces_containers_and_windows t fdata = do
  outputs ← sorted_nodes_of_type t Kind.output fdata
  ret (as_display_nodes t (subtrees_sorted fdata outputs) (tree_depth 1))

unfoldable pub get_workspaces_containers_and_windows : Tree → FocusData → Outcome (List DisplayNode)
unfolding sorted_nodes_of_type subtrees_sorted as_display_nodes
get_workspaces_containers_and_windows t fdata = do
  workspaces ← sorted_nodes_of_type t Kind.workspace fdata
  ret (as_display_nodes t (subtrees_sorted fdata workspaces) (tree_depth 2))

-- The `while` loop of `get_indent_level`, with fuel for the ancestors.
depth_of : Tree → ℕ → ℤ → Outcome ℕ
unfolding get_parent_node
depth_of t zero id = panic "endless loop"
depth_of t (suc fuel) id = do
  parent ← get_parent_node t id
  elim parent [ none ↦ ret 0 | some p ↦ (do d ← depth_of t fuel (info p).id; ret (suc d)) ]

level_of : Kind → Outcome ℕ
level_of Kind.workspace = ret 0
level_of Kind.window = ret 1
level_of _ = panic "Only Workspaces and Windows expected. File a bug report!"

indent_of : IndentLevel → DisplayNode → Outcome ℕ
unfolding level_of depth_of get_type size
indent_of (fixed level) n = ret level
indent_of workspaces_zero_windows_one n = do k ← get_type n.shown; level_of k
indent_of (tree_depth offset) n = do
  depth ← depth_of n.tree (size n.tree.root) (info n.shown).id
  ret (if ltb depth offset then 0 else depth - offset)

unfoldable pub get_indent_level : DisplayNode → Outcome ℕ
unfolding indent_of
get_indent_level n = indent_of n.indent_level n
