-- ===== src/Tree/Build.antt =====
-- swayr/src/tree.rs: `Tree`, `get_tree`, and the walks from a node to its ancestors.
use swayr.Base.{
  ℕ, zero, suc, ℤ, Bool, true, false, ◌&&◌, ◌||◌, Option, none, some, List, [], Outcome, ret, panic,
  ◌>>=◌, expect, find_m, int_eq, ◌==◌,
}
use swayr.Base.Dict.{get, insert}
use swayr.Swayipc.{NodeLayout, Node, Nodes, node, nil, cons, info, layout_beq}
use swayr.Ipc.{Kind, kind_eq, get_type, iter, is_current, size}

-- The two maps that `init_id_parent` fills.
pub record Maps : Type 0 where
  pub id_node : List (ℤ × Node)
  pub id_parent : List (ℤ × ℤ)

pub record Tree : Type 0 where
  pub root : Node
  pub maps : Maps

-- The entries of a node and, if it is not the root, of its parent.
unfoldable pub enter : Node → Option ℤ → Maps → Maps
unfolding insert
enter n none m = record m { id_node = insert (info n).id n m.id_node }
enter n (some p) m = record {
  id_node = insert (info n).id n m.id_node;
  id_parent = insert (info n).id p m.id_parent;
}

unfoldable mutual
  unfolding enter

  pub init_id_parent : Node → Option ℤ → Maps → Maps
  init_id_parent (node d ns fs) parent m =
      init_all fs (some d.id) (init_all ns (some d.id) (enter (node d ns fs) parent m))

  -- The `for` loop over the children.
  pub init_all : Nodes → Option ℤ → Maps → Maps
  init_all nil parent m = m
  init_all (cons n ns) parent m = init_all ns parent (init_id_parent n parent m)

unfoldable pub get_tree : Node → Tree
unfolding init_id_parent
get_tree root = record {
  root = root;
  maps = init_id_parent root none (record { id_node = []; id_parent = [] });
}

unfoldable pub get_node_by_id : Tree → ℤ → Outcome Node
unfolding get
get_node_by_id t id = expect (get id t.maps.id_node) "No node with id"

abbrev parent_node : Tree → Option ℤ → Outcome (Option Node)
parent_node t none = ret none
parent_node t (some pid) = do n ← get_node_by_id t pid; ret (some n)

unfoldable pub get_parent_node : Tree → ℤ → Outcome (Option Node)
unfolding get_node_by_id get
get_parent_node t id = parent_node t (get id t.maps.id_parent)

-- The walk, with fuel for the nodes that it looks at.
walk : Tree → Kind → ℕ → ℤ → Outcome (Option Node)
unfolding get_node_by_id get_type get
walk t k zero id = panic "stack overflow"
walk t k (suc fuel) id = do
  n ← get_node_by_id t id
  k' ← get_type n
  elim (k' == k) [
    | true ↦ ret (some n)
    | false ↦ elim (get id t.maps.id_parent) [ some pid ↦ walk t k fuel pid | none ↦ ret none ]
  ]

-- The fuel is the number of nodes of the tree.
unfoldable pub get_parent_node_of_type : Tree → ℤ → Kind → Outcome (Option Node)
unfolding walk size
get_parent_node_of_type t id k = walk t k (size t.root) id

abbrev is_current_workspace : Node → Outcome Bool
is_current_workspace n = do k ← get_type n; ret (k == Kind.workspace && is_current n)

unfoldable pub get_current_workspace : Tree → Outcome Node
unfolding get_type is_current iter
get_current_workspace t = do
  found ← find_m is_current_workspace (iter t.root)
  expect found "No current Workspace"

abbrev has_layout : (NodeLayout → Bool) → Option Node → Bool
has_layout p none = false
has_layout p (some n) = p (info n).layout

unfoldable pub is_child_of_tiled_container : Tree → ℤ → Outcome Bool
unfolding get_parent_node
is_child_of_tiled_container t id = do
  parent ← get_parent_node t id
  ret (has_layout (λ l. layout_beq l NodeLayout.split_h || layout_beq l NodeLayout.split_v) parent)

unfoldable pub is_child_of_tabbed_or_stacked_container : Tree → ℤ → Outcome Bool
unfolding get_parent_node
is_child_of_tabbed_or_stacked_container t id = do
  parent ← get_parent_node t id
  ret (has_layout (λ l. layout_beq l NodeLayout.tabbed || layout_beq l NodeLayout.stacked) parent)
