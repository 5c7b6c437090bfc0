-- ===== src/Tree/Listing/Subtrees.antt =====
-- swayr/src/tree.rs: the lists of whole subtrees hold every node below once.
use mathlib.Core.Logic.{∥∥₁_elim}
use mathlib.Core.List.{Perm-prop, append_assoc, Perm, perm_append_comm}
use mathlib.Core.List.Perm
use mathlib.Core.List.{Permᴰ}
use swayr.Base.{sym, sym, ℕ, zero, suc, ◌≤◌, List, [], ◌∷◌, ◌++◌, ret, ◌≡◌, refl, arith, filter}
use swayr.Swayipc.{Node, Nodes, node, nil, cons, to_list}
use swayr.Ipc.{Kind, size, size_all}
use swayr.Ipc.Preorder.{preorder, preorder_all, preorders}
use swayr.Ipc.Kinds.{IsTypedTree, is_kind, nodes_of_type-filter}
use swayr.Focus.{FocusData}
use swayr.Tree.Build.{Tree}
use swayr.Tree.Listing.{
  push_all_sorted, push_subtree_sorted, subtrees_sorted, sort_by_urgency_and_lru_time,
  as_display_nodes, tree_depth, get_workspaces_containers_and_windows, sorted_nodes_of_type,
  sorted_nodes_of_type_1,
}
use swayr.Tree.Listing.Order.{sort_by_urgency_and_lru_time_lem}

push_all_sorted-append :
    (f : Node → List Node) (xs ys : List Node)
    → push_all_sorted f (xs ++ ys) ≡ push_all_sorted f xs ++ push_all_sorted f ys
push_all_sorted-append f [] ys = refl
push_all_sorted-append f (x ∷ xs) ys =
    rw (push_all_sorted-append f xs ys)
      (sym (append_assoc (f x) (push_all_sorted f xs) (push_all_sorted f ys)))

swap_front : (x y z : List Node) → Perm (x ++ (y ++ z)) (y ++ (x ++ z))
swap_front x y z =
    rw (sym (append_assoc x y z), sym (append_assoc y x z))
      (Perm.append_right z (perm_append_comm x y))

push_all_sorted-rearranged :
    (f : Node → List Node) {xs ys : List Node}
    → Permᴰ xs ys
    → Perm (push_all_sorted f xs) (push_all_sorted f ys)
push_all_sorted-rearranged f Permᴰ.nil = Perm.rfl
push_all_sorted-rearranged f (Permᴰ.cons {a} {b} e p) =
    rw e (Perm.append_left (f b) (push_all_sorted-rearranged f p))
push_all_sorted-rearranged f (Permᴰ.swap {a' = c} {b' = d} {l = l} e g) =
    rw (e, g) (swap_front (f d) (f c) (push_all_sorted f l))
push_all_sorted-rearranged f (Permᴰ.trans p q) =
    Perm.trans (push_all_sorted-rearranged f p) (push_all_sorted-rearranged f q)

-- The order of the subtrees does not matter for what they hold.
push_all_sorted-perm :
    (f : Node → List Node) {xs ys : List Node}
    → Perm xs ys
    → Perm (push_all_sorted f xs) (push_all_sorted f ys)
push_all_sorted-perm f p = ∥∥₁_elim p Perm-prop (λ d. push_all_sorted-rearranged f d)

mutual
  unfolding push_subtree_sorted preorder size

  push_subtree_sorted-perm :
      (n : Node) (fuel : ℕ) (fdata : FocusData)
      → size n ≤ fuel
      → Perm (push_subtree_sorted fuel fdata n) (preorder n)
  push_subtree_sorted-perm (node d ns fs) zero fdata h = absurd (omega (arith, h))
  push_subtree_sorted-perm (node d ns fs) (suc fuel) fdata h = Perm.cons (node d ns fs) (
      Perm.trans
        (push_all_sorted-perm (push_subtree_sorted fuel fdata)
          (sort_by_urgency_and_lru_time_lem fdata (to_list ns ++ to_list fs)).0)
        (rw (push_all_sorted-append (push_subtree_sorted fuel fdata) (to_list ns) (to_list fs)) (
          Perm.append (push_nodes-perm ns fuel fdata (omega (arith, h)))
            (push_nodes-perm fs fuel fdata (omega (arith, h))))))

  push_nodes-perm :
      (ns : Nodes) (fuel : ℕ) (fdata : FocusData)
      → size_all ns ≤ fuel
      → Perm (push_all_sorted (push_subtree_sorted fuel fdata) (to_list ns)) (preorder_all ns)
  push_nodes-perm nil fuel fdata h = Perm.nil
  push_nodes-perm (cons n ns) fuel fdata h =
      Perm.trans
        (Perm.append (push_subtree_sorted-perm n fuel fdata (omega (arith, h)))
          (push_nodes-perm ns fuel fdata (omega (arith, h))))
        (perm_append_comm (preorder n) (preorder_all ns))

subtrees_sorted-perm :
    (fdata : FocusData) (l : List Node) → Perm (subtrees_sorted fdata l) (preorders l)
unfolding subtrees_sorted
subtrees_sorted-perm fdata [] = Perm.rfl
subtrees_sorted-perm fdata (n ∷ l) =
    Perm.append (push_subtree_sorted-perm n (size n) fdata (omega arith))
      (subtrees_sorted-perm fdata l)

preorders-perm : {xs ys : List Node} → Perm xs ys → Perm (preorders xs) (preorders ys)
preorders-perm p = push_all_sorted-perm preorder p

-- The nodes of the trees below the nodes of a type, these included.
abbrev pub below : Node → Kind → List Node
below root k = preorders (filter (is_kind k) (preorder root))

listed-perm :
    (root : Node) (fdata : FocusData) (k : Kind)
    → Perm
        (subtrees_sorted fdata
          (sort_by_urgency_and_lru_time (filter (is_kind k) (preorder root)) fdata))
        (below root k)
listed-perm root fdata k =
    Perm.trans (subtrees_sorted-perm fdata _) (
      preorders-perm
        (sort_by_urgency_and_lru_time_lem fdata (filter (is_kind k) (preorder root))).0)

-- On a tree whose nodes all have a known type, the menu of workspaces, containers and windows lists
-- every workspace and every node below a workspace, each as often as it occurs there.
pub get_workspaces_containers_and_windows_lem :
    (t : Tree) (fdata : FocusData)
    → IsTypedTree t.root
    → (v : List Node) × (get_workspaces_containers_and_windows t fdata
        ≡ ret (as_display_nodes t v (tree_depth 2)))
      × Perm v (below t.root Kind.workspace)
unfolding get_workspaces_containers_and_windows sorted_nodes_of_type sorted_nodes_of_type_1
get_workspaces_containers_and_windows_lem t fdata typed = (
  _,
  rw (nodes_of_type-filter t.root Kind.workspace typed) refl,
  listed-perm t.root fdata Kind.workspace,
)
