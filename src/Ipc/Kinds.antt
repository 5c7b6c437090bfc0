-- ===== src/Ipc/Kinds.antt =====
-- shared/ipc.rs: when the type of a node is known, and what the filters by type then give.
use swayr.Base.{
  ◌≡◌, refl, ℕ, ◌>>=◌, is_none, Bool, true, false, ◌&&◌, not, List, [], ◌∷◌, Outcome, ret, panic,
  filter, filter_m-filter, All, All-append, arith, ◌==◌, ◌↔◌, ◌⊎◌, is_some,
}
use swayr.Swayipc.{
  NodeLayout, layout_beq, NodeType, Node, Nodes, node, nil, cons, info, nodes, floating_nodes,
  to_list,
}
use swayr.Ipc.{Kind, kind_eq, get_type, has_type, nodes_of_type, iter}
use swayr.Ipc.Preorder.{preorder, preorder_all, iter-preorder}

-- The type as a plain test: `false` also for a node whose type is not known.
abbrev pub is_kind : Kind → Node → Bool
is_kind t n = elim (get_type n) [ ret k ↦ k == t | panic _ ↦ false ]

abbrev pub IsTyped : Node → Type 0
IsTyped n = (k : Kind) × (get_type n ≡ ret k)

-- Every node of the tree has a type that `get_type` knows.
abbrev mutual
  pub IsTypedTree : Node → Type 0
  IsTypedTree (node d ns fs) = IsTyped (node d ns fs) × AllTyped ns × AllTyped fs

  pub AllTyped : Nodes → Type 0
  AllTyped nil = Unit
  AllTyped (cons n ns) = IsTypedTree n × AllTyped ns

mutual
  unfolding preorder

  pub preorder-IsTypedTree : (n : Node) → IsTypedTree n → All IsTypedTree (preorder n)
  preorder-IsTypedTree (node d ns fs) h = (
    h,
    All-append IsTypedTree (preorder_all ns) (preorder_all fs) (preorder_all-IsTypedTree ns h.1)
        (preorder_all-IsTypedTree fs h.2),
  )

  preorder_all-IsTypedTree : (ns : Nodes) → AllTyped ns → All IsTypedTree (preorder_all ns)
  preorder_all-IsTypedTree nil h = tt
  preorder_all-IsTypedTree (cons n ns) h =
      All-append IsTypedTree (preorder_all ns) (preorder n) (preorder_all-IsTypedTree ns h.1)
        (preorder-IsTypedTree n h.0)

-- All that the iterator yields from a typed tree are typed trees.
pub iter-IsTypedTree : (n : Node) → IsTypedTree n → All IsTypedTree (iter n)
iter-IsTypedTree n h = rw iter-preorder (preorder-IsTypedTree n h)

pub IsTypedTree-IsTyped : (n : Node) → IsTypedTree n → IsTyped n
IsTypedTree-IsTyped (node d ns fs) h = h.0

to_list-IsTypedTree : (ns : Nodes) → AllTyped ns → All IsTypedTree (to_list ns)
to_list-IsTypedTree nil h = tt
to_list-IsTypedTree (cons n ns) h = (h.0, to_list-IsTypedTree ns h.1)

pub nodes-IsTypedTree : (n : Node) → IsTypedTree n → All IsTypedTree (nodes n)
nodes-IsTypedTree (node d ns fs) h = to_list-IsTypedTree ns h.1

floating_nodes-IsTypedTree : (n : Node) → IsTypedTree n → All IsTypedTree (floating_nodes n)
floating_nodes-IsTypedTree (node d ns fs) h = to_list-IsTypedTree fs h.2

pub has_type-is_kind : (t : Kind) (n : Node) → IsTypedTree n → has_type t n ≡ ret (is_kind t n)
has_type-is_kind t n h = go (get_type n) (IsTypedTree-IsTyped n h).1
  where
    go :
        (r : Outcome Kind)
        → r ≡ ret (IsTypedTree-IsTyped n h).0
        → (r >>= λ k. ret (k == t)) ≡ ret (elim r [ ret k ↦ k == t | panic _ ↦ false ])
    go (ret k) e = refl
    go (panic msg) e = cc

All-has_type :
    (t : Kind) (l : List Node) → All IsTypedTree l → All (λ n. has_type t n ≡ ret (is_kind t n)) l
All-has_type t [] h = tt
All-has_type t (n ∷ l) h = (has_type-is_kind t n h.0, All-has_type t l h.1)

-- On a tree whose nodes all have a known type, `nodes_of_type` returns the nodes of that type, in
-- the order of the iterator.
pub nodes_of_type-filter :
    (n : Node) (t : Kind)
    → IsTypedTree n
    → nodes_of_type n t ≡ ret (filter (is_kind t) (preorder n))
unfolding nodes_of_type
nodes_of_type-filter n t h = rw iter-preorder (
    filter_m-filter (has_type t) (is_kind t) (preorder n)
      (All-has_type t (preorder n) (preorder-IsTypedTree n h)))

-- A node is a window exactly if it is a floating container of sway, or a container of sway that
-- has a process, however its other fields are set.
get_type-window_iff :
    (n : Node)
    → (get_type n ≡ ret Kind.window)
      ↔ ((info n).node_type ≡ NodeType.floating_con)
        ⊎ ((info n).node_type ≡ NodeType.con) × (is_some (info n).pid ≡ true)
unfolding get_type
get_type-window_iff (node d ns fs) = ground arith

-- `get_type` panics exactly on a node of a type that it does not list, and on a node of sway's type
-- `Con` that has no process and a name, an application, a shell, window properties, or no layout.
get_type-panic_iff :
    (n : Node)
    → (get_type n ≡ panic "Don't know type of node")
      ↔ ((k : ℕ) × ((info n).node_type ≡ NodeType.other k))
        ⊎ ((info n).node_type ≡ NodeType.con)
          × (is_none (info n).pid ≡ true)
          × ((is_none (info n).name
                && is_none (info n).app_id
                && is_none (info n).shell
                && is_none (info n).window_properties
                && not (layout_beq (info n).layout NodeLayout.no_layout))
              ≡ false)
unfolding get_type
get_type-panic_iff (node d ns fs) = ground arith
