-- ===== src/Ipc.antt =====
-- swayr/src/shared/ipc.rs: what swayr adds to sway's nodes, and the depth-first iterator over them.
pub mod Preorder
pub mod Kinds
use swayr.Base.{
  ℕ, zero, suc, ◌+◌, Bool, true, false, not, ◌&&◌, ◌||◌, Option, none, some, String, List, [], ◌∷◌,
  Outcome, ret, panic, ◌>>=◌, filter_m, filter, any, is_some, is_none, ◌==◌, if◌then◌else◌, arith,
}
use swayr.Base.{string_eq, ◌≡◌, ◌↔◌, PartialEq}
use swayr.Swayipc.{
  NodeType, NodeLayout, WindowProperties, Info, Node, Nodes, node, nil, cons, info, nodes,
  with_nodes,
}

-- `enum Type`.
pub data Kind : Type 0 where
  root output workspace container window : Kind

abbrev pub kind_beq : Kind → Kind → Bool
kind_beq Kind.root Kind.root = true
kind_beq Kind.output Kind.output = true
kind_beq Kind.workspace Kind.workspace = true
kind_beq Kind.container Kind.container = true
kind_beq Kind.window Kind.window = true
kind_beq _ _ = false

pub kind_beq_iff : (a b : Kind) → (kind_beq a b ≡ true) ↔ (a ≡ b)
kind_beq_iff Kind.root b = ground arith
kind_beq_iff Kind.output b = ground arith
kind_beq_iff Kind.workspace b = ground arith
kind_beq_iff Kind.container b = ground arith
kind_beq_iff Kind.window b = ground arith

instance abbrev pub kind_eq : PartialEq Kind
kind_eq = record { is_eq = kind_beq; is_eq_iff = kind_beq_iff }

abbrev is_no_layout : NodeLayout → Bool
is_no_layout NodeLayout.no_layout = true
is_no_layout _ = false

-- The test for a container, on a node of sway's type `Con`.
looks_like_container : Info → Bool
looks_like_container n =
    is_none n.name
    && is_none n.app_id
    && is_none n.pid
    && is_none n.shell
    && is_none n.window_properties
    && not (is_no_layout n.layout)

-- The `_` arm of `get_type`, on a node of sway's type `Con`.
con_type : Info → Outcome Kind
con_type n =
    if looks_like_container n
    then ret Kind.container
    else if is_some n.pid
    then ret Kind.window
    else panic "Don't know type of node"

type_of : NodeType → Info → Outcome Kind
type_of NodeType.root n = ret Kind.root
type_of NodeType.output n = ret Kind.output
type_of NodeType.workspace n = ret Kind.workspace
type_of NodeType.floating_con n = ret Kind.window
type_of NodeType.con n = con_type n
type_of (NodeType.other k) n = panic "Don't know type of node"

unfoldable pub get_type : Node → Outcome Kind
unfolding type_of con_type looks_like_container
get_type n = type_of (info n).node_type (info n)

unfoldable pub get_name : Node → String
get_name n = elim (info n).name [ some name ↦ name | none ↦ "<unnamed>" ]

abbrev pub wp_class : Info → Option String
wp_class n = elim n.window_properties [ none ↦ none | some wp ↦ wp.class ]

abbrev pub wp_instance : Info → Option String
wp_instance n = elim n.window_properties [ none ↦ none | some wp ↦ wp.instance_name ]

unfoldable pub get_app_name : Node → String
get_app_name n = elim (info n).app_id [
  | some app_id ↦ app_id
  | none ↦ elim (wp_class (info n)) [
    | some class ↦ class
    | none ↦ elim (wp_instance (info n)) [ some inst ↦ inst | none ↦ "<unknown_app>" ]
  ]
]

unfoldable pub is_scratchpad : Node → Bool
unfolding get_name
is_scratchpad n = get_name n == "__i3" || get_name n == "__i3_scratch"

unfoldable pub is_floating : Node → Bool
is_floating n = elim (info n).node_type [ NodeType.floating_con ↦ true | _ ↦ false ]

-- `for n in &ns { self.stack.push(n); }`; the head of the list is the top of the stack.
push_all : Nodes → List Node → List Node
push_all nil stack = stack
push_all (cons n ns) stack = push_all ns (n ∷ stack)

-- `NodeIter::next`: the node, and the stack that is left.
next : List Node → Option (Node × List Node)
next [] = none
next (node d ns fs ∷ stack) = some (node d ns fs, push_all ns (push_all fs stack))

-- The nodes that the iterator yields, with fuel for its steps.
collect : ℕ → List Node → List Node
collect zero stack = []
collect (suc fuel) stack = elim (next stack) [ none ↦ [] | some (n, rest) ↦ n ∷ collect fuel rest ]

-- The number of nodes of a tree.
unfoldable mutual
  pub size : Node → ℕ
  size (node d ns fs) = suc (size_all ns + size_all fs)

  pub size_all : Nodes → ℕ
  size_all nil = 0
  size_all (cons n ns) = size n + size_all ns

-- `NodeMethods::iter`, run to its end.
unfoldable pub iter : Node → List Node
unfolding next push_all collect size
iter n = collect (size n) (n ∷ [])

abbrev pub has_type : Kind → Node → Outcome Bool
has_type t n = do k ← get_type n; ret (k == t)

unfoldable pub nodes_of_type : Node → Kind → Outcome (List Node)
unfolding iter get_type
nodes_of_type n t = filter_m (has_type t) (iter n)

unfoldable pub is_current : Node → Bool
unfolding iter
is_current n = any (λ m. (info m).focused) (iter n)

-- `get_root_node`, from the tree that sway reports.
unfoldable pub get_root_node : Node → Bool → Node
unfolding is_scratchpad
get_root_node reported include_scratchpad =
    if include_scratchpad
    then reported
    else with_nodes reported (filter (λ o. not (is_scratchpad o)) (nodes reported))
