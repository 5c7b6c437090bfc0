-- ===== src/Ipc/Preorder.antt =====
-- The iterator of shared/ipc.rs visits a node before its children, the tiled ones before the
-- floating ones, each group from last to first.
use swayr.Base.{
  ℕ, zero, suc, ◌+◌, ◌≤◌, ◌≡◌, refl, sym, ◌∙◌, List, [], ◌∷◌, ◌++◌, arith, length, length-append,
}
use mathlib.Core.List.{append_assoc, append-nil}
use swayr.Swayipc.{Node, Nodes, node, nil, cons}
use swayr.Ipc.{push_all, next, collect, size, size_all, iter}

unfoldable mutual
  pub preorder : Node → List Node
  preorder (node d ns fs) = node d ns fs ∷ (preorder_all ns ++ preorder_all fs)

  -- From the last tree to the first.
  pub preorder_all : Nodes → List Node
  preorder_all nil = []
  preorder_all (cons n ns) = preorder_all ns ++ preorder n

abbrev stack_size : List Node → ℕ
stack_size [] = 0
stack_size (n ∷ s) = size n + stack_size s

abbrev pub preorders : List Node → List Node
preorders [] = []
preorders (n ∷ s) = preorder n ++ preorders s

stack_size-push_all :
    (ns : Nodes) (s : List Node) → stack_size (push_all ns s) ≡ size_all ns + stack_size s
unfolding push_all size
stack_size-push_all nil s = omega arith
stack_size-push_all (cons n ns) s = omega (arith, stack_size-push_all ns (n ∷ s))

preorders-push_all :
    (ns : Nodes) (s : List Node) → preorders (push_all ns s) ≡ preorder_all ns ++ preorders s
unfolding push_all preorder
preorders-push_all nil s = refl
preorders-push_all (cons n ns) s =
    preorders-push_all ns (n ∷ s) ∙ sym (append_assoc (preorder_all ns) (preorder n) (preorders s))

collect-preorders : (fuel : ℕ) (s : List Node) → stack_size s ≤ fuel → collect fuel s ≡ preorders s
unfolding collect next
collect-preorders zero [] h = refl
collect-preorders zero (node d ns fs ∷ s) h = absurd (unfold size in omega arith)
collect-preorders (suc fuel) [] h = refl
collect-preorders (suc fuel) (node d ns fs ∷ s) h =
    let enough : stack_size (push_all ns (push_all fs s)) ≤ fuel =
      unfold size in
      omega (arith, stack_size-push_all ns (push_all fs s), stack_size-push_all fs s) in
    rw (collect-preorders fuel (push_all ns (push_all fs s)) enough, preorders-push_all)
      (unfold preorder in
        rw (preorders-push_all, append_assoc (preorder_all ns) (preorder_all fs) (preorders s)))

-- The iterator, run from a node until its stack is empty, yields the nodes of the tree, each
-- before the nodes below it, the tiled children before the floating ones, and siblings from the
-- last to the first.
pub iter-preorder : (n : Node) → iter n ≡ preorder n
unfolding iter
iter-preorder n = rw (collect-preorders (size n) (n ∷ []) (omega arith)) (append-nil (preorder n))

mutual
  unfolding preorder size

  length-preorder : (n : Node) → length (preorder n) ≡ size n
  length-preorder (node d ns fs) = omega (
    arith,
    length-append (preorder_all ns) (preorder_all fs),
    length-preorder_all ns,
    length-preorder_all fs,
  )

  length-preorder_all : (ns : Nodes) → length (preorder_all ns) ≡ size_all ns
  length-preorder_all nil = omega arith
  length-preorder_all (cons n ns) = omega (
    arith,
    length-append (preorder_all ns) (preorder n),
    length-preorder n,
    length-preorder_all ns,
  )
