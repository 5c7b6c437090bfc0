-- ===== src/Tree/Listing/Windows.antt =====
-- tree.rs: what `get_windows` lists, and in which order.
use mathlib.Core.List.{Perm}
use mathlib.Core.List.Perm
use swayr.Base.{
  ◌≡◌, refl, true, false, ret, List, [], ◌∷◌, ◌++◌, filter, All, arith, Bool-cases, inl, inr,
  rotate_left_one, rotate_left_one-perm,
}
use swayr.Base.Sort.{IsOrdered}
use swayr.Swayipc.{Node, info}
use swayr.Ipc.{Kind}
use swayr.Ipc.Kinds.{IsTypedTree, is_kind, nodes_of_type-filter}
use swayr.Ipc.Preorder.{preorder}
use swayr.Focus.{FocusData}
use swayr.Tree.Build.{Tree}
use swayr.Tree.Listing.{
  fixed, as_display_nodes, split_urgent, arrange_windows, get_windows, sorted_nodes_of_type,
  sorted_nodes_of_type_1, sort_by_urgency_and_lru_time,
}
use swayr.Tree.Listing.Order.{Before, urgent, sort_by_urgency_and_lru_time_lem}

abbrev pub IsUrgent : Node → Type 0
IsUrgent n = urgent n ≡ true

abbrev pub IsCalm : Node → Type 0
IsCalm n = urgent n ≡ false

split_urgent-append : (v : List Node) → (split_urgent v).0 ++ (split_urgent v).1 ≡ v
unfolding split_urgent
split_urgent-append [] = refl
split_urgent-append (n ∷ v) = ground (arith, split_urgent-append v)

split_urgent-IsUrgent : (v : List Node) → All IsUrgent (split_urgent v).0
unfolding split_urgent
split_urgent-IsUrgent [] = tt
split_urgent-IsUrgent (n ∷ v) = elim (Bool-cases (info n).urgent) [
  | inl e ↦ rw e (e, split_urgent-IsUrgent v)
  | inr e ↦ rw e tt
]

behind-IsCalm :
    (fdata : FocusData) (n : Node) (v : List Node)
    → IsCalm n
    → All (Before fdata n) v
    → All IsCalm v
behind-IsCalm fdata n [] c h = tt
behind-IsCalm fdata n (m ∷ v) c h = (ground (arith, h.0.urgency), behind-IsCalm fdata n v c h.1)

split_urgent-IsCalm :
    (fdata : FocusData) (v : List Node) → IsOrdered (Before fdata) v → All IsCalm (split_urgent v).1
unfolding split_urgent
split_urgent-IsCalm fdata [] h = tt
split_urgent-IsCalm fdata (n ∷ v) h = elim (Bool-cases (info n).urgent) [
  | inl e ↦ rw e (split_urgent-IsCalm fdata v h.1)
  | inr e ↦ rw e (e, behind-IsCalm fdata n v e h.0)
]

-- How a list of windows is put together.
pub record IsArranged (fdata : FocusData) (wins all : List Node) : Type 0 where
  pub urgents : List Node
  pub calm : List Node
  pub parts : wins ≡ urgents ++ rotate_left_one calm
  pub same : Perm (urgents ++ calm) all
  pub ordered : IsOrdered (Before fdata) (urgents ++ calm)
  pub are_urgent : All IsUrgent urgents
  pub are_calm : All IsCalm calm

arrange_windows-IsArranged :
    (fdata : FocusData) (v all : List Node)
    → Perm v all
    → IsOrdered (Before fdata) v
    → IsArranged fdata (arrange_windows v) all
unfolding arrange_windows
arrange_windows-IsArranged fdata v all p h = record {
  urgents = (split_urgent v).0;
  calm = (split_urgent v).1;
  parts = refl;
  same = rw split_urgent-append p;
  ordered = rw split_urgent-append h;
  are_urgent = split_urgent-IsUrgent v;
  are_calm = split_urgent-IsCalm fdata v h;
}

-- On a tree whose nodes all have a known type `get_windows` lists exactly the windows of the tree:
-- first the urgent ones, the one that had the focus last in front, then the others in that order
-- too, but with the one that had the focus last, the window in use, put behind all of them.
pub get_windows_lem :
    (t : Tree) (fdata : FocusData)
    → IsTypedTree t.root
    → (wins : List Node) × (get_windows t fdata ≡ ret (as_display_nodes t wins (fixed 0)))
      × IsArranged fdata wins (filter (is_kind Kind.window) (preorder t.root))
unfolding get_windows sorted_nodes_of_type sorted_nodes_of_type_1
get_windows_lem t fdata h =
    let all = filter (is_kind Kind.window) (preorder t.root) in
    let sorted = sort_by_urgency_and_lru_time all fdata in
    let (p, o) = sort_by_urgency_and_lru_time_lem fdata all in
    (
      arrange_windows sorted,
      rw (nodes_of_type-filter t.root Kind.window h),
      arrange_windows-IsArranged fdata sorted all p o,
    )

-- Nothing is listed twice or lost.
pub IsArranged-perm :
    {fdata : FocusData} {wins all : List Node} → IsArranged fdata wins all → Perm wins all
IsArranged-perm a =
    rw a.parts (Perm.trans (Perm.append_left a.urgents (rotate_left_one-perm a.calm)) a.same)
