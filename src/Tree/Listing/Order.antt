-- ===== src/Tree/Listing/Order.antt =====
-- tree.rs: `sort_by_urgency_and_lru_time_1` sorts by a total preorder.
use mathlib.Core.List.{Perm}
use swayr.Base.{◌≤◌, Bool, true, false, ◌≡◌, List, arith}
use swayr.Base.Sort.{not_greater, sort_by-perm, sort_by-IsOrdered, IsOrdered}
use swayr.Swayipc.{Node, info}
use swayr.Focus.{FocusData, last_focus_tick}
use swayr.Tree.Listing.{compare_nodes, sort_by_urgency_and_lru_time}

abbrev pub urgent : Node → Bool
urgent n = (info n).urgent

-- The first may stand before the second: an urgent node before one that is not, and among nodes of
-- the same urgency the one that had the focus later.
pub record Before (fdata : FocusData) (a b : Node) : Type 0 where
  pub urgency : urgent b ≡ true → urgent a ≡ true
  recency :
      urgent a ≡ urgent b → last_focus_tick fdata (info b).id ≤ last_focus_tick fdata (info a).id

not_greater-Before :
    (fdata : FocusData) (a b : Node)
    → not_greater (compare_nodes fdata a b) ≡ true
    → Before fdata a b
unfolding compare_nodes
not_greater-Before fdata a b h = record { urgency = λ u. ground arith; recency = λ u. ground arith }

greater-Before :
    (fdata : FocusData) (a b : Node)
    → not_greater (compare_nodes fdata a b) ≡ false
    → Before fdata b a
unfolding compare_nodes
greater-Before fdata a b h = record { urgency = λ u. ground arith; recency = λ u. ground arith }

Before-trans :
    (fdata : FocusData) (a b c : Node) → Before fdata a b → Before fdata b c → Before fdata a c
Before-trans fdata a b c p q = record {
  urgency = λ u. p.urgency (q.urgency u);
  recency = λ u. ground (arith, p.urgency, q.urgency, p.recency, q.recency);
}

-- The sort of the tree's nodes rearranges them, so that of any two the one that stands first is
-- urgent if the other is, and had the focus later if both are urgent or neither is.
pub sort_by_urgency_and_lru_time_lem :
    (fdata : FocusData) (v : List Node)
    → Perm (sort_by_urgency_and_lru_time v fdata) v
      × IsOrdered (Before fdata) (sort_by_urgency_and_lru_time v fdata)
unfolding sort_by_urgency_and_lru_time
sort_by_urgency_and_lru_time_lem fdata v = (
  sort_by-perm (compare_nodes fdata) v,
  sort_by-IsOrdered (compare_nodes fdata) (Before fdata) (not_greater-Before fdata)
      (greater-Before fdata) (Before-trans fdata) v,
)
