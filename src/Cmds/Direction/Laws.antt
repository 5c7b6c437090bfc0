-- ===== src/Cmds/Direction/Laws.antt =====
-- The loop of `focus_window_in_direction_1` (swayr/src/cmds.rs) ends, at one of the windows.
use swayr.Base.{
  ap, Bool, true, false, not, ◌||◌, none, some, List, [], ◌∷◌, ◌++◌, Outcome, ret, any, filter,
  filter_m-filter, filter-All, All, ◌≡◌, refl, sym, ◌∙◌, ◌⊎◌, inl, inr, arith, if◌then◌else◌,
  Bool-cases, int_eq, beq_refl, All-append,
}
use Prim.Native.Nat.{Ordering}
use mathlib.Core.List.Perm
use swayr.Cmds.Matching.Recency.{has_id_self}
use swayr.Base.Sort.{sort_by-perm, sort_by, sort_by-All}
use swayr.Focus.{FocusData}
use swayr.Tree.Listing.{DisplayNode}
use swayr.Cmds.Command.{Direction}
use swayr.Cmds.Matching.{id_of, has_focus, has_id}
use swayr.Cmds.Direction.{
  by_tick, is_focused_window, head_has_id, behind, around, rev, in_direction, target_in_direction,
  first_or,
}

any-append :
    (p : DisplayNode → Bool) (xs ys : List DisplayNode) → any p (xs ++ ys) ≡ (any p xs || any p ys)
any-append p [] ys = refl
any-append p (x ∷ xs) ys = ground (arith, any-append p xs ys)

any-rev : (p : DisplayNode → Bool) (xs : List DisplayNode) → any p (rev xs) ≡ any p xs
any-rev p [] = refl
any-rev p (x ∷ xs) = ground (arith, any-append p (rev xs) (x ∷ []), any-rev p xs)

pub All-rev : (P : DisplayNode → Type 0) (xs : List DisplayNode) → All P xs → All P (rev xs)
All-rev P [] h = tt
All-rev P (x ∷ xs) h = All-append P (rev xs) (x ∷ []) (All-rev P xs h.1) (h.0, tt)

first_or-holds :
    (P : DisplayNode → Type 0) (w : DisplayNode) (l : List DisplayNode)
    → P w
    → All P l
    → P (first_or w l)
first_or-holds P w [] hw h = hw
first_or-holds P w (v ∷ l) hw h = h.0

-- The loop stops at a window that passes the test, and gives one of the windows.
behind-returns :
    (P : DisplayNode → Type 0) (p : DisplayNode → Bool) (first : DisplayNode) (l : List DisplayNode)
    → P first
    → All P l
    → any p l ≡ true
    → (v : DisplayNode) × (behind p first l ≡ ret v) × P v
unfolding behind
behind-returns P p first [] hf h e = absurd (cc)
behind-returns P p first (w ∷ l) hf h e = elim (Bool-cases (p w)) [
  | inl y ↦ (first_or first l, rw y refl, first_or-holds P first l hf h.1)
  | inr n ↦
      let (v, q, hv) = behind-returns P p first l hf h.1 (ground (arith, n, e)) in (v, rw n q, hv)
]

is_focused_window-eq :
    (wins : List DisplayNode) (b : Bool)
    → any has_focus wins ≡ b
    → is_focused_window wins ≡ (if not b then head_has_id wins else has_focus)
unfolding is_focused_window
is_focused_window-eq wins b e = rw e refl

-- Some of the windows counts as the focused one.
any-is_focused_window :
    (w : DisplayNode) (wins : List DisplayNode)
    → any (is_focused_window (w ∷ wins)) (w ∷ wins) ≡ true
any-is_focused_window w wins = elim (Bool-cases (any has_focus (w ∷ wins))) [
  | inl e ↦
      ap (λ (f : DisplayNode → Bool). any f (w ∷ wins)) (is_focused_window-eq (w ∷ wins) true e) ∙ e
  | inr e ↦
      ap (λ (f : DisplayNode → Bool). any f (w ∷ wins)) (is_focused_window-eq (w ∷ wins) false e)
      ∙ ground (arith, beq_refl (id_of w))
]

around-either :
    (P : DisplayNode → Type 0) (p : DisplayNode → Bool) (wins : List DisplayNode)
    → All P wins
    → (wins ≡ []) ⊎ (any p wins ≡ true)
    → (around p wins ≡ ret none) × (wins ≡ [])
      ⊎ ((v : DisplayNode) × (around p wins ≡ ret (some (id_of v))) × P v)
around-either P p [] h c = inl (refl, refl)
around-either P p (w ∷ wins) h (inl e) = absurd (cc)
around-either P p (w ∷ wins) h (inr e) =
    let (v, q, hv) = behind-returns P p w (w ∷ wins) h.0 h e in inr (v, rw q refl, hv)

in_direction-any :
    (dir : Direction) (p : DisplayNode → Bool) (wins : List DisplayNode)
    → any p (in_direction dir wins) ≡ any p wins
unfolding in_direction
in_direction-any Direction.forward p wins = any-rev p wins
in_direction-any Direction.backward p wins = refl

in_direction-All :
    (dir : Direction) (P : DisplayNode → Type 0) (wins : List DisplayNode)
    → All P wins
    → All P (in_direction dir wins)
unfolding in_direction
in_direction-All Direction.forward P wins h = All-rev P wins h
in_direction-All Direction.backward P wins h = h

filter-holds :
    (q : DisplayNode → Bool) (xs : List DisplayNode) → All (λ w. q w ≡ true) (filter q xs)
filter-holds q [] = tt
filter-holds q (x ∷ xs) = elim (Bool-cases (q x)) [
  | inl e ↦ rw e (e, filter-holds q xs)
  | inr e ↦ rw e (filter-holds q xs)
]

focused_or_none :
    (dir : Direction) (wins : List DisplayNode)
    → (in_direction dir wins ≡ []) ⊎ (any (is_focused_window wins) (in_direction dir wins) ≡ true)
unfolding in_direction
focused_or_none Direction.forward [] = inl refl
focused_or_none Direction.backward [] = inl refl
focused_or_none dir (w ∷ wins) =
    inr (in_direction-any dir _ (w ∷ wins) ∙ any-is_focused_window w wins)

in_direction-nil :
    (dir : Direction) (wins : List DisplayNode) → in_direction dir wins ≡ [] → wins ≡ []
unfolding in_direction
in_direction-nil Direction.forward [] e = refl
in_direction-nil Direction.forward (w ∷ wins) e =
    absurd (cc (any-rev (λ (x : DisplayNode). true) (w ∷ wins)))
in_direction-nil Direction.backward wins e = e

All-zip :
    (P Q : DisplayNode → Type 0) (xs : List DisplayNode)
    → All P xs
    → All Q xs
    → All (λ v. P v × Q v) xs
All-zip P Q [] p q = tt
All-zip P Q (x ∷ xs) p q = ((p.0, q.0), All-zip P Q xs p.1 q.1)

sort_by-nil :
    (cmp : DisplayNode → DisplayNode → Ordering) (xs : List DisplayNode)
    → sort_by cmp xs ≡ []
    → xs ≡ []
sort_by-nil cmp xs e = sym (Perm.nil-eq (rw e at (sort_by-perm cmp xs)))

module _ (dir : Direction) (fdata : FocusData) (q : DisplayNode → Bool)
    (all_wins : List DisplayNode) where
  abbrev kept : List DisplayNode
  kept = filter q all_wins

  abbrev wins : List DisplayNode
  wins = sort_by (by_tick fdata) kept

  abbrev IsChoice : DisplayNode → Type 0
  IsChoice v = (q v ≡ true) × (has_id (id_of v) all_wins ≡ true)

  -- Where the predicate returns on every window, the loop ends in both directions: no window is
  -- focused, and then none passes the predicate, or one of the listed windows that pass it is.
  pub target_in_direction_lem :
      (pred : DisplayNode → Outcome Bool)
      → All (λ w. pred w ≡ ret (q w)) all_wins
      → (target_in_direction all_wins dir fdata pred ≡ ret none) × (kept ≡ [])
        ⊎ ((v : DisplayNode) × (target_in_direction all_wins dir fdata pred ≡ ret (some (id_of v)))
            × IsChoice v)
  unfolding target_in_direction
  target_in_direction_lem pred h = rw (filter_m-filter pred q all_wins h) (elim found [
    | inl (e, n) ↦ inl (e, sort_by-nil (by_tick fdata) kept (in_direction-nil dir wins n))
    | inr f ↦ inr f
  ])
    where
      listed : All IsChoice kept
      listed =
          All-zip (λ v. q v ≡ true) (λ v. has_id (id_of v) all_wins ≡ true) kept
            (filter-holds q all_wins)
            (filter-All (λ v. has_id (id_of v) all_wins ≡ true) q all_wins (has_id_self all_wins))

      found :
          (around (is_focused_window wins) (in_direction dir wins) ≡ ret none)
            × (in_direction dir wins ≡ [])
          ⊎ ((v : DisplayNode) × (around (is_focused_window wins) (in_direction dir wins)
                ≡ ret (some (id_of v)))
              × IsChoice v)
      found =
          around-either IsChoice (is_focused_window wins) (in_direction dir wins)
            (in_direction-All dir IsChoice wins (sort_by-All IsChoice (by_tick fdata) kept listed))
            (focused_or_none dir wins)
