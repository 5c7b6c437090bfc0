-- ===== src/Cmds/Direction/Neighbours.antt =====
-- The next and the previous window of swayr/src/cmds.rs: the two directions undo each other.
use mathlib.Core.List.{append_assoc, append-nil}
use swayr.Base.{Bool, true, false, some, List, [], ◌∷◌, ◌++◌, ret, All, ◌≡◌, refl, sym, ◌∙◌}
use swayr.Tree.Listing.{DisplayNode}
use swayr.Cmds.Command.{Direction}
use swayr.Cmds.Matching.{id_of}
use swayr.Cmds.Direction.{behind, around, rev, in_direction, first_or}
use swayr.Cmds.Direction.Laws.{All-rev}

behind_at :
    (p : DisplayNode → Bool) (first : DisplayNode) (a : List DisplayNode) (u : DisplayNode)
    (rest : List DisplayNode)
    → All (λ w. p w ≡ false) a
    → p u ≡ true
    → behind p first (a ++ u ∷ rest) ≡ ret (first_or first rest)
unfolding behind
behind_at p first [] u rest h e = rw e refl
behind_at p first (w ∷ a) u rest h e = rw h.0 (behind_at p first a u rest h.1 e)

-- The window behind `u` in the list.
around-inner :
    (p : DisplayNode → Bool) (a : List DisplayNode) (u v : DisplayNode) (b : List DisplayNode)
    → All (λ w. p w ≡ false) a
    → p u ≡ true
    → around p (a ++ u ∷ v ∷ b) ≡ ret (some (id_of v))
around-inner p [] u v b h e = rw (behind_at p u [] u (v ∷ b) h e) refl
around-inner p (w ∷ a) u v b h e = rw (behind_at p w (w ∷ a) u (v ∷ b) h e) refl

-- Behind the last window comes the first.
around-wrap :
    (p : DisplayNode → Bool) (v : DisplayNode) (m : List DisplayNode) (u : DisplayNode)
    → All (λ w. p w ≡ false) (v ∷ m)
    → p u ≡ true
    → around p ((v ∷ m) ++ u ∷ []) ≡ ret (some (id_of v))
around-wrap p v m u h e = rw (behind_at p v (v ∷ m) u [] h e) refl

rev-append : (xs ys : List DisplayNode) → rev (xs ++ ys) ≡ rev ys ++ rev xs
rev-append [] ys = sym (append-nil (rev ys))
rev-append (x ∷ xs) ys = rw (rev-append xs ys) (append_assoc (rev ys) (rev xs) (x ∷ []))

-- `v` follows `u` in the sorted windows, where the first follows the last. `p` and `q` are the tests
-- for the focus when `u` and when `v` has it: each holds at no window that comes before its own in
-- the direction in question.
pub data Follow (p q : DisplayNode → Bool) (u v : DisplayNode) : List DisplayNode → Type 0 where
  inner :
      (a b l : List DisplayNode)
      → l ≡ a ++ u ∷ v ∷ b
      → All (λ w. p w ≡ false) a
      → All (λ w. q w ≡ false) b
      → Follow p q u v l
  wrap :
      (m l : List DisplayNode)
      → l ≡ (v ∷ m) ++ u ∷ []
      → All (λ w. p w ≡ false) (v ∷ m)
      → All (λ w. q w ≡ false) (u ∷ m)
      → Follow p q u v l

rev-inner :
    (a : List DisplayNode) (u v : DisplayNode) (b : List DisplayNode)
    → rev (a ++ u ∷ v ∷ b) ≡ rev b ++ v ∷ u ∷ rev a
rev-inner a u v b =
    rev-append a (u ∷ v ∷ b)
    ∙ append_assoc (rev b ++ v ∷ []) (u ∷ []) (rev a)
    ∙ append_assoc (rev b) (v ∷ []) (u ∷ rev a)

rev-wrap :
    (v : DisplayNode) (m : List DisplayNode) (u : DisplayNode)
    → rev ((v ∷ m) ++ u ∷ []) ≡ (u ∷ rev m) ++ v ∷ []
rev-wrap v m u = rw (rev-append m (u ∷ [])) refl

-- When `v` follows `u` in the sorted windows, a previous command goes from `u` to `v`, and with the
-- same order a next command goes from `v` back to `u`, also around the ends of the list.
pub around_undoes :
    {p q : DisplayNode → Bool} {u v : DisplayNode} {l : List DisplayNode}
    → p u ≡ true
    → q v ≡ true
    → Follow p q u v l
    → (around p (in_direction Direction.backward l) ≡ ret (some (id_of v)))
      × (around q (in_direction Direction.forward l) ≡ ret (some (id_of u)))
unfolding in_direction
around_undoes {p} {q} {u} {v} hp hq (inner a b l e ha hb) = (
  rw e (around-inner p a u v b ha hp),
  rw (e, rev-inner a u v b) (around-inner q (rev b) v u (rev a) (All-rev _ b hb) hq),
)
around_undoes {p} {q} {u} {v} hp hq (wrap m l e ha hb) = (
  rw e (around-wrap p v m u ha hp),
  rw (e, rev-wrap v m u) (around-wrap q u (rev m) v (hb.0, All-rev _ m hb.1) hq),
)
