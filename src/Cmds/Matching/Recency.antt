-- ===== src/Cmds/Matching/Recency.antt =====
-- The first turn of a sequence in swayr/src/cmds.rs: the switch to the window used last.
use mathlib.Core.List.{Mem, mem-cons_self, mem-cons_of_mem}
use swayr.Base.Sort.{All-map}
use swayr.Base.{
  int_beq_iff, Option-cases, filter-All, beq_refl, ◌∙◌, int_eq, inr, inl, ℕ, suc, ◌≤◌, ℤ, Bool,
  true, false, not, Option, none, some, List, [], ◌∷◌, Outcome, ret, find_m, find, filter, All, ◌≡◌,
  refl, arith, ltb, if◌then◌else◌, ◌==◌,
}
use swayr.Swayipc.{info}
use swayr.Focus.{FocusData, last_focus_tick}
use swayr.Tree.Listing.{DisplayNode}
use swayr.Cmds.World.{SwitchToMatchingData}
use swayr.Cmds.Matching.{
  Turn, initialize, to_lru, entered, is_match, push, id_of, has_focus, has_id, focused_id_of,
  latest, later_of, turn,
}

-- No window of the list had the focus later.
abbrev pub IsLatest : FocusData → List DisplayNode → DisplayNode → Type 0
IsLatest fdata wins w =
    All (λ v. last_focus_tick fdata (id_of v) ≤ last_focus_tick fdata (id_of w)) wins

abbrev LatestOf : FocusData → List DisplayNode → Option DisplayNode → Type 0
LatestOf fdata wins none = wins ≡ []
LatestOf fdata wins (some w) = IsLatest fdata wins w

IsLatest-raise :
    (fdata : FocusData) (wins : List DisplayNode) (v w : DisplayNode)
    → last_focus_tick fdata (id_of v) ≤ last_focus_tick fdata (id_of w)
    → IsLatest fdata wins v
    → IsLatest fdata wins w
IsLatest-raise fdata [] v w h a = tt
IsLatest-raise fdata (x ∷ wins) v w h a =
    (omega (arith, h, a.0), IsLatest-raise fdata wins v w h a.1)

later_of-IsLatest_if :
    (fdata : FocusData) (x v : DisplayNode) (wins : List DisplayNode) (b : Bool)
    → ltb (last_focus_tick fdata (id_of v)) (last_focus_tick fdata (id_of x)) ≡ b
    → IsLatest fdata wins v
    → IsLatest fdata (x ∷ wins) (if b then x else v)
later_of-IsLatest_if fdata x v wins true e a =
    (omega arith, IsLatest-raise fdata wins v x (ground (arith, e)) a)
later_of-IsLatest_if fdata x v wins false e a = (ground (arith, e), a)

later_of-IsLatest :
    (fdata : FocusData) (x : DisplayNode) (wins : List DisplayNode) (o : Option DisplayNode)
    → LatestOf fdata wins o
    → IsLatest fdata (x ∷ wins) (later_of fdata x o)
unfolding later_of
later_of-IsLatest fdata x wins none e = rw e (omega arith, tt)
later_of-IsLatest fdata x wins (some v) a = later_of-IsLatest_if fdata x v wins _ refl a

latest-LatestOf :
    (fdata : FocusData) (wins : List DisplayNode) → LatestOf fdata wins (latest fdata wins)
unfolding latest
latest-LatestOf fdata [] = refl
latest-LatestOf fdata (x ∷ wins) =
    later_of-IsLatest fdata x wins (latest fdata wins) (latest-LatestOf fdata wins)

if_either : {A : Type 0} (P : A → Type 0) (b : Bool) (x y : A) → P x → P y → P (if b then x else y)
if_either P true x y px py = px
if_either P false x y px py = py

-- What holds of every window of the list holds of the latest.
pub latest-All :
    (P : DisplayNode → Type 0) (fdata : FocusData) (x : DisplayNode) (wins : List DisplayNode)
    → All P (x ∷ wins)
    → P (later_of fdata x (latest fdata wins))
unfolding latest later_of
latest-All P fdata x [] h = h.0
latest-All P fdata x (y ∷ wins) h =
    if_either P _ x (later_of fdata y (latest fdata wins)) h.0 (latest-All P fdata y wins h.1)

-- Every item of a list is in it.
All-Mem : {A : Type 0} (l : List A) → All (λ a. Mem a l) l
All-Mem [] = tt
All-Mem (a ∷ l) = (
  mem-cons_self,
  All-map (λ b. Mem b l) (λ b. Mem b (a ∷ l)) l (λ b. mem-cons_of_mem a) (All-Mem l),
)

-- The windows that have not the focus.
abbrev pub others : List DisplayNode → List DisplayNode
others wins = filter (λ w. not (has_focus w)) wins

pub find_m-none :
    {A : Type 0} (p : A → Outcome Bool) (xs : List A)
    → All (λ x. p x ≡ ret false) xs
    → find_m p xs ≡ ret none
find_m-none p [] h = refl
find_m-none p (x ∷ xs) h = rw (h.0, find_m-none p xs h.1) refl

-- With the id of the focused window, no other window.
abbrev pub IsDistinct : List DisplayNode → Type 0
IsDistinct wins = All (λ w. (id_of w == focused_id_of (find has_focus wins)) ≡ false) (others wins)

pub has_id_self : (l : List DisplayNode) → All (λ w. has_id (id_of w) l ≡ true) l
has_id_self [] = tt
has_id_self (x ∷ l) = (
  ground (arith, beq_refl (id_of x)),
  All-map (λ w. has_id (id_of w) l ≡ true) (λ w. has_id (id_of w) (x ∷ l) ≡ true) l
      (λ w h. ground (arith, h)) (has_id_self l),
)

module _ (fdata : FocusData) (wins : List DisplayNode) (d : SwitchToMatchingData) where
  pub is_match-no_match :
      (e : SwitchToMatchingData) (id : ℤ) (l : List DisplayNode)
      → All (λ w. (info w.shown).urgent ≡ false) l
      → All (λ w. is_match e id (λ v. ret false) w ≡ ret false) l
  unfolding is_match
  is_match-no_match e id [] h = tt
  is_match-no_match e id (w ∷ l) h = (ground (arith, h.0), is_match-no_match e id l h.1)

  pub entered_fresh :
      {w : DisplayNode}
      → d.visited ≡ []
      → latest fdata (others wins) ≡ some w
      → ((entered fdata wins d).lru ≡ some (id_of w))
        × ((entered fdata wins d).visited ≡ focused_id_of (find has_focus wins) ∷ [])
        × ((entered fdata wins d).skip_lru ≡ d.skip_lru)
  unfolding initialize
  entered_fresh empty e = elim (Option-cases (find has_focus wins)) [
    | inl n ↦ rw (n, empty, e) (refl, refl, refl)
    | inr (f, n) ↦ rw (n, empty, e) (refl, refl, refl)
  ]

  to_lru-switch :
      (e : SwitchToMatchingData) (id : ℤ) (w : DisplayNode) (init : Bool) (again : Outcome Turn)
      → e.lru ≡ some (id_of w)
      → e.visited ≡ id ∷ []
      → e.skip_lru ≡ false
      → (id_of w == id) ≡ false
      → has_id (id_of w) wins ≡ true
      → to_lru wins id init e e.lru again ≡ ret (push (id_of w) e, some (id_of w))
  unfolding to_lru
  to_lru-switch e id w init again l v k ne m =
      rw l (ground (arith, v, k, ne, m, int_beq_iff (id_of w) id, int_beq_iff id (id_of w)))

  -- The window of the first turn, and the data that it leaves.
  pub first_turn :
      {x : DisplayNode} {xs : List DisplayNode} (fuel : ℕ)
      → d.visited ≡ []
      → d.skip_lru ≡ false
      → All (λ w. (info w.shown).urgent ≡ false) wins
      → IsDistinct wins
      → others wins ≡ x ∷ xs
      → turn (suc fuel) fdata wins (λ v. ret false) d
        ≡ ret (
          push (id_of (later_of fdata x (latest fdata xs))) (entered fdata wins d),
          some (id_of (later_of fdata x (latest fdata xs))),
        )
  unfolding turn latest
  first_turn {x} {xs} fuel empty keep calm apart some_other =
      let w = later_of fdata x (latest fdata xs) in
      let l : latest fdata (others wins) ≡ some w = rw some_other refl in
      let fid : ℤ = focused_id_of (find has_focus wins) in
      let (lru, visited, skip) = entered_fresh empty l in
      let P : DisplayNode → Type 0 =
        λ v. (id_of v == focused_id_of (find has_focus wins)) ≡ false in
      let Q : DisplayNode → Type 0 = λ v. has_id (id_of v) wins ≡ true in
      rw
        (find_m-none (is_match (entered fdata wins d) fid (λ v. ret false)) wins
          (is_match-no_match (entered fdata wins d) fid wins calm))
        (to_lru-switch (entered fdata wins d) fid w _ _ lru visited (skip ∙ keep)
          (latest-All P fdata x xs (rw some_other at apart))
          (latest-All Q fdata x xs
            (rw some_other at (filter-All Q (λ v. not (has_focus v)) wins (has_id_self wins)))))

  -- When no window is urgent and none matches, the LRU window is not skipped, some window has not the
  -- focus, and none of those has the id of the focused one, the first turn of a sequence focuses one of
  -- the windows without the focus, and none of those had the focus later than it.
  pub turn-first :
      {x : DisplayNode} {xs : List DisplayNode} (fuel : ℕ)
      → d.visited ≡ []
      → d.skip_lru ≡ false
      → All (λ w. (info w.shown).urgent ≡ false) wins
      → IsDistinct wins
      → others wins ≡ x ∷ xs
      → (d' : SwitchToMatchingData) × (w : DisplayNode) × (turn
            (suc fuel)
            fdata
            wins
            (λ v. ret false)
            d
          ≡ ret (d', some (id_of w)))
        × Mem w (others wins)
        × IsLatest fdata (others wins) w
  unfolding latest
  turn-first {x} {xs} fuel empty keep calm apart some_other =
      let w = later_of fdata x (latest fdata xs) in
      let l : latest fdata (others wins) ≡ some w = rw some_other refl in
      (
        push (id_of w) (entered fdata wins d),
        w,
        first_turn fuel empty keep calm apart some_other,
        rw some_other (latest-All (λ v. Mem v (x ∷ xs)) fdata x xs (All-Mem (x ∷ xs))),
        rw l at (latest-LatestOf fdata (others wins)),
      )
