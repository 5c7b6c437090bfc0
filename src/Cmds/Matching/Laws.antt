-- ===== src/Cmds/Matching/Laws.antt =====
-- `focus_urgent_or_matching_or_lru_window` of swayr/src/cmds.rs: it always ends, what it can focus,
-- and the order in which a sequence of the same command goes through the windows.
use swayr.Base.{
  ◌&&◌, ◌>>=◌, ap, ◌∙◌, contains-append, ℕ, zero, suc, ℤ, Bool, true, false, not, Option, none,
  some, List, [], ◌∷◌, ◌++◌, Outcome, ret, panic, find_m, find, contains, is_empty, All, ◌≡◌, refl,
  ◌⊎◌, inl, inr, arith, if◌then◌else◌, ◌==◌, int_eq, beq_refl,
}
use swayr.Swayipc.{info}
use swayr.Focus.{FocusData}
use swayr.Tree.Listing.{DisplayNode}
use swayr.Cmds.World.{SwitchToMatchingData, reset}
use swayr.Cmds.Matching.{
  entered, to_match, id_of, has_focus, has_id, focused_id_of, initialize, is_open, is_match, Turn,
  to_origin, to_lru, turn,
}

-- `find` by a test that returns has a result.
find_m-returns :
    {A : Type 0} (p : A → Outcome Bool) (xs : List A)
    → All (λ x. (b : Bool) × (p x ≡ ret b)) xs
    → (r : Option A) × (find_m p xs ≡ ret r)
find_m-returns p [] h = (none, refl)
find_m-returns p (x ∷ xs) ((true, e), h) = (some x, rw e refl)
find_m-returns p (x ∷ xs) ((false, e), h) =
    let (r, ih) = find_m-returns p xs h in (r, rw (e, ih) refl)

-- What a search that stops at the first item finds, by the outcome of the test at that item.
find_m-step :
    (p : DisplayNode → Outcome Bool) (x : DisplayNode) (xs : List DisplayNode) {a : DisplayNode}
    → (r : Outcome Bool) → p x ≡ r
    → (find_m p xs ≡ ret (some a) → (p a ≡ ret true) × (has_id (id_of a) xs ≡ true))
    → find_m p (x ∷ xs) ≡ ret (some a)
    → (p a ≡ ret true) × (has_id (id_of a) (x ∷ xs) ≡ true)
find_m-step p x xs (panic m) e ih h = ground (arith, e, h)
find_m-step p x xs {a} (ret true) e ih h = ground (arith, e, h, beq_refl (id_of x))
find_m-step p x xs (ret false) e ih h = ground (arith, e, h, ih)

find_m_holds :
    (p : DisplayNode → Outcome Bool) (xs : List DisplayNode) {a : DisplayNode}
    → find_m p xs ≡ ret (some a)
    → (p a ≡ ret true) × (has_id (id_of a) xs ≡ true)
find_m_holds p [] {a} h = cc
find_m_holds p (x ∷ xs) {a} h = find_m-step p x xs (p x) refl (find_m_holds p xs) h

-- What a turn may focus: a listed window other than the focused one.
abbrev pub IsTarget : List DisplayNode → Outcome Turn → Type 0
IsTarget wins (panic m) = Unit
IsTarget wins (ret (d, none)) = Unit
IsTarget wins (ret (d, some id)) =
    (has_id id wins ≡ true) × ((id == focused_id_of (find has_focus wins)) ≡ false)

-- How the data of a turn follow from those before it: the window is new in the sequence, or the
-- sequence is over and goes back to its origin, or a new one starts with the window.
abbrev pub Follows : List DisplayNode → SwitchToMatchingData → Outcome Turn → Type 0
Follows wins d (panic m) = Unit
Follows wins d (ret (d', none)) = d'.visited ≡ []
Follows wins d (ret (d', some id)) =
    let focused_id = focused_id_of (find has_focus wins) in
    ((contains d.visited id ≡ false) × (d'.visited ≡ (d.visited ++ focused_id ∷ []) ++ id ∷ []))
    ⊎ ((d'.visited ≡ []) ⊎ (d'.visited ≡ focused_id ∷ id ∷ []))

module _ (wins : List DisplayNode) where
  abbrev fid : ℤ
  fid = focused_id_of (find has_focus wins)

  to_origin-IsTarget :
      (init : Bool) (d : SwitchToMatchingData) (o : Option ℤ) (again : Outcome Turn)
      → IsTarget wins again
      → IsTarget wins (to_origin wins fid init d o again)
  unfolding to_origin reset
  to_origin-IsTarget init d none again h = ground arith
  to_origin-IsTarget init d (some id) again h = ground arith

  to_lru-IsTarget :
      (init : Bool) (d : SwitchToMatchingData) (o : Option ℤ) (again : Outcome Turn)
      → IsTarget wins again
      → IsTarget wins (to_lru wins fid init d o again)
  unfolding to_lru reset
  to_lru-IsTarget init d none again h = ground (arith, to_origin-IsTarget init d d.origin again h)
  to_lru-IsTarget init d (some id) again h =
      ground (arith, to_origin-IsTarget init d d.origin again h)

  is_match-is_open :
      (d : SwitchToMatchingData) (pred : DisplayNode → Outcome Bool) (w : DisplayNode)
      → is_match d fid pred w ≡ ret true
      → is_open d fid (id_of w) ≡ true
  unfolding is_match
  is_match-is_open d pred w h = ground (arith, h)

  search-IsTarget :
      (d : SwitchToMatchingData) (pred : DisplayNode → Outcome Bool) (rest : Outcome Turn)
      (r : Outcome (Option DisplayNode))
      → find_m (is_match d fid pred) wins ≡ r
      → IsTarget wins rest
      → IsTarget wins (r >>= λ win. to_match d win rest)
  search-IsTarget d pred rest (panic m) e h = tt
  search-IsTarget d pred rest (ret none) e h = h
  search-IsTarget d pred rest (ret (some w)) e h =
      let f = find_m_holds (is_match d fid pred) wins e in
      (f.1, ground (arith, is_match-is_open d pred w f.0))

  to_origin-Follows :
      (d₀ d : SwitchToMatchingData) (init : Bool) (o : Option ℤ) (again : Outcome Turn)
      → Follows wins d₀ again
      → Follows wins d₀ (to_origin wins fid init d o again)
  unfolding to_origin reset
  to_origin-Follows d₀ d init none again h = ground arith
  to_origin-Follows d₀ d init (some id) again h = ground arith

  to_lru-Follows :
      (d₀ d : SwitchToMatchingData) (init : Bool) (o : Option ℤ) (again : Outcome Turn)
      → d.visited ≡ d₀.visited ++ fid ∷ []
      → Follows wins d₀ again
      → Follows wins d₀ (to_lru wins fid init d o again)
  unfolding to_lru reset
  to_lru-Follows d₀ d init none again e h =
      ground (arith, to_origin-Follows d₀ d init d.origin again h)
  to_lru-Follows d₀ d init (some id) again e h = ground (
    arith,
    to_origin-Follows d₀ d init d.origin again h,
    contains-append d₀.visited (fid ∷ []) id,
  )

  search-Follows :
      (d₀ d : SwitchToMatchingData) (pred : DisplayNode → Outcome Bool) (rest : Outcome Turn)
      (r : Outcome (Option DisplayNode))
      → d.visited ≡ d₀.visited ++ fid ∷ []
      → find_m (is_match d fid pred) wins ≡ r
      → Follows wins d₀ rest
      → Follows wins d₀ (r >>= λ win. to_match d win rest)
  search-Follows d₀ d pred rest (panic m) v e h = tt
  search-Follows d₀ d pred rest (ret none) v e h = h
  search-Follows d₀ d pred rest (ret (some w)) v e h =
      let f = find_m_holds (is_match d fid pred) wins e in
      let o = is_match-is_open d pred w f.0 in
      inl (
        ground (arith, o, v, contains-append d₀.visited (fid ∷ []) (id_of w)),
        ap (λ (l : List ℤ). l ++ id_of w ∷ []) v,
      )

  initialize_visited :
      (fdata : FocusData) (d : SwitchToMatchingData)
      → (initialize fdata wins (find has_focus wins) d).visited ≡ d.visited
  unfolding initialize
  initialize_visited fdata d = ground arith

  -- What follows the reset data follows any.
  Follows-restart :
      (d₀ d : SwitchToMatchingData) (r : Outcome Turn)
      → d.visited ≡ []
      → Follows wins d r
      → Follows wins d₀ r
  Follows-restart d₀ d (panic m) e h = tt
  Follows-restart d₀ d (ret (d', none)) e h = h
  Follows-restart d₀ d (ret (d', some id)) e (inl p) =
      inr (inr (p.1 ∙ ap (λ (l : List ℤ). (l ++ fid ∷ []) ++ id ∷ []) e))
  Follows-restart d₀ d (ret (d', some id)) e (inr p) = inr p

-- Whatever the predicate and the data of the sequence, a turn focuses either no window or a window
-- of the list whose id is not that of the window in focus.
pub turn-IsTarget :
    (fuel : ℕ) (fdata : FocusData) (wins : List DisplayNode) (pred : DisplayNode → Outcome Bool)
    (d : SwitchToMatchingData)
    → IsTarget wins (turn fuel fdata wins pred d)
unfolding turn
turn-IsTarget zero fdata wins pred d = tt
turn-IsTarget (suc fuel) fdata wins pred d =
    let d' = entered fdata wins d in
    search-IsTarget wins d' pred _ _ refl (
      to_lru-IsTarget wins (is_empty d.visited) d' d'.lru _
        (turn-IsTarget fuel fdata wins pred (reset d' false)))

-- Within a sequence no window is focused twice: a turn that focuses a window either focuses one that
-- the sequence has not visited, and adds it behind the window that had the focus, or forgets the
-- visited windows, or starts a new sequence with just these two. A turn that focuses none forgets
-- the visited windows.
pub turn-Follows :
    (fuel : ℕ) (fdata : FocusData) (wins : List DisplayNode) (pred : DisplayNode → Outcome Bool)
    (d : SwitchToMatchingData)
    → Follows wins d (turn fuel fdata wins pred d)
unfolding turn reset
turn-Follows zero fdata wins pred d = tt
turn-Follows (suc fuel) fdata wins pred d =
    let d' = entered fdata wins d in
    let v =
      ap (λ (l : List ℤ). l ++ focused_id_of (find has_focus wins) ∷ [])
        (initialize_visited wins fdata d) in
    search-Follows wins d d' pred _ _ v refl (
      to_lru-Follows wins d d' (is_empty d.visited) d'.lru _ v (
        Follows-restart wins d (reset d' false) _ refl
          (turn-Follows fuel fdata wins pred (reset d' false))))

-- The turn returns.
abbrev pub Returns : Outcome Turn → Type 0
Returns (ret t) = Unit
Returns (panic m) = ⊥

to_lru-Returns :
    (wins : List DisplayNode) (id : ℤ) (init : Bool) (d : SwitchToMatchingData) (o : Option ℤ)
    (again : Outcome Turn)
    → (init ≡ false → Returns again)
    → Returns (to_lru wins id init d o again)
unfolding to_lru to_origin reset
to_lru-Returns wins id true d o again h = ground (arith)
to_lru-Returns wins id false d o again h = ground (arith, h refl)

-- The predicate returns on the windows.
abbrev Answers : (DisplayNode → Outcome Bool) → List DisplayNode → Type 0
Answers pred wins = All (λ w. (b : Bool) × (pred w ≡ ret b)) wins

is_match-returns_one :
    (d : SwitchToMatchingData) (id : ℤ) (pred : DisplayNode → Outcome Bool) (w : DisplayNode)
    {b : Bool}
    → pred w ≡ ret b
    → (r : Bool) × (is_match d id pred w ≡ ret r)
unfolding is_match
is_match-returns_one d id pred w {b} e = (
  if is_open d id (id_of w)
      then if not d.skip_urgent && (info w.shown).urgent then true else b
      else false,
  ground (arith, e),
)

is_match-returns :
    (d : SwitchToMatchingData) (id : ℤ) (pred : DisplayNode → Outcome Bool)
    (wins : List DisplayNode)
    → Answers pred wins
    → Answers (is_match d id pred) wins
is_match-returns d id pred [] h = tt
is_match-returns d id pred (w ∷ wins) ((b, e), h) =
    (is_match-returns_one d id pred w e, is_match-returns d id pred wins h)

search-Returns :
    (d : SwitchToMatchingData) (rest : Outcome Turn) (r : Outcome (Option DisplayNode))
    → (f : Option DisplayNode) × (r ≡ ret f)
    → Returns rest
    → Returns (r >>= λ win. to_match d win rest)
search-Returns d rest (panic m) (f, e) h = absurd (cc)
search-Returns d rest (ret none) f h = h
search-Returns d rest (ret (some w)) f h = tt

module _ (fdata : FocusData) (wins : List DisplayNode) (pred : DisplayNode → Outcome Bool)
    (answers : Answers pred wins) where
  turn-step :
      (fuel : ℕ) (d : SwitchToMatchingData)
      → (is_empty d.visited ≡ false
          → Returns (turn fuel fdata wins pred (reset (entered fdata wins d) false)))
      → Returns (turn (suc fuel) fdata wins pred d)
  unfolding turn
  turn-step fuel d h =
      let d' = entered fdata wins d in
      let id = focused_id_of (find has_focus wins) in
      search-Returns d' _ _
        (find_m-returns (is_match d' id pred) wins (is_match-returns d' id pred wins answers))
        (to_lru-Returns wins id (is_empty d.visited) d' d'.lru _ h)

  -- If the predicate returns on every window of the list, a turn with fuel for two rounds or more
  -- returns: the recursive call comes at most once.
  pub turn-Returns :
      (fuel : ℕ) (d : SwitchToMatchingData) → Returns (turn (suc (suc fuel)) fdata wins pred d)
  unfolding reset
  turn-Returns fuel d =
      turn-step (suc fuel) d
        (λ h. turn-step fuel (reset (entered fdata wins d) false) (λ h. absurd (cc)))
