-- ===== src/Cmds/Matching/Back.antt =====
-- The second turn of a sequence in swayr/src/cmds.rs: the way back to its origin.
use swayr.Base.{
  is_empty, ◌>>=◌, ◌++◌, ap, ◌∙◌, int_eq, int_beq_iff, beq_refl, ℕ, suc, ℤ, Bool, true, false,
  Option, some, List, [], ◌∷◌, Outcome, ret, find_m, find, All, ◌≡◌, refl, arith, ◌==◌,
}
use swayr.Swayipc.{info}
use swayr.Focus.{FocusData}
use swayr.Tree.Listing.{DisplayNode}
use swayr.Cmds.World.{SwitchToMatchingData, reset}
use swayr.Cmds.Matching.{
  to_match, Turn, initialize, to_lru, to_origin, entered, is_match, push, id_of, has_focus, has_id,
  focused_id_of, latest, later_of, turn,
}
use swayr.Cmds.Matching.Recency.{
  others, IsDistinct, find_m-none, is_match-no_match, latest-All, first_turn, entered_fresh,
}

-- No window is urgent.
abbrev pub IsCalm : List DisplayNode → Type 0
IsCalm wins = All (λ w. (info w.shown).urgent ≡ false) wins

to_lru-origin :
    (wins : List DisplayNode) (d : SwitchToMatchingData) (l o : ℤ) (init : Bool)
    (again : Outcome Turn)
    → d.lru ≡ some l
    → d.origin ≡ some o
    → d.skip_origin ≡ false
    → (o == l) ≡ false
    → has_id o wins ≡ true
    → to_lru wins l init d d.lru again ≡ ret (reset d false, some o)
unfolding to_lru to_origin
to_lru-origin wins d l o init again hl ho hs ne m =
    rw (hl, ho) (ground (arith, hs, ne, m, beq_refl l))

module _ (fdata : FocusData) (wins : List DisplayNode) (d : SwitchToMatchingData) where
  -- A sequence is under way, and the LRU window has the focus.
  entered_later :
      {v : ℤ} {vs : List ℤ} {g : DisplayNode}
      → d.visited ≡ v ∷ vs
      → find has_focus wins ≡ some g
      → entered fdata wins d ≡ push (id_of g) d
  unfolding initialize
  entered_later visited focus = rw (focus, visited) refl

  turn-origin :
      {v l o : ℤ} {vs : List ℤ} {g : DisplayNode} (fuel : ℕ)
      → d.visited ≡ v ∷ vs
      → d.lru ≡ some l
      → d.origin ≡ some o
      → d.skip_origin ≡ false
      → find has_focus wins ≡ some g
      → id_of g ≡ l
      → (o == l) ≡ false
      → has_id o wins ≡ true
      → IsCalm wins
      → turn (suc fuel) fdata wins (λ v. ret false) d ≡ ret (reset (push (id_of g) d) false, some o)
  unfolding turn
  turn-origin {v} {l} {o} {vs} {g} fuel visited lru origin skip focus same ne there calm =
      let fid : ℤ = focused_id_of (find has_focus wins) in
      ap
        (λ (e : SwitchToMatchingData). find_m (is_match e fid (λ v. ret false)) wins >>= λ win.
          to_match e win (
            to_lru wins fid (is_empty d.visited) e e.lru
              (turn fuel fdata wins (λ v. ret false) (reset e false))))
        (entered_later visited focus)
      ∙ ap
          (λ (r : Outcome (Option DisplayNode)). r >>= λ win. to_match (push (id_of g) d) win (
            to_lru wins fid (is_empty d.visited) (push (id_of g) d) d.lru
              (turn fuel fdata wins (λ v. ret false) (reset (push (id_of g) d) false))))
          (find_m-none (is_match (push (id_of g) d) fid (λ v. ret false)) wins
            (is_match-no_match fdata wins d (push (id_of g) d) fid wins calm))
      ∙ ap
          (λ (i : ℤ).
            to_lru wins i (is_empty d.visited) (push (id_of g) d) d.lru
              (turn fuel fdata wins (λ v. ret false) (reset (push (id_of g) d) false)))
          (ap focused_id_of focus ∙ same)
      ∙ to_lru-origin wins (push (id_of g) d) l o _ _ lru origin skip ne there

entered_origin :
    (fdata : FocusData) (wins : List DisplayNode) (d : SwitchToMatchingData) {f : DisplayNode}
    → d.visited ≡ []
    → find has_focus wins ≡ some f
    → ((entered fdata wins d).origin ≡ some (id_of f))
      × ((entered fdata wins d).skip_origin ≡ d.skip_origin)
unfolding initialize
entered_origin fdata wins d empty focus = rw (focus, empty) (refl, refl)

-- When neither the LRU window nor the origin is skipped, no window is urgent and none matches, and the
-- first turn of a sequence has gone from the focused window to another one, whose id differs from that
-- of the focused one as those of all others do, then the second turn, with the focus on that other one
-- and the first window still there, goes back to the first window, whatever the ticks are then; and the
-- sequence is over.
pub turn-back :
    (fdata fdata' : FocusData) (wins wins' : List DisplayNode) (d d' : SwitchToMatchingData)
    {x f g : DisplayNode} {xs : List DisplayNode} {id : ℤ} (fuel : ℕ)
    → d.visited ≡ []
    → d.skip_lru ≡ false
    → d.skip_origin ≡ false
    → IsCalm wins
    → IsDistinct wins
    → others wins ≡ x ∷ xs
    → find has_focus wins ≡ some f
    → turn (suc fuel) fdata wins (λ v. ret false) d ≡ ret (d', some id)
    → IsCalm wins'
    → find has_focus wins' ≡ some g
    → id_of g ≡ id
    → has_id (id_of f) wins' ≡ true
    → (e : SwitchToMatchingData) × (turn (suc fuel) fdata' wins' (λ v. ret false) d'
        ≡ ret (e, some (id_of f)))
      × (e.visited ≡ [])
unfolding reset latest
turn-back fdata fdata' wins wins' d d' {x} {f} {g} {xs} {id} fuel empty keep_lru keep_origin calm
      apart some_other focus first calm' focus' same there =
    let w = later_of fdata x (latest fdata xs) in
    let went = first_turn fdata wins d fuel empty keep_lru calm apart some_other in
    let left : d' ≡ push (id_of w) (entered fdata wins d) = cc in
    let there_id : id ≡ id_of w = cc in
    let (lru, visited, skip) = entered_fresh fdata wins d {w = w} empty (rw some_other refl) in
    let (origin, skip') = entered_origin fdata wins d empty focus in
    let P : DisplayNode → Type 0 = λ v. (id_of v == focused_id_of (find has_focus wins)) ≡ false in
    let differs : (id_of w == id_of f) ≡ false =
      rw focus at (latest-All P fdata x xs (rw some_other at apart)) in
    (
      reset (push (id_of g) (push (id_of w) (entered fdata wins d))) false,
      ap (turn (suc fuel) fdata' wins' (λ v. ret false)) left
          ∙ turn-origin fdata' wins' (push (id_of w) (entered fdata wins d)) fuel
              (ap (λ l. l ++ id_of w ∷ []) visited) lru origin (skip' ∙ keep_origin) focus'
              (same ∙ there_id)
              (ground
                (arith, differs, int_beq_iff (id_of w) (id_of f), int_beq_iff (id_of f) (id_of w)))
              there calm',
      refl,
    )
