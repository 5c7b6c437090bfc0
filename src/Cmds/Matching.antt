-- ===== src/Cmds/Matching.antt =====
-- swayr/src/cmds.rs: `focus_urgent_or_matching_or_lru_window` and the four commands over it.
pub mod Laws
pub mod Recency
pub mod Back
use swayr.Base.{
  ℕ, zero, suc, ℤ, negsuc, Bool, true, false, not, ◌&&◌, ◌||◌, Option, none, some, String, List, [],
  ◌∷◌, ◌++◌, Outcome, ret, panic, find_m, find, filter, any, contains, is_empty, ltb, ◌>>=◌,
  if◌then◌else◌, ◌==◌, option_beq, int_eq, string_eq,
}
use swayr.Base.Exec as Exec
use swayr.Swayipc.{info}
use swayr.Ipc.{get_app_name}
use swayr.Focus.{FocusData, last_focus_tick}
use swayr.Tree.Listing.{DisplayNode, get_windows}
use swayr.Criteria.Parser.{parse_criteria}
use swayr.Criteria.Eval.{criterion_to_predicate}
use swayr.Cmds.World.{SwitchToMatchingData, reset}

abbrev pub id_of : DisplayNode → ℤ
id_of w = (info w.shown).id

abbrev pub has_focus : DisplayNode → Bool
has_focus w = (info w.shown).focused

abbrev pub has_id : ℤ → List DisplayNode → Bool
has_id id wins = any (λ w. id_of w == id) wins

-- `focused.map(|f| f.node.id).unwrap_or(-1)`.
abbrev pub focused_id_of : Option DisplayNode → ℤ
focused_id_of none = negsuc 0
focused_id_of (some f) = id_of f

-- The later one in the list wins a tie.
unfoldable pub later_of : FocusData → DisplayNode → Option DisplayNode → DisplayNode
unfolding last_focus_tick
later_of fdata w none = w
later_of fdata w (some v) =
    if ltb (last_focus_tick fdata (id_of v)) (last_focus_tick fdata (id_of w)) then w else v

-- `max_by` on the ticks, which takes the last of several greatest.
unfoldable pub latest : FocusData → List DisplayNode → Option DisplayNode
unfolding later_of
latest fdata [] = none
latest fdata (w ∷ wins) = some (later_of fdata w (latest fdata wins))

abbrev id_if_some : Option DisplayNode → Option ℤ
id_if_some none = none
id_if_some (some w) = some (id_of w)

abbrev set_origin : Option DisplayNode → SwitchToMatchingData → SwitchToMatchingData
set_origin none d = d
set_origin (some f) d = record d { origin = some (id_of f) }

-- The fallbacks, set on the first invocation.
unfoldable pub initialize :
    FocusData → List DisplayNode → Option DisplayNode → SwitchToMatchingData → SwitchToMatchingData
unfolding latest
initialize fdata wins focused d =
    if is_empty d.visited
    then record (set_origin focused d) {
      lru = id_if_some (latest fdata (filter (λ w. not (has_focus w)) wins));
    }
    else d

abbrev pub push : ℤ → SwitchToMatchingData → SwitchToMatchingData
push id d = record d { visited = d.visited ++ id ∷ [] }

-- The data with the fallbacks, and the current window added to the visited ones.
abbrev pub entered : FocusData → List DisplayNode → SwitchToMatchingData → SwitchToMatchingData
entered fdata wins d =
    let focused = find has_focus wins in
    push (focused_id_of focused) (initialize fdata wins focused d)

-- The test of the first branch without the predicate.
abbrev pub is_open : SwitchToMatchingData → ℤ → ℤ → Bool
is_open d focused_id id =
    not (id == focused_id)
    && (d.skip_lru || not (option_beq d.lru (some id)))
    && (d.skip_origin || not (option_beq d.origin (some id)))
    && not (contains d.visited id)

unfoldable pub is_match :
    SwitchToMatchingData → ℤ → (DisplayNode → Outcome Bool) → DisplayNode → Outcome Bool
is_match d focused_id pred w =
    if is_open d focused_id (id_of w)
    then if not d.skip_urgent && (info w.shown).urgent then ret true else pred w
    else ret false

abbrev pub Turn : Type 0
Turn = SwitchToMatchingData × Option ℤ

-- The last branch of each chain: a new start, unless the sequence starts with this call.
abbrev start_over : Bool → SwitchToMatchingData → Outcome Turn → Outcome Turn
start_over initialized_now d again = if initialized_now then ret (d, none) else again

unfoldable pub to_origin :
    List DisplayNode → ℤ → Bool → SwitchToMatchingData → Option ℤ → Outcome Turn → Outcome Turn
unfolding reset
to_origin wins focused_id initialized_now d none again =
    start_over initialized_now (reset d false) again
to_origin wins focused_id initialized_now d (some id) again =
    if not (id == focused_id) && has_id id wins
    then ret (reset d false, some id)
    else start_over initialized_now (reset d false) again

-- The branches below the first one.
unfoldable pub to_lru :
    List DisplayNode → ℤ → Bool → SwitchToMatchingData → Option ℤ → Outcome Turn → Outcome Turn
unfolding to_origin reset
to_lru wins focused_id initialized_now d none again =
    if not d.skip_origin
    then to_origin wins focused_id initialized_now d d.origin again
    else start_over initialized_now (reset d false) again
to_lru wins focused_id initialized_now d (some id) again =
    if not d.skip_lru && not (id == focused_id) && not (contains d.visited id) && has_id id wins
    then ret (push id d, some id)
    else if not d.skip_origin
    then to_origin wins focused_id initialized_now d d.origin again
    else start_over initialized_now (reset d false) again

abbrev to_match : SwitchToMatchingData → Option DisplayNode → Outcome Turn → Outcome Turn
to_match d none rest = rest
to_match d (some win) rest = ret (push (id_of win) d, some (id_of win))

-- The new data, and the window to focus. The recursive call comes once at most, so that fuel 2 is
-- enough.
unfoldable pub turn :
    ℕ
    → FocusData
    → List DisplayNode
    → (DisplayNode → Outcome Bool)
    → SwitchToMatchingData
    → Outcome Turn
unfolding initialize is_match to_lru reset
turn zero fdata wins pred d = panic "endless recursion"
turn (suc fuel) fdata wins pred d =
    let focused_id = focused_id_of (find has_focus wins) in
    let d' = entered fdata wins d in
    let again = turn fuel fdata wins pred (reset d' false) in
    find_m (is_match d' focused_id pred) wins >>= λ win.
    to_match d' win (to_lru wins focused_id (is_empty d.visited) d' d'.lru again)
