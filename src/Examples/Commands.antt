-- ===== src/Examples/Commands.antt =====
-- The theorems on the commands at the small tree.
use mathlib.Core.List.{Mem}
use swayr.Base.{
  ◌==◌, int_eq, pos, Bool, true, false, not, none, some, List, [], ◌∷◌, ◌++◌, Outcome, ret, panic,
  refl, ◌≡◌, ◌⊎◌, filter,
}
use swayr.Wire.{Wire}
use swayr.Tree.Listing.{DisplayNode}
use swayr.Layout.Relayout.Moves.{relayout_commands}
use swayr.Util.{select}
use swayr.Cmds.Command.{SwayrCommand, Direction, include_floating, nop}
use swayr.Cmds.World.{World, Env, SwitchToMatchingData, new}
use swayr.Cmds.Matching.{id_of, has_focus, has_id, turn, latest}
use swayr.Cmds.Matching.Laws.{IsTarget, Follows, Returns, turn-IsTarget, turn-Follows, turn-Returns}
use swayr.Cmds.Matching.Back.{turn-back}
use swayr.Cmds.Matching.Recency.{IsLatest, others, turn-first}
use swayr.Cmds.Direction.Neighbours.{Follow, around_undoes}
use swayr.Cmds.Direction.{around, in_direction, target_in_direction}
use swayr.Cmds.Direction.Laws.{target_in_direction_lem}
use swayr.Cmds.Tiling.{tab_current_workspace, tile_current_workspace}
use swayr.Cmds.Tiling.Laws.{
  tab_plan, tile_plan, tab_current_workspace-runs, tile_current_workspace-runs,
}
use swayr.Cmds.Exec.{exec_swayr_cmd, offered}
use swayr.Cmds.Exec.Laws.{execute_swayr_command-locks_itself}
use swayr.Examples.Data.{root, workspace, window, wire, fdata, display, externs}
use swayr.Examples.Trees.{shown-IsTypedTree, shown-current}

abbrev wins : List DisplayNode
wins =
    display (window 3 false false)
    ∷ display (window 2 false false)
    ∷ display (window 1 true false)
    ∷ []

abbrev never : DisplayNode → Outcome Bool
never w = ret false

-- A sequence that started at the window 2 and has come to the window 1.
abbrev under_way : SwitchToMatchingData
under_way = record new { visited = pos 2 ∷ pos 1 ∷ []; lru = some (pos 1); origin = some (pos 2) }

turn-Follows_example : Follows wins under_way (turn 2 fdata wins never under_way)
turn-Follows_example = turn-Follows 2 fdata wins never under_way

turn-IsTarget_example : IsTarget wins (turn 2 fdata wins never under_way)
turn-IsTarget_example = turn-IsTarget 2 fdata wins never under_way

turn-Returns_example : Returns (turn 2 fdata wins never under_way)
turn-Returns_example =
    turn-Returns fdata wins never ((false, refl), ((false, refl), ((false, refl), tt))) 0 under_way

turn-first_example :
    (d' : SwitchToMatchingData) × (w : DisplayNode) × (turn 2 fdata wins never new
      ≡ ret (d', some (id_of w)))
    × Mem w (others wins)
    × IsLatest fdata (others wins) w
turn-first_example =
    turn-first fdata wins new 1 refl refl (refl, (refl, (refl, tt))) (refl, (refl, tt)) refl

-- The same windows with the focus on the window 3.
abbrev wins_later : List DisplayNode
wins_later =
    display (window 3 true false)
    ∷ display (window 2 false false)
    ∷ display (window 1 false false)
    ∷ []

abbrev after_first : SwitchToMatchingData
after_first = record new { visited = pos 1 ∷ pos 3 ∷ []; lru = some (pos 3); origin = some (pos 1) }

turn-back_example :
    (e : SwitchToMatchingData) × (turn 2 fdata wins_later never after_first ≡ ret (e, some (pos 1)))
    × (e.visited ≡ [])
unfolding turn latest
turn-back_example =
    turn-back fdata fdata wins wins_later new after_first 1 refl refl refl
      (refl, (refl, (refl, tt))) (refl, (refl, tt)) refl refl refl (refl, (refl, (refl, tt))) refl
      refl refl

target_in_direction_lem_example :
    (target_in_direction wins Direction.forward fdata (λ w. ret (not (has_focus w))) ≡ ret none)
      × (filter (λ w. not (has_focus w)) wins ≡ [])
    ⊎ ((v : DisplayNode) × (target_in_direction wins Direction.forward fdata
            (λ w. ret (not (has_focus w)))
          ≡ ret (some (id_of v)))
        × ((not (has_focus v) ≡ true) × (has_id (id_of v) wins ≡ true)))
target_in_direction_lem_example =
    target_in_direction_lem Direction.forward fdata (λ w. not (has_focus w)) wins
      (λ w. ret (not (has_focus w))) (refl, (refl, (refl, tt)))

abbrev pub env : Env
env = record {
  externs = externs;
  display = λ dn. ret "entry";
  debug = λ c. "command";
  shuffle = λ l. l;
  choose = λ l. none;
  get_outputs = ret [];
}

tab_current_workspace-runs_example :
    (w' : Wire) × (tab_current_workspace include_floating wire ≡ (ret tt, w'))
    × (w'.sent ≡ [] ++ relayout_commands true tab_plan workspace)
tab_current_workspace-runs_example =
    tab_current_workspace-runs wire root workspace include_floating (λ n cmd. refl) refl refl
      shown-IsTypedTree shown-current

tile_current_workspace-runs_example :
    (w' : Wire) × (tile_current_workspace env include_floating true wire ≡ (ret tt, w'))
    × (w'.sent ≡ [] ++ relayout_commands true (tile_plan env true) workspace)
tile_current_workspace-runs_example =
    tile_current_workspace-runs wire root workspace include_floating (λ n cmd. refl) refl refl
      shown-IsTypedTree shown-current env true

abbrev pub world : World
world = record {
  wire = wire;
  fdata = fdata;
  last_command = nop;
  stm_data = under_way;
  locked = false;
  answers = λ n. some "command\n";
  asked = 0;
  killed = [];
}

execute_swayr_command-locks_itself_example :
    (v : World) × (exec_swayr_cmd env 0 2 SwayrCommand.execute_swayr_command world
      ≡ (panic "locked by the same thread", v))
    × (v.locked ≡ true)
unfolding select offered
execute_swayr_command-locks_itself_example =
    execute_swayr_command-locks_itself env 0 0 world refl refl refl refl

-- From the last window back to the first, and forward again.
around_undoes_example :
    (around (λ w. id_of w == pos 1) (in_direction Direction.backward wins) ≡ ret (some (pos 3)))
    × (around (λ w. id_of w == pos 3) (in_direction Direction.forward wins) ≡ ret (some (pos 1)))
around_undoes_example =
    around_undoes {p = λ w. id_of w == pos 1} {q = λ w. id_of w == pos 3} refl refl (
      Follow.wrap (display (window 2 false false) ∷ []) wins refl (refl, (refl, tt))
        (refl, (refl, tt)))
