-- ===== src/Cmds/SwitchTo.antt =====
-- swayr/src/cmds.rs: the commands that switch to urgent, matching or last used windows, and those
-- that focus the next or previous window that matches criteria.
use swayr.Base.{
  Bool, List, String, Option, Outcome, ret, contains, string_eq, ◌==◌, none, some, false,
}
use swayr.Base.Exec.{pure, lift, gets, modify, ◌>>=◌, ◌>>◌}
use swayr.Swayipc.{info}
use swayr.Ipc.{get_app_name}
use swayr.Tree.Listing.{DisplayNode, get_windows}
use swayr.Criteria.Syntax.{Externs, Criterion}
use swayr.Criteria.Parser.{parse_criteria}
use swayr.Criteria.Eval.{criterion_to_predicate}
use swayr.Cmds.World.{M, ask_for}
use swayr.Cmds.Run.{focus_window_by_id}
use swayr.Cmds.Matching.{turn}
use swayr.Cmds.Walk.{focus_if_some, focus_window_in_direction_1}
use swayr.Cmds.Command.{Direction}

-- The data stay locked, so that data of a turn that panics are read by nobody.
unfoldable pub focus_urgent_or_matching_or_lru_window :
    List DisplayNode → (DisplayNode → Outcome Bool) → M (Unit {0})
unfolding turn focus_window_by_id
focus_urgent_or_matching_or_lru_window wins pred = do
  fdata ← gets (λ w. w.fdata)
  d ← gets (λ w. w.stm_data)
  r ← lift (turn 2 fdata wins pred d)
  modify (λ w. record w { stm_data = r.0 })
  focus_if_some r.1

unfoldable pub switch_to_urgent_or_lru_window : M (Unit {0})
unfolding ask_for get_windows focus_urgent_or_matching_or_lru_window
switch_to_urgent_or_lru_window = do
  wins ← ask_for false get_windows
  focus_urgent_or_matching_or_lru_window wins (λ w. ret false)

unfoldable pub switch_to_app_or_urgent_or_lru_window : String → M (Unit {0})
unfolding ask_for get_windows focus_urgent_or_matching_or_lru_window get_app_name
switch_to_app_or_urgent_or_lru_window name = do
  wins ← ask_for false get_windows
  focus_urgent_or_matching_or_lru_window wins (λ w. ret (get_app_name w.shown == name))

unfoldable pub switch_to_mark_or_urgent_or_lru_window : String → M (Unit {0})
unfolding ask_for get_windows focus_urgent_or_matching_or_lru_window
switch_to_mark_or_urgent_or_lru_window con_mark = do
  wins ← ask_for false get_windows
  focus_urgent_or_matching_or_lru_window wins (λ w. ret (contains (info w.shown).marks con_mark))

module _ (x : Externs) where
  matching_or_lru : List DisplayNode → Option Criterion → M (Unit {0})
  unfolding focus_urgent_or_matching_or_lru_window criterion_to_predicate
  matching_or_lru wins none = pure tt
  matching_or_lru wins (some crit) =
      focus_urgent_or_matching_or_lru_window wins (criterion_to_predicate x crit wins)

  unfoldable pub switch_to_matching_or_urgent_or_lru_window : String → M (Unit {0})
  unfolding ask_for get_windows matching_or_lru parse_criteria
  switch_to_matching_or_urgent_or_lru_window criteria = do
    wins ← ask_for false get_windows
    parsed ← pure (parse_criteria x criteria)
    matching_or_lru wins parsed

  matching_in_direction : Direction → List DisplayNode → Option Criterion → M (Unit {0})
  unfolding focus_window_in_direction_1 criterion_to_predicate
  matching_in_direction dir wins none = pure tt
  matching_in_direction dir wins (some crits) = do
    fdata ← gets (λ w. w.fdata)
    focus_window_in_direction_1 wins dir fdata (criterion_to_predicate x crits wins)

  unfoldable pub focus_matching_window_in_direction : Direction → String → M (Unit {0})
  unfolding ask_for get_windows matching_in_direction parse_criteria
  focus_matching_window_in_direction dir criteria = do
    wins ← ask_for false get_windows
    parsed ← pure (parse_criteria x criteria)
    matching_in_direction dir wins parsed
