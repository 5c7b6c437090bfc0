-- ===== src/Cmds/Command.antt =====
-- swayr/src/cmds.rs: `SwayrCommand` and the types of its arguments.
use swayr.Base.{Bool, true, false, String, ◌≡◌, string_eq, sym, ◌∙◌, refl}
use mathlib.Core.Bool.{false≢true}
use text.Mathlib.Text.{◌==◌ as str_eq}
use text.Mathlib.TextEquality.{eq_iff}

pub data ConsiderFloating : Type 0 where
  include_floating exclude_floating : ConsiderFloating

pub data ConsiderWindows : Type 0 where
  all_workspaces current_workspace : ConsiderWindows

pub data Direction : Type 0 where
  backward forward : Direction

-- `skip_urgent`, `skip_lru` and `skip_origin`.
pub record Skip : Type 0 where
  pub skip_urgent : Bool
  pub skip_lru : Bool
  pub skip_origin : Bool

pub data SwayrCommand : Type 0 where
  nop : SwayrCommand
  switch_to_urgent_or_lru_window : Skip → SwayrCommand
  switch_to_app_or_urgent_or_lru_window : String → Skip → SwayrCommand
  switch_to_mark_or_urgent_or_lru_window : String → Skip → SwayrCommand
  switch_to_matching_or_urgent_or_lru_window : String → Skip → SwayrCommand
  switch_window steal_window steal_window_or_container : SwayrCommand
  switch_workspace switch_output switch_workspace_or_window : SwayrCommand
  switch_workspace_container_or_window switch_to : SwayrCommand
  quit_window : Bool → SwayrCommand
  quit_workspace_or_window quit_workspace_container_or_window : SwayrCommand
  next_window prev_window next_tiled_window prev_tiled_window : ConsiderWindows → SwayrCommand
  next_tabbed_or_stacked_window prev_tabbed_or_stacked_window : ConsiderWindows → SwayrCommand
  next_floating_window prev_floating_window : ConsiderWindows → SwayrCommand
  next_window_of_same_layout prev_window_of_same_layout : ConsiderWindows → SwayrCommand
  next_matching_window prev_matching_window : String → SwayrCommand
  move_focused_to_workspace move_focused_to swap_focused_with : SwayrCommand
  toggle_tab_shuffle_tile_workspace tile_workspace : ConsiderFloating → SwayrCommand
  tab_workspace shuffle_tile_workspace : ConsiderFloating → SwayrCommand
  execute_swaymsg_command execute_swayr_command configure_outputs : SwayrCommand

pub text_differs : (s t : String) → str_eq s t ≡ false → ¬ (s ≡ t)
text_differs s t e p = false≢true (sym e ∙ (eq_iff s t).1 p)

decide_text : (s t : String) (b : Bool) → str_eq s t ≡ b → Dec (s ≡ t)
decide_text s t true e = yes ((eq_iff s t).0 e)
decide_text s t false e = no (λ p. absurd (text_differs s t e p))

String-discrete : Discrete String
unfolding decide_text
String-discrete s t = decide_text s t (str_eq s t) refl

-- `PartialEq`.
unfoldable pub SwayrCommand-discrete : Discrete SwayrCommand
unfolding String-discrete
SwayrCommand-discrete = hlevel String-discrete

unfoldable pub is_prev_next_window_variant : SwayrCommand → Bool
is_prev_next_window_variant (SwayrCommand.next_window w) = true
is_prev_next_window_variant (SwayrCommand.prev_window w) = true
is_prev_next_window_variant (SwayrCommand.next_tiled_window w) = true
is_prev_next_window_variant (SwayrCommand.prev_tiled_window w) = true
is_prev_next_window_variant (SwayrCommand.next_tabbed_or_stacked_window w) = true
is_prev_next_window_variant (SwayrCommand.prev_tabbed_or_stacked_window w) = true
is_prev_next_window_variant (SwayrCommand.next_floating_window w) = true
is_prev_next_window_variant (SwayrCommand.prev_floating_window w) = true
is_prev_next_window_variant (SwayrCommand.next_window_of_same_layout w) = true
is_prev_next_window_variant (SwayrCommand.prev_window_of_same_layout w) = true
is_prev_next_window_variant (SwayrCommand.next_matching_window c) = true
is_prev_next_window_variant (SwayrCommand.prev_matching_window c) = true
is_prev_next_window_variant _ = false
