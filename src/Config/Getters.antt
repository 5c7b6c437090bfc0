-- ===== src/Config/Getters.antt =====
-- swayr/src/config.rs: `impl Config`. Durations are in milliseconds. `$HOME` is an argument: `home`
-- is its value, if it is set.
pub mod Returns
use Prim.Native.Char.{code}
use Prim.Native.String.{[], ◌∷◌}
use swayr.Base.{
  ℕ, ℤ, Bool, Option, none, some, String, List, Outcome, ret, ◌>>=◌, expect, or_else, if◌then◌else◌,
  nat_beq, int_eq,
}
use swayr.Base.Dict.{insert}
use swayr.Base.Texts.{◌<>◌}
use swayr.Config.Defaults.{
  Layout, Config, default_menu, default_format, default_layout, default_focus, default_misc,
}

-- `self.section.as_ref().and_then(|s| s.field)`.
abbrev setting {ℓ κ} : {S : Type ℓ} {A : Type κ} → Option S → (S → Option A) → Option A
setting none field = none
setting (some s) field = field s

-- The chain of every getter: the setting, or else the default, or else a panic.
abbrev getter {ℓ κ} : {S : Type ℓ} {A : Type κ} → Option S → (S → Option A) → S → String → Outcome A
getter section field default msg = expect (or_else (setting section field) (field default)) msg

starts_with_tilde : String → Bool
starts_with_tilde [] = Bool.false
starts_with_tilde (c ∷ s) = nat_beq (code c) b'~'

-- The text behind its first character.
behind_first : String → String
behind_first [] = []
behind_first (c ∷ s) = s

expand_one : Option String → String → Outcome String
expand_one home file_name =
    if starts_with_tilde file_name
    then (do h ← expect home "$HOME not defined"; ret (h <> behind_first file_name))
    else ret file_name

unfoldable pub tilde_expand_file_names : Option String → List String → Outcome (List String)
unfolding expand_one starts_with_tilde behind_first
tilde_expand_file_names home List.[] = ret List.[]
tilde_expand_file_names home (List.◌∷◌ file_name l) = do
  path ← expand_one home file_name
  rest ← tilde_expand_file_names home l
  ret (List.◌∷◌ path rest)

module _ (c : Config) where
  unfoldable pub get_menu_executable : Outcome String
  get_menu_executable = getter c.menu (λ m. m.executable) default_menu "No menu.executable defined!"

  unfoldable pub get_menu_args : Outcome (List String)
  get_menu_args = getter c.menu (λ m. m.args) default_menu "No menu.args defined."

  unfoldable pub get_format_output_format : Outcome String
  get_format_output_format =
      getter c.format (λ f. f.output_format) default_format "No format.output_format defined."

  unfoldable pub get_format_workspace_format : Outcome String
  get_format_workspace_format =
      getter c.format (λ f. f.workspace_format) default_format "No format.workspace_format defined."

  unfoldable pub get_format_container_format : Outcome String
  get_format_container_format =
      getter c.format (λ f. f.container_format) default_format "No format.container_format defined."

  unfoldable pub get_format_window_format : Outcome String
  get_format_window_format =
      getter c.format (λ f. f.window_format) default_format "No format.window_format defined."

  unfoldable pub get_format_indent : Outcome String
  get_format_indent = getter c.format (λ f. f.indent) default_format "No format.indent defined."

  unfoldable pub get_format_urgency_start : Outcome String
  get_format_urgency_start =
      getter c.format (λ f. f.urgency_start) default_format "No format.urgency_start defined."

  unfoldable pub get_format_urgency_end : Outcome String
  get_format_urgency_end =
      getter c.format (λ f. f.urgency_end) default_format "No format.urgency_end defined."

  unfoldable pub get_format_html_escape : Outcome Bool
  get_format_html_escape =
      getter c.format (λ f. f.html_escape) default_format "No format.html_escape defined."

  -- The map over the option expands the names before the `expect`.
  unfoldable pub get_format_icon_dirs : Option String → Outcome (List String)
  unfolding tilde_expand_file_names
  get_format_icon_dirs home = do
    dirs ← getter c.format (λ f. f.icon_dirs) default_format "No format.icon_dirs defined."
    tilde_expand_file_names home dirs

  unfoldable pub get_format_fallback_icon : Option String
  get_format_fallback_icon =
      or_else (setting c.format (λ f. f.fallback_icon)) default_format.fallback_icon

  unfoldable pub is_layout_auto_tile : Outcome Bool
  is_layout_auto_tile =
      getter c.layout (λ l. l.auto_tile) default_layout "No layout.auto_tile defined."

  unfoldable pub get_focus_lockin_delay : Outcome ℕ
  get_focus_lockin_delay =
      getter c.focus (λ f. f.lockin_delay) default_focus "No focus.lockin_delay defined."

  unfoldable pub get_misc_auto_nop_delay : Option ℕ
  get_misc_auto_nop_delay = setting c.misc (λ m. m.auto_nop_delay)

  unfoldable pub get_misc_seq_inhibit : Outcome Bool
  get_misc_seq_inhibit =
      getter c.misc (λ m. m.seq_inhibit) default_misc "No misc.seq_inhibit defined."

-- `for tup in vec { map.insert(tup[0], tup[1]) }`.
insert_pairs : List (ℤ × ℤ) → List (ℤ × ℤ) → List (ℤ × ℤ)
insert_pairs List.[] m = m
insert_pairs (List.◌∷◌ (w, min_w) pairs) m = insert_pairs pairs (insert w min_w m)

-- `Layout::auto_tile_min_window_width_per_output_width_as_map`.
unfoldable pub min_widths_of : Layout → Option (List (ℤ × ℤ))
unfolding insert_pairs insert
min_widths_of l = elim l.auto_tile_min_window_width_per_output_width [
  | some pairs ↦ some (insert_pairs pairs List.[])
  | none ↦ none
]

unfoldable pub min_widths : Config → Outcome (List (ℤ × ℤ))
unfolding min_widths_of
min_widths c =
    getter c.layout min_widths_of default_layout
      "No layout.auto_tile_min_window_width_per_output_width defined."
