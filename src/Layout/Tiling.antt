-- ===== src/Layout/Tiling.antt =====
-- swayr/src/layout.rs: `auto_tile` and `maybe_auto_tile`. The estimated width `w / 2.0` is compared
-- in `f32`; half an integer below 2 ^ 24 is exact there, so the test `w / 2 <= m` is `w <= 2 * m`.
pub mod Plan
pub mod Splits
use swayr.Base.{
  ℕ, ◌*◌, ◌+◌, ℤ, pos, negsuc, Bool, true, false, not, ◌&&◌, ◌||◌, Option, none, some, String, List,
  [], ◌∷◌, Outcome, ret, panic, filter_m, leb, if◌then◌else◌, int_eq, ◌==◌,
}
use swayr.Base.Exec.{Exec, pure, lift, for_each, ◌>>=◌, ◌>>◌}
use swayr.Base.Dict.{get}
use swayr.Base.Texts.{◌<>◌, show_int}
use swayr.Swayipc.{NodeType, NodeLayout, Node, info, nodes, layout_beq}
use swayr.Ipc.{Kind, kind_eq, get_type, has_type, iter, is_scratchpad}
use swayr.Wire.{Wire, Fallible, ok, failed, connect, request_tree, run_command}
use swayr.Config.Defaults.{Config}
use swayr.Config.Getters.{is_layout_auto_tile, min_widths}

abbrev pub int_leb : ℤ → ℤ → Bool
int_leb (pos a) (pos b) = leb a b
int_leb (pos a) (negsuc b) = false
int_leb (negsuc a) (pos b) = true
int_leb (negsuc a) (negsuc b) = leb b a

abbrev pub double : ℤ → ℤ
double (pos a) = pos (2 * a)
double (negsuc a) = negsuc (2 * a + 1)

-- `format!("[con_id={}] {}", id, cmd)`.
unfoldable pub con_command : ℤ → String → String
unfolding show_int
con_command id cmd = "[con_id=" <> show_int id <> "] " <> cmd

-- The choice of the split for a window of the container.
unfoldable pub choose_split : NodeLayout → ℤ → ℤ → Option String
choose_split layout width min_width =
    let narrow = int_leb width (double min_width) in
    if layout_beq layout NodeLayout.split_h && narrow
    then some "splitv"
    else if layout_beq layout NodeLayout.split_v && not narrow
    then some "splith"
    else none

-- An error of the command is logged only.
run_logged : String → Exec Wire (Unit {0})
unfolding run_command
run_logged cmd = do run_command cmd; pure tt

split_window : NodeLayout → ℤ → Node → Exec Wire (Unit {0})
unfolding choose_split con_command run_logged
split_window layout min_width win = elim (choose_split layout (info win).width min_width) [
  | some split ↦ run_logged (con_command (info win).id split)
  | none ↦ pure tt
]

-- The filter of `output.iter()`.
abbrev pub is_workspace_or_container : Node → Outcome Bool
is_workspace_or_container n = elim (get_type n) [
  | ret k ↦ ret (k == Kind.workspace || k == Kind.container)
  | panic e ↦ panic e
]

-- The windows come from an iterator with a filter: a type is asked for when its node is reached.
for_windows : NodeLayout → ℤ → List Node → Exec Wire (Unit {0})
unfolding split_window
for_windows _ min_width [] = pure tt
for_windows layout min_width (n ∷ l) = do
  is_win ← lift (has_type Kind.window n)
  if is_win then split_window layout min_width n else pure tt
  for_windows layout min_width l

tile_container : ℤ → Node → Exec Wire (Unit {0})
unfolding for_windows is_scratchpad
tile_container min_width container =
    if is_scratchpad container
    then pure tt
    else for_windows (info container).layout min_width (nodes container)

for_containers : ℤ → List Node → Exec Wire (Unit {0})
unfolding tile_container
for_containers min_width [] = pure tt
for_containers min_width (n ∷ l) = do
  wanted ← lift (is_workspace_or_container n)
  if wanted then tile_container min_width n else pure tt
  for_containers min_width l

abbrev is_output_type : NodeType → Bool
is_output_type NodeType.output = true
is_output_type _ = false

tile_output : List (ℤ × ℤ) → Node → Exec Wire (Unit {0})
unfolding for_containers get iter
tile_output res_to_min_width output =
    if is_output_type (info output).node_type
    then elim (get (info output).width res_to_min_width) [
      | some min_width ↦ for_containers min_width (iter output)
      | none ↦ pure tt
    ]
    else lift (panic "Child of Root is no Output")

unfoldable pub auto_tile : List (ℤ × ℤ) → Exec Wire (Unit {0})
unfolding connect request_tree tile_output
auto_tile res_to_min_width = do
  connected ← connect
  answer ← (if connected then request_tree else pure none)
  elim answer [ some tree ↦ for_each (nodes tree) (tile_output res_to_min_width) | none ↦ pure tt ]

unfoldable pub maybe_auto_tile : Config → Exec Wire (Unit {0})
unfolding auto_tile is_layout_auto_tile min_widths
maybe_auto_tile config = do
  wanted ← lift (is_layout_auto_tile config)
  if wanted then (do widths ← lift (min_widths config); auto_tile widths) else pure tt
