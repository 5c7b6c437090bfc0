-- ===== src/Cmds/World.antt =====
-- swayr/src/cmds.rs: the state that the commands use: sway's socket, the focus data, the statics
-- `LAST_COMMAND` and `SWITCH_TO_MATCHING_DATA` with their locks, and the menu program.
use swayr.Base.{
  ℕ, suc, ℤ, Bool, false, Option, none, String, List, [], Outcome, ret, expect, if◌then◌else◌,
}
use swayr.Base.Exec.{gets, Exec, pure, lift, ◌>>=◌}
use swayr.Swayipc.{Node}
use swayr.Wire.{Wire}
use swayr.Focus.{FocusData, FocusMessage, send}
use swayr.Tree.Listing.{DisplayNode}
use swayr.Criteria.Syntax.{Externs}
use swayr.Tree.Build.{Tree, get_tree}
use swayr.Layout.Relayout.{ask_root}
use swayr.Util.{Selected, select}
use swayr.Cmds.Command.{SwayrCommand}

pub record SwitchToMatchingData : Type 0 where
  pub visited : List ℤ
  pub lru : Option ℤ
  pub origin : Option ℤ
  pub skip_urgent : Bool
  pub skip_lru : Bool
  pub skip_origin : Bool

abbrev pub new : SwitchToMatchingData
new = record {
  visited = [];
  lru = none;
  origin = none;
  skip_urgent = false;
  skip_lru = false;
  skip_origin = false;
}

unfoldable pub reset : SwitchToMatchingData → Bool → SwitchToMatchingData
reset d reset_skip_flags =
    let cleared = record d { visited = []; lru = none; origin = none } in
    if reset_skip_flags
    then record cleared { skip_urgent = false; skip_lru = false; skip_origin = false }
    else cleared

-- `answers n` is what the menu program prints at the `n`-th prompt, `none` if it cannot be run.
-- `locked` says that the two statics are locked; `killed` lists the processes given to `kill -9`.
pub record World : Type 0 where
  pub wire : Wire
  pub fdata : FocusData
  pub last_command : SwayrCommand
  pub stm_data : SwitchToMatchingData
  pub locked : Bool
  pub answers : ℕ → Option String
  pub asked : ℕ
  pub killed : List ℤ

-- `swayipc::Output`, as far as it is used.
pub record Output : Type 0 where
  pub name : String
  pub modes : List (ℕ × ℕ)

-- What the code takes from elsewhere: the crates behind `Externs`, the text that an entry is shown
-- as (`format_for_display`) and that `Debug` gives a command, the random choices, and the
-- outputs that sway reports.
pub record Env : Type 0 where
  pub externs : Externs
  pub display : DisplayNode → Outcome String
  pub debug : SwayrCommand → String
  pub shuffle : List Node → List Node
  pub choose : List Node → Option Node
  pub get_outputs : Outcome (List Output)

abbrev pub M : Type 0 → Type 0
M A = Exec World A

abbrev pub on_wire : {A : Type 0} → Exec Wire A → M A
on_wire m w = let (r, wire') = m w.wire in (r, record w { wire = wire' })

unfoldable pub send_message : FocusMessage → M (Unit {0})
unfolding send
send_message msg w = let (r, f) = send msg w.fdata in (r, record w { fdata = f })

abbrev next_answer : M (Option String)
next_answer w = (ret (w.answers w.asked), record w { asked = suc w.asked })

unfoldable pub select_from_menu : {A : Type 0} → (A → Outcome String) → List A → M (Selected A)
unfolding select
select_from_menu format choices = do
  answer ← next_answer
  stdout ← lift (expect answer "Error running the menu program")
  lift (select format choices stdout)

-- A tree of sway's, asked for over a connection.
unfoldable pub ask_tree : Bool → M Tree
unfolding ask_root get_tree
ask_tree include_scratchpad = do root ← on_wire (ask_root include_scratchpad); pure (get_tree root)

-- The entries that a list of `Tree` has now.
unfoldable pub ask_for :
    Bool → (Tree → FocusData → Outcome (List DisplayNode)) → M (List DisplayNode)
unfolding ask_tree
ask_for include_scratchpad entries = do
  t ← ask_tree include_scratchpad
  fdata ← gets (λ w. w.fdata)
  lift (entries t fdata)
