-- ===== src/Bar/Pactl.antt =====
-- swayrbar/src/module/pactl.rs: the volume, as `pactl` prints it.
pub mod Laws
use Prim.Native.Char.{code}
use Prim.Native.String.{[], ◌∷◌}
use swayr.Base.{
  ℕ, ◌+◌, ◌*◌, ◌-◌, Bool, true, false, ◌&&◌, Option, none, some, String, List, map, Outcome, ret,
  panic, or_else, leb, nat_beq, string_eq, ◌==◌, if◌then◌else◌,
}
use swayr.Base.Exec.{Exec, pure, lift, ◌>>=◌}
use swayr.Fmt.{FmtArg, u8, string, contains_text}
use swayr.Fmt.Placeholders as Placeholders
use swayr.Bar.Config.{ModuleConfig, is_html_escape}
use swayr.Bar.Outside.{Crates, World, Finished, not_run, finished, ask}
use swayr.Bar.Module.{click_event, NameInstanceAndReason, should_refresh, Block, block}

abbrev pub name : String
name = "pactl"

pub record State : Type 0 where
  pub volume : ℕ
  pub muted : Bool
  pub cached_text : String

abbrev pub create : State
create = record { volume = 255; muted = false; cached_text = "" }

-- `(\d+)%`, from the first character of the group on, where a digit has been read.
unfoldable pub digits_percent : Crates → String → Option String
digits_percent c [] = none
digits_percent c (d ∷ s) =
    let rest = digits_percent c s in
    if c.is_decimal (code d)
    then elim rest [ some ds ↦ some (d ∷ ds) | none ↦ none ]
    else if nat_beq (code d) b'%'
    then some ""
    else none

abbrev pub not_empty : Option String → Option String
not_empty none = none
not_empty (some s) = if s == "" then none else some s

-- `.?* (\d+)%.*` from a given place on: `.?*` takes as much of the line as it can.
unfoldable pub captured_in_line : Crates → String → Option String
unfolding digits_percent
captured_in_line c [] = none
captured_in_line c (d ∷ s) =
    let later = captured_in_line c s in
    let here : Option String =
      (if nat_beq (code d) b' ' then not_empty (digits_percent c s) else none) in
    if nat_beq (code d) b'\n' then none else or_else later here

-- `VOLUME_RX.captures`, group 1: the leftmost place where the expression matches.
unfoldable pub volume_rx : Crates → String → Option String
unfolding captured_in_line
volume_rx c [] = none
volume_rx c (d ∷ s) = or_else (captured_in_line c (d ∷ s)) (volume_rx c s)

-- `str::parse::<u8>` on digits of any script, from the value so far: only ASCII digits are accepted.
unfoldable pub parse_digits : ℕ → String → Option ℕ
parse_digits acc [] = some acc
parse_digits acc (d ∷ s) =
    let value = acc * 10 + (code d - b'0') in
    let rest = parse_digits value s in
    if leb b'0' (code d) && (leb (code d) b'9' && leb value 255) then rest else none

abbrev pub unwrapped : Option ℕ → Outcome ℕ
unwrapped (some n) = ret n
unwrapped none = panic "called `Result::unwrap()` on an `Err` value"

-- The group of the match, if there is one, as a number.
unfoldable pub volume_from : Option String → Outcome ℕ
unfolding parse_digits
volume_from none = ret 255
volume_from (some digits) = unwrapped (parse_digits 0 digits)

-- `run_pactl` does not look at the exit status.
unfoldable pub output_text : Finished → String
output_text (finished success utf8 s) = s
output_text not_run = ""

unfoldable pub run_pactl : {c : Crates} → List String → Exec (World c) String
unfolding output_text
run_pactl args = ask (λ o. output_text (o.command "pactl" args))

-- The volume that an output tells.
unfoldable pub volume_of : Crates → String → Outcome ℕ
unfolding volume_rx volume_from
volume_of c output = volume_from (volume_rx c output)

unfoldable pub get_volume : {c : Crates} → Exec (World c) ℕ
unfolding run_pactl volume_of
get_volume {c} = do
  output ← run_pactl (List.◌∷◌ "get-sink-volume" (List.◌∷◌ "@DEFAULT_SINK@" List.[]))
  lift (volume_of c output)

unfoldable pub get_mute_state : {c : Crates} → Exec (World c) Bool
unfolding run_pactl contains_text
get_mute_state = do
  output ← run_pactl (List.◌∷◌ "get-sink-mute" (List.◌∷◌ "@DEFAULT_SINK@" List.[]))
  pure (contains_text output "yes")

abbrev pub args : (c : Crates) → State → String → Option (FmtArg c.floats)
args c state key =
    if key == "volume"
    then some (u8 state.volume)
    else if key == "muted"
    then some (string (if state.muted then " muted" else ""))
    else none

unfoldable pub subst_placeholders : Crates → String → Bool → State → String
unfolding Placeholders.subst_placeholders
subst_placeholders c fmt html_escape state =
    Placeholders.subst_placeholders c.format fmt html_escape (args c state)

unfoldable pub refresh_state : {c : Crates} → State → String → Bool → Exec (World c) State
unfolding get_volume get_mute_state subst_placeholders
refresh_state {c} state fmt_str html_escape = do
  volume ← get_volume
  muted ← get_mute_state
  let new = record state { volume = volume; muted = muted }
  pure (record new { cached_text = subst_placeholders c fmt_str html_escape new })

unfoldable pub build :
    {c : Crates}
    → ModuleConfig
    → State
    → Option NameInstanceAndReason
    → Exec (World c) (State × Block)
unfolding refresh_state should_refresh is_html_escape block
build cfg state nai = do
  state' ←
      if should_refresh cfg nai true (List.◌∷◌ click_event List.[])
      then refresh_state state cfg.format (is_html_escape cfg)
      else pure state
  pure (state', block name cfg state'.cached_text)

unfoldable pub subst_args : Crates → State → List String → List String
unfolding subst_placeholders
subst_args c state cmd = map (λ arg. subst_placeholders c arg false state) cmd
