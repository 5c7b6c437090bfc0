-- ===== src/Bar/Nmcli.antt =====
-- swayrbar/src/module/nmcli.rs: the wireless network in use, as `nmcli` prints it.
pub mod Laws
use Prim.Native.Char.{code, Char}
use Prim.Native.String.{[], ◌∷◌}
use swayr.Base.{
  ℕ, Bool, true, false, Option, none, some, String, List, map, Outcome, ret, panic, expect, find,
  nat_beq, string_eq, ◌==◌, if◌then◌else◌,
}
use swayr.Base.Exec.{Exec, pure, lift, ◌>>=◌}
use swayr.Base.Texts.{◌<>◌, split}
use swayr.Fmt.{FmtArg, string}
use swayr.Fmt.Placeholders as Placeholders
use swayr.Bar.Config.{ModuleConfig, is_html_escape}
use swayr.Bar.Outside.{Crates, World, Finished, not_run, finished, ask}
use swayr.Bar.Module.{click_event, NameInstanceAndReason, should_refresh, Block, block}

abbrev pub name : String
name = "nmcli"

pub record State : Type 0 where
  pub cached_text : String
  pub signal : Option String
  pub name : Option String
  pub bars : Option String

abbrev pub create : State
create = record { cached_text = ""; signal = none; name = none; bars = none }

-- The carriage return that may stand before a newline.
unfoldable pub strip_cr : String → String
strip_cr [] = []
strip_cr (c ∷ []) = if nat_beq (code c) b'\r' then [] else c ∷ []
strip_cr (c ∷ d ∷ s) = c ∷ strip_cr (d ∷ s)

-- The pieces between newlines as lines: there is none behind the last newline.
unfoldable pub as_lines : List String → List String
unfolding strip_cr
as_lines List.[] = List.[]
as_lines (List.◌∷◌ w List.[]) = if w == "" then List.[] else List.◌∷◌ w List.[]
as_lines (List.◌∷◌ w (List.◌∷◌ v l)) = List.◌∷◌ (strip_cr w) (as_lines (List.◌∷◌ v l))

-- `str::lines`.
unfoldable pub lines : String → List String
unfolding split as_lines
lines s = as_lines (split b'\n' s)

-- `line.starts_with("*")`.
abbrev pub starts_with_star : String → Bool
starts_with_star [] = false
starts_with_star (c ∷ s) = nat_beq (code c) b'*'

-- The calls of `parts.next().unwrap()`: the first part is dropped, and those behind the fourth are not
-- looked at.
unfoldable pub take_parts : List String → State → Outcome State
take_parts (List.◌∷◌ use_mark (List.◌∷◌ ssid (List.◌∷◌ signal (List.◌∷◌ bars l)))) state =
    ret (record state { name = some ssid; signal = some signal; bars = some bars })
take_parts _ state = panic "called `Option::unwrap()` on a `None` value"

abbrev pub cleared : State → State
cleared state = record state { name = none; signal = none; bars = none }

unfoldable pub read_line : Option String → State → Outcome State
unfolding take_parts split
read_line none state = ret state
read_line (some line) state = take_parts (split b':' line) state

unfoldable pub read_output : String → State → Outcome State
unfolding read_line lines
read_output output state = read_line (find starts_with_star (lines output)) (cleared state)

-- The result of `run_nmcli`: `none` for its errors.
unfoldable pub run_result : Finished → Outcome (Option String)
run_result not_run = ret none
run_result (finished false utf8 s) = ret none
run_result (finished true true s) = ret (some s)
run_result (finished true false s) = panic "called `Result::unwrap()` on an `Err` value"

abbrev pub nmcli_args : List String
nmcli_args = List.◌∷◌ "-c" (
    List.◌∷◌ "no" (
      List.◌∷◌ "-g"
        (List.◌∷◌ "IN-USE,SSID,SIGNAL,BARS" (List.◌∷◌ "dev" (List.◌∷◌ "wifi" List.[])))))

abbrev pub with_sign : Option String → String → String
with_sign none sign = ""
with_sign (some s) sign = " " <> s <> sign

abbrev pub args : (c : Crates) → State → String → Option (FmtArg c.floats)
args c state key =
    if key == "name"
    then some (string (elim state.name [ none ↦ "No wi-fi" | some ssid ↦ ssid ]))
    else if key == "signal"
    then some (string (with_sign state.signal "%"))
    else if key == "bars"
    then some (string (with_sign state.bars ""))
    else none

unfoldable pub subst_placeholders : Crates → String → Bool → State → String
unfolding Placeholders.subst_placeholders
subst_placeholders c fmt html_escape state =
    Placeholders.subst_placeholders c.format fmt html_escape (args c state)

unfoldable pub refresh_from : Option String → State → Outcome State
unfolding read_output
refresh_from none state = ret state
refresh_from (some output) state = read_output output state

unfoldable pub refresh_state : {c : Crates} → State → String → Bool → Exec (World c) State
unfolding run_result refresh_from subst_placeholders
refresh_state {c} state fmt_str html_escape = do
  end ← ask (λ o. o.command "nmcli" nmcli_args)
  result ← lift (run_result end)
  new ← lift (refresh_from result state)
  pure (record new { cached_text = subst_placeholders c fmt_str html_escape new })

unfoldable pub build :
    {c : Crates}
    → ModuleConfig
    → State
    → Option NameInstanceAndReason
    → Exec (World c) (State × Block)
unfolding refresh_state should_refresh is_html_escape block
build cfg state nai = do
  state' ←
      if should_refresh cfg nai true (List.◌∷◌ click_event List.[])
      then refresh_state state cfg.format (is_html_escape cfg)
      else pure state
  pure (state', block name cfg state'.cached_text)

unfoldable pub subst_args : Crates → State → List String → List String
unfolding subst_placeholders
subst_args c state cmd = map (λ arg. subst_placeholders c arg false state) cmd
