-- ===== src/Bar/Sysinfo.antt =====
-- swayrbar/src/module/sysinfo.rs: processor, memory and load.
pub mod Laws
use swayr.Base.{
  Bool, true, false, Option, none, some, String, List, [], ◌∷◌, map, string_eq, ◌==◌, if◌then◌else◌,
}
use swayr.Base.Exec.{Exec, pure, ◌>>=◌}
use swayr.Fmt.{FmtArg, f32, f64}
use swayr.Fmt.Placeholders as Placeholders
use swayr.Bar.Config.{ModuleConfig, is_html_escape}
use swayr.Bar.Outside.{Crates, World, LoadAverage, ask}
use swayr.Bar.Module.{NameInstanceAndReason, should_refresh, Block, block}

abbrev pub name : String
name = "sysinfo"

pub record State (c : Crates) : Type 0 where
  pub cpu_usage : c.floats.F32
  pub mem_usage : c.floats.F64
  pub load_avg_1 : c.floats.F64
  pub load_avg_5 : c.floats.F64
  pub load_avg_15 : c.floats.F64
  pub cached_text : String

abbrev pub create : (c : Crates) → State c
create c = record {
  cpu_usage = c.f32_of 0;
  mem_usage = c.f64_of 0;
  load_avg_1 = c.f64_of 0;
  load_avg_5 = c.f64_of 0;
  load_avg_15 = c.f64_of 0;
  cached_text = "";
}

-- Which of its `Once`s have run.
pub record OnceRefresher : Type 0 where
  pub cpu : Bool
  pub memory : Bool

abbrev pub new : OnceRefresher
new = record { cpu = false; memory = false }

-- The `si::System`, and the refresher of this refresh.
abbrev pub Sys : Crates → Type 0
Sys c = c.System × OnceRefresher

unfoldable pub refresh_cpu : {c : Crates} → Sys c → Exec (World c) (Sys c)
refresh_cpu (sys, upd) =
    if upd.cpu then pure (sys, upd) else ask (λ o. (o.refresh_cpu sys, record upd { cpu = true }))

unfoldable pub refresh_memory : {c : Crates} → Sys c → Exec (World c) (Sys c)
refresh_memory (sys, upd) =
    if upd.memory
    then pure (sys, upd)
    else ask (λ o. (o.refresh_memory sys, record upd { memory = true }))

unfoldable pub get_cpu_usage : {c : Crates} → Sys c → Exec (World c) (c.floats.F32 × Sys c)
unfolding refresh_cpu
get_cpu_usage {c} sys = do s ← refresh_cpu sys; pure (c.cpu_usage s.0, s)

unfoldable pub get_memory_usage : {c : Crates} → Sys c → Exec (World c) (c.floats.F64 × Sys c)
unfolding refresh_memory
get_memory_usage {c} sys = do
  s ← refresh_memory sys
  pure (
    c.f64_div (c.f64_mul (c.f64_of (c.used_memory s.0)) (c.f64_of 100))
        (c.f64_of (c.total_memory s.0)),
    s,
  )

pub data LoadAvg : Type 0 where
  one five fifteen : LoadAvg

abbrev pub pick : {c : Crates} → LoadAvg → LoadAverage c → c.floats.F64
pick one l = l.one
pick five l = l.five
pick fifteen l = l.fifteen

unfoldable pub get_load_average :
    {c : Crates} → LoadAvg → Sys c → Exec (World c) (c.floats.F64 × Sys c)
unfolding refresh_cpu
get_load_average avg sys = do
  s ← refresh_cpu sys
  load_avg ← ask (λ o. o.load_average)
  pure (pick avg load_avg, s)

abbrev pub args : (c : Crates) → State c → String → Option (FmtArg c.floats)
args c state key =
    if key == "cpu_usage"
    then some (f32 state.cpu_usage)
    else if key == "mem_usage"
    then some (f64 state.mem_usage)
    else if key == "load_avg_1"
    then some (f64 state.load_avg_1)
    else if key == "load_avg_5"
    then some (f64 state.load_avg_5)
    else if key == "load_avg_15"
    then some (f64 state.load_avg_15)
    else none

unfoldable pub subst_placeholders : (c : Crates) → String → Bool → State c → String
unfolding Placeholders.subst_placeholders
subst_placeholders c fmt html_escape state =
    Placeholders.subst_placeholders c.format fmt html_escape (args c state)

unfoldable pub refresh_state :
    {c : Crates} → c.System → State c → String → Bool → Exec (World c) (c.System × State c)
unfolding get_cpu_usage get_memory_usage get_load_average subst_placeholders
refresh_state {c} sys state fmt_str html_escape = do
  cpu ← get_cpu_usage (sys, new)
  mem ← get_memory_usage cpu.1
  load_1 ← get_load_average one mem.1
  load_5 ← get_load_average five load_1.1
  load_15 ← get_load_average fifteen load_5.1
  let state' = record state {
    cpu_usage = cpu.0;
    mem_usage = mem.0;
    load_avg_1 = load_1.0;
    load_avg_5 = load_5.0;
    load_avg_15 = load_15.0;
  }
  pure
      (load_15.1.0, record state' { cached_text = subst_placeholders c fmt_str html_escape state' })

unfoldable pub build :
    {c : Crates}
    → ModuleConfig
    → c.System
    → State c
    → Option NameInstanceAndReason
    → Exec (World c) ((c.System × State c) × Block)
unfolding refresh_state should_refresh is_html_escape block
build cfg sys state nai = do
  new_state ←
      if should_refresh cfg nai true []
      then refresh_state sys state cfg.format (is_html_escape cfg)
      else pure (sys, state)
  pure (new_state, block name cfg new_state.1.cached_text)

unfoldable pub subst_args : (c : Crates) → State c → List String → List String
unfolding subst_placeholders
subst_args c state cmd = map (λ arg. subst_placeholders c arg false state) cmd
