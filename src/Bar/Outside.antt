-- ===== src/Bar/Outside.antt =====
-- What the bar reads from its surroundings. The crates that it uses are the parameter `Crates`; how the
-- rest of the machine answers the `n`-th request is `outside n`, which the program cannot choose.
use swayr.Base.{ℕ, suc, Bool, Option, String, List, ret}
use swayr.Base.Exec.{Exec}
use swayr.Swayipc.{Node}
use swayr.Fmt.{Floats, FmtArg}
use swayr.Bar.Module.{Block}

-- Rust's floats, and the crates `rt_format`, `sysinfo` and `regex`. `is_decimal` is the class `\d`.
pub record Crates : Type 1 where
  pub floats : Floats
  pub format : String → FmtArg floats → Option String
  pub f32_of : ℕ → floats.F32
  pub f32_add : floats.F32 → floats.F32 → floats.F32
  pub f32_mul : floats.F32 → floats.F32 → floats.F32
  pub f32_div : floats.F32 → floats.F32 → floats.F32
  pub f64_of : ℕ → floats.F64
  pub f64_mul : floats.F64 → floats.F64 → floats.F64
  pub f64_div : floats.F64 → floats.F64 → floats.F64
  pub System : Type 0
  pub cpu_usage : System → floats.F32
  pub used_memory : System → ℕ
  pub total_memory : System → ℕ
  pub is_decimal : ℕ → Bool

-- A battery of the crate `battery`, with its values after a refresh; `state` is the Debug form.
pub record Battery (c : Crates) : Type 0 where
  pub state_of_charge : c.floats.F32
  pub state_of_health : c.floats.F32
  pub state : String
  pub refreshes : Bool

-- `sysinfo::LoadAvg`.
pub record LoadAverage (c : Crates) : Type 0 where
  pub one : c.floats.F64
  pub five : c.floats.F64
  pub fifteen : c.floats.F64

-- How a command ended whose output is read: whether its exit status is a success, whether its output
-- is UTF-8, and what lossy decoding makes of that.
pub data Finished : Type 0 where
  not_run : Finished
  finished : Bool → Bool → String → Finished

-- `tree` is sway's answer, `command` what a program with its arguments does, `manager` whether a battery
-- manager can be made, `local_time` the time in a format, if that is valid, `hash_order` the order in
-- which a set of texts is gone through, and `new_system`, `refresh_cpu` and `refresh_memory` read the
-- machine.
pub record Outside (c : Crates) : Type 0 where
  pub tree : Option Node
  pub command : String → List String → Finished
  pub manager : Bool
  pub batteries : Option (List (Option (Battery c)))
  pub hash_order : List String → List String
  pub local_time : String → Option String
  pub refresh_cpu : c.System → c.System
  pub refresh_memory : c.System → c.System
  pub load_average : LoadAverage c
  pub new_system : c.System

-- What the bar prints: a line of text, or the blocks of a status, as JSON.
pub data Printed : Type 0 where
  line : String → Printed
  status : List Block → Printed

-- `ran` are the commands that were run for clicks, oldest first.
pub record World (c : Crates) : Type 0 where
  pub outside : ℕ → Outside c
  pub now : ℕ
  pub ran : List (List String)
  pub output : List Printed

abbrev pub tick : {c : Crates} → World c → World c
tick w = record w { now = suc w.now }

abbrev pub ask : {c : Crates} {A : Type 0} → (Outside c → A) → Exec (World c) A
ask f w = (ret (f (w.outside w.now)), tick w)
