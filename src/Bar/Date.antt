-- ===== src/Bar/Date.antt =====
-- swayrbar/src/module/date.rs: the time. Printing it panics if the format is not valid.
use swayr.Base.{true, String, Option, List, [], ◌∷◌, expect, if◌then◌else◌}
use swayr.Base.Exec.{Exec, pure, lift, ◌>>=◌}
use swayr.Bar.Config.{ModuleConfig}
use swayr.Bar.Outside.{Crates, World, ask}
use swayr.Bar.Module.{NameInstanceAndReason, should_refresh, Block, block}

abbrev pub name : String
name = "date"

pub record State : Type 0 where
  pub cached_text : String

abbrev pub create : State
create = record { cached_text = "" }

unfoldable pub chrono_format : {c : Crates} → String → Exec (World c) String
chrono_format s = do
  now ← ask (λ o. o.local_time s)
  lift (expect now "a Display implementation returned an error unexpectedly")

unfoldable pub build :
    {c : Crates}
    → ModuleConfig
    → State
    → Option NameInstanceAndReason
    → Exec (World c) (State × Block)
unfolding chrono_format should_refresh block
build cfg state nai = do
  text ← if should_refresh cfg nai true [] then chrono_format cfg.format else pure state.cached_text
  pure (record { cached_text = text }, block name cfg text)

unfoldable pub subst_args : {c : Crates} → List String → Exec (World c) (List String)
unfolding chrono_format
subst_args [] = pure []
subst_args (arg ∷ cmd) = do text ← chrono_format arg; rest ← subst_args cmd; pure (text ∷ rest)
