-- ===== src/Bar/Config.antt =====
-- swayrbar/src/config.rs: the configuration of the bar and of one module.
use swayr.Base.{ℕ, Bool, false, Option, String, List, unwrap_or}

pub record ModuleConfig : Type 0 where
  pub name : String
  pub instance_name : String
  pub format : String
  pub html_escape : Option Bool
  pub on_click : Option (List (String × List String))

unfoldable pub is_html_escape : ModuleConfig → Bool
is_html_escape cfg = unwrap_or cfg.html_escape false

pub record Config : Type 0 where
  pub refresh_interval : ℕ
  pub modules : List ModuleConfig
