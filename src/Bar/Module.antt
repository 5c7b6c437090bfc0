-- ===== src/Bar/Module.antt =====
-- swayrbar/src/module.rs: what the modules of the bar share, and the block that each of them builds.
use swayr.Base.{
  Bool, true, false, ◌&&◌, Option, none, some, String, List, any, PartialEq, string_eq, ◌==◌, ◌≡◌,
  ◌↔◌, if◌then◌else◌, arith,
}
use swayr.Bar.Config.{ModuleConfig}

pub data RefreshReason : Type 0 where
  click_event sway_event : RefreshReason

abbrev pub reason_beq : RefreshReason → RefreshReason → Bool
reason_beq click_event click_event = true
reason_beq sway_event sway_event = true
reason_beq _ _ = false

pub reason_beq_iff : (a b : RefreshReason) → (reason_beq a b ≡ true) ↔ (a ≡ b)
reason_beq_iff click_event b = ground arith
reason_beq_iff sway_event b = ground arith

instance abbrev pub reason_eq : PartialEq RefreshReason
reason_eq = record { is_eq = reason_beq; is_eq_iff = reason_beq_iff }

-- `NameInstanceAndReason`.
abbrev pub NameInstanceAndReason : Type 0
NameInstanceAndReason = String × String × RefreshReason

unfoldable pub get_on_click_map :
    ModuleConfig → String → String → Option (List (String × List String))
get_on_click_map cfg name inst =
    if name == cfg.name && inst == cfg.instance_name then cfg.on_click else none

unfoldable pub should_refresh :
    ModuleConfig → Option NameInstanceAndReason → Bool → List RefreshReason → Bool
should_refresh cfg none periodic reasons = periodic
should_refresh cfg (some (n, i, r)) periodic reasons =
    n == cfg.name && (i == cfg.instance_name && any (λ x. x == r) reasons)

pub data Align : Type 0 where
  left center right : Align

pub data Markup : Type 0 where
  no_markup pango : Markup

-- `swaybar_types::Block`, without the fields that every module leaves at `None`.
pub record Block : Type 0 where
  pub name : Option String
  pub instance_name : Option String
  pub full_text : String
  pub align : Option Align
  pub markup : Option Markup
  pub separator : Option Bool

-- The block at the end of every `build`.
unfoldable pub block : String → ModuleConfig → String → Block
block name cfg cached_text = record {
  name = some name;
  instance_name = some cfg.instance_name;
  full_text = cached_text;
  align = some left;
  markup = some pango;
  separator = some true;
}
