-- ===== src/Bar/Battery.antt =====
-- swayrbar/src/module/battery.rs: charge, health and state of the batteries.
pub mod Laws
use swayr.Base.{
  ℕ, Bool, true, false, Option, none, some, String, List, [], ◌∷◌, map, Outcome, ret, panic, length,
  contains, string_eq, nat_eq, ◌==◌, if◌then◌else◌,
}
use swayr.Base.Exec.{Exec, pure, lift, ◌>>=◌, ◌>>◌}
use swayr.Base.Texts.{◌<>◌}
use swayr.Fmt.{FmtArg, f32, string}
use swayr.Fmt.Placeholders as Placeholders
use swayr.Bar.Config.{ModuleConfig, is_html_escape}
use swayr.Bar.Outside as Outside
use swayr.Bar.Outside.{Crates, World, Battery, ask}
use swayr.Bar.Module.{NameInstanceAndReason, should_refresh, Block, block}

abbrev pub name : String
name = "battery"

pub record State (c : Crates) : Type 0 where
  pub state_of_charge : c.floats.F32
  pub state_of_health : c.floats.F32
  pub state : String
  pub cached_text : String

abbrev pub create : (c : Crates) → State c
create c = record {
  state_of_charge = c.f32_of 0;
  state_of_health = c.f32_of 0;
  state = "Unknown";
  cached_text = "";
}

-- The `for` loop over the batteries: an error of one ends it.
unfoldable pub refreshed : {c : Crates} → List (Option (Battery c)) → Option (List (Battery c))
refreshed [] = some []
refreshed (none ∷ l) = none
refreshed (some b ∷ l) = elim (refreshed l) [
  | none ↦ none
  | some bats ↦ some (if b.refreshes then b ∷ bats else bats)
]

unfoldable pub get_refreshed_batteries :
    {c : Crates} → Option (List (Option (Battery c))) → Option (List (Battery c))
unfolding refreshed
get_refreshed_batteries none = none
get_refreshed_batteries (some l) = refreshed l

-- `.sum::<f32>()`, from the sum so far.
unfoldable pub sum : (c : Crates) → c.floats.F32 → List c.floats.F32 → c.floats.F32
sum c acc [] = acc
sum c acc (x ∷ l) = sum c (c.f32_add acc x) l

unfoldable pub mean_percent : (c : Crates) → List c.floats.F32 → c.floats.F32
unfolding sum
mean_percent c l = c.f32_mul (c.f32_div (sum c (c.f32_of 0) l) (c.f32_of (length l))) (c.f32_of 100)

-- `collect::<HashSet<String>>()`: each text once.
unfoldable pub collect_set : List String → List String
collect_set [] = []
collect_set (s ∷ l) = let rest = collect_set l in if contains rest s then rest else s ∷ rest

-- The `for` loop over the set.
unfoldable pub comma_sep : String → Bool → List String → String
comma_sep acc first [] = acc
comma_sep acc first (s ∷ l) = comma_sep (if first then acc <> s else acc <> ", " <> s) false l

-- The states, in the order in which the set is gone through.
unfoldable pub join_states : List String → String
unfolding comma_sep
join_states (s ∷ []) = s
join_states states = comma_sep "[" true states <> "]"

abbrev pub args : (c : Crates) → State c → String → Option (FmtArg c.floats)
args c state key =
    if key == "state_of_charge"
    then some (f32 state.state_of_charge)
    else if key == "state_of_health"
    then some (f32 state.state_of_health)
    else if key == "state"
    then some (string state.state)
    else none

unfoldable pub subst_placeholders : (c : Crates) → String → Bool → State c → String
unfolding Placeholders.subst_placeholders
subst_placeholders c fmt html_escape state =
    Placeholders.subst_placeholders c.format fmt html_escape (args c state)

abbrev pub with_batteries :
    {c : Crates} → (List String → List String) → List (Battery c) → State c → State c
with_batteries {c} hash_order bats state = record state {
  state_of_charge = mean_percent c (map (λ b. b.state_of_charge) bats);
  state_of_health = mean_percent c (map (λ b. b.state_of_health) bats);
  state = join_states (hash_order (collect_set (map (λ b. b.state) bats)));
}

unfoldable pub show_batteries :
    {c : Crates}
    → (List String → List String)
    → Option (List (Battery c))
    → State c
    → String
    → Bool
    → State c
unfolding mean_percent join_states collect_set subst_placeholders
show_batteries hash_order none state fmt_str html_escape = state
show_batteries {c} hash_order (some bats) state fmt_str html_escape =
    let new = with_batteries hash_order bats state in
    record new { cached_text = subst_placeholders c fmt_str html_escape new }

-- `battery::Manager::new().unwrap()`.
abbrev pub new_manager : Bool → Outcome (Unit {0})
new_manager true = ret tt
new_manager false = panic "called `Result::unwrap()` on an `Err` value"

unfoldable pub refresh_state : {c : Crates} → State c → String → Bool → Exec (World c) (State c)
unfolding show_batteries get_refreshed_batteries
refresh_state state fmt_str html_escape = do
  made ← ask (λ o. o.manager)
  lift (new_manager made)
  bats ← ask (λ o. get_refreshed_batteries o.batteries)
  hash_order ← ask (λ o. o.hash_order)
  pure (show_batteries hash_order bats state fmt_str html_escape)

unfoldable pub build :
    {c : Crates}
    → ModuleConfig
    → State c
    → Option NameInstanceAndReason
    → Exec (World c) (State c × Block)
unfolding refresh_state should_refresh is_html_escape block
build cfg state nai = do
  state' ←
      if should_refresh cfg nai true []
      then refresh_state state cfg.format (is_html_escape cfg)
      else pure state
  pure (state', block name cfg state'.cached_text)

unfoldable pub subst_args : (c : Crates) → State c → List String → List String
unfolding subst_placeholders
subst_args c state cmd = map (λ arg. subst_placeholders c arg false state) cmd
