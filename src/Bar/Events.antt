-- ===== src/Bar/Events.antt =====
-- swayrbar/src/bar.rs: `handle_sway_events`, which tells the window modules of sway's events. What sway
-- does is a list of attempts to subscribe; where the list ends the loop still runs.
pub mod Laws
use swayr.Base.{
  ℕ, ◌+◌, Bool, true, false, String, List, [], ◌∷◌, ◌++◌, map, filter, leb, string_eq, ◌==◌,
  if◌then◌else◌, Option, none, some,
}
use swayr.Bar.Config.{ModuleConfig}
use swayr.Bar.Module.{NameInstanceAndReason, sway_event}
use swayr.Bar.Outside.{Crates}
use swayr.Bar.Status.{BarModule, get_config}

-- An item of the event stream.
pub data Item : Type 0 where
  window workspace shutdown other error : Item

pub data Attempt : Type 0 where
  unreachable : Attempt
  stream : List Item → Attempt

-- How the loop stands.
pub data Exit : Type 0 where
  running shut_down gave_up : Exit

abbrev pub max_resets : ℕ
max_resets = 10

-- `window_mods` of `start`.
unfoldable pub window_mods : {c : Crates} → List (BarModule c) → List (String × String)
window_mods mods =
    map (λ m. ((get_config m).name, (get_config m).instance_name))
      (filter (λ m. (get_config m).name == "window") mods)

-- The `for` loop over the window modules.
abbrev pub notices : List (String × String) → List NameInstanceAndReason
notices mods = map (λ m. (m.0, m.1, sway_event)) mods

-- The variable `resets`, and the events sent so far. Whether the channel is open makes no difference.
pub record Loop : Type 0 where
  pub resets : ℕ
  pub sent : List NameInstanceAndReason

abbrev pub heard : Loop → Loop
heard s = record s { resets = 0 }

abbrev pub announce : List (String × String) → Loop → Loop
announce mods s = record { resets = 0; sent = s.sent ++ notices mods }

-- The `for` loop over the stream, and whether sway shuts down.
unfoldable pub run_stream : List (String × String) → List Item → Loop → Loop × Bool
run_stream mods [] s = (s, false)
run_stream mods (window ∷ l) s = run_stream mods l (announce mods s)
run_stream mods (workspace ∷ l) s = run_stream mods l (announce mods s)
run_stream mods (shutdown ∷ l) s = (heard s, true)
run_stream mods (other ∷ l) s = run_stream mods l (heard s)
run_stream mods (error ∷ l) s = run_stream mods l (heard s)

-- An attempt, with `resets` counted already.
unfoldable pub run_attempt : List (String × String) → Attempt → Loop → Loop × Bool
unfolding run_stream
run_attempt mods unreachable s = (s, false)
run_attempt mods (stream items) s = run_stream mods items s

abbrev pub count_reset : Loop → Loop
count_reset s = record s { resets = s.resets + 1 }

-- Behind an attempt: the loop ends, or goes on.
abbrev pub go_on : Loop × Bool → (Loop → Exit × Loop) → Exit × Loop
go_on (s, true) rest = (shut_down, s)
go_on (s, false) rest = rest s

unfoldable pub reset_loop : List (String × String) → List Attempt → Loop → Exit × Loop
unfolding run_attempt
reset_loop mods [] s = ((if leb max_resets s.resets then gave_up else running), s)
reset_loop mods (a ∷ l) s = elim (leb max_resets s.resets) [
  | true ↦ (gave_up, s)
  | false ↦ go_on (run_attempt mods a (count_reset s)) (reset_loop mods l)
]

unfoldable pub handle_sway_events : List (String × String) → List Attempt → Exit × Loop
unfolding reset_loop
handle_sway_events mods attempts = reset_loop mods attempts (record { resets = 0; sent = [] })
