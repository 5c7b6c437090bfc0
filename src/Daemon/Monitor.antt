-- ===== src/Daemon/Monitor.antt =====
-- swayr/src/daemon.rs: `monitor_sway_events`. What sway does is a list of attempts to subscribe, each
-- with the events that come before the stream ends; where the list ends the loop still runs.
pub mod Laws
use swayr.Base.{ℕ, suc, ◌+◌, ◌%◌, ◌^◌, Bool, true, false, List, [], ◌∷◌, leb, if◌then◌else◌}
use swayr.Base.Exec.{Exec, pure, ◌>>=◌, ◌>>◌}
use swayr.Config.Defaults.{Config}
use swayr.Daemon.Events.{
  Shared, WindowEvent, WorkspaceEvent, handle_window_event, handle_workspace_event,
}

-- An item of the event stream.
pub data Item : Type 0 where
  window : WindowEvent → Item
  workspace : WorkspaceEvent → Item
  shutdown other error : Item

pub data Attempt : Type 0 where
  unreachable : Attempt
  stream : List Item → Attempt

-- The variables of the loop: `focus_counter`, a `u64`, and `resets`.
pub record Counters : Type 0 where
  pub focus_counter : ℕ
  pub resets : ℕ

-- How the loop stands: it goes on, sway has shut down, or it has given up.
pub data Exit : Type 0 where
  running shut_down gave_up : Exit

abbrev pub max_resets : ℕ
max_resets = 10

abbrev pub bump : Counters → Counters
bump c = record { focus_counter = (c.focus_counter + 1) % 2 ^ 64; resets = 0 }

abbrev pub keep : Counters → Counters
keep c = record c { resets = 0 }

-- The `for` loop over the stream: the counters behind it, and whether sway shuts down.
run_stream : Config → List Item → Counters → Exec Shared (Counters × Bool)
unfolding handle_window_event handle_workspace_event
run_stream config [] c = pure (c, false)
run_stream config (window ev ∷ l) c =
    handle_window_event ev config (bump c).focus_counter >> run_stream config l (bump c)
run_stream config (workspace ev ∷ l) c =
    handle_workspace_event ev (bump c).focus_counter >> run_stream config l (bump c)
run_stream config (shutdown ∷ l) c = pure (keep c, true)
run_stream config (other ∷ l) c = run_stream config l (keep c)
run_stream config (error ∷ l) c = run_stream config l (keep c)

-- An attempt, with `resets` counted already.
run_attempt : Config → Attempt → Counters → Exec Shared (Counters × Bool)
unfolding run_stream
run_attempt config unreachable c = pure (c, false)
run_attempt config (stream items) c = run_stream config items c

count_reset : Counters → Counters
count_reset c = record c { resets = c.resets + 1 }

reset_loop : Config → List Attempt → Counters → Exec Shared (Exit × Counters)
unfolding run_attempt count_reset
reset_loop config [] c = pure ((if leb max_resets c.resets then gave_up else running), c)
reset_loop config (a ∷ l) c = elim (leb max_resets c.resets) [
  | true ↦ pure (gave_up, c)
  | false ↦ run_attempt config a (count_reset c) >>= λ r. elim r.1 [
    | true ↦ pure (shut_down, r.0)
    | false ↦ reset_loop config l r.0
  ]
]

unfoldable pub monitor_sway_events : Config → List Attempt → Exec Shared (Exit × Counters)
unfolding reset_loop
monitor_sway_events config attempts =
    reset_loop config attempts (record { focus_counter = 0; resets = 0 })
