-- ===== src/Examples/Daemons.antt =====
-- The theorems on the threads of the daemon, the focus data and the configuration at short runs.
use swayr.Base.{
  int_eq, is_some, ◌==◌, if◌then◌else◌, ◌+◌, ℕ, suc, ◌≤◌, ℤ, pos, Bool, true, false, Option, none,
  some, String, List, [], ◌∷◌, ◌++◌, ret, refl, ◌≡◌, filter, arith,
}
use swayr.Config.Getters.{
  get_menu_executable, get_menu_args, get_format_output_format, get_format_workspace_format,
  get_format_container_format, get_format_window_format, get_format_indent,
  get_format_urgency_start, get_format_urgency_end, get_format_html_escape, get_format_icon_dirs,
  is_layout_auto_tile, min_widths, get_focus_lockin_delay, get_misc_seq_inhibit,
}
use swayr.Config.Getters.Returns.{Returns, getters_return}
use swayr.Focus.{
  send, FocusEvent, FocusData, focus_event, tick_update_inhibit, tick_update_activate,
}
use swayr.Config.Defaults.{Config}
use swayr.Daemon.LockIn.{Received, message, timeout, start, step, update_focus}
use swayr.Daemon.LockIn.Laws.{
  run, waiting, newest, focus_messages, sequence_locks_last, burst_locks_last,
}
use swayr.Daemon.Events.{Shared, WindowEvent, WindowChange, handle_window_event}
use swayr.Focus.Laws.{tick}
use swayr.Daemon.Events.Laws.{tick_behind, reported, handle_window_event-ticks}
use swayr.Daemon.Monitor.{Item, Attempt, unreachable, stream, monitor_sway_events, running}
use swayr.Daemon.Monitor.Laws.{monitor_sway_events-gives_up}
use swayr.Daemon.System.{initial, System, Reach, here, next, window_event, receive, delay_over}
use swayr.Daemon.System.Order.{Reach-tick}
use swayr.Examples.Data.{window, fdata, wire}

abbrev event : ℕ → ℕ → FocusEvent
event id n = record { node_id = pos id; ev_focus_ctr = n }

-- Two windows that a sequence passes, with a timeout between them.
abbrev passed : List Received
passed = message (focus_event (event 2 9)) ∷ timeout ∷ message (focus_event (event 3 10)) ∷ []

sequence_locks_last_example :
    run true
      (waiting, fdata)
      (message tick_update_inhibit ∷ (passed ++ message tick_update_activate ∷ []))
    ≡ (waiting, update_focus (newest passed none) fdata)
sequence_locks_last_example = sequence_locks_last none passed fdata (tt, (tt, (tt, tt)))

burst_locks_last_example :
    run true
      (waiting, fdata)
      (message (focus_event (event 1 8)) ∷ (focus_messages (event 2 9 ∷ []) ++ timeout ∷ []))
    ≡ (waiting, update_focus (some (event 2 9)) fdata)
burst_locks_last_example = burst_locks_last true (event 1 8) (event 2 9 ∷ []) fdata

-- With the messages about a sequence before, among and behind the others.
abbrev cycling : List Received
cycling = message tick_update_inhibit ∷ (passed ++ message tick_update_activate ∷ [])

abbrev plain : Config
plain = record { menu = none; format = none; layout = none; focus = none; misc = none }

abbrev shared : Shared
shared = record { fdata = fdata; wire = wire }

abbrev closing : WindowEvent
closing = record { change = WindowChange.close; container = window 2 false false }

-- Of the ids, the one of the window that is closed.
handle_window_event-ticks_example :
    (tick (handle_window_event closing plain 8 shared).1.fdata (pos 2)
      ≡ tick_behind WindowChange.close (pos 2) (pos 2) (tick fdata (pos 2)))
    × ((handle_window_event closing plain 8 shared).1.fdata.focus_chan
        ≡ [] ++ reported WindowChange.close (pos 2) 8)
unfolding handle_window_event
handle_window_event-ticks_example =
    handle_window_event-ticks closing plain 8 shared (pos 2) refl refl

-- A window is closed, and then two attempts yield nothing.
abbrev eventful : List Attempt
eventful = stream (Item.window closing ∷ Item.other ∷ []) ∷ []

monitor_sway_events-gives_up_example :
    monitor_sway_events plain (eventful ++ unreachable ∷ stream [] ∷ []) shared ≡ (
      ret (running, record { focus_counter = 1; resets = 2 }),
      (handle_window_event closing plain 1 shared).1,
    )
unfolding monitor_sway_events
monitor_sway_events-gives_up_example =
    monitor_sway_events-gives_up plain eventful (unreachable ∷ stream [] ∷ [])
      (record { focus_counter = 1; resets = 0 }) shared
      (handle_window_event closing plain 1 shared).1 tt refl (tt, (tt, tt))

-- A run: the window 1 gets the focus as the first event, the lock-in thread receives it, and the
-- delay expires.
abbrev focusing : WindowEvent
focusing = record { change = WindowChange.focus; container = window 1 true false }

abbrev start_shared : Shared
start_shared = record { fdata = initial.fdata; wire = wire }

abbrev entered : FocusData
entered = record {
  focus_tick_by_id = (pos 1, 0) ∷ [];
  focus_chan = focus_event (event 1 1) ∷ [];
  receiving = true;
}

abbrev locked : System
locked = record {
  fdata = record { focus_tick_by_id = (pos 1, 1) ∷ []; focus_chan = []; receiving = true };
  handler = start;
  counter = 1;
}

locked-Reach : Reach plain true (λ n. pos 1) locked
unfolding handle_window_event step send
locked-Reach =
    next
      (next
        (next here (window_event initial focusing start_shared true (omega arith) refl refl refl))
        (receive _ (focus_event (event 1 1)) [] refl))
      (delay_over _)

Reach-tick_example : (pos 1 ≡ pos 1) × (1 ≤ 1)
unfolding swayr.Base.Dict.get
Reach-tick_example = Reach-tick plain true (λ n. pos 1) (pos 1) 0 locked-Reach refl

getters_return_example :
    Returns (get_menu_executable plain)
    × Returns (get_menu_args plain)
    × Returns (get_format_output_format plain)
    × Returns (get_format_workspace_format plain)
    × Returns (get_format_container_format plain)
    × Returns (get_format_window_format plain)
    × Returns (get_format_indent plain)
    × Returns (get_format_urgency_start plain)
    × Returns (get_format_urgency_end plain)
    × Returns (get_format_html_escape plain)
    × Returns (get_format_icon_dirs plain (some "/root"))
    × Returns (is_layout_auto_tile plain)
    × Returns (min_widths plain)
    × Returns (get_focus_lockin_delay plain)
    × Returns (get_misc_seq_inhibit plain)
getters_return_example = getters_return plain "/root"
