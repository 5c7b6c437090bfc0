-- ===== src/Daemon/System.antt =====
-- swayr/src/daemon.rs: the threads of swayrd together. The monitor, the lock-in thread and the thread
-- that serves clients take their steps in any order; they share the focus data and the channel.
pub mod Honest
pub mod Delay
pub mod Order
use swayr.Base.{ℕ, suc, ◌^◌, ◌<◌, ℤ, Bool, Option, some, List, [], ◌∷◌, ◌≡◌, ret}
use swayr.Swayipc.{Node, info}
use swayr.Focus.{FocusData, FocusMessage, tick_update_inhibit, tick_update_activate, send}
use swayr.Config.Defaults.{Config}
use swayr.Daemon.Events.{
  Shared, WindowEvent, WorkspaceChange, handle_window_event, handle_workspace_event,
}
use swayr.Daemon.LockIn
use swayr.Daemon.LockIn.{Handler, start, message, timeout}

-- The focus data, the lock-in thread, and the number of events that the monitor has counted.
pub record System : Type 0 where
  pub fdata : FocusData
  pub handler : Handler
  pub counter : ℕ

abbrev pub initial : System
initial = record {
  fdata = record { focus_tick_by_id = []; focus_chan = []; receiving = Bool.true };
  handler = start;
  counter = 0;
}

-- A step of one of the threads. `node_of n` is the node that the `n`-th event of sway is about, and
-- the counter stays within a `u64`.
pub data Step (config : Config) (seq_inhibit : Bool) (node_of : ℕ → ℤ)
    : System → System → Type 0 where
  window_event :
      (s : System) (ev : WindowEvent) (sh : Shared) (b : Bool)
      → suc s.counter < 2 ^ 64
      → sh.fdata ≡ s.fdata
      → (info ev.container).id ≡ node_of (suc s.counter)
      → (handle_window_event ev config (suc s.counter) sh).0 ≡ ret b
      → Step config seq_inhibit node_of s (record s {
        fdata = (handle_window_event ev config (suc s.counter) sh).1.fdata;
        counter = suc s.counter;
      })
  workspace_event :
      (s : System) (ch : WorkspaceChange) (ws : Node) (sh : Shared)
      → suc s.counter < 2 ^ 64
      → sh.fdata ≡ s.fdata
      → (info ws).id ≡ node_of (suc s.counter)
      → Step config seq_inhibit node_of s (record s {
        fdata =
            (handle_workspace_event
              (record { change = ch; current = some ws })
              (suc s.counter)
              sh).1.fdata;
        counter = suc s.counter;
      })
  cycling_command :
      (s : System)
      → Step config seq_inhibit node_of s
          (record s { fdata = (send tick_update_inhibit s.fdata).1 })
  other_command :
      (s : System)
      → Step config seq_inhibit node_of s
          (record s { fdata = (send tick_update_activate s.fdata).1 })
  receive :
      (s : System) (msg : FocusMessage) (rest : List FocusMessage)
      → s.fdata.focus_chan ≡ msg ∷ rest
      → Step config seq_inhibit node_of s (record s {
        handler =
            (LockIn.step seq_inhibit
              (s.handler, record s.fdata { focus_chan = rest })
              (message msg)).0;
        fdata =
            (LockIn.step seq_inhibit
              (s.handler, record s.fdata { focus_chan = rest })
              (message msg)).1;
      })
  delay_over :
      (s : System)
      → Step config seq_inhibit node_of s (record s {
        handler = (LockIn.step seq_inhibit (s.handler, s.fdata) timeout).0;
        fdata = (LockIn.step seq_inhibit (s.handler, s.fdata) timeout).1;
      })

pub data Reach (config : Config) (seq_inhibit : Bool) (node_of : ℕ → ℤ) : System → Type 0 where
  here : Reach config seq_inhibit node_of initial
  next :
      {s t : System}
      → Reach config seq_inhibit node_of s
      → Step config seq_inhibit node_of s t
      → Reach config seq_inhibit node_of t
