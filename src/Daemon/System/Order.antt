-- ===== src/Daemon/System/Order.antt =====
-- swayrd as a whole: what holds in every state that can be reached.
use swayr.Base.Dict.{get}
use swayr.Base.{List, ℕ, suc, ◌≤◌, ℤ, Bool, some, ◌≡◌, sym, inl, inr, All, arith}
use swayr.Swayipc.{info}
use swayr.Focus.{send, FocusMessage, tick_update_inhibit, tick_update_activate}
use swayr.Focus.Laws.{tick}
use swayr.Config.Defaults.{Config}
use swayr.Daemon.LockIn
use swayr.Daemon.LockIn.{message, timeout, Received}
use swayr.Daemon.LockIn.Laws.{focus_chan-step}
use swayr.Daemon.Events.Laws.{handle_window_event-effect, handle_workspace_event-effect}
use swayr.Daemon.System.{
  System, Step, Reach, here, next, window_event, workspace_event, cycling_command, other_command,
  receive, delay_over,
}
use swayr.Daemon.System.Honest.{
  IsHonest, TrueMessage, send-TrueTicks, send-TrueChan, window_effect-IsHonest,
  workspace_effect-IsHonest,
}
use swayr.Daemon.System.Delay.{TrueReceived, step-TrueHandler}

module _ (config : Config) (seq_inhibit : Bool) (node_of : ℕ → ℤ) where
  command-IsHonest :
      (s : System) (msg : FocusMessage)
      → TrueMessage node_of s.counter msg
      → IsHonest node_of s
      → IsHonest node_of (record s { fdata = (send msg s.fdata).1 })
  command-IsHonest s msg m h = record {
    ticks = send-TrueTicks node_of s.counter s.fdata msg h.ticks;
    chan = send-TrueChan node_of s.counter s.fdata msg m h.chan;
    pending = h.pending;
    delayed = h.delayed;
  }

  -- A step of the lock-in thread, when the channel holds `rest`.
  handled-IsHonest :
      (s : System) (rest : List FocusMessage) (r : Received)
      → TrueReceived node_of s.counter r
      → All (TrueMessage node_of s.counter) rest
      → IsHonest node_of s
      → let s' = LockIn.step seq_inhibit (s.handler, record s.fdata { focus_chan = rest }) r in
        IsHonest node_of (record s { handler = s'.0; fdata = s'.1 })
  handled-IsHonest s rest r hr hs h =
      let f = record s.fdata { focus_chan = rest } in
      let t =
        step-TrueHandler node_of s.counter seq_inhibit s.handler.loop s.handler.inhibit
          s.handler.pending_fev f r h.ticks h.pending h.delayed hr in
      record {
        ticks = t.true_ticks;
        chan = rw (focus_chan-step seq_inhibit s.handler f r) hs;
        pending = t.true_pending;
        delayed = t.true_delayed;
      }

  Step-IsHonest :
      {s t : System} → Step config seq_inhibit node_of s t → IsHonest node_of s → IsHonest node_of t
  Step-IsHonest (window_event s ev sh b room same about returned) h =
      rw (handle_window_event-effect ev config (suc s.counter) sh returned, same)
        (window_effect-IsHonest node_of s ev.change (info ev.container).id h (sym about))
  Step-IsHonest (workspace_event s ch ws sh room same about) h =
      rw (handle_workspace_event-effect ch ws (suc s.counter) sh, same)
        (workspace_effect-IsHonest node_of s ch (info ws).id h (sym about))
  Step-IsHonest (cycling_command s) h = command-IsHonest s tick_update_inhibit tt h
  Step-IsHonest (other_command s) h = command-IsHonest s tick_update_activate tt h
  Step-IsHonest (receive s msg rest e) h =
      let both = rw e at h.chan in
      handled-IsHonest s rest (message msg) (unfold TrueReceived in both.0) both.1 h
  Step-IsHonest (delay_over s) h =
      handled-IsHonest s s.fdata.focus_chan timeout (unfold TrueReceived in tt) h.chan h

  Reach-IsHonest : {s : System} → Reach config seq_inhibit node_of s → IsHonest node_of s
  Reach-IsHonest here = record {
    ticks = λ id t e. absurd (unfold get in cc);
    chan = tt;
    pending = tt;
    delayed = tt;
  }
  Reach-IsHonest (next r st) = Step-IsHonest st (Reach-IsHonest r)

  -- However the threads of swayrd take turns, a tick that is not 0 is the number of an event that was
  -- about that node and has been counted.
  pub Reach-tick :
      {s : System} (id : ℤ) (t : ℕ)
      → Reach config seq_inhibit node_of s
      → tick s.fdata id ≡ some (suc t)
      → (node_of (suc t) ≡ id) × (suc t ≤ s.counter)
  Reach-tick id t r e = elim ((Reach-IsHonest r).ticks id (suc t) e) [
    | inl z ↦ absurd (omega arith)
    | inr h ↦ h
  ]
