-- ===== src/Daemon/System/Delay.antt =====
-- swayrd as a whole: the lock-in thread keeps what is true of the ticks.
use swayr.Daemon.LockIn
use swayr.Base.{ℕ, ℤ, Option, none, some, int_eq, true, false, Bool}
use swayr.Focus.{FocusData, FocusEvent, focus_event, tick_update_inhibit, tick_update_activate}
use swayr.Daemon.LockIn.{
  Loop, Received, message, timeout, disconnected, InhibitState, update_focus, Handler,
}
use swayr.Daemon.System.Honest.{TrueMessage, TrueOption, TrueLoop, TrueTicks, update-TrueTicks}

module _ (node_of : ℕ → ℤ) where
  update_focus-TrueTicks :
      (c : ℕ) (o : Option FocusEvent) (f : FocusData)
      → TrueOption node_of c o
      → TrueTicks node_of c f
      → TrueTicks node_of c (update_focus o f)
  unfolding update_focus
  update_focus-TrueTicks c none f h ts = ts
  update_focus-TrueTicks c (some ev) f h ts = update-TrueTicks node_of c f ev h ts

  unfoldable pub TrueReceived : ℕ → Received → Type 0
  TrueReceived c (message msg) = TrueMessage node_of c msg
  TrueReceived c _ = Unit

  -- The lock-in thread, where it waits in the loop `k`.
  pub record TrueHandler (c : ℕ) (h : Handler) (f : FocusData) : Type 0 where
    pub true_ticks : TrueTicks node_of c f
    pub true_pending : TrueOption node_of c h.pending_fev
    pub true_delayed : TrueLoop node_of c h.loop

  pub step-TrueHandler :
      (c : ℕ) (b : Bool) (k : Loop) (i : InhibitState) (p : Option FocusEvent) (f : FocusData)
      (r : Received)
      → TrueTicks node_of c f
      → TrueOption node_of c p
      → TrueLoop node_of c k
      → TrueReceived c r
      → let s' = LockIn.step b (record { loop = k; inhibit = i; pending_fev = p }, f) r in
        TrueHandler c s'.0 s'.1
  unfolding LockIn.step TrueReceived
  step-TrueHandler c b Loop.returned i p f r ts hp hl hr = record {
    true_ticks = ts;
    true_pending = hp;
    true_delayed = hl;
  }
  step-TrueHandler c true Loop.outer i p f (message tick_update_inhibit) ts hp hl hr = record {
    true_ticks = ts;
    true_pending = hp;
    true_delayed = tt;
  }
  step-TrueHandler c false Loop.outer i p f (message tick_update_inhibit) ts hp hl hr = record {
    true_ticks = ts;
    true_pending = hp;
    true_delayed = tt;
  }
  step-TrueHandler c true Loop.outer i p f (message tick_update_activate) ts hp hl hr = record {
    true_ticks = update_focus-TrueTicks c p f hp ts;
    true_pending = tt;
    true_delayed = tt;
  }
  step-TrueHandler c false Loop.outer i p f (message tick_update_activate) ts hp hl hr = record {
    true_ticks = ts;
    true_pending = hp;
    true_delayed = tt;
  }
  step-TrueHandler c b Loop.outer InhibitState.focus_inhibit p f (message (focus_event ev)) ts hp hl
        hr =
      record { true_ticks = ts; true_pending = hr; true_delayed = tt }
  step-TrueHandler c b Loop.outer InhibitState.focus_active p f (message (focus_event ev)) ts hp hl
        hr =
      record { true_ticks = ts; true_pending = hp; true_delayed = hr }
  step-TrueHandler c true (Loop.inner fev) i p f (message tick_update_inhibit) ts hp hl hr =
      record { true_ticks = ts; true_pending = hl; true_delayed = tt }
  step-TrueHandler c false (Loop.inner fev) i p f (message tick_update_inhibit) ts hp hl hr =
      record { true_ticks = ts; true_pending = hp; true_delayed = hl }
  step-TrueHandler c true (Loop.inner fev) i p f (message tick_update_activate) ts hp hl hr =
      record {
        true_ticks = update_focus-TrueTicks c (some fev) f hl ts;
        true_pending = hp;
        true_delayed = tt;
      }
  step-TrueHandler c false (Loop.inner fev) i p f (message tick_update_activate) ts hp hl hr =
      record { true_ticks = ts; true_pending = hp; true_delayed = hl }
  step-TrueHandler c b (Loop.inner fev) i p f (message (focus_event ev)) ts hp hl hr = record {
    true_ticks = ts;
    true_pending = hp;
    true_delayed = hr;
  }
  step-TrueHandler c b Loop.outer i p f timeout ts hp hl hr = record {
    true_ticks = ts;
    true_pending = hp;
    true_delayed = tt;
  }
  step-TrueHandler c b (Loop.inner fev) i p f timeout ts hp hl hr = record {
    true_ticks = update_focus-TrueTicks c (some fev) f hl ts;
    true_pending = hp;
    true_delayed = tt;
  }
  step-TrueHandler c b Loop.outer i p f disconnected ts hp hl hr = record {
    true_ticks = ts;
    true_pending = hp;
    true_delayed = tt;
  }
  step-TrueHandler c b (Loop.inner fev) i p f disconnected ts hp hl hr = record {
    true_ticks = ts;
    true_pending = hp;
    true_delayed = tt;
  }
